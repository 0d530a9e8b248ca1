-- ===== src/Controller/Bundles/Outcome.antt =====
-- src/internal/controller/backupreplication_controller.go: `summarize`.
use airgap_snapshots.Base.{
  ◌≡◌, ◌≢◌, ◌↔◌, refl, sym, ◌∙◌, Bool, true, false, not, ◌&&◌, ◌||◌, List, [], ◌∷◌, ◌++◌,
  append_assoc, append-nil, map, arith, All, if◌then◌else◌, ltb, length,
}
use airgap_snapshots.Base.Integer.{ℤ}
use airgap_snapshots.Base.Text.{Text}
use airgap_snapshots.Api.Replication.{BundlePhase}
use airgap_snapshots.Peat.{
  DistributionStatus, completed, failed, cancelled, pending, in_progress, Progress,
}
use airgap_snapshots.Controller.Bundles.{
  Tally, start_tally, tally_one, tally_all, summarize, is_completed, is_failed,
}

abbrev every_completed : List Progress → Bool
every_completed [] = true
every_completed (p ∷ progs) = is_completed p.status && every_completed progs

abbrev some_failed : List Progress → Bool
some_failed [] = false
some_failed (p ∷ progs) = is_failed p.status || some_failed progs

tally_all-flags :
    (t : Tally) (progs : List Progress)
    → ((tally_all t progs).any_failed ≡ (t.any_failed || some_failed progs))
      × ((tally_all t progs).all_completed ≡ (t.all_completed && every_completed progs))
      × ((tally_all t progs).ids ≡ t.ids ++ map (λ (p : Progress). p.distribution_id) progs)
unfolding tally_all tally_one
tally_all-flags t [] = (ground arith, ground arith, simp append-nil)
tally_all-flags t (p ∷ progs) =
    let (a, b, c) = tally_all-flags (tally_one t p) progs in
    (
      a ∙ flag_or (is_failed p.status) t.any_failed (some_failed progs),
      b ∙ flag_and (is_completed p.status) t.all_completed (every_completed progs),
      c ∙ append_assoc t.ids _ _,
    )
  where
    flag_or : (x y z : Bool) → ((if x then true else y) || z) ≡ (y || (x || z))
    flag_or x y z = ground arith

    flag_and : (x y z : Bool) → ((if not x then false else y) && z) ≡ (y && (x && z))
    flag_and x y z = ground arith

is_completed_lem : (s : DistributionStatus) → (is_completed s ≡ true) ↔ (s ≡ completed)
unfolding is_completed
is_completed_lem completed = (λ _. refl, λ _. refl)
is_completed_lem pending = ground arith
is_completed_lem in_progress = ground arith
is_completed_lem failed = ground arith
is_completed_lem cancelled = ground arith

every_completed_lem :
    (progs : List Progress)
    → (every_completed progs ≡ true) ↔ All (λ (p : Progress). p.status ≡ completed) progs
every_completed_lem [] = (λ _. tt, λ _. refl)
every_completed_lem (p ∷ progs) =
    let (f, g) = is_completed_lem p.status in
    let (f', g') = every_completed_lem progs in
    (λ h. (f (ground arith), f' (ground arith)), λ (a, b). ground (arith, g a, g' b))

not_both : (p : Progress) → p.status ≡ completed → is_failed p.status ≡ false
unfolding is_failed
not_both p h = rw h refl

none_failed : (progs : List Progress) → every_completed progs ≡ true → some_failed progs ≡ false
none_failed [] h = refl
none_failed (p ∷ progs) h =
    ground (arith, none_failed progs, not_both p ((is_completed_lem p.status).0 (ground arith)))

nonempty : (progs : List Progress) → (ltb 0 (length progs) ≡ true) ↔ (progs ≢ [])
nonempty [] = ground arith
nonempty (p ∷ progs) = (λ _ e. cc e, λ _. ground arith)

phase_completed :
    (f a n : Bool)
    → (a ≡ true → f ≡ false)
    → ((if f
          then BundlePhase.failed
          else if a && n
          then BundlePhase.completed
          else BundlePhase.in_progress)
        ≡ BundlePhase.completed)
      ↔ ((n ≡ true) × (a ≡ true))
phase_completed true a n h = ground arith
phase_completed false true true h = ground arith
phase_completed false true false h = ground arith
phase_completed false false n h = ground arith

phase_of :
    (f a : Bool) (b : ℤ) (ids : List Text) (r : BundlePhase × ℤ × List Text)
    → r ≡ (
        if f
        then (BundlePhase.failed, b, ids)
        else if a
        then (BundlePhase.completed, b, ids)
        else (BundlePhase.in_progress, b, ids))
    → (r.0 ≡ (
        if f
        then BundlePhase.failed
        else if a
        then BundlePhase.completed
        else BundlePhase.in_progress))
      × (r.2 ≡ ids)
phase_of true a b ids r h = (rw h refl, rw h refl)
phase_of false true b ids r h = (rw h refl, rw h refl)
phase_of false false b ids r h = (rw h refl, rw h refl)

summarize-phase :
    (progs : List Progress)
    → (summarize progs).0 ≡ (
        if some_failed progs
        then BundlePhase.failed
        else if every_completed progs && ltb 0 (length progs)
        then BundlePhase.completed
        else BundlePhase.in_progress)
unfolding summarize
summarize-phase progs =
    let t = tally_all start_tally progs in
    let (a, b, _) = tally_all-flags start_tally progs in
    (phase_of t.any_failed (t.all_completed && ltb 0 (length progs)) t.bytes t.ids (summarize progs)
      refl).0
    ∙ (rw (a, b) refl)

-- A bundle counts as completed exactly if it has a distribution and all of them are completed, and
-- its distribution ids are those of the progress, in order.
pub summarize-completed :
    (progs : List Progress)
    → (((summarize progs).0 ≡ BundlePhase.completed)
        ↔ ((progs ≢ []) × All (λ (p : Progress). p.status ≡ completed) progs))
      × ((summarize progs).2 ≡ map (λ (p : Progress). p.distribution_id) progs)
unfolding summarize
summarize-completed progs =
    let (f, g) =
      phase_completed (some_failed progs) (every_completed progs) (ltb 0 (length progs))
        (none_failed progs) in
    let (n, n') = nonempty progs in
    let (c, c') = every_completed_lem progs in
    let e = summarize-phase progs in
    let t = tally_all start_tally progs in
    (
      (λ h. let (x, y) = f (sym e ∙ h) in (n x, c y), λ (x, y). e ∙ g (n' x, c' y)),
      (phase_of t.any_failed (t.all_completed && ltb 0 (length progs)) t.bytes t.ids
            (summarize progs) refl).1
          ∙ (tally_all-flags start_tally progs).2,
    )
