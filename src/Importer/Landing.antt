-- ===== src/Importer/Landing.antt =====
-- src/internal/importer/importer.go: what the two loops of `Import` leave behind when nothing is
-- pending.
use mathlib.Core.Path.{subst}
use mathlib.Core.List.{Memᴰ}
use airgap_snapshots.Base.{
  ◌+◌, ◌≡◌, sym, ap, ◌∙◌, inl, inr, Bool, true, false, List, [], ◌∷◌, arith, All, Bool-cases,
  Result, ok, err, M, pure, length, if◌then◌else◌,
}
use airgap_snapshots.Base.Integer.{ℤ}
use airgap_snapshots.Base.Keeps.{bind-eq-ok, bind-pure-world}
use airgap_snapshots.Base.Text.{Text}
use airgap_snapshots.Objstore.{Store}
use airgap_snapshots.Manifest.{FileEntry}
use airgap_snapshots.Importer.{Inbox, Imported, Summary, is_discovery, import_one}
use airgap_snapshots.Importer.Pass.{Pass, count_one, data_step, data_phase, commit_phase}
use airgap_snapshots.Importer.Counts.{
  count_one-committed, data_step_of_data, data_step_of_discovery,
}
use airgap_snapshots.Importer.Laws.{Observed, InboxLaws, StoreLaws}
use airgap_snapshots.Importer.Effect.{Present}
use airgap_snapshots.Importer.Change.{Change-Present}
use airgap_snapshots.Importer.Phases.{
  IsData, outcome, commit_step, data_phase-Change, commit_phase-Change,
}

-- The entries of one key have one size.
abbrev pub HasSize : (Text → ℤ) → FileEntry → Type 0
HasSize size_of e = e.size ≡ size_of e.key

-- What the first loop is to have made of a data entry.
abbrev pub Landed : {W : Type 0} → (Text → Text) → (W → Observed) → W → FileEntry → Type 0
Landed sha256_hex observe w e = is_discovery e ≡ false → Present sha256_hex e (observe w)

abbrev was_committed : Result Summary → Bool
was_committed (ok r) = r.committed
was_committed (err _) = false

pub count_one_done :
    (s : Pass) (one : Imported)
    → one.done ≡ true
    → ((count_one s one).res.pending ≡ s.res.pending)
      × ((count_one s one).res.files_imported ≡ s.res.files_imported + 1)
unfolding count_one
count_one_done s one d = ground arith

module _ {W : Type 0} (sha256_hex : Text → Text) (inbox : Inbox W) (root : Text) (store : Store W)
    (observe : W → Observed) (inbox_laws : InboxLaws observe inbox)
    (store_laws : StoreLaws observe store) where
  module _ (size_of : Text → ℤ) where
    pub All-HasSize :
        (files : List FileEntry)
        → All (HasSize size_of) files
        → (e : FileEntry) → Memᴰ e files
        → HasSize size_of e
    All-HasSize [] h e m = elim m [ ]
    All-HasSize (x ∷ files) (h, t) e (Memᴰ.head k) = subst (HasSize size_of) (sym k) h
    All-HasSize (x ∷ files) (h, t) e (Memᴰ.tail m) = All-HasSize files t e m

    count_one-pending :
        (s s' : Pass) (one : Imported)
        → count_one s one ≡ s'
        → s'.res.pending ≡ 0
        → (s.res.pending ≡ 0) × (one.done ≡ true)
    unfolding count_one
    count_one-pending s s' one h z =
        let p : (count_one s one).res.pending ≡ 0 = ap (λ (q : Pass). q.res.pending) h ∙ z in
        ground arith

    data_step-Landed :
        (e : FileEntry) (s s' : Pass) (w : W)
        → (data_step sha256_hex inbox root store e s w).0 ≡ ok s'
        → s'.res.pending ≡ 0
        → (s.res.pending ≡ 0)
          × Landed sha256_hex observe (data_step sha256_hex inbox root store e s w).1 e
    data_step-Landed e s s' w h z = elim (Bool-cases (is_discovery e)) [
      | inl y ↦
          let h' =
            subst (λ (m : M W Pass). (m w).0 ≡ ok s')
              (data_step_of_discovery sha256_hex inbox root store e s y) h in
          (ground arith, λ n. cc)
      | inr n ↦
          let m = import_one sha256_hex inbox root store e s.index in
          let h' =
            subst (λ (m : M W Pass). (m w).0 ≡ ok s')
              (data_step_of_data sha256_hex inbox root store e s n) h in
          let (one, e₁, o, _) = bind-eq-ok m (λ one. pure (count_one s one)) w s' h' in
          let (z', done) = count_one-pending s s' one (cc) z in
          let there =
            (outcome sha256_hex inbox root store observe inbox_laws store_laws e s.index w).present
              one e₁ done in
          (
            z',
            λ _.
                subst (λ (m : M W Pass). Present sha256_hex e (observe (m w).1))
                  (sym (data_step_of_data sha256_hex inbox root store e s n))
                  (subst (λ w'. Present sha256_hex e (observe w'))
                    (sym (bind-pure-world m (count_one s) w)) there),
          )
    ]

    -- If nothing is pending after the first loop, every data entry is there.
    pub data_phase-Landed :
        (files : List FileEntry) (s s' : Pass) (w : W)
        → All (HasSize size_of) files
        → (data_phase sha256_hex inbox root store files s w).0 ≡ ok s'
        → s'.res.pending ≡ 0
        → (s.res.pending ≡ 0)
          × All
              (Landed sha256_hex observe (data_phase sha256_hex inbox root store files s w).1)
              files
    unfolding data_phase
    data_phase-Landed [] s s' w sized h z = (ground arith, tt)
    data_phase-Landed (e ∷ files) s s' w (size, sized) h z =
        let step = data_step sha256_hex inbox root store e s in
        let (s₁, e₁, rest, world) =
          bind-eq-ok step (data_phase sha256_hex inbox root store files) w s' h in
        let w₁ = (step w).1 in
        let (z₁, later) = data_phase-Landed files s₁ s' w₁ sized rest z in
        let (z₀, here) = data_step-Landed e s s₁ w e₁ z₁ in
        let kept =
          Change-Present sha256_hex (IsData files) size_of (λ e' d. All-HasSize files sized e' d.0)
            (data_phase-Change sha256_hex inbox root store observe inbox_laws store_laws
              (IsData files) files s₁ w₁ (λ e' d. d))
            e size in
        (
          z₀,
          subst (λ w'. All (Landed sha256_hex observe w') (e ∷ files)) (sym world)
              (λ d. kept (here d), later),
        )

    commit_step_done :
        (files : List FileEntry) (s : Pass) (one : Imported) (r : Summary) (w : W)
        → (commit_step sha256_hex inbox root store observe inbox_laws store_laws files s one w).0
          ≡ ok r
        → r.committed ≡ true
        → s.res.committed ≡ false
        → (one.done ≡ true)
          × (commit_step sha256_hex inbox root store observe inbox_laws store_laws files s one
              ≡ commit_phase sha256_hex inbox root store files (count_one s one))
    unfolding commit_step
    commit_step_done files s one r w h c u =
        let go_on = commit_phase sha256_hex inbox root store files (count_one s one) in
        let stop : M W Summary = pure (count_one s one).res in
        let choose = λ (b : Bool). if b then go_on else stop in
        elim (Bool-cases one.done) [
          | inl y ↦ (y, ap choose y)
          | inr n ↦
              let h' = subst (λ (b : Bool). (choose b w).0 ≡ ok r) n h in
              cc (count_one-committed s one, ap (λ (q : Result Summary). was_committed q) h')
        ]

    -- If the second loop commits, every deferred entry is there, and all are counted.
    pub commit_phase-Present :
        (files : List FileEntry) (s : Pass) (r : Summary) (w : W)
        → All (HasSize size_of) files
        → (commit_phase sha256_hex inbox root store files s w).0 ≡ ok r
        → r.committed ≡ true
        → s.res.committed ≡ false
        → (s.res.pending ≡ 0)
          × (r.pending ≡ 0)
          × (r.files_imported ≡ s.res.files_imported + length files)
          × All
              (λ e.
                Present sha256_hex e
                  (observe (commit_phase sha256_hex inbox root store files s w).1))
              files
    unfolding commit_phase commit_step
    commit_phase-Present [] s r w sized h c u = (ground arith, ground arith, ground arith, tt)
    commit_phase-Present (e ∷ files) s r w (size, sized) h c u =
        let m = import_one sha256_hex inbox root store e s.index in
        let (one, e₁, rest, world) =
          bind-eq-ok m
            (commit_step sha256_hex inbox root store observe inbox_laws store_laws files s) w r h in
        let (done, same) = commit_step_done files s one r (m w).1 rest c u in
        let s₁ = count_one s one in
        let w₁ = (m w).1 in
        let (z, z', n, later) =
          commit_phase-Present files s₁ r w₁ sized
            (subst (λ (m : M W Summary). (m w₁).0 ≡ ok r) same rest) c
            (count_one-committed s one ∙ u) in
        let kept =
          Change-Present sha256_hex (λ e'. Memᴰ e' files) size_of (All-HasSize files sized)
            (commit_phase-Change sha256_hex inbox root store observe inbox_laws store_laws
              (λ e'. Memᴰ e' files) files s₁ w₁ (λ e' d. d))
            e size
            ((outcome sha256_hex inbox root store observe inbox_laws store_laws e s.index w).present
              one e₁ done) in
        let end = world ∙ ap (λ (m : M W Summary). (m w₁).1) same in
        let counted = count_one_done s one done in
        (
          omega arith,
          z',
          omega arith,
          subst (λ w'. All (λ e'. Present sha256_hex e' (observe w')) (e ∷ files)) (sym end)
              (kept, later),
        )
