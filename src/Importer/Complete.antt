-- ===== src/Importer/Complete.antt =====
-- src/internal/importer/importer.go: the pass that comes once all files have landed.
use mathlib.Core.Path.{subst}
use airgap_snapshots.Base.{
  ◌≡◌, refl, sym, ◌∙◌, inl, inr, Bool, if◌then◌else◌, true, false, List, [], ◌∷◌, arith, All,
  Bool-cases, length, ltb, Result, ok, M, pure,
}
use airgap_snapshots.Base.Integer.{ℤ}
use airgap_snapshots.Base.Text.{Text}
use airgap_snapshots.Objstore.{Store}
use airgap_snapshots.Manifest.{FileEntry, Manifest}
use airgap_snapshots.Importer.{Inbox, Imported, Summary, is_discovery, import_one}
use airgap_snapshots.Importer.Pass.{
  Pass, start_pass, count_one, data_step, data_phase, commit_phase, finish_pass, import_files,
}
use airgap_snapshots.Importer.Laws.{Observed, InboxLaws, StoreLaws}
use airgap_snapshots.Importer.Effect.{Present, import_one-Outcome}
use airgap_snapshots.Importer.Counts.{
  discovery_files-All, data_phase-Counted, data_step_of_data, data_step_of_discovery,
}
use airgap_snapshots.Importer.Landing.{HasSize, count_one_done}
use airgap_snapshots.Importer.Commit.{import_files-Present}
use airgap_snapshots.Importer.Progress.{Works, HasLanded, HasLanded-landed, import_one_done}

module _ {W : Type 0} (sha256_hex : Text → Text) (inbox : Inbox W) (root : Text) (store : Store W)
    (observe : W → Observed) (inbox_laws : InboxLaws observe inbox)
    (store_laws : StoreLaws observe store) (works : Works observe inbox store) where
  abbrev Arrived : W → FileEntry → Type 0
  Arrived w e =
      HasLanded sha256_hex inbox root store observe inbox_laws store_laws works e (observe w)

  Arrived-landed :
      (files : List FileEntry) (w w' : W)
      → (observe w').landed ≡ (observe w).landed
      → All (Arrived w) files
      → All (Arrived w') files
  Arrived-landed [] w w' h l = tt
  Arrived-landed (e ∷ files) w w' h (l, ls) = (
    HasLanded-landed sha256_hex inbox root store observe inbox_laws store_laws works e (observe w)
        (observe w') h l,
    Arrived-landed files w w' h ls,
  )

  -- An action that returned with nothing pending, and left the inbox alone.
  record Clear (w : W) (r : Result Pass × W) : Type 0 where
    pass : Pass
    returned : r.0 ≡ ok pass
    pending : pass.res.pending ≡ 0
    files_kept : (observe r.1).landed ≡ (observe w).landed

  one_done :
      (e : FileEntry) (s : Pass) (w : W)
      → Arrived w e
      → (one : Imported) × ((import_one sha256_hex inbox root store e s.index w).0 ≡ ok one)
        × ((count_one s one).res.pending ≡ s.res.pending)
        × (one.done ≡ true)
        × ((observe (import_one sha256_hex inbox root store e s.index w).1).landed
            ≡ (observe w).landed)
  one_done e s w l =
      let (one, returned, done) =
        import_one_done sha256_hex inbox root store observe inbox_laws store_laws works e s.index w
          l in
      let outcome =
        import_one-Outcome sha256_hex inbox root observe inbox_laws store store_laws e s.index w in
      (one, returned, (count_one_done s one done).0, done, outcome.effect.landed)

  data_step-Clear :
      (e : FileEntry) (s : Pass) (w : W)
      → Arrived w e
      → s.res.pending ≡ 0
      → Clear w (data_step sha256_hex inbox root store e s w)
  data_step-Clear e s w l z = elim (Bool-cases (is_discovery e)) [
    | inl y ↦
        rw (data_step_of_discovery sha256_hex inbox root store e s y)
          (record { pass = _; returned = refl; pending = z; files_kept = refl })
    | inr n ↦
        let (one, returned, same, done, kept) = one_done e s w l in
        rw (data_step_of_data sha256_hex inbox root store e s n) (record {
          pass = count_one s one;
          returned = rw returned refl;
          pending = same ∙ z;
          files_kept = rw returned kept;
        })
  ]

  data_phase-Clear :
      (files : List FileEntry) (s : Pass) (w : W)
      → All (Arrived w) files
      → s.res.pending ≡ 0
      → Clear w (data_phase sha256_hex inbox root store files s w)
  unfolding data_phase
  data_phase-Clear [] s w l z = record { pass = s; returned = refl; pending = z; files_kept = refl }
  data_phase-Clear (e ∷ files) s w (l, ls) z =
      let one = data_step-Clear e s w l z in
      let w₁ = (data_step sha256_hex inbox root store e s w).1 in
      let rest =
        data_phase-Clear files one.pass w₁ (Arrived-landed files w w₁ one.files_kept ls)
          one.pending in
      rw one.returned (record {
        pass = rest.pass;
        returned = rest.returned;
        pending = rest.pending;
        files_kept = rest.files_kept ∙ one.files_kept;
      })

  commit_phase_done :
      (files : List FileEntry) (s : Pass) (w : W)
      → All (Arrived w) files
      → s.res.pending ≡ 0
      → (res : Summary) × ((commit_phase sha256_hex inbox root store files s w).0 ≡ ok res)
        × (res.committed ≡ true)
  unfolding commit_phase
  commit_phase_done [] s w l z = (_, refl, ground arith)
  commit_phase_done (e ∷ files) s w (l, ls) z =
      let (one, returned, same, done, kept) = one_done e s w l in
      let w₁ = (import_one sha256_hex inbox root store e s.index w).1 in
      let (res, rest, committed) =
        commit_phase_done files (count_one s one) w₁ (Arrived-landed files w w₁ kept ls)
          (same ∙ z) in
      let go_on = commit_phase sha256_hex inbox root store files (count_one s one) in
      let stop : M W Summary = pure (count_one s one).res in
      (
        res,
        rw returned
            (subst (λ (b : Bool). ((if b then go_on else stop) w₁).0 ≡ ok res) (sym done) rest),
        committed,
      )

  -- Once the file of every entry stands at its place in the inbox with the size and the hash that the
  -- manifest says, and no call on the inbox or on the destination fails, the next pass succeeds and
  -- commits: it counts all entries as imported and none as pending, and leaves the object of each in
  -- the destination. The sizes of entries of one key must agree.
  pub import_files_commits :
      (size_of : Text → ℤ) (m : Manifest) (w : W)
      → All (HasSize size_of) m.files
      → All
          (λ e.
            HasLanded sha256_hex inbox root store observe inbox_laws store_laws works e (observe w))
          m.files
      → (res : Summary) × ((import_files sha256_hex inbox root store m w).0 ≡ ok res)
        × (res.committed ≡ true)
        × (res.files_imported ≡ length m.files)
        × (res.pending ≡ 0)
        × All
            (λ e. Present sha256_hex e (observe (import_files sha256_hex inbox root store m w).1))
            m.files
  unfolding import_files finish_pass
  import_files_commits size_of m w sized l =
      let first = data_phase-Clear m.files start_pass w l refl in
      let w₁ = (data_phase sha256_hex inbox root store m.files start_pass w).1 in
      let deferred =
        (data_phase-Counted sha256_hex inbox root store m.files start_pass first.pass w
          first.returned).deferred in
      let later : All (Arrived w₁) first.pass.commit = subst (All (Arrived w₁)) (sym deferred) (
        discovery_files-All (Arrived w₁) m.files
          (Arrived-landed m.files w w₁ first.files_kept l)) in
      let (res, returned, committed) =
        commit_phase_done first.pass.commit first.pass w₁ later first.pending in
      let clear : ltb 0 first.pass.res.pending ≡ false = ground (arith, first.pending) in
      let outcome : (import_files sha256_hex inbox root store m w).0 ≡ ok res =
        rw first.returned (rw clear returned) in
      let (count, pending, there) =
        import_files-Present sha256_hex inbox root store observe inbox_laws store_laws size_of m
          sized res w outcome committed in
      (res, outcome, committed, count, pending, there)
