-- ===== src/Importer/Idempotent.antt =====
-- src/internal/importer/importer.go: `Import` of a backup that is in the destination already.
use mathlib.Core.Path.{subst}
use airgap_snapshots.Base.{
  ℕ, suc, ◌+◌, ◌≡◌, refl, sym, ap, ◌∙◌, inl, inr, true, false, List, [], ◌∷◌, ◌++◌, append-nil,
  append_assoc, Option, none, some, arith, All, Bool-cases, Result, ok, M, pure, ◌>>=◌, length,
  if◌then◌else◌,
}
use airgap_snapshots.Base.Integer.{pos, int_eq, int_eq_refl}
use airgap_snapshots.Base.Text.{Text}
use airgap_snapshots.Objstore.{Store, ObjectInfo}
use airgap_snapshots.Manifest.{FileEntry, Manifest}
use airgap_snapshots.Importer.{
  Inbox, Index, Imported, Summary, already_there, is_discovery, import_missing, import_one,
}
use airgap_snapshots.Importer.Pass.{
  Pass, count_one, data_step, data_phase, commit_phase, finish_pass, import_files, start_pass,
}
use airgap_snapshots.Importer.Laws.{Observed, StoreLaws}
use airgap_snapshots.Importer.Effect.{Present}
use airgap_snapshots.Importer.Counts.{discovery_files, discovery_files-All}

module _ {W : Type 0} (sha256_hex : Text → Text) (inbox : Inbox W) (root : Text) (store : Store W)
    (observe : W → Observed) (store_laws : StoreLaws observe store) where
  -- The store answers every look at an object that it holds, with its size.
  abbrev pub StatAnswers : Type 0
  StatAnswers =
      (k : Text) (w : W) (c : Text)
      → (observe w).stored k ≡ some c
      → (info : ObjectInfo) × ((store.stat k w).0 ≡ ok (some info)) × (info.size ≡ pos (length c))

  -- The action returned `a` and left what is observed as it is.
  abbrev Quiet : {A : Type 0} → W → Result A × W → A → Type 0
  Quiet w r a = (r.0 ≡ ok a) × (observe r.1 ≡ observe w)

  bind-Quiet :
      {A B : Type 0} (m : M W A) (g : A → M W B) (w : W) (a : A) (b : B)
      → Quiet w (m w) a
      → ((v : W) → observe v ≡ observe w → Quiet v (g a v) b)
      → Quiet w ((m >>= g) w) b
  bind-Quiet m g w a b (e, o) k = let (e', o') = k (m w).1 o in rw e (e', o' ∙ o)

  abbrev kept : Option Index → Imported
  kept index = record { done = true; written = pos 0; index = index }

  import_one-Quiet :
      StatAnswers
      → (e : FileEntry) (index : Option Index) (w : W) → Present sha256_hex e (observe w)
      → Quiet w (import_one sha256_hex inbox root store e index w) (kept index)
  unfolding import_one import_missing already_there
  import_one-Quiet answers e index w (c, there, size) =
      let (info, found, n) = answers e.key w c there in
      let same : int_eq info.size e.size ≡ true =
        subst (λ z. int_eq z e.size ≡ true) (sym n)
          (subst (λ z. int_eq (pos (length c)) z ≡ true) size (int_eq_refl (pos (length c)))) in
      rw found (rw same (refl, store_laws.stat-observe e.key w))

  -- A pass that has found `n` files in place, and deferred some.
  abbrev seen : ℕ → List FileEntry → Pass
  seen n deferred = record start_pass {
    res = record start_pass.res { files_imported = n };
    commit = deferred;
  }

  count_one-seen :
      (n : ℕ) (deferred : List FileEntry)
      → count_one (seen n deferred) (kept none) ≡ seen (n + 1) deferred
  unfolding count_one
  count_one-seen n deferred = refl

  AllPresent-observe :
      (files : List FileEntry) (w v : W)
      → observe v ≡ observe w
      → All (λ e. Present sha256_hex e (observe w)) files
      → All (λ e. Present sha256_hex e (observe v)) files
  AllPresent-observe files w v o h = subst (λ o. All (λ e. Present sha256_hex e o) files) (sym o) h

  abbrev data_count : List FileEntry → ℕ
  data_count [] = 0
  data_count (e ∷ files) = let rest = data_count files in if is_discovery e then rest else suc rest

  data_count-total :
      (files : List FileEntry) → data_count files + length (discovery_files files) ≡ length files
  data_count-total [] = refl
  data_count-total (e ∷ files) = elim (Bool-cases (is_discovery e)) [
    | inl y ↦ rw y (omega (arith, data_count-total files))
    | inr n ↦ rw n (omega (arith, data_count-total files))
  ]

  data_step-discovery :
      (e : FileEntry) (n : ℕ) (deferred : List FileEntry) (w : W)
      → is_discovery e ≡ true
      → Quiet w
          (data_step sha256_hex inbox root store e (seen n deferred) w)
          (seen n (deferred ++ e ∷ []))
  unfolding data_step
  data_step-discovery e n deferred w y = rw y (refl, refl)

  data_step-data :
      StatAnswers
      → (e : FileEntry) (n : ℕ) (deferred : List FileEntry) (w : W) → is_discovery e ≡ false
      → Present sha256_hex e (observe w)
      → Quiet w
          (data_step sha256_hex inbox root store e (seen n deferred) w)
          (seen (n + 1) deferred)
  unfolding data_step
  data_step-data answers e n deferred w y p = rw y (
      bind-Quiet (import_one sha256_hex inbox root store e none)
        (λ one. pure (count_one (seen n deferred) one)) w (kept none) (seen (n + 1) deferred)
        (import_one-Quiet answers e none w p) (λ v _. (ap ok (count_one-seen n deferred), refl)))

  data_phase-Quiet :
      StatAnswers
      → (files : List FileEntry) (n : ℕ) (deferred : List FileEntry) (w : W)
      → All (λ e. Present sha256_hex e (observe w)) files
      → Quiet w
          (data_phase sha256_hex inbox root store files (seen n deferred) w)
          (seen (n + data_count files) (deferred ++ discovery_files files))
  unfolding data_phase
  data_phase-Quiet answers [] n deferred w h =
      let unmoved : n ≡ n + 0 = omega arith in
      rw (append-nil deferred) (ap (λ m. ok (seen m deferred)) unmoved, refl)
  data_phase-Quiet answers (e ∷ files) n deferred w (p, h) = elim (Bool-cases (is_discovery e)) [
    | inl y ↦
        bind-Quiet (data_step sha256_hex inbox root store e (seen n deferred))
          (λ s'. data_phase sha256_hex inbox root store files s') w (seen n (deferred ++ e ∷ [])) _
          (data_step-discovery e n deferred w y)
          (λ v o.
            rw (y, ← append_assoc deferred (e ∷ []) (discovery_files files))
              (data_phase-Quiet answers files n (deferred ++ e ∷ []) v
                (AllPresent-observe files w v o h)))
    | inr d ↦
        bind-Quiet (data_step sha256_hex inbox root store e (seen n deferred))
          (λ s'. data_phase sha256_hex inbox root store files s') w (seen (n + 1) deferred) _
          (data_step-data answers e n deferred w d p)
          (λ v o.
            let next : n + 1 + data_count files ≡ n + data_count (e ∷ files) =
              (rw d (omega arith)) in
            subst
              (λ m.
                Quiet v (data_phase sha256_hex inbox root store files (seen (n + 1) deferred) v)
                  (seen m (deferred ++ discovery_files (e ∷ files))))
              next
              (rw d (
                data_phase-Quiet answers files (n + 1) deferred v
                  (AllPresent-observe files w v o h))))
  ]

  abbrev all_in_place : ℕ → Summary
  all_in_place n = record {
    files_imported = n;
    bytes_imported = pos 0;
    pending = 0;
    committed = true;
  }

  commit_phase-Quiet :
      StatAnswers
      → (files : List FileEntry) (n : ℕ) (deferred : List FileEntry) (w : W)
      → All (λ e. Present sha256_hex e (observe w)) files
      → Quiet w
          (commit_phase sha256_hex inbox root store files (seen n deferred) w)
          (all_in_place (n + length files))
  unfolding commit_phase
  commit_phase-Quiet answers [] n deferred w h =
      let unmoved : n ≡ n + 0 = omega arith in (ap (λ m. ok (all_in_place m)) unmoved, refl)
  commit_phase-Quiet answers (e ∷ files) n deferred w (p, h) =
      bind-Quiet (import_one sha256_hex inbox root store e none) _ w (kept none) _
        (import_one-Quiet answers e none w p)
        (λ v o. rw (count_one-seen n deferred) (
          subst
            (λ m.
              Quiet v (commit_phase sha256_hex inbox root store files (seen (n + 1) deferred) v)
                (all_in_place m))
            (omega arith)
            (commit_phase-Quiet answers files (n + 1) deferred v
              (AllPresent-observe files w v o h))))

  -- When every object of the manifest is in the destination with the size of its entry, and the
  -- store answers, a pass succeeds, reports the backup as committed with all files and no bytes
  -- imported and none pending, and changes nothing.
  pub import_files-Quiet :
      StatAnswers
      → (m : Manifest) (w : W) → All (λ e. Present sha256_hex e (observe w)) m.files
      → ((import_files sha256_hex inbox root store m w).0 ≡ ok (all_in_place (length m.files)))
        × (observe (import_files sha256_hex inbox root store m w).1 ≡ observe w)
  unfolding import_files finish_pass
  import_files-Quiet answers m w h =
      bind-Quiet (data_phase sha256_hex inbox root store m.files start_pass)
        (finish_pass sha256_hex inbox root store) w
        (seen (0 + data_count m.files) (discovery_files m.files)) (all_in_place (length m.files))
        (data_phase-Quiet answers m.files 0 [] w h)
        (λ v o.
          let total : 0 + data_count m.files + length (discovery_files m.files) ≡ length m.files =
            omega (arith, data_count-total m.files) in
          let deferred = discovery_files m.files in
          let n = 0 + data_count m.files in
          subst
            (λ k.
              Quiet v (commit_phase sha256_hex inbox root store deferred (seen n deferred) v)
                (all_in_place k))
            total
            (commit_phase-Quiet answers deferred n deferred v (
              discovery_files-All (λ e. Present sha256_hex e (observe v)) m.files
                (AllPresent-observe m.files w v o h))))
