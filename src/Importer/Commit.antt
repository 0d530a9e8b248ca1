-- ===== src/Importer/Commit.antt =====
-- src/internal/importer/importer.go: a whole pass of `Import`, whether it succeeds, waits or fails.
use mathlib.Core.Path.{subst, subst₂}
use mathlib.Core.List.{Memᴰ}
use airgap_snapshots.Base.{
  ◌≡◌, ◌≢◌, refl, sym, ap, inl, inr, true, false, List, [], ◌∷◌, arith, All, Bool-cases, Result, ok,
  err, M, pure, length, ltb, bind_result,
}
use airgap_snapshots.Base.Integer.{ℤ}
use airgap_snapshots.Base.Keeps.{bind-eq-ok}
use airgap_snapshots.Base.Text.{Text, text_eq}
use airgap_snapshots.Base.Text.FilePath.{base}
use airgap_snapshots.Objstore.{Store}
use airgap_snapshots.Manifest.{FileEntry, Manifest}
use airgap_snapshots.Importer.{Inbox, Summary, discovery_object, is_discovery}
use airgap_snapshots.Importer.Pass.{
  Pass, data_phase, commit_phase, finish_pass, import_files, start_pass,
}
use airgap_snapshots.Importer.Laws.{Observed, InboxLaws, StoreLaws}
use airgap_snapshots.Importer.Effect.{Present}
use airgap_snapshots.Importer.Change.{Change, Change-refl, Change-Present, bind-Change}
use airgap_snapshots.Importer.Counts.{
  discovery_files, discovery_files-All, discovery_files-mem, data_phase-Counted,
}
use airgap_snapshots.Importer.Phases.{IsData, data_phase-Change, commit_phase-Change}
use airgap_snapshots.Importer.Landing.{
  HasSize, Landed, All-HasSize, commit_phase-Present, data_phase-Landed,
}

-- What holds of the deferred entries, and of the others, holds of all.
merge_files :
    (P : FileEntry → Type 0) (files : List FileEntry)
    → All (λ e. is_discovery e ≡ false → P e) files
    → All P (discovery_files files)
    → All P files
merge_files P [] h d = tt
merge_files P (e ∷ files) (h, hs) d = elim (Bool-cases (is_discovery e)) [
  | inl y ↦
      let d' : P e × All P (discovery_files files) = rw y at d in
      (d'.0, merge_files P files hs d'.1)
  | inr n ↦ (h n, merge_files P files hs (rw n at d))
]

module _ {W : Type 0} (sha256_hex : Text → Text) (inbox : Inbox W) (root : Text) (store : Store W)
    (observe : W → Observed) (inbox_laws : InboxLaws observe inbox)
    (store_laws : StoreLaws observe store) where
  -- The second loop runs over entries of the manifest.
  commit_subset :
      (m : Manifest) (s : Pass) (w : W)
      → (data_phase sha256_hex inbox root store m.files start_pass w).0 ≡ ok s
      → (e : FileEntry) → Memᴰ e s.commit
      → Memᴰ e m.files
  commit_subset m s w h e mem =
      let c = data_phase-Counted sha256_hex inbox root store m.files start_pass s w h in
      discovery_files-mem m.files e (subst (Memᴰ e) c.deferred mem)

  finish_pass-Change :
      (P : FileEntry → Type 0) (s : Pass) (w : W)
      → ((e : FileEntry) → Memᴰ e s.commit → P e)
      → Change sha256_hex P (observe w) (observe (finish_pass sha256_hex inbox root store s w).1)
  unfolding finish_pass
  finish_pass-Change P s w p = elim (Bool-cases (ltb 0 s.res.pending)) [
    | inl y ↦ rw y (Change-refl sha256_hex P refl)
    | inr n ↦ rw n (
        commit_phase-Change sha256_hex inbox root store observe inbox_laws store_laws P s.commit s w
          p)
  ]

  -- A pass, successful or not, leaves the inbox as it is, and every object of the destination too,
  -- up to objects at the key of an entry of the manifest, which then hold content with the size and
  -- the SHA-256 of that entry.
  pub import_files-Change :
      (m : Manifest) (w : W)
      → Change sha256_hex
          (λ e. Memᴰ e m.files)
          (observe w)
          (observe (import_files sha256_hex inbox root store m w).1)
  unfolding import_files
  import_files-Change m w =
      bind-Change sha256_hex observe (λ e. Memᴰ e m.files)
        (data_phase sha256_hex inbox root store m.files start_pass)
        (finish_pass sha256_hex inbox root store) w
        (data_phase-Change sha256_hex inbox root store observe inbox_laws store_laws
          (λ e. Memᴰ e m.files) m.files start_pass w (λ e d. d.0))
        (λ s h. finish_pass-Change (λ e. Memᴰ e m.files) s _ (commit_subset m s w h))

  module _ (size_of : Text → ℤ) (m : Manifest) (sized : All (HasSize size_of) m.files) where
    abbrev first_loop : M W Pass
    first_loop = data_phase sha256_hex inbox root store m.files start_pass

    -- The second loop undoes nothing.
    Landed-kept :
        (s : Pass) (w w' : W) (files : List FileEntry)
        → (first_loop w).0 ≡ ok s
        → All (HasSize size_of) files
        → Change sha256_hex
            (λ e. Memᴰ e m.files)
            (observe w')
            (observe (finish_pass sha256_hex inbox root store s w').1)
        → All (Landed sha256_hex observe w') files
        → All (Landed sha256_hex observe (finish_pass sha256_hex inbox root store s w').1) files
    Landed-kept s w w' [] h z c l = tt
    Landed-kept s w w' (e ∷ files) h (size, sizes) c (l, ls) = (
      λ d.
          Change-Present sha256_hex (λ e'. Memᴰ e' m.files) size_of
            (All-HasSize sha256_hex inbox root store observe inbox_laws store_laws size_of m.files
              sized)
            c e size (l d),
      Landed-kept s w w' files h sizes c ls,
    )

    -- With nothing pending, the pass ends with every data entry in the destination.
    Landed-finally :
        (s : Pass) (w : W)
        → (first_loop w).0 ≡ ok s
        → s.res.pending ≡ 0
        → All
            (Landed sha256_hex observe
              (finish_pass sha256_hex inbox root store s (first_loop w).1).1)
            m.files
    Landed-finally s w h z =
        Landed-kept s w (first_loop w).1 m.files h sized
          (finish_pass-Change (λ e. Memᴰ e m.files) s (first_loop w).1 (commit_subset m s w h))
          (data_phase-Landed sha256_hex inbox root store observe inbox_laws store_laws size_of
            m.files start_pass s w sized h z).1

    finished :
        (s : Pass)
        → ltb 0 s.res.pending ≡ false
        → finish_pass sha256_hex inbox root store s
          ≡ commit_phase sha256_hex inbox root store s.commit s
    unfolding finish_pass
    finished s n = rw n

    waiting :
        (s : Pass)
        → ltb 0 s.res.pending ≡ true
        → finish_pass sha256_hex inbox root store s ≡ pure s.res
    unfolding finish_pass
    waiting s y = rw y

    -- A pass that reports `Committed` has every object of the manifest in the destination with the
    -- size of its entry, counts all of them as imported and none as pending. The sizes of entries of
    -- one key must agree.
    pub import_files-Present :
        (r : Summary) (w : W)
        → (import_files sha256_hex inbox root store m w).0 ≡ ok r
        → r.committed ≡ true
        → (r.files_imported ≡ length m.files)
          × (r.pending ≡ 0)
          × All
              (λ e. Present sha256_hex e (observe (import_files sha256_hex inbox root store m w).1))
              m.files
    unfolding import_files
    import_files-Present r w h c =
        let finish = finish_pass sha256_hex inbox root store in
        let (s, e₁, rest, world) = bind-eq-ok first_loop finish w r h in
        let counts = data_phase-Counted sha256_hex inbox root store m.files start_pass s w e₁ in
        let w₁ = (first_loop w).1 in
        elim (Bool-cases (ltb 0 s.res.pending)) [
          | inl y ↦
              let rest' = subst (λ (f : M W Summary). (f w₁).0 ≡ ok r) (waiting s y) rest in
              cc (counts.uncommitted, rest')
          | inr n ↦
              let rest' = subst (λ (f : M W Summary). (f w₁).0 ≡ ok r) (finished s n) rest in
              let (z, z', count, there) =
                commit_phase-Present sha256_hex inbox root store observe inbox_laws store_laws
                  size_of s.commit s r w₁
                  (subst (All (HasSize size_of)) (sym counts.deferred)
                    (discovery_files-All (HasSize size_of) m.files sized))
                  rest' c counts.uncommitted in
              let there' : All (λ e. Present sha256_hex e (observe (finish s w₁).1))
                  (discovery_files m.files) =
                subst₂
                  (λ (f : M W Summary) (files : List FileEntry).
                    All (λ e. Present sha256_hex e (observe (f w₁).1)) files)
                  (sym (finished s n)) counts.deferred there in
              (
                omega (arith, counts.total, ap (length {A = FileEntry}) counts.deferred),
                z',
                subst (λ w'. All (λ e. Present sha256_hex e (observe w')) m.files) (sym world)
                    (merge_files (λ e. Present sha256_hex e (observe (finish s w₁).1)) m.files
                      (Landed-finally s w e₁ z) there'),
              )
        ]

    abbrev Unchanged : Text → W → W → Type 0
    Unchanged k w w' = (observe w').stored k ≡ (observe w).stored k

    data-Unchanged :
        (w : W) (k : Text)
        → text_eq (base k) discovery_object ≡ true
        → Unchanged k w (first_loop w).1
    unfolding is_discovery
    data-Unchanged w k y =
        elim ((data_phase-Change sha256_hex inbox root store observe inbox_laws store_laws
            (IsData m.files) m.files start_pass w (λ e d. d)).every
          k) [
            | inl same ↦ same
            | inr (e, (mem, d), key, _) ↦
                cc (ap (λ (j : Text). text_eq (base j) discovery_object) key)
          ]

    gate :
        (w : W) (k : Text) (r : Result Pass)
        → text_eq (base k) discovery_object ≡ true
        → (first_loop w).0 ≡ r
        → (Unchanged k w
              (bind_result (finish_pass sha256_hex inbox root store) r (first_loop w).1).1
            → ⊥)
        → All
            (Landed sha256_hex observe
              (bind_result (finish_pass sha256_hex inbox root store) r (first_loop w).1).1)
            m.files
    gate w k (err f) y h changed = absurd (changed (data-Unchanged w k y))
    gate w k (ok s) y h changed = elim (Bool-cases (ltb 0 s.res.pending)) [
      | inl p ↦ absurd (
          changed (
            subst (λ (f : M W Summary). Unchanged k w (f (first_loop w).1).1) (sym (waiting s p))
              (data-Unchanged w k y)))
      | inr n ↦ Landed-finally s w h (ground arith)
    ]

    -- If an object that Velero discovers backups by was changed in any way, then every data object
    -- of the manifest is in the destination with the size of its entry, whatever the pass returned.
    -- The sizes of entries of one key must agree.
    pub import_files-gate :
        (w : W) (k : Text)
        → text_eq (base k) discovery_object ≡ true
        → (observe (import_files sha256_hex inbox root store m w).1).stored k ≢ (observe w).stored k
        → All (Landed sha256_hex observe (import_files sha256_hex inbox root store m w).1) m.files
    unfolding import_files
    import_files-gate w k y changed = gate w k (first_loop w).0 y refl changed
