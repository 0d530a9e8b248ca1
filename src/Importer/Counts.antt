-- ===== src/Importer/Counts.antt =====
-- src/internal/importer/importer.go: the counts of `Import`, and the files that it defers.
use mathlib.Core.Path.{subst}
use mathlib.Core.List.{Memᴰ}
use airgap_snapshots.Base.{
  ◌+◌, ◌≡◌, refl, sym, ap, ◌∙◌, if◌then◌else◌, inl, inr, Bool, true, false, List, [], ◌∷◌, ◌++◌,
  append-nil, append_assoc, arith, All, Bool-cases, ok, M, pure, ◌>>=◌, length, length-append,
}
use airgap_snapshots.Base.Keeps.{bind-eq-ok}
use airgap_snapshots.Base.Text.{Text}
use airgap_snapshots.Objstore.{Store}
use airgap_snapshots.Manifest.{FileEntry}
use airgap_snapshots.Importer.{Inbox, Imported, is_discovery, import_one}
use airgap_snapshots.Importer.Pass.{Pass, count_one, data_step, data_phase}

-- The deferred entries of a manifest, in order.
abbrev pub discovery_files : List FileEntry → List FileEntry
discovery_files [] = []
discovery_files (e ∷ files) =
    let rest = discovery_files files in if is_discovery e then e ∷ rest else rest

pub discovery_files-mem :
    (files : List FileEntry) (e : FileEntry) → Memᴰ e (discovery_files files) → Memᴰ e files
discovery_files-mem [] e m = m
discovery_files-mem (x ∷ files) e m = go (is_discovery x) m (discovery_files-mem files e)
  where
    go :
        (b : Bool)
        → Memᴰ e (if b then x ∷ discovery_files files else discovery_files files)
        → (Memᴰ e (discovery_files files) → Memᴰ e files)
        → Memᴰ e (x ∷ files)
    go true (Memᴰ.head k) ih = Memᴰ.head k
    go true (Memᴰ.tail m) ih = Memᴰ.tail (ih m)
    go false m ih = Memᴰ.tail (ih m)

pub discovery_files-All :
    (P : FileEntry → Type 0) (files : List FileEntry) → All P files → All P (discovery_files files)
discovery_files-All P [] h = tt
discovery_files-All P (e ∷ files) (p, h) = elim (Bool-cases (is_discovery e)) [
  | inl y ↦ rw y (p, discovery_files-All P files h)
  | inr n ↦ rw n (discovery_files-All P files h)
]

-- The first loop from `s` to `s'` over `files`.
pub record Counted (files : List FileEntry) (s s' : Pass) : Type 0 where
  pub deferred : s'.commit ≡ s.commit ++ discovery_files files
  pub uncommitted : s'.res.committed ≡ s.res.committed
  pub total :
      s'.res.files_imported + s'.res.pending + length (discovery_files files)
      ≡ s.res.files_imported + s.res.pending + length files

discovery_files-cons :
    (e : FileEntry) (files : List FileEntry)
    → discovery_files (e ∷ files) ≡ discovery_files (e ∷ []) ++ discovery_files files
discovery_files-cons e files = elim (Bool-cases (is_discovery e)) [ inl y ↦ rw y | inr n ↦ rw n ]

Counted-trans :
    (e : FileEntry) (files : List FileEntry) (s s₁ s' : Pass)
    → Counted (e ∷ []) s s₁
    → Counted files s₁ s'
    → Counted (e ∷ files) s s'
Counted-trans e files s s₁ s' a b =
    let split = discovery_files-cons e files in
    record {
      deferred = b.deferred ∙ (rw (a.deferred, split) (append_assoc s.commit _ _));
      uncommitted = b.uncommitted ∙ a.uncommitted;
      total = omega (
        arith,
        a.total,
        b.total,
        ap (length {A = FileEntry}) split,
        length-append (discovery_files (e ∷ [])) (discovery_files files),
      );
    }

count_one-total :
    (s : Pass) (one : Imported)
    → (count_one s one).res.files_imported + (count_one s one).res.pending
      ≡ s.res.files_imported + s.res.pending + 1
unfolding count_one
count_one-total s one = ground arith

count_one-commit : (s : Pass) (one : Imported) → (count_one s one).commit ≡ s.commit
unfolding count_one
count_one-commit s one = ground arith

pub count_one-committed :
    (s : Pass) (one : Imported) → (count_one s one).res.committed ≡ s.res.committed
unfolding count_one
count_one-committed s one = ground arith

module _ {W : Type 0} (sha256_hex : Text → Text) (inbox : Inbox W) (root : Text)
    (store : Store W) where
  pub data_step_of_data :
      (e : FileEntry) (s : Pass)
      → is_discovery e ≡ false
      → data_step sha256_hex inbox root store e s
        ≡ (import_one sha256_hex inbox root store e s.index >>= λ one. pure (count_one s one))
  unfolding data_step
  data_step_of_data e s n = rw n

  pub data_step_of_discovery :
      (e : FileEntry) (s : Pass)
      → is_discovery e ≡ true
      → data_step sha256_hex inbox root store e s ≡ pure (record s { commit = s.commit ++ e ∷ [] })
  unfolding data_step
  data_step_of_discovery e s y = rw y

  data_step-Counted :
      (e : FileEntry) (s s' : Pass) (w : W)
      → (data_step sha256_hex inbox root store e s w).0 ≡ ok s'
      → Counted (e ∷ []) s s'
  data_step-Counted e s s' w h = elim (Bool-cases (is_discovery e)) [
    | inl y ↦
        let h' = subst (λ (m : M W Pass). (m w).0 ≡ ok s') (data_step_of_discovery e s y) h in
        let same : record s { commit = s.commit ++ e ∷ [] } ≡ s' = cc in
        subst (Counted (e ∷ []) s) same
          (record { deferred = rw y; uncommitted = refl; total = rw y (omega arith) })
    | inr n ↦
        let m = import_one sha256_hex inbox root store e s.index in
        let h' = subst (λ (m : M W Pass). (m w).0 ≡ ok s') (data_step_of_data e s n) h in
        let (one, _, o, _) = bind-eq-ok m (λ one. pure (count_one s one)) w s' h' in
        let same : count_one s one ≡ s' = cc in
        subst (Counted (e ∷ []) s) same (record {
          deferred = rw n (count_one-commit s one ∙ sym (append-nil s.commit));
          uncommitted = count_one-committed s one;
          total = rw n (omega (arith, count_one-total s one));
        })
  ]

  pub data_phase-Counted :
      (files : List FileEntry) (s s' : Pass) (w : W)
      → (data_phase sha256_hex inbox root store files s w).0 ≡ ok s'
      → Counted files s s'
  unfolding data_phase
  data_phase-Counted [] s s' w h =
      let same : s ≡ s' = cc in
      subst (Counted [] s) same
        (record { deferred = sym (append-nil s.commit); uncommitted = refl; total = omega arith })
  data_phase-Counted (e ∷ files) s s' w h =
      let (s₁, e₁, rest, _) =
        bind-eq-ok (data_step sha256_hex inbox root store e s)
          (data_phase sha256_hex inbox root store files) w s' h in
      Counted-trans e files s s₁ s' (data_step-Counted e s s₁ w e₁)
        (data_phase-Counted files s₁ s' (data_step sha256_hex inbox root store e s w).1 rest)
