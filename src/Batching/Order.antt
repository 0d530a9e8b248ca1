-- ===== src/Batching/Order.antt =====
-- src/internal/batching/batching.go: which files are in the batches of `Pack`.
use airgap_snapshots.Base.{
  ℕ, ◌≡◌, refl, ◌∙◌, false, List, [], ◌∷◌, ◌++◌, append_assoc, append-nil, arith, ltb, length,
  Bool-cases, inl, inr,
}
use airgap_snapshots.Base.Integer.{ℤ}
use airgap_snapshots.Peat.{FileSpec}
use airgap_snapshots.Batching.{
  Batch, Packing, empty_batch, flush, add_file, would_exceed, pack_step, pack_loop, pack,
  file_limit, byte_limit,
}

abbrev pub batch_files : List Batch → List FileSpec
batch_files [] = []
batch_files (b ∷ batches) = b.files ++ batch_files batches

-- The files placed so far.
abbrev placed : Packing → List FileSpec
placed p = batch_files p.batches ++ p.cur.files

batch_files-concat :
    (batches : List Batch) (b : Batch)
    → batch_files (batches ++ b ∷ []) ≡ batch_files batches ++ b.files
batch_files-concat [] b = append-nil b.files
batch_files-concat (a ∷ batches) b = simp (batch_files-concat batches b, append_assoc)

empty_of_length : (fs : List FileSpec) → ltb 0 (length fs) ≡ false → fs ≡ []
empty_of_length [] h = refl
empty_of_length (f ∷ fs) h = ground arith

placed-flush : (p : Packing) → placed (flush p) ≡ placed p
unfolding flush
placed-flush p = elim (Bool-cases (ltb 0 (length p.cur.files))) [
  | inl e ↦ rw e (simp (batch_files-concat p.batches p.cur, append-nil))
  | inr e ↦ rw e
]

placed-pack_step :
    (m n : ℕ) (p : Packing) (f : FileSpec) → placed (pack_step m n p f) ≡ placed p ++ f ∷ []
unfolding pack_step add_file
placed-pack_step m n p f = elim (Bool-cases (would_exceed m n p.cur f)) [
  | inl e ↦ rw e (simp (← append_assoc) (rw (placed-flush p)))
  | inr e ↦ rw e (simp append_assoc)
]

placed-pack_loop :
    (m n : ℕ) (p : Packing) (files : List FileSpec)
    → placed (pack_loop m n p files) ≡ placed p ++ files
unfolding pack_loop
placed-pack_loop m n p [] = simp append-nil
placed-pack_loop m n p (f ∷ files) =
    placed-pack_loop m n (pack_step m n p f) files
    ∙ rw (placed-pack_step m n p f) (append_assoc (placed p) (f ∷ []) files)

batch_files-flush : (p : Packing) → batch_files (flush p).batches ≡ placed p
unfolding flush
batch_files-flush p = elim (Bool-cases (ltb 0 (length p.cur.files))) [
  | inl e ↦ rw e (batch_files-concat p.batches p.cur)
  | inr e ↦ rw (e, empty_of_length p.cur.files e) (simp append-nil)
]

-- Laid end to end, the files of the batches are the input: none is lost, doubled or moved.
pub batch_files-pack :
    (files : List FileSpec) (max_files : ℤ) (max_bytes : ℕ)
    → batch_files (pack files max_files max_bytes) ≡ files
unfolding pack
batch_files-pack files max_files max_bytes =
    let start : Packing = record { batches = []; cur = empty_batch } in
    batch_files-flush (pack_loop (file_limit max_files) (byte_limit max_bytes) start files)
    ∙ placed-pack_loop (file_limit max_files) (byte_limit max_bytes) start files
