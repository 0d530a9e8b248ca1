-- ===== src/Batching/Bounds.antt =====
-- src/internal/batching/batching.go: the caps on a batch of `Pack`.
use airgap_snapshots.Base.{
  ℕ, ◌+◌, ◌≤◌, ◌<◌, ◌≡◌, refl, ◌⊎◌, inl, inr, List, [], ◌∷◌, ◌++◌, arith, ltb, length,
  length-append, All, All-append, Bool-cases, false,
}
use airgap_snapshots.Base.Integer.{ℤ, int64_limit}
use airgap_snapshots.Peat.{FileSpec}
use airgap_snapshots.Batching.{
  Batch, Packing, empty_batch, flush, add_file, would_exceed, pack_step, pack_loop, pack,
  file_limit, byte_limit,
}

-- The size of a staged file is `uint64(n)` of an `int64` that is not negative.
abbrev pub IsStaged : FileSpec → Type 0
IsStaged f = f.size < int64_limit

abbrev pub total_size : List FileSpec → ℕ
total_size [] = 0
total_size (f ∷ files) = f.size + total_size files

pub total_size-append :
    (fs gs : List FileSpec) → total_size (fs ++ gs) ≡ total_size fs + total_size gs
total_size-append [] gs = omega arith
total_size-append (f ∷ fs) gs = omega (arith, total_size-append fs gs)

-- What holds of a batch under the two caps.
pub record IsWithin (max_files max_bytes : ℕ) (b : Batch) : Type 0 where
  pub nonempty : 0 < length b.files
  pub file_cap : length b.files ≤ max_files
  pub byte_cap : (b.bytes ≤ max_bytes) ⊎ (length b.files ≡ 1)
  pub exact : b.bytes ≡ total_size b.files

record Invariant (max_files max_bytes : ℕ) (p : Packing) : Type 0 where
  done : All (IsWithin max_files max_bytes) p.batches
  file_cap : length p.cur.files ≤ max_files
  byte_cap : (p.cur.bytes ≤ max_bytes) ⊎ (length p.cur.files ≡ 1)
  exact : p.cur.bytes ≡ total_size p.cur.files
  no_wrap : p.cur.bytes ≤ int64_limit

total_size-nil : (fs : List FileSpec) → length fs ≡ 0 → total_size fs ≡ 0
total_size-nil [] h = refl
total_size-nil (f ∷ fs) h = absurd (omega arith)

module _ (m n : ℕ) (one : 1 ≤ m) (small : n ≤ int64_limit) where
  flush-Invariant :
      (p : Packing) → Invariant m n p → Invariant m n (flush p) × (length (flush p).cur.files ≡ 0)
  unfolding flush
  flush-Invariant p v = elim (Bool-cases (ltb 0 (length p.cur.files))) [
    | inl e ↦ rw e (
      record {
        done = All-append (IsWithin m n) p.batches (p.cur ∷ []) v.done (
          record {
            nonempty = ground arith;
            file_cap = v.file_cap;
            byte_cap = v.byte_cap;
            exact = v.exact;
          },
          tt,
        );
        file_cap = omega arith;
        byte_cap = omega arith;
        exact = omega arith;
        no_wrap = omega arith;
      },
      refl,
    )
    | inr e ↦ rw e (v, ground arith)
  ]

  add_file-Invariant :
      (p : Packing) (f : FileSpec)
      → IsStaged f
      → Invariant m n p
      → would_exceed m n p.cur f ≡ false
      → Invariant m n (add_file p f)
  unfolding add_file would_exceed
  add_file-Invariant p f s v e =
      let len = length-append p.cur.files (f ∷ []) in
      let tot = total_size-append p.cur.files (f ∷ []) in
      let nil = total_size-nil p.cur.files in
      record {
        done = v.done;
        file_cap = ground arith;
        byte_cap = ground (arith, nil);
        exact = ground (arith, nil);
        no_wrap = ground (arith, nil);
      }

  would_exceed-nil : (b : Batch) (f : FileSpec) → length b.files ≡ 0 → would_exceed m n b f ≡ false
  unfolding would_exceed
  would_exceed-nil b f h = ground arith

  pack_step-Invariant :
      (p : Packing) (f : FileSpec)
      → IsStaged f
      → Invariant m n p
      → Invariant m n (pack_step m n p f)
  unfolding pack_step
  pack_step-Invariant p f s v = elim (Bool-cases (would_exceed m n p.cur f)) [
    | inl e ↦
        let (w, len) = flush-Invariant p v in
        rw e (add_file-Invariant (flush p) f s w (would_exceed-nil (flush p).cur f len))
    | inr e ↦ rw e (add_file-Invariant p f s v e)
  ]

  pack_loop-Invariant :
      (p : Packing) (files : List FileSpec)
      → All IsStaged files
      → Invariant m n p
      → Invariant m n (pack_loop m n p files)
  unfolding pack_loop
  pack_loop-Invariant p [] s v = v
  pack_loop-Invariant p (f ∷ files) (s, ss) v =
      pack_loop-Invariant (pack_step m n p f) files ss (pack_step-Invariant p f s v)

pub file_limit-pos : (z : ℤ) → 1 ≤ file_limit z
unfolding file_limit
file_limit-pos z = ground arith

pub byte_limit-le : (n : ℕ) → n ≤ int64_limit → byte_limit n ≤ int64_limit
unfolding byte_limit
byte_limit-le n h = ground arith

-- Where the sizes and the byte cap are those of `int64` values that are not negative, every batch
-- has a file and at most `maxFiles` (after its default), its `Bytes` is the exact sum of its sizes,
-- and that sum is within the byte cap (after its default) unless the batch is a single file.
pub pack-IsWithin :
    (files : List FileSpec) (max_files : ℤ) (max_bytes : ℕ)
    → All IsStaged files
    → max_bytes ≤ int64_limit
    → All (IsWithin (file_limit max_files) (byte_limit max_bytes)) (pack files max_files max_bytes)
unfolding pack
pack-IsWithin files max_files max_bytes s h =
    let m = file_limit max_files in
    let n = byte_limit max_bytes in
    let one = file_limit-pos max_files in
    let small = byte_limit-le max_bytes h in
    let start : Packing = record { batches = []; cur = empty_batch } in
    let v : Invariant m n start = record {
      done = tt;
      file_cap = omega arith;
      byte_cap = omega arith;
      exact = omega arith;
      no_wrap = omega arith;
    } in
    (flush-Invariant m n one small (pack_loop m n start files)
      (pack_loop-Invariant m n one small start files s v)).0.done
