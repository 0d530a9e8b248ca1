-- ===== src/Batching/Greedy.antt =====
-- src/internal/batching/batching.go: where `Pack` closes a batch.
use airgap_snapshots.Base.{
  ℕ, ◌≤◌, ◌≡◌, refl, ◌⊎◌, inl, inr, List, [], ◌∷◌, ◌++◌, arith, ltb, length, Bool-cases, true,
  false,
}
use airgap_snapshots.Base.Integer.{ℤ}
use airgap_snapshots.Peat.{FileSpec}
use airgap_snapshots.Batching.Bounds.{file_limit-pos}
use airgap_snapshots.Batching.{
  Batch, Packing, empty_batch, flush, add_file, would_exceed, pack_step, pack_loop, pack,
  file_limit, byte_limit,
}

module _ (m n : ℕ) where
  -- The first file of the second batch would have exceeded a cap in the first.
  abbrev pub ClosedBefore : Batch → List FileSpec → Type 0
  ClosedBefore a [] = ⊥
  ClosedBefore a (f ∷ files) = would_exceed m n a f ≡ true

  -- This holds of every two neighbours.
  abbrev pub IsGreedy : List Batch → Type 0
  IsGreedy [] = Unit
  IsGreedy (a ∷ []) = Unit
  IsGreedy (a ∷ b ∷ batches) = ClosedBefore a b.files × IsGreedy (b ∷ batches)

  IsGreedy-concat :
      (batches : List Batch) (a b : Batch)
      → IsGreedy (batches ++ a ∷ [])
      → ClosedBefore a b.files
      → IsGreedy ((batches ++ a ∷ []) ++ b ∷ [])
  IsGreedy-concat [] a b g c = (c, tt)
  IsGreedy-concat (x ∷ []) a b (g, _) c = (g, (c, tt))
  IsGreedy-concat (x ∷ y ∷ batches) a b (g, h) c = (g, IsGreedy-concat (y ∷ batches) a b h c)

  ClosedBefore-grow :
      (a : Batch) (fs : List FileSpec) (f : FileSpec)
      → ClosedBefore a fs
      → ClosedBefore a (fs ++ f ∷ [])
  ClosedBefore-grow a [] f c = absurd c
  ClosedBefore-grow a (g ∷ fs) f c = c

  IsGreedy-grow :
      (batches : List Batch) (b c : Batch) (f : FileSpec)
      → c.files ≡ b.files ++ f ∷ []
      → IsGreedy (batches ++ b ∷ [])
      → IsGreedy (batches ++ c ∷ [])
  IsGreedy-grow [] b c f e g = tt
  IsGreedy-grow (x ∷ []) b c f e (g, _) = (rw e (ClosedBefore-grow x b.files f g), tt)
  IsGreedy-grow (x ∷ y ∷ batches) b c f e (g, h) = (g, IsGreedy-grow (y ∷ batches) b c f e h)

  -- Nothing has been read yet, or the batches and the current one are greedy.
  abbrev Invariant : Packing → Type 0
  Invariant p =
      ((p.batches ≡ []) × (p.cur.files ≡ []))
      ⊎ ((ltb 0 (length p.cur.files) ≡ true) × IsGreedy (p.batches ++ p.cur ∷ []))

  length-concat : (fs : List FileSpec) (f : FileSpec) → ltb 0 (length (fs ++ f ∷ [])) ≡ true
  length-concat [] f = refl
  length-concat (g ∷ fs) f = ground arith

  module _ (one : 1 ≤ m) where
    would_exceed-nil : (b : Batch) (f : FileSpec) → b.files ≡ [] → would_exceed m n b f ≡ false
    unfolding would_exceed
    would_exceed-nil b f h = rw h (ground arith)

    step_exceeding :
        (p : Packing) (f : FileSpec)
        → would_exceed m n p.cur f ≡ true
        → Invariant p
        → Invariant (add_file (flush p) f)
    unfolding add_file flush
    step_exceeding p f e (inl (_, none)) = cc (would_exceed-nil p.cur f none)
    step_exceeding p f e (inr (some, g)) =
        rw some (inr (refl, IsGreedy-concat p.batches p.cur _ g e))

    step_fitting : (p : Packing) (f : FileSpec) → Invariant p → Invariant (add_file p f)
    unfolding add_file
    step_fitting p f (inl (first, none)) = rw (first, none) (inr (refl, tt))
    step_fitting p f (inr (some, g)) =
        inr (length-concat p.cur.files f, IsGreedy-grow p.batches p.cur _ f refl g)

    pack_step-Invariant : (p : Packing) (f : FileSpec) → Invariant p → Invariant (pack_step m n p f)
    unfolding pack_step
    pack_step-Invariant p f v = elim (Bool-cases (would_exceed m n p.cur f)) [
      | inl e ↦ rw e (step_exceeding p f e v)
      | inr e ↦ rw e (step_fitting p f v)
    ]

    pack_loop-Invariant :
        (p : Packing) (files : List FileSpec) → Invariant p → Invariant (pack_loop m n p files)
    unfolding pack_loop
    pack_loop-Invariant p [] v = v
    pack_loop-Invariant p (f ∷ files) v =
        pack_loop-Invariant (pack_step m n p f) files (pack_step-Invariant p f v)

  flush-IsGreedy : (p : Packing) → Invariant p → IsGreedy (flush p).batches
  unfolding flush
  flush-IsGreedy p (inl (first, none)) = rw none (rw first tt)
  flush-IsGreedy p (inr (some, g)) = rw some g

pub pack-IsGreedy :
    (files : List FileSpec) (max_files : ℤ) (max_bytes : ℕ)
    → IsGreedy (file_limit max_files) (byte_limit max_bytes) (pack files max_files max_bytes)
unfolding pack
pack-IsGreedy files max_files max_bytes =
    let m = file_limit max_files in
    let n = byte_limit max_bytes in
    let start : Packing = record { batches = []; cur = empty_batch } in
    flush-IsGreedy m n (pack_loop m n start files)
      (pack_loop-Invariant m n (file_limit-pos max_files) start files (inl (refl, refl)))
