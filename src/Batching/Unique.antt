-- ===== src/Batching/Unique.antt =====
-- src/internal/batching/batching.go: `Pack` against what it promises.
use mathlib.Core.Path.{subst}
use airgap_snapshots.Base.{
  ℕ, ◌≤◌, ◌<◌, ◌≡◌, ◌≢◌, refl, sym, ap, ◌∙◌, ◌⊎◌, inl, inr, List, [], ◌∷◌, ◌++◌, arith, length,
  length-append, All, true,
}
use airgap_snapshots.Base.Integer.{ℤ, int64_limit}
use airgap_snapshots.Peat.{FileSpec}
use airgap_snapshots.Batching.{Batch, would_exceed, pack, file_limit, byte_limit}
use airgap_snapshots.Batching.Bounds.{
  IsStaged, IsWithin, total_size, total_size-append, pack-IsWithin, byte_limit-le,
}
use airgap_snapshots.Batching.Greedy.{ClosedBefore, IsGreedy, pack-IsGreedy}
use airgap_snapshots.Batching.Order.{batch_files, batch_files-pack}

-- The first list ends within the second.
abbrev Ends : List FileSpec → List FileSpec → List FileSpec → List FileSpec → Type 0
Ends xs r ys s = (f : FileSpec) × (t : List FileSpec) × (ys ≡ xs ++ f ∷ t) × (r ≡ f ∷ (t ++ s))

-- Of two ways to cut a list in two, one cut is before the other, or both are one.
append-eq_append :
    (xs r ys s : List FileSpec)
    → xs ++ r ≡ ys ++ s
    → ((xs ≡ ys) × (r ≡ s)) ⊎ (Ends xs r ys s ⊎ Ends ys s xs r)
append-eq_append [] r [] s e = inl (refl, e)
append-eq_append [] r (b ∷ ys) s e = inr (inl (b, ys, refl, e))
append-eq_append (a ∷ xs) r [] s e = inr (inr (a, xs, refl, sym e))
append-eq_append (a ∷ xs) r (b ∷ ys) s e =
    let h : a ≡ b = cc in
    elim (append-eq_append xs r ys s (cc)) [
      | inl (p, q) ↦ inl (cc, q)
      | inr (inl (f, t, p, q)) ↦ inr (inl (f, t, cc, q))
      | inr (inr (f, t, p, q)) ↦ inr (inr (f, t, cc, q))
    ]

module _ (m n : ℕ) (small : n ≤ int64_limit) where
  -- A batch within the caps has no room left for what closed a shorter one.
  closed_early :
      (x y : Batch) (f : FileSpec) (t : List FileSpec)
      → IsWithin m n x
      → IsWithin m n y
      → y.files ≡ x.files ++ f ∷ t
      → would_exceed m n x f ≡ true
      → ⊥
  unfolding would_exceed
  closed_early x y f t vx vy e h =
      let len = ap (λ (fs : List FileSpec). length fs) e ∙ length-append x.files (f ∷ t) in
      let tot = ap (λ (fs : List FileSpec). total_size fs) e ∙ total_size-append x.files (f ∷ t) in
      ground (arith, vx.nonempty, vx.exact, vy.file_cap, vy.byte_cap, vy.exact)

  IsGreedy-tail : (x : Batch) (xs : List Batch) → IsGreedy m n (x ∷ xs) → IsGreedy m n xs
  IsGreedy-tail x [] g = tt
  IsGreedy-tail x (y ∷ xs) (c, g) = g

  -- The file behind a batch would have exceeded a cap in it.
  closed_before :
      (x : Batch) (xs : List Batch) (f : FileSpec) (t : List FileSpec)
      → All (IsWithin m n) xs
      → IsGreedy m n (x ∷ xs)
      → batch_files xs ≡ f ∷ t
      → would_exceed m n x f ≡ true
  closed_before x [] f t v g e = cc e
  closed_before x (y ∷ xs) f t (v, vs) (c, g) e = next y.files v.nonempty c e
    where
      next :
          (files : List FileSpec)
          → 0 < length files
          → ClosedBefore m n x files
          → files ++ batch_files xs ≡ f ∷ t
          → would_exceed m n x f ≡ true
      next [] h c e = absurd (omega arith)
      next (f' ∷ files) h c e =
          let same : f' ≡ f = cc in subst (λ a. would_exceed m n x a ≡ true) same c

  not_early :
      (x y : Batch) (xs : List Batch) (s : List FileSpec)
      → IsWithin m n x
      → IsWithin m n y
      → All (IsWithin m n) xs
      → IsGreedy m n (x ∷ xs)
      → Ends x.files (batch_files xs) y.files s
      → ⊥
  not_early x y xs s vx vy vs g (f, t, e, r) =
      closed_early x y f t vx vy e (closed_before x xs f (t ++ s) vs g r)

  Batch-eq : (x y : Batch) → IsWithin m n x → IsWithin m n y → x.files ≡ y.files → x ≡ y
  Batch-eq x y vx vy e =
      let b : x.bytes ≡ y.bytes = vx.exact ∙ ap total_size e ∙ sym vy.exact in
      λ i. record { files = e i; bytes = b i }

  nonempty_files : (y : Batch) (s : List FileSpec) → IsWithin m n y → [] ≢ y.files ++ s
  nonempty_files y s v e = absurd (nothing y.files v.nonempty e)
    where
      nothing : (files : List FileSpec) → 0 < length files → [] ≢ files ++ s
      nothing [] h e = omega arith
      nothing (f ∷ files) h e = cc e

  -- Batches of the same files within the caps, of which none is closed early, are the same batches.
  batches_eq :
      (xs ys : List Batch)
      → All (IsWithin m n) xs
      → All (IsWithin m n) ys
      → IsGreedy m n xs
      → IsGreedy m n ys
      → batch_files xs ≡ batch_files ys
      → xs ≡ ys
  batches_eq [] [] vx vy gx gy e = refl
  batches_eq [] (y ∷ ys) vx (v, vy) gx gy e = absurd (nonempty_files y (batch_files ys) v e)
  batches_eq (x ∷ xs) [] (v, vx) vy gx gy e = absurd (nonempty_files x (batch_files xs) v (sym e))
  batches_eq (x ∷ xs) (y ∷ ys) (v, vx) (u, vy) gx gy e =
      elim (append-eq_append x.files (batch_files xs) y.files (batch_files ys) e) [
        | inl (p, q) ↦
            let head = Batch-eq x y v u p in
            let tail = batches_eq xs ys vx vy (IsGreedy-tail x xs gx) (IsGreedy-tail y ys gy) q in
            λ i. head i ∷ tail i
        | inr (inl h) ↦ absurd (not_early x y xs (batch_files ys) v u vx gx h)
        | inr (inr h) ↦ absurd (not_early y x ys (batch_files xs) u v vy gy h)
      ]

-- Where the sizes and the byte cap are those of `int64` values that are not negative, the batches of
-- `Pack` are the only ones that hold the files in their order, are each within the caps, not empty
-- and with their exact size, and of which none is closed before its next file would exceed a cap.
pub pack_unique :
    (files : List FileSpec) (max_files : ℤ) (max_bytes : ℕ) (batches : List Batch)
    → All IsStaged files
    → max_bytes ≤ int64_limit
    → batch_files batches ≡ files
    → All (IsWithin (file_limit max_files) (byte_limit max_bytes)) batches
    → IsGreedy (file_limit max_files) (byte_limit max_bytes) batches
    → batches ≡ pack files max_files max_bytes
pack_unique files max_files max_bytes batches staged small h v g =
    batches_eq (file_limit max_files) (byte_limit max_bytes) (byte_limit-le max_bytes small) batches
      (pack files max_files max_bytes) v (pack-IsWithin files max_files max_bytes staged small) g
      (pack-IsGreedy files max_files max_bytes)
      (h ∙ sym (batch_files-pack files max_files max_bytes))
