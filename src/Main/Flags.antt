-- ===== src/Main/Flags.antt =====
-- src/cmd/main.go: the entries that `splitCSV` gives.
use airgap_snapshots.Base.{
  ℕ, ◌≡◌, ◌≢◌, inl, inr, Bool, false, List, [], ◌∷◌, ◌++◌, refl, ap, arith, All, Bool-cases, ◌==◌,
}
use airgap_snapshots.Base.Text.{Text, text_eq, text_eq_iff}
use airgap_snapshots.Base.Text.Search.{Lacks, split, join, split-join, split-Lacks}
use airgap_snapshots.Base.Text.Trim.{drop_while, keep_end, drop_end, is_space, trim_space}
use airgap_snapshots.Base.Text.Words.{IsWord, text_eq_nonempty, trim_space-solid, trim_space-front}
use airgap_snapshots.Main.{keep_parts, split_csv}

module _ (drops : ℕ → Bool) (sep : ℕ) where
  drop_while-Lacks : (s : Text) → Lacks sep s → Lacks sep (drop_while drops s)
  unfolding drop_while
  drop_while-Lacks [] h = tt
  drop_while-Lacks (c ∷ s) (p, h) = elim (Bool-cases (drops c)) [
    | inl y ↦ rw y (drop_while-Lacks s h)
    | inr n ↦ rw n (p, h)
  ]

  keep_end-Lacks :
      (c : ℕ) (s : Text) → (c == sep) ≡ false → Lacks sep s → Lacks sep (keep_end drops c s)
  unfolding keep_end
  keep_end-Lacks c (d ∷ s) p h = (p, h)
  keep_end-Lacks c [] p h = elim (Bool-cases (drops c)) [ inl y ↦ rw y tt | inr n ↦ rw n (p, tt) ]

  drop_end-Lacks : (s : Text) → Lacks sep s → Lacks sep (drop_end drops s)
  unfolding drop_end
  drop_end-Lacks [] h = tt
  drop_end-Lacks (c ∷ s) (p, h) = keep_end-Lacks c (drop_end drops s) p (drop_end-Lacks s h)

trim_space-Lacks : (sep : ℕ) (s : Text) → Lacks sep s → Lacks sep (trim_space s)
unfolding trim_space
trim_space-Lacks sep s h =
    drop_end-Lacks is_space sep (drop_while is_space s) (drop_while-Lacks is_space sep s h)

-- Not empty, and without a comma.
abbrev pub IsEntry : Text → Type 0
IsEntry p = (p ≢ []) × Lacks b',' p

keep_parts-IsEntry : (parts : List Text) → All (Lacks b',') parts → All IsEntry (keep_parts parts)
unfolding keep_parts
keep_parts-IsEntry [] h = tt
keep_parts-IsEntry (p ∷ parts) (h, hs) = elim (Bool-cases (text_eq (trim_space p) [])) [
  | inl y ↦ rw y (keep_parts-IsEntry parts hs)
  | inr n ↦ rw n (
    (λ e. ground (arith, text_eq_iff (trim_space p) []), trim_space-Lacks b',' p h),
    keep_parts-IsEntry parts hs,
  )
]

-- Every entry of the list is not empty and has no comma, whatever the flag.
pub split_csv-IsEntry : (s : Text) → All IsEntry (split_csv s)
unfolding split_csv
split_csv-IsEntry s = elim (Bool-cases (text_eq (trim_space s) [])) [
  | inl y ↦ rw y tt
  | inr n ↦ rw n (keep_parts-IsEntry (split s b',') (split-Lacks s b','))
]

keep_parts_words : (parts : List Text) → All IsWord parts → keep_parts parts ≡ parts
unfolding keep_parts
keep_parts_words [] h = refl
keep_parts_words (p ∷ parts) (w, ws) =
    rw (trim_space-solid p w.solid)
      (rw (text_eq_nonempty p w.nonempty) (ap (◌∷◌ p) (keep_parts_words parts ws)))

trim_space-join :
    (p : Text) (parts : List Text)
    → IsWord p
    → text_eq (trim_space (join (p ∷ parts) b',')) [] ≡ false
unfolding join
trim_space-join [] parts w = absurd (w.nonempty refl)
trim_space-join (c ∷ p) [] w = let (h, _) = w.solid in trim_space-front c p h
trim_space-join (c ∷ p) (q ∷ parts) w =
    let (h, _) = w.solid in trim_space-front c (p ++ b',' ∷ join (q ∷ parts) b',') h

-- The entries of a list are read back from the flag in which commas join them, if each is a word
-- without a comma.
pub split_csv-join :
    (parts : List Text)
    → All IsWord parts
    → All (Lacks b',') parts
    → split_csv (join parts b',') ≡ parts
unfolding split_csv join
split_csv-join [] w h = refl
split_csv-join (p ∷ parts) (w, ws) h =
    rw (trim_space-join p parts w)
      (rw (split-join p parts b',' h) (keep_parts_words (p ∷ parts) (w, ws)))
