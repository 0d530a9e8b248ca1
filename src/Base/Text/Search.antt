-- ===== src/Base/Text/Search.antt =====
-- Prefixes, cuts and splits: `strings.HasPrefix`, `TrimPrefix`, `Contains`, `Cut`, `Split` and
-- `Join`.
use Prim.Native.Nat.{ℕ}
use mathlib.Core.Path.{◌≡◌, refl}
use mathlib.Core.Bool.{Bool, true, false, ◌&&◌, ◌||◌}
use mathlib.Core.Option.{Option, none, some}
use mathlib.Core.List.{List, [], ◌∷◌, ◌++◌}
use native.Mathlib.Omega.{arith}
use airgap_snapshots.Base.Tests.{◌==◌, if◌then◌else◌}
use airgap_snapshots.Base.Lists.{All}
use airgap_snapshots.Base.Text.{Text}

-- `strings.HasPrefix(s, p)`
unfoldable pub has_prefix : Text → Text → Bool
has_prefix s [] = true
has_prefix [] (d ∷ p) = false
has_prefix (c ∷ s) (d ∷ p) = c == d && has_prefix s p

-- What is left of `s` behind the prefix `p`, if it has that prefix.
unfoldable pub strip_prefix : Text → Text → Option Text
strip_prefix s [] = some s
strip_prefix [] (d ∷ p) = none
strip_prefix (c ∷ s) (d ∷ p) = let rest = strip_prefix s p in if c == d then rest else none

-- `strings.TrimPrefix(s, p)`
unfoldable pub trim_prefix : Text → Text → Text
unfolding strip_prefix
trim_prefix s p = elim (strip_prefix s p) [ some rest ↦ rest | none ↦ s ]

-- `strings.Contains(s, p)`
unfoldable pub contains : Text → Text → Bool
unfolding has_prefix
contains [] p = has_prefix [] p
contains (c ∷ s) p = has_prefix (c ∷ s) p || contains s p

-- The last byte.
unfoldable pub last? : Text → Option ℕ
last? [] = none
last? (c ∷ []) = some c
last? (c ∷ d ∷ s) = last? (d ∷ s)

-- `strings.Cut(s, sep)` for a separator of one byte; `none` is `ok == false`.
unfoldable pub cut : Text → ℕ → Option (Text × Text)
cut [] sep = none
cut (c ∷ s) sep =
    let rest : Option (Text × Text) = elim (cut s sep) [
      | none ↦ none
      | some (before, after) ↦ some (c ∷ before, after)
    ] in
    if c == sep then some ([], s) else rest

abbrev cons_head : ℕ → List Text → List Text
cons_head c [] = (c ∷ []) ∷ []
cons_head c (x ∷ xs) = (c ∷ x) ∷ xs

-- `strings.Split(s, sep)` for a separator of one byte.
unfoldable pub split : Text → ℕ → List Text
split [] sep = [] ∷ []
split (c ∷ s) sep = let rest = split s sep in if c == sep then [] ∷ rest else cons_head c rest

-- `strings.Join(parts, sep)` for a separator of one byte.
unfoldable pub join : List Text → ℕ → Text
join [] sep = []
join (p ∷ []) sep = p
join (p ∷ q ∷ parts) sep = p ++ sep ∷ join (q ∷ parts) sep

-- No byte of the text is `sep`.
abbrev pub Lacks : ℕ → Text → Type 0
Lacks sep = All (λ c. (c == sep) ≡ false)

pub strip_prefix-append : (p s : Text) → strip_prefix (p ++ s) p ≡ some s
unfolding strip_prefix
strip_prefix-append [] s = refl
strip_prefix-append (c ∷ p) s = ground (arith, strip_prefix-append p s)

pub trim_prefix-append : (p s : Text) → trim_prefix (p ++ s) p ≡ s
unfolding trim_prefix
trim_prefix-append p s = rw (strip_prefix-append p s, trim_prefix)

pub strip_prefix-eq_some : (s p r : Text) → strip_prefix s p ≡ some r → s ≡ p ++ r
unfolding strip_prefix
strip_prefix-eq_some s [] r h = ground arith
strip_prefix-eq_some [] (d ∷ p) r h = ground arith
strip_prefix-eq_some (c ∷ s) (d ∷ p) r h = ground (arith, strip_prefix-eq_some s p r)

pub has_prefix-append : (p s : Text) → has_prefix (p ++ s) p ≡ true
unfolding has_prefix
has_prefix-append [] s = refl
has_prefix-append (c ∷ p) s = ground (arith, has_prefix-append p s)

split-prepend :
    (p : Text) (sep : ℕ) (s : Text) → Lacks sep p → split (p ++ sep ∷ s) sep ≡ p ∷ split s sep
unfolding split
split-prepend [] sep s h = ground arith
split-prepend (c ∷ p) sep s (h, t) = rw (h, split-prepend p sep s t)

split_whole : (p : Text) (sep : ℕ) → Lacks sep p → split p sep ≡ p ∷ []
unfolding split
split_whole [] sep h = refl
split_whole (c ∷ p) sep (h, t) = rw (h, split_whole p sep t)

-- Splitting a join of parts that lack the separator gives the parts back.
pub split-join :
    (p : Text) (parts : List Text) (sep : ℕ)
    → All (Lacks sep) (p ∷ parts)
    → split (join (p ∷ parts) sep) sep ≡ p ∷ parts
unfolding join
split-join p [] sep (h, _) = split_whole p sep h
split-join p (q ∷ parts) sep (h, t) =
    rw (split-prepend p sep (join (q ∷ parts) sep) h) (rw (split-join q parts sep t))

extend-Lacks :
    (b : Bool) (c sep : ℕ)
    → (c == sep) ≡ b
    → (parts : List Text) → All (Lacks sep) parts
    → All (Lacks sep) (if b then [] ∷ parts else cons_head c parts)
extend-Lacks true c sep e parts h = (tt, h)
extend-Lacks false c sep e [] h = ((e, tt), tt)
extend-Lacks false c sep e (x ∷ xs) (h, t) = ((e, h), t)

-- Every part of a split lacks the separator.
pub split-Lacks : (s : Text) (sep : ℕ) → All (Lacks sep) (split s sep)
unfolding split
split-Lacks [] sep = (tt, tt)
split-Lacks (c ∷ s) sep = extend-Lacks (c == sep) c sep refl (split s sep) (split-Lacks s sep)
