-- ===== src/Base/Text/CleanPath.antt =====
-- What `path.Clean` makes of a relative path: climbs out of the root, if any, stand in front.
use mathlib.Core.Path.{◌≡◌, refl, sym}
use mathlib.Core.Logic.{◌⊎◌, inl, inr}
use mathlib.Core.Bool.{false}
use mathlib.Core.List.{List, [], ◌∷◌, ◌++◌, append_assoc, append-nil}
use airgap_snapshots.Base.Tests.{Bool-cases}
use airgap_snapshots.Base.Lists.{All, All-append}
use airgap_snapshots.Base.Text.{Text, text_eq, text_eq_refl}
use airgap_snapshots.Base.Text.Search.{split, Lacks, split-Lacks}
use airgap_snapshots.Base.Text.FilePath.{slash, dot, dot_dot, pop_part, clean_step, clean_parts}

-- A component that names an entry of its directory: not empty, not "." or "..", without a slash.
pub record IsPlain (c : Text) : Type 0 where
  pub not_empty : text_eq c [] ≡ false
  pub not_dot : text_eq c dot ≡ false
  pub not_dot_dot : text_eq c dot_dot ≡ false
  pub no_slash : Lacks slash c

-- Some climbs "..", then plain components.
abbrev pub Shape : List Text → Type 0
Shape [] = Unit
Shape (p ∷ parts) = ((p ≡ dot_dot) × Shape parts) ⊎ (IsPlain p × All IsPlain parts)

pop_part-IsPlain :
    (parts : List Text) (q : Text)
    → All IsPlain (q ∷ parts)
    → All IsPlain (pop_part false (q ∷ parts))
unfolding pop_part
pop_part-IsPlain [] q (h, _) = rw h.not_dot_dot tt
pop_part-IsPlain (p ∷ parts) q (h, t) = (h, pop_part-IsPlain parts p t)

pop_part-Shape : (parts : List Text) → Shape parts → Shape (pop_part false parts)
unfolding pop_part
pop_part-Shape [] s = inl (refl, tt)
pop_part-Shape (p ∷ []) (inl (e, _)) = rw (e, text_eq_refl dot_dot) (inl (refl, inl (refl, tt)))
pop_part-Shape (p ∷ []) (inr (h, _)) = rw h.not_dot_dot tt
pop_part-Shape (p ∷ q ∷ parts) (inl (e, s)) = inl (e, pop_part-Shape (q ∷ parts) s)
pop_part-Shape (p ∷ q ∷ parts) (inr (h, t)) = inr (h, pop_part-IsPlain parts q t)

Shape-concat : (parts : List Text) (c : Text) → Shape parts → IsPlain c → Shape (parts ++ c ∷ [])
Shape-concat [] c s h = inr (h, tt)
Shape-concat (p ∷ parts) c (inl (e, s)) h = inl (e, Shape-concat parts c s h)
Shape-concat (p ∷ parts) c (inr (g, t)) h = inr (g, All-append IsPlain parts (c ∷ []) t (h, tt))

clean_step-Shape :
    (out : List Text) (c : Text) → Lacks slash c → Shape out → Shape (clean_step false out c)
unfolding clean_step
clean_step-Shape out c h s = elim (Bool-cases (text_eq c [])) [
  | inl e ↦ rw e s
  | inr e ↦ elim (Bool-cases (text_eq c dot)) [
    | inl d ↦ rw (e, d) s
    | inr d ↦ elim (Bool-cases (text_eq c dot_dot)) [
      | inl u ↦ rw (e, d, u) (pop_part-Shape out s)
      | inr u ↦
          rw (e, d, u)
            (Shape-concat out c s
              (record { not_empty = e; not_dot = d; not_dot_dot = u; no_slash = h }))
    ]
  ]
]

clean_parts-Shape :
    (out parts : List Text)
    → All (Lacks slash) parts
    → Shape out
    → Shape (clean_parts false out parts)
unfolding clean_parts
clean_parts-Shape out [] h s = s
clean_parts-Shape out (c ∷ parts) (h, t) s =
    clean_parts-Shape (clean_step false out c) parts t (clean_step-Shape out c h s)

-- The components of the cleaned path.
abbrev pub cleaned : Text → List Text
cleaned k = clean_parts false [] (split k slash)

pub cleaned-Shape : (k : Text) → Shape (cleaned k)
cleaned-Shape k = clean_parts-Shape [] (split k slash) (split-Lacks k slash) tt

-- Plain components are clean already.
pub clean_parts-plain :
    (out parts : List Text) → All IsPlain parts → clean_parts false out parts ≡ out ++ parts
unfolding clean_parts clean_step
clean_parts-plain out [] h = sym (append-nil out)
clean_parts-plain out (c ∷ parts) (h, t) =
    rw (h.not_empty, h.not_dot, h.not_dot_dot)
      (rw (clean_parts-plain (out ++ c ∷ []) parts t) (append_assoc out (c ∷ []) parts))
