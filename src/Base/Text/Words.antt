-- ===== src/Base/Text/Words.antt =====
-- Texts without white space, which `strings.TrimSpace` does not change.
use airgap_snapshots.Base.{
  ℕ, ◌-◌, ◌≡◌, ◌≢◌, refl, ap, false, [], ◌∷◌, ◌++◌, some, arith, All, length, length-append, take,
}
use airgap_snapshots.Base.Text.{Text, text_eq}
use airgap_snapshots.Base.Text.Search.{last?}
use airgap_snapshots.Base.Text.Trim.{drop_while, keep_end, drop_end, is_space, trim_space}

-- Not empty, and without white space.
pub record IsWord (t : Text) : Type 0 where
  pub nonempty : t ≢ []
  pub solid : All (λ c. is_space c ≡ false) t

drop_end-solid : (t : Text) → All (λ c. is_space c ≡ false) t → drop_end is_space t ≡ t
unfolding drop_end
drop_end-solid [] h = refl
drop_end-solid (c ∷ t) (h, hs) = rw (drop_end-solid t hs) (keep t)
  where
    keep : (t : Text) → keep_end is_space c t ≡ c ∷ t
    keep [] = rw (h, keep_end) refl
    keep (d ∷ t) = refl

append-ne-nil : (s t : Text) → t ≢ [] → s ++ t ≢ []
append-ne-nil [] t n = n
append-ne-nil (c ∷ s) t n = λ e. cc e

-- A text that ends in a word is not trimmed at its end.
drop_end-word : (s t : Text) → IsWord t → drop_end is_space (s ++ t) ≡ s ++ t
unfolding drop_end
drop_end-word [] t w = drop_end-solid t w.solid
drop_end-word (c ∷ s) t w = rw (drop_end-word s t w) (keep (s ++ t) (append-ne-nil s t w.nonempty))
  where
    keep : (u : Text) → u ≢ [] → keep_end is_space c u ≡ c ∷ u
    keep [] n = absurd (n refl)
    keep (d ∷ u) n = refl

pub trim_space-solid : (t : Text) → All (λ c. is_space c ≡ false) t → trim_space t ≡ t
unfolding trim_space
trim_space-solid t h = rw (front t h) (drop_end-solid t h)
  where
    front : (t : Text) → All (λ c. is_space c ≡ false) t → drop_while is_space t ≡ t
    front [] h = refl
    front (c ∷ t) (h, _) = rw (h, drop_while) refl

pub trim_space-word :
    (c : ℕ) (s t : Text) → is_space c ≡ false → IsWord t → trim_space (c ∷ (s ++ t)) ≡ c ∷ (s ++ t)
unfolding trim_space
trim_space-word c s t h w = rw (h, drop_while) (drop_end-word (c ∷ s) t w)

pub bracket-IsWord : IsWord (b']' ∷ [])
unfolding is_space
bracket-IsWord = record { nonempty = λ e. cc e; solid = (refl, tt) }

pub last?-concat : (s : Text) (c : ℕ) → last? (s ++ c ∷ []) ≡ some c
unfolding last?
last?-concat [] c = refl
last?-concat (d ∷ s) c =
    last_of (s ++ c ∷ []) (append-ne-nil s (c ∷ []) (λ e. cc e)) (last?-concat s c)
  where
    last_of : (u : Text) → u ≢ [] → last? u ≡ some c → last? (d ∷ u) ≡ some c
    last_of [] n h = absurd (n refl)
    last_of (x ∷ u) n h = h

take-append : (s t : Text) → take (length s) (s ++ t) ≡ s
take-append [] t = refl
take-append (d ∷ s) t = ap (◌∷◌ d) (take-append s t)

pub take_all_but_last : (s : Text) (c : ℕ) → take (length (s ++ c ∷ []) - 1) (s ++ c ∷ []) ≡ s
take_all_but_last s c =
    let n : length (s ++ c ∷ []) - 1 ≡ length s = omega (arith, length-append s (c ∷ [])) in
    rw n (take-append s (c ∷ []))

pub text_eq_nil : (t : Text) → t ≢ [] → text_eq [] t ≡ false
unfolding text_eq
text_eq_nil [] n = absurd (n refl)
text_eq_nil (c ∷ t) n = refl

pub text_eq_nonempty : (t : Text) → t ≢ [] → text_eq t [] ≡ false
unfolding text_eq
text_eq_nonempty [] n = absurd (n refl)
text_eq_nonempty (c ∷ t) n = refl

-- A text that begins with no white space is not trimmed to the empty text.
pub trim_space-front :
    (c : ℕ) (s : Text) → is_space c ≡ false → text_eq (trim_space (c ∷ s)) [] ≡ false
unfolding trim_space text_eq drop_end
trim_space-front c s h = rw (h, drop_while) (keep (drop_end is_space s))
  where
    keep : (u : Text) → text_eq (keep_end is_space c u) [] ≡ false
    keep [] = rw (h, keep_end) refl
    keep (d ∷ u) = refl
