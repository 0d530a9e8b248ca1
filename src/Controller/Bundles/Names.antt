-- ===== src/Controller/Bundles/Names.antt =====
-- src/internal/controller/backupreplication_controller.go: the ids of bundles.
use mathlib.Core.Path.{subst}
use airgap_snapshots.Base.{ℕ, ◌≡◌, sym, ap, ◌∙◌, some, [], ◌∷◌, ◌++◌, arith}
use airgap_snapshots.Base.Text.{Text}
use airgap_snapshots.Base.Text.Search.{Lacks}
use airgap_snapshots.Base.Text.Encode.{decimal_4, parse_digits}
use airgap_snapshots.Base.Text.Decimal.{parse-decimal_4, decimal_4-Lacks}
use airgap_snapshots.Controller.Bundles.{bundle_name}

Lacks-not : (sep : ℕ) (b y : Text) → Lacks sep (b ++ sep ∷ y) → ⊥
Lacks-not sep [] y (h, _) = ground arith
Lacks-not sep (c ∷ b) y (_, h) = Lacks-not sep b y h

-- Two texts without the separator behind the last separator.
last_unique :
    (sep : ℕ) (a b x y : Text)
    → Lacks sep x
    → Lacks sep y
    → a ++ sep ∷ x ≡ b ++ sep ∷ y
    → (a ≡ b) × (x ≡ y)
last_unique sep [] [] x y h k e = ground arith
last_unique sep [] (d ∷ b) x y h k e =
    let tail : x ≡ b ++ sep ∷ y = cc e in absurd (Lacks-not sep b y (subst (Lacks sep) tail h))
last_unique sep (c ∷ a) [] x y h k e =
    let tail : y ≡ a ++ sep ∷ x = cc e in absurd (Lacks-not sep a x (subst (Lacks sep) tail k))
last_unique sep (c ∷ a) (d ∷ b) x y h k e =
    let tail : a ++ sep ∷ x ≡ b ++ sep ∷ y = cc e in
    let head : c ≡ d = cc e in let (p, q) = last_unique sep a b x y h k tail in (cc (head, p), q)

-- The name of a bundle determines the name of the replication and the number of the bundle in it.
pub bundle_name_injective :
    (a b : Text) (i j : ℕ) → bundle_name a i ≡ bundle_name b j → (a ≡ b) × (i ≡ j)
unfolding bundle_name
bundle_name_injective a b i j e =
    let (p, q) =
      last_unique b'-' a b (decimal_4 i) (decimal_4 j) (decimal_4-Lacks i) (decimal_4-Lacks j) e in
    let same : some i ≡ some j =
      sym (parse-decimal_4 i) ∙ ap (parse_digits 0) q ∙ parse-decimal_4 j in
    (p, cc same)
