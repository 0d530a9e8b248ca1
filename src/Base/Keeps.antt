-- ===== src/Base/Keeps.antt =====
-- Actions that leave what is observed of the world as it is, whether they succeed or fail.
use mathlib.Core.Path.{◌≡◌, refl, ◌∙◌}
use mathlib.Core.Bool.{Bool, true, false}
use airgap_snapshots.Base.Tests.{if◌then◌else◌}
use mathlib.Core.Logic.{◌≢◌, inl, inr}
use airgap_snapshots.Base.Errors.{Failure, Result, ok, err, Result-cases}
use airgap_snapshots.Base.Effects.{
  M, bind_result, ◌>>=◌, with_context, clean_result, on_failure, recover_result, recover,
}
use native.Mathlib.Omega.{arith}

module _ {W B : Type 0} (f : W → B) where
  abbrev pub Keeps : {A : Type 0} → M W A → Type 0
  Keeps m = (w : W) → f (m w).1 ≡ f w

  bind_result-Keeps :
      {A C : Type 0} (g : A → M W C) (r : Result A) (w : W)
      → ((a : A) → r ≡ ok a → f (g a w).1 ≡ f w)
      → f (bind_result g r w).1 ≡ f w
  bind_result-Keeps g (ok a) w h = h a refl
  bind_result-Keeps g (err e) w h = refl

  -- The rest of the block may use what the first action returned.
  pub bind-Keeps :
      {A C : Type 0} (m : M W A) (g : A → M W C)
      → Keeps m
      → ((w : W) (a : A) → (m w).0 ≡ ok a → Keeps (g a))
      → Keeps (m >>= g)
  bind-Keeps m g km kg w = bind_result-Keeps g (m w).0 (m w).1 (λ a e. kg w a e (m w).1) ∙ km w

  pub if-Keeps :
      {A : Type 0} (b : Bool) (m n : M W A) → Keeps m → Keeps n → Keeps (if b then m else n)
  if-Keeps true m n km kn = km
  if-Keeps false m n km kn = kn

bind_result-eq-ok :
    {W A C : Type 0} (g : A → M W C) (r : Result A) (w : W) (b : C)
    → (bind_result g r w).0 ≡ ok b
    → (a : A) × (r ≡ ok a) × ((g a w).0 ≡ ok b) × ((bind_result g r w).1 ≡ (g a w).1)
bind_result-eq-ok g (ok a) w b h = (a, refl, h, refl)
bind_result-eq-ok g (err e) w b h = cc

-- Inversion of a block that returned: its first action returned, and the rest did from there.
pub bind-eq-ok :
    {W A C : Type 0} (m : M W A) (g : A → M W C) (w : W) (b : C)
    → ((m >>= g) w).0 ≡ ok b
    → (a : A) × ((m w).0 ≡ ok a) × ((g a (m w).1).0 ≡ ok b) × (((m >>= g) w).1 ≡ (g a (m w).1).1)
bind-eq-ok m g w b h = bind_result-eq-ok g (m w).0 (m w).1 b h

pub with_context-eq-ok :
    {W A : Type 0} (f : Failure → Failure) (m : M W A) (w : W) (a : A)
    → (with_context f m w).0 ≡ ok a
    → (m w).0 ≡ ok a
with_context-eq-ok f m w a h = elim (Result-cases (m w).0) [
  | inl (b, e) ↦ ground arith
  | inr (b, e) ↦ ground arith
]

recover_result-eq-ok :
    {W A B : Type 0} (h : Failure → M W B) (k : A → M W B) (r : Result A) (w : W) (b : B)
    → ((e : Failure) (v : W) → (h e v).0 ≢ ok b)
    → (recover_result h k r w).0 ≡ ok b
    → (a : A) × (r ≡ ok a) × ((k a w).0 ≡ ok b)
recover_result-eq-ok h k (ok a) w b n e = (a, refl, e)
recover_result-eq-ok h k (err f) w b n e = absurd (n f w e)

-- Where the handler gives no result, a result is that of the code behind it.
pub recover-eq-ok :
    {W A B : Type 0} (h : Failure → M W B) (m : M W A) (k : A → M W B) (w : W) (b : B)
    → ((e : Failure) (v : W) → (h e v).0 ≢ ok b)
    → (recover h m k w).0 ≡ ok b
    → (a : A) × ((m w).0 ≡ ok a) × ((k a (m w).1).0 ≡ ok b)
recover-eq-ok h m k w b n e = recover_result-eq-ok h k (m w).0 (m w).1 b n e

clean_result-eq-ok :
    {W A : Type 0} (cleanup : M W (Unit {0})) (r : Result A) (v : W) (a : A)
    → (clean_result cleanup r v).0 ≡ ok a
    → r ≡ ok a
clean_result-eq-ok cleanup (ok b) v a h = h
clean_result-eq-ok cleanup (err e) v a h = cc h

pub on_failure-eq-ok :
    {W A : Type 0} (m : M W A) (cleanup : M W (Unit {0})) (w : W) (a : A)
    → (on_failure m cleanup w).0 ≡ ok a
    → (m w).0 ≡ ok a
on_failure-eq-ok m cleanup w a h = clean_result-eq-ok cleanup (m w).0 (m w).1 a h

-- A block that ends in `return x, nil` leaves the world of its last action.
pub bind-pure-world :
    {W A C : Type 0} (m : M W A) (g : A → C) (w : W)
    → ((m >>= λ a. λ w'. (ok (g a), w')) w).1 ≡ (m w).1
bind-pure-world m g w = bind_result-pure-world (m w).0 g (m w).1
  where
    bind_result-pure-world :
        {W A C : Type 0} (r : Result A) (g : A → C) (w : W)
        → (bind_result (λ a. λ w'. (ok (g a), w')) r w).1 ≡ w
    bind_result-pure-world (ok a) g w = refl
    bind_result-pure-world (err e) g w = refl

recover_result_cases :
    {W A B : Type 0} (P : Result B × W → Type 0) (h : Failure → M W B) (k : A → M W B)
    (r : Result A) (w : W)
    → ((e : Failure) (v : W) → P (h e v))
    → ((a : A) (v : W) → P (k a v))
    → P (recover_result h k r w)
recover_result_cases P h k (ok a) w p q = q a w
recover_result_cases P h k (err e) w p q = p e w

-- What holds behind the handler and behind the continuation holds.
pub recover_cases :
    {W A B : Type 0} (P : Result B × W → Type 0) (h : Failure → M W B) (m : M W A) (k : A → M W B)
    (w : W)
    → ((e : Failure) (v : W) → P (h e v))
    → ((a : A) (v : W) → P (k a v))
    → P (recover h m k w)
recover_cases P h m k w p q = recover_result_cases P h k (m w).0 (m w).1 p q
