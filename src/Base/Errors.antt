-- ===== src/Base/Errors.antt =====
-- Go's `error` values and the pair `(value, error)`. The rendered message of an error is not kept:
-- an error is the format string of the call that made it, its arguments, and what it wraps by `%w`.
use Prim.Native.String.{String}
use mathlib.Core.Path.{◌≡◌, refl}
use mathlib.Core.Logic.{◌⊎◌, inl, inr}
use mathlib.Core.List.{List}
use Prim.Native.Nat.{ℕ}

-- The package-level variables made by `errors.New`, which `errors.Is` compares by identity.
pub data Sentinel : Type 0 where
  not_landed ledger_conflict : Sentinel

pub data Failure : Type 0 where
  -- an error made by code outside the repository
  external : String → Failure
  sentinel : Sentinel → Failure
  errorf : String → List (List ℕ) → Failure
  wrapf : String → List (List ℕ) → Failure → Failure

pub data Result {ℓ} (A : Type ℓ) : Type ℓ where
  ok : A → Result A
  err : Failure → Result A

pub Result-cases {ℓ} :
    {A : Type ℓ} (r : Result A) → ((a : A) × (r ≡ ok a)) ⊎ ((e : Failure) × (r ≡ err e))
Result-cases (ok a) = inl (a, refl)
Result-cases (err e) = inr (e, refl)
