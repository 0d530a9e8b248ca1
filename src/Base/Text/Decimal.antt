-- ===== src/Base/Text/Decimal.antt =====
-- `strconv.FormatUint`, `strconv.ParseUint` and the verb %04d against each other.
use mathlib.Core.Path.{◌≡◌, refl, ap, ◌∙◌}
use mathlib.Core.Logic.{inl, inr}
use mathlib.Core.Bool.{Bool, true, false}
use mathlib.Core.Option.{some}
use mathlib.Core.List.{[], ◌∷◌}
use Prim.Native.Nat.{ℕ, zero, suc, ◌+◌, ◌*◌, ◌/◌, ◌%◌, ◌<◌}
use native.Mathlib.Omega.{arith}
use airgap_snapshots.Base.Tests.{ltb, Bool-cases}
use airgap_snapshots.Base.Text.{Text}
use airgap_snapshots.Base.Text.Search.{Lacks}
use airgap_snapshots.Base.Text.Encode.{digits, decimal, padded, decimal_4, parse_digits}

digit_read :
    (d m : ℕ) (rest : Text)
    → d < 10
    → parse_digits m ((d + b'0') ∷ rest) ≡ parse_digits (m * 10 + d) rest
unfolding parse_digits
digit_read d m rest h = ground arith

parse-digits :
    (fuel n : ℕ) (rest : Text)
    → n < fuel
    → parse_digits 0 (digits fuel n rest) ≡ parse_digits n rest
unfolding digits
parse-digits zero n rest h = ground arith
parse-digits (suc fuel) n rest h = elim (Bool-cases (ltb n 10)) [
  | inl small ↦
      rw small
        (digit_read (n % 10) 0 rest (omega arith) ∙ ap (λ k. parse_digits k rest) (ground arith))
  | inr big ↦ rw big (
      parse-digits fuel (n / 10) ((n % 10 + b'0') ∷ rest) (ground arith)
      ∙ digit_read (n % 10) (n / 10) rest (omega arith)
      ∙ ap (λ k. parse_digits k rest) (omega arith))
]

parse-decimal : (n : ℕ) → parse_digits 0 (decimal n) ≡ some n
unfolding decimal parse_digits
parse-decimal n = parse-digits (suc n) n [] (omega arith)

zeros_read : (a b c : Bool) (s : Text) → parse_digits 0 (padded a b c s) ≡ parse_digits 0 s
unfolding parse_digits
zeros_read true b c s = refl
zeros_read false true c s = refl
zeros_read false false true s = refl
zeros_read false false false s = refl

-- The padded number is read back too, so different numbers have different texts.
pub parse-decimal_4 : (n : ℕ) → parse_digits 0 (decimal_4 n) ≡ some n
unfolding decimal_4
parse-decimal_4 n = zeros_read (ltb n 10) (ltb n 100) (ltb n 1000) (decimal n) ∙ parse-decimal n

digits-Lacks : (fuel n : ℕ) (rest : Text) → Lacks b'-' rest → Lacks b'-' (digits fuel n rest)
unfolding digits
digits-Lacks zero n rest h = h
digits-Lacks (suc fuel) n rest h = elim (Bool-cases (ltb n 10)) [
  | inl small ↦ rw small (ground arith, h)
  | inr big ↦ rw big (digits-Lacks fuel (n / 10) ((n % 10 + b'0') ∷ rest) (ground arith, h))
]

zeros-Lacks : (a b c : Bool) (s : Text) → Lacks b'-' s → Lacks b'-' (padded a b c s)
zeros-Lacks true b c s h = (refl, (refl, (refl, h)))
zeros-Lacks false true c s h = (refl, (refl, h))
zeros-Lacks false false true s h = (refl, h)
zeros-Lacks false false false s h = h

pub decimal_4-Lacks : (n : ℕ) → Lacks b'-' (decimal_4 n)
unfolding decimal_4 decimal
decimal_4-Lacks n =
    zeros-Lacks (ltb n 10) (ltb n 100) (ltb n 1000) (decimal n) (digits-Lacks (suc n) n [] tt)
