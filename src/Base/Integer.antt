-- ===== src/Base/Integer.antt =====
-- Go's `int64` as the integer that it holds, over the native numbers, with the wrap-around of its
-- conversions and sums; `uint64` is a native number below 2 ^ 64.
use Prim.Native.Nat.{ℕ, suc, ◌+◌, ◌-◌, ◌%◌}
use mathlib.Core.Path.{◌≡◌}
use mathlib.Core.Bool.{Bool, true, false}
use native.Mathlib.Omega.{arith}
use airgap_snapshots.Base.Tests.{ltb, ◌==◌, if◌then◌else◌}

-- `negsuc n` is -(n + 1).
pub data ℤ : Type 0 where
  pos : ℕ → ℤ
  negsuc : ℕ → ℤ

abbrev pub pos_part : ℤ → ℕ
pos_part (pos n) = n
pos_part (negsuc n) = 0

abbrev pub int64_limit : ℕ
int64_limit = 9223372036854775808

-- The sum of two `uint64`.
unfoldable pub add_uint64 : ℕ → ℕ → ℕ
add_uint64 a b = (a + b) % 18446744073709551616

-- `uint64(z)` of an `int64`
unfoldable pub to_uint64 : ℤ → ℕ
to_uint64 (pos n) = n % 18446744073709551616
to_uint64 (negsuc n) =
    (18446744073709551616 - suc (n % 18446744073709551616)) % 18446744073709551616

-- `int64(n)` of a `uint64`
unfoldable pub to_int64 : ℕ → ℤ
to_int64 n =
    let m = n % 18446744073709551616 in
    if ltb m 9223372036854775808 then pos m else negsuc (18446744073709551615 - m)

-- The sum of two `int64`.
unfoldable pub add_int64 : ℤ → ℤ → ℤ
unfolding to_int64 to_uint64
add_int64 a b = to_int64 (to_uint64 a + to_uint64 b)

-- `int32(n)` of an `int` that is not negative
unfoldable pub to_int32 : ℕ → ℤ
to_int32 n = let m = n % 4294967296 in if ltb m 2147483648 then pos m else negsuc (4294967295 - m)

-- The sum of two `int32`, which are congruent to their `uint64` modulo 2 ^ 32.
unfoldable pub add_int32 : ℤ → ℤ → ℤ
unfolding to_int32 to_uint64
add_int32 a b = to_int32 (to_uint64 a + to_uint64 b)

-- `a == b`
unfoldable pub int_eq : ℤ → ℤ → Bool
int_eq (pos a) (pos b) = a == b
int_eq (pos a) (negsuc b) = false
int_eq (negsuc a) (pos b) = false
int_eq (negsuc a) (negsuc b) = a == b

-- `z <= 0`
unfoldable pub not_positive : ℤ → Bool
not_positive (pos n) = n == 0
not_positive (negsuc n) = true

pub int_eq_sound : (a b : ℤ) → int_eq a b ≡ true → a ≡ b
unfolding int_eq
int_eq_sound (pos a) (pos b) h = ground arith
int_eq_sound (pos a) (negsuc b) h = ground arith
int_eq_sound (negsuc a) (pos b) h = ground arith
int_eq_sound (negsuc a) (negsuc b) h = ground arith

pub int_eq_refl : (a : ℤ) → int_eq a a ≡ true
unfolding int_eq
int_eq_refl (pos a) = ground arith
int_eq_refl (negsuc a) = ground arith
