-- ===== src/Base/Text/Encode.antt =====
-- What the program uses of the packages `strconv`, `encoding/hex` and `encoding/base64`, and of the
-- verbs %d and %04d of `fmt`, on numbers that are not negative.
use Prim.Native.Nat.{ℕ, zero, suc, ◌+◌, ◌-◌, ◌*◌, ◌/◌, ◌%◌}
use mathlib.Core.Bool.{Bool, true, false, ◌&&◌}
use mathlib.Core.Option.{Option, none, some}
use mathlib.Core.List.{[], ◌∷◌, ◌++◌}
use airgap_snapshots.Base.Tests.{ltb, leb, ◌==◌, if◌then◌else◌}
use airgap_snapshots.Base.Text.{Text, bytes}

-- The decimal digits in front of `rest`; the first argument bounds their number.
unfoldable pub digits : ℕ → ℕ → Text → Text
digits zero n rest = rest
digits (suc fuel) n rest =
    let text = (n % 10 + b'0') ∷ rest in
    let more = digits fuel (n / 10) text in if ltb n 10 then text else more

-- `strconv.FormatUint(n, 10)`, and `%d`
unfoldable pub decimal : ℕ → Text
unfolding digits
decimal n = digits (suc n) n []

-- The zeros in front of a number below 10, 100, 1000.
abbrev pub padded : Bool → Bool → Bool → Text → Text
padded true b c s = bytes "000" ++ s
padded false true c s = bytes "00" ++ s
padded false false true s = bytes "0" ++ s
padded false false false s = s

-- `%04d`
unfoldable pub decimal_4 : ℕ → Text
unfolding decimal
decimal_4 n = padded (ltb n 10) (ltb n 100) (ltb n 1000) (decimal n)

abbrev pub is_digit : ℕ → Bool
is_digit c = leb b'0' c && leb c b'9'

-- The value of a text of digits behind the value of those read; `none` is a syntax error.
unfoldable pub parse_digits : ℕ → Text → Option ℕ
parse_digits n [] = some n
parse_digits n (c ∷ s) = if is_digit c then parse_digits (n * 10 + (c - b'0')) s else none

unfoldable pub clamp : Option ℕ → ℕ
clamp none = 0
clamp (some n) = if ltb n 18446744073709551616 then n else 18446744073709551615

-- The value that `strconv.ParseUint(s, 10, 64)` returns beside its error: 0 on a syntax error, the
-- greatest `uint64` when out of range.
unfoldable pub parse_uint : Text → ℕ
unfolding parse_digits clamp
parse_uint [] = 0
parse_uint (c ∷ s) = clamp (parse_digits 0 (c ∷ s))

unfoldable pub hex_digit : ℕ → ℕ
hex_digit n = if ltb n 10 then n + b'0' else n - 10 + b'a'

-- `hex.EncodeToString`
unfoldable pub hex : Text → Text
unfolding hex_digit
hex [] = []
hex (c ∷ s) = hex_digit (c / 16) ∷ hex_digit (c % 16) ∷ hex s

unfoldable pub base64_digit : ℕ → ℕ
base64_digit n =
    if ltb n 26
    then n + b'A'
    else if ltb n 52
    then n - 26 + b'a'
    else if ltb n 62
    then n - 52 + b'0'
    else if n == 62
    then b'+'
    else b'/'

-- `base64.StdEncoding.EncodeToString`
unfoldable pub base64 : Text → Text
unfolding base64_digit
base64 [] = []
base64 (a ∷ []) = base64_digit (a / 4) ∷ base64_digit (a % 4 * 16) ∷ bytes "=="
base64 (a ∷ b ∷ []) =
    base64_digit (a / 4)
    ∷ base64_digit (a % 4 * 16 + b / 16)
    ∷ base64_digit (b % 16 * 4)
    ∷ bytes "="
base64 (a ∷ b ∷ c ∷ s) =
    base64_digit (a / 4)
    ∷ base64_digit (a % 4 * 16 + b / 16)
    ∷ base64_digit (b % 16 * 4 + c / 64)
    ∷ base64_digit (c % 64)
    ∷ base64 s
