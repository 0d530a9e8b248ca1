-- ===== src/Base/Text/Trim.antt =====
-- `strings.TrimLeft`, `TrimRight` and `Trim` for a cutset of one byte, `TrimSpace` and `ToLower`
-- for ASCII.
use Prim.Native.Nat.{ℕ, ◌+◌}
use mathlib.Core.Bool.{Bool, ◌&&◌, ◌||◌}
use mathlib.Core.List.{[], ◌∷◌, map}
use airgap_snapshots.Base.Tests.{◌==◌, leb, if◌then◌else◌}
use airgap_snapshots.Base.Text.{Text}

module _ (drops : ℕ → Bool) where
  unfoldable pub drop_while : Text → Text
  drop_while [] = []
  drop_while (c ∷ s) = let rest = drop_while s in if drops c then rest else c ∷ s

  -- The text without its longest end of dropped bytes.
  -- `c` in front of what is left of the rest.
  unfoldable pub keep_end : ℕ → Text → Text
  keep_end c [] = if drops c then [] else c ∷ []
  keep_end c (d ∷ rest) = c ∷ d ∷ rest

  unfoldable pub drop_end : Text → Text
  unfolding keep_end
  drop_end [] = []
  drop_end (c ∷ s) = keep_end c (drop_end s)

abbrev pub is_byte : ℕ → ℕ → Bool
is_byte d c = c == d

-- `strings.TrimLeft(s, "/")` and the like
unfoldable pub trim_left : Text → ℕ → Text
unfolding drop_while
trim_left s d = drop_while (is_byte d) s

unfoldable pub trim_right : Text → ℕ → Text
unfolding drop_end
trim_right s d = drop_end (is_byte d) s

unfoldable pub trim : Text → ℕ → Text
unfolding trim_left trim_right
trim s d = trim_right (trim_left s d) d

unfoldable pub is_space : ℕ → Bool
is_space c = c == b' ' || leb 9 c && leb c 13

unfoldable pub trim_space : Text → Text
unfolding drop_while drop_end is_space
trim_space s = drop_end is_space (drop_while is_space s)

unfoldable pub to_lower_byte : ℕ → ℕ
to_lower_byte c = if leb b'A' c && leb c b'Z' then c + 32 else c

unfoldable pub to_lower : Text → Text
unfolding to_lower_byte
to_lower = map to_lower_byte
