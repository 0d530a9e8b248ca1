-- ===== src/Base/Text/FilePath.antt =====
-- Slash-separated paths: `path.Clean`, `path.Base` and `filepath.Join`, by their components.
use Prim.Native.Nat.{ℕ}
use mathlib.Core.Bool.{Bool, ◌||◌}
use mathlib.Core.List.{List, [], ◌∷◌, ◌++◌}
use airgap_snapshots.Base.Tests.{if◌then◌else◌}
use airgap_snapshots.Base.Text.{Text, text_eq}
use airgap_snapshots.Base.Text.Search.{has_prefix, split, join}

abbrev pub slash : ℕ
slash = b'/'

abbrev pub dot : Text
dot = b'.' ∷ []

abbrev pub dot_dot : Text
dot_dot = b'.' ∷ b'.' ∷ []

-- Takes the last component away; a path that has climbed out climbs once more.
unfoldable pub pop_part : Bool → List Text → List Text
pop_part rooted [] = if rooted then [] else dot_dot ∷ []
pop_part rooted (p ∷ []) = if text_eq p dot_dot then p ∷ dot_dot ∷ [] else []
pop_part rooted (p ∷ q ∷ parts) = p ∷ pop_part rooted (q ∷ parts)

unfoldable pub clean_step : Bool → List Text → Text → List Text
unfolding pop_part
clean_step rooted out part =
    if text_eq part [] || text_eq part dot
    then out
    else if text_eq part dot_dot
    then pop_part rooted out
    else out ++ part ∷ []

unfoldable pub clean_parts : Bool → List Text → List Text → List Text
unfolding clean_step
clean_parts rooted out [] = out
clean_parts rooted out (part ∷ parts) = clean_parts rooted (clean_step rooted out part) parts

-- `path.Clean(p)`
unfoldable pub clean : Text → Text
unfolding clean_parts has_prefix split join
clean p =
    let rooted = has_prefix p (slash ∷ []) in
    let body = join (clean_parts rooted [] (split p slash)) slash in
    if rooted then slash ∷ body else if text_eq body [] then dot else body

unfoldable pub last_part : List Text → Text
last_part [] = []
last_part (p ∷ []) = p
last_part (p ∷ q ∷ parts) = last_part (q ∷ parts)

-- The parts without the empty ones.
unfoldable pub nonempty_parts : List Text → List Text
nonempty_parts [] = []
nonempty_parts (p ∷ parts) =
    let rest = nonempty_parts parts in if text_eq p [] then rest else p ∷ rest

-- `path.Base(p)`: the last component that is not empty; "." for "", "/" for slashes alone.
unfoldable pub base : Text → Text
unfolding last_part nonempty_parts split text_eq
base p =
    if text_eq p []
    then dot
    else let name = last_part (nonempty_parts (split p slash)) in
      if text_eq name [] then slash ∷ [] else name

-- `filepath.Join(parts...)`: empty elements are left out.
unfoldable pub join_path : List Text → Text
unfolding clean nonempty_parts join text_eq
join_path parts = elim (nonempty_parts parts) [ [] ↦ [] | p ∷ rest ↦ clean (join (p ∷ rest) slash) ]

unfoldable pub init_parts : List Text → List Text
init_parts [] = []
init_parts (p ∷ []) = []
init_parts (p ∷ q ∷ parts) = p ∷ init_parts (q ∷ parts)

-- `filepath.Dir(p)`
unfoldable pub dir : Text → Text
unfolding init_parts split join clean
dir p =
    let parent = join (init_parts (split p slash)) slash in
    if has_prefix p (slash ∷ []) then clean (slash ∷ parent) else clean parent
