-- ===== src/Objstore/Keys.antt =====
-- src/internal/objstore/minio.go: the keys of the bucket and the keys relative to the prefix of the
-- storage location.
use airgap_snapshots.Base.{
  ◌≡◌, refl, false, [], ◌∷◌, ◌++◌, append_assoc, ◌==◌, if◌then◌else◌, Bool-cases, inl, inr,
}
use airgap_snapshots.Base.Text.{Text, text_eq}
use airgap_snapshots.Base.Text.Search.{trim_prefix, trim_prefix-append}
use airgap_snapshots.Base.Text.Trim.{trim_left}
use airgap_snapshots.Base.Text.FilePath.{slash}

-- `fullKey`, for a store with this prefix
unfoldable pub full_key : Text → Text → Text
unfolding trim_left
full_key prefix rel =
    let trimmed = trim_left rel slash in
    if text_eq prefix [] then trimmed else prefix ++ slash ∷ trimmed

-- `relKey`
unfoldable pub rel_key : Text → Text → Text
unfolding trim_prefix
rel_key prefix full = if text_eq prefix [] then full else trim_prefix full (prefix ++ slash ∷ [])

-- A key that does not begin with a slash.
abbrev pub IsRelative : Text → Type 0
IsRelative [] = Unit
IsRelative (c ∷ k) = (c == slash) ≡ false

pub trim_left_of_IsRelative : (k : Text) → IsRelative k → trim_left k slash ≡ k
unfolding trim_left
trim_left_of_IsRelative [] h = refl
trim_left_of_IsRelative (c ∷ k) h = rw h

-- `relKey` inverts `fullKey` up to the slashes in front of the key, for every prefix.
pub rel_key-full_key :
    (prefix rel : Text) → rel_key prefix (full_key prefix rel) ≡ trim_left rel slash
unfolding rel_key full_key
rel_key-full_key prefix rel = elim (Bool-cases (text_eq prefix [])) [
  | inl e ↦ rw e
  | inr e ↦ rw e (
      rw (← append_assoc prefix (slash ∷ []) (trim_left rel slash))
        (trim_prefix-append (prefix ++ slash ∷ []) _))
]
