-- ===== src/Objstore/Minio/Listing.antt =====
-- src/internal/objstore/minio.go: the keys of `List` against those of the bucket.
use mathlib.Core.Path.{subst}
use airgap_snapshots.Base.{
  ◌≡◌, refl, sym, ap, ◌∙◌, true, false, List, [], ◌∷◌, ◌++◌, append_assoc, map, All, Result, ok,
  err,
}
use airgap_snapshots.Base.Text.{Text, text_eq}
use airgap_snapshots.Base.Text.Search.{trim_prefix, trim_prefix-append}
use airgap_snapshots.Base.Text.Trim.{trim_left}
use airgap_snapshots.Base.Text.FilePath.{slash}
use airgap_snapshots.Objstore.{ObjectInfo}
use airgap_snapshots.Objstore.Keys.{IsRelative, trim_left_of_IsRelative, full_key, rel_key}
use airgap_snapshots.Objstore.Minio.{
  MinioLibrary, Bucket, Listed, listed_object, listed_error, unquote, add_listed, collect_listed,
}

-- The key of the bucket lies under the prefix, and its rest does not begin with a slash.
pub data IsUnder (prefix : Text) (full : Text) : Type 0 where
  under_root : text_eq prefix [] ≡ true → IsRelative full → IsUnder prefix full
  under_prefix :
      (rest : Text)
      → text_eq prefix [] ≡ false
      → IsRelative rest
      → full ≡ prefix ++ slash ∷ rest
      → IsUnder prefix full

full_key-rel_key :
    (prefix full : Text) → IsUnder prefix full → full_key prefix (rel_key prefix full) ≡ full
unfolding full_key rel_key
full_key-rel_key prefix full (under_root e h) = rw e (trim_left_of_IsRelative full h)
full_key-rel_key prefix full (under_prefix rest n h e) =
    rw (n, e)
      (ap (λ k. prefix ++ slash ∷ trim_left k slash)
          (ap (λ t. trim_prefix t (prefix ++ slash ∷ []))
              (sym (append_assoc prefix (slash ∷ []) rest))
            ∙ trim_prefix-append (prefix ++ slash ∷ []) rest)
        ∙ ap (λ k. prefix ++ slash ∷ k) (trim_left_of_IsRelative rest h))

-- The keys of the bucket in a listing without an error.
abbrev pub bucket_keys : List Listed → List Text
bucket_keys [] = []
bucket_keys (listed_object o ∷ events) = o.key ∷ bucket_keys events
bucket_keys (listed_error e ∷ events) = bucket_keys events

module _ {W : Type 0} (minio : MinioLibrary W) (bucket : Bucket W) (prefix : Text) where
  add_listed-keys :
      (o : ObjectInfo) (keys : List Text) (r : Result (List ObjectInfo)) (out : List ObjectInfo)
      → IsUnder prefix o.key
      → ((rest : List ObjectInfo)
          → r ≡ ok rest
          → map (λ (x : ObjectInfo). full_key prefix x.key) rest ≡ keys)
      → add_listed minio bucket prefix o r ≡ ok out
      → map (λ (x : ObjectInfo). full_key prefix x.key) out ≡ o.key ∷ keys
  unfolding add_listed
  add_listed-keys o keys (err e) out u ih h = cc h
  add_listed-keys o keys (ok rest) out u ih h =
      let same : record o { key = rel_key prefix o.key; etag = unquote o.etag } ∷ rest ≡ out =
        cc h in
      subst (λ xs. map (λ (x : ObjectInfo). full_key prefix x.key) xs ≡ o.key ∷ keys) same
        (cc (full_key-rel_key prefix o.key u, ih rest refl))

  -- If the keys of a listing lie under the prefix, without a slash at the front of the rest, and the
  -- listing succeeds, then the full keys of what it gives are those that the bucket listed, in order.
  pub collect_listed-full_key :
      (list_prefix : Text) (events : List Listed) (out : List ObjectInfo)
      → All (IsUnder prefix) (bucket_keys events)
      → collect_listed minio bucket prefix list_prefix events ≡ ok out
      → map (λ (x : ObjectInfo). full_key prefix x.key) out ≡ bucket_keys events
  unfolding collect_listed
  collect_listed-full_key list_prefix [] [] u h = refl
  collect_listed-full_key list_prefix [] (x ∷ out) u h = cc h
  collect_listed-full_key list_prefix (listed_error e ∷ events) out u h = cc h
  collect_listed-full_key list_prefix (listed_object o ∷ events) out (u, us) h =
      add_listed-keys o (bucket_keys events) (collect_listed minio bucket prefix list_prefix events)
        out u (λ rest e. collect_listed-full_key list_prefix events rest us e) h
