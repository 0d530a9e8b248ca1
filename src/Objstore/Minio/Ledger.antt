-- ===== src/Objstore/Minio/Ledger.antt =====
-- src/internal/objstore/minio.go: the condition under which `PutLedger` writes.
use airgap_snapshots.Base.{
  ◌≡◌, ◌≢◌, refl, sym, inl, inr, Bool, true, false, [], ◌∷◌, Option, none, some, if◌then◌else◌,
  Bool-cases, length, Failure, sentinel, ledger_conflict, wrapf, ok, M, pure, fail,
}
use airgap_snapshots.Base.Integer.{ℤ, pos}
use airgap_snapshots.Base.Keeps.{recover-eq-ok}
use airgap_snapshots.Base.Text.{Text, bytes, text_eq}
use airgap_snapshots.Objstore.{ObjectInfo, Reader}
use airgap_snapshots.Objstore.Minio.{
  MinioLibrary, Bucket, PutOptions, ledger_options, is_precondition_failed, put_ledger,
}

module _ {W : Type 0} (minio : MinioLibrary W) (bucket : Bucket W) (prefix : Text)
    (etag_of : W → Text → Option Text) where
  -- A conditional upload succeeds only on an object with the etag of If-Match, and with If-None-Match
  -- of `*` only where there is no object.
  pub record Conditional : Type 0 where
    pub match :
        (key : Text) (r : Reader W) (n : ℤ) (options : PutOptions) (w : W) (info : ObjectInfo)
        (t : Text)
        → (bucket.put_object key r n options w).0 ≡ ok info
        → options.match_etag ≡ some t
        → etag_of w key ≡ some t
    pub absent :
        (key : Text) (r : Reader W) (n : ℤ) (options : PutOptions) (w : W) (info : ObjectInfo)
        → (bucket.put_object key r n options w).0 ≡ ok info
        → options.match_etag_except ≡ some (bytes "*")
        → etag_of w key ≡ none

  -- The ledger is the one with this etag, or absent if the etag is empty.
  abbrev pub IsCurrent : Text → Text → W → Type 0
  IsCurrent key etag w = (if text_eq etag [] then none else some etag) ≡ etag_of w key

  guarded :
      Conditional
      → (key body etag : Text) (w : W) (info : ObjectInfo) (b : Bool) → text_eq etag [] ≡ b
      → (bucket.put_object key (pure body) (pos (length body)) (ledger_options etag) w).0 ≡ ok info
      → IsCurrent key etag w
  unfolding ledger_options
  guarded laws key body etag w info true e h = rw e (
      sym (
        laws.absent key (pure body) (pos (length body)) (ledger_options etag) w info h (rw e refl)))
  guarded laws key body etag w info false e h = rw e (
      sym (
        laws.match key (pure body) (pos (length body)) (ledger_options etag) w info etag h
          (rw e refl)))

  abbrev refuse : Text → Failure → M W Text
  refuse key e =
      if is_precondition_failed minio e
      then fail (sentinel ledger_conflict)
      else fail (wrapf "objstore: put ledger %q: %w" (key ∷ []) e)

  refuse_lem : (key t : Text) (e : Failure) (w : W) → (refuse key e w).0 ≢ ok t
  refuse_lem key t e w h = elim (Bool-cases (is_precondition_failed minio e)) [
    | inl y ↦ cc (rw y at h)
    | inr n ↦ cc (rw n at h)
  ]

  -- Over a bucket with conditional uploads, `PutLedger` succeeds only if the ledger is still the one
  -- with the given etag, or still absent if that is empty.
  pub put_ledger-IsCurrent :
      Conditional
      → (key body etag : Text) (w : W) (new_etag : Text)
      → (put_ledger minio bucket prefix key body etag w).0 ≡ ok new_etag
      → IsCurrent key etag w
  unfolding put_ledger
  put_ledger-IsCurrent laws key body etag w new_etag h =
      let (info, e, _) =
        recover-eq-ok (refuse key)
          (bucket.put_object key (pure body) (pos (length body)) (ledger_options etag)) _ w new_etag
          (refuse_lem key new_etag) h in
      guarded laws key body etag w info (text_eq etag []) refl e
