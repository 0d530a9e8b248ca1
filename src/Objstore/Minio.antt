-- ===== src/Objstore/Minio.antt =====
-- src/internal/objstore/minio.go: the store on an S3 bucket. The minio-go client is an argument; an etag
-- of it may be quoted.
pub mod Listing
pub mod Ledger
pub mod Open
use airgap_snapshots.Base.{
  ℕ, Bool, true, false, not, ◌&&◌, ◌||◌, ◌==◌, ltb, List, [], ◌∷◌, ◌++◌, Option, none, some,
  if◌then◌else◌, length, Failure, sentinel, ledger_conflict, errorf, wrapf, Result, ok, err, M,
  pure, fail, lift, recover, with_context, ◌>>=◌, ◌>>◌,
}
use airgap_snapshots.Base.Integer.{ℤ, pos}
use airgap_snapshots.Base.Text.{Text, bytes, text_eq}
use airgap_snapshots.Base.Text.Trim.{trim}
use airgap_snapshots.Base.Text.FilePath.{slash}
use airgap_snapshots.Objstore.{ObjectInfo, Config, Reader, Store}
use airgap_snapshots.Objstore.Endpoint.{UrlParser, normalize_endpoint}
use airgap_snapshots.Objstore.Keys.{full_key, rel_key}

-- `minio.Options`: `none` of `tls` is the default transport, the flag in it `InsecureSkipVerify`.
pub record Options : Type 0 where
  pub access_key_id : Text
  pub secret_access_key : Text
  pub session_token : Text
  pub secure : Bool
  pub region : Text
  pub path_style : Bool
  pub tls : Option (Bool × Option Text)

-- `minio.PutObjectOptions`
pub record PutOptions : Type 0 where
  pub content_type : Text
  pub match_etag : Option Text
  pub match_etag_except : Option Text

-- `minio.ErrorResponse`
pub record ErrorResponse : Type 0 where
  pub code : Text
  pub status_code : ℕ

-- What the channel of `ListObjects` carries.
pub data Listed : Type 0 where
  listed_object : ObjectInfo → Listed
  listed_error : Failure → Listed

pub record S3Object (W : Type 0) : Type 0 where
  pub stat : M W ObjectInfo
  pub read : Reader W

-- A client of a bucket.
pub record Bucket (W : Type 0) : Type 0 where
  pub list_objects : Text → W → List Listed × W
  pub get_object : Text → M W (S3Object W)
  pub put_object : Text → Reader W → ℤ → PutOptions → M W ObjectInfo
  pub stat_object : Text → M W ObjectInfo

-- The functions of minio-go and crypto/x509 that make a client.
pub record MinioLibrary (W : Type 0) : Type 0 where
  pub default_transport : Result (Unit {0})
  pub has_certificates : Text → Bool
  pub connect : Text → Options → Text → Result (Bucket W)
  pub error_response : Failure → ErrorResponse

-- `strings.Trim(etag, "\"")`
unfoldable pub unquote : Text → Text
unfolding trim
unquote etag = trim etag b'"'

unfoldable pub tls_options : Bool → Config → Text → Result (Option (Bool × Option Text))
tls_options has_roots cfg [] = ok (some (cfg.insecure_tls, none))
tls_options has_roots cfg (c ∷ bundle) =
    if has_roots
    then ok (some (cfg.insecure_tls, some (c ∷ bundle)))
    else err (errorf "objstore: CABundle contained no valid certificates" [])

-- The conditional part of the upload options of `PutLedger`.
unfoldable pub ledger_options : Text → PutOptions
unfolding text_eq
ledger_options etag =
    if text_eq etag []
    then record {
      content_type = bytes "application/json";
      match_etag = none;
      match_etag_except = some (bytes "*");
    }
    else record {
      content_type = bytes "application/json";
      match_etag = some etag;
      match_etag_except = none;
    }

module _ {W : Type 0} (minio : MinioLibrary W) where
  -- `isNotFound`
  unfoldable pub is_not_found : Failure → Bool
  unfolding text_eq
  is_not_found e =
      let r = minio.error_response e in
      text_eq r.code (bytes "NoSuchKey")
      || text_eq r.code (bytes "NoSuchBucket")
      || r.status_code == 404

  -- `isPreconditionFailed`
  unfoldable pub is_precondition_failed : Failure → Bool
  unfolding text_eq
  is_precondition_failed e =
      let r = minio.error_response e in
      text_eq r.code (bytes "PreconditionFailed") || r.status_code == 412

  module _ (bucket : Bucket W) (prefix : Text) where
    unfoldable pub add_listed : ObjectInfo → Result (List ObjectInfo) → Result (List ObjectInfo)
    unfolding rel_key unquote
    add_listed o (err e) = err e
    add_listed o (ok out) =
        ok (record o { key = rel_key prefix o.key; etag = unquote o.etag } ∷ out)

    -- The loop of `List` over the channel.
    unfoldable pub collect_listed : Text → List Listed → Result (List ObjectInfo)
    unfolding add_listed
    collect_listed list_prefix [] = ok []
    collect_listed list_prefix (listed_error e ∷ events) =
        err (wrapf "objstore: list %q: %w" (list_prefix ∷ []) e)
    collect_listed list_prefix (listed_object o ∷ events) =
        add_listed o (collect_listed list_prefix events)

    -- `List`
    unfoldable pub list_keys : Text → M W (List ObjectInfo)
    unfolding full_key collect_listed
    list_keys under w =
        let list_prefix = full_key prefix under in
        let (events, w') = bucket.list_objects list_prefix w in
        (collect_listed list_prefix events, w')

    -- `Open`
    unfoldable pub open_object : Text → M W (Reader W)
    unfolding full_key
    open_object key =
        with_context (wrapf "objstore: open %q: %w" (key ∷ []))
          (bucket.get_object (full_key prefix key) >>= λ obj. pure obj.read)

    -- `Put`
    unfoldable pub put : Text → Reader W → ℤ → Text → M W (Unit {0})
    unfolding full_key
    put key reader size content_type =
        with_context (wrapf "objstore: put %q: %w" (key ∷ [])) (
          bucket.put_object (full_key prefix key) reader size
            (record { content_type = content_type; match_etag = none; match_etag_except = none }))
        >>= λ _. pure tt

    -- `Stat`
    unfoldable pub stat : Text → M W (Option ObjectInfo)
    unfolding full_key is_not_found unquote
    stat key =
        recover
          (λ e.
            if is_not_found e then pure none else fail (wrapf "objstore: stat %q: %w" (key ∷ []) e))
          (bucket.stat_object (full_key prefix key))
          λ st. pure (some (record st { key = key; etag = unquote st.etag }))

    -- `GetLedger`: the key is the bucket's own.
    unfoldable pub get_ledger : Text → M W (Text × Text)
    unfolding is_not_found unquote
    get_ledger key =
        with_context (wrapf "objstore: get ledger %q: %w" (key ∷ [])) (bucket.get_object key)
        >>= λ obj.
            recover
              (λ e.
                if is_not_found e
                then pure ([], [])
                else fail (wrapf "objstore: stat ledger %q: %w" (key ∷ []) e))
              obj.stat
              λ st.
                with_context (wrapf "objstore: read ledger %q: %w" (key ∷ [])) obj.read >>= λ body.
                pure (body, unquote st.etag)

    -- `PutLedger`
    unfoldable pub put_ledger : Text → Text → Text → M W Text
    unfolding ledger_options is_precondition_failed unquote
    put_ledger key body etag =
        recover
          (λ e.
            if is_precondition_failed e
            then fail (sentinel ledger_conflict)
            else fail (wrapf "objstore: put ledger %q: %w" (key ∷ []) e))
          (bucket.put_object key (pure body) (pos (length body)) (ledger_options etag))
          λ info. pure (unquote info.etag)

    -- The methods of `minioStore`.
    abbrev pub minio_store : Store W
    minio_store = record {
      list = list_keys;
      open_object = open_object;
      put = put;
      stat = stat;
      get_ledger = get_ledger;
      put_ledger = put_ledger;
    }
