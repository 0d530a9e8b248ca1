-- ===== src/Objstore/Minio/Open.antt =====
-- src/internal/objstore/minio.go: `New`.
use airgap_snapshots.Base.{
  Bool, ◌&&◌, ◌||◌, ltb, [], Option, none, if◌then◌else◌, length, errorf, wrapf, Result, ok, err,
}
use airgap_snapshots.Base.Text.{Text, text_eq}
use airgap_snapshots.Base.Text.Trim.{trim}
use airgap_snapshots.Base.Text.FilePath.{slash}
use airgap_snapshots.Objstore.{Config, Store}
use airgap_snapshots.Objstore.Endpoint.{UrlParser, normalize_endpoint}
use airgap_snapshots.Objstore.Minio.{Options, MinioLibrary, tls_options, minio_store}

module _ {W : Type 0} (minio : MinioLibrary W) where
  -- The transport of `New`.
  unfoldable pub choose_tls : Bool → Config → Result (Option (Bool × Option Text))
  unfolding tls_options
  choose_tls secure cfg =
      if secure && (cfg.insecure_tls || ltb 0 (length cfg.ca_bundle))
      then (elim minio.default_transport [
        | err e ↦ err (wrapf "objstore: build transport: %w" [] e)
        | ok _ ↦ tls_options (minio.has_certificates cfg.ca_bundle) cfg cfg.ca_bundle
      ])
      else ok none

  abbrev options_of : Config → Bool → Option (Bool × Option Text) → Options
  options_of cfg secure tls = record {
    access_key_id = cfg.access_key_id;
    secret_access_key = cfg.secret_access_key;
    session_token = cfg.session_token;
    secure = secure;
    region = cfg.region;
    path_style = cfg.force_path_style;
    tls = tls;
  }

  -- `New`, with the transport
  unfoldable pub connect_store :
      Config → Text → Bool → Result (Option (Bool × Option Text)) → Result (Store W)
  unfolding trim
  connect_store cfg endpoint secure (err e) = err e
  connect_store cfg endpoint secure (ok tls) =
      elim (minio.connect endpoint (options_of cfg secure tls) cfg.bucket) [
        | err e ↦ err (wrapf "objstore: init minio client: %w" [] e)
        | ok bucket ↦ ok (minio_store minio bucket (trim cfg.prefix slash))
      ]

  -- `New`
  unfoldable pub new_store : UrlParser → Config → Result (Store W)
  unfolding normalize_endpoint choose_tls connect_store text_eq
  new_store url_parse cfg =
      let (endpoint, secure) = normalize_endpoint url_parse cfg.endpoint in
      if text_eq endpoint []
      then err (errorf "objstore: empty endpoint (BSL config.s3Url is not set)" [])
      else if text_eq cfg.bucket []
      then err (errorf "objstore: empty bucket" [])
      else connect_store cfg endpoint secure (choose_tls secure cfg)
