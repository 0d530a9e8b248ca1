-- ===== src/Tests/Objstore.antt =====
-- src/internal/objstore/objstore_test.go
use airgap_snapshots.Base.{◌≡◌, refl, []}
use airgap_snapshots.Base.{ok, err, external, true, map, ◌∷◌}
use airgap_snapshots.Base.Integer.{pos}
use airgap_snapshots.Base.Text.{Text, bytes, text_eq}
use airgap_snapshots.Base.Text.Search.{trim_prefix}
use airgap_snapshots.Base.Text.Trim.{trim_left}
use airgap_snapshots.Base.Text.FilePath.{slash}
use airgap_snapshots.Objstore.{ObjectInfo}
use airgap_snapshots.Objstore.Credentials.{parse_aws_credentials}
use airgap_snapshots.Objstore.Keys.{full_key, rel_key, rel_key-full_key}
use airgap_snapshots.Objstore.Minio.{
  MinioLibrary, Bucket, Listed, listed_object, unquote, collect_listed,
}
use airgap_snapshots.Objstore.Minio.Listing.{under_prefix, bucket_keys, collect_listed-full_key}

default_profile :
    parse_aws_credentials
      (bytes "[default]\naws_access_key_id = AKIAEXAMPLE\naws_secret_access_key = secret123\n")
      []
    ≡ ok (record {
      access_key = bytes "AKIAEXAMPLE";
      secret_key = bytes "secret123";
      session_token = [];
    })
unfolding parse_aws_credentials
default_profile = refl

lone_section :
    parse_aws_credentials
      (bytes "# creds\n[only]\naws_access_key_id=ONLY\nAWS_Secret_access_key=ONLYSK\n;x")
      []
    ≡ ok (record { access_key = bytes "ONLY"; secret_key = bytes "ONLYSK"; session_token = [] })
unfolding parse_aws_credentials
lone_section = refl

slashed_key : full_key (bytes "backups") (bytes "/leading/slash") ≡ bytes "backups/leading/slash"
unfolding full_key text_eq
slashed_key = refl

rel_key-full_key_example :
    rel_key (bytes "velero") (full_key (bytes "velero") (bytes "kopia/p"))
    ≡ trim_left (bytes "kopia/p") slash
rel_key-full_key_example = rel_key-full_key (bytes "velero") (bytes "kopia/p")

abbrev listed : Text → Listed
listed k = listed_object (record { key = k; size = pos 1; etag = bytes "\"e\""; last_modified = 0 })

abbrev library : MinioLibrary (Unit {0})
library = record {
  default_transport = ok tt;
  has_certificates = λ pem. true;
  connect = λ host options name. err (external "unused");
  error_response = λ e. record { code = []; status_code = 0 };
}

abbrev no_info : ObjectInfo
no_info = record { key = []; size = pos 0; etag = []; last_modified = 0 }

abbrev bucket : Bucket (Unit {0})
bucket = record {
  list_objects = λ prefix w. (listed (bytes "velero/kopia/p") ∷ [], w);
  get_object = λ key w. (err (external "unused"), w);
  put_object = λ key reader size options w. (ok no_info, w);
  stat_object = λ key w. (ok no_info, w);
}

collect_listed-full_key_example :
    map
      (λ (x : ObjectInfo). full_key (bytes "velero") x.key)
      (record { key = bytes "kopia/p"; size = pos 1; etag = bytes "e"; last_modified = 0 } ∷ [])
    ≡ bucket_keys (listed (bytes "velero/kopia/p") ∷ [])
unfolding collect_listed text_eq trim_prefix unquote
collect_listed-full_key_example =
    collect_listed-full_key library bucket (bytes "velero") (bytes "velero/kopia/")
      (listed (bytes "velero/kopia/p") ∷ [])
      (record { key = bytes "kopia/p"; size = pos 1; etag = bytes "e"; last_modified = 0 } ∷ [])
      (under_prefix (bytes "kopia/p") refl refl refl, tt) refl
