-- ===== src/Objstore.antt =====
-- src/internal/objstore/objstore.go: the interface `Store` through which the controllers read a backup
-- storage location and keep the replication ledger, over an unknown world.
pub mod Keys
pub mod Endpoint
pub mod Credentials
pub mod Minio
use airgap_snapshots.Base.{ℕ, Bool, false, List, [], Option, M}
use airgap_snapshots.Base.Integer.{ℤ}
use airgap_snapshots.Base.Text.{Text}

pub record ObjectInfo : Type 0 where
  pub key : Text
  pub size : ℤ
  pub etag : Text
  pub last_modified : ℕ

pub record Config : Type 0 where
  pub endpoint : Text
  pub region : Text
  pub bucket : Text
  pub prefix : Text
  pub force_path_style : Bool
  pub access_key_id : Text
  pub secret_access_key : Text
  pub session_token : Text
  pub ca_bundle : Text
  pub insecure_tls : Bool

abbrev pub empty_config : Config
empty_config = record {
  endpoint = [];
  region = [];
  bucket = [];
  prefix = [];
  force_path_style = false;
  access_key_id = [];
  secret_access_key = [];
  session_token = [];
  ca_bundle = [];
  insecure_tls = false;
}

-- An `io.Reader`: the action that reads it to its end.
abbrev pub Reader : Type 0 → Type 0
Reader W = M W Text

-- `none` of `stat` is `ok == false`; `get_ledger` gives the body and the etag.
pub record Store (W : Type 0) : Type 0 where
  pub list : Text → M W (List ObjectInfo)
  pub open_object : Text → M W (Reader W)
  pub put : Text → Reader W → ℤ → Text → M W (Unit {0})
  pub stat : Text → M W (Option ObjectInfo)
  pub get_ledger : Text → M W (Text × Text)
  pub put_ledger : Text → Text → Text → M W Text
