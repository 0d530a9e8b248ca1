-- ===== src/Api/Policy.antt =====
-- src/api/v1alpha1/replicationpolicy_types.go
use airgap_snapshots.Base.{ℕ, Bool, List, Option}
use airgap_snapshots.Base.Integer.{ℤ}
use airgap_snapshots.Base.Text.{Text}
use airgap_snapshots.Api.Meta.{ObjectMeta, Condition, LabelSelector}

pub record SecretKeyRef : Type 0 where
  pub name : Text
  pub key : Text
  pub namespace : Text

pub record TargetSpec : Type 0 where
  pub endpoint_id : Text
  pub node_id : Text
  pub addresses : List Text
  pub relay_url : Text

pub record PeatSpec : Type 0 where
  pub address : Text
  pub outbox_root : Text
  pub outbox_path : Text

pub record ObjectStoreSpec : Type 0 where
  pub endpoint : Text
  pub region : Text
  pub ca_bundle_secret_ref : Option SecretKeyRef
  pub insecure_skip_tls_verify : Bool
  pub credentials_secret_ref : Option SecretKeyRef

pub record ReplicationPolicySpec : Type 0 where
  pub paused : Bool
  pub backup_storage_locations : List Text
  pub backup_storage_location_selector : Option LabelSelector
  pub backup_selector : Option LabelSelector
  pub target : TargetSpec
  pub priority : Text
  pub bundle_byte_limit : ℤ
  pub bundle_file_limit : ℤ
  pub max_concurrent_bundles : ℤ
  pub stale_after : Option ℕ
  pub peat : PeatSpec
  pub object_store : ObjectStoreSpec

pub record ReplicationPolicyStatus : Type 0 where
  pub conditions : List Condition
  pub backups_replicated : ℤ
  pub bytes_replicated : ℤ
  pub observed_generation : ℤ

pub record ReplicationPolicy : Type 0 where
  pub metadata : ObjectMeta
  pub spec : ReplicationPolicySpec
  pub status : ReplicationPolicyStatus
