-- ===== src/Api/Velero.antt =====
-- src/api/velero/v1/types.go: the subset of Velero's objects that the program reads.
use airgap_snapshots.Base.{Bool, List, Option}
use airgap_snapshots.Base.Dict.{Dict}
use airgap_snapshots.Base.Text.{Text}
use airgap_snapshots.Api.Meta.{ObjectMeta, Time}

-- `unset` is the empty string of a backup that Velero has not looked at.
pub data BackupPhase : Type 0 where
  unset new in_progress finalizing completed partially_failed : BackupPhase
  failed failed_validation deleting : BackupPhase

pub record BackupSpec : Type 0 where
  pub storage_location : Text
  pub included_namespaces : List Text
  pub default_volumes_to_fs_backup : Option Bool
  pub snapshot_volumes : Option Bool

pub record BackupStatus : Type 0 where
  pub phase : BackupPhase
  pub start_timestamp : Option Time
  pub completion_timestamp : Option Time
  pub expiration : Option Time

pub record Backup : Type 0 where
  pub metadata : ObjectMeta
  pub spec : BackupSpec
  pub status : BackupStatus

pub record ObjectStorageLocation : Type 0 where
  pub bucket : Text
  pub prefix : Text
  pub ca_cert : Text

-- A `corev1.SecretKeySelector`
pub record SecretKeySelector : Type 0 where
  pub name : Text
  pub key : Text

-- `none` of `settings` is a nil `Config`.
pub record BackupStorageLocationSpec : Type 0 where
  pub provider : Text
  pub object_storage : Option ObjectStorageLocation
  pub settings : Option (Dict Text)
  pub credential : Option SecretKeySelector
  pub is_default : Bool

pub record BackupStorageLocationStatus : Type 0 where
  pub phase : Text

pub record BackupStorageLocation : Type 0 where
  pub metadata : ObjectMeta
  pub spec : BackupStorageLocationSpec
  pub status : BackupStorageLocationStatus
