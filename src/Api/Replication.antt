-- ===== src/Api/Replication.antt =====
-- src/api/v1alpha1/backupreplication_types.go
use airgap_snapshots.Base.{List, [], Option, none}
use airgap_snapshots.Base.Integer.{ℤ, pos}
use airgap_snapshots.Base.Text.{Text}
use airgap_snapshots.Api.Meta.{ObjectMeta, Condition, Message, literal, Time}

-- The lifecycle phase; `unset` is the empty string of a new object.
pub data ReplicationPhase : Type 0 where
  unset pending staging transmitting replicated failed skipped : ReplicationPhase

pub data BundlePhase : Type 0 where
  pending in_progress completed failed cancelled : BundlePhase

pub record BundleStatus : Type 0 where
  pub bundle_id : Text
  pub file_count : ℤ
  pub bytes : ℤ
  pub phase : BundlePhase
  pub distribution_ids : List Text
  pub bytes_transferred : ℤ

pub record BackupReplicationSpec : Type 0 where
  pub backup_name : Text
  pub policy_name : Text
  pub storage_location : Text

pub record BackupReplicationStatus : Type 0 where
  pub phase : ReplicationPhase
  pub conditions : List Condition
  pub object_count : ℤ
  pub total_bytes : ℤ
  pub bytes_transferred : ℤ
  pub bundles : List BundleStatus
  pub started_at : Option Time
  pub completed_at : Option Time
  pub retry_count : ℤ
  pub observed_generation : ℤ
  pub last_error : Message

pub record BackupReplication : Type 0 where
  pub metadata : ObjectMeta
  pub spec : BackupReplicationSpec
  pub status : BackupReplicationStatus

abbrev pub new_status : BackupReplicationStatus
new_status = record {
  phase = ReplicationPhase.unset;
  conditions = [];
  object_count = pos 0;
  total_bytes = pos 0;
  bytes_transferred = pos 0;
  bundles = [];
  started_at = none;
  completed_at = none;
  retry_count = pos 0;
  observed_generation = pos 0;
  last_error = literal "";
}
