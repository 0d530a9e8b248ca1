-- ===== src/Api/Import.antt =====
-- src/api/v1alpha1/backupimport_types.go
use airgap_snapshots.Base.{Bool, false, List, [], Option, none}
use airgap_snapshots.Base.Integer.{ℤ, pos}
use airgap_snapshots.Base.Text.{Text}
use airgap_snapshots.Api.Meta.{ObjectMeta, Condition, Message, literal, Time}

-- The lifecycle phase; `unset` is the empty string of a new object.
pub data ImportPhase : Type 0 where
  unset pending importing imported failed : ImportPhase

pub record BackupImportSpec : Type 0 where
  pub backup_name : Text
  pub storage_location : Text
  pub manifest_doc_id : Text

pub record BackupImportStatus : Type 0 where
  pub phase : ImportPhase
  pub conditions : List Condition
  pub files_total : ℤ
  pub files_imported : ℤ
  pub bytes_imported : ℤ
  pub committed : Bool
  pub started_at : Option Time
  pub completed_at : Option Time
  pub retry_count : ℤ
  pub observed_generation : ℤ
  pub last_error : Message

pub record BackupImport : Type 0 where
  pub metadata : ObjectMeta
  pub spec : BackupImportSpec
  pub status : BackupImportStatus

abbrev pub new_status : BackupImportStatus
new_status = record {
  phase = ImportPhase.unset;
  conditions = [];
  files_total = pos 0;
  files_imported = pos 0;
  bytes_imported = pos 0;
  committed = false;
  started_at = none;
  completed_at = none;
  retry_count = pos 0;
  observed_generation = pos 0;
  last_error = literal "";
}
