-- ===== src/Controller.antt =====
-- src/internal/controller: what the reconcilers share. The Kubernetes client of controller-runtime, the
-- clock, and the constructors of the stores and of peat clients are arguments.
pub mod Ledger
pub mod Resolve
pub mod Report
pub mod Bundles
pub mod Replication
pub mod Matching
pub mod Handover
pub mod Import
pub mod Bridge
use Prim.Native.String.{String}
use airgap_snapshots.Base.{ℕ, Bool, List, Option, some, Failure, Result, ok, M}
use airgap_snapshots.Base.Dict.{Dict}
use airgap_snapshots.Base.Text.{Text}
use airgap_snapshots.Api.Meta.{Condition, LabelSelector, Time, ReconcileResult}
use airgap_snapshots.Api.Replication.{BackupReplication}
use airgap_snapshots.Api.Import.{BackupImport}
use airgap_snapshots.Api.Policy.{ReplicationPolicy}
use airgap_snapshots.Api.Velero.{Backup, BackupStorageLocation}
use airgap_snapshots.Objstore.{Config, Store}
use airgap_snapshots.Peat.{Client}

-- The Kubernetes API as the reconcilers call it. The first text of a key is the namespace. A status
-- update answers with the object that the server keeps; `ensure_…` is `CreateOrUpdate` with the
-- mutation of its caller.
pub record Cluster (W : Type 0) : Type 0 where
  pub is_not_found : Failure → Bool
  pub get_backup : Text → Text → M W Backup
  pub get_replication : Text → Text → M W BackupReplication
  pub get_import : Text → Text → M W BackupImport
  pub get_policy : Text → M W ReplicationPolicy
  pub list_policies : M W (List ReplicationPolicy)
  pub get_location : Text → Text → M W BackupStorageLocation
  pub get_secret : Text → Text → M W (Dict Text)
  pub update_replication : BackupReplication → M W BackupReplication
  pub update_import : BackupImport → M W BackupImport
  pub ensure_replication :
      Text → Text → (BackupReplication → Result BackupReplication) → M W (Unit {0})
  pub ensure_import : Text → Text → (BackupImport → Result BackupImport) → M W (Unit {0})
  pub set_owner : Backup → BackupReplication → Result BackupReplication
  pub selector_matches : LabelSelector → Dict Text → Result Bool
  pub set_condition : Condition → List Condition → List Condition
  pub now : W → Time × W
  pub format_time : Time → Text

-- `metav1.Now()`
abbrev pub read_clock : {W : Type 0} → Cluster W → M W Time
read_clock cluster w = let (time, w') = cluster.now w in (ok time, w')

-- `objstore.New` and `peat.New`
pub record Services (W : Type 0) : Type 0 where
  pub new_store : Config → Result (Store W)
  pub new_peat : Text → M W (Client W)

-- `requeueAfterTransient`, in seconds
abbrev pub requeue_after_transient : ℕ
requeue_after_transient = 30

abbrev pub requeue : ReconcileResult
requeue = record { requeue_after = some requeue_after_transient }
