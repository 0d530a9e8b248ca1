-- ===== src/Controller/Replication/Reconciled.antt =====
-- src/internal/controller/backupreplication_controller.go: `Reconcile` as a whole, on every path.
use airgap_snapshots.Base.{
  ◌≡◌, Bool, true, false, Option, none, some, if◌then◌else◌, Result, ok, M, pure,
}
use airgap_snapshots.Base.Text.{Text}
use airgap_snapshots.Api.Meta.{ReconcileResult, Time}
use airgap_snapshots.Api.Policy.{ReplicationPolicy}
use airgap_snapshots.Api.Replication.{BackupReplication}
use airgap_snapshots.Manifest.{Manifest, Json}
use airgap_snapshots.Staging.{Disk}
use airgap_snapshots.Controller.{Cluster, Services, requeue}
use airgap_snapshots.Controller.Ledger.{Ledger}
use airgap_snapshots.Controller.Replication.{is_terminal}
use airgap_snapshots.Controller.Replication.Ends.{Ends}
use airgap_snapshots.Controller.Replication.Reconcile.{replicate, advance, is_deleted}
use airgap_snapshots.Controller.Replication.Pass.{AnswersAsGiven}

module _ {W : Type 0} (cluster : Cluster W) where
  -- What `Reconcile` does on the object `br` in the world `w`.
  pub data Reconciled (br : BackupReplication) (w : W) (r : Result ReconcileResult × W)
      : Type 0 where
    deleted :
        (time : Time)
        → br.metadata.deletion_timestamp ≡ some time
        → r ≡ (ok (record { requeue_after = none }), w)
        → Reconciled br w r
    terminal :
        is_terminal br.status.phase ≡ true
        → r ≡ (ok (record { requeue_after = none }), w)
        → Reconciled br w r
    held :
        (policy : ReplicationPolicy)
        → (cluster.get_policy br.spec.policy_name w).0 ≡ ok policy
        → policy.spec.paused ≡ true
        → r ≡ (ok requeue, (cluster.get_policy br.spec.policy_name w).1)
        → Reconciled br w r
    advanced :
        br.metadata.deletion_timestamp ≡ none
        → is_terminal br.status.phase ≡ false
        → Ends cluster br r
        → Reconciled br w r

module _ {W : Type 0} (cluster : Cluster W) (services : Services W) (sha256 : Text → Text)
    (disk : Disk W) (manifest_json : Json Manifest) (ledger_json : Json Ledger)
    (given : AnswersAsGiven cluster) where
  module _ (br : BackupReplication) (live : br.metadata.deletion_timestamp ≡ none)
      (going : is_terminal br.status.phase ≡ false) where
    abbrev after_policy : W → W
    after_policy w = (cluster.get_policy br.spec.policy_name w).1

    on_policy : ReplicationPolicy → Bool → M W ReconcileResult
    on_policy policy paused =
        if paused
        then pure requeue
        else replicate cluster services sha256 disk manifest_json ledger_json br policy

  on_object : BackupReplication → Option Time → Bool → M W ReconcileResult
  on_object br timestamp ended =
      if is_deleted cluster services sha256 disk manifest_json ledger_json timestamp
      then pure (record { requeue_after = none })
      else if ended
      then pure (record { requeue_after = none })
      else advance cluster services sha256 disk manifest_json ledger_json br
