-- ===== src/Controller/Report.antt =====
-- src/internal/controller/backupreplication_controller.go: how a pass records its outcome in the status
-- of a BackupReplication.
use Prim.Native.String.{String}
use airgap_snapshots.Base.{Bool, false, Failure, M, pure, ◌>>=◌}
use airgap_snapshots.Base.Integer.{pos, add_int32}
use airgap_snapshots.Api.Meta.{Message, rendered, ReconcileResult}
use airgap_snapshots.Api.Replication.{ReplicationPhase, BackupReplication}
use airgap_snapshots.Controller.{Cluster, requeue}

-- `setPhase`
unfoldable pub set_phase : ReplicationPhase → BackupReplication → BackupReplication
set_phase p br = record br {
  status = record br.status { phase = p; observed_generation = br.metadata.generation };
}

module _ {W : Type 0} (cluster : Cluster W) where
  -- `apimeta.SetStatusCondition` of the condition Ready
  unfoldable pub set_ready : Bool → String → Message → BackupReplication → BackupReplication
  set_ready status reason message br = record br {
    status = record br.status {
      conditions =
          cluster.set_condition
            (record {
              kind = "Ready";
              status = status;
              reason = reason;
              message = message;
              observed_generation = br.metadata.generation;
            })
            br.status.conditions;
    };
  }

  -- `return ctrl.Result{…}, r.Status().Update(ctx, br)`
  unfoldable pub update_and : ReconcileResult → BackupReplication → M W ReconcileResult
  update_and result br = cluster.update_replication br >>= λ _. pure result

  -- `degrade`
  unfoldable pub degrade : BackupReplication → String → Message → M W ReconcileResult
  unfolding set_ready update_and
  degrade br reason message = update_and requeue (
      set_ready false reason message
        (record br { status = record br.status { last_error = message } }))

  -- `transientErr`
  unfoldable pub transient_err : BackupReplication → String → Failure → M W ReconcileResult
  unfolding set_ready update_and add_int32
  transient_err br reason cause = update_and requeue (
      set_ready false reason (rendered cause) (record br {
        status = record br.status {
          last_error = rendered cause;
          retry_count = add_int32 br.status.retry_count (pos 1);
        };
      }))
