-- ===== src/Controller/Replication/Reconcile.antt =====
-- src/internal/controller/backupreplication_controller.go: `Reconcile`, and `replicate` up to the
-- bundles.
use airgap_snapshots.Base.{
  Bool, true, false, List, [], ◌∷◌, Option, none, some, if◌then◌else◌, length, M, pure, fail, lift,
  recover, map_m, ◌>>=◌,
}
use airgap_snapshots.Base.Integer.{to_uint64, to_int64}
use airgap_snapshots.Base.Text.{Text}
use airgap_snapshots.Api.Meta.{Time, ReconcileResult, literal, formatted, rendered}
use airgap_snapshots.Api.Policy.{ReplicationPolicy}
use airgap_snapshots.Api.Replication.{ReplicationPhase, BackupReplication}
use airgap_snapshots.Batching.{pack}
use airgap_snapshots.Manifest.{Manifest, Json}
use airgap_snapshots.Objstore.{Config, Store}
use airgap_snapshots.Staging.{Stager, Disk, stage_object}
use airgap_snapshots.Controller.{Cluster, Services, read_clock, requeue}
use airgap_snapshots.Controller.Report.{set_phase, set_ready, update_and, degrade, transient_err}
use airgap_snapshots.Controller.Resolve.{resolve_store}
use airgap_snapshots.Controller.Ledger.{Ledger, enumerate_delta}
use airgap_snapshots.Controller.Replication.{total_size, is_terminal, transmit}

module _ {W : Type 0} (cluster : Cluster W) (services : Services W) (sha256 : Text → Text)
    (disk : Disk W) (manifest_json : Json Manifest) (ledger_json : Json Ledger) where
  -- `replicate`, from the staging of the keys
  unfoldable pub ship :
      Store W → Config → List Text → ReplicationPolicy → BackupReplication → M W ReconcileResult
  unfolding stage_object total_size pack to_uint64 to_int64 set_phase transmit transient_err
  ship store cfg keys policy br =
      let stager : Stager = record {
        root_name = policy.spec.peat.outbox_root;
        root_path = policy.spec.peat.outbox_path;
      } in
      recover (transient_err cluster br "StageFailed")
        (map_m (stage_object sha256 disk stager store) keys)
        λ specs.
          let total = total_size 0 specs in
          let batches =
            pack specs policy.spec.bundle_file_limit (to_uint64 policy.spec.bundle_byte_limit) in
          let counted : BackupReplication = record br {
            status = record br.status {
              object_count = to_int64 (length specs);
              total_bytes = to_int64 total;
            };
          } in
          cluster.update_replication (set_phase ReplicationPhase.transmitting counted)
          >>= transmit cluster services sha256 disk manifest_json ledger_json store cfg keys total
              policy batches

  -- `replicate`, on the keys of the delta
  unfoldable pub replicate_keys :
      Store W → Config → ReplicationPolicy → BackupReplication → List Text → M W ReconcileResult
  unfolding ship set_ready set_phase update_and
  replicate_keys store cfg policy br [] =
      update_and cluster (record { requeue_after = none })
        (set_ready cluster false "NothingToReplicate"
          (literal "no replicable objects found for backup (snapshot-only?)")
          (set_phase ReplicationPhase.skipped br))
  replicate_keys store cfg policy br (k ∷ keys) = ship store cfg (k ∷ keys) policy br

  -- `replicate`, on the object as it enters the phase Staging
  unfoldable pub replicate_staging : ReplicationPolicy → BackupReplication → M W ReconcileResult
  unfolding resolve_store enumerate_delta replicate_keys degrade transient_err
  replicate_staging policy br =
      recover (λ e. degrade cluster br "ResolveStoreFailed" (rendered e))
        (resolve_store cluster br policy)
        λ cfg.
          recover (λ e. degrade cluster br "StoreInitFailed" (rendered e))
            (lift (services.new_store cfg))
            λ store.
              recover (transient_err cluster br "EnumerateFailed")
                (enumerate_delta ledger_json store br.spec.storage_location br.spec.backup_name)
                λ keys. replicate_keys store cfg policy br keys

  -- `if br.Status.StartedAt == nil { … }`
  unfoldable pub start : BackupReplication → M W BackupReplication
  start br = elim br.status.started_at [
    | some time ↦ pure br
    | none ↦ read_clock cluster >>= λ time.
        pure (record br { status = record br.status { started_at = some time } })
  ]

  -- `replicate`
  unfoldable pub replicate : BackupReplication → ReplicationPolicy → M W ReconcileResult
  unfolding start set_phase replicate_staging
  replicate br policy =
      start br >>= λ br'. replicate_staging policy (set_phase ReplicationPhase.staging br')

  -- `Reconcile`, on a replication that is neither deleted nor terminal
  unfoldable pub advance : BackupReplication → M W ReconcileResult
  unfolding degrade replicate
  advance br =
      recover
        (λ e.
          if cluster.is_not_found e
          then degrade cluster br "PolicyNotFound"
              (formatted "ReplicationPolicy %q not found" (br.spec.policy_name ∷ []))
          else fail e)
        (cluster.get_policy br.spec.policy_name)
        λ policy. if policy.spec.paused then pure requeue else replicate br policy

  abbrev pub is_deleted : Option Time → Bool
  is_deleted none = false
  is_deleted (some time) = true

  -- `Reconcile`
  unfoldable pub reconcile : Text → Text → M W ReconcileResult
  unfolding advance
  reconcile namespace name =
      recover
        (λ e. if cluster.is_not_found e then pure (record { requeue_after = none }) else fail e)
        (cluster.get_replication namespace name)
        λ br.
          if is_deleted br.metadata.deletion_timestamp
          then pure (record { requeue_after = none })
          else if is_terminal br.status.phase
          then pure (record { requeue_after = none })
          else advance br
