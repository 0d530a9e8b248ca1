-- ===== src/Controller/Replication.antt =====
-- src/internal/controller/backupreplication_controller.go: the reconciler of a BackupReplication, which
-- stages the objects of a backup, sends them, and publishes the manifest.
pub mod Send
pub mod Publish
pub mod Ends
pub mod Reconcile
pub mod Pass
pub mod Reconciled
use airgap_snapshots.Base.{
  ℕ, zero, suc, ◌+◌, Bool, true, false, not, List, [], ◌∷◌, ◌++◌, Option, none, some, if◌then◌else◌,
  length, wrapf, M, pure, fail, lift, with_context, recover, finally, map_m, ◌>>=◌, ◌>>◌, ◌&&◌,
}
use airgap_snapshots.Base.Integer.{ℤ, pos, add_uint64, to_uint64, to_int64}
use airgap_snapshots.Base.Text.{Text}
use airgap_snapshots.Api.Meta.{Time, ReconcileResult, literal, formatted, rendered}
use airgap_snapshots.Api.Policy.{ReplicationPolicy}
use airgap_snapshots.Api.Replication.{ReplicationPhase, BundleStatus, BackupReplication}
use airgap_snapshots.Batching.{Batch, pack}
use airgap_snapshots.Manifest.{
  FileEntry, Manifest, Json, collection, schema_version, doc_id, marshal,
}
use airgap_snapshots.Objstore.{Config, Store}
use airgap_snapshots.Peat.{FileSpec, Scope, SendResult, Progress, Client}
use airgap_snapshots.Staging.{Stager, Disk, stage_object}
use airgap_snapshots.Controller.{Cluster, Services, read_clock, requeue}
use airgap_snapshots.Controller.Report.{set_phase, set_ready, update_and, degrade, transient_err}
use airgap_snapshots.Controller.Resolve.{resolve_store}
use airgap_snapshots.Controller.Ledger.{Ledger, enumerate_delta, commit_ledger}
use airgap_snapshots.Controller.Bundles.{map_priority, bundle_name, entries_of, status_of, is_done}

abbrev pub all_nodes : Scope
all_nodes = record { all_nodes = true; node_ids = [] }

-- The sum of the sizes of the staged files, an `uint64`.
unfoldable pub total_size : ℕ → List FileSpec → ℕ
unfolding add_uint64
total_size total [] = total
total_size total (f ∷ specs) = total_size (add_uint64 total f.size) specs

-- The variables of the loop over the bundles.
pub record Sent : Type 0 where
  pub statuses : List BundleStatus
  pub entries : List FileEntry
  pub all_done : Bool

abbrev pub nothing_sent : Sent
nothing_sent = record { statuses = []; entries = []; all_done = true }

-- What a round of the loop adds, after the answers of peat.
unfoldable pub add_bundle : Text → Batch → SendResult → List Progress → Sent → Sent
unfolding status_of entries_of is_done
add_bundle name b res progs sent =
    let bs = status_of name b progs in
    record {
      statuses = sent.statuses ++ bs ∷ [];
      entries = sent.entries ++ entries_of b.files res.handles;
      all_done = if not (is_done bs) then false else sent.all_done;
    }

-- The document that `emitManifest` publishes.
unfoldable pub manifest_of : BackupReplication → Text → List FileEntry → ℤ → Text → Manifest
manifest_of br bsl_prefix entries total completed_at = record {
  version = schema_version;
  backup_name = br.spec.backup_name;
  storage_location = br.spec.storage_location;
  bsl_prefix = bsl_prefix;
  object_count = length entries;
  total_bytes = total;
  completed_at = completed_at;
  complete = true;
  files = entries;
}

abbrev is_terminal : ReplicationPhase → Bool
is_terminal ReplicationPhase.unset = false
is_terminal ReplicationPhase.pending = false
is_terminal ReplicationPhase.staging = false
is_terminal ReplicationPhase.transmitting = false
is_terminal ReplicationPhase.replicated = true
is_terminal ReplicationPhase.failed = true
is_terminal ReplicationPhase.skipped = true

module _ {W : Type 0} (cluster : Cluster W) (services : Services W) (sha256 : Text → Text)
    (disk : Disk W) (manifest_json : Json Manifest) (ledger_json : Json Ledger) where
  -- `emitManifest`
  unfoldable pub emit_manifest :
      Client W → BackupReplication → Text → List FileEntry → ℤ → Time → M W (Unit {0})
  unfolding manifest_of marshal doc_id
  emit_manifest pc br bsl_prefix entries total completed_at = do
    let doc = doc_id br.spec.storage_location br.spec.backup_name
    text ← with_context (wrapf "marshal manifest: %w" []) (
        lift (
          marshal manifest_json
            (manifest_of br bsl_prefix entries total (cluster.format_time completed_at))))
    with_context (wrapf "put manifest %q: %w" (doc ∷ [])) (pc.put_document collection doc text)

  -- `replicate`, once the ledger is committed
  unfoldable pub mark_replicated : BackupReplication → M W ReconcileResult
  unfolding set_ready set_phase update_and
  mark_replicated br =
      update_and cluster (record { requeue_after = none })
        (set_ready cluster true "Replicated" (literal "all bundles transmitted to destination peer")
          (set_phase ReplicationPhase.replicated br))

  -- `replicate`, once all bundles are completed: first the manifest, then the ledger
  unfoldable pub publish :
      Store W
      → Client W
      → Config
      → List Text
      → ℕ
      → List FileEntry
      → BackupReplication
      → M W ReconcileResult
  unfolding emit_manifest commit_ledger mark_replicated transient_err
  publish store pc cfg keys total entries br = read_clock cluster >>= λ time.
      let done : BackupReplication = record br {
        status = record br.status { completed_at = some time };
      } in
      recover (transient_err cluster done "ManifestEmitFailed")
        (emit_manifest pc done cfg.prefix entries (to_int64 total) time)
        λ _.
          recover (transient_err cluster done "LedgerCommitFailed")
            (commit_ledger ledger_json store done.spec.storage_location keys)
            λ _. mark_replicated done

  -- `replicate`, behind the loop over the bundles
  unfoldable pub finish :
      Store W → Client W → Config → List Text → ℕ → BackupReplication → Sent → M W ReconcileResult
  unfolding publish update_and
  finish store pc cfg keys total br sent =
      let br' : BackupReplication = record br {
        status = record br.status { bundles = sent.statuses };
      } in
      if not sent.all_done
      then update_and cluster requeue br'
      else publish store pc cfg keys total sent.entries br'

  -- The loop over the bundles, from the one numbered `i`, and what is behind it.
  unfoldable pub send_loop :
      Store W
      → Client W
      → Config
      → List Text
      → ℕ
      → ReplicationPolicy
      → BackupReplication
      → ℕ
      → List Batch
      → Sent
      → M W ReconcileResult
  unfolding finish bundle_name map_priority add_bundle transient_err
  send_loop store pc cfg keys total policy br i [] sent = finish store pc cfg keys total br sent
  send_loop store pc cfg keys total policy br i (b ∷ batches) sent =
      let name = bundle_name br.metadata.name i in
      recover (transient_err cluster br "SendFailed")
        (pc.send_attachments name b.files all_nodes (map_priority policy.spec.priority))
        λ res. recover (transient_err cluster br "WaitFailed") (pc.wait_bundle name) λ progs.
          send_loop store pc cfg keys total policy br (suc i) batches
            (add_bundle name b res progs sent)

  -- `replicate`, from the connection to peat
  unfoldable pub transmit :
      Store W
      → Config
      → List Text
      → ℕ
      → ReplicationPolicy
      → List Batch
      → BackupReplication
      → M W ReconcileResult
  unfolding send_loop transient_err
  transmit store cfg keys total policy batches br =
      recover (transient_err cluster br "PeatDialFailed")
        (services.new_peat policy.spec.peat.address)
        λ pc.
          recover (transient_err cluster br "PeerConnectFailed")
            (pc.ensure_peer policy.spec.target.endpoint_id policy.spec.target.addresses
              policy.spec.target.relay_url)
            λ _. send_loop store pc cfg keys total policy br 0 batches nothing_sent
