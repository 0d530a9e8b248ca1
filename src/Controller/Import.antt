-- ===== src/Controller/Import.antt =====
-- src/internal/controller/backupimport_controller.go: the reconciler of a BackupImport, which rebuilds a
-- replicated backup in the destination store.
pub mod Pass
pub mod Ends
pub mod Reconciled
use Prim.Native.String.{String}
use airgap_snapshots.Base.{
  ℕ, Bool, true, false, not, List, [], ◌∷◌, Option, none, some, if◌then◌else◌, length, Failure,
  Result, ok, err, M, pure, fail, lift, recover, ◌>>=◌,
}
use airgap_snapshots.Base.Integer.{pos, to_int64, add_int32}
use airgap_snapshots.Base.Text.{Text}
use airgap_snapshots.Base.Text.Encode.{decimal}
use airgap_snapshots.Api.Meta.{Message, literal, formatted, rendered, Time, ReconcileResult}
use airgap_snapshots.Api.Import.{ImportPhase, BackupImport}
use airgap_snapshots.Importer.{Inbox, Summary}
use airgap_snapshots.Importer.Pass.{import_files}
use airgap_snapshots.Manifest.{Manifest, Json, parse}
use airgap_snapshots.Objstore.{Config, Store}
use airgap_snapshots.Controller.{Cluster, Services, read_clock, requeue}

-- `ImportOptions`; the poll interval is in seconds.
pub record ImportOptions : Type 0 where
  pub peat_address : Text
  pub inbox_root : Text
  pub manifest_collection : Text
  pub namespace : Text
  pub poll_interval : ℕ
  pub dest_store : Config
  pub source_endpoint_id : Text
  pub source_addresses : List Text
  pub source_relay_url : Text

-- `setImportPhase`
unfoldable pub set_import_phase : ImportPhase → BackupImport → BackupImport
set_import_phase p bi = record bi {
  status = record bi.status { phase = p; observed_generation = bi.metadata.generation };
}

abbrev pub is_terminal : ImportPhase → Bool
is_terminal ImportPhase.unset = false
is_terminal ImportPhase.pending = false
is_terminal ImportPhase.importing = false
is_terminal ImportPhase.imported = true
is_terminal ImportPhase.failed = true

module _ {W : Type 0} (cluster : Cluster W) where
  -- `apimeta.SetStatusCondition` of the condition Ready
  unfoldable pub set_import_ready : Bool → String → Message → BackupImport → BackupImport
  set_import_ready status reason message bi = record bi {
    status = record bi.status {
      conditions =
          cluster.set_condition
            (record {
              kind = "Ready";
              status = status;
              reason = reason;
              message = message;
              observed_generation = bi.metadata.generation;
            })
            bi.status.conditions;
    };
  }

  -- `return ctrl.Result{…}, r.Status().Update(ctx, &bi)`
  unfoldable pub update_import_and : ReconcileResult → BackupImport → M W ReconcileResult
  update_import_and result bi = cluster.update_import bi >>= λ _. pure result

  -- `importWait`
  unfoldable pub import_wait : BackupImport → String → Message → M W ReconcileResult
  unfolding set_import_ready update_import_and
  import_wait bi reason message =
      update_import_and requeue (set_import_ready false reason message bi)

  -- `importTransient`
  unfoldable pub import_transient : BackupImport → String → Failure → M W ReconcileResult
  unfolding set_import_ready update_import_and add_int32
  import_transient bi reason cause = update_import_and requeue (
      set_import_ready false reason (rendered cause) (record bi {
        status = record bi.status {
          last_error = rendered cause;
          retry_count = add_int32 bi.status.retry_count (pos 1);
        };
      }))

  -- `importFailed`
  unfoldable pub import_failed : BackupImport → String → Failure → M W ReconcileResult
  unfolding set_import_phase set_import_ready update_import_and
  import_failed bi reason cause =
      update_import_and (record { requeue_after = none })
        (set_import_ready false reason (rendered cause) (
          set_import_phase ImportPhase.failed
            (record bi { status = record bi.status { last_error = rendered cause } })))

  -- `Reconcile`, behind a pass that was not committed
  unfoldable pub await_bytes : Manifest → Summary → BackupImport → M W ReconcileResult
  unfolding set_import_ready update_import_and decimal
  await_bytes m res bi = update_import_and requeue (
      set_import_ready false "AwaitingBytes"
        (formatted "%d/%d files imported, %d pending"
          (decimal res.files_imported ∷ decimal (length m.files) ∷ decimal res.pending ∷ []))
        bi)

  -- `Reconcile`, behind a pass that was committed
  unfoldable pub mark_imported : BackupImport → M W ReconcileResult
  unfolding set_import_phase set_import_ready update_import_and
  mark_imported bi = read_clock cluster >>= λ time.
      update_import_and (record { requeue_after = none })
        (set_import_ready true "Imported"
          (literal "backup reconstructed into destination store and committed")
          (set_import_phase ImportPhase.imported (record bi {
            status = record bi.status { completed_at = some time; committed = true };
          })))

  -- `Reconcile`, behind a pass
  unfoldable pub conclude : Manifest → BackupImport → Summary → M W ReconcileResult
  unfolding await_bytes mark_imported to_int64
  conclude m bi res =
      let bi' : BackupImport = record bi {
        status = record bi.status {
          files_imported = to_int64 res.files_imported;
          bytes_imported = res.bytes_imported;
        };
      } in
      if not res.committed then await_bytes m res bi' else mark_imported bi'

module _ {W : Type 0} (cluster : Cluster W) (services : Services W) (sha256_hex : Text → Text)
    (inbox : Inbox W) (manifest_json : Json Manifest) (opts : ImportOptions) where
  unfoldable pub start_import : BackupImport → M W BackupImport
  start_import bi = elim bi.status.started_at [
    | some time ↦ pure bi
    | none ↦ read_clock cluster >>= λ time.
        pure (record bi { status = record bi.status { started_at = some time } })
  ]

  -- The pass of the importer and what is behind it.
  unfoldable pub run_pass : Store W → Manifest → BackupImport → M W ReconcileResult
  unfolding import_files conclude import_transient
  run_pass store m bi =
      recover (import_transient cluster bi "ImportFailed")
        (import_files sha256_hex inbox opts.inbox_root store m) (conclude cluster m bi)

  -- `Reconcile`, on a complete manifest and with the destination store
  unfoldable pub import_store : BackupImport → Manifest → Store W → M W ReconcileResult
  unfolding start_import set_import_phase run_pass to_int64
  import_store bi m store = start_import bi >>= λ started.
      let importing = set_import_phase ImportPhase.importing started in
      run_pass store m (record importing {
        status = record importing.status { files_total = to_int64 (length m.files) };
      })

  -- `Reconcile`, on a complete manifest
  unfoldable pub import_manifest : BackupImport → Manifest → M W ReconcileResult
  unfolding import_transient import_store
  import_manifest bi m =
      recover (import_transient cluster bi "DestStoreInitFailed")
        (lift (services.new_store opts.dest_store)) (import_store bi m)

  -- `Reconcile`, on the parsed document
  unfoldable pub import_parsed : BackupImport → Result Manifest → M W ReconcileResult
  unfolding import_failed import_wait set_import_phase import_manifest
  import_parsed bi (err e) = import_failed cluster bi "ManifestParseFailed" e
  import_parsed bi (ok m) =
      if not m.complete
      then import_wait cluster (set_import_phase ImportPhase.pending bi) "ManifestIncomplete"
          (literal "source has not committed the manifest yet")
      else import_manifest bi m

  -- `Reconcile`, on the document
  unfoldable pub import_document : BackupImport → Option Text → M W ReconcileResult
  unfolding import_wait set_import_phase import_parsed parse
  import_document bi none =
      import_wait cluster (set_import_phase ImportPhase.pending bi) "ManifestNotSynced"
        (literal "manifest document not yet synced from source")
  import_document bi (some text) = import_parsed bi (parse manifest_json text)

  -- `Reconcile`, on an import that is neither deleted nor terminal
  unfoldable pub advance_import : BackupImport → M W ReconcileResult
  unfolding import_transient import_document
  advance_import bi =
      recover (import_transient cluster bi "PeatDialFailed") (services.new_peat opts.peat_address)
        λ pc.
          recover (import_transient cluster bi "ManifestFetchFailed")
            (pc.get_document opts.manifest_collection bi.spec.manifest_doc_id) (import_document bi)

  abbrev pub is_deleted : Option Time → Bool
  is_deleted none = false
  is_deleted (some time) = true

  -- `Reconcile`
  unfoldable pub reconcile_import : Text → Text → M W ReconcileResult
  unfolding advance_import
  reconcile_import namespace name =
      recover
        (λ e. if cluster.is_not_found e then pure (record { requeue_after = none }) else fail e)
        (cluster.get_import namespace name)
        λ bi.
          if is_deleted bi.metadata.deletion_timestamp
          then pure (record { requeue_after = none })
          else if is_terminal bi.status.phase
          then pure (record { requeue_after = none })
          else advance_import bi
