-- ===== src/Controller/Import/Pass.antt =====
-- src/internal/controller/backupimport_controller.go: what `Reconcile` reports of a pass of the importer.
use airgap_snapshots.Base.{◌≡◌, Bool, false, All, length, Failure, Result, ok, err}
use airgap_snapshots.Base.Integer.{to_int64}
use airgap_snapshots.Base.Text.{Text}
use airgap_snapshots.Api.Meta.{ReconcileResult}
use airgap_snapshots.Api.Import.{BackupImport}
use airgap_snapshots.Importer.{Inbox, Summary}
use airgap_snapshots.Importer.Laws.{Observed, InboxLaws, StoreLaws}
use airgap_snapshots.Importer.Effect.{Present}
use airgap_snapshots.Manifest.{Manifest, Json}
use airgap_snapshots.Objstore.{Store}
use airgap_snapshots.Controller.{Cluster, Services}
use airgap_snapshots.Controller.Import.{ImportOptions, import_transient, await_bytes, mark_imported}

module _ {W : Type 0} (cluster : Cluster W) (services : Services W) (sha256_hex : Text → Text)
    (inbox : Inbox W) (manifest_json : Json Manifest) (opts : ImportOptions) where
  module _ (observe : W → Observed) (inbox_laws : InboxLaws observe inbox) (store : Store W)
      (store_laws : StoreLaws observe store) where
    abbrev counted : BackupImport → Summary → BackupImport
    counted bi res = record bi {
      status = record bi.status {
        files_imported = to_int64 res.files_imported;
        bytes_imported = res.bytes_imported;
      };
    }

    -- How `Reconcile` ends from the pass on: the error of the pass is reported, or it waits for
    -- bytes, or it marks the import as done when all objects of the manifest are in the destination.
    pub data PassEnds (m : Manifest) (bi : BackupImport) (r : Result ReconcileResult × W)
        : Type 0 where
      failed :
          (e : Failure) (w : W)
          → r ≡ import_transient cluster bi "ImportFailed" e w
          → PassEnds m bi r
      waiting :
          (res : Summary) (w : W)
          → res.committed ≡ false
          → r ≡ await_bytes cluster m res (counted bi res) w
          → PassEnds m bi r
      imported :
          (res : Summary) (w : W)
          → res.files_imported ≡ length m.files
          → All (λ e. Present sha256_hex e (observe w)) m.files
          → r ≡ mark_imported cluster (counted bi res) w
          → PassEnds m bi r

    abbrev committed_of : Result Summary → Bool
    committed_of (ok res) = res.committed
    committed_of (err e) = false
