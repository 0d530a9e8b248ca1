-- ===== src/Tests/Import.antt =====
-- The import controller on the world of the importer's tests, and a poll of the bridge.
use airgap_snapshots.Base.{◌≡◌, refl, [], none, some, Result, ok}
use airgap_snapshots.Base.Integer.{int_eq}
use airgap_snapshots.Base.Text.FilePath.{join_path}
use airgap_snapshots.Base.Text.{bytes}
use airgap_snapshots.Base.Text.Encode.{hex}
use airgap_snapshots.Api.Import.{BackupImport, new_status}
use airgap_snapshots.Api.Meta.{ReconcileResult}
use airgap_snapshots.Manifest.{Manifest, Json}
use airgap_snapshots.Peat.{Client}
use airgap_snapshots.Objstore.{empty_config}
use airgap_snapshots.Controller.{Cluster, Services, requeue}
use airgap_snapshots.Controller.Import.{ImportOptions, reconcile_import}
use airgap_snapshots.Controller.Import.Reconciled.{Reconciled, reconcile_import-Reconciled}
use airgap_snapshots.Tests.Cluster.{unused, empty_cluster, meta}
use airgap_snapshots.Tests.Importer.{root, manifest, landed_world, partial_world}
use airgap_snapshots.Tests.World.{World, inbox, store}

abbrev pub options : ImportOptions
options = record {
  peat_address = [];
  inbox_root = root;
  manifest_collection = [];
  namespace = [];
  poll_interval = 30;
  dest_store = empty_config;
  source_endpoint_id = bytes "source";
  source_addresses = [];
  source_relay_url = [];
}

abbrev services : Services World
services = record { new_store = λ cfg. ok store; new_peat = λ address. unused }

abbrev pub backup_import : BackupImport
backup_import = record {
  metadata = meta (bytes "default-b");
  spec = record {
    backup_name = bytes "b";
    storage_location = bytes "default";
    manifest_doc_id = bytes "default/b";
  };
  status = new_status;
}

-- A sidecar to which the manifest has come, and a decoder that reads it.
abbrev synced : Client World
synced = record {
  node_status = unused;
  ensure_peer = λ id addresses relay. unused;
  send_attachments = λ name files scope p. unused;
  get_distribution = λ id. unused;
  wait_bundle = λ name. unused;
  put_document = λ collection id body. unused;
  get_document = λ collection id w. (ok (some (bytes "manifest")), w);
  list_documents = λ collection. unused;
}

abbrev synced_services : Services World
synced_services = record { new_store = λ cfg. ok store; new_peat = λ address w. (ok synced, w) }

abbrev pub decoder : Json Manifest
decoder = record { encode = λ m. ok []; decode = λ text. ok manifest }

abbrev one_import : Cluster World
one_import = record (empty_cluster World) { get_import = λ ns name w. (ok backup_import, w) }

abbrev run : World → Result ReconcileResult × World
run = reconcile_import one_import synced_services hex inbox decoder options [] []

-- The run goes through the whole chain. It ends for good when the files have landed.
run_landed : (run landed_world).0 ≡ ok (record { requeue_after = none })
unfolding reconcile_import int_eq join_path hex
run_landed = refl

run_partial : (run partial_world).0 ≡ ok requeue
unfolding reconcile_import int_eq join_path
run_partial = refl

reconcile_import-Reconciled_example :
    Reconciled one_import backup_import landed_world (run landed_world)
reconcile_import-Reconciled_example =
    reconcile_import-Reconciled one_import synced_services hex inbox decoder options [] []
      backup_import landed_world landed_world refl
