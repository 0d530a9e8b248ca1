-- ===== src/Tests/Replication.antt =====
-- The replication controller on a backup of one object.
use airgap_snapshots.Base.{◌≡◌, refl, false, [], ◌∷◌, none, some, Result, ok, pure, if◌then◌else◌}
use airgap_snapshots.Base.Integer.{pos}
use airgap_snapshots.Base.Text.{bytes, text_eq}
use airgap_snapshots.Base.Text.FilePath.{clean}
use airgap_snapshots.Api.Meta.{ReconcileResult}
use airgap_snapshots.Api.Velero.{BackupStorageLocation}
use airgap_snapshots.Objstore.{Store, ObjectInfo}
use airgap_snapshots.Controller.{Cluster, Services}
use airgap_snapshots.Controller.Replication.Reconcile.{reconcile}
use airgap_snapshots.Controller.Replication.Reconciled.{Reconciled}
use airgap_snapshots.Tests.Cluster.{
  Nothing, empty_cluster, meta, policy, sidecar, disk, manifest_json, ledger_json, replication,
}

abbrev location : BackupStorageLocation
location = record {
  metadata = meta (bytes "default");
  spec = record {
    provider = bytes "aws";
    object_storage = some (record { bucket = bytes "b"; prefix = []; ca_cert = [] });
    settings = none;
    credential = none;
    is_default = false;
  };
  status = record { phase = bytes "Available" };
}

abbrev metadata_object : ObjectInfo
metadata_object = record {
  key = bytes "backups/nightly/log.gz";
  etag = bytes "e";
  size = pos 3;
  last_modified = 0;
}

abbrev store : Store Nothing
store = record {
  list = λ prefix w.
      (ok (if text_eq prefix (bytes "backups/nightly/") then metadata_object ∷ [] else []), w);
  open_object = λ k w. (ok (pure (1 ∷ 2 ∷ 3 ∷ [])), w);
  put = λ k r n t w. (ok tt, w);
  stat = λ k w. (ok none, w);
  get_ledger = λ k w. (ok ([], []), w);
  put_ledger = λ k body etag w. (ok [], w);
}

abbrev services : Services Nothing
services = record { new_store = λ cfg. ok store; new_peat = λ address w. (ok sidecar, w) }

abbrev cluster : Cluster Nothing
cluster = record (empty_cluster Nothing) {
  get_replication = λ ns name w. (ok replication, w);
  get_policy = λ name w. (ok (policy name false), w);
  get_location = λ ns name w. (ok location, w);
}

abbrev run : Result ReconcileResult × Nothing
run =
    reconcile cluster services (λ c. c) disk manifest_json ledger_json (bytes "velero")
      (bytes "nightly") tt

-- The pass goes through all its stages.
run_replicated : run ≡ (ok (record { requeue_after = none }), tt)
unfolding reconcile text_eq clean
run_replicated = refl
