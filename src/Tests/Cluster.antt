-- ===== src/Tests/Cluster.antt =====
-- A cluster without objects, and a sidecar that answers the files of a request in order.
use airgap_snapshots.Base.{ℕ, suc, Bool, true, false, List, [], ◌∷◌, none, ok, err, external, M}
use airgap_snapshots.Base.Integer.{pos}
use airgap_snapshots.Base.Text.{Text, bytes}
use airgap_snapshots.Api.Meta.{ObjectMeta}
use airgap_snapshots.Api.Policy.{ReplicationPolicy}
use airgap_snapshots.Api.Replication.{BackupReplication, new_status}
use airgap_snapshots.Manifest.{Manifest, Json}
use airgap_snapshots.Peat.{FileSpec, AttachmentHandle, completed, Client}
use airgap_snapshots.Staging.{Disk}
use airgap_snapshots.Controller.{Cluster}
use airgap_snapshots.Controller.Ledger.{Ledger}

abbrev pub Nothing : Type 0
Nothing = Unit {0}

abbrev pub unused : {W A : Type 0} → M W A
unused w = (err (external "unused"), w)

-- A cluster in which every look-up fails and every update succeeds.
abbrev pub empty_cluster : (W : Type 0) → Cluster W
empty_cluster W = record {
  is_not_found = λ e. true;
  get_backup = λ ns name. unused;
  get_replication = λ ns name. unused;
  get_import = λ ns name. unused;
  get_policy = λ name. unused;
  list_policies = λ w. (ok [], w);
  get_location = λ ns name. unused;
  get_secret = λ ns name. unused;
  update_replication = λ br w. (ok br, w);
  update_import = λ bi w. (ok bi, w);
  ensure_replication = λ ns name f w. (ok tt, w);
  ensure_import = λ ns name f w. (ok tt, w);
  set_owner = λ backup br. ok br;
  selector_matches = λ selector labels. ok false;
  set_condition = λ c conditions. c ∷ conditions;
  now = λ w. (0, w);
  format_time = λ time. [];
}

abbrev pub meta : Text → ObjectMeta
meta name = record {
  name = name;
  namespace = bytes "velero";
  generation = pos 1;
  deletion_timestamp = none;
  labels = [];
}

abbrev pub policy : Text → Bool → ReplicationPolicy
policy name paused = record {
  metadata = meta name;
  spec = record {
    paused = paused;
    backup_storage_locations = bytes "default" ∷ [];
    backup_storage_location_selector = none;
    backup_selector = none;
    target = record { endpoint_id = []; node_id = []; addresses = []; relay_url = [] };
    priority = bytes "Routine";
    bundle_byte_limit = pos 10;
    bundle_file_limit = pos 1;
    max_concurrent_bundles = pos 1;
    stale_after = none;
    peat = record { address = []; outbox_root = []; outbox_path = [] };
    object_store = record {
      endpoint = [];
      region = [];
      ca_bundle_secret_ref = none;
      insecure_skip_tls_verify = false;
      credentials_secret_ref = none;
    };
  };
  status = record {
    conditions = [];
    backups_replicated = pos 0;
    bytes_replicated = pos 0;
    observed_generation = pos 0;
  };
}

abbrev pub handles_from : ℕ → List FileSpec → List AttachmentHandle
handles_from i [] = []
handles_from i (f ∷ files) =
    record { file_index = i; blob_token = []; distribution_id = f.relative_path }
    ∷ handles_from (suc i) files

abbrev pub sidecar : Client Nothing
sidecar = record {
  node_status = unused;
  ensure_peer = λ id addresses relay w. (ok tt, w);
  send_attachments =
      λ name files scope p w. (ok (record { bundle_id = name; handles = handles_from 0 files }), w);
  get_distribution = λ id. unused;
  wait_bundle = λ name w. (
    ok (
        record {
          distribution_id = name;
          status = completed;
          bytes_transferred = 1;
          bytes_total = 1;
          message = [];
        }
        ∷ []),
    w,
  );
  put_document = λ collection id text w. (ok tt, w);
  get_document = λ collection id w. (ok none, w);
  list_documents = λ collection w. (ok [], w);
}

abbrev pub disk : Disk Nothing
disk = record {
  make_dirs = λ d w. (ok tt, w);
  create_temp = λ d p w. (ok [], w);
  write_file = λ f c w. (ok tt, w);
  close_file = λ f w. (ok tt, w);
  rename = λ f g w. (ok tt, w);
  remove = λ f w. (ok tt, w);
}

abbrev pub manifest_json : Json Manifest
manifest_json = record { encode = λ m. ok m.backup_name; decode = λ text. err (external "unused") }

abbrev pub ledger_json : Json Ledger
ledger_json = record { encode = λ l. ok []; decode = λ text. ok [] }

abbrev pub replication : BackupReplication
replication = record {
  metadata = meta (bytes "nightly");
  spec = record {
    backup_name = bytes "nightly";
    policy_name = bytes "main";
    storage_location = bytes "default";
  };
  status = new_status;
}
