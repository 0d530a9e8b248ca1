-- ===== src/Tests/Send.antt =====
-- The matching of policies, the loop over the bundles and what is behind it, on the sidecar that answers
-- in order.
use mathlib.Core.Path.{subst}
use airgap_snapshots.Base.{
  ℕ, suc, ◌≡◌, refl, ap, true, false, List, [], ◌∷◌, none, some, map, Result, ok, err,
}
use airgap_snapshots.Base.Integer.{pos}
use airgap_snapshots.Base.Text.{Text, bytes, text_eq}
use airgap_snapshots.Api.Velero.{Backup, BackupPhase}
use airgap_snapshots.Batching.{pack}
use airgap_snapshots.Objstore.{Store, empty_config}
use airgap_snapshots.Peat.{FileSpec, AttachmentHandle, SendResult}
use airgap_snapshots.Controller.{Cluster, Services}
use airgap_snapshots.Controller.Bundles.Entries.{indices, InOrder}
use airgap_snapshots.Controller.Matching.{first_match}
use airgap_snapshots.Controller.Matching.First.{Found, first_match-Found}
use airgap_snapshots.Controller.Replication.{nothing_sent, publish}
use airgap_snapshots.Controller.Replication.Publish.{Published, publish-Published}
use airgap_snapshots.Controller.Replication.Send.{Through, loop, send_loop-packed}
use airgap_snapshots.Tests.Cluster.{
  Nothing, unused, empty_cluster, meta, policy, handles_from, sidecar, disk, manifest_json,
  ledger_json, replication,
}

abbrev cluster : Cluster Nothing
cluster = empty_cluster Nothing

abbrev backup : Backup
backup = record {
  metadata = meta (bytes "nightly");
  spec = record {
    storage_location = bytes "default";
    included_namespaces = [];
    default_volumes_to_fs_backup = none;
    snapshot_volumes = none;
  };
  status = record {
    phase = BackupPhase.completed;
    start_timestamp = none;
    completion_timestamp = none;
    expiration = none;
  };
}

first_match-Found_example :
    Found cluster backup
      (policy (bytes "paused") true ∷ policy (bytes "main") false ∷ [])
      (some (policy (bytes "main") false))
unfolding first_match text_eq
first_match-Found_example =
    first_match-Found cluster backup
      (policy (bytes "paused") true ∷ policy (bytes "main") false ∷ [])
      (some (policy (bytes "main") false)) refl

handles_from-indices :
    (i : ℕ) (files : List FileSpec)
    → map (λ (h : AttachmentHandle). h.file_index) (handles_from i files) ≡ indices i files
handles_from-indices i [] = refl
handles_from-indices i (f ∷ files) = ap (◌∷◌ i) (handles_from-indices (suc i) files)

abbrev store : Store Nothing
store = record {
  list = λ prefix w. (ok [], w);
  open_object = λ k. unused;
  put = λ k r n t w. (ok tt, w);
  stat = λ k w. (ok none, w);
  get_ledger = λ k w. (ok ([], []), w);
  put_ledger = λ k body etag w. (ok [], w);
}

abbrev services : Services Nothing
services = record { new_store = λ cfg. ok store; new_peat = λ address w. (ok sidecar, w) }

abbrev file : Text → FileSpec
file path = record {
  root_name = [];
  relative_path = path;
  size = 6;
  sha256 = 1 ∷ [];
  content_type = [];
  display_name = [];
}

abbrev two_files : List FileSpec
two_files = file (bytes "kopia/p") ∷ file (bytes "kopia/q") ∷ []

abbrev Answered : List FileSpec → Result SendResult → Type 0
Answered files (ok res) = InOrder files res.handles
Answered files (err e) = Nothing

in_order :
    (files : List FileSpec) (name : Text) (res : SendResult)
    → ok (record { bundle_id = name; handles = handles_from 0 files }) ≡ ok res
    → InOrder files res.handles
in_order files name res h = subst (Answered files) h (handles_from-indices 0 files)

send_loop-packed_example :
    Through cluster services
      (λ c. c)
      disk
      manifest_json
      ledger_json
      store
      sidecar
      empty_config
      []
      12
      (policy (bytes "main") false)
      replication
      two_files
      (loop cluster services
        (λ c. c)
        disk
        manifest_json
        ledger_json
        store
        sidecar
        empty_config
        []
        12
        (policy (bytes "main") false)
        replication
        0
        (pack two_files (pos 1) 10)
        nothing_sent
        tt)
send_loop-packed_example =
    send_loop-packed cluster services (λ c. c) disk manifest_json ledger_json store sidecar
      empty_config [] 12 (policy (bytes "main") false) replication
      (λ name files scope p w res h. in_order files name res h) two_files (pos 1) 10 tt

publish-Published_example :
    Published cluster services
      (λ c. c)
      disk
      manifest_json
      ledger_json
      store
      sidecar
      empty_config
      (bytes "kopia/p" ∷ [])
      12
      []
      replication
      (publish cluster services
        (λ c. c)
        disk
        manifest_json
        ledger_json
        store
        sidecar
        empty_config
        (bytes "kopia/p" ∷ [])
        12
        []
        replication
        tt)
publish-Published_example =
    publish-Published cluster services (λ c. c) disk manifest_json ledger_json store sidecar
      empty_config (bytes "kopia/p" ∷ []) 12 [] replication tt
