-- ===== src/Tests/Handover.antt =====
-- A manifest from the source's sidecar to the import at the destination.
use mathlib.Core.Path.{subst}
use mathlib.Core.List.{Memᴰ}
use airgap_snapshots.Base.{
  ◌≡◌, refl, sym, [], ◌∷◌, Option, none, some, Result, ok, err, external, if◌then◌else◌,
}
use airgap_snapshots.Base.Integer.{pos, int_eq}
use airgap_snapshots.Base.Text.{Text, bytes, text_eq, text_eq_refl}
use airgap_snapshots.Base.Text.Encode.{hex}
use airgap_snapshots.Api.Import.{BackupImport}
use airgap_snapshots.Api.Replication.{BackupReplication}
use airgap_snapshots.Importer.{Inbox}
use airgap_snapshots.Manifest.{Manifest, marshal, parse, doc_id}
use airgap_snapshots.Peat.{Client}
use airgap_snapshots.Staging.{Disk}
use airgap_snapshots.Controller.{Services}
use airgap_snapshots.Controller.Import.{import_manifest, reconcile_import}
use airgap_snapshots.Controller.Bridge.{poll}
use airgap_snapshots.Controller.Bridge.Ensure.{Synced, complete_manifests, name_of}
use airgap_snapshots.Controller.Bridge.Start.{Has, NamesApart, spec_of}
use airgap_snapshots.Controller.Replication.{manifest_of, emit_manifest}
use airgap_snapshots.Controller.Handover.{Puts, emit_manifest-poll-reconcile_import}
use airgap_snapshots.Tests.Bridge.{cluster, sidecar, laws, services, one_name}
use airgap_snapshots.Tests.Cluster.{empty_cluster, unused, replication, ledger_json}
use airgap_snapshots.Tests.Import.{options, backup_import}
use airgap_snapshots.Tests.Manifest.{codec, codec-IsFaithful}

abbrev Documents : Type 0
Documents = Text → Option Text

-- A sidecar that keeps what it takes.
abbrev source_sidecar : Client Documents
source_sidecar = record {
  node_status = unused;
  ensure_peer = λ id addresses relay. unused;
  send_attachments = λ name files scope p. unused;
  get_distribution = λ id. unused;
  wait_bundle = λ name. unused;
  put_document = λ collection id body docs.
      (ok tt, λ other. if text_eq id other then some body else docs other);
  get_document = λ collection id. unused;
  list_documents = λ collection. unused;
}

abbrev source_services : Services Documents
source_services = record {
  new_store = λ cfg. err (external "unused");
  new_peat = λ address docs. (ok source_sidecar, docs);
}

abbrev disk : Disk Documents
disk = record {
  make_dirs = λ d. unused;
  create_temp = λ d p. unused;
  write_file = λ f c. unused;
  close_file = λ f. unused;
  rename = λ f g. unused;
  remove = λ f. unused;
}

abbrev inbox : Inbox Synced
inbox = record {
  stat_file = λ path. unused;
  open_file = λ path. unused;
  walk_dir = λ root s. ([], s);
}

-- A replication of a backup in the storage location "", which the codec can write.
abbrev shipped : BackupReplication
shipped = record replication { spec = record replication.spec { storage_location = [] } }

abbrev m : Manifest
m = manifest_of shipped [] [] (pos 0) []

abbrev emitted : Result (Unit {0}) × Documents
emitted =
    emit_manifest (empty_cluster Documents) source_services hex disk codec ledger_json
      source_sidecar shipped [] [] (pos 0) 0 (λ id. none)

abbrev name : Text
name = doc_id [] (bytes "nightly")

-- The destination, where peat has synced the documents of the source.
abbrev before : Synced
before = record { ids = name ∷ []; doc = emitted.1; imports = λ other. none }

abbrev after : Synced
after = (poll cluster codec options sidecar before).1

abbrev made : BackupImport
made = record backup_import { spec = spec_of m }

puts : Puts (λ docs. docs) source_sidecar
puts id body docs h = rw (text_eq_refl id) refl

one_manifest : complete_manifests codec before ≡ m ∷ []
unfolding emit_manifest manifest_of doc_id parse int_eq text_eq
one_manifest = refl

emit_manifest-poll-reconcile_import_example :
    Has after m
    × (reconcile_import cluster services hex inbox codec options (bytes "velero") (name_of m) after
        ≡ import_manifest cluster services hex inbox codec options made m after)
unfolding emit_manifest manifest_of doc_id marshal poll text_eq int_eq
emit_manifest-poll-reconcile_import_example =
    emit_manifest-poll-reconcile_import (empty_cluster Documents) source_services hex disk codec
      ledger_json (λ docs. docs) source_sidecar puts cluster services hex inbox options (λ s. s)
      sidecar (laws codec) codec-IsFaithful shipped [] [] (pos 0) 0 (λ id. none) refl before
      (Memᴰ.head refl) refl (subst NamesApart (sym one_manifest) (one_name m)) (bytes "velero")
      (name_of m) made after after after refl refl refl refl refl refl
