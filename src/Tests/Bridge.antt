-- ===== src/Tests/Bridge.antt =====
-- The bridge on a world of documents and BackupImports, where a manifest comes before the first tick.
use mathlib.Core.List.{Memᴰ}
use airgap_snapshots.Base.{
  ◌≡◌, refl, sym, ap, ◌∙◌, inl, inr, Bool-cases, [], ◌∷◌, Option, none, some, Result, ok, err,
  external, M, if◌then◌else◌,
}
use airgap_snapshots.Base.Text.{Text, bytes, text_eq, text_eq_iff, text_eq_refl}
use airgap_snapshots.Api.Import.{BackupImport}
use airgap_snapshots.Manifest.{Manifest, Json}
use airgap_snapshots.Peat.{Client}
use airgap_snapshots.Controller.{Cluster, Services}
use airgap_snapshots.Controller.Bridge.{start_bridge, poll}
use airgap_snapshots.Controller.Bridge.Ensure.{
  Synced, Ensured, Ensures, complete_manifests, BridgeLaws, poll-Ensures,
}
use airgap_snapshots.Controller.Bridge.Start.{NamesApart, spec_of}
use airgap_snapshots.Tests.Cluster.{empty_cluster, unused}
use airgap_snapshots.Tests.Import.{options, backup_import, decoder}

abbrev current : Option BackupImport → BackupImport
current none = backup_import
current (some bi) = bi

abbrev record_import : Text → Result BackupImport → M Synced (Unit {0})
record_import name (err e) s = (err e, s)
record_import name (ok bi) s =
    (ok tt, record s { imports = λ other. if text_eq other name then some bi else s.imports other })

abbrev found : Option BackupImport → Result BackupImport
found none = err (external "not found")
found (some bi) = ok bi

abbrev pub cluster : Cluster Synced
cluster = record (empty_cluster Synced) {
  get_import = λ ns name s. (found (s.imports name), s);
  ensure_import = λ ns name mutate s. record_import name (mutate (current (s.imports name))) s;
}

abbrev pub sidecar : Client Synced
sidecar = record {
  node_status = unused;
  ensure_peer = λ id addresses relay. unused;
  send_attachments = λ name files scope p. unused;
  get_distribution = λ id. unused;
  wait_bundle = λ name. unused;
  put_document = λ collection id body. unused;
  get_document = λ collection id s. (ok (s.doc id), s);
  list_documents = λ collection s. (ok s.ids, s);
}

record_import-Ensured :
    (name : Text) (mutate : BackupImport → Result BackupImport) (s : Synced) (after : BackupImport)
    → mutate (current (s.imports name)) ≡ ok after
    → Ensured name mutate s (record_import name (mutate (current (s.imports name))) s).1
record_import-Ensured name mutate s after e = rw e (record {
  ids = refl;
  doc = refl;
  here = (current (s.imports name), after, e, rw (text_eq_refl name) refl);
  elsewhere = λ other h. elim (Bool-cases (text_eq other name)) [
    | inl y ↦ absurd (h ((text_eq_iff other name).0 y))
    | inr n ↦ rw n refl
  ];
})

pub laws : (json : Json Manifest) → BridgeLaws cluster json options (λ s. s) sidecar
laws json = record {
  listed = λ s. refl;
  list_keeps = λ s. refl;
  found = λ id s. refl;
  get_keeps = λ id s. refl;
  peer_keeps = λ id addresses relay s. refl;
  ensured = λ name mutate s total.
      let (after, e) = total (current (s.imports name)) in
      record_import-Ensured name mutate s after e;
}

abbrev pub nothing : Synced
nothing = record { ids = []; doc = λ id. none; imports = λ name. none }

abbrev arrival : Synced → Synced
arrival s = record s { ids = bytes "d" ∷ []; doc = λ id. some (bytes "manifest") }

abbrev pub services : Services Synced
services = record {
  new_store = λ cfg. err (external "unused");
  new_peat = λ address s. (ok sidecar, s);
}

abbrev end : Result (Unit {0}) × Synced
end = start_bridge cluster decoder options services (arrival ∷ []) nothing

pub one_name : (x : Manifest) → NamesApart (x ∷ [])
one_name x m n (Memᴰ.head p) (Memᴰ.head q) h = ap spec_of (p ∙ sym q)
one_name x m n (Memᴰ.head p) (Memᴰ.tail i) h = elim i [ ]
one_name x m n (Memᴰ.tail i) j h = elim i [ ]

poll-Ensures_example :
    Ensures
      (complete_manifests decoder (arrival nothing))
      (arrival nothing)
      (poll cluster decoder options sidecar (arrival nothing)).1
poll-Ensures_example =
    poll-Ensures cluster decoder options (λ s. s) sidecar (laws decoder) (arrival nothing)
