-- ===== src/Controller/Import/Reconciled.antt =====
-- src/internal/controller/backupimport_controller.go: `Reconcile` as a whole, on every path.
use airgap_snapshots.Base.{
  ◌≡◌, refl, inl, inr, Bool, true, false, Option, none, some, if◌then◌else◌, Bool-cases,
  Option-cases, length, Result, ok, err, M, pure, lift, recover,
}
use airgap_snapshots.Base.Integer.{to_int64}
use airgap_snapshots.Base.Keeps.{recover_cases}
use airgap_snapshots.Base.Text.{Text}
use airgap_snapshots.Api.Meta.{ReconcileResult, Time}
use airgap_snapshots.Api.Import.{ImportPhase, BackupImport}
use airgap_snapshots.Importer.{Inbox}
use airgap_snapshots.Importer.Pass.{import_files}
use airgap_snapshots.Manifest.{Manifest, Json, parse}
use airgap_snapshots.Objstore.{Store}
use airgap_snapshots.Peat.{Client}
use airgap_snapshots.Controller.{Cluster, Services}
use airgap_snapshots.Controller.Import.{
  ImportOptions, is_terminal, set_import_phase, import_transient, conclude, start_import, run_pass,
  import_store, import_manifest, import_parsed, import_document, advance_import, is_deleted,
  reconcile_import,
}
use airgap_snapshots.Controller.Import.Ends.{
  IsSame, Ends, import_transient-Ends, import_wait-Ends, import_failed-Ends, conclude-Ends,
}

module _ {W : Type 0} (cluster : Cluster W) where
  -- What `Reconcile` does on the object `bi` in the world `w`.
  pub data Reconciled (bi : BackupImport) (w : W) (r : Result ReconcileResult × W) : Type 0 where
    deleted :
        (time : Time)
        → bi.metadata.deletion_timestamp ≡ some time
        → r ≡ (ok (record { requeue_after = none }), w)
        → Reconciled bi w r
    terminal :
        is_terminal bi.status.phase ≡ true
        → r ≡ (ok (record { requeue_after = none }), w)
        → Reconciled bi w r
    advanced :
        bi.metadata.deletion_timestamp ≡ none
        → is_terminal bi.status.phase ≡ false
        → Ends cluster bi r
        → Reconciled bi w r

module _ {W : Type 0} (cluster : Cluster W) (services : Services W) (sha256_hex : Text → Text)
    (inbox : Inbox W) (manifest_json : Json Manifest) (opts : ImportOptions) where
  run_pass-Ends :
      (bi₀ bi : BackupImport)
      → IsSame bi₀ bi
      → (store : Store W) (m : Manifest) (w : W) → is_terminal bi.status.phase ≡ false
      → Ends cluster bi₀
          (run_pass cluster services sha256_hex inbox manifest_json opts store m bi w)
  unfolding run_pass
  run_pass-Ends bi₀ bi same store m w going =
      recover_cases (Ends cluster bi₀) (import_transient cluster bi "ImportFailed")
        (import_files sha256_hex inbox opts.inbox_root store m) (conclude cluster m bi) w
        (λ e v. import_transient-Ends cluster bi₀ bi same "ImportFailed" e v going)
        (λ res v. conclude-Ends cluster bi₀ bi same m res v going)

  start_import-IsSame :
      (bi : BackupImport) (w : W)
      → (started : BackupImport) × (w' : W) × IsSame bi started
        × (start_import cluster services sha256_hex inbox manifest_json opts bi w
            ≡ (ok started, w'))
  unfolding start_import
  start_import-IsSame bi w = elim (Option-cases bi.status.started_at) [
    | inl e ↦
        let (time, w') = cluster.now w in
        let started = record bi { status = record bi.status { started_at = some time } } in
        (started, w', record { metadata = refl; spec = refl }, rw e refl)
    | inr (time, e) ↦
        let started = record bi { status = record bi.status { started_at = some time } } in
        rw e (started, w, record { metadata = refl; spec = refl }, refl)
  ]

  import_store-Ends :
      (bi : BackupImport) (m : Manifest) (store : Store W) (w : W)
      → Ends cluster bi
          (import_store cluster services sha256_hex inbox manifest_json opts bi m store w)
  unfolding import_store set_import_phase
  import_store-Ends bi m store w =
      let (started, w', same, e) = start_import-IsSame bi w in
      rw e (
        run_pass-Ends bi
          (record started {
            status = record (set_import_phase ImportPhase.importing started).status {
              files_total = to_int64 (length m.files);
            };
          })
          (record { metadata = same.metadata; spec = same.spec }) store m w' refl)

  module _ (bi : BackupImport) (going : is_terminal bi.status.phase ≡ false) where
    same : IsSame bi bi
    same = record { metadata = refl; spec = refl }

    import_manifest-Ends :
        (m : Manifest) (w : W)
        → Ends cluster bi
            (import_manifest cluster services sha256_hex inbox manifest_json opts bi m w)
    unfolding import_manifest
    import_manifest-Ends m w =
        recover_cases (Ends cluster bi) (import_transient cluster bi "DestStoreInitFailed")
          (lift (services.new_store opts.dest_store))
          (import_store cluster services sha256_hex inbox manifest_json opts bi m) w
          (λ e v. import_transient-Ends cluster bi bi same "DestStoreInitFailed" e v going)
          (import_store-Ends bi m)

    import_parsed-Ends :
        (parsed : Result Manifest) (w : W)
        → Ends cluster bi
            (import_parsed cluster services sha256_hex inbox manifest_json opts bi parsed w)
    unfolding import_parsed set_import_phase
    import_parsed-Ends (err e) w = import_failed-Ends cluster bi bi same "ManifestParseFailed" e w
    import_parsed-Ends (ok m) w = elim (Bool-cases m.complete) [
      | inl e ↦ rw e (import_manifest-Ends m w)
      | inr e ↦ rw e (
          import_wait-Ends cluster bi (set_import_phase ImportPhase.pending bi)
            (record { metadata = refl; spec = refl }) _ _ w refl)
    ]

    import_document-Ends :
        (document : Option Text) (w : W)
        → Ends cluster bi
            (import_document cluster services sha256_hex inbox manifest_json opts bi document w)
    unfolding import_document set_import_phase
    import_document-Ends none w =
        import_wait-Ends cluster bi (set_import_phase ImportPhase.pending bi)
          (record { metadata = refl; spec = refl }) _ _ w refl
    import_document-Ends (some text) w = import_parsed-Ends (parse manifest_json text) w

    fetch-Ends :
        (pc : Client W) (w : W)
        → Ends cluster bi (
            recover
              (import_transient cluster bi "ManifestFetchFailed")
              (pc.get_document opts.manifest_collection bi.spec.manifest_doc_id)
              (import_document cluster services sha256_hex inbox manifest_json opts bi)
              w)
    fetch-Ends pc w =
        recover_cases (Ends cluster bi) (import_transient cluster bi "ManifestFetchFailed")
          (pc.get_document opts.manifest_collection bi.spec.manifest_doc_id)
          (import_document cluster services sha256_hex inbox manifest_json opts bi) w
          (λ e v. import_transient-Ends cluster bi bi same "ManifestFetchFailed" e v going)
          import_document-Ends

  advance_import-Ends :
      (bi : BackupImport) (w : W)
      → is_terminal bi.status.phase ≡ false
      → Ends cluster bi (advance_import cluster services sha256_hex inbox manifest_json opts bi w)
  unfolding advance_import
  advance_import-Ends bi w going =
      recover_cases (Ends cluster bi) (import_transient cluster bi "PeatDialFailed")
        (services.new_peat opts.peat_address)
        (λ pc.
          recover (import_transient cluster bi "ManifestFetchFailed")
            (pc.get_document opts.manifest_collection bi.spec.manifest_doc_id)
            (import_document cluster services sha256_hex inbox manifest_json opts bi))
        w (λ e v. import_transient-Ends cluster bi bi (same bi going) "PeatDialFailed" e v going)
        (fetch-Ends bi going)

  on_object : BackupImport → Option Time → Bool → M W ReconcileResult
  on_object bi timestamp ended =
      if is_deleted cluster services sha256_hex inbox manifest_json opts timestamp
      then pure (record { requeue_after = none })
      else if ended
      then pure (record { requeue_after = none })
      else advance_import cluster services sha256_hex inbox manifest_json opts bi

  on_object-Reconciled :
      (bi : BackupImport) (w : W) (timestamp : Option Time) (ended : Bool)
      → bi.metadata.deletion_timestamp ≡ timestamp
      → is_terminal bi.status.phase ≡ ended
      → Reconciled cluster bi w (on_object bi timestamp ended w)
  unfolding on_object
  on_object-Reconciled bi w (some time) ended d t = deleted time d refl
  on_object-Reconciled bi w none true d t = terminal t refl
  on_object-Reconciled bi w none false d t = advanced d t (advance_import-Ends bi w t)

  -- `Reconcile` of an import that the API server has changes nothing if it is deleted or in a terminal
  -- phase. Otherwise, whatever fails on the way, it ends in one status update of that import, whose
  -- metadata and spec are as they were, and the answer is to run again in 30 seconds, unless the phase
  -- written is terminal.
  pub reconcile_import-Reconciled :
      (namespace name : Text) (bi : BackupImport) (w w' : W)
      → cluster.get_import namespace name w ≡ (ok bi, w')
      → Reconciled cluster bi w'
          (reconcile_import cluster services sha256_hex inbox manifest_json opts namespace name w)
  unfolding reconcile_import on_object
  reconcile_import-Reconciled namespace name bi w w' h = rw h (
      on_object-Reconciled bi w' bi.metadata.deletion_timestamp (is_terminal bi.status.phase) refl
        refl)
