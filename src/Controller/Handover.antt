-- ===== src/Controller/Handover.antt =====
-- src/internal/controller: the manifest between the source, whose `emitManifest` publishes it
-- (backupreplication_controller.go), and the destination, where the bridge and `Reconcile` read it
-- (backupimport_controller.go).
use mathlib.Core.Path.{subst}
use mathlib.Core.List.{Memᴰ}
use mathlib.Core.List.Memᴰ
use airgap_snapshots.Base.{
  ◌≡◌, refl, sym, ap, ◌∙◌, ◌++◌, Bool, false, true, List, [], ◌∷◌, Option, none, some, wrapf, ok,
  lift, with_context, All, if◌then◌else◌,
}
use airgap_snapshots.Base.Integer.{ℤ}
use airgap_snapshots.Base.Keeps.{bind-eq-ok, with_context-eq-ok}
use airgap_snapshots.Base.Text.{Text}
use airgap_snapshots.Api.Meta.{Time}
use airgap_snapshots.Api.Replication.{BackupReplication}
use airgap_snapshots.Api.Import.{BackupImport, BackupImportSpec}
use airgap_snapshots.Importer.{Inbox}
use airgap_snapshots.Manifest.{FileEntry, Manifest, Json, collection, doc_id, marshal, parse}
use airgap_snapshots.Manifest.Codec.{IsFaithful, parse-marshal}
use airgap_snapshots.Peat.{Client}
use airgap_snapshots.Staging.{Disk}
use airgap_snapshots.Controller.{Cluster, Services}
use airgap_snapshots.Controller.Ledger.{Ledger}
use airgap_snapshots.Controller.Replication.{manifest_of, emit_manifest}
use airgap_snapshots.Controller.Import.{
  ImportOptions, is_terminal, import_manifest, import_parsed, import_document, advance_import,
  reconcile_import,
}
use airgap_snapshots.Controller.Bridge.{poll}
use airgap_snapshots.Controller.Bridge.Ensure.{
  Synced, complete_of, complete_document, complete_among, complete_manifests, BridgeLaws,
  poll-Ensures,
}
use airgap_snapshots.Controller.Bridge.Start.{Has, NamesApart, spec_of, Ensures-Has}

abbrev id_of : Manifest → Text
id_of m = doc_id m.storage_location m.backup_name

module _ {W : Type 0} (docs : W → Text → Option Text) (pc : Client W) where
  -- A document that the sidecar took is among its documents.
  abbrev pub Puts : Type 0
  Puts =
      (id body : Text) (w : W)
      → (pc.put_document collection id body w).0 ≡ ok tt
      → docs (pc.put_document collection id body w).1 id ≡ some body

module _ {W : Type 0} (cluster : Cluster W) (services : Services W) (sha256 : Text → Text)
    (disk : Disk W) (manifest_json : Json Manifest) (ledger_json : Json Ledger)
    (docs : W → Text → Option Text) (pc : Client W) (puts : Puts docs pc) where
  -- Behind `emitManifest` the sidecar has the document, and it parses as the manifest.
  emit_manifest-document :
      IsFaithful manifest_json
      → (br : BackupReplication) (prefix : Text) (entries : List FileEntry) (total : ℤ)
        (time : Time) (w : W)
      → (emit_manifest cluster services sha256 disk manifest_json ledger_json pc br prefix entries
          total time w).0
        ≡ ok tt
      → let m = manifest_of br prefix entries total (cluster.format_time time) in
        (text : Text) × (docs
            (emit_manifest cluster services sha256 disk manifest_json ledger_json pc br prefix
              entries total time w).1
            (id_of m)
          ≡ some text)
        × (parse manifest_json text ≡ ok m)
        × (m.complete ≡ true)
  unfolding emit_manifest manifest_of
  emit_manifest-document law br prefix entries total time w h =
      let m = manifest_of br prefix entries total (cluster.format_time time) in
      let doc = doc_id br.spec.storage_location br.spec.backup_name in
      let marshalling =
        with_context (wrapf "marshal manifest: %w" []) (lift (marshal manifest_json m)) in
      let (text, e, rest, world) = bind-eq-ok marshalling _ w tt h in
      let marshalled =
        with_context-eq-ok (wrapf "marshal manifest: %w" []) (lift (marshal manifest_json m)) w text
          e in
      let taken =
        with_context-eq-ok (wrapf "put manifest %q: %w" (doc ∷ []))
          (pc.put_document collection doc text) w tt rest in
      (
        text,
        ap (λ v. docs v doc) world ∙ puts doc text w taken,
        parse-marshal manifest_json law m text marshalled refl,
        refl,
      )

-- A complete manifest whose document is listed is among the complete manifests.
complete_among-member :
    (manifest_json : Json Manifest) (doc : Text → Option Text) (id text : Text) (m : Manifest)
    → doc id ≡ some text
    → parse manifest_json text ≡ ok m
    → m.complete ≡ true
    → (ids : List Text) → Memᴰ id ids
    → Memᴰ m (complete_among manifest_json doc ids)
complete_among-member json doc id text m found parsed complete [] h = elim h [ ]
complete_among-member json doc id text m found parsed complete (i ∷ ids) (Memᴰ.head same) =
    let here : complete_document json (doc i) ≡ m ∷ [] =
      ap (λ j. complete_document json (doc j)) (sym same)
      ∙ ap (complete_document json) found
      ∙ ap complete_of parsed
      ∙ ap (λ (b : Bool). if b then m ∷ [] else []) complete in
    subst (λ ms. Memᴰ m (ms ++ complete_among json doc ids)) (sym here) (Memᴰ.head refl)
complete_among-member json doc id text m found parsed complete (i ∷ ids) (Memᴰ.tail h) =
    Memᴰ.append_right (complete_document json (doc i))
      (complete_among-member json doc id text m found parsed complete ids h)

member-All : {A : Type 0} (P : A → Type 0) (x : A) (xs : List A) → Memᴰ x xs → All P xs → P x
member-All P x [] h _ = elim h [ ]
member-All P x (y ∷ ys) (Memᴰ.head e) (p, ps) = subst P (sym e) p
member-All P x (y ∷ ys) (Memᴰ.tail h) (p, ps) = member-All P x ys h ps

module _ {V : Type 0} (cluster : Cluster V) (services : Services V) (sha256_hex : Text → Text)
    (inbox : Inbox V) (manifest_json : Json Manifest) (opts : ImportOptions) where
  -- An import whose manifest is there and complete goes on to the import of that manifest.
  reconcile_import-reads :
      (pc : Client V) (text : Text) (m : Manifest) (namespace name : Text) (bi : BackupImport)
      (u u₁ u₂ u₃ : V)
      → cluster.get_import namespace name u ≡ (ok bi, u₁)
      → bi.metadata.deletion_timestamp ≡ none
      → is_terminal bi.status.phase ≡ false
      → services.new_peat opts.peat_address u₁ ≡ (ok pc, u₂)
      → pc.get_document opts.manifest_collection bi.spec.manifest_doc_id u₂ ≡ (ok (some text), u₃)
      → parse manifest_json text ≡ ok m
      → m.complete ≡ true
      → reconcile_import cluster services sha256_hex inbox manifest_json opts namespace name u
        ≡ import_manifest cluster services sha256_hex inbox manifest_json opts bi m u₃
  unfolding reconcile_import advance_import import_document import_parsed
  reconcile_import-reads pc text m namespace name bi u u₁ u₂ u₃ got live going dialled fetched
        parsed complete =
      rw got (rw live (rw going (rw dialled (rw fetched (rw parsed (rw complete refl))))))

module _ {W V : Type 0} (source : Cluster W) (source_services : Services W) (sha256 : Text → Text)
    (disk : Disk W) (manifest_json : Json Manifest) (ledger_json : Json Ledger)
    (docs : W → Text → Option Text) (source_pc : Client W) (puts : Puts docs source_pc)
    (destination : Cluster V) (services : Services V) (sha256_hex : Text → Text) (inbox : Inbox V)
    (opts : ImportOptions) (observe : V → Synced) (pc : Client V)
    (laws : BridgeLaws destination manifest_json opts observe pc) where
  -- Let `emitManifest` return without an error at the source, where the sidecar keeps a document that
  -- it takes, and let the JSON codec be faithful. A poll of the bridge at the destination, once peat
  -- lists the document there as the source has it, leaves a BackupImport of the manifest's name that
  -- asks for its backup, if no two complete manifests there for different backups have one name. And
  -- `Reconcile` of an import that asks for it, neither deleted nor terminal, with the document there
  -- and the sidecar dialled, is the import of the very manifest that the source built.
  pub emit_manifest-poll-reconcile_import :
      IsFaithful manifest_json
      → (br : BackupReplication) (prefix : Text) (entries : List FileEntry) (total : ℤ)
        (time : Time) (w : W)
      → let m = manifest_of br prefix entries total (source.format_time time) in
        let emitted =
          emit_manifest source source_services sha256 disk manifest_json ledger_json source_pc br
            prefix entries total time w in
        emitted.0 ≡ ok tt
        → (v : V) → Memᴰ (id_of m) (observe v).ids
        → (observe v).doc (id_of m) ≡ docs emitted.1 (id_of m)
        → NamesApart (complete_manifests manifest_json (observe v))
        → (namespace name : Text) (bi : BackupImport) (u u₁ u₂ : V)
        → destination.get_import namespace name u ≡ (ok bi, u₁)
        → bi.spec ≡ spec_of m
        → bi.metadata.deletion_timestamp ≡ none
        → is_terminal bi.status.phase ≡ false
        → services.new_peat opts.peat_address u₁ ≡ (ok pc, u₂)
        → (observe u₂).doc (id_of m) ≡ docs emitted.1 (id_of m)
        → Has (observe (poll destination manifest_json opts pc v).1) m
          × (reconcile_import destination services sha256_hex inbox manifest_json opts namespace
                name u
              ≡ import_manifest destination services sha256_hex inbox manifest_json opts bi m
                  (pc.get_document opts.manifest_collection bi.spec.manifest_doc_id u₂).1)
  emit_manifest-poll-reconcile_import law br prefix entries total time w h v listed synced apart
        namespace name bi u u₁ u₂ got asks live going dialled there =
      let m = manifest_of br prefix entries total (source.format_time time) in
      let (text, found, parsed, complete) =
        emit_manifest-document source source_services sha256 disk manifest_json ledger_json docs
          source_pc puts law br prefix entries total time w h in
      let among =
        complete_among-member manifest_json (observe v).doc (id_of m) text m (synced ∙ found) parsed
          complete (observe v).ids listed in
      let after = observe (poll destination manifest_json opts pc v).1 in
      let before = complete_manifests manifest_json (observe v) in
      let ensures = poll-Ensures destination manifest_json opts observe pc laws v in
      let id_asked : bi.spec.manifest_doc_id ≡ id_of m =
        ap (λ (s : BackupImportSpec). s.manifest_doc_id) asks in
      let u₃ = (pc.get_document opts.manifest_collection bi.spec.manifest_doc_id u₂).1 in
      let fetched : pc.get_document opts.manifest_collection bi.spec.manifest_doc_id u₂
          ≡ (ok (some text), u₃) =
        ap (λ a. (a, u₃))
          (laws.found bi.spec.manifest_doc_id u₂
            ∙ ap (λ i. ok ((observe u₂).doc i)) id_asked
            ∙ ap ok (there ∙ found)) in
      (
        member-All (Has after) m before among (Ensures-Has before (observe v) after apart ensures),
        reconcile_import-reads destination services sha256_hex inbox manifest_json opts pc text m
            namespace name bi u u₁ u₂ u₃ got live going dialled fetched parsed complete,
      )
