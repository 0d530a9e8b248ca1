-- ===== src/Controller/Replication/Publish.antt =====
-- src/internal/controller/backupreplication_controller.go: `replicate`, behind the loop over the bundles.
use Prim.Native.String.{String}
use airgap_snapshots.Base.{
  ℕ, ◌≡◌, refl, ap, List, [], ◌∷◌, some, Failure, wrapf, Result, ok, err, M, lift, with_context,
  recover,
}
use airgap_snapshots.Base.Integer.{to_int64}
use airgap_snapshots.Base.Keeps.{bind-eq-ok, with_context-eq-ok}
use airgap_snapshots.Base.Text.{Text}
use airgap_snapshots.Api.Meta.{Time, ReconcileResult}
use airgap_snapshots.Api.Replication.{BackupReplication}
use airgap_snapshots.Manifest.{FileEntry, Manifest, Json, collection, doc_id, marshal}
use airgap_snapshots.Objstore.{Config, Store}
use airgap_snapshots.Peat.{Client}
use airgap_snapshots.Staging.{Disk}
use airgap_snapshots.Controller.{Cluster, Services}
use airgap_snapshots.Controller.Report.{transient_err}
use airgap_snapshots.Controller.Ledger.{
  Ledger, ledger_key, parse_ledger, record_keys, commit_ledger,
}
use airgap_snapshots.Controller.Replication.{manifest_of, emit_manifest, mark_replicated, publish}

module _ {W : Type 0} (cluster : Cluster W) (services : Services W) (sha256 : Text → Text)
    (disk : Disk W) (manifest_json : Json Manifest) (ledger_json : Json Ledger) where
  module _ (store : Store W) (pc : Client W) where
    -- The manifest was marshalled, and peat took the document.
    pub record ManifestPut (m : Manifest) : Type 0 where
      pub text : Text
      pub marshalled : marshal manifest_json m ≡ ok text
      pub was_put :
          (w : W) × ((pc.put_document collection (doc_id m.storage_location m.backup_name) text w).0
            ≡ ok tt)

    -- The ledger was read, and put back with the keys and the etag that it had when it was read.
    pub record LedgerPut (storage_location : Text) (keys : List Text) : Type 0 where
      pub body : Text
      pub etag : Text
      pub was_read :
          (w : W) × ((store.get_ledger (ledger_key storage_location) w).0 ≡ ok (body, etag))
      pub ledger : Ledger
      pub parsed : parse_ledger ledger_json store body ≡ ok ledger
      pub text : Text
      pub encoded : ledger_json.encode (record_keys keys ledger) ≡ ok text
      pub was_put :
          (w : W) × (new_etag : Text) × ((store.put_ledger
              (ledger_key storage_location)
              text
              etag
              w).0
            ≡ ok new_etag)

    emit_manifest-ManifestPut :
        (br : BackupReplication) (prefix : Text) (entries : List FileEntry) (total : ℕ)
        (time : Time) (w : W)
        → (emit_manifest cluster services sha256 disk manifest_json ledger_json pc br prefix entries
            (to_int64 total)
            time
            w).0
          ≡ ok tt
        → ManifestPut (manifest_of br prefix entries (to_int64 total) (cluster.format_time time))
    unfolding emit_manifest manifest_of
    emit_manifest-ManifestPut br prefix entries total time w h =
        let m = manifest_of br prefix entries (to_int64 total) (cluster.format_time time) in
        let doc = doc_id br.spec.storage_location br.spec.backup_name in
        let marshalling =
          with_context (wrapf "marshal manifest: %w" []) (lift (marshal manifest_json m)) in
        let (text, e, rest, _) = bind-eq-ok marshalling _ w tt h in
        record {
          text = text;
          marshalled =
              with_context-eq-ok (wrapf "marshal manifest: %w" []) (lift (marshal manifest_json m))
                w text e;
          was_put = (
            (marshalling w).1,
            with_context-eq-ok (wrapf "put manifest %q: %w" (doc ∷ []))
                (pc.put_document collection doc text) (marshalling w).1 tt rest,
          );
        }

    commit_ledger-LedgerPut :
        (storage_location : Text) (keys : List Text) (w : W)
        → (commit_ledger ledger_json store storage_location keys w).0 ≡ ok tt
        → LedgerPut storage_location keys
    unfolding commit_ledger
    commit_ledger-LedgerPut storage_location keys w h =
        let key = ledger_key storage_location in
        let (found, e₁, r₁, _) = bind-eq-ok (store.get_ledger key) _ w tt h in
        let w₁ = (store.get_ledger key w).1 in
        let (ledger, e₂, r₂, _) =
          bind-eq-ok (lift (parse_ledger ledger_json store found.0)) _ w₁ tt r₁ in
        let (text, e₃, r₃, _) =
          bind-eq-ok (lift (ledger_json.encode (record_keys keys ledger))) _ w₁ tt r₂ in
        let (new_etag, e₄, _, _) = bind-eq-ok (store.put_ledger key text found.1) _ w₁ tt r₃ in
        record {
          body = found.0;
          etag = found.1;
          was_read = (w, e₁);
          ledger = ledger;
          parsed = e₂;
          text = text;
          encoded = e₃;
          was_put = (w₁, new_etag, e₄);
        }

    module _ (cfg : Config) (keys : List Text) (total : ℕ) where
      abbrev dated : Time → BackupReplication → BackupReplication
      dated time br = record br { status = record br.status { completed_at = some time } }

      -- How a pass ends from the point where all bundles are completed: an error is reported, or the
      -- replication is marked as replicated behind the manifest of these entries and the ledger.
      pub data Published (entries : List FileEntry) (br : BackupReplication)
          (r : Result ReconcileResult × W) : Type 0 where
        reported :
            (time : Time) (reason : String) (e : Failure) (w : W)
            → r ≡ transient_err cluster (dated time br) reason e w
            → Published entries br r
        replicated :
            (time : Time) (w : W)
            → ManifestPut (
                manifest_of
                  (dated time br)
                  cfg.prefix
                  entries
                  (to_int64 total)
                  (cluster.format_time time))
            → LedgerPut br.spec.storage_location keys
            → r
              ≡ mark_replicated cluster services sha256 disk manifest_json ledger_json
                  (dated time br)
                  w
            → Published entries br r

      abbrev marked : BackupReplication → M W ReconcileResult
      marked = mark_replicated cluster services sha256 disk manifest_json ledger_json

      after_ledger :
          (entries : List FileEntry) (br : BackupReplication) (time : Time)
          (answer : Result (Unit {0})) (w w' : W)
          → commit_ledger ledger_json store br.spec.storage_location keys w ≡ (answer, w')
          → ManifestPut (
              manifest_of
                (dated time br)
                cfg.prefix
                entries
                (to_int64 total)
                (cluster.format_time time))
          → Published entries br (
              recover
                (transient_err cluster (dated time br) "LedgerCommitFailed")
                (commit_ledger ledger_json store br.spec.storage_location keys)
                (λ _. marked (dated time br))
                w)
      after_ledger entries br time (err e) w w' h m =
          rw h (reported time "LedgerCommitFailed" e w' refl)
      after_ledger entries br time (ok u) w w' h m = rw h (
          replicated time w' m
            (commit_ledger-LedgerPut br.spec.storage_location keys w
              (ap (λ (p : Result (Unit {0}) × W). p.0) h))
            refl)

      abbrev emit : List FileEntry → BackupReplication → Time → M W (Unit {0})
      emit entries br time =
          emit_manifest cluster services sha256 disk manifest_json ledger_json pc (dated time br)
            cfg.prefix entries (to_int64 total) time

      after_manifest :
          (entries : List FileEntry) (br : BackupReplication) (time : Time)
          (answer : Result (Unit {0})) (w w' : W)
          → emit entries br time w ≡ (answer, w')
          → Published entries br (
              recover
                (transient_err cluster (dated time br) "ManifestEmitFailed")
                (emit entries br time)
                (λ _.
                  recover
                    (transient_err cluster (dated time br) "LedgerCommitFailed")
                    (commit_ledger ledger_json store br.spec.storage_location keys)
                    (λ _. marked (dated time br)))
                w)
      after_manifest entries br time (err e) w w' h =
          rw h (reported time "ManifestEmitFailed" e w' refl)
      after_manifest entries br time (ok u) w w' h =
          let commit = commit_ledger ledger_json store br.spec.storage_location keys w' in
          rw h (
            after_ledger entries br time commit.0 w' commit.1 refl (
              emit_manifest-ManifestPut (dated time br) cfg.prefix entries total time w
                (ap (λ (p : Result (Unit {0}) × W). p.0) h)))

      -- A pass whose bundles are all completed either reports an error, or marks the replication as
      -- replicated after peat has taken the manifest of the entries as they are and, with the etag of
      -- the ledger as it was read, the store has taken the ledger with the shipped keys.
      pub publish-Published :
          (entries : List FileEntry) (br : BackupReplication) (w : W)
          → Published entries br (
              publish cluster services sha256 disk manifest_json ledger_json store pc cfg keys total
                entries br w)
      unfolding publish
      publish-Published entries br w =
          let (time, w₁) = cluster.now w in
          let emitted = emit entries br time w₁ in
          after_manifest entries br time emitted.0 w₁ emitted.1 refl
