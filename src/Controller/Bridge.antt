-- ===== src/Controller/Bridge.antt =====
-- src/internal/controller/backupimport_controller.go: the bridge that makes a BackupImport for each
-- complete manifest that peat has synced.
pub mod Names
pub mod Poll
pub mod Ensure
pub mod Start
use airgap_snapshots.Base.{
  Bool, List, [], ◌∷◌, ◌++◌, Option, none, some, ltb, if◌then◌else◌, length, take, Result, ok, err,
  M, pure, attempt, with_context, wrapf, ◌>>=◌, ◌>>◌,
}
use airgap_snapshots.Base.Text.{Text, bytes, text_eq}
use airgap_snapshots.Api.Import.{BackupImport}
use airgap_snapshots.Manifest.{Manifest, Json, doc_id, parse}
use airgap_snapshots.Peat.{Client}
use airgap_snapshots.Controller.{Cluster, Services}
use airgap_snapshots.Controller.Import.{ImportOptions}

-- `importName`
unfoldable pub import_name : Text → Text → Text
import_name storage_location backup_name =
    let n = storage_location ++ b'-' ∷ backup_name in if ltb 253 (length n) then take 253 n else n

-- The mutation of `CreateOrUpdate`.
unfoldable pub fill_import : Manifest → BackupImport → Result BackupImport
unfolding doc_id
fill_import m bi = ok (record bi {
  spec = record {
    backup_name = m.backup_name;
    storage_location = m.storage_location;
    manifest_doc_id = doc_id m.storage_location m.backup_name;
  };
})

abbrev lift_change : {W : Type 0} → (W → W) → M W (Unit {0})
lift_change change w = (ok tt, change w)

module _ {W : Type 0} (cluster : Cluster W) (manifest_json : Json Manifest)
    (opts : ImportOptions) where
  -- `ensureReversePeer`: its error is logged only.
  unfoldable pub ensure_reverse_peer : Client W → M W (Unit {0})
  unfolding text_eq
  ensure_reverse_peer pc =
      if text_eq opts.source_endpoint_id []
      then pure tt
      else attempt
          (pc.ensure_peer opts.source_endpoint_id opts.source_addresses opts.source_relay_url)
        >>= λ _. pure tt

  -- `ensureBackupImport`
  unfoldable pub ensure_backup_import : Manifest → M W (Unit {0})
  unfolding import_name fill_import
  ensure_backup_import m =
      cluster.ensure_import opts.namespace (import_name m.storage_location m.backup_name)
        (fill_import m)

  -- A round of the loop over the documents, on the parsed document.
  unfoldable pub bridge_parsed : Result Manifest → M W (Unit {0})
  unfolding ensure_backup_import
  bridge_parsed (err _) = pure tt
  bridge_parsed (ok m) =
      if m.complete then (attempt (ensure_backup_import m) >>= λ _. pure tt) else pure tt

  -- A round of the loop over the documents, on what `GetDocument` answered.
  unfoldable pub bridge_document : Result (Option Text) → M W (Unit {0})
  unfolding bridge_parsed parse
  bridge_document (err _) = pure tt
  bridge_document (ok none) = pure tt
  bridge_document (ok (some text)) = bridge_parsed (parse manifest_json text)

  -- The loop over the documents: it goes on after every error.
  unfoldable pub bridge_loop : Client W → List Text → M W (Unit {0})
  unfolding bridge_document
  bridge_loop pc [] = pure tt
  bridge_loop pc (id ∷ ids) = attempt (pc.get_document opts.manifest_collection id) >>= λ answer.
      bridge_document answer >>= λ _. bridge_loop pc ids

  unfoldable pub bridge_listed : Client W → Result (List Text) → M W (Unit {0})
  unfolding bridge_loop
  bridge_listed pc (err _) = pure tt
  bridge_listed pc (ok ids) = bridge_loop pc ids

  -- `poll`
  unfoldable pub poll : Client W → M W (Unit {0})
  unfolding ensure_reverse_peer bridge_listed
  poll pc = ensure_reverse_peer pc >>= λ _.
      attempt (pc.list_documents opts.manifest_collection) >>= bridge_listed pc

  -- The loop of `Start`: the changes are what others do to the world before each tick that comes
  -- before the end of the context.
  unfoldable pub tick_loop : Client W → List (W → W) → M W (Unit {0})
  unfolding poll
  tick_loop pc [] = pure tt
  tick_loop pc (change ∷ changes) =
      lift_change change >>= λ _. poll pc >>= λ _. tick_loop pc changes

  -- `Start`
  unfoldable pub start_bridge : Services W → List (W → W) → M W (Unit {0})
  unfolding poll tick_loop
  start_bridge services changes =
      with_context (wrapf "manifest bridge: dial peat: %w" []) (services.new_peat opts.peat_address)
      >>= λ pc. poll pc >>= λ _. tick_loop pc changes
