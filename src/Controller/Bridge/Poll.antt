-- ===== src/Controller/Bridge/Poll.antt =====
-- src/internal/controller/backupimport_controller.go: `poll` of the manifest bridge.
use airgap_snapshots.Base.{
  ◌≡◌, refl, [], Option, none, some, Bool-cases, inl, inr, Result, ok, err, M,
}
use airgap_snapshots.Base.Text.{Text, text_eq}
use airgap_snapshots.Manifest.{Manifest, Json, parse}
use airgap_snapshots.Peat.{Client}
use airgap_snapshots.Controller.{Cluster}
use airgap_snapshots.Controller.Import.{ImportOptions}
use airgap_snapshots.Controller.Bridge.{ensure_reverse_peer, bridge_parsed, bridge_document}

-- The action returns, whatever happens to the calls that it makes.
abbrev pub Returns : {W : Type 0} → M W (Unit {0}) → Type 0
Returns m = (w : _) → (m w).0 ≡ ok tt

module _ {W : Type 0} (cluster : Cluster W) (manifest_json : Json Manifest)
    (opts : ImportOptions) where
  bridge_parsed-Returns :
      (parsed : Result Manifest) → Returns (bridge_parsed cluster manifest_json opts parsed)
  unfolding bridge_parsed
  bridge_parsed-Returns (err e) w = refl
  bridge_parsed-Returns (ok m) w = elim (Bool-cases m.complete) [
    | inl y ↦ rw y refl
    | inr n ↦ rw n refl
  ]

  pub bridge_document-Returns :
      (answer : Result (Option Text)) → Returns (bridge_document cluster manifest_json opts answer)
  unfolding bridge_document
  bridge_document-Returns (err e) w = refl
  bridge_document-Returns (ok none) w = refl
  bridge_document-Returns (ok (some text)) w = bridge_parsed-Returns (parse manifest_json text) w

  pub ensure_reverse_peer-Returns :
      (pc : Client W) → Returns (ensure_reverse_peer cluster manifest_json opts pc)
  unfolding ensure_reverse_peer
  ensure_reverse_peer-Returns pc w = elim (Bool-cases (text_eq opts.source_endpoint_id [])) [
    | inl y ↦ rw y refl
    | inr n ↦ rw n refl
  ]
