-- ===== src/Controller/Bridge/Ensure.antt =====
-- src/internal/controller/backupimport_controller.go: which BackupImports `poll` ensures.
use mathlib.Core.Path.{subst}
use airgap_snapshots.Base.{
  ◌≡◌, ◌≢◌, refl, ap, ◌∙◌, List, [], ◌∷◌, ◌++◌, Option, none, some, Bool-cases, inl, inr, Result,
  ok, err, attempt, ◌>>=◌, if◌then◌else◌,
}
use airgap_snapshots.Base.Keeps.{Keeps}
use airgap_snapshots.Base.Text.{Text, text_eq}
use airgap_snapshots.Api.Import.{BackupImport}
use airgap_snapshots.Manifest.{Manifest, Json, parse}
use airgap_snapshots.Peat.{Client}
use airgap_snapshots.Controller.{Cluster}
use airgap_snapshots.Controller.Import.{ImportOptions}
use airgap_snapshots.Controller.Bridge.Poll.{ensure_reverse_peer-Returns, bridge_document-Returns}
use airgap_snapshots.Controller.Bridge.{
  import_name, fill_import, ensure_reverse_peer, ensure_backup_import, bridge_parsed,
  bridge_document, bridge_loop, bridge_listed, poll,
}

-- What is observed of the world: the documents of the manifest collection that peat has, and the
-- BackupImports of the bridge's namespace by their names.
pub record Synced : Type 0 where
  pub ids : List Text
  pub doc : Text → Option Text
  pub imports : Text → Option BackupImport

-- The object of that name has been changed by the mutation, or made with it, and nothing else.
pub record Ensured (name : Text) (mutate : BackupImport → Result BackupImport) (a b : Synced)
    : Type 0 where
  pub ids : b.ids ≡ a.ids
  pub doc : b.doc ≡ a.doc
  pub here :
      (before : BackupImport) × (after : BackupImport) × (mutate before ≡ ok after)
      × (b.imports name ≡ some after)
  pub elsewhere : (other : Text) → other ≢ name → b.imports other ≡ a.imports other

abbrev pub complete_of : Result Manifest → List Manifest
complete_of (err _) = []
complete_of (ok m) = if m.complete then m ∷ [] else []

abbrev pub name_of : Manifest → Text
name_of m = import_name m.storage_location m.backup_name

-- The abstract view of a poll: each of the manifests is ensured, one after the other.
abbrev pub Ensures : List Manifest → Synced → Synced → Type 0
Ensures [] a b = b ≡ a
Ensures (m ∷ ms) a b = (mid : Synced) × Ensured (name_of m) (fill_import m) a mid × Ensures ms mid b

Ensures-append :
    (ms ns : List Manifest) (a b c : Synced)
    → Ensures ms a b
    → Ensures ns b c
    → Ensures (ms ++ ns) a c
Ensures-append [] ns a b c h k = subst (λ x. Ensures ns x c) h k
Ensures-append (m ∷ ms) ns a b c (mid, e, h) k = (mid, e, Ensures-append ms ns mid b c h k)

pub Ensures-kept :
    (ms : List Manifest) (a b : Synced) → Ensures ms a b → (b.ids ≡ a.ids) × (b.doc ≡ a.doc)
Ensures-kept [] a b h = (ap (λ (s : Synced). s.ids) h, ap (λ (s : Synced). s.doc) h)
Ensures-kept (m ∷ ms) a b (mid, e, h) =
    let (i, d) = Ensures-kept ms mid b h in (i ∙ e.ids, d ∙ e.doc)

module _ (manifest_json : Json Manifest) where
  abbrev pub complete_document : Option Text → List Manifest
  complete_document none = []
  complete_document (some text) = complete_of (parse manifest_json text)

  abbrev pub complete_among : (Text → Option Text) → List Text → List Manifest
  complete_among doc [] = []
  complete_among doc (id ∷ ids) = complete_document (doc id) ++ complete_among doc ids

  -- The complete manifests that peat has, in the order in which it lists them.
  abbrev pub complete_manifests : Synced → List Manifest
  complete_manifests s = complete_among s.doc s.ids

module _ {W : Type 0} (cluster : Cluster W) (manifest_json : Json Manifest)
    (opts : ImportOptions) where
  -- The sidecar answers from the documents that it has, and the API server does as it is asked.
  pub record BridgeLaws (observe : W → Synced) (pc : Client W) : Type 0 where
    pub listed : (w : W) → (pc.list_documents opts.manifest_collection w).0 ≡ ok (observe w).ids
    pub list_keeps : Keeps observe (pc.list_documents opts.manifest_collection)
    pub found :
        (id : Text) (w : W)
        → (pc.get_document opts.manifest_collection id w).0 ≡ ok ((observe w).doc id)
    pub get_keeps : (id : Text) → Keeps observe (pc.get_document opts.manifest_collection id)
    pub peer_keeps :
        (id : Text) (addresses : List Text) (relay_url : Text)
        → Keeps observe (pc.ensure_peer id addresses relay_url)
    pub ensured :
        (name : Text) (mutate : BackupImport → Result BackupImport) (w : W)
        → ((bi : BackupImport) → (after : BackupImport) × (mutate bi ≡ ok after))
        → Ensured name mutate
            (observe w)
            (observe (cluster.ensure_import opts.namespace name mutate w).1)

  module _ (observe : W → Synced) (pc : Client W) (laws : BridgeLaws observe pc) where
    bridge_parsed-Ensures :
        (parsed : Result Manifest) (w : W)
        → Ensures
            (complete_of parsed)
            (observe w)
            (observe (bridge_parsed cluster manifest_json opts parsed w).1)
    unfolding bridge_parsed ensure_backup_import fill_import
    bridge_parsed-Ensures (err e) w = refl
    bridge_parsed-Ensures (ok m) w = elim (Bool-cases m.complete) [
      | inl y ↦ rw y (_, laws.ensured (name_of m) (fill_import m) w (λ bi. (_, refl)), refl)
      | inr n ↦ rw n refl
    ]

    bridge_document-Ensures :
        (answer : Option Text) (w : W)
        → Ensures
            (complete_document manifest_json answer)
            (observe w)
            (observe (bridge_document cluster manifest_json opts (ok answer) w).1)
    unfolding bridge_document
    bridge_document-Ensures none w = refl
    bridge_document-Ensures (some text) w = bridge_parsed-Ensures (parse manifest_json text) w

    bridge_loop-Ensures :
        (ids : List Text) (doc : Text → Option Text) (w : W)
        → (observe w).doc ≡ doc
        → Ensures
            (complete_among manifest_json doc ids)
            (observe w)
            (observe (bridge_loop cluster manifest_json opts pc ids w).1)
    unfolding bridge_loop
    bridge_loop-Ensures [] doc w h = refl
    bridge_loop-Ensures (id ∷ ids) doc w h =
        let w₁ = (pc.get_document opts.manifest_collection id w).1 in
        let found : (pc.get_document opts.manifest_collection id w).0 ≡ ok (doc id) =
          laws.found id w ∙ ap (λ (d : Text → Option Text). ok (d id)) h in
        let round = bridge_document cluster manifest_json opts (ok (doc id)) in
        let one =
          subst (λ s. Ensures (complete_document manifest_json (doc id)) s (observe (round w₁).1))
            (laws.get_keeps id w) (bridge_document-Ensures (doc id) w₁) in
        let kept =
          Ensures-kept (complete_document manifest_json (doc id)) (observe w) (observe (round w₁).1)
            one in
        let rest = bridge_loop-Ensures ids doc (round w₁).1 (kept.1 ∙ h) in
        rw found (
          rw (bridge_document-Returns cluster manifest_json opts (ok (doc id)) w₁) (
            Ensures-append (complete_document manifest_json (doc id))
              (complete_among manifest_json doc ids) (observe w) (observe (round w₁).1) _ one rest))

    bridge_listed-Ensures :
        (w : W)
        → Ensures (complete_manifests manifest_json (observe w)) (observe w) (
            observe
              ((attempt (pc.list_documents opts.manifest_collection)
                  >>= bridge_listed cluster manifest_json opts pc)
                w).1)
    unfolding bridge_listed
    bridge_listed-Ensures w =
        let w₁ = (pc.list_documents opts.manifest_collection w).1 in
        let same = laws.list_keeps w in
        rw (laws.listed w) (
          subst
            (λ s.
              Ensures (complete_among manifest_json (observe w).doc (observe w).ids) s
                (observe (bridge_loop cluster manifest_json opts pc (observe w).ids w₁).1))
            same
            (bridge_loop-Ensures (observe w).ids (observe w).doc w₁
              (ap (λ (s : Synced). s.doc) same)))

    ensure_reverse_peer-Keeps : Keeps observe (ensure_reverse_peer cluster manifest_json opts pc)
    unfolding ensure_reverse_peer
    ensure_reverse_peer-Keeps w = elim (Bool-cases (text_eq opts.source_endpoint_id [])) [
      | inl y ↦ rw y refl
      | inr n ↦
          rw n
            (laws.peer_keeps opts.source_endpoint_id opts.source_addresses opts.source_relay_url w)
    ]

    -- If the sidecar answers from its documents and the API server takes every request, a poll does
    -- to the BackupImports what one `CreateOrUpdate` for each complete manifest that peat has does,
    -- in the order in which peat lists them: it changes no other object, and documents that are not
    -- there, do not parse or are not complete do nothing.
    pub poll-Ensures :
        (w : W)
        → Ensures
            (complete_manifests manifest_json (observe w))
            (observe w)
            (observe (poll cluster manifest_json opts pc w).1)
    unfolding poll
    poll-Ensures w =
        let peer = ensure_reverse_peer cluster manifest_json opts pc in
        rw (ensure_reverse_peer-Returns cluster manifest_json opts pc w) (
          subst
            (λ s. Ensures (complete_manifests manifest_json s) s (
              observe
                ((attempt (pc.list_documents opts.manifest_collection)
                    >>= bridge_listed cluster manifest_json opts pc)
                  (peer w).1).1))
            (ensure_reverse_peer-Keeps w) (bridge_listed-Ensures (peer w).1))
