-- ===== src/Controller/Bridge/Start.antt =====
-- src/internal/controller/backupimport_controller.go: what `Start` of the manifest bridge has done by
-- the time that it returns.
use mathlib.Core.Path.{subst}
use mathlib.Core.List.{Memᴰ}
use airgap_snapshots.Base.{
  ◌≡◌, ◌≢◌, refl, sym, ap, ◌∙◌, List, [], ◌∷◌, some, Bool-cases, inl, inr, All,
}
use airgap_snapshots.Base.Text.{text_eq, text_eq_iff}
use airgap_snapshots.Api.Import.{BackupImport, BackupImportSpec}
use airgap_snapshots.Manifest.{Manifest, Json, doc_id}
use airgap_snapshots.Peat.{Client}
use airgap_snapshots.Controller.{Cluster}
use airgap_snapshots.Controller.Import.{ImportOptions}
use airgap_snapshots.Controller.Bridge.{fill_import}
use airgap_snapshots.Controller.Bridge.Ensure.{
  Synced, Ensured, Ensures, name_of, complete_manifests, BridgeLaws,
}

-- What the BackupImport of a manifest asks for.
abbrev pub spec_of : Manifest → BackupImportSpec
spec_of m = record {
  backup_name = m.backup_name;
  storage_location = m.storage_location;
  manifest_doc_id = doc_id m.storage_location m.backup_name;
}

-- There is a BackupImport of the manifest's name that asks for its backup.
abbrev pub Has : Synced → Manifest → Type 0
Has s m = (bi : BackupImport) × (s.imports (name_of m) ≡ some bi) × (bi.spec ≡ spec_of m)

-- Manifests whose BackupImports would have one name are of one backup.
abbrev pub NamesApart : List Manifest → Type 0
NamesApart ms =
    (m n : Manifest) → Memᴰ m ms → Memᴰ n ms → name_of m ≡ name_of n → spec_of m ≡ spec_of n

Ensured-Has :
    (m n : Manifest) (a b : Synced)
    → Ensured (name_of n) (fill_import n) a b
    → name_of m ≡ name_of n
    → spec_of m ≡ spec_of n
    → Has b m
unfolding fill_import
Ensured-Has m n a b e p q =
    let (before, after, filled, found) = e.here in
    let same : record before { spec = spec_of n } ≡ after = cc in
    (
      after,
      subst (λ k. b.imports k ≡ some after) (sym p) found,
      ap (λ (bi : BackupImport). bi.spec) (sym same) ∙ sym q,
    )

Has-kept :
    (m : Manifest) (ms : List Manifest) (a b : Synced)
    → ((n : Manifest) → Memᴰ n ms → name_of m ≡ name_of n → spec_of m ≡ spec_of n)
    → Ensures ms a b
    → Has a m
    → Has b m
Has-kept m [] a b apart h has = subst (λ s. Has s m) (sym h) has
Has-kept m (n ∷ ms) a b apart (mid, e, h) has =
    let later = λ (k : Manifest) (i : Memᴰ k ms). apart k (Memᴰ.tail i) in
    elim (Bool-cases (text_eq (name_of m) (name_of n))) [
      | inl y ↦
          let p = (text_eq_iff (name_of m) (name_of n)).0 y in
          Has-kept m ms mid b later h (Ensured-Has m n a mid e p (apart n (Memᴰ.head refl) p))
      | inr y ↦
          let other : name_of m ≢ name_of n = λ p. cc ((text_eq_iff (name_of m) (name_of n)).1 p) in
          let (bi, found, asks) = has in
          Has-kept m ms mid b later h (bi, e.elsewhere (name_of m) other ∙ found, asks)
    ]

-- Once all are ensured, each has its BackupImport.
pub Ensures-Has :
    (ms : List Manifest) (a b : Synced) → NamesApart ms → Ensures ms a b → All (Has b) ms
Ensures-Has [] a b apart h = tt
Ensures-Has (m ∷ ms) a b apart (mid, e, h) = (
  Has-kept m ms mid b (λ n i. apart m n (Memᴰ.head refl) (Memᴰ.tail i)) h
      (Ensured-Has m m a mid e refl refl),
  Ensures-Has ms mid b (λ k n i j. apart k n (Memᴰ.tail i) (Memᴰ.tail j)) h,
)

module _ {W : Type 0} (cluster : Cluster W) (manifest_json : Json Manifest) (opts : ImportOptions)
    (observe : W → Synced) (pc : Client W)
    (laws : BridgeLaws cluster manifest_json opts observe pc) where
  -- Every complete manifest that peat has is there as a BackupImport, if their names are apart.
  abbrev IsBridged : Synced → Type 0
  IsBridged s =
      NamesApart (complete_manifests manifest_json s)
      → All (Has s) (complete_manifests manifest_json s)
