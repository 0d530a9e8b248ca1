-- ===== src/Controller/Ledger/Reshipped.antt =====
-- src/internal/controller/backupreplication_controller.go: `enumerateDelta` after `commitLedger`.
use airgap_snapshots.Base.{◌≡◌, ◌≢◌, List, [], map, All, ok}
use airgap_snapshots.Base.Keeps.{Keeps}
use airgap_snapshots.Base.Text.{Text, bytes}
use mathlib.Core.List.{Memᴰ}
use airgap_snapshots.Objstore.{ObjectInfo, Store}
use airgap_snapshots.Manifest.{Json}
use airgap_snapshots.Controller.Ledger.{Ledger, ledger_key}

-- What is observed of the store: the body of the ledger at a key, empty if there is none, and the
-- objects under a prefix.
pub record Shelf : Type 0 where
  pub ledger : Text → Text
  pub objects : Text → List ObjectInfo

-- What `encoding/json` documents of the ledger's type; a document is never empty.
pub record LedgerJson (json : Json Ledger) : Type 0 where
  pub decode-encode : (l : Ledger) (t : Text) → json.encode l ≡ ok t → json.decode t ≡ ok l
  pub nonempty : (l : Ledger) (t : Text) → json.encode l ≡ ok t → t ≢ []

module _ {W : Type 0} (observe : W → Shelf) where
  -- The store answers every look at it as it is, and has the ledger that it took.
  pub record ShelfLaws (store : Store W) : Type 0 where
    pub read :
        (key : Text) (w : W)
        → (etag : Text) × ((store.get_ledger key w).0 ≡ ok ((observe w).ledger key, etag))
    pub read_keeps : (key : Text) → Keeps observe (store.get_ledger key)
    pub written :
        (key body etag new_etag : Text) (w : W)
        → (store.put_ledger key body etag w).0 ≡ ok new_etag
        → (observe (store.put_ledger key body etag w).1).ledger key ≡ body
    pub listed : (prefix : Text) (w : W) → (store.list prefix w).0 ≡ ok ((observe w).objects prefix)
    pub list_keeps : (prefix : Text) → Keeps observe (store.list prefix)

abbrev pub keys_of : List ObjectInfo → List Text
keys_of = map (λ (o : ObjectInfo). o.key)

module _ {W : Type 0} (json : Json Ledger) (faithful : LedgerJson json) (store : Store W)
    (observe : W → Shelf) (laws : ShelfLaws observe store) (storage_location : Text) where
  abbrev key : Text
  key = ledger_key storage_location

  -- The objects have etags, and their keys are among the committed ones.
  abbrev pub Shipped : List Text → List ObjectInfo → Type 0
  Shipped keys = All (λ (o : ObjectInfo). Memᴰ o.key keys × (o.etag ≢ []))

  abbrev kopia : Text
  kopia = bytes "kopia/"

  abbrev restic : Text
  restic = bytes "restic/"
