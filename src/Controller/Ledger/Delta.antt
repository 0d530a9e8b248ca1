-- ===== src/Controller/Ledger/Delta.antt =====
-- src/internal/controller/backupreplication_controller.go: the delta against a committed ledger.
use mathlib.Core.List.{Memᴰ}
use airgap_snapshots.Base.{
  ◌≡◌, ◌≢◌, refl, ap, ◌∙◌, Bool, true, false, List, [], ◌∷◌, some, map, All, if◌then◌else◌,
}
use airgap_snapshots.Base.Dict.{lookup, insert, lookup-insert}
use airgap_snapshots.Base.Text.{Text, text_eq, text_eq_refl}
use airgap_snapshots.Base.Text.Words.{text_eq_nil}
use airgap_snapshots.Objstore.{ObjectInfo}
use airgap_snapshots.Controller.Ledger.{
  Ledger, empty_entry, has_etag, is_seen, unseen_keys, record_keys,
}

-- What the ledger says of a key, once it is recorded, is the empty entry.
abbrev IsBlank : Text → Ledger → Type 0
IsBlank k ledger = lookup k ledger ≡ some empty_entry

insert-IsBlank :
    (k j : Text) (ledger : Ledger) → IsBlank k ledger → IsBlank k (insert j empty_entry ledger)
insert-IsBlank k j ledger h = lookup-insert j k empty_entry ledger ∙ either (text_eq j k) h
  where
    either :
        (b : Bool)
        → IsBlank k ledger
        → (if b then some empty_entry else lookup k ledger) ≡ some empty_entry
    either true h = refl
    either false h = h

record_keys-kept :
    (keys : List Text) (k : Text) (ledger : Ledger)
    → IsBlank k ledger
    → IsBlank k (record_keys keys ledger)
unfolding record_keys
record_keys-kept [] k ledger h = h
record_keys-kept (j ∷ keys) k ledger h =
    record_keys-kept keys k (insert j empty_entry ledger) (insert-IsBlank k j ledger h)

record_keys-IsBlank :
    (keys : List Text) (k : Text) (ledger : Ledger)
    → Memᴰ k keys
    → IsBlank k (record_keys keys ledger)
unfolding record_keys
record_keys-IsBlank [] k ledger m = elim m [ ]
record_keys-IsBlank (j ∷ keys) k ledger (Memᴰ.head e) =
    record_keys-kept keys k (insert j empty_entry ledger)
      (lookup-insert j k empty_entry ledger ∙ (rw (e, text_eq_refl j) refl))
record_keys-IsBlank (j ∷ keys) k ledger (Memᴰ.tail m) =
    record_keys-IsBlank keys k (insert j empty_entry ledger) m

blank_unseen :
    (o : ObjectInfo) (ledger : Ledger)
    → IsBlank o.key ledger
    → o.etag ≢ []
    → is_seen ledger o ≡ false
unfolding is_seen has_etag
blank_unseen o ledger h n = rw h (text_eq_nil o.etag n)

-- If the listed objects have etags and their keys were all recorded, then the delta against the
-- ledger after the recording is the keys of all of them, in the order of the listing.
pub unseen_keys-recorded :
    (keys : List Text) (ledger : Ledger) (objs : List ObjectInfo)
    → All (λ (o : ObjectInfo). Memᴰ o.key keys × (o.etag ≢ [])) objs
    → unseen_keys (record_keys keys ledger) objs ≡ map (λ (o : ObjectInfo). o.key) objs
unfolding unseen_keys
unseen_keys-recorded keys ledger [] h = refl
unseen_keys-recorded keys ledger (o ∷ objs) ((m, n), h) =
    let blank = record_keys-IsBlank keys o.key ledger m in
    rw (blank_unseen o (record_keys keys ledger) blank n)
      (ap (◌∷◌ o.key) (unseen_keys-recorded keys ledger objs h))
