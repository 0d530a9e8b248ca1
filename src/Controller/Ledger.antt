-- ===== src/Controller/Ledger.antt =====
-- src/internal/controller/backupreplication_controller.go: the ledger of what a storage location has
-- replicated, and the delta of a backup against it.
pub mod Delta
pub mod Reshipped
use airgap_snapshots.Base.{
  Bool, true, false, not, List, [], ◌∷◌, ◌++◌, Option, none, some, map, if◌then◌else◌, Result, ok,
  M, pure, lift, with_context, wrapf, ◌>>=◌, ◌>>◌, map_m, concat,
}
use airgap_snapshots.Base.Integer.{ℤ, pos}
use airgap_snapshots.Base.Dict.{Dict, lookup, insert}
use airgap_snapshots.Base.Text.{Text, bytes, text_eq}
use airgap_snapshots.Objstore.{ObjectInfo, Store}
use airgap_snapshots.Manifest.{Json}

-- `ledgerEntry`
pub record LedgerEntry : Type 0 where
  pub etag : Text
  pub size : ℤ

abbrev pub Ledger : Type 0
Ledger = Dict LedgerEntry

abbrev pub empty_entry : LedgerEntry
empty_entry = record { etag = []; size = pos 0 }

-- `ledgerKey`
unfoldable pub ledger_key : Text → Text
ledger_key bsl = bytes "snapback/ledger/" ++ bsl ++ bytes ".json"

unfoldable pub has_etag : Option LedgerEntry → ObjectInfo → Bool
unfolding text_eq
has_etag none o = false
has_etag (some e) o = text_eq e.etag o.etag

-- `seen && e.ETag == o.ETag`
unfoldable pub is_seen : Ledger → ObjectInfo → Bool
unfolding lookup has_etag
is_seen ledger o = has_etag (lookup o.key ledger) o

-- The keys of the objects that the ledger has not seen.
unfoldable pub unseen_keys : Ledger → List ObjectInfo → List Text
unfolding is_seen
unseen_keys ledger [] = []
unseen_keys ledger (o ∷ objs) =
    let rest = unseen_keys ledger objs in if is_seen ledger o then rest else o.key ∷ rest

-- The loop of `commitLedger` over the shipped keys.
unfoldable pub record_keys : List Text → Ledger → Ledger
unfolding insert
record_keys [] ledger = ledger
record_keys (k ∷ keys) ledger = record_keys keys (insert k empty_entry ledger)

module _ {W : Type 0} (json : Json Ledger) (store : Store W) where
  unfoldable pub parse_ledger : Text → Result Ledger
  parse_ledger [] = ok []
  parse_ledger (c ∷ body) = json.decode (c ∷ body)

  -- One of the two repositories.
  unfoldable pub unseen_under : Ledger → Text → M W (List Text)
  unfolding unseen_keys
  unseen_under ledger prefix =
      with_context (wrapf "list %s: %w" (prefix ∷ [])) (store.list prefix) >>= λ objs.
      pure (unseen_keys ledger objs)

  -- `enumerateDelta`, for a storage location and a backup
  unfoldable pub enumerate_delta : Text → Text → M W (List Text)
  unfolding ledger_key parse_ledger unseen_under
  enumerate_delta storage_location backup_name = do
    (body, _) ←
        with_context (wrapf "load ledger: %w" []) (store.get_ledger (ledger_key storage_location))
    ledger ← with_context (wrapf "parse ledger: %w" []) (lift (parse_ledger body))
    meta ←
        with_context (wrapf "list backup metadata: %w" [])
          (store.list (bytes "backups/" ++ backup_name ++ bytes "/"))
    repos ← map_m (unseen_under ledger) (bytes "kopia/" ∷ bytes "restic/" ∷ [])
    pure (map (λ (o : ObjectInfo). o.key) meta ++ concat repos)

  -- `commitLedger`
  unfoldable pub commit_ledger : Text → List Text → M W (Unit {0})
  unfolding ledger_key parse_ledger record_keys
  commit_ledger storage_location keys = do
    let key = ledger_key storage_location
    (body, etag) ← store.get_ledger key
    ledger ← lift (parse_ledger body)
    out ← lift (json.encode (record_keys keys ledger))
    _ ← store.put_ledger key out etag
    pure tt
