-- ===== src/Tests/Reshipped.antt =====
-- A store with one object of a repository, which is shipped and committed.
use airgap_snapshots.Base.{Bool, ◌&&◌, [], ◌∷◌, if◌then◌else◌, Result, ok, err, external}
use airgap_snapshots.Base.Integer.{pos, int_eq}
use airgap_snapshots.Base.Text.{Text, bytes, text_eq}
use airgap_snapshots.Objstore.{ObjectInfo, Store}
use airgap_snapshots.Manifest.{Json}
use airgap_snapshots.Controller.Ledger.{Ledger, LedgerEntry, empty_entry, commit_ledger}
use airgap_snapshots.Controller.Ledger.Reshipped.{Shelf}
use airgap_snapshots.Tests.Cluster.{unused}

abbrev is_blank : LedgerEntry → Bool
is_blank e = text_eq e.etag [] && int_eq e.size (pos 0)

-- A codec of ledgers with one blank entry.
abbrev encode : Ledger → Result Text
encode [] = err (external "unsupported")
encode ((k, e) ∷ []) = if is_blank e then ok (b'=' ∷ k) else err (external "unsupported")
encode (x ∷ y ∷ l) = err (external "unsupported")

abbrev decode : Text → Result Ledger
decode [] = err (external "unsupported")
decode (c ∷ k) = ok ((k, empty_entry) ∷ [])

abbrev codec : Json Ledger
codec = record { encode = encode; decode = decode }

abbrev store : Store Shelf
store = record {
  list = λ prefix s. (ok (s.objects prefix), s);
  open_object = λ k. unused;
  put = λ k r n t. unused;
  stat = λ k. unused;
  get_ledger = λ key s. (ok (s.ledger key, []), s);
  put_ledger = λ key body etag s.
      (ok (bytes "e"), record s { ledger = λ k. if text_eq key k then body else s.ledger k });
}

abbrev pack_file : ObjectInfo
pack_file = record { key = bytes "kopia/p"; size = pos 3; etag = bytes "abc"; last_modified = 0 }

abbrev shelf : Shelf
shelf = record {
  ledger = λ key. [];
  objects = λ prefix. if text_eq prefix (bytes "kopia/") then pack_file ∷ [] else [];
}

abbrev committed : Shelf
committed = (commit_ledger codec store (bytes "default") (bytes "kopia/p" ∷ []) shelf).1
