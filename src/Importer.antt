-- ===== src/Importer.antt =====
-- src/internal/importer/importer.go: a replicated backup is rebuilt in the destination store from the
-- flat inbox of the peat sidecar and the manifest. The store, the inbox and SHA-256 are arguments.
pub mod Laws
pub mod Pass
pub mod Reading
pub mod Effect
pub mod Change
pub mod Counts
pub mod Phases
pub mod Landing
pub mod Commit
pub mod Idempotent
pub mod Progress
pub mod Complete
use airgap_snapshots.Base.{
  ℕ, ◌+◌, Bool, true, false, not, ◌&&◌, List, [], ◌∷◌, ◌++◌, Option, none, some, ltb, ◌==◌,
  if◌then◌else◌, length, Failure, external, sentinel, not_landed, ledger_conflict, errorf, wrapf,
  Result, ok, err, M, pure, fail, lift, attempt, with_context, ◌>>=◌, ◌>>◌,
}
use airgap_snapshots.Base.Integer.{ℤ, pos, int_eq, add_int64}
use airgap_snapshots.Base.Dict.{Dict, lookup, insert}
use airgap_snapshots.Base.Text.{Text, bytes, text_eq}
use airgap_snapshots.Base.Text.FilePath.{base, join_path}
use airgap_snapshots.Objstore.{Store, Reader, ObjectInfo}
use airgap_snapshots.Manifest.{FileEntry, Manifest}

abbrev pub discovery_object : Text
discovery_object = bytes "velero-backup.json"

-- What `filepath.WalkDir` hands to its callback.
pub data WalkEvent : Type 0 where
  walk_missing : WalkEvent
  walk_error : Failure → WalkEvent
  walk_directory : WalkEvent
  walk_file : Text → WalkEvent

-- The calls of package `os` on the inbox; `stat_file` says whether the path is a directory.
pub record Inbox (W : Type 0) : Type 0 where
  pub stat_file : Text → M W Bool
  pub open_file : Text → M W (Reader W)
  pub walk_dir : Text → W → List WalkEvent × W

-- `inboxIndex`: the candidate paths by base name.
abbrev pub Index : Type 0
Index = Dict (List Text)

unfoldable pub candidates : Text → Index → List Text
unfolding lookup
candidates name index = elim (lookup name index) [ none ↦ [] | some paths ↦ paths ]

-- The callback of `newInboxIndex` over the events of the walk.
unfoldable pub build_index : Index → List WalkEvent → Result Index
unfolding candidates insert base
build_index index [] = ok index
build_index index (walk_missing ∷ events) = build_index index events
build_index index (walk_error e ∷ events) = err e
build_index index (walk_directory ∷ events) = build_index index events
build_index index (walk_file p ∷ events) =
    build_index (insert (base p) (candidates (base p) index ++ p ∷ []) index) events

-- `errors.Is(err, errNotLanded)`
unfoldable pub is_not_landed : Failure → Bool
is_not_landed (external _) = false
is_not_landed (sentinel not_landed) = true
is_not_landed (sentinel ledger_conflict) = false
is_not_landed (errorf _ _) = false
is_not_landed (wrapf _ _ e) = is_not_landed e

-- `Result` of the package: the summary of one pass.
pub record Summary : Type 0 where
  pub files_imported : ℕ
  pub bytes_imported : ℤ
  pub pending : ℕ
  pub committed : Bool

-- What `importOne` returns beside its error, and the index that it may have built.
pub record Imported : Type 0 where
  pub done : Bool
  pub written : ℤ
  pub index : Option Index

unfoldable pub is_discovery : FileEntry → Bool
is_discovery e = text_eq (base e.key) discovery_object

-- `ok && info.Size == e.Size`
unfoldable pub already_there : Option ObjectInfo → FileEntry → Bool
already_there none e = false
already_there (some info) e = int_eq info.size e.size

-- `err == nil && !st.IsDir()`
unfoldable pub is_plain_file : Result Bool → Bool
is_plain_file (ok directory) = not directory
is_plain_file (err _) = false

module _ {W : Type 0} (sha256_hex : Text → Text) (inbox : Inbox W) (root : Text) where
  unfoldable pub hash_file : Text → M W (Text × ℕ)
  hash_file p = do
    reader ← inbox.open_file p
    content ← reader
    pure (sha256_hex content, length content)

  -- `fileExists`
  unfoldable pub file_exists : Text → M W Bool
  unfolding is_plain_file
  file_exists p = attempt (inbox.stat_file p) >>= λ found. pure (is_plain_file found)

  -- `newInboxIndex`
  unfoldable pub new_inbox_index : M W Index
  unfolding build_index
  new_inbox_index w =
      let (events, w') = inbox.walk_dir root w in
      with_context (wrapf "scan inbox %q: %w" (root ∷ [])) (lift (build_index [] events)) w'

  unfoldable pub get_index : Option Index → M W Index
  unfolding new_inbox_index
  get_index (some index) = pure index
  get_index none = new_inbox_index

  -- `err == nil && n == e.Size && sum == e.SHA256`
  unfoldable pub has_content : FileEntry → Result (Text × ℕ) → Bool
  has_content e (err _) = false
  has_content e (ok (sum, n)) = int_eq (pos n) e.size && text_eq sum e.sha256

  unfoldable pub find_candidate : FileEntry → List Text → M W (Option Text)
  unfolding hash_file has_content
  find_candidate e [] = pure none
  find_candidate e (p ∷ paths) = attempt (hash_file p) >>= λ found.
      if has_content e found then pure (some p) else find_candidate e paths

  abbrev pub primary : FileEntry → Text
  primary e = join_path (root ∷ e.distribution_id ∷ e.basename ∷ [])

  -- `e.DistributionID != "" && fileExists(primary)`
  unfoldable pub has_primary : FileEntry → M W Bool
  unfolding file_exists text_eq
  has_primary e = if not (text_eq e.distribution_id []) then file_exists (primary e) else pure false

  -- The scan of the candidates of the index.
  unfoldable pub locate_indexed : FileEntry → Index → M W (Option Text × Option Index)
  unfolding find_candidate candidates
  locate_indexed e built =
      find_candidate e (candidates e.basename built) >>= λ path. pure (path, some built)

  -- `locate`, after the test of the primary path.
  unfoldable pub locate_after : FileEntry → Option Index → Bool → M W (Option Text × Option Index)
  unfolding get_index locate_indexed
  locate_after e index found =
      if found then pure (some (primary e), index) else get_index index >>= locate_indexed e

  -- `locate`: the path, if any, and the index if it is built by now.
  unfoldable pub locate : FileEntry → Option Index → M W (Option Text × Option Index)
  unfolding has_primary locate_after
  locate e index = has_primary e >>= locate_after e index

  unfoldable pub check_content : Text → FileEntry → Text × ℕ → Result (Unit {0})
  check_content p e (sum, n) =
      if not (int_eq (pos n) e.size)
      then err (wrapf "%w: %q size %d != manifest %d" (p ∷ []) (sentinel not_landed))
      else if not (text_eq sum e.sha256)
      then err
          (errorf "sha256 mismatch for %q: inbox %s != manifest %s" (e.key ∷ sum ∷ e.sha256 ∷ []))
      else ok tt

  unfoldable pub verify : Text → FileEntry → M W (Unit {0})
  unfolding hash_file check_content
  verify p e = do
    hashed ← with_context (wrapf "hash inbox %q: %w" (p ∷ [])) (hash_file p)
    lift (check_content p e hashed)

  module _ (store : Store W) where
    -- The upload of an opened file.
    unfoldable pub put_file : FileEntry → Option Index → Reader W → M W Imported
    put_file e index reader =
        with_context (wrapf "put dest %q: %w" (e.key ∷ [])) (store.put e.key reader e.size [])
        >>= λ _. pure (record { done = true; written = e.size; index = index })

    -- `importOne` behind `verify`, whose error is the argument.
    unfoldable pub publish : Text → FileEntry → Option Index → Result (Unit {0}) → M W Imported
    unfolding is_not_landed put_file
    publish p e index (err f) =
        if is_not_landed f
        then pure (record { done = false; written = pos 0; index = index })
        else fail f
    publish p e index (ok _) =
        with_context (wrapf "open inbox %q: %w" (p ∷ [])) (inbox.open_file p) >>= put_file e index

    unfoldable pub fetch_from : FileEntry → Option Text × Option Index → M W Imported
    unfolding verify publish
    fetch_from e (none, index) = pure (record { done = false; written = pos 0; index = index })
    fetch_from e (some p, index) = attempt (verify p e) >>= publish p e index

    -- `importOne`, after the look at the destination.
    unfoldable pub import_missing : FileEntry → Option Index → Option ObjectInfo → M W Imported
    unfolding already_there locate fetch_from
    import_missing e index info =
        if already_there info e
        then pure (record { done = true; written = pos 0; index = index })
        else locate e index >>= fetch_from e

    -- `importOne`
    unfoldable pub import_one : FileEntry → Option Index → M W Imported
    unfolding import_missing
    import_one e index =
        with_context (wrapf "stat dest %q: %w" (e.key ∷ [])) (store.stat e.key)
        >>= import_missing e index
