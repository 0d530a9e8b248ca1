-- ===== src/Staging.antt =====
-- src/internal/staging/outbox.go: objects of the storage location are streamed into the outbox that the
-- peat sidecar serves. The file system and SHA-256 are arguments.
pub mod Paths
pub mod Stage
use airgap_snapshots.Base.{
  ℕ, Bool, ◌||◌, List, [], ◌∷◌, ◌++◌, ◌%◌, if◌then◌else◌, length, Failure, errorf, wrapf, Result,
  ok, err, M, pure, lift, with_context, finally, on_failure, ◌>>=◌, ◌>>◌,
}
use airgap_snapshots.Base.Text.{Text, bytes, text_eq}
use airgap_snapshots.Base.Text.Search.{has_prefix}
use airgap_snapshots.Base.Text.FilePath.{slash, dot, dot_dot, clean, base, dir, join_path}
use airgap_snapshots.Objstore.{Store, Reader}
use airgap_snapshots.Peat.{FileSpec}

-- `safeRelPath`
unfoldable pub safe_rel_path : Text → Result Text
safe_rel_path key =
    if text_eq key []
    then err (errorf "staging: empty object key" [])
    else if has_prefix key (slash ∷ [])
    then err (errorf "staging: key must be relative: %q" (key ∷ []))
    else let cleaned = clean key in
      if text_eq cleaned dot
        || text_eq cleaned dot_dot
        || has_prefix cleaned (dot_dot ++ slash ∷ [])
      then err (errorf "staging: key escapes root: %q" (key ∷ []))
      else ok cleaned

pub record Stager : Type 0 where
  pub root_name : Text
  pub root_path : Text

-- The calls of package `os` that the stager makes. `create_temp` returns the name of the new file,
-- and `write_file` is the writing half of `io.Copy`.
pub record Disk (W : Type 0) : Type 0 where
  pub make_dirs : Text → M W (Unit {0})
  pub create_temp : Text → Text → M W Text
  pub write_file : Text → Text → M W (Unit {0})
  pub close_file : Text → M W (Unit {0})
  pub rename : Text → Text → M W (Unit {0})
  pub remove : Text → M W (Unit {0})

module _ {W : Type 0} (sha256 : Text → Text) (disk : Disk W) where
  -- From the copy to the rename, on the temporary file; the result is what was copied.
  unfoldable pub fill_temp : Reader W → Text → Text → Text → M W Text
  fill_temp reader key temp dst = do
    content ← with_context (wrapf "staging: copy %q: %w" (key ∷ [])) (
        on_failure (reader >>= λ content. disk.write_file temp content >> pure content)
          (disk.close_file temp))
    with_context (wrapf "staging: close %q: %w" (key ∷ [])) (disk.close_file temp)
    with_context (wrapf "staging: rename %q: %w" (key ∷ [])) (disk.rename temp dst)
    pure content

  abbrev spec_of : Stager → Text → Text → FileSpec
  spec_of s rel content = record {
    root_name = s.root_name;
    relative_path = rel;
    size = length content % 18446744073709551616;
    sha256 = sha256 content;
    content_type = [];
    display_name = base rel;
  }

  -- `StageObject`. The copy is under `defer os.Remove(tmpName)`, and fails if the reader does.
  unfoldable pub stage_object : Stager → Store W → Text → M W FileSpec
  unfolding fill_temp safe_rel_path
  stage_object s store key = do
    rel ← lift (safe_rel_path key)
    let dst = join_path (s.root_path ∷ rel ∷ [])
    with_context (wrapf "staging: mkdir for %q: %w" (key ∷ [])) (disk.make_dirs (dir dst))
    reader ← with_context (wrapf "staging: open %q: %w" (key ∷ [])) (store.open_object key)
    temp ←
        with_context (wrapf "staging: temp for %q: %w" (key ∷ []))
          (disk.create_temp (dir dst) (bytes ".staging-*"))
    content ← finally (fill_temp reader key temp dst) (disk.remove temp)
    pure (spec_of s rel content)

  -- `Release`
  unfoldable pub release : Stager → Text → M W (Unit {0})
  unfolding safe_rel_path
  release s rel_path = do
    rel ← lift (safe_rel_path rel_path)
    disk.remove (join_path (s.root_path ∷ rel ∷ []))
