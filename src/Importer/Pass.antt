-- ===== src/Importer/Pass.antt =====
-- src/internal/importer/importer.go: `Import`.
use airgap_snapshots.Base.{
  ◌+◌, false, List, [], ◌∷◌, ◌++◌, Option, none, ltb, ◌==◌, if◌then◌else◌, M, pure, ◌>>=◌,
}
use airgap_snapshots.Base.Integer.{pos, add_int64}
use airgap_snapshots.Base.Text.{Text}
use airgap_snapshots.Objstore.{Store}
use airgap_snapshots.Manifest.{FileEntry, Manifest}
use airgap_snapshots.Importer.{Inbox, Index, Summary, Imported, is_discovery, import_one}

-- The variables of `Import`: `res`, `commit` and `idx`.
pub record Pass : Type 0 where
  pub res : Summary
  pub commit : List FileEntry
  pub index : Option Index

abbrev pub start_pass : Pass
start_pass = record {
  res = record { files_imported = 0; bytes_imported = pos 0; pending = 0; committed = false };
  commit = [];
  index = none;
}

-- `res.FilesImported++` and `res.BytesImported += n`, or `res.Pending++`
unfoldable pub count_one : Pass → Imported → Pass
unfolding add_int64
count_one s one =
    if one.done
    then record s {
      res = record s.res {
        files_imported = s.res.files_imported + 1;
        bytes_imported = add_int64 s.res.bytes_imported one.written;
      };
      index = one.index;
    }
    else record s { res = record s.res { pending = s.res.pending + 1 }; index = one.index }

module _ {W : Type 0} (sha256_hex : Text → Text) (inbox : Inbox W) (root : Text)
    (store : Store W) where
  abbrev one_file : FileEntry → Option Index → M W Imported
  one_file = import_one sha256_hex inbox root store

  -- One round of the first loop: discovery objects are deferred.
  unfoldable pub data_step : FileEntry → Pass → M W Pass
  unfolding is_discovery import_one count_one
  data_step e s =
      if is_discovery e
      then pure (record s { commit = s.commit ++ e ∷ [] })
      else one_file e s.index >>= λ one. pure (count_one s one)

  unfoldable pub data_phase : List FileEntry → Pass → M W Pass
  unfolding data_step
  data_phase [] s = pure s
  data_phase (e ∷ files) s = data_step e s >>= λ s'. data_phase files s'

  -- The second loop, and the flag behind it.
  unfoldable pub commit_phase : List FileEntry → Pass → M W Summary
  unfolding import_one count_one
  commit_phase [] s = pure (record s.res { committed = s.res.pending == 0 })
  commit_phase (e ∷ files) s = one_file e s.index >>= λ one.
      if one.done then commit_phase files (count_one s one) else pure (count_one s one).res

  -- `Import`, between its loops: nothing is committed while a data file is pending.
  unfoldable pub finish_pass : Pass → M W Summary
  unfolding commit_phase
  finish_pass s = if ltb 0 s.res.pending then pure s.res else commit_phase s.commit s

  -- `Import`
  unfoldable pub import_files : Manifest → M W Summary
  unfolding data_phase finish_pass
  import_files m = data_phase m.files start_pass >>= finish_pass
