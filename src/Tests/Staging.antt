-- ===== src/Tests/Staging.antt =====
-- Keys that are accepted, and an object that is staged.
use airgap_snapshots.Base.{◌≡◌, refl, [], ◌∷◌, All, none, ok, err, errorf}
use airgap_snapshots.Base.Text.{bytes, text_eq}
use airgap_snapshots.Base.Text.Search.{split, has_prefix}
use airgap_snapshots.Base.Text.FilePath.{slash, clean}
use airgap_snapshots.Base.Text.CleanPath.{IsPlain}
use airgap_snapshots.Objstore.{Store}
use airgap_snapshots.Peat.{FileSpec}
use airgap_snapshots.Staging.{Stager, Disk, safe_rel_path}
use airgap_snapshots.Staging.Paths.{safe_rel_path-IsPlain, safe_rel_path_idem}

escape_refused :
    safe_rel_path (bytes "a/../../b")
    ≡ err (errorf "staging: key escapes root: %q" (bytes "a/../../b" ∷ []))
unfolding safe_rel_path text_eq has_prefix clean
escape_refused = refl

safe_rel_path-IsPlain_example : All IsPlain (split (bytes "kopia/b") slash)
unfolding safe_rel_path text_eq has_prefix clean
safe_rel_path-IsPlain_example =
    safe_rel_path-IsPlain (bytes "kopia/./a//../b") (bytes "kopia/b") refl

safe_rel_path_idem_example : safe_rel_path (bytes "kopia/b") ≡ ok (bytes "kopia/b")
unfolding safe_rel_path text_eq has_prefix clean
safe_rel_path_idem_example = safe_rel_path_idem (bytes "kopia/./a//../b") (bytes "kopia/b") refl

-- A disk that takes everything, in a world that is nothing.
abbrev disk : Disk (Unit {0})
disk = record {
  make_dirs = λ d w. (ok tt, w);
  create_temp = λ d p w. (ok (bytes "tmp"), w);
  write_file = λ f c w. (ok tt, w);
  close_file = λ f w. (ok tt, w);
  rename = λ f g w. (ok tt, w);
  remove = λ f w. (ok tt, w);
}

abbrev store : Store (Unit {0})
store = record {
  list = λ prefix w. (ok [], w);
  open_object = λ k w. (ok (λ v. (ok (1 ∷ 2 ∷ 3 ∷ []), v)), w);
  put = λ k r n t w. (ok tt, w);
  stat = λ k w. (ok none, w);
  get_ledger = λ k w. (ok ([], []), w);
  put_ledger = λ k body etag w. (ok [], w);
}

abbrev stager : Stager
stager = record { root_name = bytes "snapback"; root_path = bytes "/outbox" }

abbrev staged_spec : FileSpec
staged_spec = record {
  root_name = bytes "snapback";
  relative_path = bytes "kopia/b";
  size = 3;
  sha256 = 1 ∷ 2 ∷ 3 ∷ [];
  content_type = [];
  display_name = bytes "b";
}
