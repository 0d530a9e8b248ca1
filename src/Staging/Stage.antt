-- ===== src/Staging/Stage.antt =====
-- src/internal/staging/outbox.go: the file specs that `StageObject` returns.
use airgap_snapshots.Base.{◌≡◌, [], ◌∷◌, ok}
use airgap_snapshots.Base.Text.{Text}
use airgap_snapshots.Base.Text.FilePath.{join_path}
use airgap_snapshots.Objstore.{Store, Reader}
use airgap_snapshots.Peat.{FileSpec}
use airgap_snapshots.Staging.{Stager, Disk, safe_rel_path, spec_of}

module _ {W : Type 0} (sha256 : Text → Text) (disk : Disk W) where
  -- The content of a reader went through a temporary file to `dst`.
  pub record Filled (reader : Reader W) (dst content : Text) : Type 0 where
    pub temp : Text
    pub before : W
    pub was_read : (reader before).0 ≡ ok content
    pub was_written : (w : W) × ((disk.write_file temp content w).0 ≡ ok tt)
    pub was_closed : (w : W) × ((disk.close_file temp w).0 ≡ ok tt)
    pub was_renamed : (w : W) × ((disk.rename temp dst w).0 ≡ ok tt)

  -- What `StageObject` says with the file spec that it returns.
  pub record Staged (s : Stager) (store : Store W) (key : Text) (f : FileSpec) : Type 0 where
    pub rel : Text
    pub safe : safe_rel_path key ≡ ok rel
    pub content : Text
    pub spec : f ≡ spec_of sha256 disk s rel content
    pub reader : Reader W
    pub was_opened : (w : W) × ((store.open_object key w).0 ≡ ok reader)
    pub filled : Filled reader (join_path (s.root_path ∷ rel ∷ [])) content
