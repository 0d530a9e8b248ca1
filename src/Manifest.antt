-- ===== src/Manifest.antt =====
-- src/internal/manifest/manifest.go: the document that carries, for one backup, where each shipped
-- object lands and where it is to be written. Its JSON codec (Go's encoding/json) is an argument.
pub mod Names
pub mod Codec
use airgap_snapshots.Base.{
  ℕ, Bool, List, ◌∷◌, ◌++◌, [], if◌then◌else◌, Result, ok, err, errorf, wrapf,
}
use airgap_snapshots.Base.Integer.{ℤ, pos, int_eq}
use airgap_snapshots.Base.Text.{Text, bytes}
use airgap_snapshots.Base.Text.FilePath.{slash}

abbrev pub collection : Text
collection = bytes "snapback_replications"

abbrev pub schema_version : ℤ
schema_version = pos 1

pub record FileEntry : Type 0 where
  pub key : Text
  pub basename : Text
  pub sha256 : Text
  pub size : ℤ
  pub distribution_id : Text
  pub blob_token : Text

pub record Manifest : Type 0 where
  pub version : ℤ
  pub backup_name : Text
  pub storage_location : Text
  pub bsl_prefix : Text
  pub object_count : ℕ
  pub total_bytes : ℤ
  pub completed_at : Text
  pub complete : Bool
  pub files : List FileEntry

-- `DocID`
unfoldable pub doc_id : Text → Text → Text
doc_id storage_location backup_name = storage_location ++ slash ∷ backup_name

-- `json.Marshal` and `json.Unmarshal` at one type.
pub record Json (A : Type 0) : Type 0 where
  pub encode : A → Result Text
  pub decode : Text → Result A

module _ (json : Json Manifest) where
  -- `Marshal`
  unfoldable pub marshal : Manifest → Result Text
  marshal m = json.encode m

  -- `Parse`
  unfoldable pub parse : Text → Result Manifest
  parse input = elim (json.decode input) [
    | err e ↦ err (wrapf "manifest: parse: %w" [] e)
    | ok m ↦
        if int_eq m.version schema_version
        then ok m
        else err (errorf "manifest: unsupported schemaVersion %d (want %d)" [])
  ]
