-- ===== src/Peat.antt =====
-- src/internal/peat/client.go: the types of the client seam to the peat sidecar, and the interface that
-- the controllers depend on.
pub mod Wire
pub mod Connect
use airgap_snapshots.Base.{ℕ, Bool, true, false, List, Option, M}
use airgap_snapshots.Base.Text.{Text}

pub data Priority : Type 0 where
  bulk low routine priority critical : Priority

pub data DistributionStatus : Type 0 where
  pending in_progress completed failed cancelled : DistributionStatus

-- `Terminal`: the status will not change further.
unfoldable pub terminal : DistributionStatus → Bool
terminal completed = true
terminal failed = true
terminal cancelled = true
terminal pending = false
terminal in_progress = false

pub record FileSpec : Type 0 where
  pub root_name : Text
  pub relative_path : Text
  pub size : ℕ
  pub sha256 : Text
  pub content_type : Text
  pub display_name : Text

pub record Scope : Type 0 where
  pub all_nodes : Bool
  pub node_ids : List Text

pub record AttachmentHandle : Type 0 where
  pub file_index : ℕ
  pub blob_token : Text
  pub distribution_id : Text

pub record SendResult : Type 0 where
  pub bundle_id : Text
  pub handles : List AttachmentHandle

pub record Progress : Type 0 where
  pub distribution_id : Text
  pub status : DistributionStatus
  pub bytes_transferred : ℕ
  pub bytes_total : ℕ
  pub message : Text

pub record NodeStatus : Type 0 where
  pub node_id : Text
  pub endpoint_addr : Text
  pub sync_active : Bool
  pub connected_peers : ℕ
  pub phase : Text

-- The interface `Client`, over an unknown world `W`.
pub record Client (W : Type 0) : Type 0 where
  pub node_status : M W NodeStatus
  pub ensure_peer : Text → List Text → Text → M W (Unit {0})
  pub send_attachments : Text → List FileSpec → Scope → Priority → M W SendResult
  pub get_distribution : Text → M W Progress
  pub wait_bundle : Text → M W (List Progress)
  pub put_document : Text → Text → Text → M W (Unit {0})
  pub get_document : Text → Text → M W (Option Text)
  pub list_documents : Text → M W (List Text)
