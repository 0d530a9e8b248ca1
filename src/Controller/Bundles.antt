-- ===== src/Controller/Bundles.antt =====
-- src/internal/controller/backupreplication_controller.go: one bundle. Its name, its outcome, and the
-- manifest entries of its files.
pub mod Outcome
pub mod Entries
pub mod Names
use airgap_snapshots.Base.{
  ℕ, Bool, true, false, ◌&&◌, ◌||◌, not, ltb, List, [], ◌∷◌, ◌++◌, Option, none, some, map,
  if◌then◌else◌, length, get_elem?,
}
use airgap_snapshots.Base.Integer.{ℤ, pos, to_int64, to_int32, add_int64}
use airgap_snapshots.Base.Text.{Text, bytes, text_eq}
use airgap_snapshots.Base.Text.FilePath.{base}
use airgap_snapshots.Base.Text.Encode.{decimal_4, hex}
use airgap_snapshots.Api.Replication.{BundlePhase, BundleStatus}
use airgap_snapshots.Batching.{Batch}
use airgap_snapshots.Manifest.{FileEntry}
use airgap_snapshots.Peat.{
  Priority, low, routine, priority, critical, bulk, DistributionStatus, completed, failed,
  cancelled, pending, in_progress, FileSpec, AttachmentHandle, SendResult, Progress,
}

-- `mapPriority`
unfoldable pub map_priority : Text → Priority
unfolding text_eq
map_priority p =
    if text_eq p (bytes "Low")
    then low
    else if text_eq p (bytes "Routine")
    then routine
    else if text_eq p (bytes "Priority")
    then priority
    else if text_eq p (bytes "Critical")
    then critical
    else bulk

-- `fmt.Sprintf("%s-%04d", br.Name, i)`
unfoldable pub bundle_name : Text → ℕ → Text
unfolding decimal_4
bundle_name name i = name ++ b'-' ∷ decimal_4 i

unfoldable pub is_completed : DistributionStatus → Bool
is_completed completed = true
is_completed pending = false
is_completed in_progress = false
is_completed failed = false
is_completed cancelled = false

-- `p.Status == peat.StatusFailed || p.Status == peat.StatusCancelled`
unfoldable pub is_failed : DistributionStatus → Bool
is_failed failed = true
is_failed cancelled = true
is_failed pending = false
is_failed in_progress = false
is_failed completed = false

-- The variables of the loop of `summarize`.
pub record Tally : Type 0 where
  pub bytes : ℤ
  pub ids : List Text
  pub all_completed : Bool
  pub any_failed : Bool

abbrev pub start_tally : Tally
start_tally = record { bytes = pos 0; ids = []; all_completed = true; any_failed = false }

-- One round of the loop.
unfoldable pub tally_one : Tally → Progress → Tally
unfolding is_completed is_failed add_int64 to_int64
tally_one t p = record {
  bytes = add_int64 t.bytes (to_int64 p.bytes_transferred);
  ids = t.ids ++ p.distribution_id ∷ [];
  all_completed = if not (is_completed p.status) then false else t.all_completed;
  any_failed = if is_failed p.status then true else t.any_failed;
}

unfoldable pub tally_all : Tally → List Progress → Tally
unfolding tally_one
tally_all t [] = t
tally_all t (p ∷ progs) = tally_all (tally_one t p) progs

-- `summarize`
unfoldable pub summarize : List Progress → BundlePhase × ℤ × List Text
unfolding tally_all
summarize progs =
    let t = tally_all start_tally progs in
    if t.any_failed
    then (BundlePhase.failed, t.bytes, t.ids)
    else if t.all_completed && ltb 0 (length progs)
    then (BundlePhase.completed, t.bytes, t.ids)
    else (BundlePhase.in_progress, t.bytes, t.ids)

abbrev pub entry_of : FileSpec → AttachmentHandle → FileEntry
entry_of f h = record {
  key = f.relative_path;
  basename = base f.relative_path;
  sha256 = hex f.sha256;
  size = to_int64 f.size;
  distribution_id = h.distribution_id;
  blob_token = h.blob_token;
}

-- The body of the loop over the handles, on the file of the handle's index.
unfoldable pub add_entry : Option FileSpec → AttachmentHandle → List FileEntry → List FileEntry
unfolding hex base to_int64
add_entry none h rest = rest
add_entry (some f) h rest = entry_of f h ∷ rest

-- The loop over the handles: a handle whose index is out of range is passed over.
unfoldable pub entries_of : List FileSpec → List AttachmentHandle → List FileEntry
unfolding add_entry
entries_of files [] = []
entries_of files (h ∷ handles) =
    add_entry (get_elem? files h.file_index) h (entries_of files handles)

-- The status of a bundle once its distributions are terminal.
unfoldable pub status_of : Text → Batch → List Progress → BundleStatus
unfolding summarize to_int32 to_int64
status_of name b progs =
    let (phase, transferred, ids) = summarize progs in
    record {
      bundle_id = name;
      file_count = to_int32 (length b.files);
      bytes = to_int64 b.bytes;
      phase = phase;
      distribution_ids = ids;
      bytes_transferred = transferred;
    }

-- `bs.Phase == BundleCompleted`
unfoldable pub is_done : BundleStatus → Bool
is_done bs = elim bs.phase [
  | BundlePhase.completed ↦ true
  | BundlePhase.pending ↦ false
  | BundlePhase.in_progress ↦ false
  | BundlePhase.failed ↦ false
  | BundlePhase.cancelled ↦ false
]
