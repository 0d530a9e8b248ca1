-- ===== src/Tests/Controller.antt =====
-- The controllers' parts on small inputs.
use airgap_snapshots.Base.{ℕ, ◌≡◌, ◌≢◌, ◌↔◌, refl, List, [], ◌∷◌, ◌++◌, map, All}
use airgap_snapshots.Base.Text.{Text, bytes}
use airgap_snapshots.Api.Replication.{BundlePhase}
use airgap_snapshots.Manifest.{doc_id}
use airgap_snapshots.Peat.{Progress, completed, FileSpec, AttachmentHandle}
use airgap_snapshots.Controller.Bundles.{summarize}
use airgap_snapshots.Controller.Bundles.Outcome.{summarize-completed}
use airgap_snapshots.Controller.Bundles.Names.{bundle_name_injective}
use airgap_snapshots.Controller.Bridge.{import_name}
use airgap_snapshots.Controller.Bridge.Names.{import_name-collides}

abbrev two_done : List Progress
two_done =
    record {
      distribution_id = bytes "d1";
      status = completed;
      bytes_transferred = 5;
      bytes_total = 5;
      message = [];
    }
    ∷ record {
      distribution_id = bytes "d2";
      status = completed;
      bytes_transferred = 7;
      bytes_total = 7;
      message = [];
    }
    ∷ []

summarize-completed_example :
    (((summarize two_done).0 ≡ BundlePhase.completed)
      ↔ ((two_done ≢ []) × All (λ (p : Progress). p.status ≡ completed) two_done))
    × ((summarize two_done).2 ≡ map (λ (p : Progress). p.distribution_id) two_done)
summarize-completed_example = summarize-completed two_done

abbrev file : Text → FileSpec
file path = record {
  root_name = bytes "snapback";
  relative_path = path;
  size = 3;
  sha256 = 1 ∷ [];
  content_type = [];
  display_name = [];
}

abbrev two_files : List FileSpec
two_files = file (bytes "kopia/p") ∷ file (bytes "kopia/q") ∷ []

abbrev handle : ℕ → AttachmentHandle
handle i = record { file_index = i; blob_token = bytes "t"; distribution_id = bytes "d" }

bundle_name_injective_example : (bytes "nightly" ≡ bytes "nightly") × (◌≡◌ {A = ℕ} 12 12)
bundle_name_injective_example = bundle_name_injective (bytes "nightly") (bytes "nightly") 12 12 refl

import_name-collides_example :
    (import_name (bytes "a") (bytes "b" ++ b'-' ∷ bytes "c")
      ≡ import_name (bytes "a" ++ b'-' ∷ bytes "b") (bytes "c"))
    × (doc_id (bytes "a") (bytes "b" ++ b'-' ∷ bytes "c")
        ≢ doc_id (bytes "a" ++ b'-' ∷ bytes "b") (bytes "c"))
import_name-collides_example =
    import_name-collides (bytes "a") (bytes "b") (bytes "c") (refl, tt) (refl, (refl, (refl, tt)))
