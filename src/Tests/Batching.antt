-- ===== src/Tests/Batching.antt =====
-- Packing three files under a cap of two files and ten bytes.
use airgap_snapshots.Base.{ℕ, ◌≡◌, refl, inl, inr, List, [], ◌∷◌, arith, All}
use airgap_snapshots.Base.Integer.{pos}
use airgap_snapshots.Base.Text.{bytes}
use airgap_snapshots.Peat.{FileSpec}
use airgap_snapshots.Batching.{Batch, would_exceed, file_limit, byte_limit, pack}
use airgap_snapshots.Batching.Order.{batch_files, batch_files-pack}
use airgap_snapshots.Batching.Bounds.{IsWithin, pack-IsWithin}
use airgap_snapshots.Batching.Greedy.{IsGreedy}
use airgap_snapshots.Batching.Unique.{pack_unique}

abbrev sized : ℕ → FileSpec
sized n = record {
  root_name = bytes "outbox";
  relative_path = bytes "a";
  size = n;
  sha256 = [];
  content_type = [];
  display_name = [];
}

abbrev three_files : List FileSpec
three_files = sized 4 ∷ sized 7 ∷ sized 20 ∷ []

batch_files-pack_example : batch_files (pack three_files (pos 2) 10) ≡ three_files
batch_files-pack_example = batch_files-pack three_files (pos 2) 10

pack-IsWithin_example :
    All (IsWithin (file_limit (pos 2)) (byte_limit 10)) (pack three_files (pos 2) 10)
pack-IsWithin_example =
    pack-IsWithin three_files (pos 2) 10 (omega arith, (omega arith, (omega arith, tt)))
      (omega arith)

abbrev alone : ℕ → Batch
alone n = record { files = sized n ∷ []; bytes = n }

abbrev three_batches : List Batch
three_batches = alone 4 ∷ alone 7 ∷ alone 20 ∷ []

within : All (IsWithin (file_limit (pos 2)) (byte_limit 10)) three_batches
unfolding file_limit byte_limit
within = (
  record {
    nonempty = omega arith;
    file_cap = omega arith;
    byte_cap = inl (omega arith);
    exact = refl;
  },
  (
    record {
      nonempty = omega arith;
      file_cap = omega arith;
      byte_cap = inl (omega arith);
      exact = refl;
    },
    (
      record { nonempty = omega arith; file_cap = omega arith; byte_cap = inr refl; exact = refl },
      tt,
    ),
  ),
)

greedy : IsGreedy (file_limit (pos 2)) (byte_limit 10) three_batches
unfolding file_limit byte_limit would_exceed
greedy = (refl, (refl, tt))

pack_unique_example : three_batches ≡ pack three_files (pos 2) 10
pack_unique_example =
    pack_unique three_files (pos 2) 10 three_batches (omega arith, (omega arith, (omega arith, tt)))
      (omega arith) refl within greedy
