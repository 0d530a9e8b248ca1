-- ===== src/Batching.antt =====
-- src/internal/batching/batching.go: `Pack` groups a backup's staged files into bundles under a cap on
-- the files and a cap on the bytes of each.
pub mod Order
pub mod Bounds
pub mod Greedy
pub mod Unique
use airgap_snapshots.Base.{
  ℕ, ◌+◌, ◌^◌, Bool, ◌&&◌, ◌||◌, List, [], ◌∷◌, ◌++◌, ltb, ◌==◌, if◌then◌else◌, length,
}
use airgap_snapshots.Base.Integer.{ℤ, pos, pos_part, not_positive, add_uint64}
use airgap_snapshots.Peat.{FileSpec}

pub record Batch : Type 0 where
  pub files : List FileSpec
  pub bytes : ℕ

abbrev pub empty_batch : Batch
empty_batch = record { files = []; bytes = 0 }

-- `maxFiles`, after the default
unfoldable pub file_limit : ℤ → ℕ
unfolding not_positive
file_limit max_files = if not_positive max_files then 64 else pos_part max_files

-- `maxBytes`, after the default `1 << 30`
unfoldable pub byte_limit : ℕ → ℕ
byte_limit max_bytes = if max_bytes == 0 then 1073741824 else max_bytes

-- The variables of the loop: `batches` and `cur`.
pub record Packing : Type 0 where
  pub batches : List Batch
  pub cur : Batch

unfoldable pub flush : Packing → Packing
flush p =
    if ltb 0 (length p.cur.files)
    then record { batches = p.batches ++ p.cur ∷ []; cur = empty_batch }
    else p

unfoldable pub add_file : Packing → FileSpec → Packing
unfolding add_uint64
add_file p f = record p {
  cur = record { files = p.cur.files ++ f ∷ []; bytes = add_uint64 p.cur.bytes f.size };
}

-- `wouldExceedFiles || wouldExceedBytes`
unfoldable pub would_exceed : ℕ → ℕ → Batch → FileSpec → Bool
unfolding add_uint64
would_exceed max_files max_bytes cur f =
    ltb max_files (length cur.files + 1)
    || ltb 0 (length cur.files) && ltb max_bytes (add_uint64 cur.bytes f.size)

-- One round of the loop over `files`.
unfoldable pub pack_step : ℕ → ℕ → Packing → FileSpec → Packing
unfolding would_exceed flush add_file
pack_step max_files max_bytes p f =
    add_file (if would_exceed max_files max_bytes p.cur f then flush p else p) f

unfoldable pub pack_loop : ℕ → ℕ → Packing → List FileSpec → Packing
unfolding pack_step
pack_loop max_files max_bytes p [] = p
pack_loop max_files max_bytes p (f ∷ files) =
    pack_loop max_files max_bytes (pack_step max_files max_bytes p f) files

unfoldable pub pack : List FileSpec → ℤ → ℕ → List Batch
unfolding pack_loop file_limit byte_limit flush
pack files max_files max_bytes =
    (flush (
      pack_loop (file_limit max_files) (byte_limit max_bytes)
        (record { batches = []; cur = empty_batch }) files)).batches
