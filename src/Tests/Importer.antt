-- ===== src/Tests/Importer.antt =====
-- Passes over a manifest of one data object and one discovery object, listed in the wrong order.
use airgap_snapshots.Base.{ℕ, ◌≡◌, ◌≢◌, refl, true, false, [], ◌∷◌, All, ok, if◌then◌else◌}
use airgap_snapshots.Base.Integer.{ℤ, pos, int_eq}
use airgap_snapshots.Base.Dict.{lookup}
use airgap_snapshots.Base.Text.{Text, bytes, text_eq}
use airgap_snapshots.Base.Text.Encode.{hex}
use airgap_snapshots.Base.Text.FilePath.{base, join_path}
use airgap_snapshots.Manifest.{FileEntry, Manifest}
use airgap_snapshots.Importer.Pass.{import_files}
use airgap_snapshots.Importer.Effect.{Present}
use airgap_snapshots.Importer.Change.{Change}
use airgap_snapshots.Importer.Landing.{Landed}
use airgap_snapshots.Importer.Commit.{import_files-Change, import_files-Present, import_files-gate}
use airgap_snapshots.Importer.Idempotent.{import_files-Quiet}
use airgap_snapshots.Tests.World.{
  World, observe, inbox, store, inbox_laws, store_laws, stat_answers,
}
use mathlib.Core.List.{Memᴰ}

abbrev pub root : Text
root = bytes "in"

abbrev data_entry : FileEntry
data_entry = record {
  key = bytes "kopia/a";
  basename = bytes "a";
  sha256 = hex (1 ∷ 2 ∷ []);
  size = pos 2;
  distribution_id = bytes "d1";
  blob_token = [];
}

abbrev discovery_entry : FileEntry
discovery_entry = record {
  key = bytes "backups/b/velero-backup.json";
  basename = bytes "velero-backup.json";
  sha256 = hex (3 ∷ []);
  size = pos 1;
  distribution_id = bytes "d2";
  blob_token = [];
}

abbrev pub manifest : Manifest
manifest = record {
  version = pos 1;
  backup_name = bytes "b";
  storage_location = bytes "default";
  bsl_prefix = [];
  object_count = 2;
  total_bytes = pos 3;
  completed_at = [];
  complete = true;
  files = discovery_entry ∷ data_entry ∷ [];
}

abbrev pub landed_world : World
landed_world = record {
  objects = [];
  files = (bytes "in/d1/a", 1 ∷ 2 ∷ []) ∷ (bytes "in/d2/velero-backup.json", 3 ∷ []) ∷ [];
}

-- Only the discovery object has arrived.
abbrev pub partial_world : World
partial_world = record { objects = []; files = (bytes "in/d2/velero-backup.json", 3 ∷ []) ∷ [] }

abbrev stored_world : World
stored_world = record {
  objects = (bytes "kopia/a", 1 ∷ 2 ∷ []) ∷ (bytes "backups/b/velero-backup.json", 3 ∷ []) ∷ [];
  files = [];
}

committed_pass : import_files hex inbox root store manifest landed_world ≡ (
  ok (record { files_imported = 2; bytes_imported = pos 3; pending = 0; committed = true }),
  record landed_world {
    objects = (bytes "kopia/a", 1 ∷ 2 ∷ []) ∷ (bytes "backups/b/velero-backup.json", 3 ∷ []) ∷ [];
  },
)
unfolding import_files hex join_path int_eq
committed_pass = refl

waiting_pass : import_files hex inbox root store manifest partial_world ≡ (
  ok (record { files_imported = 0; bytes_imported = pos 0; pending = 1; committed = false }),
  partial_world,
)
unfolding import_files hex join_path
waiting_pass = refl

abbrev pub size_of : Text → ℤ
size_of k = if text_eq k (bytes "kopia/a") then pos 2 else pos 1

pub sized : All (λ (e : FileEntry). e.size ≡ size_of e.key) manifest.files
unfolding text_eq
sized = (refl, (refl, tt))

abbrev after : World → World
after w = (import_files hex inbox root store manifest w).1

import_files-Present_example :
    (◌≡◌ {A = ℕ} 2 2)
    × (◌≡◌ {A = ℕ} 0 0)
    × All (λ e. Present hex e (observe (after landed_world))) manifest.files
unfolding import_files hex join_path int_eq
import_files-Present_example =
    import_files-Present hex inbox root store observe inbox_laws store_laws size_of manifest sized
      (record { files_imported = 2; bytes_imported = pos 3; pending = 0; committed = true })
      landed_world refl refl

discovery_changed :
    (observe (after landed_world)).stored (bytes "backups/b/velero-backup.json")
    ≢ (observe landed_world).stored (bytes "backups/b/velero-backup.json")
unfolding import_files hex join_path int_eq lookup
discovery_changed h = cc h

import_files-gate_example : All (Landed hex observe (after landed_world)) manifest.files
unfolding base text_eq
import_files-gate_example =
    import_files-gate hex inbox root store observe inbox_laws store_laws size_of manifest sized
      landed_world (bytes "backups/b/velero-backup.json") refl discovery_changed

import_files-Change_example :
    Change hex (λ e. Memᴰ e manifest.files) (observe landed_world) (observe (after landed_world))
import_files-Change_example =
    import_files-Change hex inbox root store observe inbox_laws store_laws manifest landed_world

all_stored : All (λ e. Present hex e (observe stored_world)) manifest.files
unfolding lookup text_eq
all_stored = ((3 ∷ [], refl, refl), ((1 ∷ 2 ∷ [], refl, refl), tt))

import_files-Quiet_example :
    ((import_files hex inbox root store manifest stored_world).0
      ≡ ok (record { files_imported = 2; bytes_imported = pos 0; pending = 0; committed = true }))
    × (observe (after stored_world) ≡ observe stored_world)
import_files-Quiet_example =
    import_files-Quiet hex inbox root store observe store_laws stat_answers manifest stored_world
      all_stored
