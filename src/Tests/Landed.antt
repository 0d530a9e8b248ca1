-- ===== src/Tests/Landed.antt =====
-- The pass of the importer once all files have landed.
use mathlib.Core.Path.{subst}
use airgap_snapshots.Base.{◌≡◌, refl, true, [], ◌∷◌, All, ok, length}
use airgap_snapshots.Base.Dict.{lookup}
use airgap_snapshots.Base.Integer.{pos, int_eq_refl}
use airgap_snapshots.Base.Text.{text_eq}
use airgap_snapshots.Base.Text.FilePath.{join_path}
use airgap_snapshots.Base.Text.Encode.{hex}
use airgap_snapshots.Objstore.{Reader}
use airgap_snapshots.Importer.{Summary}
use airgap_snapshots.Importer.Pass.{import_files}
use airgap_snapshots.Importer.Effect.{Present}
use airgap_snapshots.Importer.Progress.{Works, HasLanded}
use airgap_snapshots.Importer.Complete.{import_files_commits}
use airgap_snapshots.Tests.World.{
  World, observe, inbox, store, inbox_laws, store_laws, opened-reader, read_file,
}
use airgap_snapshots.Tests.Importer.{root, manifest, landed_world, size_of, sized}

works : Works observe inbox store
works = record {
  stat = λ k w. (_, refl);
  stat_file = λ p c w h. rw h refl;
  open_file = λ p c w h. (read_file p, rw h refl);
  reads = λ p c w w' r opened h.
      subst (λ (r : Reader World). (r w').0 ≡ ok c) (opened-reader p (lookup p w.files) r opened)
        (rw h refl);
  put = λ k r t c w h. rw h (rw (int_eq_refl (pos (length c))) refl);
}

arrived :
    All
      (λ e.
        HasLanded hex inbox root store observe inbox_laws store_laws works e (observe landed_world))
      manifest.files
unfolding join_path lookup text_eq hex
arrived = (
  record { delivered = λ h. cc h; content = 3 ∷ []; there = refl; size = refl; sum = refl },
  (
    record { delivered = λ h. cc h; content = 1 ∷ 2 ∷ []; there = refl; size = refl; sum = refl },
    tt,
  ),
)

import_files_commits_example :
    (res : Summary) × ((import_files hex inbox root store manifest landed_world).0 ≡ ok res)
    × (res.committed ≡ true)
    × (res.files_imported ≡ 2)
    × (res.pending ≡ 0)
    × All
        (λ e. Present hex e (observe (import_files hex inbox root store manifest landed_world).1))
        manifest.files
import_files_commits_example =
    import_files_commits hex inbox root store observe inbox_laws store_laws works size_of manifest
      landed_world sized arrived
