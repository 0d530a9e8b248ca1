-- ===== src/Controller/Bridge/Names.antt =====
-- src/internal/controller/backupimport_controller.go: the names of `importName`.
use airgap_snapshots.Base.{
  ◌≡◌, ◌≢◌, sym, ap, [], ◌∷◌, ◌++◌, append_assoc, length, take, ltb, if◌then◌else◌,
}
use airgap_snapshots.Base.Text.{Text}
use airgap_snapshots.Base.Text.Search.{Lacks}
use airgap_snapshots.Base.Text.FilePath.{slash}
use airgap_snapshots.Manifest.{doc_id}
use airgap_snapshots.Manifest.Names.{doc_id_injective}
use airgap_snapshots.Controller.Bridge.{import_name}

longer : (a c : Text) → a ≢ a ++ b'-' ∷ c
longer [] c e = cc e
longer (x ∷ a) c e = longer a c (cc e)

-- For storage locations without a slash: a dash moved from the backup's name to the storage
-- location's gives the same import name, though the manifests have different document ids.
pub import_name-collides :
    (a b c : Text)
    → Lacks slash a
    → Lacks slash (a ++ b'-' ∷ b)
    → (import_name a (b ++ b'-' ∷ c) ≡ import_name (a ++ b'-' ∷ b) c)
      × (doc_id a (b ++ b'-' ∷ c) ≢ doc_id (a ++ b'-' ∷ b) c)
unfolding import_name
import_name-collides a b c h k = (
  ap shorten (sym (append_assoc a (b'-' ∷ b) (b'-' ∷ c))),
  λ e. longer a b (doc_id_injective a (a ++ b'-' ∷ b) (b ++ b'-' ∷ c) c h k e).0,
)
  where
    shorten : Text → Text
    shorten n = if ltb 253 (length n) then take 253 n else n
