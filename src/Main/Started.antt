-- ===== src/Main/Started.antt =====
-- src/cmd/main.go: what has been set up by the time that the manager runs.
use airgap_snapshots.Base.{◌≡◌, ◌≢◌, List, [], ◌∷◌, All, ok}
use airgap_snapshots.Base.Text.{Text, bytes}
use airgap_snapshots.Controller.Import.{ImportOptions}
use airgap_snapshots.Main.{
  Role, role_source, role_destination, Runnable, backup_reconciler, backup_replication_reconciler,
  backup_import_reconciler, manifest_bridge, System, Manager, CommandLine, build_import_options,
}

module _ {W : Type 0} (system : System W) (manager : Manager W) where
  -- The manager took the runnable.
  abbrev IsRegistered : Runnable → Type 0
  IsRegistered r = (w : W) × ((manager.register r w).0 ≡ ok tt)

  role_texts : Role → Text
  role_texts role_source = bytes "source"
  role_texts role_destination = bytes "destination"

  -- What runs in the role of the flags.
  pub data Runs (flags : CommandLine) : List Runnable → Type 0 where
    source :
        flags.role ≡ bytes "source"
        → Runs flags (backup_reconciler ∷ backup_replication_reconciler ∷ [])
    destination :
        (opts : ImportOptions) (w : W)
        → flags.role ≡ bytes "destination"
        → flags.destination.endpoint ≢ []
        → flags.destination.bucket ≢ []
        → (build_import_options system flags.destination w).0 ≡ ok opts
        → Runs flags (backup_import_reconciler opts ∷ manifest_bridge opts ∷ [])

  -- What has been done when the program has run to its end.
  pub record Started (flags : CommandLine) : Type 0 where
    pub rs : List Runnable
    pub runs : Runs flags rs
    pub registered : All IsRegistered rs
    pub healthz : (w : W) × ((manager.add_healthz_check w).0 ≡ ok tt)
    pub readyz : (w : W) × ((manager.add_readyz_check w).0 ≡ ok tt)
    pub started : (w : W) × ((manager.start w).0 ≡ ok tt)
