-- ===== src/Controller/Import/Ends.antt =====
-- src/internal/controller/backupimport_controller.go: the status updates that `Reconcile` ends in.
use Prim.Native.String.{String}
use airgap_snapshots.Base.{
  ◌≡◌, refl, ap, inl, inr, false, none, if◌then◌else◌, Bool-cases, Failure, Result,
}
use airgap_snapshots.Base.Integer.{to_int64}
use airgap_snapshots.Api.Meta.{ReconcileResult, Message}
use airgap_snapshots.Api.Import.{ImportPhase, BackupImport}
use airgap_snapshots.Importer.{Summary}
use airgap_snapshots.Manifest.{Manifest}
use airgap_snapshots.Controller.{Cluster, requeue}
use airgap_snapshots.Controller.Import.{
  is_terminal, set_import_phase, set_import_ready, update_import_and, import_wait, import_transient,
  import_failed, await_bytes, mark_imported, conclude,
}

-- The answer for an import in a phase: again in 30 seconds, and never again in a terminal phase.
abbrev pub answer_for : ImportPhase → ReconcileResult
answer_for p = if is_terminal p then record { requeue_after = none } else requeue

-- One object is another but for its status.
pub record IsSame (before after : BackupImport) : Type 0 where
  pub metadata : after.metadata ≡ before.metadata
  pub spec : after.spec ≡ before.spec

module _ {W : Type 0} (cluster : Cluster W) where
  -- A step that ends in a status update of the object `bi`, and in the answer for the phase written.
  pub data Ends (bi : BackupImport) (r : Result ReconcileResult × W) : Type 0 where
    written :
        (after : BackupImport) (w : W)
        → IsSame bi after
        → r ≡ update_import_and cluster (answer_for after.status.phase) after w
        → Ends bi r

  answer_for_going : (p : ImportPhase) → is_terminal p ≡ false → requeue ≡ answer_for p
  answer_for_going p going = rw going refl

  update-Ends :
      (bi₀ after : BackupImport) (result : ReconcileResult) (w : W)
      → result ≡ answer_for after.status.phase
      → after.metadata ≡ bi₀.metadata
      → after.spec ≡ bi₀.spec
      → Ends bi₀ (update_import_and cluster result after w)
  update-Ends bi₀ after result w h m s =
      written after w (record { metadata = m; spec = s })
        (ap (λ (a : ReconcileResult). update_import_and cluster a after w) h)

  module _ (bi₀ bi : BackupImport) (same : IsSame bi₀ bi) where
    pub import_transient-Ends :
        (reason : String) (e : Failure) (w : W)
        → is_terminal bi.status.phase ≡ false
        → Ends bi₀ (import_transient cluster bi reason e w)
    unfolding import_transient set_import_ready
    import_transient-Ends reason e w going =
        update-Ends bi₀ _ requeue w (answer_for_going bi.status.phase going) same.metadata same.spec

    pub import_wait-Ends :
        (reason : String) (message : Message) (w : W)
        → is_terminal bi.status.phase ≡ false
        → Ends bi₀ (import_wait cluster bi reason message w)
    unfolding import_wait set_import_ready
    import_wait-Ends reason message w going =
        update-Ends bi₀ _ requeue w (answer_for_going bi.status.phase going) same.metadata same.spec

    pub import_failed-Ends :
        (reason : String) (e : Failure) (w : W) → Ends bi₀ (import_failed cluster bi reason e w)
    unfolding import_failed set_import_ready set_import_phase
    import_failed-Ends reason e w = update-Ends bi₀ _ _ w refl same.metadata same.spec

    mark_imported-Ends : (w : W) → Ends bi₀ (mark_imported cluster bi w)
    unfolding mark_imported set_import_ready set_import_phase
    mark_imported-Ends w = update-Ends bi₀ _ _ _ refl same.metadata same.spec

    await_bytes-Ends :
        (m : Manifest) (res : Summary) (w : W)
        → is_terminal bi.status.phase ≡ false
        → Ends bi₀ (await_bytes cluster m res bi w)
    unfolding await_bytes set_import_ready
    await_bytes-Ends m res w going =
        update-Ends bi₀ _ requeue w (answer_for_going bi.status.phase going) same.metadata same.spec

  pub conclude-Ends :
      (bi₀ bi : BackupImport)
      → IsSame bi₀ bi
      → (m : Manifest) (res : Summary) (w : W) → is_terminal bi.status.phase ≡ false
      → Ends bi₀ (conclude cluster m bi res w)
  unfolding conclude
  conclude-Ends bi₀ bi same m res w going =
      let bi' = record bi {
        status = record bi.status {
          files_imported = to_int64 res.files_imported;
          bytes_imported = res.bytes_imported;
        };
      } in
      let same' : IsSame bi₀ bi' = record { metadata = same.metadata; spec = same.spec } in
      elim (Bool-cases res.committed) [
        | inl e ↦ rw e (mark_imported-Ends bi₀ bi' same' w)
        | inr e ↦ rw e (await_bytes-Ends bi₀ bi' same' m res w going)
      ]
