-- ===== src/Controller/Replication/Pass.antt =====
-- src/internal/controller/backupreplication_controller.go: the status updates that a pass of `replicate`
-- ends in.
use mathlib.Core.Path.{subst}
use airgap_snapshots.Base.{
  ℕ, ◌≡◌, refl, sym, ap, ◌∙◌, inl, inr, List, [], ◌∷◌, Option-cases, some, length, Result, ok, err,
  lift, map_m, ◌>>=◌,
}
use airgap_snapshots.Base.Integer.{to_uint64, to_int64}
use airgap_snapshots.Base.Keeps.{recover_cases}
use airgap_snapshots.Base.Text.{Text}
use airgap_snapshots.Api.Meta.{rendered}
use airgap_snapshots.Api.Policy.{ReplicationPolicy}
use airgap_snapshots.Api.Replication.{ReplicationPhase, BackupReplication}
use airgap_snapshots.Batching.{Batch, pack}
use airgap_snapshots.Manifest.{Manifest, Json}
use airgap_snapshots.Objstore.{Config, Store}
use airgap_snapshots.Peat.{FileSpec}
use airgap_snapshots.Staging.{Disk, Stager, stage_object}
use airgap_snapshots.Controller.{Cluster, Services}
use airgap_snapshots.Controller.Report.{set_phase, set_ready, transient_err}
use airgap_snapshots.Controller.Resolve.{resolve_store}
use airgap_snapshots.Controller.Ledger.{Ledger, enumerate_delta}
use airgap_snapshots.Controller.Replication.{total_size, is_terminal, transmit}
use airgap_snapshots.Controller.Replication.Ends.{
  Transmitting, MayRecord, Ends, Carries, transient_err-Ends, degrade-Ends, transmit-Ends,
}
use airgap_snapshots.Controller.Replication.Reconcile.{
  ship, replicate_keys, replicate_staging, start, replicate,
}

module _ {W : Type 0} (cluster : Cluster W) where
  -- A status update that the API server takes answers with the object that was given.
  abbrev pub AnswersAsGiven : Type 0
  AnswersAsGiven =
      (br : BackupReplication) (w : W) (kept : BackupReplication)
      → (cluster.update_replication br w).0 ≡ ok kept
      → (kept.metadata ≡ br.metadata)
        × (kept.spec ≡ br.spec)
        × (kept.status.phase ≡ br.status.phase)

module _ {W : Type 0} (cluster : Cluster W) (services : Services W) (sha256 : Text → Text)
    (disk : Disk W) (manifest_json : Json Manifest) (ledger_json : Json Ledger)
    (given : AnswersAsGiven cluster) where
  -- The status update to the phase Transmitting, and what is behind it.
  transmitting-Ends :
      (store : Store W) (cfg : Config) (keys : List Text) (total : ℕ) (policy : ReplicationPolicy)
      (batches : List Batch) (br₀ br : BackupReplication) (w : W)
      → br.metadata ≡ br₀.metadata
      → br.spec ≡ br₀.spec
      → br.status.phase ≡ ReplicationPhase.transmitting
      → (answer : Result BackupReplication) (w' : W)
      → cluster.update_replication br w ≡ (answer, w')
      → Ends cluster br₀ (
          (cluster.update_replication br
              >>= transmit cluster services sha256 disk manifest_json ledger_json store cfg keys
                  total policy batches)
            w)
  transmitting-Ends store cfg keys total policy batches br₀ br w m s p (err e) w' h =
      rw h (Ends.refused e w' refl)
  transmitting-Ends store cfg keys total policy batches br₀ br w m s p (ok kept) w' h =
      let taken = ap (λ (x : Result BackupReplication × W). x.0) h in
      let (same_m, same_s, same_p) = given br w kept taken in
      let e = same_p ∙ p in
      let c : Carries cluster br₀ kept = record {
        metadata = same_m ∙ m;
        spec = same_s ∙ s;
        going = ap is_terminal e;
        recordable = subst (MayRecord cluster br₀) (sym e) tt;
      } in
      let t : Transmitting cluster br₀ = record {
        recorded = br;
        spec = s;
        phase = p;
        taken = (w, kept, taken);
      } in
      rw h (
        transmit-Ends cluster services sha256 disk manifest_json ledger_json store cfg keys total
          br₀ kept c t policy batches w')

  ship-Ends :
      (store : Store W) (cfg : Config) (keys : List Text) (policy : ReplicationPolicy)
      (br₀ br : BackupReplication) (w : W)
      → Carries cluster br₀ br
      → Ends cluster br₀
          (ship cluster services sha256 disk manifest_json ledger_json store cfg keys policy br w)
  unfolding ship set_phase
  ship-Ends store cfg keys policy br₀ br w c =
      let stager : Stager = record {
        root_name = policy.spec.peat.outbox_root;
        root_path = policy.spec.peat.outbox_path;
      } in
      let counted = λ (specs : List FileSpec). set_phase ReplicationPhase.transmitting (record br {
        status = record br.status {
          object_count = to_int64 (length specs);
          total_bytes = to_int64 (total_size 0 specs);
        };
      }) in
      let batches = λ (specs : List FileSpec).
        pack specs policy.spec.bundle_file_limit (to_uint64 policy.spec.bundle_byte_limit) in
      recover_cases (Ends cluster br₀) (transient_err cluster br "StageFailed")
        (map_m (stage_object sha256 disk stager store) keys)
        (λ specs.
          cluster.update_replication (counted specs)
          >>= transmit cluster services sha256 disk manifest_json ledger_json store cfg keys
              (total_size 0 specs) policy (batches specs))
        w (transient_err-Ends cluster br₀ br c "StageFailed")
        (λ specs v.
          let (answer, v') = cluster.update_replication (counted specs) v in
          transmitting-Ends store cfg keys (total_size 0 specs) policy (batches specs) br₀
            (counted specs) v c.metadata c.spec refl answer v' refl)

  replicate_keys-Ends :
      (store : Store W) (cfg : Config) (policy : ReplicationPolicy) (br₀ br : BackupReplication)
      (keys : List Text) (w : W)
      → Carries cluster br₀ br
      → Ends cluster br₀ (
          replicate_keys cluster services sha256 disk manifest_json ledger_json store cfg policy br
            keys w)
  unfolding replicate_keys set_ready set_phase
  replicate_keys-Ends store cfg policy br₀ br [] w c = Ends.written _ w c.metadata c.spec tt refl
  replicate_keys-Ends store cfg policy br₀ br (k ∷ keys) w c =
      ship-Ends store cfg (k ∷ keys) policy br₀ br w c

  replicate_staging-Ends :
      (policy : ReplicationPolicy) (br₀ br : BackupReplication) (w : W)
      → Carries cluster br₀ br
      → Ends cluster br₀
          (replicate_staging cluster services sha256 disk manifest_json ledger_json policy br w)
  unfolding replicate_staging
  replicate_staging-Ends policy br₀ br w c =
      recover_cases (Ends cluster br₀) _ (resolve_store cluster br policy) _ w
        (λ e. degrade-Ends cluster br₀ br c "ResolveStoreFailed" (rendered e))
        (λ cfg v.
          recover_cases (Ends cluster br₀) _ (lift (services.new_store cfg)) _ v
            (λ e. degrade-Ends cluster br₀ br c "StoreInitFailed" (rendered e))
            (λ store v'.
              recover_cases (Ends cluster br₀) _
                (enumerate_delta ledger_json store br.spec.storage_location br.spec.backup_name) _
                v' (transient_err-Ends cluster br₀ br c "EnumerateFailed")
                (λ keys u. replicate_keys-Ends store cfg policy br₀ br keys u c)))

  start-Carries :
      (br : BackupReplication) (w : W)
      → (started : BackupReplication) × (w' : W) × (started.metadata ≡ br.metadata)
        × (started.spec ≡ br.spec)
        × (start cluster services sha256 disk manifest_json ledger_json br w ≡ (ok started, w'))
  unfolding start
  start-Carries br w = elim (Option-cases br.status.started_at) [
    | inl e ↦
        let (time, w') = cluster.now w in
        let started = record br { status = record br.status { started_at = some time } } in
        (started, w', refl, refl, rw e refl)
    | inr (time, e) ↦
        let started = record br { status = record br.status { started_at = some time } } in
        rw e (started, w, refl, refl, refl)
  ]

  pub replicate-Ends :
      (br : BackupReplication) (policy : ReplicationPolicy) (w : W)
      → Ends cluster br
          (replicate cluster services sha256 disk manifest_json ledger_json br policy w)
  unfolding replicate set_phase
  replicate-Ends br policy w =
      let (started, w', m, s, e) = start-Carries br w in
      rw e (
        replicate_staging-Ends policy br (set_phase ReplicationPhase.staging started) w'
          (record { metadata = m; spec = s; going = refl; recordable = tt }))
