-- ===== src/Controller/Replication/Ends.antt =====
-- src/internal/controller/backupreplication_controller.go: the status updates that a pass of `replicate`
-- ends in, from the connection to peat on.
use Prim.Native.String.{String}
use mathlib.Core.Path.{subst}
use airgap_snapshots.Base.{
  ℕ, suc, ◌≡◌, refl, sym, ap, inl, inr, Bool, false, List, [], ◌∷◌, Bool-cases, if◌then◌else◌,
  Failure, Result, ok, err, recover, none,
}
use airgap_snapshots.Base.Keeps.{recover_cases}
use airgap_snapshots.Base.Text.{Text}
use airgap_snapshots.Api.Meta.{ReconcileResult, Message}
use airgap_snapshots.Api.Policy.{ReplicationPolicy}
use airgap_snapshots.Api.Replication.{ReplicationPhase, BackupReplication}
use airgap_snapshots.Batching.{Batch}
use airgap_snapshots.Manifest.{FileEntry, Manifest, Json}
use airgap_snapshots.Objstore.{Config, Store}
use airgap_snapshots.Peat.{Client, SendResult, Progress}
use airgap_snapshots.Staging.{Disk}
use airgap_snapshots.Controller.{Cluster, Services, requeue}
use airgap_snapshots.Controller.Report.{set_phase, set_ready, update_and, degrade, transient_err}
use airgap_snapshots.Controller.Ledger.{Ledger}
use airgap_snapshots.Controller.Bundles.{bundle_name, map_priority}
use airgap_snapshots.Controller.Replication.{
  Sent, nothing_sent, add_bundle, all_nodes, is_terminal, mark_replicated, publish, finish,
  send_loop, transmit,
}
use airgap_snapshots.Controller.Replication.Publish.{Published, publish-Published}

-- The answer for a replication in a phase: again in 30 seconds, and never again in a terminal phase.
abbrev pub answer_for : ReplicationPhase → ReconcileResult
answer_for p = if is_terminal p then record { requeue_after = none } else requeue

module _ {W : Type 0} (cluster : Cluster W) where
  -- The API server took a status update of this replication to the phase Transmitting.
  pub record Transmitting (br : BackupReplication) : Type 0 where
    pub recorded : BackupReplication
    pub spec : recorded.spec ≡ br.spec
    pub phase : recorded.status.phase ≡ ReplicationPhase.transmitting
    pub taken :
        (w : W) × (kept : BackupReplication) × ((cluster.update_replication recorded w).0 ≡ ok kept)

  -- The phases that a pass over `br` may record: its own, and those that the pass enters. The phase
  -- Replicated comes only behind Transmitting, and Failed not at all.
  abbrev pub MayRecord : BackupReplication → ReplicationPhase → Type 0
  MayRecord br ReplicationPhase.unset = br.status.phase ≡ ReplicationPhase.unset
  MayRecord br ReplicationPhase.pending = br.status.phase ≡ ReplicationPhase.pending
  MayRecord br ReplicationPhase.staging = Unit
  MayRecord br ReplicationPhase.transmitting = Unit
  MayRecord br ReplicationPhase.replicated = Transmitting br
  MayRecord br ReplicationPhase.failed = ⊥
  MayRecord br ReplicationPhase.skipped = Unit

  -- How a pass over `br` ends: with an error of the API server, which controller-runtime retries, or
  -- with a status update of that object and the answer for the phase written.
  pub data Ends (br : BackupReplication) (r : Result ReconcileResult × W) : Type 0 where
    refused : (e : Failure) (w : W) → r ≡ (err e, w) → Ends br r
    written :
        (after : BackupReplication) (w : W)
        → after.metadata ≡ br.metadata
        → after.spec ≡ br.spec
        → MayRecord br after.status.phase
        → r ≡ update_and cluster (answer_for after.status.phase) after w
        → Ends br r

  -- The object that a pass over `br₀` carries along, before its last status update.
  pub record Carries (br₀ br : BackupReplication) : Type 0 where
    pub metadata : br.metadata ≡ br₀.metadata
    pub spec : br.spec ≡ br₀.spec
    pub going : is_terminal br.status.phase ≡ false
    pub recordable : MayRecord br₀ br.status.phase

  update-Ends :
      (br₀ after : BackupReplication) (w : W)
      → Carries br₀ after
      → Ends br₀ (update_and cluster requeue after w)
  update-Ends br₀ after w c = written after w c.metadata c.spec c.recordable (
      ap
        (λ (b : Bool).
          update_and cluster (if b then record { requeue_after = none } else requeue) after w)
        (sym c.going))

  module _ (br₀ br : BackupReplication) (c : Carries br₀ br) where
    pub transient_err-Ends :
        (reason : String) (e : Failure) (w : W) → Ends br₀ (transient_err cluster br reason e w)
    unfolding transient_err set_ready
    transient_err-Ends reason e w = update-Ends br₀ _ w (record {
      metadata = c.metadata;
      spec = c.spec;
      going = c.going;
      recordable = c.recordable;
    })

    pub degrade-Ends :
        (reason : String) (message : Message) (w : W)
        → Ends br₀ (degrade cluster br reason message w)
    unfolding degrade set_ready
    degrade-Ends reason message w = update-Ends br₀ _ w (record {
      metadata = c.metadata;
      spec = c.spec;
      going = c.going;
      recordable = c.recordable;
    })

module _ {W : Type 0} (cluster : Cluster W) (services : Services W) (sha256 : Text → Text)
    (disk : Disk W) (manifest_json : Json Manifest) (ledger_json : Json Ledger) where
  mark_replicated-Ends :
      (br₀ br : BackupReplication) (w : W)
      → Carries cluster br₀ br
      → Transmitting cluster br₀
      → Ends cluster br₀
          (mark_replicated cluster services sha256 disk manifest_json ledger_json br w)
  unfolding mark_replicated set_ready set_phase
  mark_replicated-Ends br₀ br w c t = written _ w c.metadata c.spec t refl

  module _ (store : Store W) (cfg : Config) (keys : List Text) (total : ℕ)
      (br₀ br : BackupReplication) (c : Carries cluster br₀ br) (t : Transmitting cluster br₀) where
    publish-Ends :
        (pc : Client W) (entries : List FileEntry) (b : BackupReplication) (w : W)
        → Carries cluster br₀ b
        → Ends cluster br₀ (
            publish cluster services sha256 disk manifest_json ledger_json store pc cfg keys total
              entries b w)
    publish-Ends pc entries b w cb =
        elim (publish-Published cluster services sha256 disk manifest_json ledger_json store pc cfg
          keys total entries b w) [
            | Published.reported time reason e v h ↦ subst (Ends cluster br₀) (sym h) (
                transient_err-Ends cluster br₀ _
                  (record {
                    metadata = cb.metadata;
                    spec = cb.spec;
                    going = cb.going;
                    recordable = cb.recordable;
                  })
                  reason e v)
            | Published.replicated time v m l h ↦ subst (Ends cluster br₀) (sym h) (
                mark_replicated-Ends br₀ _ v
                  (record {
                    metadata = cb.metadata;
                    spec = cb.spec;
                    going = cb.going;
                    recordable = cb.recordable;
                  })
                  t)
          ]

    finish-Ends :
        (pc : Client W) (sent : Sent) (w : W)
        → Ends cluster br₀ (
            finish cluster services sha256 disk manifest_json ledger_json store pc cfg keys total br
              sent w)
    unfolding finish
    finish-Ends pc sent w =
        let br' = record br { status = record br.status { bundles = sent.statuses } } in
        let c' : Carries cluster br₀ br' = record {
          metadata = c.metadata;
          spec = c.spec;
          going = c.going;
          recordable = c.recordable;
        } in
        elim (Bool-cases sent.all_done) [
          | inl e ↦ rw e (publish-Ends pc sent.entries br' w c')
          | inr e ↦ rw e (update-Ends cluster br₀ br' w c')
        ]

    module _ (policy : ReplicationPolicy) where
      send_loop-Ends :
          (pc : Client W) (i : ℕ) (batches : List Batch) (sent : Sent) (w : W)
          → Ends cluster br₀ (
              send_loop cluster services sha256 disk manifest_json ledger_json store pc cfg keys
                total policy br i batches sent w)
      unfolding send_loop
      send_loop-Ends pc i [] sent w = finish-Ends pc sent w
      send_loop-Ends pc i (b ∷ batches) sent w =
          let name = bundle_name br.metadata.name i in
          let next = λ (res : SendResult) (progs : List Progress).
            send_loop cluster services sha256 disk manifest_json ledger_json store pc cfg keys total
              policy br (suc i) batches (add_bundle name b res progs sent) in
          recover_cases (Ends cluster br₀) (transient_err cluster br "SendFailed")
            (pc.send_attachments name b.files all_nodes (map_priority policy.spec.priority))
            (λ res.
              recover (transient_err cluster br "WaitFailed") (pc.wait_bundle name) (next res))
            w (transient_err-Ends cluster br₀ br c "SendFailed")
            (λ res v.
              recover_cases (Ends cluster br₀) (transient_err cluster br "WaitFailed")
                (pc.wait_bundle name) (next res) v
                (transient_err-Ends cluster br₀ br c "WaitFailed")
                (λ progs. send_loop-Ends pc (suc i) batches (add_bundle name b res progs sent)))

      -- From the connection to peat on, once the phase Transmitting is recorded.
      pub transmit-Ends :
          (batches : List Batch) (w : W)
          → Ends cluster br₀ (
              transmit cluster services sha256 disk manifest_json ledger_json store cfg keys total
                policy batches br w)
      unfolding transmit
      transmit-Ends batches w =
          let loop = λ (pc : Client W).
            send_loop cluster services sha256 disk manifest_json ledger_json store pc cfg keys total
              policy br 0 batches nothing_sent in
          let peer = λ (pc : Client W).
            pc.ensure_peer policy.spec.target.endpoint_id policy.spec.target.addresses
              policy.spec.target.relay_url in
          recover_cases (Ends cluster br₀) (transient_err cluster br "PeatDialFailed")
            (services.new_peat policy.spec.peat.address)
            (λ pc. recover (transient_err cluster br "PeerConnectFailed") (peer pc) (λ _. loop pc))
            w (transient_err-Ends cluster br₀ br c "PeatDialFailed")
            (λ pc v.
              recover_cases (Ends cluster br₀) (transient_err cluster br "PeerConnectFailed")
                (peer pc) (λ _. loop pc) v (transient_err-Ends cluster br₀ br c "PeerConnectFailed")
                (λ _. send_loop-Ends pc 0 batches nothing_sent))
