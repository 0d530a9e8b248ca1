-- ===== src/Controller/Matching.antt =====
-- src/internal/controller/backup_controller.go: a BackupReplication is made for each completed backup
-- that a policy matches.
pub mod First
use airgap_snapshots.Base.{
  Bool, true, false, not, List, [], ◌∷◌, Option, none, some, if◌then◌else◌, Result, ok, err, M,
  pure, fail, lift, recover, ◌>>=◌,
}
use airgap_snapshots.Base.Text.{Text, text_eq}
use airgap_snapshots.Api.Meta.{ReconcileResult}
use airgap_snapshots.Api.Policy.{ReplicationPolicy}
use airgap_snapshots.Api.Replication.{BackupReplication}
use airgap_snapshots.Api.Velero.{BackupPhase, Backup}
use airgap_snapshots.Controller.{Cluster}

unfoldable pub is_named : List Text → Text → Bool
unfolding text_eq
is_named [] bsl = false
is_named (name ∷ names) bsl = if text_eq name bsl then true else is_named names bsl

-- `matchesBSL`
unfoldable pub matches_location : ReplicationPolicy → Text → Bool
unfolding is_named
matches_location p bsl = elim p.spec.backup_storage_locations [
  | [] ↦ true
  | name ∷ names ↦ is_named (name ∷ names) bsl
]

abbrev is_completed : BackupPhase → Bool
is_completed BackupPhase.completed = true
is_completed BackupPhase.unset = false
is_completed BackupPhase.new = false
is_completed BackupPhase.in_progress = false
is_completed BackupPhase.finalizing = false
is_completed BackupPhase.partially_failed = false
is_completed BackupPhase.failed = false
is_completed BackupPhase.failed_validation = false
is_completed BackupPhase.deleting = false

module _ {W : Type 0} (cluster : Cluster W) where
  -- `matchesBackup`
  unfoldable pub matches_backup : ReplicationPolicy → Backup → Result Bool
  matches_backup p backup = elim p.spec.backup_selector [
    | none ↦ ok true
    | some selector ↦ cluster.selector_matches selector backup.metadata.labels
  ]

  -- The answer of `matchesBackup` for the policy `p`, and the search behind it.
  unfoldable pub select :
      ReplicationPolicy
      → Result Bool
      → Result (Option ReplicationPolicy)
      → Result (Option ReplicationPolicy)
  select p (err e) rest = err e
  select p (ok true) rest = ok (some p)
  select p (ok false) rest = rest

  -- The loop of `matchPolicy`.
  unfoldable pub first_match : List ReplicationPolicy → Backup → Result (Option ReplicationPolicy)
  unfolding matches_location matches_backup select
  first_match [] backup = ok none
  first_match (p ∷ policies) backup =
      let rest = first_match policies backup in
      if p.spec.paused
      then rest
      else if not (matches_location p backup.spec.storage_location)
      then rest
      else select p (matches_backup p backup) rest

  -- `matchPolicy`
  unfoldable pub match_policy : Backup → M W (Option ReplicationPolicy)
  unfolding first_match
  match_policy backup = cluster.list_policies >>= λ policies. lift (first_match policies backup)

  -- The mutation of `CreateOrUpdate`.
  unfoldable pub fill_replication :
      Backup → ReplicationPolicy → BackupReplication → Result BackupReplication
  fill_replication backup policy br = cluster.set_owner backup (record br {
    spec = record {
      backup_name = backup.metadata.name;
      policy_name = policy.metadata.name;
      storage_location = backup.spec.storage_location;
    };
  })

  unfoldable pub ensure_replication : Backup → Option ReplicationPolicy → M W ReconcileResult
  unfolding fill_replication
  ensure_replication backup none = pure (record { requeue_after = none })
  ensure_replication backup (some policy) =
      cluster.ensure_replication backup.metadata.namespace backup.metadata.name
        (fill_replication backup policy)
      >>= λ _. pure (record { requeue_after = none })

  -- `Reconcile`
  unfoldable pub reconcile : Text → Text → M W ReconcileResult
  unfolding match_policy ensure_replication
  reconcile namespace name =
      recover
        (λ e. if cluster.is_not_found e then pure (record { requeue_after = none }) else fail e)
        (cluster.get_backup namespace name)
        λ backup.
          if not (is_completed backup.status.phase)
          then pure (record { requeue_after = none })
          else match_policy backup >>= ensure_replication backup
