-- ===== src/Controller/Matching/First.antt =====
-- src/internal/controller/backup_controller.go: the policy that `matchPolicy` returns.
use mathlib.Core.Path.{subst}
use airgap_snapshots.Base.{
  ◌≡◌, refl, ap, ◌⊎◌, inl, inr, Bool, true, false, not, List, [], ◌∷◌, ◌++◌, Option, none, some,
  All, if◌then◌else◌, Result, ok, err,
}
use airgap_snapshots.Api.Policy.{ReplicationPolicy}
use airgap_snapshots.Api.Velero.{Backup}
use airgap_snapshots.Controller.{Cluster}
use airgap_snapshots.Controller.Matching.{matches_location, matches_backup, select, first_match}

module _ {W : Type 0} (cluster : Cluster W) (backup : Backup) where
  -- The policy is not paused, covers the storage location, and its selector takes the backup.
  pub record Matches (p : ReplicationPolicy) : Type 0 where
    pub active : p.spec.paused ≡ false
    pub location : matches_location p backup.spec.storage_location ≡ true
    pub selector : matches_backup cluster p backup ≡ ok true

  -- The policy is paused, or is for other locations, or its selector leaves the backup out.
  abbrev pub Rejects : ReplicationPolicy → Type 0
  Rejects p =
      (p.spec.paused ≡ true)
      ⊎ ((matches_location p backup.spec.storage_location ≡ false)
          ⊎ (matches_backup cluster p backup ≡ ok false))

  -- What `matchPolicy` answers on a list of policies.
  abbrev pub Found : List ReplicationPolicy → Option ReplicationPolicy → Type 0
  Found policies none = All Rejects policies
  Found policies (some p) =
      (before : List ReplicationPolicy) × (after : List ReplicationPolicy) × (policies
        ≡ before ++ p ∷ after)
      × Matches p
      × All Rejects before

  Found-cons :
      (p : ReplicationPolicy) (policies : List ReplicationPolicy) (found : Option ReplicationPolicy)
      → Rejects p
      → Found policies found
      → Found (p ∷ policies) found
  Found-cons p policies none r f = (r, f)
  Found-cons p policies (some q) r (before, after, e, m, f) =
      (p ∷ before, after, ap (◌∷◌ p) e, m, (r, f))

  -- The policy at the head, by what is known of it.
  first :
      (p : ReplicationPolicy) (policies : List ReplicationPolicy)
      (rest : Result (Option ReplicationPolicy)) (found : Option ReplicationPolicy)
      (paused location : Bool) (selected : Result Bool)
      → p.spec.paused ≡ paused
      → matches_location p backup.spec.storage_location ≡ location
      → matches_backup cluster p backup ≡ selected
      → (rest ≡ ok found → Found policies found)
      → (if paused then rest else if not location then rest else select cluster p selected rest)
        ≡ ok found
      → Found (p ∷ policies) found
  unfolding select
  first p policies rest found true location selected a b c ih h =
      Found-cons p policies found (inl a) (ih h)
  first p policies rest found false false selected a b c ih h =
      Found-cons p policies found (inr (inl b)) (ih h)
  first p policies rest found false true (err e) a b c ih h = cc h
  first p policies rest found false true (ok false) a b c ih h =
      Found-cons p policies found (inr (inr c)) (ih h)
  first p policies rest none false true (ok true) a b c ih h = cc h
  first p policies rest (some q) false true (ok true) a b c ih h =
      let same : p ≡ q = cc h in
      (
        [],
        policies,
        ap (λ x. x ∷ policies) same,
        subst Matches same (record { active = a; location = b; selector = c }),
        tt,
      )

  -- The policy of a backup is the first in the list that is not paused, covers the backup's storage
  -- location and selects the backup: all before it are rejected. Without one, all are.
  pub first_match-Found :
      (policies : List ReplicationPolicy) (found : Option ReplicationPolicy)
      → first_match cluster policies backup ≡ ok found
      → Found policies found
  unfolding first_match
  first_match-Found [] none h = tt
  first_match-Found [] (some p) h = cc h
  first_match-Found (p ∷ policies) found h =
      first p policies (first_match cluster policies backup) found p.spec.paused
        (matches_location p backup.spec.storage_location) (matches_backup cluster p backup) refl
        refl refl (first_match-Found policies found) h
