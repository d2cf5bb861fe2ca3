-- ===== src/Ledger/Upkeep.antt =====
-- `Ledger.release`, `renew`, `renew_if_live`, `sweep`, `evict_idle` and `prune`. A call's time is its
-- argument `now`.
pub mod Idle
pub mod Release
pub mod Evict
pub mod Renew
use infer_stack.Base.{
  ℕ, ◌+◌, String, Bool, true, false, not, ◌&&◌, ◌||◌, Option, none, some, List, [], ◌∷◌, ◌++◌, map,
  filter, dedup, eqb, if◌then◌else◌, Dict, is_empty, is_in,
}
use infer_stack.Models.{LeaseState, DeploymentState, Lease, Deployment, is_active, is_live, is_idle}
use infer_stack.Result.{Result}
use infer_stack.Store.{
  Store, get_lease, get_deployment, list_deployments, active_leases_past, set_lease_state,
  renew_lease, set_deployment_state, set_deployment_allocation, demand, bump_desired_generation,
}
use infer_stack.Store.Prune
use infer_stack.Ledger.Acquire.{expiry}

pub record ReleaseResult : Type 0 where
  pub idled_deployment_ids : List String
  pub is_found : Bool
  pub already_released : Bool

pub record SweepResult : Type 0 where
  pub expired_lease_ids : List String
  pub idled_deployment_ids : List String

abbrev pub bump_if : Bool → Store → Store
bump_if changed s = if changed then bump_desired_generation s else s

-- Whether `_idle_deployments` idles this one.
unfoldable pub idles : ℕ → Store → String → Bool
idles now s id = elim (get_deployment s id none) [
  | none ↦ false
  | some g ↦ is_live g.state && eqb (demand s id now) 0
]

unfoldable pub idle_each : List String → ℕ → Store → Store × List String
idle_each [] now s = (s, [])
idle_each (id ∷ ids) now s =
    if idles now s id
    then (let (t, idled) = idle_each ids now (set_deployment_state id DeploymentState.idle now s) in
        (t, id ∷ idled))
    else idle_each ids now s

unfoldable pub idle_deployments : List String → ℕ → Store → Store × List String
unfolding idle_each idles
idle_deployments ids = idle_each (dedup ids)

unfoldable pub release_active : Lease → ℕ → Store → Store × ReleaseResult
release_active l now s =
    let (t, idled) =
      idle_deployments l.deployment_ids now (set_lease_state l.id LeaseState.released s) in
    (
      bump_if (not (is_empty idled)) t,
      record { idled_deployment_ids = idled; is_found = true; already_released = false },
    )

abbrev pub is_released : LeaseState → Bool
is_released LeaseState.released = true
is_released _ = false

unfoldable pub release : String → ℕ → Store → Store × ReleaseResult
unfolding release_active
release lease_id now s = elim (get_lease s lease_id) [
  | none ↦ (s, record { idled_deployment_ids = []; is_found = false; already_released = false })
  | some l ↦
      if is_released l.state
      then (s, record { idled_deployment_ids = []; is_found = true; already_released = true })
      else release_active l now s
]

-- Whether a renewal brings this deployment back.
unfoldable pub is_idle_in : Store → String → Bool
is_idle_in s id = elim (get_deployment s id none) [ none ↦ false | some g ↦ is_idle g.state ]

unfoldable pub revive_each : List String → ℕ → Store → Store × List String
revive_each [] now s = (s, [])
revive_each (id ∷ ids) now s =
    if is_idle_in s id
    then (let (t, revived) =
          revive_each ids now (set_deployment_state id DeploymentState.live now s) in
        (t, id ∷ revived))
    else revive_each ids now s

-- Allocations count for the revived only.
unfoldable pub allocate_revived : List String → Dict (List ℕ) → Store → Store
allocate_revived revived [] s = s
allocate_revived revived ((id, gpus) ∷ rest) s =
    allocate_revived revived rest
      (if is_in id revived then set_deployment_allocation id (some gpus) s else s)

unfoldable pub renew_active : Lease → Option ℕ → Dict (List ℕ) → ℕ → Store → Store
unfolding revive_each is_idle_in allocate_revived
renew_active l ttl_seconds allocations now s =
    let (t, revived) =
      revive_each (dedup l.deployment_ids) now
        (renew_lease l.id ttl_seconds (expiry now ttl_seconds) now s) in
    bump_if (not (is_empty revived)) (allocate_revived revived allocations t)

unfoldable pub renew : String → Option ℕ → Dict (List ℕ) → ℕ → Store → Store × Option Lease
unfolding renew_active
renew lease_id ttl_seconds allocations now s = elim (get_lease s lease_id) [
  | none ↦ (s, none)
  | some l ↦
      if is_active l.state
      then (let t = renew_active l ttl_seconds allocations now s in (t, get_lease t lease_id))
      else (s, none)
]

pub data FastRenewal : Type 0 where
  not_renewable needs_admission : FastRenewal
  renewed : Option Lease → FastRenewal

unfoldable pub is_live_in : Store → String → Bool
is_live_in s id = elim (get_deployment s id none) [ none ↦ false | some g ↦ is_live g.state ]

unfoldable pub all_live : List String → Store → Bool
unfolding is_live_in
all_live [] s = true
all_live (id ∷ ids) s = is_live_in s id && all_live ids s

unfoldable pub renew_if_live : String → Option ℕ → ℕ → Store → Store × FastRenewal
unfolding all_live
renew_if_live lease_id ttl_seconds now s = elim (get_lease s lease_id) [
  | none ↦ (s, not_renewable)
  | some l ↦
      if not (is_active l.state)
      then (s, not_renewable)
      else if all_live (dedup l.deployment_ids) s
      then (let t = renew_lease lease_id ttl_seconds (expiry now ttl_seconds) now s in
          (t, renewed (get_lease t lease_id)))
      else (s, needs_admission)
]

-- The loop over the due leases.
unfoldable pub expire_each : List Lease → Store → Store
expire_each [] s = s
expire_each (l ∷ ls) s = expire_each ls (set_lease_state l.id LeaseState.expired s)

abbrev pub claimed_ids : List Lease → List String
claimed_ids [] = []
claimed_ids (l ∷ ls) = l.deployment_ids ++ claimed_ids ls

unfoldable pub sweep : ℕ → Store → Store × SweepResult
unfolding expire_each idle_deployments
sweep now s =
    let due = active_leases_past s now in
    let (t, idled) = idle_deployments (claimed_ids due) now (expire_each due s) in
    (
      bump_if (not (is_empty due) || not (is_empty idled)) t,
      record { expired_lease_ids = map (λ l. l.id) due; idled_deployment_ids = idled },
    )

-- Whether this one is evicted. `wanted = none` is every deployment.
unfoldable pub evicts : Option (List String) → Deployment → Bool
evicts wanted g =
    is_idle g.state && eqb g.demand 0 && (elim wanted [ none ↦ true | some ids ↦ is_in g.id ids ])

unfoldable pub evict_each : List Deployment → ℕ → Store → Store
evict_each [] now s = s
evict_each (g ∷ gs) now s =
    evict_each gs now (set_deployment_state g.id DeploymentState.stopped now s)

unfoldable pub evict_idle : Option (List String) → ℕ → Store → Store × List String
unfolding evicts evict_each
evict_idle wanted now s =
    let gone = filter (evicts wanted) (list_deployments s now) in
    (bump_if (not (is_empty gone)) (evict_each gone now s), map (λ g. g.id) gone)

unfoldable pub reclaimable_deployments : ℕ → Store → List Deployment
reclaimable_deployments now s = filter (λ g. is_idle g.state) (list_deployments s now)

abbrev pub is_over : LeaseState → Bool
is_over LeaseState.active = false
is_over _ = true

abbrev pub is_stopped : DeploymentState → Bool
is_stopped DeploymentState.stopped = true
is_stopped _ = false

unfoldable pub prune : Store → Result (Store × ℕ × ℕ)
prune = Prune.prune is_over is_stopped
