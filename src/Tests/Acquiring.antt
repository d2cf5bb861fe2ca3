-- ===== src/Tests/Acquiring.antt =====
-- `acquire` on concrete states.
use infer_stack.Base.{
  ◌≡◌, refl, String, Bool, true, false, not, ◌||◌, none, some, [], ◌∷◌, ◌++◌, any, all, lookup,
  insert, filter, find, sort, select, dedup, leb,
}
use infer_stack.Models.{
  LeaseState, DeploymentState, Lease, Deployment, is_shared, capacity_satisfies,
}
use infer_stack.Result.{Result, ok, err, admission_conflict}
use infer_stack.Store.{
  Store, LeaseRow, empty_store, empty_meta, insert_lease, insert_deployment, insert_claim,
  get_lease, get_deployment, row_to_lease, demand, deployments_by_compat, bump_desired_generation,
}
use infer_stack.Store.Demand.{is_held}
use infer_stack.Store.Epoch.{start_backend_epoch, is_profile}
use infer_stack.Ledger.{AcquireOverlay, AcquireResult}
use infer_stack.Ledger.Plan.{Candidate, plan_acquire, candidates, choose, cost, empty_plan}
use infer_stack.Ledger.Plan.Choice.{choose_cheapest}
use infer_stack.Ledger.Acquire.{acquire}
use infer_stack.Ledger.Acquire.Version.{acquire-twice}
use infer_stack.Ledger.Held.Acquired.{acquire-live}
use infer_stack.Ledger.Upkeep.{is_live_in, release}
use infer_stack.System.{acquires, releases, start, after}
use infer_stack.System.Invariant.{IsSound, Reachable-IsSound}
use infer_stack.System.Epochs.{start_backend_epoch-stale}
use infer_stack.Tests.Rows.{ids, ledger, request, claim, deployment}

abbrev cold : String → Bool
cold id = false

abbrev preview : AcquireOverlay
preview = plan_acquire ids cold (request ∷ []) 5 0 ledger

-- What a successful call leaves.
abbrev store_of : Result (Store × AcquireResult) → Store
store_of (ok (t, r)) = t
store_of (err e) = empty_store

abbrev new_result : Result (Store × AcquireResult)
new_result = acquire ids "carol" (request ∷ []) none (some preview) [] none none 5 0 ledger

abbrev carol : LeaseRow
carol = record {
  id = "lease-new";
  owner = "carol";
  state = LeaseState.active;
  created_at = 5;
  ttl_seconds = none;
  expires_at = none;
  heartbeat_at = 5;
}

abbrev new_ledger : Store
new_ledger = record ledger {
  leases = ledger.leases ++ carol ∷ [];
  claims = claim "b" "x" ∷ claim "lease-new" "x" ∷ [];
  meta = record ledger.meta { desired_gen = 1; admission_state_version = 1 };
}

abbrev answer : AcquireResult
answer = record {
  lease = record {
    id = "lease-new";
    owner = "carol";
    state = LeaseState.active;
    created_at = 5;
    ttl_seconds = none;
    expires_at = none;
    heartbeat_at = 5;
    endpoints = "chat" ∷ [];
    deployment_ids = "x" ∷ [];
  };
  deployments = record (deployment "x" DeploymentState.live 1) { demand = 2 } ∷ [];
}

-- Carol joins the deployment that bob has.
commits :
    acquire ids "carol" (request ∷ []) none (some preview) [] none none 5 0 ledger
    ≡ ok (new_ledger, answer)
unfolding acquire plan_acquire insert_lease select find sort deployments_by_compat filter cost
    lookup capacity_satisfies insert_claim get_lease bump_desired_generation
    infer_stack.Models.is_reservation row_to_lease dedup get_deployment demand
commits = refl

acquire-twice_example :
    acquire ids "dave" (request ∷ []) none (some preview) [] none none 6 1 new_ledger
    ≡ err admission_conflict
acquire-twice_example =
    acquire-twice ids "carol" "dave" (request ∷ []) (request ∷ []) none none preview [] [] none none
      none none 5 6 0 1 ledger new_ledger answer commits

acquire-live_example : (is_live_in new_ledger "x" ≡ true) × (is_held new_ledger "x" ≡ true)
unfolding plan_acquire any find sort deployments_by_compat filter cost lookup capacity_satisfies
acquire-live_example =
    acquire-live ids cold "carol" (request ∷ []) none [] none none 5 0 5 0 ledger new_ledger answer
      (refl, (refl, tt)) commits "x" refl

choose_cheapest_example :
    ((c : Candidate)
      → choose ids ledger cold request (empty_plan 0) ≡ some c
      → (is_shared request.sharing ≡ true)
        × ((q : Candidate → Bool)
            → all q (candidates ids ledger request (empty_plan 0)) ≡ true
            → q c ≡ true)
        × (capacity_satisfies c.0.capacity request.capacity ≡ true)
        × (all
              (λ d.
                not (capacity_satisfies d.0.capacity request.capacity)
                || leb (cost cold c) (cost cold d))
              (candidates ids ledger request (empty_plan 0))
            ≡ true))
    × (is_shared request.sharing ≡ true
        → choose ids ledger cold request (empty_plan 0) ≡ none
        → any
            (λ c. capacity_satisfies c.0.capacity request.capacity)
            (candidates ids ledger request (empty_plan 0))
          ≡ false)
choose_cheapest_example = choose_cheapest ids ledger cold request (empty_plan 0)

abbrev fresh_ledger : Store
fresh_ledger = record empty_store {
  meta = record ledger.meta {
    desired_gen = 1;
    admission_state_version = 1;
    profile = some "p1";
    publication_pending = none;
    ledger_archives = "old" ∷ [];
  };
}

starts : start_backend_epoch "p1" "old" "p0" 0 ledger ≡ ok fresh_ledger
unfolding start_backend_epoch
starts = refl

start_backend_epoch-stale_example :
    (is_profile ledger.meta.profile "p0" ≡ true)
    × (ledger.meta.admission_state_version ≡ 0)
    × (fresh_ledger.leases ≡ [])
    × (fresh_ledger.deployments ≡ [])
    × (fresh_ledger.claims ≡ [])
    × (fresh_ledger.service_addresses ≡ [])
    × (acquire ids "carol" (request ∷ []) none (some preview) [] none none 5 0 fresh_ledger
        ≡ err admission_conflict)
start_backend_epoch-stale_example =
    start_backend_epoch-stale "p1" "old" "p0" 0 ledger fresh_ledger ids cold "carol" (request ∷ [])
      none [] none none 5 0 5 0 starts

abbrev first_result : Result (Store × AcquireResult)
first_result =
    acquire ids "carol" (request ∷ []) none
      (some (plan_acquire ids cold (request ∷ []) 5 0 empty_store)) [] none none 5 0 empty_store

abbrev first_ledger : Store
first_ledger = record empty_store {
  leases = carol ∷ [];
  deployments =
      record (deployment "grp-new" DeploymentState.live 5) {
        capacity = request.capacity;
        assigned_gpus = none;
      }
      ∷ [];
  claims = claim "lease-new" "grp-new" ∷ [];
  meta = record empty_meta { desired_gen = 1; admission_state_version = 1 };
}

abbrev first_answer : AcquireResult
first_answer = record {
  lease = record answer.lease { deployment_ids = "grp-new" ∷ [] };
  deployments =
      record (deployment "grp-new" DeploymentState.live 5) {
        capacity = request.capacity;
        assigned_gpus = none;
        demand = 1;
      }
      ∷ [];
}

first_commits :
    acquire ids "carol"
      (request ∷ [])
      none
      (some (plan_acquire ids cold (request ∷ []) 5 0 empty_store))
      []
      none
      none
      5
      0
      empty_store
    ≡ ok (first_ledger, first_answer)
unfolding acquire plan_acquire insert_lease select find sort deployments_by_compat filter any lookup
    insert insert_deployment insert_claim get_lease bump_desired_generation
    infer_stack.Models.is_reservation row_to_lease dedup get_deployment demand
first_commits = refl

-- An acquisition of a new deployment, and its release.
Reachable-IsSound_example : IsSound (release "lease-new" 9 first_ledger).0
Reachable-IsSound_example = Reachable-IsSound ids {s = (release "lease-new" 9 first_ledger).0} (
    after first_ledger _
      (after empty_store first_ledger start (
        acquires cold "carol" (request ∷ []) none [] none none 5 0 5 0 empty_store first_ledger
          first_answer first_commits))
      (releases "lease-new" 9 first_ledger))
