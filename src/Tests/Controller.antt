-- ===== src/Tests/Controller.antt =====
-- The controller's calls on the small ledger.
use infer_stack.Base.{
  ℕ, ◌+◌, ◌*◌, ◌≡◌, ◌≤◌, ◌<◌, refl, Bool, true, false, not, ◌&&◌, ◌||◌, Option, none, some, List,
  [], ◌∷◌, String, any, all, is_empty, arith, ◌⊎◌, is_in, Distinct, eq_iff,
}
use infer_stack.Result.{Result, ok, err}
use infer_stack.Ledger.{AcquireResult}
use infer_stack.Ledger.Acquire.{acquire}
use infer_stack.Controller.Admit.Allocated.{IsAllocated, acquire-IsAllocated}
use infer_stack.Models.{LeaseState, DeploymentState, Deployment}
use infer_stack.Store.{Store, empty_store}
use infer_stack.Store.Publication.{pending}
use infer_stack.Placement.Disjoint.{Disjoint, ApartFrom}
use infer_stack.Placement.Plan.{GpuPlan}
use infer_stack.Residency.{Residency}
use infer_stack.Ledger.{AcquireOverlay}
use infer_stack.Ledger.Plan.{plan_acquire}
use infer_stack.Compose
use infer_stack.Compose.{ComposeBackend}
use infer_stack.Controller.{Policy, unresolved_allocations}
use infer_stack.Controller.Admit.{Rendered, admit, needs, ids_of}
use infer_stack.Controller.Admit.Exact.{
  is_accepted, previewed_plan, previewed_render, admit-is_empty,
}
use infer_stack.Controller.Admit.Committed.{planned, admit-ApartFrom}
use infer_stack.Controller.Publish.{
  Sample, containers, wait_for_settled_runtime, settled, returns, flag, apply_pending, is_settled,
}
use infer_stack.Controller.Publish.Settle.{Outcome, wait_for_settled_runtime-Outcome}
use infer_stack.Store.Publication.Marks
use infer_stack.Controller.Publish.Exact.{left, with_marker, apply_pending_lem}
use infer_stack.Controller.Publish.Apply.{
  requested, interrupted, approves, is_complete, is_completed,
}
use infer_stack.Controller.Render.{Round, wrote}
use infer_stack.Controller.Render.Frame.{active_at}
use infer_stack.Controller.Calls.{release_call, evict_call, gc_call, reconcile_call}
use infer_stack.Controller.Calls.Recorded.{IsStaged, IsRecorded, calls-IsRecorded}
use infer_stack.Controller.Acquire.{Ask, World, attempt}
use infer_stack.Controller.Acquire.Clean.{IsClean, attempt-IsClean}
use infer_stack.Tests.Rows.{ids, ledger, request, deployment}
use infer_stack.Tests.Placement.{host}

abbrev pub policy : Policy
policy = record { allocates_gpus = true; reclaim_default = "keep-warm" }

abbrev runtime : Residency
runtime = record { by_deployment = []; others = []; replicated = false }

-- The runtime is read, the project is written, and the apply is complete.
abbrev pub round : Round
round = record {
  now = 9;
  residency = some runtime;
  prune_adopted = λ table. table;
  adopt_existing = λ table. table;
  converge = λ desired inputs. wrote [] (record { digest = some "d2"; unplaced = [] });
  explicit = true;
  verdict = settled;
  applied = returns (flag true);
}

abbrev compose : ComposeBackend
compose = record {
  host = host;
  sidecar = [];
  facts = λ g. some (record { measured = some 4; weight_floor = none });
}

abbrev renders : GpuPlan → Rendered
renders p = record { unrenderable = []; errors = [] }

abbrev pub world : World
world = record {
  preview = Compose.preview compose renders;
  approve = some (some "d2");
  upkeep = round;
  main = round;
  undo = record round { residency = none };
}

abbrev pub ask : Ask
ask = record {
  owner = "carol";
  requests = request ∷ [];
  ttl_seconds = none;
  apply = true;
  profile = none;
}

calls-IsRecorded_example :
    IsRecorded
      (release_call policy round none 9 "b" ledger).0
      (release_call policy round none 9 "b" ledger).2
    × IsRecorded
        (evict_call policy round none 9 none ledger).0
        (evict_call policy round none 9 none ledger).2
    × IsRecorded
        (gc_call policy round none 9 true ledger).0
        (gc_call policy round none 9 true ledger).3
    × IsRecorded
        (reconcile_call policy round none 9 true ledger).0
        (reconcile_call policy round none 9 true ledger).1
    × IsStaged ledger
        (reconcile_call policy round none 9 false ledger).0
        (reconcile_call policy round none 9 false ledger).1
    × (active_at (release_call policy round none 9 "b" ledger).0 "b" ≡ false)
calls-IsRecorded_example = calls-IsRecorded policy round none 9 ledger "b" none true

attempt-IsClean_example : IsClean ledger (attempt policy none ids world ask 9 0 ledger)
attempt-IsClean_example = attempt-IsClean policy none ids world ask 9 0 ledger

apply_pending_lem_example :
    let after = apply_pending false (some "d2") settled (returns (flag true)) ledger in
    (is_completed after.1 ≡ (
      requested ledger
      && (false || Marks.flag (approves (some "d2")) (pending ledger))
      && (not (interrupted ledger) || is_settled settled)
      && is_complete (returns (flag true))))
    × (after.0 ≡ with_marker (left false (some "d2") after.1 (pending ledger)) ledger)
apply_pending_lem_example = apply_pending_lem false (some "d2") settled (returns (flag true)) ledger

-- A container that is always there: the second sample is equal to the first.
abbrev sampled : ℕ → Sample
sampled k = containers (("c", "running") ∷ [])

abbrev clock : ℕ → ℕ
clock k = 100 + 5 * k

clock-ticks : (k : ℕ) → clock k + 2 * 1 ≤ clock (k + 1)
clock-ticks k = omega arith

wait_for_settled_runtime-Outcome_example :
    Outcome sampled (wait_for_settled_runtime 1 100 sampled clock)
wait_for_settled_runtime-Outcome_example =
    wait_for_settled_runtime-Outcome 1 100 sampled clock (omega arith) (omega arith) clock-ticks

-- Of a new deployment, beside "x", which has GPU 0.
abbrev empty_answer : AcquireResult
empty_answer = record {
  lease = record {
    id = "";
    owner = "";
    state = LeaseState.released;
    created_at = 0;
    ttl_seconds = none;
    expires_at = none;
    heartbeat_at = 0;
    endpoints = [];
    deployment_ids = [];
  };
  deployments = [];
}

abbrev overlay : AcquireOverlay
overlay = plan_acquire ids (λ id. false) (record request { structural = "other" } ∷ []) 9 0 ledger

admit-is_empty_example :
    is_empty (admit policy world.preview overlay (some runtime) 9 ledger).reasons ≡ (
      not (
        any (needs policy (some runtime) overlay) overlay.deployments
        && not (is_empty (unresolved_allocations policy (ids_of overlay.deployments) 9 ledger)))
      && all
          (is_accepted
            (unresolved_allocations policy [] 9 ledger)
            (previewed_plan policy world.preview overlay runtime 9 ledger)
            (previewed_render policy world.preview overlay runtime 9 ledger))
          overlay.deployments)
admit-is_empty_example = admit-is_empty policy world.preview overlay runtime 9 ledger

admit-ApartFrom_example :
    let d = admit policy (Compose.preview compose renders) overlay (some runtime) 9 ledger in
    Disjoint d.allocations
    × ((is_in "x" (planned policy compose renders overlay runtime 9 ledger).degraded ≡ true)
        ⊎ ApartFrom (0 ∷ []) d.allocations)
unfolding any plan_acquire infer_stack.Base.dedup infer_stack.Base.find infer_stack.Base.sort
    infer_stack.Store.deployments_by_compat infer_stack.Base.lookup infer_stack.Base.insert
    infer_stack.Base.select
admit-ApartFrom_example =
    admit-ApartFrom policy compose renders overlay runtime 9 ledger (refl, (refl, tt)) (refl, tt)
      "x" (deployment "x" DeploymentState.live 1) (0 ∷ []) refl refl refl refl

abbrev commits : Result (Store × AcquireResult)
commits =
    acquire ids "carol" (record request { structural = "other" } ∷ []) none (some overlay)
      (admit policy world.preview overlay (some runtime) 9 ledger).allocations none none 9 0 ledger

abbrev store_of : Result (Store × AcquireResult) → Store
store_of (ok (t, answer)) = t
store_of (err e) = empty_store

abbrev answer_of : Result (Store × AcquireResult) → AcquireResult
answer_of (ok (t, answer)) = answer
answer_of (err e) = empty_answer

ledger-IsAllocated : IsAllocated ledger
unfolding infer_stack.Base.select
ledger-IsAllocated id = ground (arith, eq_iff "x" id, eq_iff "y" id)

admissible : is_empty (admit policy world.preview overlay (some runtime) 9 ledger).reasons ≡ true
unfolding any admit plan_acquire infer_stack.Base.dedup infer_stack.Base.find infer_stack.Base.sort
    infer_stack.Store.deployments_by_compat infer_stack.Base.lookup infer_stack.Base.insert
    infer_stack.Controller.gpu_units infer_stack.Placement.required_gpu_count unresolved_allocations
    infer_stack.Store.list_deployments Compose.preview infer_stack.Placement.Plan.plan_placement
    infer_stack.Controller.admission_view infer_stack.Base.select infer_stack.Base.filter
    infer_stack.Placement.explicit_indices infer_stack.Placement.available_indices
    infer_stack.Hardware.available_gpu_indices infer_stack.Placement.min_vram_per_gpu
    infer_stack.Placement.memory_of infer_stack.Hardware.first_fit needs
    infer_stack.Controller.Admit.decide infer_stack.Controller.Admit.with_kept
    infer_stack.Controller.Admit.preview_of infer_stack.Ledger.Status.status
    infer_stack.Store.demand Compose.plan infer_stack.Residency.resident_gpus all
    infer_stack.Store.list_leases infer_stack.Store.row_to_lease
admissible = refl

committed : commits ≡ ok (store_of commits, answer_of commits)
unfolding any acquire plan_acquire infer_stack.Base.dedup infer_stack.Base.find
    infer_stack.Base.sort infer_stack.Store.deployments_by_compat infer_stack.Base.lookup
    infer_stack.Base.insert infer_stack.Store.insert_deployment infer_stack.Store.insert_claim
    infer_stack.Store.get_lease infer_stack.Store.get_deployment
    infer_stack.Store.bump_desired_generation infer_stack.Base.select infer_stack.Base.filter
    infer_stack.Store.insert_lease infer_stack.Models.is_reservation infer_stack.Store.row_to_lease
    infer_stack.Store.demand admit infer_stack.Controller.gpu_units
    infer_stack.Placement.required_gpu_count unresolved_allocations
    infer_stack.Store.list_deployments infer_stack.Store.set_deployment_allocation
    infer_stack.Base.update
committed = refl

acquire-IsAllocated_example : IsAllocated (store_of commits)
unfolding any
acquire-IsAllocated_example =
    acquire-IsAllocated policy world.preview ids (λ id. false) runtime
      (record request { structural = "other" } ∷ []) 9 0 9 ledger "carol" none none none 9 0
      (store_of commits) (answer_of commits) (refl, (refl, tt)) ledger-IsAllocated admissible
      committed
