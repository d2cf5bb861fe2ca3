-- ===== src/Controller/Admit.antt =====
-- `Controller._admit`: whether an acquire, or a renewal that revives, can be let in. The backend's
-- preview is an argument: the placement plan of the desired deployments and what of it cannot be
-- rendered.
pub mod Apart
pub mod Committed
pub mod Exact
pub mod Allocated
use text.Mathlib.Text.{starts_with, find?}
use infer_stack.Base.{
  ℕ, String, Bool, true, false, not, ◌&&◌, ◌||◌, Option, none, some, List, [], ◌∷◌, ◌++◌, map,
  filter, any, eqb, ltb, dedup, sort, text_leb, if◌then◌else◌, is_in, is_empty, Dict, lookup,
  insert,
}
use infer_stack.Models.{Lease, Deployment, is_active}
use infer_stack.Store.{Store}
use infer_stack.Placement.Plan.{
  Inputs, GpuPlan, PlacementError, explicit_failed, too_few, never_fits, busy, is_known,
}
use infer_stack.Residency.{Residency, unique_unit}
use infer_stack.Ledger.{AcquireOverlay}
use infer_stack.Ledger.Status.{status}
use infer_stack.Controller.{
  Policy, gpu_units, adoptable, fresh_ids, admission_view, unresolved_allocations,
}

-- `RenderPreview`; an error is the deployment that it names and its text.
pub record Rendered : Type 0 where
  pub unrenderable : List String
  pub errors : List String

abbrev pub Preview : Type 0
Preview = List Deployment → Inputs → GpuPlan × Rendered

pub data Reason : Type 0 where
  -- Nothing can be read of the runtime, or LIVE deployments have no allocation.
  unread : Reason
  not_allocated : List String → Reason
  -- Of one deployment: it has none itself, its GPUs are gone, it was not placed, or not rendered.
  unresolved lost unplaced : String → Reason
  planned : PlacementError → Reason
  unrenderable : String → String → Reason
  not_rendered : String → Reason
  -- The placed deployments that leases hold, with their GPUs and owners.
  held : List (String × List ℕ × List String) → Reason

abbrev pub error_id : PlacementError → String
error_id (explicit_failed id invalid clash) = id
error_id (too_few id shortfall) = id
error_id (never_fits id count need) = id
error_id (busy id count need free) = id

-- `e.startswith(gid)`: a text of the planner starts with the id of its deployment.
abbrev pub reported : String → List PlacementError → List PlacementError
reported id = filter (λ e. starts_with (error_id e) id)

abbrev pub why_unplaced : String → List PlacementError → List Reason
why_unplaced id [] = unplaced id ∷ []
why_unplaced id (e ∷ es) = planned e ∷ map planned es

-- What is decided: the GPUs to commit for the fresh deployments, why not, and whether a refusal came
-- from placement.
pub record Decision : Type 0 where
  pub allocations : Dict (List ℕ)
  pub reasons : List Reason
  pub capacity : Bool

abbrev pub refuse : Reason → Decision
refuse why = record { allocations = []; reasons = why ∷ []; capacity = false }

-- `gid in e`
abbrev contains : String → String → Bool
contains id e = elim (find? e id) [ none ↦ false | some position ↦ true ]

-- The texts about one deployment, else all of them as its reasons.
unfoldable pub why_unrendered : String → List String → List Reason
why_unrendered id errors =
    let named = filter (λ e. contains id e) errors in
    if not (is_empty named)
    then map (λ e. unrenderable id e) named
    else if is_empty errors
    then not_rendered id ∷ []
    else map (λ e. unrenderable id e) errors

-- One round of the loop over the claimed deployments: the reasons so far, and whether placement gave
-- one.
unfoldable pub check_one :
    Policy → List String → GpuPlan → Rendered → String → List Reason × Bool → List Reason × Bool
unfolding why_unrendered
check_one c unresolved_ids plan rendered id (reasons, capacity) =
    if is_in id unresolved_ids
    then (reasons ++ (unresolved id ∷ []), capacity)
    else if is_in id plan.degraded
    then (reasons ++ (lost id ∷ []), true)
    else if not (is_known id plan.assignments)
    then (reasons ++ why_unplaced id (reported id plan.errors), capacity || c.allocates_gpus)
    else if is_in id rendered.unrenderable
    then (reasons ++ why_unrendered id rendered.errors, capacity)
    else (reasons, capacity)

unfoldable pub check_all :
    Policy
    → List String
    → GpuPlan
    → Rendered
    → List Deployment
    → List Reason × Bool
    → List Reason × Bool
unfolding check_one
check_all c unresolved_ids plan rendered [] r = r
check_all c unresolved_ids plan rendered (g ∷ gs) r =
    check_all c unresolved_ids plan rendered gs (check_one c unresolved_ids plan rendered g.id r)

-- `plan.assignments.get(gid, [])`
abbrev pub assigned_to : GpuPlan → String → List ℕ
assigned_to plan id = elim (lookup id plan.assignments) [ none ↦ [] | some gpus ↦ gpus ]

-- The GPUs to commit, one entry for each fresh deployment.
unfoldable pub allocations_of : GpuPlan → List String → List Deployment → Dict (List ℕ)
allocations_of plan fresh [] = []
allocations_of plan fresh (g ∷ gs) =
    let rest = allocations_of plan fresh gs in
    if is_in g.id fresh then (g.id, assigned_to plan g.id) ∷ rest else rest

-- The GPUs that a revived deployment keeps: those of its one unit.
abbrev pub kept_gpus : Option Residency → AcquireOverlay → Deployment → Option (List ℕ)
kept_gpus none o g = none
kept_gpus (some r) o g = if is_in g.id o.revived then adoptable (unique_unit r g.id) else none

-- Fresh, and with GPUs to account for.
abbrev pub is_candidate : Policy → AcquireOverlay → Deployment → Bool
is_candidate c o g = is_in g.id (fresh_ids o) && not (eqb (gpu_units c g) 0)

-- `need`: those of the candidates that keep no GPUs.
unfoldable pub needs : Policy → Option Residency → AcquireOverlay → Deployment → Bool
needs c residency o g =
    is_candidate c o g && (elim (kept_gpus residency o g) [ none ↦ true | some gpus ↦ false ])

-- The candidate's deployments while it is previewed: one that keeps its GPUs has them committed.
unfoldable pub with_kept : Policy → Option Residency → AcquireOverlay → Deployment → Deployment
with_kept c residency o g =
    if is_candidate c o g
    then elim (kept_gpus residency o g) [
      | none ↦ g
      | some gpus ↦ record g { assigned_gpus = some gpus }
    ]
    else g

abbrev pub previewed : Policy → Residency → AcquireOverlay → AcquireOverlay
previewed c r o = record o { deployments = map (with_kept c (some r) o) o.deployments }

-- The owners of the ACTIVE leases that claim a deployment, sorted.
abbrev pub owners_of : String → List Lease → List String
owners_of id leases = sort text_leb (
    dedup (
      map (λ (l : Lease). l.owner)
        (filter (λ l. is_active l.state && is_in id l.deployment_ids) leases)))

-- Python's `<=` on lists of numbers.
abbrev pub gpus_leb : List ℕ → List ℕ → Bool
gpus_leb [] ys = true
gpus_leb (x ∷ xs) [] = false
gpus_leb (x ∷ xs) (y ∷ ys) = ltb x y || (eqb x y && gpus_leb xs ys)

abbrev pub by_gpus : String × List ℕ → String × List ℕ → Bool
by_gpus a b = gpus_leb a.1 b.1

unfoldable pub holders_among : List Lease → Dict (List ℕ) → List (String × List ℕ × List String)
holders_among leases [] = []
holders_among leases ((id, gpus) ∷ d) =
    let rest = holders_among leases d in
    let owners = owners_of id leases in
    if not (is_empty gpus) && not (is_empty owners) then (id, gpus, owners) ∷ rest else rest

unfoldable pub gpu_holders : GpuPlan → ℕ → Store → List (String × List ℕ × List String)
unfolding holders_among status
gpu_holders plan now s = holders_among (status false now s).0 (sort by_gpus plan.assignments)

abbrev pub with_holders : List (String × List ℕ × List String) → List Reason → List Reason
with_holders [] reasons = reasons
with_holders (h ∷ hs) [] = []
with_holders (h ∷ hs) (why ∷ reasons) = (why ∷ reasons) ++ (held (h ∷ hs) ∷ [])

abbrev pub ids_of : List Deployment → List String
ids_of = map (λ (g : Deployment). g.id)

-- The decision on a plan.
unfoldable pub decide :
    Policy → AcquireOverlay → List String → GpuPlan × Rendered → ℕ → Store → Decision
unfolding check_all allocations_of gpu_holders
decide c o unresolved_ids (plan, rendered) now s =
    let (reasons, capacity) = check_all c unresolved_ids plan rendered o.deployments ([], false) in
    record {
      allocations = allocations_of plan (fresh_ids o) o.deployments;
      reasons = with_holders (gpu_holders plan now s) reasons;
      capacity = capacity;
    }

unfoldable pub preview_of :
    Policy → Preview → AcquireOverlay → Residency → ℕ → Store → GpuPlan × Rendered
unfolding with_kept
preview_of c preview o r now s =
    let (desired, inputs) = admission_view c (some r) (some (previewed c r o)) false now s in
    preview desired inputs

unfoldable pub admit : Policy → Preview → AcquireOverlay → Option Residency → ℕ → Store → Decision
unfolding needs decide preview_of
admit c preview o none now s = refuse unread
admit c preview o (some r) now s =
    let waiting = unresolved_allocations c (ids_of o.deployments) now s in
    if any (needs c (some r) o) o.deployments && not (is_empty waiting)
    then refuse (not_allocated waiting)
    else decide c o (unresolved_allocations c [] now s) (preview_of c preview o r now s) now s
