-- ===== src/Controller.antt =====
-- infer_stack/leasing/controller.py: what admission reads from the ledger and the runtime. The
-- decision is in Controller/Admit, the publication in Controller/Publish, and the calls that change
-- the desired state in Controller/Calls.
pub mod Desired
pub mod Admit
pub mod Publish
pub mod Render
pub mod Calls
pub mod Acquire
pub mod Ready
pub mod Queue
pub mod Sound
use infer_stack.Base.{
  ℕ, String, Bool, true, false, not, ◌&&◌, ◌||◌, Option, none, some, List, [], ◌∷◌, ◌++◌, map,
  filter, any, ltb, eqb, if◌then◌else◌, is_in, is_empty, ◌==◌, Dict, lookup, insert, keys, sort,
  text_leb, by_key,
}
use infer_stack.Models.{
  LeaseState, DeploymentState, Lease, Deployment, is_active, is_live, is_idle, lacks_allocation,
}
use infer_stack.Store.{Store, deployment_key}
use infer_stack.Placement.{required_gpu_count}
use infer_stack.Placement.Plan.{Inputs}
use infer_stack.Residency.{Container, Residency, units, resident_gpus, unique_unit, is_resident}
use infer_stack.Ledger.{AcquireOverlay}
use infer_stack.Ledger.Setters.{set_allocation}
use infer_stack.Ledger.Status.{status}

-- KEEP_WARM
abbrev pub keep_warm : String
keep_warm = "keep-warm"

-- What the controller knows of its backend: whether it allocates GPU indices, and the policy of a
-- deployment that names none.
pub record Policy : Type 0 where
  pub allocates_gpus : Bool
  pub reclaim_default : String

abbrev pub reclaim_of : Policy → Deployment → String
reclaim_of c g = elim g.spec.reclaim [ none ↦ c.reclaim_default | some policy ↦ policy ]

unfoldable pub keeps_up : Policy → Deployment → Bool
keeps_up c g = if is_live g.state then true else is_idle g.state && reclaim_of c g == keep_warm

-- None where the cluster schedules.
unfoldable pub gpu_units : Policy → Deployment → ℕ
gpu_units c g = if c.allocates_gpus then required_gpu_count g else 0

-- `_admission_view`: the deployments that a render is given, by their role.
pub record View : Type 0 where
  pub required : List Deployment
  pub optional : List Deployment
  pub hard : Dict (List ℕ)
  pub hints : Dict (List ℕ)

abbrev pub empty_view : View
empty_view = record { required = []; optional = []; hard = []; hints = [] }

-- `residency.resident_gpus(gid) if residency is not None else None`
abbrev pub known_gpus : Option Residency → String → Option (List ℕ)
known_gpus none id = none
known_gpus (some r) id = resident_gpus r id

module _ (c : Policy) (fresh : List String) (residency : Option Residency) where
  unfoldable pub view_live : Deployment → View → View
  view_live g v = elim g.assigned_gpus [
    | some gpus ↦ record v { required = v.required ++ (g ∷ []); hard = insert g.id gpus v.hard }
    | none ↦ if is_in g.id fresh then record v { required = v.required ++ (g ∷ []) } else v
  ]

  unfoldable pub view_idle : Deployment → View → View
  unfolding keeps_up
  view_idle g v = if not (keeps_up c g) then v else elim (known_gpus residency g.id) [
    | none ↦ v
    | some gpus ↦ record v { optional = v.optional ++ (g ∷ []); hints = insert g.id gpus v.hints }
  ]

  unfoldable pub view_one : Deployment → View → View
  unfolding view_live view_idle
  view_one g v =
      if is_live g.state then view_live g v else if is_idle g.state then view_idle g v else v

  unfoldable pub view_all : Dict Deployment → View → View
  unfolding view_one
  view_all [] v = v
  view_all ((id, g) ∷ d) v = view_all d (view_one g v)

abbrev pub created_ids : AcquireOverlay → List String
created_ids o = map (λ (g : Deployment). g.id) o.created

-- `gid in overlay.created or gid in overlay.revived`
abbrev pub fresh_ids : AcquireOverlay → List String
fresh_ids o = created_ids o ++ o.revived

abbrev pub candidates_of : Option AcquireOverlay → List Deployment
candidates_of none = []
candidates_of (some o) = o.deployments

abbrev pub fresh_of : Option AcquireOverlay → List String
fresh_of none = []
fresh_of (some o) = fresh_ids o

-- The ledger's deployments, with those of a candidate acquire in their place.
unfoldable pub proposed : Option AcquireOverlay → Bool → ℕ → Store → Dict Deployment
unfolding status
proposed o virtual_expiry now s =
    by_key deployment_key (candidates_of o)
      (by_key deployment_key (status virtual_expiry now s).1 [])

abbrev pub to_inputs : View → List Deployment × Inputs
to_inputs v = (
  v.required ++ v.optional,
  record {
    required_ids = map (λ (g : Deployment). g.id) v.required;
    hard = v.hard;
    optional_hints = v.hints;
  },
)

unfoldable pub admission_view :
    Policy → Option Residency → Option AcquireOverlay → Bool → ℕ → Store → List Deployment × Inputs
unfolding view_all proposed
admission_view c residency o virtual_expiry now s =
    to_inputs (view_all c (fresh_of o) residency (proposed o virtual_expiry now s) empty_view)

-- LIVE, with GPUs to account for and none committed.
abbrev pub is_unresolved : Policy → List String → Deployment → Bool
is_unresolved c exclude g = lacks_allocation g && not (is_in g.id exclude) && ltb 0 (gpu_units c g)

unfoldable pub unresolved_allocations : Policy → List String → ℕ → Store → List String
unfolding gpu_units status
unresolved_allocations c exclude now s =
    map (λ (g : Deployment). g.id) (filter (is_unresolved c exclude) (status false now s).1)

-- The GPUs of a container that can be adopted as a reservation.
abbrev pub adoptable : Option Container → Option (List ℕ)
adoptable none = none
adoptable (some unit) = if unit.all_gpus || is_empty unit.gpus then none else some unit.gpus

-- The loop of `_backfill_allocations` over the deployments read before it.
unfoldable pub backfill_each : Policy → Residency → List Deployment → Store → Store × List String
unfolding gpu_units set_allocation
backfill_each c r [] s = (s, [])
backfill_each c r (g ∷ gs) s = elim (lacks_allocation g) [
  | false ↦ backfill_each c r gs s
  | true ↦ elim (eqb (gpu_units c g) 0) [
    | true ↦ backfill_each c r gs (set_allocation g.id (some []) s)
    | false ↦ elim (adoptable (unique_unit r g.id)) [
      | some gpus ↦ backfill_each c r gs (set_allocation g.id (some gpus) s)
      | none ↦ let (t, ids) = backfill_each c r gs s in (t, g.id ∷ ids)
    ]
  ]
]

unfoldable pub backfill_allocations : Policy → Residency → ℕ → Store → Store × List String
unfolding backfill_each status
backfill_allocations c r now s = backfill_each c r (status false now s).1 s

-- `_never_ran`: strict residency, and nothing where the runtime cannot be read.
unfoldable pub never_ran : Option Residency → List String → List String
unfolding units
never_ran none ids = []
never_ran (some r) ids = filter (λ id. is_empty (units r id)) ids

-- `{alias: [resident deployments serving it]}`
unfoldable pub pin_aliases :
    Deployment → List String → Dict (List Deployment) → Dict (List Deployment)
pin_aliases g [] d = d
pin_aliases g (alias ∷ rest) d = elim (lookup alias d) [
  | none ↦ pin_aliases g rest (insert alias (g ∷ []) d)
  | some gs ↦ pin_aliases g rest (insert alias (gs ++ (g ∷ [])) d)
]

abbrev pub is_there : Option Residency → String → Bool
is_there none id = false
is_there (some r) id = is_resident r id

-- LIVE, or IDLE with its container there.
abbrev pub pins : Option Residency → Deployment → Bool
pins r g = is_live g.state || (is_idle g.state && is_there r g.id)

unfoldable pub pin_all :
    Option Residency → List Deployment → Dict (List Deployment) → Dict (List Deployment)
unfolding pin_aliases
pin_all r [] d = d
pin_all r (g ∷ gs) d = pin_all r gs (if pins r g then pin_aliases g (keys g.served) d else d)

unfoldable pub pinned_deployments : Option Residency → ℕ → Store → Dict (List Deployment)
unfolding pin_all status
pinned_deployments r now s = pin_all r (status true now s).1 []

unfoldable pub pinned_endpoints : Option Residency → ℕ → Store → List String
unfolding pinned_deployments
pinned_endpoints r now s = keys (pinned_deployments r now s)

-- `_make_room`: the idle deployments, the longest idle first.
abbrev pub longer_idle : Deployment → Deployment → Bool
longer_idle a b =
    ltb a.updated_at b.updated_at || (eqb a.updated_at b.updated_at && text_leb a.id b.id)

unfoldable pub idle_by_age : ℕ → Store → List Deployment
unfolding status
idle_by_age now s = sort longer_idle (filter (λ g. is_idle g.state) (status true now s).1)

-- `reclaim_candidates` is the backend's answer for one blocked deployment.
abbrev pub useful_to :
    (Deployment → List Deployment → List String) → List Deployment → List Deployment → List String
useful_to reclaim_candidates [] idle = []
useful_to reclaim_candidates (g ∷ blocked) idle =
    reclaim_candidates g idle ++ useful_to reclaim_candidates blocked idle

abbrev first_of : List Deployment → Option Deployment
first_of [] = none
first_of (g ∷ gs) = some g

unfoldable pub victim :
    (Deployment → List Deployment → List String) → List Deployment → ℕ → Store → Option Deployment
unfolding idle_by_age
victim reclaim_candidates blocked now s =
    let idle = idle_by_age now s in
    let useful = useful_to reclaim_candidates blocked idle in
    first_of (filter (λ g. is_in g.id useful) idle)
