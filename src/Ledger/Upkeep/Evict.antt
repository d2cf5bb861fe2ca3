-- ===== src/Ledger/Upkeep/Evict.antt =====
-- What `Ledger.evict_idle` stops.
use mathlib.Core.Option
use infer_stack.Base.{
  ℕ, String, ◌≡◌, ◌∙◌, refl, Bool, true, false, not, ◌&&◌, Option, none, some, List, [], ◌∷◌, arith,
  ◌==◌, eq_iff, if◌then◌else◌, is_in, is_empty, any, any-filter, any-map, any_congr, any-sort,
  filter, map, sort, select-update, Distinct, any-select, holds,
}
use infer_stack.Models.{DeploymentState, Deployment, is_idle}
use infer_stack.Store.{
  Store, deployment_key, select_deployment, list_deployments, with_demand, with_state,
  by_deployment_age, set_deployment_state, bump_desired_generation,
}
use infer_stack.Store.Demand.{is_protected, demand_zero}
use infer_stack.Ledger.Upkeep.{evict_idle, evicts, evict_each, bump_if}

abbrev pub deployment_ids : List Deployment → List String
deployment_ids = map deployment_key

abbrev pub stop_row : ℕ → Bool → Deployment → Deployment
stop_row now gone g = if gone then with_state DeploymentState.stopped now g else g

select-evict_each :
    (gs : List Deployment) (now : ℕ) (s : Store) (j : String)
    → select_deployment (evict_each gs now s) j
      ≡ Option.map (stop_row now (is_in j (deployment_ids gs))) (select_deployment s j)
unfolding evict_each any set_deployment_state
select-evict_each [] now s j = ground arith
select-evict_each (g ∷ gs) now s j = ground (
  arith,
  eq_iff g.id j,
  select-update deployment_key g.id j (with_state DeploymentState.stopped now) s.deployments
      (λ g. refl),
  select-evict_each gs now (set_deployment_state g.id DeploymentState.stopped now s) j,
)

abbrev pub is_wanted : Option (List String) → String → Bool
is_wanted none id = true
is_wanted (some ids) id = is_in id ids

-- The test that an eviction makes of the row with this id.
abbrev pub is_evictable : Option (List String) → ℕ → Store → Deployment → Bool
is_evictable wanted now s g =
    is_idle g.state && not (is_protected s now g.id) && is_wanted wanted g.id

is_in-gone :
    (wanted : Option (List String)) (now : ℕ) (s : Store) (j : String)
    → is_in j (deployment_ids (filter (evicts wanted) (list_deployments s now)))
      ≡ any (λ g. deployment_key g == j && is_evictable wanted now s g) s.deployments
unfolding list_deployments evicts
is_in-gone wanted now s j =
    any-map (λ k. k == j) deployment_key (filter (evicts wanted) (list_deployments s now))
    ∙ any-filter (λ g. deployment_key g == j) (evicts wanted) (list_deployments s now)
    ∙ any-map (λ g. evicts wanted g && deployment_key g == j) (with_demand s now)
        (sort by_deployment_age s.deployments)
    ∙ any-sort by_deployment_age (λ g. evicts wanted (with_demand s now g) && deployment_key g == j)
        s.deployments
    ∙ any_congr (λ g. evicts wanted (with_demand s now g) && deployment_key g == j)
        (λ g. deployment_key g == j && is_evictable wanted now s g) s.deployments
        (λ g. ground (arith, demand_zero s g.id now))

select-bump :
    (b : Bool) (s : Store) (j : String) → select_deployment (bump_if b s) j ≡ select_deployment s j
unfolding bump_desired_generation
select-bump true s j = refl
select-bump false s j = refl

-- With distinct deployment ids, an eviction stops exactly the deployments that are IDLE, that no lease
-- protects and that are among the wanted ids where those are given; the others are as they were.
pub evict_idle_lem :
    (wanted : Option (List String)) (now : ℕ) (s : Store) (j : String)
    → Distinct (map deployment_key s.deployments)
    → select_deployment (evict_idle wanted now s).0 j
      ≡ Option.map
          (stop_row now (holds (is_evictable wanted now s) (select_deployment s j)))
          (select_deployment s j)
unfolding evict_idle
evict_idle_lem wanted now s j d = ground (
  arith,
  is_in-gone wanted now s j,
  any-select deployment_key j (is_evictable wanted now s) s.deployments d,
  select-evict_each (filter (evicts wanted) (list_deployments s now)) now s j,
  select-bump (not (is_empty (filter (evicts wanted) (list_deployments s now))))
      (evict_each (filter (evicts wanted) (list_deployments s now)) now s) j,
)
