-- ===== src/Ledger/Expiry/Status.antt =====
-- `status(virtual_expiry=True)` of ledger.py against `sweep`.
use mathlib.Core.List.{map-map}
use infer_stack.Base.{
  ℕ, String, ◌≡◌, refl, sym, ap, ◌∙◌, Bool, true, false, ◌&&◌, some, List, map, Option-cases, inl,
  inr, arith, eqb, is_in, Distinct, All, All-of_select, All-sort, map_congr, sort, sort-map,
  table_ext, select, select-key, dedup, is_in-dedup,
}
use infer_stack.Models.{DeploymentState, Deployment}
use infer_stack.Store.{
  Store, lease_key, deployment_key, list_leases, list_deployments, active_leases_past, demand,
  select_deployment, by_deployment_age, bump_desired_generation, with_demand, row_to_lease,
}
use infer_stack.Store.Demand.{demand_zero}
use infer_stack.Ledger.Upkeep.{
  sweep, expire_each, idle_each, idle_deployments, claimed_ids, bump_if,
}
use infer_stack.Ledger.Upkeep.Idle.{
  select-idle_each, leases-idle_each, claims-idle_each, idle_row, unfold_live,
}
use infer_stack.Ledger.Status.{status, undemanded}
use infer_stack.Ledger.Held.{IsHeld}
use infer_stack.Ledger.Expiry.{claims-expire_each, deployments-expire_each, claimed_of_held}
use infer_stack.Ledger.Expiry.Virtual.{demand-expired, demand-swept}
use infer_stack.Ledger.Expiry.Lists.{list_leases-of, leases-expire_each, keys-idle_each}

-- What the view and the ledger must agree on: the id, the state and the demand.
abbrev pub standing : Deployment → String × DeploymentState × ℕ
standing g = (g.id, g.state, g.demand)

list_leases-bump : (b : Bool) (s : Store) → list_leases (bump_if b s) ≡ list_leases s
unfolding list_leases row_to_lease bump_desired_generation
list_leases-bump true s = refl
list_leases-bump false s = refl

list_deployments-bump :
    (b : Bool) (s : Store) (now : ℕ) → list_deployments (bump_if b s) now ≡ list_deployments s now
unfolding list_deployments demand bump_desired_generation
list_deployments-bump true s now = refl
list_deployments-bump false s now = refl

module _ (now : ℕ) (s : Store) (keyed : Distinct (map lease_key s.leases))
    (deployments_keyed : Distinct (map deployment_key s.deployments)) (held : IsHeld s) where
  abbrev t : Store
  t = expire_each (active_leases_past s now) s

  abbrev ids : List String
  ids = dedup (claimed_ids (active_leases_past s now))

  swept_row : Deployment → Deployment
  swept_row g = idle_row now (is_in g.id ids && eqb (demand t g.id now) 0) g

  deployments-swept : (idle_each ids now t).0.deployments ≡ map swept_row s.deployments
  unfolding swept_row
  deployments-swept =
      table_ext deployment_key swept_row s.deployments _ deployments_keyed
        (keys-idle_each ids now t
          ∙ ap (map deployment_key) (deployments-expire_each (active_leases_past s now) s))
        λ k. elim (Option-cases (select_deployment s k)) [
          | inl e ↦ ground (
            arith,
            select-idle_each ids now t k,
            ap (select deployment_key k) (deployments-expire_each (active_leases_past s now) s),
          )
          | inr (g, e) ↦ ground (
            arith,
            select-idle_each ids now t k,
            ap (select deployment_key k) (deployments-expire_each (active_leases_past s now) s),
            ap (λ j. idle_row now (is_in j ids && eqb (demand t j now) 0) g)
                (select-key deployment_key k s.deployments e),
          )
        ]

  swept_row-age :
      (a b : Deployment) → by_deployment_age (swept_row a) (swept_row b) ≡ by_deployment_age a b
  unfolding swept_row
  swept_row-age a b = ground arith

  u : Store
  u = (idle_each ids now t).0

  standing-row :
      (k : String) (g : Deployment)
      → select_deployment s k ≡ some g
      → standing (with_demand u now (swept_row g)) ≡ standing (undemanded (with_demand s now g))
  unfolding swept_row u
  standing-row k g e = ground (
    arith,
    select-key deployment_key k s.deployments e,
    demand-expired now s keyed k,
    demand-swept now s keyed ids k,
    is_in-dedup k (claimed_ids (active_leases_past s now)),
    held.at k,
    unfold_live s k,
    demand_zero s k now,
    claimed_of_held now s keyed k,
  )

  standing-rows :
      All
        (λ g.
          standing (with_demand u now (swept_row g)) ≡ standing (undemanded (with_demand s now g)))
        (sort by_deployment_age s.deployments)
  standing-rows =
      All-sort by_deployment_age _ s.deployments
        (All-of_select deployment_key _ s.deployments deployments_keyed standing-row)

  list_deployments-swept :
      map standing (list_deployments u now) ≡ map standing (map undemanded (list_deployments s now))
  unfolding list_deployments u
  list_deployments-swept =
      ap (λ D. map standing (map (with_demand u now) (sort by_deployment_age D))) deployments-swept
      ∙ ap (λ D. map standing (map (with_demand u now) D))
          (sort-map by_deployment_age swept_row swept_row-age s.deployments)
      ∙ ap (map standing)
          (map-map (with_demand u now) swept_row (sort by_deployment_age s.deployments))
      ∙ map-map standing (λ g. with_demand u now (swept_row g))
          (sort by_deployment_age s.deployments)
      ∙ map_congr _ _ (sort by_deployment_age s.deployments) standing-rows
      ∙ sym (
          map-map (λ g. standing (undemanded g)) (with_demand s now)
            (sort by_deployment_age s.deployments))
      ∙ sym (
          map-map standing undemanded
            (map (with_demand s now) (sort by_deployment_age s.deployments)))

  -- The read-only view with virtual expiry shows the leases that a sweep at that time would leave,
  -- and the same deployments in the same order with the same state and demand. The ids of leases and
  -- of deployments must be distinct, and every LIVE deployment claimed by an ACTIVE lease.
  pub status-sweep :
      ((status true now s).0 ≡ (status false now (sweep now s).0).0)
      × (map standing (status true now s).1 ≡ map standing (status false now (sweep now s).0).1)
  unfolding status sweep idle_deployments u
  status-sweep = (
    sym (
        list_leases-bump _ _
        ∙ list_leases-of now s keyed u (leases-idle_each ids now t ∙ leases-expire_each now s keyed)
            (claims-idle_each ids now t ∙ claims-expire_each (active_leases_past s now) s)),
    sym (ap (map standing) (list_deployments-bump _ _ now) ∙ list_deployments-swept),
  )
