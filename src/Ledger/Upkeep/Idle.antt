-- ===== src/Ledger/Upkeep/Idle.antt =====
-- `_idle_deployments`: what it does to each deployment, and what it leaves alone.
use mathlib.Core.Option
use infer_stack.Base.{
  ℕ, String, ◌≡◌, refl, Bool, false, not, ◌&&◌, List, [], ◌∷◌, arith, eqb, ◌==◌, eq_iff,
  if◌then◌else◌, select-update, is_in, any, holds,
}
use infer_stack.Models.{DeploymentState, Deployment, is_live}
use infer_stack.Store.{
  Store, demand, set_deployment_state, with_state, deployment_key, get_deployment,
  select_deployment,
}
use infer_stack.Ledger.Upkeep.{is_live_in, idles, idle_each}

pub demand-set_state :
    (i j : String) (st : DeploymentState) (now t : ℕ) (s : Store)
    → demand (set_deployment_state i st now s) j t ≡ demand s j t
unfolding demand set_deployment_state
demand-set_state i j st now t s = refl

-- A deployment that leaves LIVE is no longer live; the others are as before.
pub is_live_in-unset :
    (i j : String) (st : DeploymentState) (now : ℕ) (s : Store)
    → is_live st ≡ false
    → is_live_in (set_deployment_state i st now s) j ≡ (not (i == j) && is_live_in s j)
unfolding is_live_in get_deployment set_deployment_state
is_live_in-unset i j st now s e =
    ground (arith, select-update deployment_key i j (with_state st now) s.deployments (λ g. refl))

pub idles_lem :
    (now : ℕ) (s : Store) (id : String)
    → idles now s id ≡ (is_live_in s id && eqb (demand s id now) 0)
unfolding idles is_live_in
idles_lem now s id = ground arith

pub is_live_in-idle_each :
    (ids : List String) (now : ℕ) (s : Store) (j : String)
    → is_live_in (idle_each ids now s).0 j
      ≡ (is_live_in s j && not (is_in j ids && eqb (demand s j now) 0))
unfolding idle_each any
is_live_in-idle_each [] now s j = ground arith
is_live_in-idle_each (id ∷ ids) now s j = ground (
  arith,
  eq_iff id j,
  idles_lem now s id,
  is_live_in-unset id j DeploymentState.idle now s refl,
  demand-set_state id j DeploymentState.idle now now s,
  is_live_in-idle_each ids now s j,
  is_live_in-idle_each ids now (set_deployment_state id DeploymentState.idle now s) j,
)

-- The leases, the claims and the counters are left alone.
pub leases-idle_each :
    (ids : List String) (now : ℕ) (s : Store) → (idle_each ids now s).0.leases ≡ s.leases
unfolding idle_each set_deployment_state
leases-idle_each [] now s = refl
leases-idle_each (id ∷ ids) now s = ground (
  arith,
  leases-idle_each ids now s,
  leases-idle_each ids now (set_deployment_state id DeploymentState.idle now s),
)

pub claims-idle_each :
    (ids : List String) (now : ℕ) (s : Store) → (idle_each ids now s).0.claims ≡ s.claims
unfolding idle_each set_deployment_state
claims-idle_each [] now s = refl
claims-idle_each (id ∷ ids) now s = ground (
  arith,
  claims-idle_each ids now s,
  claims-idle_each ids now (set_deployment_state id DeploymentState.idle now s),
)

-- The ids that it returns are those that it idled.
pub is_in-idle_each :
    (ids : List String) (now : ℕ) (s : Store) (j : String)
    → is_in j (idle_each ids now s).1 ≡ (is_in j ids && is_live_in s j && eqb (demand s j now) 0)
unfolding idle_each any
is_in-idle_each [] now s j = refl
is_in-idle_each (id ∷ ids) now s j = ground (
  arith,
  eq_iff id j,
  idles_lem now s id,
  is_live_in-unset id j DeploymentState.idle now s refl,
  demand-set_state id j DeploymentState.idle now now s,
  is_in-idle_each ids now s j,
  is_in-idle_each ids now (set_deployment_state id DeploymentState.idle now s) j,
)

abbrev pub idle_row : ℕ → Bool → Deployment → Deployment
idle_row now due g = if is_live g.state && due then with_state DeploymentState.idle now g else g

pub unfold_live :
    (s : Store) (j : String) → is_live_in s j ≡ holds (λ g. is_live g.state) (select_deployment s j)
unfolding is_live_in get_deployment
unfold_live s j = ground arith

select-set_state :
    (i j : String) (st : DeploymentState) (now : ℕ) (s : Store)
    → select_deployment (set_deployment_state i st now s) j ≡ (
        if i == j
        then Option.map (with_state st now) (select_deployment s j)
        else select_deployment s j)
unfolding set_deployment_state
select-set_state i j st now s =
    select-update deployment_key i j (with_state st now) s.deployments (λ g. refl)

-- Each deployment after: LIVE ones that are named and have no demand are IDLE, without their GPUs.
pub select-idle_each :
    (ids : List String) (now : ℕ) (s : Store) (j : String)
    → select_deployment (idle_each ids now s).0 j
      ≡ Option.map (idle_row now (is_in j ids && eqb (demand s j now) 0)) (select_deployment s j)
unfolding idle_each any
select-idle_each [] now s j = ground arith
select-idle_each (id ∷ ids) now s j = ground (
  arith,
  eq_iff id j,
  idles_lem now s id,
  unfold_live s j,
  select-set_state id j DeploymentState.idle now s,
  demand-set_state id j DeploymentState.idle now now s,
  select-idle_each ids now s j,
  select-idle_each ids now (set_deployment_state id DeploymentState.idle now s) j,
)
