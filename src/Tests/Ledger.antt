-- ===== src/Tests/Ledger.antt =====
-- The ledger's operations.

use infer_stack.Base.{
  arith, eq_iff, ◌≡◌, refl, true, false, not, none, some, [], map, any, filter, dedup, select,
  if◌then◌else◌,
}
use infer_stack.Models.{DeploymentState, is_active}
use infer_stack.Store.{
  select_deployment, demand, claims_of_lease, get_lease, get_deployment, with_state,
}
use infer_stack.Store.Demand.{is_claimed_by}
use infer_stack.Ledger.Upkeep.{
  release, is_live_in, renew, renew_if_live, evict_idle, not_renewable, needs_admission, renewed,
  all_live, sweep,
}
use infer_stack.Ledger.Upkeep.Release.{release_lem}
use infer_stack.Ledger.Upkeep.Evict.{evict_idle_lem}
use infer_stack.Ledger.Upkeep.Renew.{renew_if_live-renew}
use infer_stack.Ledger.Held.{IsHeld}
use infer_stack.Ledger.Status.{status}
use infer_stack.Ledger.Expiry.Status.{standing, status-sweep}
use infer_stack.Tests.Rows.{ledger, deployment}

-- Bob's lease runs out at 12.
demand_before : demand ledger "x" 11 ≡ 1
unfolding demand filter dedup select
demand_before = refl

demand_after : demand ledger "x" 12 ≡ 0
unfolding demand filter dedup select
demand_after = refl

release_lem_example :
    select_deployment (release "b" 5 ledger).0 "x"
    ≡ some (with_state DeploymentState.idle 5 (deployment "x" DeploymentState.live 1))
unfolding claims_of_lease is_claimed_by filter any select
release_lem_example = release_lem "b" 5 ledger "x"

evict_idle_lem_example :
    select_deployment (evict_idle none 5 ledger).0 "y"
    ≡ some (with_state DeploymentState.stopped 5 (deployment "y" DeploymentState.idle 2))
unfolding is_claimed_by any select
evict_idle_lem_example = evict_idle_lem none 5 ledger "y" (refl, (refl, tt))

renew_if_live-renew_example : renew_if_live "b" (some 20) 6 ledger ≡ (elim (get_lease ledger "b") [
  | none ↦ (ledger, not_renewable)
  | some l ↦
      if not (is_active l.state)
      then (ledger, not_renewable)
      else if all_live (dedup l.deployment_ids) ledger
      then (let (t, answer) = renew "b" (some 20) [] 6 ledger in (t, renewed answer))
      else (ledger, needs_admission)
])
renew_if_live-renew_example = renew_if_live-renew "b" (some 20) [] 6 ledger

ledger-IsHeld : IsHeld ledger
unfolding is_live_in get_deployment is_claimed_by select any
ledger-IsHeld = record { at = λ id e. ground (arith, eq_iff "x" id, eq_iff "y" id) }

status-sweep_example :
    ((status true 12 ledger).0 ≡ (status false 12 (sweep 12 ledger).0).0)
    × (map standing (status true 12 ledger).1
        ≡ map standing (status false 12 (sweep 12 ledger).0).1)
unfolding any
status-sweep_example = status-sweep 12 ledger (refl, (refl, tt)) (refl, (refl, tt)) ledger-IsHeld
