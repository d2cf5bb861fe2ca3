-- ===== src/Ledger/Held/Removals.antt =====
-- Evictions and prunes of ledger.py, and the invariant of Ledger/Held.
use infer_stack.Base.{
  ℕ, String, ◌≡◌, refl, sym, ◌∙◌, subst, Bool, true, false, not, ◌&&◌, Option, none, some, List, [],
  ◌∷◌, map, any, any_mono, any-filter, filter, is_in, Distinct, any-select, arith, ◌==◌, eq_iff,
  if◌then◌else◌, select,
}
use infer_stack.Models.{DeploymentState, Deployment}
use infer_stack.Result.{ok}
use infer_stack.Store.{
  Store, Claim, lease_key, deployment_key, list_deployments, set_deployment_state,
}
use infer_stack.Store.Demand.{is_claimed_by, is_held, id_active}
use infer_stack.Store.Keys.{HasKeys}
use infer_stack.Store.Prune.Exact.{pruned, survives, prune_ok}
use infer_stack.Ledger.Upkeep.{
  is_live_in, evict_idle, evict_each, evicts, prune, is_over, is_stopped,
}
use infer_stack.Ledger.Upkeep.Idle.{is_live_in-unset, unfold_live}
use infer_stack.Ledger.Held.{IsHeld}
use infer_stack.Ledger.Held.Endings.{bump-IsHeld}

evict_each-IsHeld :
    (gs : List Deployment) (now : ℕ) (s : Store) → IsHeld s → IsHeld (evict_each gs now s)
unfolding evict_each
evict_each-IsHeld [] now s h = h
evict_each-IsHeld (g ∷ gs) now s h =
    evict_each-IsHeld gs now (set_deployment_state g.id DeploymentState.stopped now s) (record {
      at = λ j e.
          ground (
            arith,
            is_live_in-unset g.id j DeploymentState.stopped now s refl,
            h.at j,
            same_rows j,
          );
    })
  where
    same_rows :
        (j : String)
        → is_held (set_deployment_state g.id DeploymentState.stopped now s) j ≡ is_held s j
    same_rows j = unfold set_deployment_state is_claimed_by in refl

pub evict_idle-IsHeld :
    (wanted : Option (List String)) (now : ℕ) (s : Store)
    → IsHeld s
    → IsHeld (evict_idle wanted now s).0
unfolding evict_idle
evict_idle-IsHeld wanted now s h =
    bump-IsHeld _ _ (evict_each-IsHeld (filter (evicts wanted) (list_deployments s now)) now s h)

module _ {ℓ} {R : Type ℓ} (key : R → String) where
  select-absent :
      (k : String) (q : R → Bool) (t : List R)
      → is_in k (map key t) ≡ false
      → select key k (filter q t) ≡ none
  unfolding select filter any
  select-absent k q [] e = refl
  select-absent k q (r ∷ t) e = ground (arith, select-absent k q t)

  -- Under a primary key, a DELETE takes the row or leaves it.
  select-filter :
      (k : String) (q : R → Bool) (t : List R)
      → Distinct (map key t)
      → select key k (filter q t)
        ≡ (elim (select key k t) [ none ↦ none | some r ↦ if q r then some r else none ])
  unfolding select filter
  select-filter k q [] d = refl
  select-filter k q (r ∷ t) d =
      ground (arith, eq_iff (key r) k, select-absent (key r) q t d.0, select-filter k q t d.1)

module _ (s : Store) (h : HasKeys s) where
  live-pruned : (j : String) → is_live_in (pruned is_over is_stopped s) j ≡ is_live_in s j
  live-pruned j = ground (
    arith,
    unfold_live s j,
    unfold_live (pruned is_over is_stopped s) j,
    select-filter deployment_key j (λ g. not (is_stopped g.state)) s.deployments h.deployments,
  )

  active-pruned : (id : String) → id_active (pruned is_over is_stopped s) id ≡ id_active s id
  active-pruned id =
      ground (arith, select-filter lease_key id (λ l. not (is_over l.state)) s.leases h.leases)

  survives_lem :
      (c : Claim)
      → (is_live_in s c.deployment_id && id_active s c.lease_id) ≡ true
      → survives is_over is_stopped s c ≡ true
  survives_lem c e = ground (
    arith,
    unfold_live s c.deployment_id,
    any-select lease_key c.lease_id (λ l. is_over l.state) s.leases h.leases,
    any-select deployment_key c.deployment_id (λ g. is_stopped g.state) s.deployments h.deployments,
  )

  held-pruned :
      (j : String)
      → is_live_in s j ≡ true
      → is_held s j ≡ true
      → is_held (pruned is_over is_stopped s) j ≡ true
  unfolding is_claimed_by
  held-pruned j live held =
      any-filter
        (λ (c : Claim). c.deployment_id == j && id_active (pruned is_over is_stopped s) c.lease_id)
        (survives is_over is_stopped s) s.claims
      ∙ any_mono (λ (c : Claim). c.deployment_id == j && id_active s c.lease_id)
          (λ (c : Claim).
            survives is_over is_stopped s c
            && (c.deployment_id == j && id_active (pruned is_over is_stopped s) c.lease_id))
          s.claims
          (λ c k.
            ground (arith, eq_iff c.deployment_id j, active-pruned c.lease_id, survives_lem c))
          held

  pruned-IsHeld : IsHeld s → IsHeld (pruned is_over is_stopped s)
  pruned-IsHeld held = record {
    at = λ j e. held-pruned j (sym (live-pruned j) ∙ e) (held.at j (sym (live-pruned j) ∙ e));
  }

pub prune-IsHeld :
    (s t : Store) (n m : ℕ) → HasKeys s → IsHeld s → prune s ≡ ok (t, n, m) → IsHeld t
unfolding prune
prune-IsHeld s t n m keys held e =
    subst IsHeld (ground (arith, prune_ok is_over is_stopped s)) (pruned-IsHeld s keys held)
