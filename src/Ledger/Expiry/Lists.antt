-- ===== src/Ledger/Expiry/Lists.antt =====
-- The lists that `status(virtual_expiry=True)` shows, against those after a sweep.
use mathlib.Core.List.{map-map}
use infer_stack.Base.{
  ℕ, String, ◌≡◌, refl, sym, ap, ◌∙◌, List, [], ◌∷◌, map, arith, if◌then◌else◌, Distinct, All-intro,
  map_congr, map-update, sort, sort-map, table_ext,
}
use infer_stack.Models.{LeaseState, DeploymentState, Lease, is_protecting}
use infer_stack.Store.{
  Store, LeaseRow, lease_key, deployment_key, set_lease_state, set_deployment_state, with_state,
  row_to_lease, list_leases, active_leases_past, is_due, by_lease_age,
}
use infer_stack.Ledger.Upkeep.{expire_each, idle_each}
use infer_stack.Ledger.Status.{lapsed}
use infer_stack.Ledger.Expiry.{with_expired, select-expire_each, is_in-due}

keys-expire_each :
    (ls : List Lease) (s : Store) → map lease_key (expire_each ls s).leases ≡ map lease_key s.leases
unfolding expire_each set_lease_state
keys-expire_each [] s = refl
keys-expire_each (l ∷ ls) s =
    keys-expire_each ls (set_lease_state l.id LeaseState.expired s)
    ∙ map-update lease_key l.id with_expired s.leases (λ r. refl)

pub keys-idle_each :
    (ids : List String) (now : ℕ) (s : Store)
    → map deployment_key (idle_each ids now s).0.deployments ≡ map deployment_key s.deployments
unfolding idle_each set_deployment_state
keys-idle_each [] now s = refl
keys-idle_each (id ∷ ids) now s = ground (
  arith,
  keys-idle_each ids now s,
  keys-idle_each ids now (set_deployment_state id DeploymentState.idle now s),
  map-update deployment_key id (with_state DeploymentState.idle now) s.deployments (λ g. refl),
)

abbrev pub swept_lease : ℕ → LeaseRow → LeaseRow
swept_lease now r = if is_due now r then with_expired r else r

module _ (now : ℕ) (s : Store) (keyed : Distinct (map lease_key s.leases)) where
  pub leases-expire_each :
      (expire_each (active_leases_past s now) s).leases ≡ map (swept_lease now) s.leases
  leases-expire_each =
      table_ext lease_key (swept_lease now) s.leases _ keyed
        (keys-expire_each (active_leases_past s now) s)
        (λ k.
          ground
            (arith, select-expire_each (active_leases_past s now) s k, is_in-due now s keyed k))

  swept_lease-age :
      (a b : LeaseRow) → by_lease_age (swept_lease now a) (swept_lease now b) ≡ by_lease_age a b
  swept_lease-age a b = ground arith

  pub list_leases-of :
      (t : Store)
      → t.leases ≡ map (swept_lease now) s.leases
      → t.claims ≡ s.claims
      → list_leases t ≡ map (lapsed now) (list_leases s)
  unfolding list_leases row_to_lease
  list_leases-of t e f =
      ap (λ L. map (row_to_lease t) (sort by_lease_age L)) e
      ∙ ap (map (row_to_lease t)) (sort-map by_lease_age (swept_lease now) swept_lease-age s.leases)
      ∙ map-map (row_to_lease t) (swept_lease now) (sort by_lease_age s.leases)
      ∙ map_congr (λ r. row_to_lease t (swept_lease now r)) (λ r. lapsed now (row_to_lease s r))
          (sort by_lease_age s.leases)
          (All-intro _ (sort by_lease_age s.leases) (λ r.
            ap (λ C. row_to_lease (record s { claims = C }) (swept_lease now r)) f ∙ lapsed-row r))
      ∙ sym (map-map (lapsed now) (row_to_lease s) (sort by_lease_age s.leases))
    where
      lapsed-row :
          (r : LeaseRow) → row_to_lease s (swept_lease now r) ≡ lapsed now (row_to_lease s r)
      lapsed-row r = unfold row_to_lease is_protecting in ground arith
