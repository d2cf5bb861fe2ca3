-- ===== src/Ledger/Expiry/Virtual.antt =====
-- The demand of a deployment before and after a sweep's writes.
use infer_stack.Base.{
  ℕ, String, ◌≡◌, ap, ◌∙◌, false, ◌&&◌, none, some, List, map, ◌==◌, dedup, Distinct, filter,
  filter_congr, select, length,
}
use infer_stack.Store.{
  Store, Claim, LeaseRow, lease_key, active_leases_past, demand, id_protects, row_protects,
}
use infer_stack.Ledger.Upkeep.{expire_each, idle_each}
use infer_stack.Ledger.Upkeep.Idle.{leases-idle_each, claims-idle_each}
use infer_stack.Ledger.Expiry.{claims-expire_each, id_protects-swept}

demand-congr :
    (s t : Store) (now : ℕ) (id : String)
    → t.claims ≡ s.claims
    → ((k : String) → id_protects t now k ≡ id_protects s now k)
    → demand t id now ≡ demand s id now
unfolding demand
demand-congr s t now id e same =
    ap
      (λ (cs : List Claim). length (
        dedup (
          map (λ (c : Claim). c.lease_id)
            (filter (λ c. c.deployment_id == id && id_protects t now c.lease_id) cs))))
      e
    ∙ ap (λ (cs : List Claim). length (dedup (map (λ (c : Claim). c.lease_id) cs)))
        (filter_congr (λ (c : Claim). c.deployment_id == id && id_protects t now c.lease_id)
          (λ (c : Claim). c.deployment_id == id && id_protects s now c.lease_id) s.claims
          (λ c. ap (λ b. c.deployment_id == id && b) (same c.lease_id)))

module _ (now : ℕ) (s : Store) (keyed : Distinct (map lease_key s.leases)) where
  pub demand-expired :
      (id : String) → demand (expire_each (active_leases_past s now) s) id now ≡ demand s id now
  demand-expired id =
      demand-congr s _ now id (claims-expire_each (active_leases_past s now) s)
        (id_protects-swept now s keyed)

  pub demand-swept :
      (ids : List String) (id : String)
      → demand (idle_each ids now (expire_each (active_leases_past s now) s)).0 id now
        ≡ demand s id now
  demand-swept ids id =
      demand-congr (expire_each (active_leases_past s now) s) _ now id
        (claims-idle_each ids now (expire_each (active_leases_past s now) s))
        (λ k.
          ap
            (λ (L : List LeaseRow). elim (select lease_key k L) [
              | none ↦ false
              | some l ↦ row_protects now l
            ])
            (leases-idle_each ids now (expire_each (active_leases_past s now) s)))
      ∙ demand-expired id
