-- ===== src/Ledger/Upkeep/Release.antt =====
-- What `Ledger.release` does to each deployment.
use mathlib.Core.Option
use infer_stack.Base.{
  ℕ, String, ◌≡◌, refl, sym, holds, ap, ◌∙◌, Bool, true, false, not, ◌&&◌, arith, eqb, ◌==◌, eq_iff,
  is_in, is_empty, any_congr, dedup, is_in-dedup, Bool-cases, Option-cases, inl, inr, select-update,
  select-key,
}
use infer_stack.Models.{LeaseState, is_active}
use infer_stack.Store.{
  Store, Claim, LeaseRow, lease_key, select_lease, select_deployment, get_lease, row_to_lease,
  id_protects, demand, set_lease_state, bump_desired_generation,
}
use infer_stack.Store.Demand.{is_protected, is_claimed_by, demand_zero}
use infer_stack.Ledger.Held.{claimed_of}
use infer_stack.Ledger.Upkeep.{
  release, release_active, idle_deployments, idle_each, bump_if, is_released,
}
use infer_stack.Ledger.Upkeep.Idle.{select-idle_each, idle_row}

select-bump :
    (b : Bool) (s : Store) (j : String) → select_deployment (bump_if b s) j ≡ select_deployment s j
unfolding bump_desired_generation
select-bump true s j = refl
select-bump false s j = refl

-- Another lease than this one protects the deployment.
abbrev pub is_protected_without : Store → String → ℕ → String → Bool
is_protected_without s lease_id now =
    is_claimed_by (λ id. not (id == lease_id) && id_protects s now id) s

is_protected-ended :
    (s : Store) (lease_id : String) (st : LeaseState) (now : ℕ) (id : String)
    → is_active st ≡ false
    → is_protected (set_lease_state lease_id st s) now id ≡ is_protected_without s lease_id now id
unfolding is_claimed_by set_lease_state
is_protected-ended s lease_id st now id e =
    any_congr
      (λ (c : Claim).
        c.deployment_id == id && id_protects (set_lease_state lease_id st s) now c.lease_id)
      (λ (c : Claim).
        c.deployment_id == id && (not (c.lease_id == lease_id) && id_protects s now c.lease_id))
      s.claims
      λ c. ground (
        arith,
        eq_iff c.lease_id lease_id,
        eq_iff lease_id c.lease_id,
        select-update lease_key lease_id c.lease_id (λ l. record l { state = st }) s.leases
            (λ l. refl),
      )

now_idled :
    (l : LeaseRow) (now : ℕ) (s : Store) (j : String)
    → (is_in j (dedup (dedup (claimed_of s l.id)))
        && eqb (demand (set_lease_state l.id LeaseState.released s) j now) 0)
      ≡ (is_in j (claimed_of s l.id) && not (is_protected_without s l.id now j))
now_idled l now s j = ground (
  arith,
  is_in-dedup j (dedup (claimed_of s l.id)),
  is_in-dedup j (claimed_of s l.id),
  demand_zero (set_lease_state l.id LeaseState.released s) j now,
  is_protected-ended s l.id LeaseState.released now j refl,
)

release_active_lem :
    (l : LeaseRow) (now : ℕ) (s : Store) (j : String)
    → select_deployment (release_active (row_to_lease s l) now s).0 j
      ≡ Option.map
          (idle_row now (is_in j (claimed_of s l.id) && not (is_protected_without s l.id now j)))
          (select_deployment s j)
unfolding release_active idle_deployments row_to_lease set_lease_state
release_active_lem l now s j =
    let t = set_lease_state l.id LeaseState.released s in
    let ids = dedup (dedup (claimed_of s l.id)) in
    select-bump (not (is_empty (idle_each ids now t).1)) (idle_each ids now t).0 j
    ∙ select-idle_each ids now t j
    ∙ ap (λ b. Option.map (idle_row now b) (select_deployment s j)) (now_idled l now s j)

-- Each deployment after a release. If the lease is not there, or is released already, no deployment
-- changes. If the lease is ACTIVE or EXPIRED, a deployment is IDLE without its GPUs when it was LIVE,
-- the lease claims it and no other lease protects it at that time, and otherwise it is as it was.
pub release_lem :
    (lease_id : String) (now : ℕ) (s : Store) (j : String)
    → select_deployment (release lease_id now s).0 j
      ≡ Option.map
          (idle_row now (
            holds (λ l. not (is_released l.state)) (select_lease s lease_id)
            && (is_in j (claimed_of s lease_id) && not (is_protected_without s lease_id now j))))
          (select_deployment s j)
unfolding release get_lease row_to_lease
release_lem lease_id now s j = elim (Option-cases (select_lease s lease_id)) [
  | inl e ↦ rw (e, get_lease, release) (ground arith)
  | inr (l, e) ↦
      rw (e, get_lease, release)
        (elim (Bool-cases (is_released l.state)) [
          | inl r ↦ rw r (ground arith)
          | inr r ↦ rw r (
              rw (sym (select-key lease_key lease_id s.leases {r = l} e))
                (release_active_lem l now s j))
        ])
]
