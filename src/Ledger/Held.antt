-- ===== src/Ledger/Held.antt =====
-- The invariant that ties demand to state: every LIVE deployment is claimed by an ACTIVE lease.
pub mod Endings
pub mod Acquired
pub mod Renewals
pub mod Removals
use infer_stack.Base.{
  ℕ, String, ◌≡◌, refl, sym, ap, ◌∙◌, Bool, true, false, not, ◌&&◌, ◌||◌, Option, none, some, List,
  [], ◌∷◌, ◌++◌, map, filter, arith, eqb, ◌==◌, eq_iff, if◌then◌else◌, select-update, is_in, any,
  dedup, is_in-dedup, Option-cases, inl, inr, select, any_mono, any_split, any-filter, any-map,
  any_congr, any-append,
}
use infer_stack.Models.{LeaseState, DeploymentState, Lease, is_live, is_active}
use infer_stack.Store.{
  Store, Claim, LeaseRow, lease_key, demand, set_deployment_state, set_lease_state, with_state,
  deployment_key, get_deployment, select_deployment, select_lease, claims_of_lease, row_to_lease,
}
use infer_stack.Store.Demand.{
  is_claimed_by, is_held, is_protected, id_active, demand_zero, is_held_of_protected,
}
use infer_stack.Ledger.Upkeep.{is_live_in, idle_each, expire_each, claimed_ids}
use infer_stack.Ledger.Upkeep.Idle.{is_live_in-idle_each, leases-idle_each, claims-idle_each}

pub record IsHeld (s : Store) : Type 0 where
  pub at : (id : String) → is_live_in s id ≡ true → is_held s id ≡ true

pub is_held-congr :
    (s t : Store) (id : String)
    → t.leases ≡ s.leases
    → t.claims ≡ s.claims
    → is_held t id ≡ is_held s id
unfolding is_claimed_by
is_held-congr s t id e f = λ i.
    any
      (λ (c : Claim).
        c.deployment_id == id
        && (elim (select lease_key c.lease_id (e i)) [ none ↦ false | some l ↦ is_active l.state ]))
      (f i)

abbrev pub claimed_of : Store → String → List String
claimed_of s lease_id = map (λ (c : Claim). c.deployment_id) (claims_of_lease lease_id s.claims)

pub is_in-claimed_of :
    (s : Store) (lease_id id : String)
    → is_in id (claimed_of s lease_id)
      ≡ any (λ c. c.lease_id == lease_id && c.deployment_id == id) s.claims
unfolding claims_of_lease
is_in-claimed_of s lease_id id =
    any-map (λ j. j == id) (λ (c : Claim). c.deployment_id)
      (filter (λ c. c.lease_id == lease_id) s.claims)
    ∙ any-filter (λ (c : Claim). c.deployment_id == id) (λ c. c.lease_id == lease_id) s.claims

-- A lease that ends takes its hold on what it claims, and on nothing else.
pub is_held-set_lease_state :
    (s : Store) (lease_id : String) (st : LeaseState) (id : String)
    → is_held s id ≡ true
    → (is_held (set_lease_state lease_id st s) id || is_in id (claimed_of s lease_id)) ≡ true
unfolding is_claimed_by set_lease_state
is_held-set_lease_state s lease_id st id h = rw is_in-claimed_of (
    any_split (λ (c : Claim). c.deployment_id == id && id_active s c.lease_id)
      (λ (c : Claim). c.deployment_id == id && id_active (set_lease_state lease_id st s) c.lease_id)
      (λ (c : Claim). c.lease_id == lease_id && c.deployment_id == id) s.claims
      (λ c k. ground (
        arith,
        eq_iff c.lease_id lease_id,
        eq_iff lease_id c.lease_id,
        select-update lease_key lease_id c.lease_id (λ l. record l { state = st }) s.leases
            (λ l. refl),
      ))
      h)

-- Idling what the ended leases claimed restores the invariant.
pub idle_each-IsHeld :
    (ids : List String) (now : ℕ) (t : Store)
    → ((id : String) → is_live_in t id ≡ true → (is_held t id || is_in id ids) ≡ true)
    → IsHeld (idle_each ids now t).0
idle_each-IsHeld ids now t h = record {
  at = λ id live. ground (
    arith,
    h id,
    is_live_in-idle_each ids now t id,
    demand_zero t id now,
    is_held_of_protected t now id,
    is_held-congr t (idle_each ids now t).0 id (leases-idle_each ids now t)
        (claims-idle_each ids now t),
  );
}
