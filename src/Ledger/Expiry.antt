-- ===== src/Ledger/Expiry.antt =====
-- What `sweep` writes, lease by lease and deployment by deployment.
pub mod Virtual
pub mod Lists
pub mod Status
use infer_stack.Base.{
  ℕ, String, ◌≡◌, refl, sym, ap, ◌∙◌, Bool, true, false, not, ◌&&◌, ◌||◌, Option, none, some, List,
  [], ◌∷◌, ◌++◌, map, filter, arith, eqb, ◌==◌, eq_iff, if◌then◌else◌, is_in, any, any-map,
  any-filter, any-select, any_congr, any_split, any_guard, any_swap, any-append, dedup, is_in-dedup,
  Distinct, select-update, holds,
}
use mathlib.Core.Option
use infer_stack.Models.{LeaseState, Lease}
use infer_stack.Store.{
  Store, Claim, LeaseRow, lease_key, set_lease_state, select_lease, row_to_lease,
  active_leases_past, is_due, row_protects, id_protects,
}
use infer_stack.Store.Demand.{is_claimed_by, is_held, is_protected, id_active}
use infer_stack.Ledger.Upkeep.{expire_each, claimed_ids}
use infer_stack.Ledger.Held.{claimed_of, is_in-claimed_of}

abbrev pub with_expired : LeaseRow → LeaseRow
with_expired l = record l { state = LeaseState.expired }

abbrev pub ids_of : List Lease → List String
ids_of = map (λ (l : Lease). l.id)

pub select-expire_each :
    (ls : List Lease) (s : Store) (k : String)
    → select_lease (expire_each ls s) k ≡ (
        if is_in k (ids_of ls)
        then Option.map with_expired (select_lease s k)
        else select_lease s k)
unfolding expire_each any set_lease_state
select-expire_each [] s k = refl
select-expire_each (l ∷ ls) s k = ground (
  arith,
  eq_iff l.id k,
  select-update lease_key l.id k with_expired s.leases (λ r. refl),
  select-expire_each ls (set_lease_state l.id LeaseState.expired s) k,
)

pub claims-expire_each : (ls : List Lease) (s : Store) → (expire_each ls s).claims ≡ s.claims
unfolding expire_each set_lease_state
claims-expire_each [] s = refl
claims-expire_each (l ∷ ls) s = claims-expire_each ls (set_lease_state l.id LeaseState.expired s)

pub deployments-expire_each :
    (ls : List Lease) (s : Store) → (expire_each ls s).deployments ≡ s.deployments
unfolding expire_each set_lease_state
deployments-expire_each [] s = refl
deployments-expire_each (l ∷ ls) s =
    deployments-expire_each ls (set_lease_state l.id LeaseState.expired s)

module _ (now : ℕ) (s : Store) (keyed : Distinct (map lease_key s.leases)) where
  -- The due leases are those whose row is due.
  pub is_in-due :
      (k : String)
      → is_in k (ids_of (active_leases_past s now)) ≡ holds (is_due now) (select_lease s k)
  unfolding active_leases_past row_to_lease
  is_in-due k =
      any-map (λ j. j == k) (λ (l : Lease). l.id)
        (map (row_to_lease s) (filter (is_due now) s.leases))
      ∙ any-map (λ (l : Lease). l.id == k) (row_to_lease s) (filter (is_due now) s.leases)
      ∙ any-filter (λ (r : LeaseRow). r.id == k) (is_due now) s.leases
      ∙ any_congr (λ (r : LeaseRow). is_due now r && r.id == k)
          (λ (r : LeaseRow). r.id == k && is_due now r) s.leases (λ r. ground arith)
      ∙ any-select lease_key k (is_due now) s.leases keyed

  -- A lease that is due protects nothing, before or after.
  pub id_protects-swept :
      (k : String)
      → id_protects (expire_each (active_leases_past s now) s) now k ≡ id_protects s now k
  id_protects-swept k =
      ground (arith, select-expire_each (active_leases_past s now) s k, is_in-due k)

  row_claims : String → LeaseRow → Claim → Bool
  row_claims id r c = c.lease_id == r.id && c.deployment_id == id

  claimed_ids-rows :
      (id : String) (rows : List LeaseRow)
      → is_in id (claimed_ids (map (row_to_lease s) rows))
        ≡ any (λ r. any (row_claims id r) s.claims) rows
  unfolding any row_to_lease row_claims
  claimed_ids-rows id [] = refl
  claimed_ids-rows id (r ∷ rows) = ground (
    arith,
    any-append (λ j. j == id) (dedup (claimed_of s r.id)) (claimed_ids (map (row_to_lease s) rows)),
    is_in-dedup id (claimed_of s r.id),
    is_in-claimed_of s r.id id,
    claimed_ids-rows id rows,
  )

  due_claims : String → LeaseRow → Claim → Bool
  due_claims id r c = is_due now r && row_claims id r c

  due_row :
      (id : String) (c : Claim)
      → any (λ r. due_claims id r c) s.leases
        ≡ (c.deployment_id == id && holds (is_due now) (select_lease s c.lease_id))
  unfolding due_claims row_claims
  due_row id c =
      any_congr (λ r. is_due now r && (c.lease_id == r.id && c.deployment_id == id))
        (λ r. c.deployment_id == id && (r.id == c.lease_id && is_due now r)) s.leases
        (λ r. ground (arith, eq_iff c.lease_id r.id, eq_iff r.id c.lease_id))
      ∙ sym (
          any_guard (c.deployment_id == id) (λ (r : LeaseRow). r.id == c.lease_id && is_due now r)
            s.leases)
      ∙ ap (λ b. c.deployment_id == id && b)
          (any-select lease_key c.lease_id (is_due now) s.leases keyed)

  claimed-due :
      (id : String)
      → is_in id (claimed_ids (active_leases_past s now))
        ≡ any
            (λ c. c.deployment_id == id && holds (is_due now) (select_lease s c.lease_id))
            s.claims
  unfolding active_leases_past due_claims
  claimed-due id =
      claimed_ids-rows id (filter (is_due now) s.leases)
      ∙ any-filter (λ r. any (row_claims id r) s.claims) (is_due now) s.leases
      ∙ any_congr (λ r. is_due now r && any (row_claims id r) s.claims)
          (λ r. any (due_claims id r) s.claims) s.leases
          (λ r. any_guard (is_due now r) (row_claims id r) s.claims)
      ∙ any_swap (due_claims id) s.leases s.claims
      ∙ any_congr (λ c. any (λ r. due_claims id r c) s.leases) _ s.claims (λ c. due_row id c)

  -- What is held and not protected is claimed by a due lease.
  pub claimed_of_held :
      (id : String)
      → is_held s id ≡ true
      → (is_protected s now id || is_in id (claimed_ids (active_leases_past s now))) ≡ true
  unfolding is_claimed_by
  claimed_of_held id h = rw (claimed-due id) (
      any_split (λ (c : Claim). c.deployment_id == id && id_active s c.lease_id)
        (λ (c : Claim). c.deployment_id == id && id_protects s now c.lease_id)
        (λ (c : Claim). c.deployment_id == id && holds (is_due now) (select_lease s c.lease_id))
        s.claims (λ c k. ground arith) h)
