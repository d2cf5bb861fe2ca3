-- ===== src/Ledger/Held/Endings.antt =====
-- `release` and `sweep` of ledger.py, and the invariant of Ledger/Held.
use infer_stack.Base.{
  ℕ, String, ◌≡◌, refl, ap, ◌∙◌, Bool, true, false, ◌||◌, List, [], ◌∷◌, map, filter, arith, ◌==◌,
  is_in, any, dedup, is_in-dedup, Option-cases, inl, inr, any-append, Bool-cases,
}
use infer_stack.Models.{LeaseState, Lease}
use infer_stack.Store.{
  Store, Claim, LeaseRow, set_lease_state, get_lease, select_lease, row_to_lease,
  active_leases_past, is_due, bump_desired_generation, get_deployment,
}
use infer_stack.Store.Demand.{is_held, is_claimed_by}
use infer_stack.Ledger.Upkeep.{
  is_live_in, idle_deployments, expire_each, claimed_ids, release, sweep, bump_if, is_released,
}
use infer_stack.Ledger.Held.{IsHeld, claimed_of, is_held-set_lease_state, idle_each-IsHeld}

pub bump-IsHeld : (b : Bool) (s : Store) → IsHeld s → IsHeld (bump_if b s)
unfolding bump_desired_generation is_live_in get_deployment is_claimed_by
bump-IsHeld true s h = record { at = h.at }
bump-IsHeld false s h = h

is_live_in-set_lease_state :
    (s : Store) (lease_id : String) (st : LeaseState) (id : String)
    → is_live_in (set_lease_state lease_id st s) id ≡ is_live_in s id
unfolding is_live_in get_deployment set_lease_state
is_live_in-set_lease_state s lease_id st id = refl

-- Release keeps the invariant, whichever branch it takes.
pub release-IsHeld :
    (lease_id : String) (now : ℕ) (s : Store) → IsHeld s → IsHeld (release lease_id now s).0
unfolding release idle_deployments get_lease row_to_lease
release-IsHeld lease_id now s h = elim (Option-cases (select_lease s lease_id)) [
  | inl e ↦ rw (e, get_lease, release) h
  | inr (l, e) ↦
      rw (e, get_lease, release)
        (elim (Bool-cases (is_released l.state)) [
          | inl r ↦ rw r h
          | inr r ↦ rw r (
              bump-IsHeld _ _ (
                idle_each-IsHeld (dedup (dedup (claimed_of s l.id))) now
                  (set_lease_state l.id LeaseState.released s)
                  λ id live. ground (
                    arith,
                    is_live_in-set_lease_state s l.id LeaseState.released id,
                    h.at id,
                    is_held-set_lease_state s l.id LeaseState.released id,
                    is_in-dedup id (dedup (claimed_of s l.id)),
                    is_in-dedup id (claimed_of s l.id),
                  )))
        ])
]

is_live_in-expire_each :
    (ls : List Lease) (s : Store) (id : String) → is_live_in (expire_each ls s) id ≡ is_live_in s id
unfolding expire_each
is_live_in-expire_each [] s id = refl
is_live_in-expire_each (l ∷ ls) s id =
    is_live_in-expire_each ls (set_lease_state l.id LeaseState.expired s) id
    ∙ is_live_in-set_lease_state s l.id LeaseState.expired id

is_held-expire_each :
    (rows : List LeaseRow) (s₀ s : Store) (id : String)
    → s.claims ≡ s₀.claims
    → is_held s id ≡ true
    → (is_held (expire_each (map (row_to_lease s₀) rows) s) id
        || is_in id (claimed_ids (map (row_to_lease s₀) rows)))
      ≡ true
unfolding expire_each any row_to_lease
is_held-expire_each [] s₀ s id e h = rw h
is_held-expire_each (l ∷ rows) s₀ s id e h = ground (
  arith,
  is_held-set_lease_state s l.id LeaseState.expired id h,
  is_held-expire_each rows s₀ (set_lease_state l.id LeaseState.expired s) id
      (unfold set_lease_state in e),
  any-append (λ j. j == id) (dedup (claimed_of s₀ l.id)) (claimed_ids (map (row_to_lease s₀) rows)),
  is_in-dedup id (claimed_of s₀ l.id),
  ap (λ (c : List Claim). is_in id (claimed_of (record s { claims = c }) l.id)) e,
)

-- Sweep keeps it too: what the due leases held alone is idled.
pub sweep-IsHeld : (now : ℕ) (s : Store) → IsHeld s → IsHeld (sweep now s).0
unfolding sweep active_leases_past
sweep-IsHeld now s h = bump-IsHeld _ _ (
    idle_each-IsHeld (dedup (claimed_ids (active_leases_past s now))) now
      (expire_each (active_leases_past s now) s)
      λ id live. ground (
        arith,
        is_live_in-expire_each (active_leases_past s now) s id,
        h.at id,
        is_held-expire_each (filter (is_due now) s.leases) s s id refl,
        is_in-dedup id (claimed_ids (active_leases_past s now)),
      ))
