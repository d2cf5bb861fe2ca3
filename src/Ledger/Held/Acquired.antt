-- ===== src/Ledger/Held/Acquired.antt =====
-- An `acquire` of its own plan, and the invariant of Ledger/Held.
use infer_stack.Base.{
  ℕ, String, ◌≡◌, refl, ap, ◌∙◌, subst, Bool, true, ◌&&◌, ◌||◌, Option, some, List, [], ◌∷◌, map,
  any, any-append, any_mono, is_in, Distinct, arith, ◌==◌, eq_iff, eq_self, Option-cases, inl, inr,
  Dict, lookup, select, select-append, holds,
}
use infer_stack.Models.{EndpointRequest, is_live}
use infer_stack.Result.{ok}
use infer_stack.Store.{Store, Claim, lease_key, deployment_key, get_deployment}
use infer_stack.Store.Demand.{is_claimed_by, is_held, id_active}
use infer_stack.Ledger.{Ids, AcquireResult}
use infer_stack.Ledger.Plan.{
  Plan, plan_acquire, plan_requests, empty_plan, to_overlay, viewed, claim_id,
}
use infer_stack.Ledger.Plan.View.{IsPlanned, planned}
use infer_stack.Ledger.Acquire.{acquire, commit, checked_overlay, new_lease, to_claim}
use infer_stack.Ledger.Acquire.Version.{acquire-parts}
use infer_stack.Ledger.Acquire.Writes.{Committed, commit-Committed, live_at, is_stored}
use infer_stack.Ledger.Upkeep.{is_live_in, is_idle_in}
use infer_stack.Ledger.Held.{IsHeld}

live_at-is_live_in :
    (s : Store) (j : String)
    → (is_live_in s j ≡ live_at s j) × (is_idle_in s j ≡ true → is_stored s j ≡ true)
unfolding is_live_in is_idle_in get_deployment
live_at-is_live_in s j = (ground arith, λ h. ground arith)

-- The deployments that a plan creates are LIVE.
select-viewed :
    (s : Store) (p : Plan)
    → IsPlanned s p
    → (ids : List String) (j : String)
    → (holds (λ g. is_live g.state) (select deployment_key j (viewed p.view ids))
        ≡ holds (λ g. true) (select deployment_key j (viewed p.view ids)))
      × (holds (λ g. true) (select deployment_key j (viewed p.view ids)) ≡ true
          → is_in j ids ≡ true)
unfolding select any
select-viewed s p h [] j = (refl, λ e. e)
select-viewed s p h (id ∷ ids) j = elim (Option-cases (lookup id p.view)) [
  | inl e ↦ ground (arith, e, select-viewed s p h ids j)
  | inr (g, e) ↦ ground (arith, e, h.view id g e, eq_iff g.id j, select-viewed s p h ids j)
]

viewed-select :
    (s : Store) (p : Plan)
    → IsPlanned s p
    → (ids : List String) (j : String) → is_in j ids ≡ true
    → holds (λ g. true) (lookup j p.view) ≡ true
    → holds (λ g. true) (select deployment_key j (viewed p.view ids)) ≡ true
unfolding select any
viewed-select s p h [] j e f = e
viewed-select s p h (id ∷ ids) j e f = elim (Option-cases (lookup id p.view)) [
  | inl k ↦ ground (arith, k, eq_iff id j, viewed-select s p h ids j)
  | inr (g, k) ↦
      ground (arith, k, h.view id g k, eq_iff g.id j, eq_iff id j, viewed-select s p h ids j)
]

module _ (s t : Store) (p : Plan) (lease_id owner : String) (ttl : Option ℕ) (at : ℕ)
    (h : IsPlanned s p) (c : Committed lease_id owner ttl (to_overlay at s p) s t) where
  id_active-kept : (id : String) → id_active s id ≡ true → id_active t id ≡ true
  id_active-kept id e =
      ground (
        arith,
        c.leases,
        select-append lease_key id s.leases (new_lease lease_id owner at ttl ∷ []),
      )

  id_active-new : id_active t lease_id ≡ true
  unfolding select
  id_active-new = ground (
    arith,
    c.leases,
    c.is_fresh,
    eq_self lease_id,
    select-append lease_key lease_id s.leases (new_lease lease_id owner at ttl ∷ []),
  )

  new_claims-held :
      (cs : List (EndpointRequest × String)) (j : String)
      → is_in j (map claim_id cs) ≡ true
      → any (λ x. x.deployment_id == j && id_active t x.lease_id) (map (to_claim lease_id) cs)
        ≡ true
  unfolding any
  new_claims-held [] j e = e
  new_claims-held (x ∷ cs) j e = ground (arith, id_active-new, new_claims-held cs j)

  is_held-split :
      (j : String)
      → is_held t j ≡ (
          any (λ x. x.deployment_id == j && id_active t x.lease_id) s.claims
          || any
              (λ x. x.deployment_id == j && id_active t x.lease_id)
              (map (to_claim lease_id) p.claims))
  unfolding is_claimed_by
  is_held-split j =
      ap (any (λ x. x.deployment_id == j && id_active t x.lease_id)) c.claims
      ∙ any-append (λ x. x.deployment_id == j && id_active t x.lease_id) s.claims
          (map (to_claim lease_id) p.claims)

  is_held-kept : (j : String) → is_held s j ≡ true → is_held t j ≡ true
  unfolding is_claimed_by
  is_held-kept j e = ground (
    arith,
    is_held-split j,
    any_mono (λ (x : Claim). x.deployment_id == j && id_active s x.lease_id)
        (λ x. x.deployment_id == j && id_active t x.lease_id) s.claims
        (λ x k. ground (arith, id_active-kept x.lease_id)) e,
  )

  is_held-new : (j : String) → is_in j (map claim_id p.claims) ≡ true → is_held t j ≡ true
  is_held-new j e = ground (arith, is_held-split j, new_claims-held p.claims j e)

  -- Each row after the commit.
  lives_lem :
      (j : String)
      → is_live_in t j ≡ (
          is_live_in s j
          || holds (λ g. true) (select deployment_key j (viewed p.view p.created))
          || (is_stored s j && is_in j p.revived))
  lives_lem j = ground (
    arith,
    c.lives j,
    c.are_fresh j,
    select-append deployment_key j s.deployments (viewed p.view p.created),
    select-viewed s p h p.created j,
    live_at-is_live_in s j,
    live_at-is_live_in t j,
  )

  commit-IsHeld : IsHeld s → IsHeld t
  commit-IsHeld held = record {
    at = λ j e. ground (
      arith,
      lives_lem j,
      held.at j,
      is_held-kept j,
      is_held-new j,
      select-viewed s p h p.created j,
      h.created j,
      h.revived j,
    );
  }

  commit-live : (j : String) → is_in j (map claim_id p.claims) ≡ true → is_live_in t j ≡ true
  commit-live j e = ground (
    arith,
    lives_lem j,
    h.claims j,
    h.made j,
    viewed-select s p h p.created j,
    live_at-is_live_in s j,
  )

module _ (ids : Ids) (resident : String → Bool) (owner : String) (requests : List EndpointRequest)
    (ttl : Option ℕ) (allocations : Dict (List ℕ)) (digest profile : Option String)
    (planned_at first_id now next_id : ℕ) (s t : Store) (r : AcquireResult)
    (d : Distinct (map deployment_key s.deployments))
    (e : acquire ids owner requests ttl
        (some (plan_acquire ids resident requests planned_at first_id s))
        allocations
        digest
        profile
        now
        next_id
        s
      ≡ ok (t, r)) where
  abbrev the_plan : Plan
  the_plan = plan_requests ids resident planned_at s requests (empty_plan first_id)

  committed :
      Committed (ids.id_factory "lease" next_id) owner ttl (to_overlay planned_at s the_plan) s t
  unfolding checked_overlay plan_acquire
  committed =
      let (o, f, g) =
        acquire-parts ids owner requests ttl _ allocations digest profile now next_id s t r e in
      commit-Committed (ids.id_factory "lease" next_id) owner ttl (to_overlay planned_at s the_plan)
        allocations digest profile s t
        (subst
          (λ x.
            commit (ids.id_factory "lease" next_id) owner ttl x allocations digest profile s ≡ ok t)
          (ground (arith, f)) g)

  -- An `acquire` that commits its plan keeps the invariant.
  pub acquire-IsHeld : IsHeld s → IsHeld t
  acquire-IsHeld =
      commit-IsHeld s t the_plan (ids.id_factory "lease" next_id) owner ttl planned_at
        (planned s ids d resident planned_at requests first_id) committed

  -- When an `acquire` commits a plan that was made from the same state (whose deployment ids are
  -- distinct), every deployment that the plan claims is LIVE in the new state, be it a new one, one that
  -- was LIVE or one that was IDLE, and an ACTIVE lease claims it.
  pub acquire-live :
      (j : String)
      → is_in j (map claim_id (plan_acquire ids resident requests planned_at first_id s).claims)
        ≡ true
      → (is_live_in t j ≡ true) × (is_held t j ≡ true)
  unfolding plan_acquire
  acquire-live j k =
      let h = planned s ids d resident planned_at requests first_id in
      (
        commit-live s t the_plan (ids.id_factory "lease" next_id) owner ttl planned_at h committed j
            k,
        is_held-new s t the_plan (ids.id_factory "lease" next_id) owner ttl planned_at h committed j
            k,
      )
