-- ===== src/Ledger/Held/Renewals.antt =====
-- Renewals of ledger.py, and the invariant of Ledger/Held.
use infer_stack.Base.{
  ℕ, String, ◌≡◌, refl, sym, ◌∙◌, true, not, ◌&&◌, ◌||◌, Option, some, List, [], ◌∷◌, any, any_mono,
  is_in, is_in-dedup, arith, ◌==◌, eq_iff, Option-cases, Bool-cases, inl, inr, Dict, select-update,
  select-key, dedup, is_empty,
}
use infer_stack.Models.{DeploymentState, LeaseState, is_active}
use infer_stack.Store.{
  Store, LeaseRow, Claim, lease_key, deployment_key, select_lease, get_deployment, get_lease,
  row_to_lease, renew_lease, set_deployment_state, set_deployment_allocation, with_state,
}
use infer_stack.Store.Demand.{is_claimed_by, is_held, id_active}
use infer_stack.Ledger.Acquire.{expiry}
use infer_stack.Ledger.Upkeep.{
  is_live_in, renew, renew_active, renew_if_live, revive_each, allocate_revived, all_live,
}
use infer_stack.Ledger.Held.{IsHeld, claimed_of, is_in-claimed_of, is_held-congr}
use infer_stack.Ledger.Held.Endings.{bump-IsHeld}

-- The same leases and claims.
abbrev Kept : Store → Store → Type 0
Kept s t = (t.leases ≡ s.leases) × (t.claims ≡ s.claims)

revive_each-Kept : (ids : List String) (now : ℕ) (s : Store) → Kept s (revive_each ids now s).0
unfolding revive_each set_deployment_state
revive_each-Kept [] now s = (refl, refl)
revive_each-Kept (id ∷ ids) now s = ground (
  arith,
  revive_each-Kept ids now s,
  revive_each-Kept ids now (set_deployment_state id DeploymentState.live now s),
)

allocate_revived-Kept :
    (revived : List String) (d : Dict (List ℕ)) (s : Store) → Kept s (allocate_revived revived d s)
unfolding allocate_revived set_deployment_allocation
allocate_revived-Kept revived [] s = (refl, refl)
allocate_revived-Kept revived ((id, gpus) ∷ d) s = ground (
  arith,
  allocate_revived-Kept revived d s,
  allocate_revived-Kept revived d (set_deployment_allocation id (some gpus) s),
)

is_live_in-revive_each :
    (ids : List String) (now : ℕ) (s : Store) (j : String)
    → is_live_in (revive_each ids now s).0 j ≡ true
    → (is_live_in s j || is_in j ids) ≡ true
unfolding revive_each any
is_live_in-revive_each [] now s j e = ground arith
is_live_in-revive_each (id ∷ ids) now s j e = ground (
  arith,
  eq_iff id j,
  set_live id j now s,
  is_live_in-revive_each ids now s j,
  is_live_in-revive_each ids now (set_deployment_state id DeploymentState.live now s) j,
)
  where
    set_live :
        (id j : String) (now : ℕ) (s : Store)
        → is_live_in (set_deployment_state id DeploymentState.live now s) j ≡ true
        → (is_live_in s j || (id == j)) ≡ true
    set_live id j now s =
        unfold is_live_in get_deployment set_deployment_state in
        ground (
          arith,
          select-update deployment_key id j (with_state DeploymentState.live now) s.deployments
              (λ g. refl),
        )

is_live_in-allocate :
    (revived : List String) (d : Dict (List ℕ)) (s : Store) (j : String)
    → is_live_in (allocate_revived revived d s) j ≡ is_live_in s j
unfolding allocate_revived
is_live_in-allocate revived [] s j = refl
is_live_in-allocate revived ((id, gpus) ∷ d) s j = ground (
  arith,
  set_gpus id gpus s j,
  is_live_in-allocate revived d s j,
  is_live_in-allocate revived d (set_deployment_allocation id (some gpus) s) j,
)
  where
    set_gpus :
        (id : String) (gpus : List ℕ) (s : Store) (j : String)
        → is_live_in (set_deployment_allocation id (some gpus) s) j ≡ is_live_in s j
    set_gpus id gpus s j =
        unfold is_live_in get_deployment set_deployment_allocation in
        ground (
          arith,
          select-update deployment_key id j (λ g. record g { assigned_gpus = some gpus })
              s.deployments (λ g. refl),
        )

-- A renewed lease is ACTIVE, and the others are as they were.
id_active-renew_lease :
    (id : String) (ttl expires : Option ℕ) (now : ℕ) (s : Store) (k : String)
    → id_active s k ≡ true
    → id_active (renew_lease id ttl expires now s) k ≡ true
unfolding renew_lease
id_active-renew_lease id ttl expires now s k e = ground (
  arith,
  select-update lease_key id k
      (λ l. record l {
        state = LeaseState.active;
        ttl_seconds = ttl;
        expires_at = expires;
        heartbeat_at = now;
      })
      s.leases (λ l. refl),
)

is_held-renew_lease :
    (id : String) (ttl expires : Option ℕ) (now : ℕ) (s : Store) (j : String)
    → is_held s j ≡ true
    → is_held (renew_lease id ttl expires now s) j ≡ true
unfolding is_claimed_by renew_lease
is_held-renew_lease id ttl expires now s j =
    any_mono (λ (c : Claim). c.deployment_id == j && id_active s c.lease_id)
      (λ (c : Claim).
        c.deployment_id == j && id_active (renew_lease id ttl expires now s) c.lease_id)
      s.claims (λ c k. ground (arith, id_active-renew_lease id ttl expires now s c.lease_id))

-- What an ACTIVE lease claims is held.
is_held-claimed :
    (s : Store) (lease_id j : String)
    → id_active s lease_id ≡ true
    → is_in j (claimed_of s lease_id) ≡ true
    → is_held s j ≡ true
unfolding is_claimed_by
is_held-claimed s lease_id j a e =
    any_mono (λ (c : Claim). c.lease_id == lease_id && c.deployment_id == j)
      (λ (c : Claim). c.deployment_id == j && id_active s c.lease_id) s.claims
      (λ c k. ground (arith, eq_iff c.lease_id lease_id)) (sym (is_in-claimed_of s lease_id j) ∙ e)

is_live_in-renew_lease :
    (id : String) (ttl expires : Option ℕ) (now : ℕ) (s : Store) (j : String)
    → is_live_in (renew_lease id ttl expires now s) j ≡ is_live_in s j
unfolding is_live_in get_deployment renew_lease
is_live_in-renew_lease id ttl expires now s j = refl

renew_lease-IsHeld :
    (id : String) (ttl expires : Option ℕ) (now : ℕ) (s : Store)
    → IsHeld s
    → IsHeld (renew_lease id ttl expires now s)
renew_lease-IsHeld id ttl expires now s h = record {
  at = λ j e.
      is_held-renew_lease id ttl expires now s j
        (h.at j (sym (is_live_in-renew_lease id ttl expires now s j) ∙ e));
}

renew_active-IsHeld :
    (l : LeaseRow) (ttl : Option ℕ) (allocations : Dict (List ℕ)) (now : ℕ) (s : Store)
    → IsHeld s
    → id_active s l.id ≡ true
    → IsHeld (renew_active (row_to_lease s l) ttl allocations now s)
unfolding renew_active row_to_lease
renew_active-IsHeld l ttl allocations now s h a =
    let t = renew_lease l.id ttl (expiry now ttl) now s in
    let ids = dedup (dedup (claimed_of s l.id)) in
    let u = (revive_each ids now t).0 in
    let v = allocate_revived (revive_each ids now t).1 allocations u in
    bump-IsHeld (not (is_empty (revive_each ids now t).1)) v (record {
      at = λ j e. ground (
        arith,
        is_live_in-allocate (revive_each ids now t).1 allocations u j,
        is_live_in-revive_each ids now t j,
        is_live_in-renew_lease l.id ttl (expiry now ttl) now s j,
        h.at j,
        is_held-renew_lease l.id ttl (expiry now ttl) now s j,
        is_in-dedup j (dedup (claimed_of s l.id)),
        is_in-dedup j (claimed_of s l.id),
        is_held-claimed s l.id j a,
        is_held-congr t u j (revive_each-Kept ids now t).0 (revive_each-Kept ids now t).1,
        is_held-congr u v j (allocate_revived-Kept _ allocations u).0
            (allocate_revived-Kept _ allocations u).1,
      );
    })

pub renew-IsHeld :
    (lease_id : String) (ttl : Option ℕ) (allocations : Dict (List ℕ)) (now : ℕ) (s : Store)
    → IsHeld s
    → IsHeld (renew lease_id ttl allocations now s).0
unfolding renew get_lease row_to_lease
renew-IsHeld lease_id ttl allocations now s h = elim (Option-cases (select_lease s lease_id)) [
  | inl e ↦ rw (e, get_lease, renew) h
  | inr (l, e) ↦
      rw (e, get_lease, renew)
        (elim (Bool-cases (is_active l.state)) [
          | inr a ↦ rw a h
          | inl a ↦ rw a (
              renew_active-IsHeld l ttl allocations now s h
                (ground (arith, e, select-key lease_key lease_id s.leases {r = l} e)))
        ])
]

pub renew_if_live-IsHeld :
    (lease_id : String) (ttl : Option ℕ) (now : ℕ) (s : Store)
    → IsHeld s
    → IsHeld (renew_if_live lease_id ttl now s).0
unfolding renew_if_live
renew_if_live-IsHeld lease_id ttl now s h = elim (Option-cases (get_lease s lease_id)) [
  | inl e ↦ rw (renew_if_live, e) h
  | inr (l, e) ↦
      rw (renew_if_live, e)
        (elim (Bool-cases (is_active l.state)) [
          | inr r ↦ rw r h
          | inl r ↦ rw r (elim (Bool-cases (all_live (dedup l.deployment_ids) s)) [
            | inl k ↦ rw k (renew_lease-IsHeld lease_id ttl (expiry now ttl) now s h)
            | inr k ↦ rw k h
          ])
        ])
]
