-- ===== src/Controller/Acquire/Rollback.antt =====
-- Which leases are ACTIVE after `Controller._rollback_acquire`, and after a commit.
use infer_stack.Base.{
  ℕ, String, ◌≡◌, Bool, true, false, Option, some, List, [], ◌∷◌, any, arith, ◌==◌, eq_iff, select,
  select-append, Dict, if◌then◌else◌, Option-cases, Bool-cases, inl, inr,
}
use infer_stack.Result.{ok}
use infer_stack.Store.{Store, lease_key}
use infer_stack.Store.Publication.{
  clear_approved_digest, set_approved_digest, mark_publication_pending, clear_placement_context,
  pending,
}
use infer_stack.Models.{EndpointRequest}
use infer_stack.Ledger.{Ids, AcquireOverlay, AcquireResult}
use infer_stack.Base.{◌+◌, select-key}
use infer_stack.Result.{>>=-steps}
use infer_stack.Store.{get_lease, row_to_lease, select_lease}
use infer_stack.Ledger.Acquire.{commit, checked_overlay, acquired}
use infer_stack.Ledger.Acquire.{acquire, new_lease}
use infer_stack.Ledger.Acquire.Version.{acquire-commit}
use infer_stack.Ledger.Acquire.Writes.{commit-Committed}
use infer_stack.Ledger.Status.{status}
use infer_stack.Ledger.Upkeep.{release, sweep, evict_idle}
use infer_stack.Controller.{Policy, never_ran}
use infer_stack.Controller.Publish.{mark_pending}
use infer_stack.Controller.Render.{Round, render, publish}
use infer_stack.Controller.Render.Frame.{
  active_at, Keeps, render-Keeps, sweep-Keeps, evict_idle-Keeps, release-Keeps, still_inactive,
}
use infer_stack.Controller.Calls.Recorded.{publish-inactive}
use infer_stack.Controller.Acquire.{evict_never_ran, rollback_acquire, is_overdue, maintain}

pub mark_pending-leases :
    (apply : Bool) (fresh : Option String) (s : Store)
    → (mark_pending apply fresh s).leases ≡ s.leases
unfolding mark_pending mark_publication_pending clear_placement_context
mark_pending-leases apply fresh s = ground (arith, Option-cases (pending s))

-- No lease is ACTIVE that was not.
abbrev pub NoneAdded : Store → Store → Type 0
NoneAdded s t = (id : String) → active_at s id ≡ false → active_at t id ≡ false

pub Keeps-NoneAdded : (s t : Store) → Keeps s t → NoneAdded s t
Keeps-NoneAdded s t k id h = still_inactive s t id k h

pub same_leases : (s t : Store) → t.leases ≡ s.leases → NoneAdded s t
same_leases s t e id h = ground (arith, e)

clear_approved_digest-leases : (s : Store) → (clear_approved_digest s).leases ≡ s.leases
unfolding clear_approved_digest set_approved_digest
clear_approved_digest-leases s = ground (arith, Option-cases (pending s))

evict_never_ran-NoneAdded :
    (ids : List String) (now : ℕ) (s : Store) → NoneAdded s (evict_never_ran ids now s)
evict_never_ran-NoneAdded [] now s id h = h
evict_never_ran-NoneAdded (x ∷ xs) now s id h =
    Keeps-NoneAdded s (evict_idle (some (x ∷ xs)) now s).0 (evict_idle-Keeps (some (x ∷ xs)) now s)
      id h

module _ (c : Policy) (fresh : Option String) where
  -- A roll back adds none, and ends its own.
  pub rollback_acquire-ends :
      (k : Round) (now : ℕ) (apply : Bool) (lease : String) (s : Store)
      → NoneAdded s (rollback_acquire c fresh k now apply lease s)
        × (active_at (rollback_acquire c fresh k now apply lease s) lease ≡ false)
  unfolding rollback_acquire
  rollback_acquire-ends k now apply lease s =
      let a = mark_pending apply fresh s in
      let b = clear_approved_digest a in
      let (t, r) = release lease now b in
      let released = release-Keeps lease now b in
      let never = never_ran k.residency r.idled_deployment_ids in
      let rest : (id : String)
          → active_at t id ≡ false
          → active_at (rollback_acquire c fresh k now apply lease s) id ≡ false =
        λ id h.
          published apply (evict_never_ran never now t) id
            (evict_never_ran-NoneAdded never now t id h) in
      (
        λ id h. rest id (
            Keeps-NoneAdded b t released.0 id (
              same_leases a b (clear_approved_digest-leases a) id
                (same_leases s a (mark_pending-leases apply fresh s) id h))),
        rest lease released.1,
      )
    where
      published :
          (apply : Bool) (u : Store) (id : String)
          → active_at u id ≡ false
          → active_at (if apply then (publish c k u).0 else (render c k u).0) id ≡ false
      published true u id h = publish-inactive c k u id h
      published false u id h = still_inactive u (render c k u).0 id (render-Keeps c k u) h

  pub maintain-NoneAdded :
      (m : Round) (now : ℕ) (s : Store) → NoneAdded s (maintain c fresh m now s).0
  unfolding maintain
  maintain-NoneAdded m now s =
      elim (Bool-cases (any (is_overdue c fresh s) (status true now s).0)) [
        | inr e ↦ rw e (λ id h. h)
        | inl e ↦
            let a = mark_pending true fresh s in
            rw e (λ id h. publish-inactive c m (sweep now a).0 id (
              Keeps-NoneAdded a (sweep now a).0 (sweep-Keeps now a) id
                (same_leases s a (mark_pending-leases true fresh s) id h)))
      ]

-- No lease but this one is ACTIVE that was not.
abbrev pub AddedOnly : String → Store → Store → Type 0
AddedOnly lease s t =
    (id : String) → (id == lease) ≡ false → active_at s id ≡ false → active_at t id ≡ false

pub acquire-AddedOnly :
    (ids : Ids) (owner : String) (requests : List EndpointRequest) (ttl : Option ℕ)
    (o : AcquireOverlay) (allocations : Dict (List ℕ)) (digest profile : Option String)
    (now next_id : ℕ) (s t : Store) (r : AcquireResult)
    → acquire ids owner requests ttl (some o) allocations digest profile now next_id s ≡ ok (t, r)
    → AddedOnly (ids.id_factory "lease" next_id) s t
unfolding select
acquire-AddedOnly ids owner requests ttl o allocations digest profile now next_id s t r e id ne h =
    let lease = ids.id_factory "lease" next_id in
    let k =
      commit-Committed lease owner ttl o allocations digest profile s t
        (acquire-commit ids owner requests ttl o allocations digest profile now next_id s t r e) in
    ground (
      arith,
      eq_iff id lease,
      eq_iff lease id,
      k.leases,
      select-append lease_key id s.leases (new_lease lease owner o.now ttl ∷ []),
    )

-- The lease that a commit answers is the one it inserted.
pub acquire-lease :
    (ids : Ids) (owner : String) (requests : List EndpointRequest) (ttl : Option ℕ)
    (o : Option AcquireOverlay) (allocations : Dict (List ℕ)) (digest profile : Option String)
    (now next_id : ℕ) (s t : Store) (r : AcquireResult)
    → acquire ids owner requests ttl o allocations digest profile now next_id s ≡ ok (t, r)
    → r.lease.id ≡ ids.id_factory "lease" next_id
unfolding acquire acquired get_lease row_to_lease
acquire-lease ids owner requests ttl overlay allocations digest profile now next_id s t r e =
    let lease = ids.id_factory "lease" next_id in
    let (o, f, e1) = >>=-steps (checked_overlay ids requests overlay now (next_id + 1) s) _ e in
    let (u, g, e2) =
      >>=-steps (commit lease owner ttl o allocations digest profile s) (acquired lease o) e1 in
    elim (Option-cases (select_lease u lease)) [
      | inl n ↦ ground (arith, n)
      | inr (l, n) ↦ ground (arith, n, select-key lease_key lease u.leases {r = l} n)
    ]
