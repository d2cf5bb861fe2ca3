-- ===== src/Controller/Acquire/Current.antt =====
-- The version check of `Ledger.acquire` in an attempt of `Controller._acquire_by_admission`.
use infer_stack.Base.{
  ℕ, ◌+◌, String, ◌≡◌, refl, Bool, true, false, Option, none, some, List, [], ◌∷◌, arith, is_empty,
  Dict, Bool-cases, Option-cases, inl, inr,
}
use infer_stack.Models.{Deployment, EndpointRequest}
use infer_stack.Result.{
  Result, ok, err, ◌>>=◌, integrity, admission_conflict, profile_mismatch, address_taken, vanished,
}
use infer_stack.Store.{
  Store, insert_lease, insert_deployment, insert_claim, select_lease, select_deployment, get_lease,
}
use infer_stack.Ledger.{Ids, AcquireOverlay, AcquireResult}
use infer_stack.Ledger.Plan.{plan_acquire}
use infer_stack.Ledger.Acquire.{
  acquire, commit, checked_overlay, acquired, insert_deployments, insert_claims, write_overlay,
  new_lease, to_claim,
}
use infer_stack.Controller.{Policy}
use infer_stack.Controller.Publish.{mark_pending, apply_pending}
use infer_stack.Controller.Render.{
  Written, Rendering, unread, not_approved, not_rendered, rendered, Publication, render,
}
use infer_stack.Controller.Acquire.{
  Ask, World, Attempt, granted, refused, declined, conflict, not_stored, failed, disagreed,
  is_raised, stops, maintain, apply_admitted, unplaced_of, after_render, after_commit, admitted,
  decided, decision, attempt, after_upkeep, candidate, stored_digest, lease_of,
}
use infer_stack.Controller.Sound.Attempt.{mark_pending-tables}

-- The result is the error of a stale preview.
abbrev is_stale {ℓ} : {T : Type ℓ} → Result T → Bool
is_stale (ok x) = false
is_stale (err admission_conflict) = true
is_stale (err integrity) = false
is_stale (err profile_mismatch) = false
is_stale (err address_taken) = false
is_stale (err vanished) = false

fresh_chain :
    {T : Type 0} {U : Type 0} (call : Result T) (next : T → Result U)
    → is_stale call ≡ false
    → ((x : T) → is_stale (next x) ≡ false)
    → is_stale (call >>= next) ≡ false
fresh_chain (ok x) next h k = k x
fresh_chain (err admission_conflict) next h k = h
fresh_chain (err integrity) next h k = refl
fresh_chain (err profile_mismatch) next h k = refl
fresh_chain (err address_taken) next h k = refl
fresh_chain (err vanished) next h k = refl

fresh-insert_deployments :
    (gs : List Deployment) (s : Store) → is_stale (insert_deployments gs s) ≡ false
unfolding insert_deployments insert_deployment
fresh-insert_deployments [] s = refl
fresh-insert_deployments (g ∷ gs) s =
    fresh_chain (insert_deployment g s) (insert_deployments gs)
      (ground (arith, Option-cases (select_deployment s g.id))) (fresh-insert_deployments gs)

fresh-insert_claims :
    (lease_id : String) (cs : List (EndpointRequest × String)) (s : Store)
    → is_stale (insert_claims lease_id cs s) ≡ false
unfolding insert_claims insert_claim
fresh-insert_claims lease_id [] s = refl
fresh-insert_claims lease_id (c ∷ cs) s =
    fresh_chain (insert_claim (to_claim lease_id c) s) (insert_claims lease_id cs)
      (ground
        (arith, Option-cases (select_lease s lease_id), Option-cases (select_deployment s c.1)))
      (fresh-insert_claims lease_id cs)

fresh-commit :
    (lease_id owner : String) (ttl : Option ℕ) (o : AcquireOverlay) (allocations : Dict (List ℕ))
    (digest profile : Option String) (s : Store)
    → is_stale (commit lease_id owner ttl o allocations digest profile s) ≡ false
unfolding commit insert_lease
fresh-commit lease_id owner ttl o allocations digest profile s =
    fresh_chain (insert_lease (new_lease lease_id owner o.now ttl) s) _
      (ground (arith, Option-cases (select_lease s lease_id)))
      (λ t.
        fresh_chain (insert_deployments o.created t) _ (fresh-insert_deployments o.created t) (λ u.
          fresh_chain
            (insert_claims lease_id o.claims (write_overlay o allocations digest profile u)) _
            (fresh-insert_claims lease_id o.claims (write_overlay o allocations digest profile u))
            (λ v. refl)))

fresh-acquire :
    (ids : Ids) (owner : String) (requests : List EndpointRequest) (ttl : Option ℕ)
    (o : AcquireOverlay) (allocations : Dict (List ℕ)) (digest profile : Option String)
    (now next_id : ℕ) (s : Store)
    → s.meta.admission_state_version ≡ o.state_version
    → is_stale (acquire ids owner requests ttl (some o) allocations digest profile now next_id s)
      ≡ false
unfolding acquire checked_overlay acquired
fresh-acquire ids owner requests ttl o allocations digest profile now next_id s same =
    let lease = ids.id_factory "lease" next_id in
    fresh_chain (checked_overlay ids requests (some o) now (next_id + 1) s) _ (ground (arith, same))
      (λ p.
        fresh_chain (commit lease owner ttl p allocations digest profile s) (acquired lease p)
          (fresh-commit lease owner ttl p allocations digest profile s)
          (λ t. ground (arith, Option-cases (get_lease t lease))))

abbrev pub is_conflict : Attempt → Bool
is_conflict (granted answer) = false
is_conflict (refused reasons) = false
is_conflict declined = false
is_conflict conflict = true
is_conflict (not_stored e) = false
is_conflict (failed p) = false
is_conflict (disagreed ids) = false

module _ (c : Policy) (fresh : Option String) (w : World) (ask : Ask) (now : ℕ)
    (lease : String) where
  apply_admitted-current :
      (answer : AcquireResult) (x : Written) (s : Store)
      → is_conflict (apply_admitted c fresh w ask now lease answer x s).1 ≡ false
  unfolding apply_admitted
  apply_admitted-current answer x s = elim (Bool-cases ask.apply) [
    | inr e ↦ rw e refl
    | inl e ↦
        let (t, ending) = apply_pending w.main.explicit x.digest w.main.verdict w.main.applied s in
        elim (Bool-cases (is_raised ending)) [ inr f ↦ rw (e, f) refl | inl f ↦ rw (e, f) refl ]
  ]

  after_render-current :
      (answer : AcquireResult) (s : Store) (r : Rendering)
      → is_conflict (after_render c fresh w ask now lease answer s r).1 ≡ false
  unfolding after_render
  after_render-current answer s not_approved = refl
  after_render-current answer s unread = refl
  after_render-current answer s not_rendered = refl
  after_render-current answer s (rendered x) =
      elim (Bool-cases (is_empty (unplaced_of c fresh w ask now lease answer x))) [
        | inl e ↦ rw e (apply_admitted-current answer x s)
        | inr e ↦ rw e refl
      ]

  after_commit-current :
      (s : Store) (x : Result (Store × AcquireResult))
      → is_stale x ≡ false
      → is_conflict (after_commit c fresh w ask now lease s x).1 ≡ false
  unfolding after_commit
  after_commit-current s (ok (t, answer)) h =
      let (u, r) = render c w.main t in after_render-current answer u r
  after_commit-current s (err admission_conflict) h = cc
  after_commit-current s (err integrity) h = refl
  after_commit-current s (err profile_mismatch) h = refl
  after_commit-current s (err address_taken) h = refl
  after_commit-current s (err vanished) h = refl

module _ (c : Policy) (fresh : Option String) (ids : Ids) (w : World) (ask : Ask)
    (now next_id : ℕ) where
  admitted-current :
      (approve : Option (Option String)) (s : Store)
      → is_conflict (admitted c fresh ids w ask now next_id approve s).1 ≡ false
  unfolding admitted plan_acquire
  admitted-current none s = refl
  admitted-current (some digest) s =
      let t = mark_pending ask.apply fresh s in
      let o = candidate c fresh ids w ask now next_id s in
      let d = decision c fresh ids w ask now next_id s in
      after_commit-current c fresh w ask now (lease_of c fresh ids w ask now next_id s) t _ (
        fresh-acquire ids ask.owner ask.requests ask.ttl_seconds o d.allocations
          (stored_digest ask.apply digest) ask.profile now o.next_id t
          (mark_pending-tables ask.apply fresh s).1)

  decided-current : (s : Store) → is_conflict (decided c fresh ids w ask now next_id s).1 ≡ false
  unfolding decided
  decided-current s =
      elim (Bool-cases (is_empty (decision c fresh ids w ask now next_id s).reasons)) [
        | inl e ↦ rw e (admitted-current w.approve s)
        | inr e ↦ rw e refl
      ]

  pub attempt-current :
      (s : Store) → is_conflict (attempt c fresh ids w ask now next_id s).1 ≡ false
  unfolding attempt
  attempt-current s = let (t, p) = maintain c fresh w.upkeep now s in after t p
    where
      after :
          (t : Store) (p : Option Publication)
          → is_conflict (after_upkeep c fresh ids w ask now next_id t p).1 ≡ false
      after t none = decided-current t
      after t (some p) = elim (Bool-cases (stops p)) [
        | inl e ↦ rw e refl
        | inr e ↦ rw e (decided-current t)
      ]
