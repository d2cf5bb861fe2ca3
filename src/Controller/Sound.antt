-- ===== src/Controller/Sound.antt =====
-- The controller's renders and publications as steps of the ledger's life.
pub mod Attempt
pub mod Upkeep
pub mod Queue
pub mod Calls
use infer_stack.Base.{
  ℕ, String, ◌≡◌, refl, sym, ap, ◌∙◌, subst, Bool, true, false, not, ◌&&◌, Option, none, some, List,
  [], ◌∷◌, any, is_empty, arith, Bool-cases, Option-cases, inl, inr, Dict, eqb, if◌then◌else◌, ◌⊎◌,
}
use infer_stack.Models.{Lease, Deployment, EndpointRequest, lacks_allocation}
use infer_stack.Result.{Result, ok, err}
use infer_stack.Store.{Store, Marker}
use infer_stack.Store.Publication.{
  pending, mark_publication_pending, set_approved_digest, clear_approved_digest,
  clear_publication_pending, clear_placement_context,
}
use infer_stack.Store.Addresses.{add_service_addresses}
use infer_stack.Residency.{Residency, unique_unit}
use infer_stack.Ledger.{Ids}
use infer_stack.Ledger.Setters.{set_allocation, set_adopted_containers}
use infer_stack.Ledger.Status.{status}
use infer_stack.Ledger.Upkeep.{release, sweep, evict_idle}
use infer_stack.System.{
  Step, Reachable, after, releases, sweeps, evicts_idle, adds_addresses, marks, approves, clears,
  clears_context, allocates, adopts,
}
use infer_stack.System.Invariant.{IsSound, Reachable-IsSound}
use infer_stack.Controller.{Policy, backfill_each, backfill_allocations, gpu_units, adoptable}
use infer_stack.Controller.Publish.{
  ApplyResult, Applied, returns, refused, cut_off, unobserved, Verdict, is_settled, is_given,
  complete, of, reapprove, approval, finish, attempt, apply_pending, mark_pending,
}
use infer_stack.Controller.Render.{
  Round, Converged, declined, failed, wrote, unseen, Written, with_addresses, without_sight,
  converged, render, Rendering, unread, not_approved, not_rendered, rendered, then_apply, publish,
}

module _ (ids : Ids) where
  pub mark_pending-Reachable :
      (apply : Bool) (fresh : Option String) (s : Store)
      → Reachable ids s
      → Reachable ids (mark_pending apply fresh s)
  unfolding mark_pending
  mark_pending-Reachable apply fresh s h =
      let t = clear_placement_context s in
      after t _ (after s t h (clears_context s)) (marks apply false none none _ t)

  pub sweep-Reachable : (now : ℕ) (s : Store) → Reachable ids s → Reachable ids (sweep now s).0
  sweep-Reachable now s h = after s _ h (sweeps now s)

  pub evict_idle-Reachable :
      (wanted : Option (List String)) (now : ℕ) (s : Store)
      → Reachable ids s
      → Reachable ids (evict_idle wanted now s).0
  evict_idle-Reachable wanted now s h = after s _ h (evicts_idle wanted now s)

  pub release-Reachable :
      (id : String) (now : ℕ) (s : Store) → Reachable ids s → Reachable ids (release id now s).0
  release-Reachable id now s h = after s _ h (releases id now s)

  backfill_each-Reachable :
      (c : Policy) (r : Residency) (gs : List Deployment) (s : Store)
      → Reachable ids s
      → Reachable ids (backfill_each c r gs s).0
  unfolding backfill_each
  backfill_each-Reachable c r [] s h = h
  backfill_each-Reachable c r (g ∷ gs) s h = elim (Bool-cases (lacks_allocation g)) [
    | inr e ↦ rw (e, backfill_each) (backfill_each-Reachable c r gs s h)
    | inl e ↦ elim (Bool-cases (eqb (gpu_units c g) 0)) [
      | inl f ↦
          rw (e, f, backfill_each)
            (backfill_each-Reachable c r gs _ (after s _ h (allocates g.id (some []) s)))
      | inr f ↦ elim (Option-cases (adoptable (unique_unit r g.id))) [
        | inl k ↦ rw (e, f, k, backfill_each) (backfill_each-Reachable c r gs s h)
        | inr (gpus, k) ↦
            rw (e, f, k, backfill_each)
              (backfill_each-Reachable c r gs _ (after s _ h (allocates g.id (some gpus) s)))
      ]
    ]
  ]

  converged-Reachable :
      (e : Round) (v : Converged) (s : Store) → Reachable ids s → Reachable ids (converged e v s).0
  unfolding converged
  converged-Reachable e declined s h = h
  converged-Reachable e failed s h = h
  converged-Reachable e (unseen table) s h = seen (add_service_addresses table s) refl
    where
      seen :
          (x : Result Store)
          → add_service_addresses table s ≡ x
          → Reachable ids (without_sight s x).0
      seen (err reason) f = h
      seen (ok t) f = after s t h (adds_addresses table s t f)
  converged-Reachable e (wrote table w) s h = added (add_service_addresses table s) refl
    where
      added :
          (x : Result Store)
          → add_service_addresses table s ≡ x
          → Reachable ids (with_addresses e w s x).0
      added (err reason) f = h
      added (ok t) f =
          after t _ (after s t h (adds_addresses table s t f))
            (adopts (e.adopt_existing t.meta.adopted_containers) t)

  pub render-Reachable :
      (c : Policy) (e : Round) (s : Store) → Reachable ids s → Reachable ids (render c e s).0
  unfolding render backfill_allocations
  render-Reachable c e s h = elim (Option-cases e.residency) [
    | inl f ↦ rw (f, render) (sweep-Reachable e.now s h)
    | inr (r, f) ↦
        let t = (sweep e.now s).0 in
        let u = (backfill_each c r (status false e.now t).1 t).0 in
        let v = set_adopted_containers (e.prune_adopted u.meta.adopted_containers) u in
        rw (f, render)
          (converged-Reachable e _ v (
            after u v
              (backfill_each-Reachable c r (status false e.now t).1 t (sweep-Reachable e.now s h))
              (adopts (e.prune_adopted u.meta.adopted_containers) u)))
  ]

  pub clear_approved_digest-Reachable :
      (s : Store) → Reachable ids s → Reachable ids (clear_approved_digest s)
  unfolding clear_approved_digest
  clear_approved_digest-Reachable s h = after s _ h (approves none s)

  reapprove-Reachable :
      (digest : Option String) (s : Store) → Reachable ids s → Reachable ids (reapprove digest s)
  reapprove-Reachable none s h = h
  reapprove-Reachable (some digest) s h = after s _ h (approves (some digest) s)

  finish-Reachable :
      (m : Marker) (approved : Option String) (r : ApplyResult) (s : Store)
      → Reachable ids s
      → Reachable ids (finish m approved r s).0
  unfolding finish
  finish-Reachable m approved r s h = elim (Bool-cases (complete r)) [
    | inr e ↦ rw e h
    | inl e ↦ elim (Bool-cases (is_given approved)) [
      | inr f ↦ rw (e, f) (after s _ h (clears m.version s))
      | inl f ↦
          let t = clear_approved_digest s in
          rw (e, f) (after t _ (clear_approved_digest-Reachable s h) (clears m.version t))
    ]
  ]

  attempt-Reachable :
      (m : Marker) (approved : Option String) (applied : Applied) (s : Store)
      → Reachable ids s
      → Reachable ids (attempt m approved applied s).0
  unfolding attempt
  attempt-Reachable m approved (returns value) s h = finish-Reachable m approved (of value) s h
  attempt-Reachable m approved refused s h = after s _ h (marks true false none none none s)
  attempt-Reachable m approved cut_off s h = after s _ h (marks true true none none none s)
  attempt-Reachable m approved unobserved s h = h

  approval-Reachable :
      (explicit : Bool) (digest : Option String) (m : Marker) (s t : Store)
      (approved : Option String)
      → approval explicit digest m s ≡ some (t, approved)
      → Reachable ids s
      → Reachable ids t
  unfolding approval
  approval-Reachable explicit digest m s t approved e h = elim (approval-state) [
    | inl f ↦ subst (Reachable ids) {x = s} {y = t} f h
    | inr f ↦
        subst (Reachable ids) {x = reapprove digest s} {y = t} f (reapprove-Reachable digest s h)
  ]
    where
      approval-state : (s ≡ t) ⊎ (reapprove digest s ≡ t)
      approval-state = ground arith

  pub apply_pending-Reachable :
      (explicit : Bool) (digest : Option String) (verdict : Verdict) (applied : Applied) (s : Store)
      → Reachable ids s
      → Reachable ids (apply_pending explicit digest verdict applied s).0
  unfolding apply_pending
  apply_pending-Reachable explicit digest verdict applied s h = elim (Option-cases (pending s)) [
    | inl e ↦ rw (e, apply_pending) h
    | inr (m, e) ↦ elim (Bool-cases m.apply_requested) [
      | inr f ↦ rw (e, f, apply_pending) h
      | inl f ↦ elim (Option-cases (approval explicit digest m s)) [
        | inl k ↦ rw (e, f, k, apply_pending) h
        | inr ((t, approved), k) ↦
            let ready = approval-Reachable explicit digest m s t approved k h in
            elim (Bool-cases (m.interrupted && not (is_settled verdict))) [
              | inl w ↦ rw (e, f, k, w, apply_pending) ready
              | inr w ↦
                  rw (e, f, k, w, apply_pending) (attempt-Reachable m approved applied t ready)
            ]
      ]
    ]
  ]

  then_apply-Reachable :
      (e : Round) (s : Store) (r : Rendering) → Reachable ids s → Reachable ids (then_apply e s r).0
  then_apply-Reachable e s unread h = h
  then_apply-Reachable e s not_approved h = h
  then_apply-Reachable e s not_rendered h = h
  then_apply-Reachable e s (rendered w) h =
      apply_pending-Reachable e.explicit w.digest e.verdict e.applied s h

  pub publish-Reachable :
      (c : Policy) (e : Round) (s : Store) → Reachable ids s → Reachable ids (publish c e s).0
  unfolding publish
  publish-Reachable c e s h =
      let (t, r) = render c e s in then_apply-Reachable e t r (render-Reachable c e s h)
