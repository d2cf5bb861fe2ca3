-- ===== src/Controller/Sound/Attempt.antt =====
-- An attempt of `Controller._acquire_by_admission` as steps of the ledger's life.
use infer_stack.Base.{
  ℕ, String, ◌≡◌, refl, ap, ◌∙◌, subst, Bool, true, false, Option, none, some, List, [], ◌∷◌, any,
  is_empty, arith, Bool-cases, Option-cases, inl, inr, if◌then◌else◌,
}
use infer_stack.Models.{EndpointRequest}
use infer_stack.Result.{
  Result, ok, err, integrity, admission_conflict, profile_mismatch, address_taken, vanished,
}
use infer_stack.Store.{Store, deployments_by_compat}
use infer_stack.Store.Publication.{
  pending, mark_publication_pending, write_marker, write_profile, clear_approved_digest,
  clear_placement_context,
}
use infer_stack.Ledger.{Ids, AcquireResult}
use infer_stack.Ledger.Plan.{
  Plan, plan_acquire, plan_requests, plan_request, choose, candidates, empty_plan,
}
use infer_stack.Ledger.Acquire.{acquire}
use infer_stack.Ledger.Status.{status}
use infer_stack.Ledger.Upkeep.{release, sweep}
use infer_stack.System.{Reachable, after, acquires}
use infer_stack.Controller.{Policy, never_ran}
use infer_stack.Controller.Publish.{mark_pending, apply_pending}
use infer_stack.Controller.Render.{
  Round, Written, Rendering, unread, not_approved, not_rendered, rendered, Publication, render,
  publish,
}
use infer_stack.Controller.Acquire.{
  Ask, World, is_raised, stops, evict_never_ran, rollback_acquire, is_overdue, maintain, lease_of,
  undone, apply_admitted, unplaced_of, after_render, after_commit, admitted, decided, decision,
  attempt, after_upkeep, candidate, stored_digest, resident_of,
}
use infer_stack.Controller.Sound.{
  mark_pending-Reachable, sweep-Reachable, evict_idle-Reachable, release-Reachable,
  render-Reachable, clear_approved_digest-Reachable, apply_pending-Reachable, publish-Reachable,
}

-- A mark leaves what a plan reads as it was.
pub mark_pending-tables :
    (apply : Bool) (fresh : Option String) (s : Store)
    → ((mark_pending apply fresh s).deployments ≡ s.deployments)
      × ((mark_pending apply fresh s).meta.admission_state_version ≡ s.meta.admission_state_version)
unfolding mark_pending mark_publication_pending clear_placement_context write_profile write_marker
mark_pending-tables apply fresh s = ground (arith, Option-cases (pending s))

-- The state as it is marked, with the same deployments and version.
abbrev as_in : Store → Store → Store
as_in s t = record t { deployments = s.deployments }

module _ (ids : Ids) (resident : String → Bool) (now : ℕ) (s t : Store) where
  plan_request-as_in :
      (req : EndpointRequest) (p : Plan)
      → plan_request ids resident now (as_in s t) req p ≡ plan_request ids resident now s req p
  unfolding plan_request choose candidates deployments_by_compat
  plan_request-as_in req p = refl

  plan_requests-as_in :
      (reqs : List EndpointRequest) (p : Plan)
      → plan_requests ids resident now (as_in s t) reqs p ≡ plan_requests ids resident now s reqs p
  unfolding plan_requests
  plan_requests-as_in [] p = refl
  plan_requests-as_in (req ∷ reqs) p =
      ap (plan_requests ids resident now (as_in s t) reqs) (plan_request-as_in req p)
      ∙ plan_requests-as_in reqs (plan_request ids resident now s req p)

-- So a plan made before the mark is the one made after it.
plan_acquire-marked :
    (ids : Ids) (resident : String → Bool) (requests : List EndpointRequest) (now first_id : ℕ)
    (apply : Bool) (fresh : Option String) (s : Store)
    → plan_acquire ids resident requests now first_id s
      ≡ plan_acquire ids resident requests now first_id (mark_pending apply fresh s)
unfolding plan_acquire
plan_acquire-marked ids resident requests now first_id apply fresh s =
    let u = mark_pending apply fresh s in
    let (same, version) = mark_pending-tables apply fresh s in
    let marked : as_in s u ≡ u = ground (arith, same) in
    ground (
      arith,
      version,
      plan_requests-as_in ids resident now s u requests (empty_plan first_id),
      ap (λ x. plan_requests ids resident now x requests (empty_plan first_id)) marked,
    )

module _ (ids : Ids) (c : Policy) where
  evict_never_ran-Reachable :
      (gone : List String) (now : ℕ) (s : Store)
      → Reachable ids s
      → Reachable ids (evict_never_ran gone now s)
  evict_never_ran-Reachable [] now s h = h
  evict_never_ran-Reachable (x ∷ xs) now s h = evict_idle-Reachable ids (some (x ∷ xs)) now s h

  rollback_acquire-Reachable :
      (fresh : Option String) (k : Round) (now : ℕ) (apply : Bool) (lease : String) (s : Store)
      → Reachable ids s
      → Reachable ids (rollback_acquire c fresh k now apply lease s)
  unfolding rollback_acquire
  rollback_acquire-Reachable fresh k now apply lease s h =
      let b = clear_approved_digest (mark_pending apply fresh s) in
      let (t, r) = release lease now b in
      let never = never_ran k.residency r.idled_deployment_ids in
      published apply (evict_never_ran never now t) (
        evict_never_ran-Reachable never now t (
          release-Reachable ids lease now b (
            clear_approved_digest-Reachable ids (mark_pending apply fresh s)
              (mark_pending-Reachable ids apply fresh s h))))
    where
      published :
          (apply : Bool) (u : Store)
          → Reachable ids u
          → Reachable ids (if apply then (publish c k u).0 else (render c k u).0)
      published true u g = publish-Reachable ids c k u g
      published false u g = render-Reachable ids c k u g

  maintain-Reachable :
      (fresh : Option String) (m : Round) (now : ℕ) (s : Store)
      → Reachable ids s
      → Reachable ids (maintain c fresh m now s).0
  unfolding maintain
  maintain-Reachable fresh m now s h =
      elim (Bool-cases (any (is_overdue c fresh s) (status true now s).0)) [
        | inr e ↦ rw e h
        | inl e ↦
            let a = mark_pending true fresh s in
            rw e (
              publish-Reachable ids c m (sweep now a).0
                (sweep-Reachable ids now a (mark_pending-Reachable ids true fresh s h)))
      ]

  module _ (fresh : Option String) (w : World) (ask : Ask) (now : ℕ) (lease : String) where
    undone-Reachable :
        (apply : Bool) (s : Store)
        → Reachable ids s
        → Reachable ids (undone c fresh w ask now lease apply s)
    undone-Reachable apply s h = rollback_acquire-Reachable fresh w.undo now apply lease s h

    apply_admitted-Reachable :
        (answer : AcquireResult) (x : Written) (s : Store)
        → Reachable ids s
        → Reachable ids (apply_admitted c fresh w ask now lease answer x s).0
    unfolding apply_admitted
    apply_admitted-Reachable answer x s h = elim (Bool-cases ask.apply) [
      | inr e ↦ rw e h
      | inl e ↦
          let (t, ending) =
            apply_pending w.main.explicit x.digest w.main.verdict w.main.applied s in
          let g =
            apply_pending-Reachable ids w.main.explicit x.digest w.main.verdict w.main.applied s
              h in
          elim (Bool-cases (is_raised ending)) [
            | inr f ↦ rw (e, f) g
            | inl f ↦ rw (e, f) (undone-Reachable false t g)
          ]
    ]

    after_render-Reachable :
        (answer : AcquireResult) (s : Store) (r : Rendering)
        → Reachable ids s
        → Reachable ids (after_render c fresh w ask now lease answer s r).0
    unfolding after_render
    after_render-Reachable answer s not_approved h = undone-Reachable ask.apply s h
    after_render-Reachable answer s unread h = undone-Reachable false s h
    after_render-Reachable answer s not_rendered h = undone-Reachable false s h
    after_render-Reachable answer s (rendered x) h =
        elim (Bool-cases (is_empty (unplaced_of c fresh w ask now lease answer x))) [
          | inl e ↦ rw e (apply_admitted-Reachable answer x s h)
          | inr e ↦ rw e (undone-Reachable ask.apply s h)
        ]

    after_commit-Reachable :
        (s : Store) (x : Result (Store × AcquireResult))
        → Reachable ids s
        → ((t : Store) (answer : AcquireResult) → x ≡ ok (t, answer) → Reachable ids t)
        → Reachable ids (after_commit c fresh w ask now lease s x).0
    unfolding after_commit
    after_commit-Reachable s (ok (t, answer)) h g =
        let (v, r) = render c w.main t in
        after_render-Reachable answer v r (render-Reachable ids c w.main t (g t answer refl))
    after_commit-Reachable s (err admission_conflict) h g = h
    after_commit-Reachable s (err integrity) h g = h
    after_commit-Reachable s (err profile_mismatch) h g = h
    after_commit-Reachable s (err address_taken) h g = h
    after_commit-Reachable s (err vanished) h g = h

  module _ (fresh : Option String) (w : World) (ask : Ask) (now next_id : ℕ) where
    admitted-Reachable :
        (approve : Option (Option String)) (s : Store)
        → Reachable ids s
        → Reachable ids (admitted c fresh ids w ask now next_id approve s).0
    unfolding admitted
    admitted-Reachable none s h = h
    admitted-Reachable (some digest) s h =
        let t = mark_pending ask.apply fresh s in
        let o = candidate c fresh ids w ask now next_id s in
        let d = decision c fresh ids w ask now next_id s in
        let marked = mark_pending-Reachable ids ask.apply fresh s h in
        let resident = resident_of w.main.residency in
        after_commit-Reachable fresh w ask now (lease_of c fresh ids w ask now next_id s) t _ marked
          (λ u answer e. after t u marked (
            acquires resident ask.owner ask.requests ask.ttl_seconds d.allocations
              (stored_digest ask.apply digest) ask.profile now next_id now o.next_id t u answer
              (subst
                (λ p.
                  acquire ids ask.owner ask.requests ask.ttl_seconds (some p) d.allocations
                    (stored_digest ask.apply digest) ask.profile now o.next_id t
                  ≡ ok (u, answer))
                (plan_acquire-marked ids resident ask.requests now next_id ask.apply fresh s) e)))

    decided-Reachable :
        (s : Store) → Reachable ids s → Reachable ids (decided c fresh ids w ask now next_id s).0
    unfolding decided
    decided-Reachable s h =
        elim (Bool-cases (is_empty (decision c fresh ids w ask now next_id s).reasons)) [
          | inl e ↦ rw e (admitted-Reachable w.approve s h)
          | inr e ↦ rw e h
        ]

    pub attempt-Reachable :
        (s : Store) → Reachable ids s → Reachable ids (attempt c fresh ids w ask now next_id s).0
    unfolding attempt
    attempt-Reachable s h =
        let (t, p) = maintain c fresh w.upkeep now s in
        after t p (maintain-Reachable fresh w.upkeep now s h)
      where
        after :
            (t : Store) (p : Option Publication)
            → Reachable ids t
            → Reachable ids (after_upkeep c fresh ids w ask now next_id t p).0
        after t none g = decided-Reachable t g
        after t (some p) g = elim (Bool-cases (stops p)) [
          | inl e ↦ rw e g
          | inr e ↦ rw e (decided-Reachable t g)
        ]
