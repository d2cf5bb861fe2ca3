-- ===== src/Controller/Calls/Recorded.antt =====
-- The publication marker after `release`, `evict`, `gc` and `reconcile` of `Controller`.
use infer_stack.Base.{
  refl, Bool-cases, inl, inr, ℕ, String, ◌≡◌, ◌∙◌, Bool, true, false, Option, none, List, arith,
  Option-cases,
}
use infer_stack.Store.{Store}
use infer_stack.Store.Publication.{pending, mark_publication_pending, clear_placement_context}
use infer_stack.Ledger.Upkeep.{sweep, release, evict_idle}
use infer_stack.Controller.{Policy}
use infer_stack.Controller.Publish.{apply_pending, mark_pending}
use infer_stack.Controller.Publish.Apply.{requested, is_completed, apply_pending_cases}
use infer_stack.Controller.Render.{
  Round, Rendering, unread, not_approved, not_rendered, rendered, Publication, stopped, ended,
  render, then_apply, then_stage, publish,
}
use infer_stack.Controller.Render.Frame.{
  active_at, Keeps, Keeps-trans, render-Keeps, sweep-Keeps, evict_idle-Keeps, release-Keeps,
  still_inactive,
}
use infer_stack.Store.Publication.Marks.{flag}
use infer_stack.Controller.Calls.{release_call, evict_call, gc_call, reconcile_call, evict_if}

abbrev pub is_done : Publication → Bool
is_done (ended ending) = is_completed ending
is_done (stopped r) = false

-- The marker is gone once the publication is done; until then it requests an apply.
abbrev pub Recorded : Bool → Store → Type 0
Recorded true t = pending t ≡ none
Recorded false t = requested t ≡ true

abbrev pub IsRecorded : Store → Publication → Type 0
IsRecorded t p = Recorded (is_done p) t

-- Not complete, with a marker that requests an apply exactly when one was requested.
abbrev pub IsStaged : Store → Store → Publication → Type 0
IsStaged s t p =
    (is_done p ≡ false) × (flag (λ m. true) (pending t) ≡ true) × (requested t ≡ requested s)

then_apply-IsRecorded :
    (e : Round) (s : Store) (r : Rendering)
    → requested s ≡ true
    → IsRecorded (then_apply e s r).0 (then_apply e s r).1
then_apply-IsRecorded e s unread h = h
then_apply-IsRecorded e s not_approved h = h
then_apply-IsRecorded e s not_rendered h = h
then_apply-IsRecorded e s (rendered w) h =
    let p = apply_pending_cases e.explicit w.digest e.verdict e.applied s in
    let (t, ending) = apply_pending e.explicit w.digest e.verdict e.applied s in
    elim (Bool-cases (is_completed ending)) [ inl f ↦ rw f (p.1 f) | inr f ↦ rw f ((p.2 f).0 ∙ h) ]

then_apply-inactive :
    (e : Round) (s : Store) (r : Rendering) (id : String)
    → active_at s id ≡ false
    → active_at (then_apply e s r).0 id ≡ false
then_apply-inactive e s unread id h = h
then_apply-inactive e s not_approved id h = h
then_apply-inactive e s not_rendered id h = h
then_apply-inactive e s (rendered w) id h =
    let p = apply_pending_cases e.explicit w.digest e.verdict e.applied s in ground (arith, p.3)

module _ (c : Policy) (e : Round) where
  pub publish-IsRecorded :
      (s : Store) → requested s ≡ true → IsRecorded (publish c e s).0 (publish c e s).1
  unfolding publish
  publish-IsRecorded s h =
      let (t, r) = render c e s in
      then_apply-IsRecorded e t r (ground (arith, (render-Keeps c e s).marker))

  pub publish-inactive :
      (s : Store) (id : String) → active_at s id ≡ false → active_at (publish c e s).0 id ≡ false
  unfolding publish
  publish-inactive s id h =
      let (t, r) = render c e s in
      then_apply-inactive e t r id (still_inactive s t id (render-Keeps c e s) h)

pub mark_pending-requested :
    (fresh : Option String) (s : Store) → requested (mark_pending true fresh s) ≡ true
unfolding mark_pending mark_publication_pending
mark_pending-requested fresh s = ground (arith, Option-cases (pending (clear_placement_context s)))

mark_pending-staged :
    (fresh : Option String) (s : Store)
    → (flag (λ m. true) (pending (mark_pending false fresh s)) ≡ true)
      × (requested (mark_pending false fresh s) ≡ requested s)
unfolding mark_pending mark_publication_pending clear_placement_context
mark_pending-staged fresh s = elim (Option-cases (pending s)) [
  | inl e ↦ (ground (arith, e), ground (arith, e))
  | inr (m, e) ↦ elim (Option-cases m.placement_context) [
    | inl f ↦ (ground (arith, e, f), ground (arith, e, f))
    | inr (x, f) ↦ (ground (arith, e, f), ground (arith, e, f))
  ]
]

Keeps-requested : (s t : Store) → Keeps s t → requested s ≡ true → requested t ≡ true
Keeps-requested s t k h = ground (arith, k.marker)

module _ (c : Policy) (e : Round) (fresh : Option String) (now : ℕ) (s : Store) where
  abbrev marked : Store
  marked = mark_pending true fresh s

  published : (t : Store) → Keeps marked t → IsRecorded (publish c e t).0 (publish c e t).1
  published t k =
      publish-IsRecorded c e t (Keeps-requested marked t k (mark_pending-requested fresh s))

  -- The marker after a render of a staged mark.
  staged_marker :
      (let t = (render c e (mark_pending false fresh s)).0 in
        (flag (λ m. true) (pending t) ≡ true) × (requested t ≡ requested s))
  staged_marker =
      let k = (render-Keeps c e (mark_pending false fresh s)).marker in
      let (there, same) = mark_pending-staged fresh s in
      (ground (arith, k, there), ground (arith, k, same))

  -- After a release its lease is not ACTIVE, however the publication ends.
  release_call-inactive :
      (lease_id : String) → active_at (release_call c e fresh now lease_id s).0 lease_id ≡ false
  unfolding release_call
  release_call-inactive lease_id =
      publish-inactive c e (release lease_id now marked).0 lease_id
        (release-Keeps lease_id now marked).1

  -- Whatever the runtime, the operator and the backend answer, a release, an eviction, a collection
  -- and a reconciliation that applies each end in one of two ways: the publication is complete and no
  -- marker is left, or the marker is there and requests an apply. A reconciliation that does not apply
  -- never completes: it ends with a marker, which requests an apply exactly when one was requested
  -- before. A released lease is not ACTIVE, however the publication of its release ends.
  pub calls-IsRecorded :
      (lease_id : String) (wanted : Option (List String)) (evict : Bool)
      → IsRecorded
          (release_call c e fresh now lease_id s).0
          (release_call c e fresh now lease_id s).2
        × IsRecorded (evict_call c e fresh now wanted s).0 (evict_call c e fresh now wanted s).2
        × IsRecorded (gc_call c e fresh now evict s).0 (gc_call c e fresh now evict s).3
        × IsRecorded (reconcile_call c e fresh now true s).0 (reconcile_call c e fresh now true s).1
        × IsStaged s
            (reconcile_call c e fresh now false s).0
            (reconcile_call c e fresh now false s).1
        × (active_at (release_call c e fresh now lease_id s).0 lease_id ≡ false)
  unfolding release_call evict_call gc_call reconcile_call
  calls-IsRecorded lease_id wanted evict = (
    published (release lease_id now marked).0 (release-Keeps lease_id now marked).0,
    published (evict_idle wanted now swept).0
        (Keeps-trans marked swept _ (sweep-Keeps now marked) (evict_idle-Keeps wanted now swept)),
    published (evict_if c e fresh now evict swept).0 (collected evict),
    publish-IsRecorded c e marked (mark_pending-requested fresh s),
    staged_only (render c e (mark_pending false fresh s)).1,
    release_call-inactive lease_id,
  )
    where
      staged_only :
          (r : Rendering)
          → (let t = (render c e (mark_pending false fresh s)).0 in
              IsStaged s (then_stage t r).0 (then_stage t r).1)
      staged_only (rendered w) = (refl, staged_marker.0, staged_marker.1)
      staged_only unread = (refl, staged_marker.0, staged_marker.1)
      staged_only not_approved = (refl, staged_marker.0, staged_marker.1)
      staged_only not_rendered = (refl, staged_marker.0, staged_marker.1)

      swept : Store
      swept = (sweep now marked).0

      collected : (b : Bool) → Keeps marked (evict_if c e fresh now b swept).0
      collected false = sweep-Keeps now marked
      collected true =
          Keeps-trans marked swept _ (sweep-Keeps now marked) (evict_idle-Keeps none now swept)
