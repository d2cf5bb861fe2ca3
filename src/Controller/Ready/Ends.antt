-- ===== src/Controller/Ready/Ends.antt =====
-- The loop of `Controller.wait_ready`, and the leases that are ACTIVE after it.
use infer_stack.Base.{
  ℕ, zero, suc, ◌+◌, ◌*◌, ◌≤◌, String, ◌≡◌, refl, Bool, true, false, not, ◌&&◌, ◌⊎◌, Option, none,
  some, List, [], ◌∷◌, arith, leb, Bool-cases, Option-cases, inl, inr, is_empty, if◌then◌else◌,
}
use infer_stack.Models.{Deployment}
use infer_stack.Store.{Store}
use infer_stack.Ledger.Upkeep.{sweep, evict_idle}
use infer_stack.Controller.{Policy, victim}
use infer_stack.Controller.Publish.{mark_pending}
use infer_stack.Controller.Render.{Round, Publication}
use infer_stack.Controller.Render.Frame.{Keeps-trans, sweep-Keeps, evict_idle-Keeps}
use infer_stack.Controller.Calls.{evict_call, make_room}
use infer_stack.Controller.Calls.Recorded.{publish-inactive}
use infer_stack.Controller.Acquire.Rollback.{
  NoneAdded, Keeps-NoneAdded, same_leases, mark_pending-leases,
}
use infer_stack.Controller.Ready.{
  Probe, Probes, raises, answers, Times, Waited, cut_short, Pair, pending_of, failures_of,
  blocked_of, after_room_of, is_cooled, room_for, wait_loop,
}

-- The wait is over, and no lease is ACTIVE that was not.
abbrev pub WaitEnds : Store → Option (Store × Waited) → Type 0
WaitEnds s none = ⊥
WaitEnds s (some (t, x)) = NoneAdded s t

WaitEnds-trans :
    (s t : Store) (o : Option (Store × Waited)) → NoneAdded s t → WaitEnds t o → WaitEnds s o
WaitEnds-trans s t none h k = k
WaitEnds-trans s t (some (u, x)) h k = λ id e. k id (h id e)

pub Probes-cases :
    (p : Probes) → (p ≡ raises) ⊎ ((probe : Deployment → String → Probe) × (p ≡ answers probe))
Probes-cases raises = inl refl
Probes-cases (answers probe) = inr (probe, refl)

evict_call-NoneAdded :
    (c : Policy) (e : Round) (fresh : Option String) (now : ℕ) (wanted : Option (List String))
    (s : Store)
    → NoneAdded s (evict_call c e fresh now wanted s).0
unfolding evict_call
evict_call-NoneAdded c e fresh now wanted s id h =
    let a = mark_pending true fresh s in
    let t = (sweep now a).0 in
    publish-inactive c e (evict_idle wanted now t).0 id (
      Keeps-NoneAdded a (evict_idle wanted now t).0
        (Keeps-trans a t _ (sweep-Keeps now a) (evict_idle-Keeps wanted now t)) id
        (same_leases s a (mark_pending-leases true fresh s) id h))

make_room-NoneAdded :
    (c : Policy) (e : Round) (fresh : Option String) (now : ℕ)
    (reclaim : Deployment → List Deployment → List String) (blocked : List Deployment) (s : Store)
    → NoneAdded s (make_room c e fresh now reclaim blocked s).0
unfolding make_room
make_room-NoneAdded c e fresh now reclaim blocked s =
    elim (Option-cases (victim reclaim blocked now s)) [
      | inl f ↦ rw (f, make_room) (λ id h. h)
      | inr (g, f) ↦ rw (f, make_room) (evict_call-NoneAdded c e fresh now (some (g.id ∷ [])) s)
    ]

-- One round's ways to end.
round-WaitEnds :
    (s t : Store) (is_done is_broken is_late is_raised : Bool) (x y z w : Waited)
    (rest : Option (Store × Waited))
    → NoneAdded s t
    → (is_late ≡ false → WaitEnds s rest)
    → WaitEnds s (
        if is_done
        then some (s, x)
        else if is_broken
        then some (s, y)
        else if is_late
        then some (s, z)
        else if is_raised
        then some (t, w)
        else rest)
round-WaitEnds s t true is_broken is_late is_raised x y z w rest h next = λ id k. k
round-WaitEnds s t false true is_late is_raised x y z w rest h next = λ id k. k
round-WaitEnds s t false false true is_raised x y z w rest h next = λ id k. k
round-WaitEnds s t false false false true x y z w rest h next = h
round-WaitEnds s t false false false false x y z w rest h next = next refl

module _ (c : Policy) (fresh : Option String) (rounds : ℕ → Round)
    (reclaim : Deployment → List Deployment → List String) (probes : ℕ → Probes) (clock : ℕ → Times)
    (cooldown deadline : ℕ) where
  room_for-NoneAdded :
      (k : ℕ) (last_room : Option ℕ) (blocked : List Deployment) (s : Store)
      → NoneAdded s
          (room_for c fresh rounds reclaim probes clock cooldown deadline k last_room blocked s).0
  unfolding room_for
  room_for-NoneAdded k last_room blocked s =
      elim (Bool-cases (
        not (is_empty blocked)
        && is_cooled c fresh rounds reclaim probes clock cooldown deadline k last_room)) [
          | inr e ↦ rw e (λ id h. h)
          | inl e ↦ rw e (
              after (make_room c (rounds k) fresh (rounds k).now reclaim blocked s)
                (make_room-NoneAdded c (rounds k) fresh (rounds k).now reclaim blocked s))
        ]
    where
      after :
          (r : Store × Option (String × Publication))
          → NoneAdded s r.0
          → NoneAdded s
              (after_room_of c fresh rounds reclaim probes clock cooldown deadline k last_room r).0
      after (t, none) h = h
      after (t, some (id, p)) h = h

  module _ (interval : ℕ) (sleeps : (k : ℕ) → (clock k).now + interval ≤ (clock (k + 1)).now) where
    -- With rounds for the rest of the time, the wait ends.
    pub wait_loop-WaitEnds :
        (fuel k : ℕ) (last_room : Option ℕ) (ps : List Pair) (s : Store)
        → deadline ≤ (clock k).now + interval * fuel
        → WaitEnds s (
            wait_loop c fresh rounds reclaim probes clock cooldown deadline
              (suc fuel)
              k
              last_room
              ps
              s)
    unfolding wait_loop
    wait_loop-WaitEnds zero k last_room ps s room = elim (Probes-cases (probes k)) [
      | inl e ↦ rw (e, wait_loop) (λ id h. h)
      | inr (probe, e) ↦
          let pending = pending_of probe ps in
          let (t, last, raised) =
            room_for c fresh rounds reclaim probes clock cooldown deadline k last_room
              (blocked_of probe pending) s in
          let added = room_for-NoneAdded k last_room (blocked_of probe pending) s in
          rw (e, wait_loop)
            (round-WaitEnds s t (is_empty pending) (not (is_empty (failures_of probe pending)))
              (leb deadline (clock k).now) raised _ _ _ cut_short none added
              (λ early. absurd (ground (arith, early))))
    ]
    wait_loop-WaitEnds (suc fuel) k last_room ps s room = elim (Probes-cases (probes k)) [
      | inl e ↦ rw (e, wait_loop) (λ id h. h)
      | inr (probe, e) ↦
          let pending = pending_of probe ps in
          let (t, last, raised) =
            room_for c fresh rounds reclaim probes clock cooldown deadline k last_room
              (blocked_of probe pending) s in
          let added = room_for-NoneAdded k last_room (blocked_of probe pending) s in
          rw (e, wait_loop)
            (round-WaitEnds s t (is_empty pending) (not (is_empty (failures_of probe pending)))
              (leb deadline (clock k).now) raised _ _ _ cut_short _ added
              (λ early.
                WaitEnds-trans s t _ added
                  (wait_loop-WaitEnds fuel (k + 1) last ps t (grind (arith, sleeps k)))))
    ]
