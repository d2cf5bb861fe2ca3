-- ===== src/Controller/Sound/Queue.antt =====
-- `Controller.acquire`, with its two waits, as steps of the ledger's life.
use infer_stack.Base.{
  ℕ, zero, suc, ◌+◌, String, Bool, true, false, not, ◌&&◌, ◌||◌, Option, none, some, List, leb, ltb,
  Bool-cases, inl, inr, is_empty, if◌then◌else◌,
}
use infer_stack.Models.{Deployment}
use infer_stack.Store.{Store}
use infer_stack.Ledger.{Ids, AcquireResult}
use infer_stack.Ledger.Upkeep.{release}
use infer_stack.System.{Reachable}
use infer_stack.System.Invariant.{IsSound, Reachable-IsSound}
use infer_stack.Controller.{Policy}
use infer_stack.Controller.Publish.{mark_pending}
use infer_stack.Controller.Render.{Round, Publication}
use infer_stack.Controller.Calls.{release_call, make_room}
use infer_stack.Controller.Acquire.{
  Ask, Attempt, granted, refused, declined, conflict, not_stored, failed, disagreed, attempt,
}
use infer_stack.Controller.Ready.{
  Probes, Times, Waited, waited, cut_short, Pair, pairs, pending_of, failures_of, blocked_of,
  after_room_of, is_cooled, room_for, wait_loop,
}
use infer_stack.Controller.Ready.Ends.{Probes-cases}
use infer_stack.Controller.Queue.{
  Admission, stopped, infeasible, Queue, is_refused, never_fit, after_attempt, acquire_by_admission,
  Acquired, Wait, reread, after_wait, finish_acquire, after_admission, acquire_call,
}
use infer_stack.Controller.Sound.{mark_pending-Reachable, release-Reachable, publish-Reachable}
use infer_stack.Controller.Sound.Attempt.{attempt-Reachable}
use infer_stack.Controller.Sound.Upkeep.{make_room-Reachable}

-- The state that a loop ends in, where it ends within its fuel.
abbrev ReachableIn : (ids : Ids) → {T : Type 0} → Option (Store × T) → Type 0
ReachableIn ids none = Unit
ReachableIn ids (some (t, x)) = Reachable ids t

abbrev pub SoundIn : Option (Store × Acquired) → Type 0
SoundIn none = Unit
SoundIn (some (t, x)) = IsSound t

module _ (ids : Ids) (c : Policy) (fresh : Option String) where
  round-Reachable :
      (s t : Store) (is_done is_broken is_late is_raised : Bool) (x y z w : Waited)
      (rest : Option (Store × Waited))
      → Reachable ids s
      → Reachable ids t
      → ReachableIn ids rest
      → ReachableIn ids (
          if is_done
          then some (s, x)
          else if is_broken
          then some (s, y)
          else if is_late
          then some (s, z)
          else if is_raised
          then some (t, w)
          else rest)
  round-Reachable s t true is_broken is_late is_raised x y z w rest h k next = h
  round-Reachable s t false true is_late is_raised x y z w rest h k next = h
  round-Reachable s t false false true is_raised x y z w rest h k next = h
  round-Reachable s t false false false true x y z w rest h k next = k
  round-Reachable s t false false false false x y z w rest h k next = next

  module _ (rounds : ℕ → Round) (reclaim : Deployment → List Deployment → List String)
      (probes : ℕ → Probes) (clock : ℕ → Times) (cooldown deadline : ℕ) where
    room_for-Reachable :
        (k : ℕ) (last_room : Option ℕ) (blocked : List Deployment) (s : Store)
        → Reachable ids s
        → Reachable ids
            (room_for c fresh rounds reclaim probes clock cooldown deadline k last_room blocked s).0
    unfolding room_for
    room_for-Reachable k last_room blocked s h =
        elim (Bool-cases (
          not (is_empty blocked)
          && is_cooled c fresh rounds reclaim probes clock cooldown deadline k last_room)) [
            | inr e ↦ rw e h
            | inl e ↦ rw e (
                after (make_room c (rounds k) fresh (rounds k).now reclaim blocked s)
                  (make_room-Reachable ids c (rounds k) fresh (rounds k).now reclaim blocked s h))
          ]
      where
        after :
            (r : Store × Option (String × Publication))
            → Reachable ids r.0
            → Reachable ids
                (after_room_of c fresh rounds reclaim probes clock cooldown deadline k last_room
                  r).0
        after (t, none) k = k
        after (t, some (id, p)) k = k

    wait_loop-Reachable :
        (fuel k : ℕ) (last_room : Option ℕ) (ps : List Pair) (s : Store)
        → Reachable ids s
        → ReachableIn ids
            (wait_loop c fresh rounds reclaim probes clock cooldown deadline fuel k last_room ps s)
    unfolding wait_loop
    wait_loop-Reachable zero k last_room ps s h = tt
    wait_loop-Reachable (suc fuel) k last_room ps s h = elim (Probes-cases (probes k)) [
      | inl e ↦ rw (e, wait_loop) h
      | inr (probe, e) ↦
          let pending = pending_of probe ps in
          let (t, last, raised) =
            room_for c fresh rounds reclaim probes clock cooldown deadline k last_room
              (blocked_of probe pending) s in
          let made = room_for-Reachable k last_room (blocked_of probe pending) s h in
          rw (e, wait_loop)
            (round-Reachable s t (is_empty pending) (not (is_empty (failures_of probe pending)))
              (leb deadline (clock k).now) raised _ _ _ cut_short _ h made
              (wait_loop-Reachable fuel (k + 1) last ps t made))
    ]

  module _ (ask : Ask) (q : Queue) where
    after_attempt-Reachable :
        (k : ℕ) (checked : Bool) (rest : Option (Store × Admission)) (t : Store) (a : Attempt)
        → Reachable ids t
        → ReachableIn ids rest
        → ReachableIn ids (after_attempt c fresh ids ask q k checked rest t a)
    unfolding after_attempt
    after_attempt-Reachable k checked rest t (granted answer) h next = h
    after_attempt-Reachable k checked rest t declined h next = h
    after_attempt-Reachable k checked rest t conflict h next = next
    after_attempt-Reachable k checked rest t (not_stored e) h next = h
    after_attempt-Reachable k checked rest t (failed p) h next = h
    after_attempt-Reachable k checked rest t (disagreed unplaced) h next = h
    after_attempt-Reachable k checked rest t (refused reasons) h next =
        choose (not (q.wait_for_placement && ask.apply))
          (not (is_empty (never_fit c fresh ids ask q k checked t)))
          (ltb q.placement_deadline (q.checks k + q.placement_interval)) _ _ _
      where
        choose :
            (is_final is_hopeless is_late : Bool) (x y z : Admission)
            → ReachableIn ids (
                if is_final
                then some (t, x)
                else if is_hopeless
                then some (t, y)
                else if is_late
                then some (t, z)
                else rest)
        choose true is_hopeless is_late x y z = h
        choose false true is_late x y z = h
        choose false false true x y z = h
        choose false false false x y z = next

    acquire_by_admission-Reachable :
        (fuel k : ℕ) (checked : Bool) (s : Store)
        → Reachable ids s
        → ReachableIn ids (acquire_by_admission c fresh ids ask q fuel k checked s)
    unfolding acquire_by_admission
    acquire_by_admission-Reachable zero k checked s h = tt
    acquire_by_admission-Reachable (suc fuel) k checked s h =
        let (t, a) = attempt c fresh ids (q.worlds k) ask (q.times k) (q.next_ids k) s in
        let tried = attempt-Reachable ids c fresh (q.worlds k) ask (q.times k) (q.next_ids k) s h in
        after_attempt-Reachable k checked _ t a tried
          (acquire_by_admission-Reachable fuel (k + 1) (checked || is_refused a) t tried)

  release_call-Reachable :
      (e : Round) (now : ℕ) (lease_id : String) (s : Store)
      → Reachable ids s
      → Reachable ids (release_call c e fresh now lease_id s).0
  unfolding release_call
  release_call-Reachable e now lease_id s h =
      let a = mark_pending true fresh s in
      publish-Reachable ids c e (release lease_id now a).0
        (release-Reachable ids lease_id now a (mark_pending-Reachable ids true fresh s h))

  module _ (x : Wait) (now : ℕ) where
    after_wait-SoundIn :
        (answer : AcquireResult) (o : Option (Store × Waited))
        → ReachableIn ids o
        → SoundIn (after_wait c fresh x now answer o)
    unfolding after_wait
    after_wait-SoundIn answer none h = tt
    after_wait-SoundIn answer (some (s, cut_short)) h =
        Reachable-IsSound ids (release_call-Reachable x.undo x.undo.now answer.lease.id s h)
    after_wait-SoundIn answer (some (s, waited r)) h = elim (Bool-cases r.ready) [
      | inl e ↦ rw e (Reachable-IsSound ids h)
      | inr e ↦
          rw e
            (Reachable-IsSound ids (release_call-Reachable x.undo x.undo.now answer.lease.id s h))
    ]

    finish_acquire-SoundIn :
        (fuel : ℕ) (apply : Bool) (answer : AcquireResult) (s : Store)
        → Reachable ids s
        → SoundIn (finish_acquire c fresh x now fuel apply answer s)
    unfolding finish_acquire
    finish_acquire-SoundIn fuel apply answer s h = elim (Bool-cases (x.wait && apply)) [
      | inr e ↦ rw e (Reachable-IsSound ids h)
      | inl e ↦ rw e (
          after_wait-SoundIn answer _ (
            wait_loop-Reachable x.rounds x.reclaim_candidates x.probes x.clock x.cooldown x.deadline
              fuel 0 none (pairs (some answer.lease.endpoints) (reread s now answer.deployments)) s
              h))
    ]

    after_admission-SoundIn :
        (ask : Ask) (q : Queue) (fuel : ℕ) (o : Option (Store × Admission))
        → ReachableIn ids o
        → SoundIn (after_admission c fresh ids ask q x now fuel o)
    after_admission-SoundIn ask q fuel none h = tt
    after_admission-SoundIn ask q fuel (some (t, infeasible why)) h = Reachable-IsSound ids h
    after_admission-SoundIn ask q fuel (some (t, stopped (granted answer))) h =
        finish_acquire-SoundIn fuel ask.apply answer t h
    after_admission-SoundIn ask q fuel (some (t, stopped (refused reasons))) h =
        Reachable-IsSound ids h
    after_admission-SoundIn ask q fuel (some (t, stopped declined)) h = Reachable-IsSound ids h
    after_admission-SoundIn ask q fuel (some (t, stopped conflict)) h = Reachable-IsSound ids h
    after_admission-SoundIn ask q fuel (some (t, stopped (not_stored e))) h =
        Reachable-IsSound ids h
    after_admission-SoundIn ask q fuel (some (t, stopped (failed p))) h = Reachable-IsSound ids h
    after_admission-SoundIn ask q fuel (some (t, stopped (disagreed unplaced))) h =
        Reachable-IsSound ids h

    pub acquire_call-SoundIn :
        (ask : Ask) (q : Queue) (attempts rounds : ℕ) (s : Store)
        → Reachable ids s
        → SoundIn (acquire_call c fresh ids ask q x now attempts rounds s)
    unfolding acquire_call
    acquire_call-SoundIn ask q attempts rounds s h =
        after_admission-SoundIn ask q rounds _
          (acquire_by_admission-Reachable ask q attempts 0 false s h)
