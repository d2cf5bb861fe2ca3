-- ===== src/Controller/Queue.antt =====
-- `Controller.acquire`: the attempts of `_acquire_by_admission`, with the queue that waits for
-- placement, and the wait for readiness of `_finish_acquire`, which releases a lease that is not ready.
pub mod Ends
use infer_stack.Base.{
  ℕ, zero, suc, ◌+◌, String, Bool, true, false, not, ◌&&◌, ◌||◌, Option, none, some, List, [], ◌∷◌,
  map, filter, ltb, if◌then◌else◌, is_in, is_empty, sort, text_leb, Dict,
}
use infer_stack.Models.{Deployment}
use infer_stack.Result.{Error}
use infer_stack.Store.{Store, get_deployment}
use infer_stack.Placement.Plan.{GpuPlan, PlacementError, is_known}
use infer_stack.Ledger.{Ids, AcquireOverlay, AcquireResult}
use infer_stack.Controller.{Policy, fresh_ids}
use infer_stack.Controller.Admit.{Reason, reported, ids_of}
use infer_stack.Controller.Render.{Round, Publication}
use infer_stack.Controller.Calls.{release_call}
use infer_stack.Controller.Acquire.{
  Ask, World, Attempt, granted, refused, declined, conflict, not_stored, failed, disagreed, attempt,
  candidate,
}
use infer_stack.Controller.Ready.{
  Times, Probes, WaitResult, Waited, waited, cut_short, pairs, wait_loop,
}

abbrev pub first_error : List PlacementError → Option PlacementError
first_error [] = none
first_error (e ∷ es) = some e

-- `_infeasible_alone`: the deployments that an idle host could not place, each with the planner's
-- error. A planner that fails (none) refuses nothing.
unfoldable pub infeasible_alone : Option GpuPlan → List String → Dict (Option PlacementError)
infeasible_alone none requested = []
infeasible_alone (some plan) requested =
    map (λ id. (id, first_error (reported id plan.errors)))
      (sort text_leb (filter (λ id. not (is_known id plan.assignments)) requested))

-- How the attempts end.
pub data Admission : Type 0 where
  stopped : Attempt → Admission
  infeasible : Dict (Option PlacementError) → Admission

-- `blocked`: the claimed deployments that are created or revived.
abbrev pub blocked_ids : AcquireOverlay → List String
blocked_ids o = filter (λ id. is_in id (fresh_ids o)) (ids_of o.deployments)

abbrev pub is_refused : Attempt → Bool
is_refused (refused reasons) = true
is_refused _ = false

-- The arguments of an acquire that waits, and what the world answers to its attempts.
pub record Queue : Type 0 where
  pub wait_for_placement : Bool
  pub placement_interval : ℕ
  pub placement_deadline : ℕ
  pub worlds : ℕ → World
  -- The reading of an attempt, that of the check of the deadline, and where the id factory stands.
  pub times : ℕ → ℕ
  pub checks : ℕ → ℕ
  pub next_ids : ℕ → ℕ
  pub plan_on_idle_host : List Deployment → Option GpuPlan

module _ (c : Policy) (fresh : Option String) (ids : Ids) (ask : Ask) (q : Queue) where
  -- What an idle host could not place; it is asked once.
  abbrev pub never_fit : ℕ → Bool → Store → Dict (Option PlacementError)
  never_fit k true s = []
  never_fit k false s =
      let o = candidate c fresh ids (q.worlds k) ask (q.times k) (q.next_ids k) s in
      infeasible_alone (q.plan_on_idle_host o.deployments) (blocked_ids o)

  -- After the k-th attempt; `rest` are the attempts that follow.
  unfoldable pub after_attempt :
      ℕ → Bool → Option (Store × Admission) → Store → Attempt → Option (Store × Admission)
  unfolding infeasible_alone
  after_attempt k checked rest s (granted answer) = some (s, stopped (granted answer))
  after_attempt k checked rest s declined = some (s, stopped declined)
  after_attempt k checked rest s conflict = rest
  after_attempt k checked rest s (not_stored e) = some (s, stopped (not_stored e))
  after_attempt k checked rest s (failed p) = some (s, stopped (failed p))
  after_attempt k checked rest s (disagreed unplaced) = some (s, stopped (disagreed unplaced))
  after_attempt k checked rest s (refused reasons) =
      if not (q.wait_for_placement && ask.apply)
      then some (s, stopped (refused reasons))
      else if not (is_empty (never_fit k checked s))
      then some (s, infeasible (never_fit k checked s))
      else if ltb q.placement_deadline (q.checks k + q.placement_interval)
      then some (s, stopped (refused reasons))
      else rest

  -- The loop from its k-th attempt; `none` is out of fuel.
  unfoldable pub acquire_by_admission : ℕ → ℕ → Bool → Store → Option (Store × Admission)
  unfolding after_attempt attempt
  acquire_by_admission zero k checked s = none
  acquire_by_admission (suc fuel) k checked s =
      let (t, a) = attempt c fresh ids (q.worlds k) ask (q.times k) (q.next_ids k) s in
      let rest = acquire_by_admission fuel (k + 1) (checked || is_refused a) t in
      after_attempt k checked rest t a

-- How an acquire ends.
pub data Acquired : Type 0 where
  not_acquired : Admission → Acquired
  delivered : AcquireResult → Option WaitResult → Acquired
  released_on_timeout : AcquireResult → WaitResult → Publication → Acquired
  interrupted : Publication → Acquired

-- The wait of an acquire, and what the world answers to it.
pub record Wait : Type 0 where
  pub wait : Bool
  pub deadline : ℕ
  pub cooldown : ℕ
  pub rounds : ℕ → Round
  pub reclaim_candidates : Deployment → List Deployment → List String
  pub probes : ℕ → Probes
  pub clock : ℕ → Times
  -- The release of a lease that is not ready.
  pub undo : Round

abbrev pub reread : Store → ℕ → List Deployment → List Deployment
reread s now [] = []
reread s now (g ∷ gs) = elim (get_deployment s g.id (some now)) [
  | none ↦ reread s now gs
  | some h ↦ h ∷ reread s now gs
]

module _ (c : Policy) (fresh : Option String) (x : Wait) (now : ℕ) where
  -- A lease whose endpoints are not ready is released.
  unfoldable pub after_wait : AcquireResult → Option (Store × Waited) → Option (Store × Acquired)
  unfolding release_call
  after_wait answer none = none
  after_wait answer (some (s, cut_short)) =
      let (t, idled, p) = release_call c x.undo fresh x.undo.now answer.lease.id s in
      some (t, interrupted p)
  after_wait answer (some (s, waited r)) =
      if r.ready
      then some (s, delivered answer (some r))
      else (let (t, idled, p) = release_call c x.undo fresh x.undo.now answer.lease.id s in
          some (t, released_on_timeout answer r p))

  unfoldable pub finish_acquire : ℕ → Bool → AcquireResult → Store → Option (Store × Acquired)
  unfolding after_wait wait_loop pairs get_deployment
  finish_acquire fuel apply answer s =
      if x.wait && apply
      then after_wait answer (
          wait_loop c fresh x.rounds x.reclaim_candidates x.probes x.clock x.cooldown x.deadline
            fuel 0 none (pairs (some answer.lease.endpoints) (reread s now answer.deployments)) s)
      else some (s, delivered answer none)

module _ (c : Policy) (fresh : Option String) (ids : Ids) (ask : Ask) (q : Queue) (x : Wait)
    (now : ℕ) where
  abbrev pub after_admission : ℕ → Option (Store × Admission) → Option (Store × Acquired)
  after_admission fuel none = none
  after_admission fuel (some (s, infeasible why)) = some (s, not_acquired (infeasible why))
  after_admission fuel (some (s, stopped (granted answer))) =
      finish_acquire c fresh x now fuel ask.apply answer s
  after_admission fuel (some (s, stopped a)) = some (s, not_acquired (stopped a))

  -- `acquire`, with the rounds that each of its two loops may take.
  unfoldable pub acquire_call : ℕ → ℕ → Store → Option (Store × Acquired)
  unfolding acquire_by_admission finish_acquire
  acquire_call attempts rounds s =
      after_admission rounds (acquire_by_admission c fresh ids ask q attempts 0 false s)
