-- ===== src/Controller/Acquire.antt =====
-- One attempt of `Controller._acquire_by_admission`, under the lock: the maintenance sweep, the
-- decision, the commit, the render and the apply, and the roll back of an acquire that fails after
-- its commit. The attempts in a row are in Controller/Queue. The profile of the catalog is not
-- modelled: a candidate profile is a text that the commit stores.
pub mod Rollback
pub mod Clean
pub mod Current
use infer_stack.Base.{
  ℕ, ◌+◌, String, Bool, true, false, not, ◌&&◌, Option, none, some, List, [], ◌∷◌, map, any,
  is_empty, is_in, if◌then◌else◌, Dict,
}
use infer_stack.Models.{LeaseState, Lease, Deployment, EndpointRequest, is_active}
use infer_stack.Result.{
  Result, Error, ok, err, integrity, admission_conflict, profile_mismatch, address_taken, vanished,
}
use infer_stack.Store.{Store, get_lease}
use infer_stack.Store.Publication.{clear_approved_digest}
use infer_stack.Residency.{Residency, is_resident}
use infer_stack.Ledger.{Ids, AcquireOverlay, AcquireResult}
use infer_stack.Ledger.Plan.{plan_acquire}
use infer_stack.Ledger.Acquire.{acquire}
use infer_stack.Ledger.Status.{status}
use infer_stack.Ledger.Upkeep.{release, sweep, evict_idle, ReleaseResult}
use infer_stack.Controller.{Policy, never_ran}
use infer_stack.Controller.Admit.{Preview, Decision, Reason, admit}
use infer_stack.Controller.Publish.{
  Ending, mismatch, not_settled, raised, mark_pending, apply_pending,
}
use infer_stack.Controller.Render.{
  Round, Written, Rendering, unread, not_approved, not_rendered, rendered, Publication, stopped,
  ended, render, publish,
}

-- An ending that raises.
abbrev pub is_raised : Ending → Bool
is_raised mismatch = true
is_raised not_settled = true
is_raised (raised applied) = true
is_raised _ = false

abbrev pub stops : Publication → Bool
stops (stopped r) = true
stops (ended ending) = is_raised ending

abbrev pub evict_never_ran : List String → ℕ → Store → Store
evict_never_ran [] now s = s
evict_never_ran (id ∷ ids) now s = (evict_idle (some (id ∷ ids)) now s).0

module _ (c : Policy) (fresh : Option String) where
  -- `_rollback_acquire`: the lease is released, what it idled and never ran is evicted, and the rest is
  -- published, or only rendered. What is raised on the way is swallowed.
  unfoldable pub rollback_acquire : Round → ℕ → Bool → String → Store → Store
  unfolding mark_pending clear_approved_digest release never_ran evict_idle publish render
  rollback_acquire k now apply lease_id s =
      let (t, r) = release lease_id now (clear_approved_digest (mark_pending apply fresh s)) in
      let u = evict_never_ran (never_ran k.residency r.idled_deployment_ids) now t in
      if apply then (publish c k u).0 else (render c k u).0

  -- Expired by now, and ACTIVE as it is stored.
  abbrev pub is_overdue : Store → Lease → Bool
  is_overdue s l =
      (elim l.state [ LeaseState.expired ↦ true | _ ↦ false ])
      && (elim (get_lease s l.id) [ none ↦ false | some stored ↦ is_active stored.state ])

  -- The maintenance sweep, where a TTL has elapsed.
  unfoldable pub maintain : Round → ℕ → Store → Store × Option Publication
  unfolding mark_pending sweep publish status get_lease
  maintain m now s =
      if any (is_overdue s) (status true now s).0
      then (let (t, p) = publish c m (sweep now (mark_pending true fresh s)).0 in (t, some p))
      else (s, none)

pub record Ask : Type 0 where
  pub owner : String
  pub requests : List EndpointRequest
  pub ttl_seconds : Option ℕ
  pub apply : Bool
  -- The published endpoints that the commit stores.
  pub profile : Option String

-- How an attempt ends.
pub data Attempt : Type 0 where
  granted : AcquireResult → Attempt
  refused : List Reason → Attempt
  -- The operator declined the preview; the ledger moved; the commit was refused.
  declined conflict : Attempt
  not_stored : Error → Attempt
  -- A publication raised, or the render left these unplaced.
  failed : Publication → Attempt
  disagreed : List String → Attempt

abbrev pub stored_digest : Bool → Option String → Option String
stored_digest true digest = digest
stored_digest false digest = none

-- The backend, and the rounds of the maintenance, of the attempt and of a roll back.
pub record World : Type 0 where
  pub preview : Preview
  -- What the operator answers to an admissible preview: none declines, else the digest.
  pub approve : Option (Option String)
  pub upkeep : Round
  pub main : Round
  pub undo : Round

abbrev pub resident_of : Option Residency → String → Bool
resident_of none id = false
resident_of (some r) id = is_resident r id

module _ (c : Policy) (fresh : Option String) (w : World) (ask : Ask) (now : ℕ)
    (lease_id : String) where
  abbrev pub undone : Bool → Store → Store
  undone apply s = rollback_acquire c fresh w.undo now apply lease_id s

  -- `_apply_admitted`
  unfoldable pub apply_admitted : AcquireResult → Written → Store → Store × Attempt
  unfolding rollback_acquire apply_pending
  apply_admitted answer x s =
      if not ask.apply
      then (s, granted answer)
      else (let (t, ending) =
            apply_pending w.main.explicit x.digest w.main.verdict w.main.applied s in
          if is_raised ending then (undone false t, failed (ended ending)) else (t, granted answer))

  abbrev pub unplaced_of : AcquireResult → Written → List String
  unplaced_of answer x =
      map (λ (g : Deployment). g.id)
        (infer_stack.Base.filter (λ g. is_in g.id x.unplaced) answer.deployments)

  -- The render of what was committed.
  unfoldable pub after_render : AcquireResult → Store → Rendering → Store × Attempt
  unfolding apply_admitted rollback_acquire
  after_render answer s not_approved = (undone ask.apply s, failed (stopped not_approved))
  after_render answer s unread = (undone false s, failed (stopped unread))
  after_render answer s not_rendered = (undone false s, failed (stopped not_rendered))
  after_render answer s (rendered x) =
      if is_empty (unplaced_of answer x)
      then apply_admitted answer x s
      else (undone ask.apply s, disagreed (unplaced_of answer x))

  unfoldable pub after_commit : Store → Result (Store × AcquireResult) → Store × Attempt
  unfolding after_render render
  after_commit s (ok (t, answer)) = let (u, r) = render c w.main t in after_render answer u r
  after_commit s (err admission_conflict) = (s, conflict)
  after_commit s (err integrity) = (s, not_stored integrity)
  after_commit s (err profile_mismatch) = (s, not_stored profile_mismatch)
  after_commit s (err address_taken) = (s, not_stored address_taken)
  after_commit s (err vanished) = (s, not_stored vanished)

module _ (c : Policy) (fresh : Option String) (ids : Ids) (w : World) (ask : Ask)
    (now next_id : ℕ) where
  abbrev pub candidate : Store → AcquireOverlay
  candidate s = plan_acquire ids (resident_of w.main.residency) ask.requests now next_id s

  -- The id factory's next call after those of the plan.
  abbrev pub lease_of : Store → String
  lease_of s = ids.id_factory "lease" (candidate s).next_id

  abbrev pub decision : Store → Decision
  decision s = admit c w.preview (candidate s) w.main.residency now s

  unfoldable pub admitted : Option (Option String) → Store → Store × Attempt
  unfolding after_commit mark_pending acquire admit
  admitted none s = (s, declined)
  admitted (some digest) s =
      let t = mark_pending ask.apply fresh s in
      after_commit c fresh w ask now (lease_of s) t (
        acquire ids ask.owner ask.requests ask.ttl_seconds (some (candidate s))
          (decision s).allocations (stored_digest ask.apply digest) ask.profile now
          (candidate s).next_id t)

  unfoldable pub decided : Store → Store × Attempt
  unfolding admitted admit
  decided s =
      if is_empty (decision s).reasons
      then admitted w.approve s
      else (s, refused (decision s).reasons)

  abbrev pub after_upkeep : Store → Option Publication → Store × Attempt
  after_upkeep s none = decided s
  after_upkeep s (some p) = if stops p then (s, failed p) else decided s

  unfoldable pub attempt : Store → Store × Attempt
  unfolding maintain decided
  attempt s = let (t, p) = maintain c fresh w.upkeep now s in after_upkeep t p
