-- ===== src/Controller/Publish.antt =====
-- The publication of a desired state: `Controller._mark_pending`, `_apply_pending` and the wait for a
-- runtime that an interrupted apply left moving. The backend's answers are arguments, and the check of
-- the catalog's profile before a mark (`_sync_profile`) is not modelled.
pub mod Settle
pub mod Apply
pub mod Exact
use Prim.Native.String.{◌++◌ as append}
use infer_stack.Base.{
  ℕ, zero, suc, ◌+◌, ◌*◌, String, Bool, true, false, not, ◌&&◌, ◌||◌, Option, none, some, List, [],
  ◌∷◌, any, ltb, if◌then◌else◌, ◌==◌,
}
use infer_stack.Store.{Store, Marker}
use infer_stack.Store.Publication.{
  pending, mark_publication_pending, set_approved_digest, clear_approved_digest, same_digest,
  clear_publication_pending, clear_placement_context,
}

-- backend.py: how far an apply got.
pub record ApplyResult : Type 0 where
  pub runtime : Bool
  pub routes : Bool
  pub detail : String

unfoldable pub complete : ApplyResult → Bool
complete r = r.runtime && r.routes

-- What a backend's apply may return.
pub data ApplyValue : Type 0 where
  nothing : ApplyValue
  flag : Bool → ApplyValue
  result : ApplyResult → ApplyValue

-- `ApplyResult.of`: only `False` is no success.
unfoldable pub of : ApplyValue → ApplyResult
of nothing = record { runtime = true; routes = true; detail = "" }
of (flag b) = record { runtime = b; routes = true; detail = "" }
of (result r) = r

abbrev join_details : String → String → String
join_details a b = if a == "" then b else if b == "" then a else append a (append "; " b)

-- `ApplyResult.__and__`
unfoldable pub both : ApplyResult → ApplyResult → ApplyResult
both a b = record {
  runtime = a.runtime && b.runtime;
  routes = a.routes && b.routes;
  detail = join_details a.detail b.detail;
}

abbrev pub first_snapshot : Option String → Option String → Option String
first_snapshot none fresh = fresh
first_snapshot (some profile) fresh = none

-- `_mark_pending`, with the fresh profile of the invocation: it is frozen where there is none yet.
unfoldable pub mark_pending : Bool → Option String → Store → Store
unfolding clear_placement_context mark_publication_pending
mark_pending apply fresh s =
    let t = clear_placement_context s in
    mark_publication_pending apply false none none (first_snapshot t.meta.profile fresh) t

-- A runtime sample: unreadable, nothing local that could still run, or each container's id and state.
pub data Sample : Type 0 where
  unreadable nothing_local : Sample
  containers : List (String × String) → Sample

abbrev pub same_pairs : List (String × String) → List (String × String) → Bool
same_pairs [] [] = true
same_pairs ((i, x) ∷ xs) ((j, y) ∷ ys) = i == j && x == y && same_pairs xs ys
same_pairs _ _ = false

abbrev pub is_same : Option (List (String × String)) → List (String × String) → Bool
is_same none current = false
is_same (some previous) current = same_pairs current previous

abbrev pub is_busy : List (String × String) → Bool
is_busy = any (λ c. c.1 == "removing")

pub data Verdict : Type 0 where
  settled unsettled : Verdict

-- SETTLE_DEADLINE_S and SETTLE_INTERVAL_S, for a clock with this many ticks in a second.
abbrev pub settle_deadline : ℕ → ℕ
settle_deadline second = 60 * second

abbrev pub settle_interval : ℕ → ℕ
settle_interval second = 2 * second

-- The loop from its k-th round: `clock k` is the reading after the k-th sample. `none` is out of fuel.
unfoldable pub settle :
    ℕ → ℕ → ℕ → (ℕ → Sample) → (ℕ → ℕ) → ℕ → Option (List (String × String)) → Option Verdict
settle zero second deadline sample clock k previous = none
settle (suc fuel) second deadline sample clock k previous = elim (sample k) [
  | unreadable ↦ some unsettled
  | nothing_local ↦ some settled
  | containers current ↦
      let rest = settle fuel second deadline sample clock (k + 1) (some current) in
      if is_same previous current && not (is_busy current)
      then some settled
      else if ltb deadline (clock k + settle_interval second)
      then some unsettled
      else rest
]

-- Rounds that are enough for the deadline.
abbrev pub settle_rounds : ℕ
settle_rounds = 31

-- `_wait_for_settled_runtime`, begun at the reading `started`.
unfoldable pub wait_for_settled_runtime : ℕ → ℕ → (ℕ → Sample) → (ℕ → ℕ) → Option Verdict
unfolding settle
wait_for_settled_runtime second started sample clock =
    settle settle_rounds second (started + settle_deadline second) sample clock 0 none

-- What an apply does: it returns, it is refused before it begins, it is cut off, or the observation
-- of the runtime before it or after it raises.
pub data Applied : Type 0 where
  returns : ApplyValue → Applied
  refused cut_off unobserved : Applied

-- How a publication ends. The last four leave the marker.
pub data Ending : Type 0 where
  unmarked completed : Ending
  staged incomplete mismatch not_settled : Ending
  raised : Applied → Ending

-- A digest that is there and not empty.
abbrev pub is_given : Option String → Bool
is_given none = false
is_given (some digest) = not (digest == "")

abbrev pub reapprove : Option String → Store → Store
reapprove none s = s
reapprove (some digest) s = set_approved_digest (some digest) s

-- The state and the digest that an apply goes ahead with, none where the render is not the approved one.
unfoldable pub approval : Bool → Option String → Marker → Store → Option (Store × Option String)
unfolding set_approved_digest
approval explicit rendered m s =
    if is_given m.approved_digest && not (same_digest rendered m.approved_digest)
    then (if explicit then some (reapprove rendered s, rendered) else none)
    else some (s, m.approved_digest)

-- After an apply that returned.
unfoldable pub finish : Marker → Option String → ApplyResult → Store → Store × Ending
unfolding complete clear_approved_digest clear_publication_pending
finish m approved r s = if not (complete r) then (s, incomplete) else (
  (clear_publication_pending m.version
      (if is_given approved then clear_approved_digest s else s)).0,
  completed,
)

-- The apply itself. A refusal started nothing; what was cut off may still be running. An observation
-- that raises stands outside the `try`.
unfoldable pub attempt : Marker → Option String → Applied → Store → Store × Ending
unfolding finish of mark_publication_pending
attempt m approved (returns value) s = finish m approved (of value) s
attempt m approved refused s =
    (mark_publication_pending true false none none none s, raised refused)
attempt m approved cut_off s = (mark_publication_pending true true none none none s, raised cut_off)
attempt m approved unobserved s = (s, raised unobserved)

abbrev pub is_settled : Verdict → Bool
is_settled settled = true
is_settled unsettled = false

-- `_apply_pending`: `explicit` is `infer-stack apply`, `rendered` the digest of the last render.
unfoldable pub apply_pending : Bool → Option String → Verdict → Applied → Store → Store × Ending
unfolding approval attempt
apply_pending explicit rendered verdict applied s = elim (pending s) [
  | none ↦ (s, unmarked)
  | some m ↦ if not m.apply_requested then (s, staged) else elim (approval explicit rendered m s) [
    | none ↦ (s, mismatch)
    | some (t, approved) ↦
        if m.interrupted && not (is_settled verdict)
        then (t, not_settled)
        else attempt m approved applied t
  ]
]
