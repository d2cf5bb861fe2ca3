-- ===== src/Controller/Ready.antt =====
-- `Controller.wait_ready`: the wait for the endpoints of an acquire, which makes room for a deployment
-- that waits on capacity. What the backend answers to the probes of a round is an argument.
pub mod Ends
use infer_stack.Base.{
  ℕ, zero, suc, ◌+◌, ◌-◌, ◌*◌, String, Bool, true, false, not, ◌&&◌, Option, none, some, List, [],
  ◌∷◌, ◌++◌, map, filter, leb, if◌then◌else◌, is_in, is_empty, keys, sort, text_leb, by_key,
}
use infer_stack.Models.{Deployment}
use infer_stack.Store.{Store, deployment_key}
use infer_stack.Controller.{Policy}
use infer_stack.Controller.Render.{Round, Publication}
use infer_stack.Controller.Calls.{make_room}
use infer_stack.Controller.Acquire.{stops}

-- `probe_ready`'s answer for one endpoint of a deployment.
pub record Probe : Type 0 where
  pub ready : Bool
  pub fatal : Bool
  pub needs_room : Bool
  pub detail : String

-- A round of probes: it is cut short by an exception, or answers.
pub data Probes : Type 0 where
  raises : Probes
  answers : (Deployment → String → Probe) → Probes

-- The readings of the clock in a round: for the deadline, for the cooldown, and after room was made.
pub record Times : Type 0 where
  pub now : ℕ
  pub at_room : ℕ
  pub after_room : ℕ

pub record WaitResult : Type 0 where
  pub ready : Bool
  pub pending : List (String × String)
  pub failures : List (String × String × String)

pub data Waited : Type 0 where
  waited : WaitResult → Waited
  cut_short : Waited

abbrev pub Pair : Type 0
Pair = Deployment × String

abbrev pub is_wanted : Option (List String) → String → Bool
is_wanted none endpoint = true
is_wanted (some endpoints) endpoint = is_in endpoint endpoints

unfoldable pub pairs : Option (List String) → List Deployment → List Pair
pairs endpoints [] = []
pairs endpoints (g ∷ gs) =
    map (λ ep. (g, ep)) (filter (is_wanted endpoints) (sort text_leb (keys g.served)))
    ++ pairs endpoints gs

unfoldable pub pending_of : (Deployment → String → Probe) → List Pair → List Pair
pending_of probe = filter (λ p. not (probe p.0 p.1).ready)

abbrev pub failures_of : (Deployment → String → Probe) → List Pair → List (String × String × String)
failures_of probe ps =
    map (λ (p : Pair). (p.0.id, p.1, (probe p.0 p.1).detail))
      (filter (λ p. (probe p.0 p.1).fatal) ps)

-- `blocked.values()`
abbrev pub blocked_of : (Deployment → String → Probe) → List Pair → List Deployment
blocked_of probe ps =
    map (λ (entry : String × Deployment). entry.1)
      (by_key deployment_key (map (λ (p : Pair). p.0) (filter (λ p. (probe p.0 p.1).needs_room) ps))
        [])

abbrev pub names_of : List Pair → List (String × String)
names_of = map (λ (p : Pair). (p.0.id, p.1))

module _ (c : Policy) (fresh : Option String) (rounds : ℕ → Round)
    (reclaim_candidates : Deployment → List Deployment → List String) (probes : ℕ → Probes)
    (clock : ℕ → Times) (cooldown deadline : ℕ) where
  -- ROOM_COOLDOWN_S has gone by since room was made, or none was.
  abbrev pub is_cooled : ℕ → Option ℕ → Bool
  is_cooled k none = true
  is_cooled k (some last_room) = leb cooldown ((clock k).at_room - last_room)

  -- The state, when room was made last, and whether the eviction raised.
  abbrev pub after_room_of :
      ℕ → Option ℕ → Store × Option (String × Publication) → Store × Option ℕ × Bool
  after_room_of k last_room (s, none) = (s, last_room, false)
  after_room_of k last_room (s, some (id, p)) = (s, some (clock k).after_room, stops p)

  unfoldable pub room_for : ℕ → Option ℕ → List Deployment → Store → Store × Option ℕ × Bool
  unfolding make_room
  room_for k last_room blocked s =
      if not (is_empty blocked) && is_cooled k last_room
      then after_room_of k last_room
          (make_room c (rounds k) fresh (rounds k).now reclaim_candidates blocked s)
      else (s, last_room, false)

  -- The loop from its k-th round; `none` is out of fuel.
  unfoldable pub wait_loop : ℕ → ℕ → Option ℕ → List Pair → Store → Option (Store × Waited)
  unfolding pending_of room_for
  wait_loop zero k last_room ps s = none
  wait_loop (suc fuel) k last_room ps s = elim (probes k) [
    | raises ↦ some (s, cut_short)
    | answers probe ↦
        let pending = pending_of probe ps in
        let failures = failures_of probe pending in
        let (t, room, raised) = room_for k last_room (blocked_of probe pending) s in
        let rest = wait_loop fuel (k + 1) room ps t in
        if is_empty pending
        then some (s, waited (record { ready = true; pending = []; failures = [] }))
        else if not (is_empty failures)
        then some
            (s, waited (record { ready = false; pending = names_of pending; failures = failures }))
        else if leb deadline (clock k).now
        then some (s, waited (record { ready = false; pending = names_of pending; failures = [] }))
        else if raised
        then some (t, cut_short)
        else rest
  ]
