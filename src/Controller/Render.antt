-- ===== src/Controller/Render.antt =====
-- `Controller._render`, and `_publish`: a render and its apply. What the runtime and the backend answer
-- on the way is a `Round`.
pub mod Frame
use infer_stack.Base.{String, Bool, false, Option, none, some, List, [], ◌∷◌, ℕ, Dict}
use infer_stack.Models.{Deployment}
use infer_stack.Result.{Result, ok, err}
use infer_stack.Store.{Store}
use infer_stack.Store.Addresses.{add_service_addresses}
use infer_stack.Residency.{Residency}
use infer_stack.Placement.Plan.{Inputs}
use infer_stack.Ledger.Upkeep.{sweep}
use infer_stack.Ledger.Setters.{set_adopted_containers}
use infer_stack.Controller.{Policy, backfill_allocations, admission_view}
use infer_stack.Controller.Publish.{Verdict, Applied, Ending, staged, apply_pending}

-- What a render wrote: its digest, and the deployments that it could not place.
pub record Written : Type 0 where
  pub digest : Option String
  pub unplaced : List String

-- A `converge` that only renders: the operator declines, it fails, or it writes the project and adds
-- the addresses of new services. Then the observation of the runtime may raise (`unseen`).
pub data Converged : Type 0 where
  declined failed : Converged
  wrote : Dict String → Written → Converged
  unseen : Dict String → Converged

pub record Round : Type 0 where
  pub now : ℕ
  pub residency : Option Residency
  -- The adopted-container table (a JSON text): `_prune_adopted` before and `_adopt_existing` after the
  -- project is written.
  pub prune_adopted : Option String → Option String
  pub adopt_existing : Option String → Option String
  pub converge : List Deployment → Inputs → Converged
  pub explicit : Bool
  pub verdict : Verdict
  pub applied : Applied

-- How a render ends: it raises, or it has written the project.
pub data Rendering : Type 0 where
  unread not_approved not_rendered : Rendering
  rendered : Written → Rendering

abbrev pub with_addresses : Round → Written → Store → Result Store → Store × Rendering
with_addresses e w s (err reason) = (s, not_rendered)
with_addresses e w s (ok t) =
    (set_adopted_containers (e.adopt_existing t.meta.adopted_containers) t, rendered w)

abbrev pub without_sight : Store → Result Store → Store × Rendering
without_sight s (err reason) = (s, not_rendered)
without_sight s (ok t) = (t, not_rendered)

unfoldable pub converged : Round → Converged → Store → Store × Rendering
unfolding set_adopted_containers add_service_addresses
converged e declined s = (s, not_approved)
converged e failed s = (s, not_rendered)
converged e (wrote table w) s = with_addresses e w s (add_service_addresses table s)
converged e (unseen table) s = without_sight s (add_service_addresses table s)

unfoldable pub render : Policy → Round → Store → Store × Rendering
unfolding sweep backfill_allocations converged
render c e s = elim e.residency [
  | none ↦ ((sweep e.now s).0, unread)
  | some r ↦
      let t = (backfill_allocations c r e.now (sweep e.now s).0).0 in
      let (desired, inputs) = admission_view c (some r) none false e.now t in
      let u = set_adopted_containers (e.prune_adopted t.meta.adopted_containers) t in
      converged e (e.converge desired inputs) u
]

pub data Publication : Type 0 where
  stopped : Rendering → Publication
  ended : Ending → Publication

abbrev pub then_apply : Round → Store → Rendering → Store × Publication
then_apply e s (rendered w) =
    let (t, ending) = apply_pending e.explicit w.digest e.verdict e.applied s in (t, ended ending)
then_apply e s unread = (s, stopped unread)
then_apply e s not_approved = (s, stopped not_approved)
then_apply e s not_rendered = (s, stopped not_rendered)

unfoldable pub publish : Policy → Round → Store → Store × Publication
unfolding render apply_pending
publish c e s = let (t, r) = render c e s in then_apply e t r

-- A project that is only rendered is staged.
abbrev pub then_stage : Store → Rendering → Store × Publication
then_stage s (rendered w) = (s, ended staged)
then_stage s unread = (s, stopped unread)
then_stage s not_approved = (s, stopped not_approved)
then_stage s not_rendered = (s, stopped not_rendered)

abbrev pub stage : Policy → Round → Store → Store × Publication
stage c e s = let (t, r) = render c e s in then_stage t r
