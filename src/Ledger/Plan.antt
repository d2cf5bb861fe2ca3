-- ===== src/Ledger/Plan.antt =====
-- `Ledger.plan_acquire`: how the requests would coalesce, without writing anything.
pub mod View
pub mod Choice
use infer_stack.Base.{
  ℕ, ◌+◌, String, Bool, true, false, not, ◌&&◌, Option, none, some, List, [], ◌∷◌, ◌++◌, map, find,
  dedup, leb, ◌==◌, if◌then◌else◌, Dict, lookup, insert, sort, is_in, filter,
}
use infer_stack.Models.{
  DeploymentState, Sharing, EndpointRequest, Deployment, is_live, is_idle, is_shared,
  capacity_satisfies,
}
use infer_stack.Store.{Store, deployments_by_compat}
use infer_stack.Ledger.{Ids, compat_key, AcquireOverlay}

-- The loop's variables. A deployment that the plan decided on is one object, whichever dictionary
-- it is reached by: `view` holds it, and `created` the ids of the new ones.
pub record Plan : Type 0 where
  pub view : Dict Deployment
  pub created : List String
  pub revived : List String
  pub served_updates : Dict (Dict String)
  pub claims : List (EndpointRequest × String)
  pub next_id : ℕ

-- Each id's deployment in the view.
abbrev pub viewed : Dict Deployment → List String → List Deployment
viewed view [] = []
viewed view (id ∷ ids) = elim (lookup id view) [
  | none ↦ viewed view ids
  | some g ↦ g ∷ viewed view ids
]

-- The boolean says that the deployment is one that this plan creates.
abbrev pub Candidate : Type 0
Candidate = Deployment × Bool

unfoldable pub cost : (String → Bool) → Candidate → ℕ
cost resident (g, pending) =
    if is_live g.state && not pending
    then 0
    else if pending
    then 1
    else if resident g.id
    then 2
    else 3

abbrev pub cheaper : (String → Bool) → Candidate → Candidate → Bool
cheaper resident a b = leb (cost resident a) (cost resident b)

abbrev current : Dict Deployment → Deployment → Candidate
current view g = elim (lookup g.id view) [ none ↦ (g, false) | some h ↦ (h, false) ]

abbrev as_pending : Deployment → Candidate
as_pending g = (g, true)

module _ (ids : Ids) (s : Store) where
  -- The stored deployments as the plan leaves them, then those that it creates.
  unfoldable pub candidates : EndpointRequest → Plan → List Candidate
  candidates req p =
      map (current p.view) (deployments_by_compat s (compat_key ids req))
      ++ map as_pending (
          filter (λ g. g.compat_key == compat_key ids req && is_shared g.sharing)
            (viewed p.view p.created))

  module _ (resident : String → Bool) where
    unfoldable pub choose : EndpointRequest → Plan → Option Candidate
    unfolding candidates
    choose req p =
        if is_shared req.sharing
        then find (λ c. capacity_satisfies c.0.capacity req.capacity)
            (sort (cheaper resident) (candidates req p))
        else none

abbrev pub new_deployment : Ids → ℕ → EndpointRequest → ℕ → Deployment
new_deployment ids now req next_id = record {
  id = ids.id_factory "grp" next_id;
  compat_key = compat_key ids req;
  engine = req.engine;
  sharing = req.sharing;
  capacity = req.capacity;
  spec = req.spec;
  served = (req.endpoint, req.served) ∷ [];
  state = DeploymentState.live;
  created_at = now;
  updated_at = now;
  demand = 0;
  assigned_gpus = none;
}

abbrev pub live_again : Deployment → Deployment
live_again g = record g { state = DeploymentState.live; assigned_gpus = none }

abbrev serves : EndpointRequest → Deployment → Bool
serves req g = elim (lookup req.endpoint g.served) [
  | none ↦ false
  | some payload ↦ payload == req.served
]

abbrev with_served : EndpointRequest → Deployment → Deployment
with_served req g = record g { served = insert req.endpoint req.served g.served }

-- The deployment as the plan has it once the request is served.
abbrev pub as_claimed : EndpointRequest → Deployment → Deployment
as_claimed req g =
    let h = if is_idle g.state then live_again g else g in
    if serves req h then h else with_served req h

unfoldable pub claim_existing : EndpointRequest → Deployment → Plan → Plan
claim_existing req g p = record {
  view = insert g.id (as_claimed req g) p.view;
  created = p.created;
  revived = if is_idle g.state then p.revived ++ (g.id ∷ []) else p.revived;
  served_updates =
      if serves req g
      then p.served_updates
      else if is_in g.id p.created
      then p.served_updates
      else insert g.id (as_claimed req g).served p.served_updates;
  claims = p.claims ++ ((req, g.id) ∷ []);
  next_id = p.next_id;
}

abbrev add_id : String → List String → List String
add_id id ids = if is_in id ids then ids else ids ++ (id ∷ [])

unfoldable pub claim_new : Ids → ℕ → EndpointRequest → Plan → Plan
claim_new ids now req p =
    let g = new_deployment ids now req p.next_id in
    record {
      view = insert g.id g p.view;
      created = add_id g.id p.created;
      revived = p.revived;
      served_updates = p.served_updates;
      claims = p.claims ++ ((req, g.id) ∷ []);
      next_id = p.next_id + 1;
    }

module _ (ids : Ids) (resident : String → Bool) (now : ℕ) (s : Store) where
  unfoldable pub plan_request : EndpointRequest → Plan → Plan
  unfolding choose claim_existing claim_new
  plan_request req p = elim (choose ids s resident req p) [
    | none ↦ claim_new ids now req p
    | some (g, _) ↦ claim_existing req g p
  ]

  unfoldable pub plan_requests : List EndpointRequest → Plan → Plan
  unfolding plan_request
  plan_requests [] p = p
  plan_requests (req ∷ reqs) p = plan_requests reqs (plan_request req p)

abbrev pub empty_plan : ℕ → Plan
empty_plan next_id = record {
  view = [];
  created = [];
  revived = [];
  served_updates = [];
  claims = [];
  next_id = next_id;
}

abbrev pub claim_id : EndpointRequest × String → String
claim_id (req, id) = id

abbrev pub to_overlay : ℕ → Store → Plan → AcquireOverlay
to_overlay now s p = record {
  now = now;
  claims = p.claims;
  created = viewed p.view p.created;
  revived = p.revived;
  served_updates = p.served_updates;
  deployments = viewed p.view (dedup (map claim_id p.claims));
  state_version = s.meta.admission_state_version;
  next_id = p.next_id;
}

unfoldable pub plan_acquire :
    Ids → (String → Bool) → List EndpointRequest → ℕ → ℕ → Store → AcquireOverlay
unfolding plan_requests
plan_acquire ids resident requests now next_id s =
    to_overlay now s (plan_requests ids resident now s requests (empty_plan next_id))
