-- ===== src/Ledger/Acquire.antt =====
-- `Ledger.acquire`: a lease and its claims, committed in one transaction.
pub mod Version
pub mod Writes
pub mod Allocates
use infer_stack.Base.{
  ℕ, ◌+◌, String, Bool, true, false, Option, none, some, List, [], ◌∷◌, ◌++◌, map, dedup, eqb,
  if◌then◌else◌, Dict,
}
use infer_stack.Models.{
  LeaseState, DeploymentState, EndpointRequest, Lease, Deployment, is_reservation,
}
use infer_stack.Result.{Result, ok, err, admission_conflict, vanished, ◌>>=◌}
use infer_stack.Store.{
  Store, LeaseRow, Claim, ClaimKind, endpoint_claim, reserved_gpu, insert_lease, insert_deployment,
  insert_claim, set_deployment_state, set_deployment_allocation, update_deployment_served,
  get_lease, get_deployment, bump_desired_generation,
}
use infer_stack.Store.Publication.{write_profile, write_marker}
use infer_stack.Ledger.{Ids, AcquireOverlay, AcquireResult}
use infer_stack.Ledger.Plan.{plan_acquire, claim_id}

unfoldable pub insert_deployments : List Deployment → Store → Result Store
insert_deployments [] s = ok s
insert_deployments (g ∷ gs) s = insert_deployment g s >>= insert_deployments gs

unfoldable pub revive : List String → ℕ → Store → Store
revive [] now s = s
revive (id ∷ ids) now s = revive ids now (set_deployment_state id DeploymentState.live now s)

unfoldable pub update_served : Dict (Dict String) → ℕ → Store → Store
update_served [] now s = s
update_served ((id, served) ∷ rest) now s =
    update_served rest now (update_deployment_served id served now s)

unfoldable pub allocate : Dict (List ℕ) → Store → Store
allocate [] s = s
allocate ((id, gpus) ∷ rest) s = allocate rest (set_deployment_allocation id (some gpus) s)

abbrev claim_kind : EndpointRequest → ClaimKind
claim_kind req = if is_reservation req.engine then reserved_gpu else endpoint_claim

abbrev pub to_claim : String → EndpointRequest × String → Claim
to_claim lease_id (req, id) = record {
  lease_id = lease_id;
  endpoint = req.endpoint;
  deployment_id = id;
  kind = claim_kind req;
}

unfoldable pub insert_claims : String → List (EndpointRequest × String) → Store → Result Store
insert_claims lease_id [] s = ok s
insert_claims lease_id (c ∷ cs) s =
    insert_claim (to_claim lease_id c) s >>= insert_claims lease_id cs

abbrev pub expiry : ℕ → Option ℕ → Option ℕ
expiry now none = none
expiry now (some ttl) = some (now + ttl)

abbrev pub new_lease : String → String → ℕ → Option ℕ → LeaseRow
new_lease lease_id owner now ttl_seconds = record {
  id = lease_id;
  owner = owner;
  state = LeaseState.active;
  created_at = now;
  ttl_seconds = ttl_seconds;
  expires_at = expiry now ttl_seconds;
  heartbeat_at = now;
}

abbrev with_profile : Option String → Store → Store
with_profile none s = s
with_profile (some profile) s = write_profile profile s

abbrev with_digest : Option String → Store → Store
with_digest none s = s
with_digest (some digest) s = write_marker true false none (some digest) s

-- The writes between the rows that must be new and the claims.
unfoldable pub write_overlay :
    AcquireOverlay → Dict (List ℕ) → Option String → Option String → Store → Store
unfolding revive update_served allocate write_profile write_marker
write_overlay o allocations approved_digest profile s = with_digest approved_digest (
    with_profile profile
      (allocate allocations (update_served o.served_updates o.now (revive o.revived o.now s))))

-- The transaction of an overlay that is known.
unfoldable pub commit :
    String
    → String
    → Option ℕ
    → AcquireOverlay
    → Dict (List ℕ)
    → Option String
    → Option String
    → Store
    → Result Store
unfolding insert_deployments write_overlay insert_claims
commit lease_id owner ttl_seconds o allocations approved_digest profile s = do
  t ← insert_lease (new_lease lease_id owner o.now ttl_seconds) s
  u ← insert_deployments o.created t
  v ← insert_claims lease_id o.claims (write_overlay o allocations approved_digest profile u)
  ok (bump_desired_generation v)

abbrev found : List (Option Deployment) → List Deployment
found [] = []
found (none ∷ rest) = found rest
found (some g ∷ rest) = g ∷ found rest

-- After the transaction: the lease and its deployments as the store has them.
unfoldable pub acquired : String → AcquireOverlay → Store → Result (Store × AcquireResult)
acquired lease_id o s = elim (get_lease s lease_id) [
  | none ↦ err vanished
  | some l ↦ ok (
    s,
    record {
      lease = l;
      deployments =
          found (map (λ id. get_deployment s id (some o.now)) (dedup (map claim_id o.claims)));
    },
  )
]

-- The overlay that is committed: a preview must be of this very state.
unfoldable pub checked_overlay :
    Ids → List EndpointRequest → Option AcquireOverlay → ℕ → ℕ → Store → Result AcquireOverlay
checked_overlay ids requests none now next_id s =
    ok (plan_acquire ids (λ _. false) requests now next_id s)
checked_overlay ids requests (some o) now next_id s =
    if eqb s.meta.admission_state_version o.state_version then ok o else err admission_conflict

-- The lease's id is the call `next_id` of the factory, and the plan's ids follow.
unfoldable pub acquire :
    Ids
    → String
    → List EndpointRequest
    → Option ℕ
    → Option AcquireOverlay
    → Dict (List ℕ)
    → Option String
    → Option String
    → ℕ
    → ℕ
    → Store
    → Result (Store × AcquireResult)
unfolding checked_overlay commit acquired
acquire ids owner requests ttl_seconds overlay allocations approved_digest profile now next_id s =
    do
      let lease_id = ids.id_factory "lease" next_id
      o ← checked_overlay ids requests overlay now (next_id + 1) s
      t ← commit lease_id owner ttl_seconds o allocations approved_digest profile s
      acquired lease_id o t
