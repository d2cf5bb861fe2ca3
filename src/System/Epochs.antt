-- ===== src/System/Epochs.antt =====
-- A new backend epoch against the plans that were made before it.
use infer_stack.Base.{ℕ, String, ◌≡◌, Bool, true, Option, some, List, [], arith, Dict}
use infer_stack.Models.{EndpointRequest}
use infer_stack.Result.{ok, err, admission_conflict}
use infer_stack.Store.{Store}
use infer_stack.Store.Epoch.{start_backend_epoch, is_profile}
use infer_stack.Store.Epoch.Guard.{start_backend_epoch_lem}
use infer_stack.Ledger.{Ids}
use infer_stack.Ledger.Plan.{plan_acquire}
use infer_stack.Ledger.Acquire.{acquire, checked_overlay}

-- When an epoch starts, the stored profile and state version were those that the call expected, no
-- lease, deployment, claim or address of the old state is left, and no plan of the old state, with
-- whatever hints, requests and ids it was made, can be committed any more.
pub start_backend_epoch-stale :
    (profile archive expected : String) (version : ℕ) (s t : Store) (ids : Ids)
    (resident : String → Bool) (owner : String) (requests : List EndpointRequest) (ttl : Option ℕ)
    (allocations : Dict (List ℕ)) (digest next_profile : Option String)
    (planned_at first_id now next_id : ℕ)
    → start_backend_epoch profile archive expected version s ≡ ok t
    → (is_profile s.meta.profile expected ≡ true)
      × (s.meta.admission_state_version ≡ version)
      × (t.leases ≡ [])
      × (t.deployments ≡ [])
      × (t.claims ≡ [])
      × (t.service_addresses ≡ [])
      × (acquire ids owner requests ttl
            (some (plan_acquire ids resident requests planned_at first_id s))
            allocations
            digest
            next_profile
            now
            next_id
            t
          ≡ err admission_conflict)
unfolding acquire checked_overlay plan_acquire
start_backend_epoch-stale profile archive expected version s t ids resident owner requests ttl
      allocations digest next_profile planned_at first_id now next_id e =
    let epoch = start_backend_epoch_lem profile archive expected version s in
    (
      ground (arith, epoch),
      ground (arith, epoch),
      ground (arith, epoch),
      ground (arith, epoch),
      ground (arith, epoch),
      ground (arith, epoch),
      ground (arith, epoch),
    )
