-- ===== src/System.antt =====
-- The life of a ledger: the operations of ledger.py and store.py, in any order.
pub mod Invariant
pub mod Epochs
use infer_stack.Base.{ℕ, String, ◌≡◌, Bool, Option, none, some, List, Dict}
use infer_stack.Models.{EndpointRequest}
use infer_stack.Result.{ok}
use infer_stack.Store.{Store, empty_store, set_applied_generation}
use infer_stack.Store.Publication.{
  mark_publication_pending, set_approved_digest, publish_profile, migrate_network,
  clear_publication_pending, clear_placement_context,
}
use infer_stack.Store.Epoch.{start_backend_epoch}
use infer_stack.Store.Addresses.{add_service_addresses}
use infer_stack.Ledger.{Ids, AcquireResult}
use infer_stack.Ledger.Plan.{plan_acquire}
use infer_stack.Ledger.Acquire.{acquire}
use infer_stack.Ledger.Setters.{
  set_allocation, set_adopted_containers, set_network_config, set_profile,
}
use infer_stack.Ledger.Upkeep.{release, renew, renew_if_live, sweep, evict_idle, prune}

-- One call that succeeds. An `acquire` commits a plan of the state that it finds, which is what the
-- version check demands of a preview.
pub data Step (ids : Ids) : Store → Store → Type 0 where
  acquires :
      (resident : String → Bool) (owner : String) (requests : List EndpointRequest) (ttl : Option ℕ)
      (allocations : Dict (List ℕ)) (digest profile : Option String)
      (planned_at first_id now next_id : ℕ) (s t : Store) (r : AcquireResult)
      → acquire ids owner requests ttl
          (some (plan_acquire ids resident requests planned_at first_id s))
          allocations
          digest
          profile
          now
          next_id
          s
        ≡ ok (t, r)
      → Step ids s t
  releases : (lease_id : String) (now : ℕ) (s : Store) → Step ids s (release lease_id now s).0
  renews :
      (lease_id : String) (ttl : Option ℕ) (allocations : Dict (List ℕ)) (now : ℕ) (s : Store)
      → Step ids s (renew lease_id ttl allocations now s).0
  renews_fast :
      (lease_id : String) (ttl : Option ℕ) (now : ℕ) (s : Store)
      → Step ids s (renew_if_live lease_id ttl now s).0
  sweeps : (now : ℕ) (s : Store) → Step ids s (sweep now s).0
  evicts_idle :
      (wanted : Option (List String)) (now : ℕ) (s : Store) → Step ids s (evict_idle wanted now s).0
  prunes : (s t : Store) (n m : ℕ) → prune s ≡ ok (t, n, m) → Step ids s t
  starts_epoch :
      (profile archive expected : String) (version : ℕ) (s t : Store)
      → start_backend_epoch profile archive expected version s ≡ ok t
      → Step ids s t
  adds_addresses :
      (table : Dict String) (s t : Store) → add_service_addresses table s ≡ ok t → Step ids s t
  marks :
      (apply_requested interrupted : Bool) (context digest profile : Option String) (s : Store)
      → Step ids s (mark_publication_pending apply_requested interrupted context digest profile s)
  approves : (digest : Option String) (s : Store) → Step ids s (set_approved_digest digest s)
  publishes :
      (profile : String) (digest : Option String) (s : Store)
      → Step ids s (publish_profile profile digest s)
  migrates :
      (subnet : String) (reset : Bool) (digest profile : Option String) (s : Store)
      → Step ids s (migrate_network subnet reset digest profile s)
  clears : (version : ℕ) (s : Store) → Step ids s (clear_publication_pending version s).0
  clears_context : (s : Store) → Step ids s (clear_placement_context s)
  allocates :
      (id : String) (gpus : Option (List ℕ)) (s : Store) → Step ids s (set_allocation id gpus s)
  adopts : (adopted : Option String) (s : Store) → Step ids s (set_adopted_containers adopted s)
  configures : (config : String) (s : Store) → Step ids s (set_network_config config s)
  sets_profile : (profile : String) (s : Store) → Step ids s (set_profile profile s)
  applies : (gen : ℕ) (s : Store) → Step ids s (set_applied_generation gen s)

-- The states that a new ledger can come to.
pub data Reachable (ids : Ids) : Store → Type 0 where
  start : Reachable ids empty_store
  after : (s t : Store) → Reachable ids s → Step ids s t → Reachable ids t
