-- ===== src/Controller/Calls.antt =====
-- The calls of the controller that change the desired state: each marks the change, makes it in the
-- ledger, renders and applies. The profile check that comes before a mark, and the locks, are not
-- modelled. What the runtime and the backend answer on the way is a `Round`.
pub mod Recorded
use infer_stack.Base.{
  ℕ, String, Bool, true, false, not, ◌&&◌, Option, none, some, List, [], ◌∷◌, ◌++◌, map, filter,
  is_empty, is_in, dedup, if◌then◌else◌, Dict, ◌==◌,
}
use infer_stack.Controller.Render.{Round, Publication, render, stage, publish}
use infer_stack.Models.{DeploymentState, Lease, Deployment, is_active, is_idle}
use infer_stack.Result.{Result, ok, err}
use infer_stack.Store.{Store, get_lease, get_deployment}
use infer_stack.Store.Addresses.{add_service_addresses}
use infer_stack.Store.Publication.{mark_publication_pending}
use infer_stack.Residency.{Residency}
use infer_stack.Placement.Plan.{Inputs}
use infer_stack.Ledger.{AcquireOverlay}
use infer_stack.Ledger.Status.{status}
use infer_stack.Ledger.Upkeep.{
  release, renew, renew_if_live, sweep, evict_idle, FastRenewal, not_renewable, needs_admission,
  renewed, ReleaseResult, SweepResult,
}
use infer_stack.Controller.{Policy, backfill_allocations, admission_view, victim}
use infer_stack.Controller.Admit.{Preview, Decision, admit, Reason}
use infer_stack.Controller.Publish.{Verdict, Applied, Ending, mark_pending, apply_pending}

module _ (c : Policy) (e : Round) (fresh : Option String) (now : ℕ) where
  unfoldable pub release_call : String → Store → Store × List String × Publication
  unfolding mark_pending release publish
  release_call lease_id s =
      let (t, r) = release lease_id now (mark_pending true fresh s) in
      let (u, p) = publish c e t in (u, r.idled_deployment_ids, p)

  unfoldable pub evict_call : Option (List String) → Store → Store × List String × Publication
  unfolding mark_pending sweep evict_idle publish
  evict_call wanted s =
      let (t, evicted) = evict_idle wanted now (sweep now (mark_pending true fresh s)).0 in
      let (u, p) = publish c e t in (u, evicted, p)

  abbrev pub evict_if : Bool → Store → Store × List String
  evict_if false s = (s, [])
  evict_if true s = evict_idle none now s

  unfoldable pub gc_call : Bool → Store → Store × SweepResult × List String × Publication
  unfolding mark_pending sweep evict_idle publish
  gc_call evict s =
      let (t, swept) = sweep now (mark_pending true fresh s) in
      let (u, evicted) = evict_if evict t in let (v, p) = publish c e u in (v, swept, evicted, p)

  -- Without `apply` the project is rendered and never applied, even if an apply is pending.
  unfoldable pub reconcile_call : Bool → Store → Store × Publication
  unfolding mark_pending publish render
  reconcile_call true s = publish c e (mark_pending true fresh s)
  reconcile_call false s = stage c e (mark_pending false fresh s)

  -- The releases of a batch: the ids released by it, and the deployments idled.
  unfoldable pub release_each : List String → Store → Store × List String × List String
  unfolding release
  release_each [] s = (s, [], [])
  release_each (id ∷ ids) s =
      let (t, r) = release id now s in
      let (u, released, idled) = release_each ids t in
      (u, if r.already_released then released else id ∷ released, r.idled_deployment_ids ++ idled)

  pub record Batch : Type 0 where
    pub released : List String
    pub missing : List String
    pub idled : List String
    pub evicted : List String
    -- None where nothing was to be done.
    pub reconcile : Option Publication

  abbrev pub evict_batch : Bool → Bool → List String → Store → Store × List String
  evict_batch false every idled s = (s, [])
  evict_batch true true idled s = evict_idle none now s
  evict_batch true false [] s = (s, [])
  evict_batch true false (id ∷ idled) s = evict_idle (some (id ∷ idled)) now s

  unfoldable pub release_batch : Bool → Bool → List String → List String → Store → Store × Batch
  unfolding release_each evict_idle publish
  release_batch evict every ids missing s =
      let (t, released, all_idled) = release_each ids s in
      let idled = dedup all_idled in
      let (u, evicted) = evict_batch evict every idled t in
      let (v, p) = publish c e u in
      (
        v,
        record {
          released = released;
          missing = missing;
          idled = idled;
          evicted = evicted;
          reconcile = some p;
        },
      )

  -- `renew`: how it ends.
  pub data Renewal : Type 0 where
    -- The lease is unknown or no longer ACTIVE; its TTL is extended; nothing is written.
    gone : Renewal
    extended : Option Lease → Renewal
    not_admitted : List Reason → Renewal
    not_approved : Renewal
    republished : Option Lease → List String → Publication → Renewal

  abbrev pub as_live : Deployment → Deployment
  as_live g = record g { state = DeploymentState.live }

  -- The IDLE deployments among these, as they would be revived.
  abbrev pub revivable : List String → Store → List Deployment
  revivable [] s = []
  revivable (id ∷ ids) s = elim (get_deployment s id (some now)) [
    | none ↦ revivable ids s
    | some g ↦ if is_idle g.state then as_live g ∷ revivable ids s else revivable ids s
  ]

  -- `plan_acquire([])`, with the revived deployments.
  abbrev pub renewal_overlay : List Deployment → Store → AcquireOverlay
  renewal_overlay revived s = record {
    now = now;
    claims = [];
    created = [];
    revived = map (λ (g : Deployment). g.id) revived;
    served_updates = [];
    deployments = revived;
    state_version = s.meta.admission_state_version;
    next_id = 0;
  }

  module _ (preview : Preview) (approve : Option (Option String)) (ttl_seconds : Option ℕ) where
    abbrev pub with_approval : Option String → Store → Store
    with_approval none s = s
    with_approval (some digest) s =
        if digest == "" then s else mark_publication_pending true false none (some digest) none s

    -- An admitted renewal: mark, renew with the allocations, publish.
    unfoldable pub renew_admitted :
        Option (Option String) → String → List String → Dict (List ℕ) → Store → Store × Renewal
    unfolding mark_pending mark_publication_pending renew publish
    renew_admitted none lease_id revived allocations s = (s, not_approved)
    renew_admitted (some digest) lease_id revived allocations s =
        let t = with_approval digest (mark_pending true fresh s) in
        let (u, lease) = renew lease_id ttl_seconds allocations now t in
        let (v, p) = publish c e u in (v, republished lease revived p)

    unfoldable pub renew_revived : String → List Deployment → Store → Store × Renewal
    unfolding renew renew_admitted admit
    renew_revived lease_id [] s =
        let (t, lease) = renew lease_id ttl_seconds [] now s in (t, extended lease)
    renew_revived lease_id (g ∷ gs) s =
        let o = renewal_overlay (g ∷ gs) s in
        let d = admit c preview o e.residency now s in
        if is_empty d.reasons
        then renew_admitted approve lease_id o.revived d.allocations s
        else (s, not_admitted d.reasons)

    unfoldable pub renew_slowly : String → Store → Store × Renewal
    unfolding get_lease get_deployment renew_revived
    renew_slowly lease_id s = elim (get_lease s lease_id) [
      | none ↦ (s, gone)
      | some l ↦
          if is_active l.state
          then renew_revived lease_id (revivable (dedup l.deployment_ids) s) s
          else (s, gone)
    ]

    abbrev pub after_fast : String → Store → FastRenewal → Store × Renewal
    after_fast lease_id s not_renewable = (s, gone)
    after_fast lease_id s (renewed lease) = (s, extended lease)
    after_fast lease_id s needs_admission = renew_slowly lease_id s

    unfoldable pub renew_call : String → Store → Store × Renewal
    unfolding renew_if_live renew_slowly
    renew_call lease_id s =
        let (t, fast) = renew_if_live lease_id ttl_seconds now s in after_fast lease_id t fast

  -- `_make_room`: one idle deployment is evicted, where that could help. Its id, and how the eviction
  -- was published.
  unfoldable pub make_room :
      (Deployment → List Deployment → List String)
      → List Deployment
      → Store
      → Store × Option (String × Publication)
  unfolding victim evict_call
  make_room reclaim_candidates blocked s = elim (victim reclaim_candidates blocked now s) [
    | none ↦ (s, none)
    | some g ↦ let (t, evicted, p) = evict_call (some (g.id ∷ [])) s in (t, some (g.id, p))
  ]

  abbrev pub is_missing : Store → String → Bool
  is_missing s id = elim (get_lease s id) [ none ↦ true | some l ↦ false ]

  abbrev pub active_ids : Store → List String
  active_ids s = map (λ (l : Lease). l.id) (filter (λ l. is_active l.state) (status false now s).0)

  -- `release_leases`: none is every ACTIVE lease.
  unfoldable pub release_leases : Option (List String) → Bool → Store → Store × Batch
  unfolding mark_pending sweep release_batch status get_lease
  release_leases none evict s =
      let t = (sweep now (mark_pending true fresh s)).0 in
      release_batch evict true (active_ids t) [] t
  release_leases (some lease_ids) evict s =
      let missing = filter (is_missing s) (dedup lease_ids) in
      let ids = filter (λ id. not (is_in id missing)) (dedup lease_ids) in
      if is_empty ids
      then (
        s,
        record { released = []; missing = missing; idled = []; evicted = []; reconcile = none },
      )
      else release_batch evict false ids missing (mark_pending true fresh s)
