-- ===== src/Ledger/Keys.antt =====
-- The operations of ledger.py and the schema's keys.
use infer_stack.Base.{
  ℕ, String, ◌≡◌, refl, subst, Bool, true, false, Option, none, some, List, [], ◌∷◌, filter, is_in,
  arith, Option-cases, Bool-cases, inl, inr, Dict, dedup,
}
use infer_stack.Models.{LeaseState, DeploymentState, Deployment, Lease, EndpointRequest, is_active}
use infer_stack.Result.{ok, >>=-steps}
use infer_stack.Store.{
  Store, get_lease, insert_lease, insert_deployment, insert_claim, bump_desired_generation,
  list_deployments, active_leases_past,
}
use infer_stack.Store.Keys.{
  HasKeys, SameKeys, SameKeys-refl, SameKeys-trans, SameKeys-HasKeys, set_lease_state-SameKeys,
  renew_lease-SameKeys, set_deployment_state-SameKeys, set_deployment_allocation-SameKeys,
  update_deployment_served-SameKeys, insert_lease-HasKeys, insert_deployment-HasKeys,
  insert_claim-HasKeys,
}
use infer_stack.Store.Publication.{write_profile, write_marker}
use infer_stack.Ledger.{Ids, AcquireOverlay, AcquireResult}
use infer_stack.Ledger.Acquire.{
  acquire, commit, write_overlay, insert_deployments, insert_claims, revive, update_served,
  allocate, new_lease, to_claim, expiry,
}
use infer_stack.Ledger.Acquire.Version.{acquire-parts}
use infer_stack.Ledger.Upkeep.{
  release, release_active, renew, renew_active, renew_if_live, sweep, evict_idle, evict_each,
  evicts, idle_each, idles, idle_deployments, revive_each, is_idle_in, allocate_revived,
  expire_each, claimed_ids, bump_if, is_released, all_live,
}

-- The loops.

revive-SameKeys : (ids : List String) (now : ℕ) (s : Store) → SameKeys s (revive ids now s)
unfolding revive
revive-SameKeys [] now s = SameKeys-refl s
revive-SameKeys (id ∷ ids) now s =
    SameKeys-trans (set_deployment_state-SameKeys id DeploymentState.live now s)
      (revive-SameKeys ids now _)

update_served-SameKeys :
    (d : Dict (Dict String)) (now : ℕ) (s : Store) → SameKeys s (update_served d now s)
unfolding update_served
update_served-SameKeys [] now s = SameKeys-refl s
update_served-SameKeys ((id, served) ∷ d) now s =
    SameKeys-trans (update_deployment_served-SameKeys id served now s)
      (update_served-SameKeys d now _)

allocate-SameKeys : (d : Dict (List ℕ)) (s : Store) → SameKeys s (allocate d s)
unfolding allocate
allocate-SameKeys [] s = SameKeys-refl s
allocate-SameKeys ((id, gpus) ∷ d) s =
    SameKeys-trans (set_deployment_allocation-SameKeys id (some gpus) s) (allocate-SameKeys d _)

write_overlay-SameKeys :
    (o : AcquireOverlay) (allocations : Dict (List ℕ)) (digest profile : Option String) (s : Store)
    → SameKeys s (write_overlay o allocations digest profile s)
unfolding write_overlay write_profile write_marker
write_overlay-SameKeys o allocations digest profile s =
    let same = SameKeys-trans (revive-SameKeys o.revived o.now s) (
      SameKeys-trans (update_served-SameKeys o.served_updates o.now _)
        (allocate-SameKeys allocations _)) in
    outside digest profile same
  where
    outside :
        (digest profile : Option String)
        → SameKeys s
            (allocate allocations (update_served o.served_updates o.now (revive o.revived o.now s)))
        → SameKeys s (write_overlay o allocations digest profile s)
    outside none none same =
        unfold write_overlay in
        record { leases = same.leases; deployments = same.deployments; claims = same.claims }
    outside none (some p) same =
        unfold write_overlay write_profile in
        record { leases = same.leases; deployments = same.deployments; claims = same.claims }
    outside (some d) none same =
        unfold write_overlay write_marker in
        record { leases = same.leases; deployments = same.deployments; claims = same.claims }
    outside (some d) (some p) same =
        unfold write_overlay write_marker write_profile in
        record { leases = same.leases; deployments = same.deployments; claims = same.claims }

expire_each-SameKeys : (ls : List Lease) (s : Store) → SameKeys s (expire_each ls s)
unfolding expire_each
expire_each-SameKeys [] s = SameKeys-refl s
expire_each-SameKeys (l ∷ ls) s =
    SameKeys-trans (set_lease_state-SameKeys l.id LeaseState.expired s) (expire_each-SameKeys ls _)

evict_each-SameKeys :
    (gs : List Deployment) (now : ℕ) (s : Store) → SameKeys s (evict_each gs now s)
unfolding evict_each
evict_each-SameKeys [] now s = SameKeys-refl s
evict_each-SameKeys (g ∷ gs) now s =
    SameKeys-trans (set_deployment_state-SameKeys g.id DeploymentState.stopped now s)
      (evict_each-SameKeys gs now _)

idle_each-SameKeys : (ids : List String) (now : ℕ) (s : Store) → SameKeys s (idle_each ids now s).0
unfolding idle_each
idle_each-SameKeys [] now s = SameKeys-refl s
idle_each-SameKeys (id ∷ ids) now s = elim (Bool-cases (idles now s id)) [
  | inl e ↦
      rw (idle_each, e)
        (SameKeys-trans (set_deployment_state-SameKeys id DeploymentState.idle now s)
          (idle_each-SameKeys ids now _))
  | inr e ↦ rw (idle_each, e) (idle_each-SameKeys ids now s)
]

revive_each-SameKeys :
    (ids : List String) (now : ℕ) (s : Store) → SameKeys s (revive_each ids now s).0
unfolding revive_each
revive_each-SameKeys [] now s = SameKeys-refl s
revive_each-SameKeys (id ∷ ids) now s = elim (Bool-cases (is_idle_in s id)) [
  | inl e ↦
      rw (revive_each, e)
        (SameKeys-trans (set_deployment_state-SameKeys id DeploymentState.live now s)
          (revive_each-SameKeys ids now _))
  | inr e ↦ rw (revive_each, e) (revive_each-SameKeys ids now s)
]

allocate_revived-SameKeys :
    (revived : List String) (d : Dict (List ℕ)) (s : Store)
    → SameKeys s (allocate_revived revived d s)
unfolding allocate_revived
allocate_revived-SameKeys revived [] s = SameKeys-refl s
allocate_revived-SameKeys revived ((id, gpus) ∷ d) s = elim (Bool-cases (is_in id revived)) [
  | inl e ↦
      rw (allocate_revived, e)
        (SameKeys-trans (set_deployment_allocation-SameKeys id (some gpus) s)
          (allocate_revived-SameKeys revived d _))
  | inr e ↦ rw (allocate_revived, e) (allocate_revived-SameKeys revived d s)
]

bump_if-SameKeys : (b : Bool) (s : Store) → SameKeys s (bump_if b s)
unfolding bump_desired_generation
bump_if-SameKeys true s = record { leases = refl; deployments = refl; claims = refl }
bump_if-SameKeys false s = SameKeys-refl s

-- The operations that only update rows.

pub release-SameKeys :
    (lease_id : String) (now : ℕ) (s : Store) → SameKeys s (release lease_id now s).0
unfolding release release_active idle_deployments
release-SameKeys lease_id now s = elim (Option-cases (get_lease s lease_id)) [
  | inl e ↦ rw (release, e) (SameKeys-refl s)
  | inr (l, e) ↦
      rw (release, e)
        (elim (Bool-cases (is_released l.state)) [
          | inl r ↦ rw r (SameKeys-refl s)
          | inr r ↦ rw r (
              SameKeys-trans (set_lease_state-SameKeys l.id LeaseState.released s) (
                SameKeys-trans (idle_each-SameKeys (dedup l.deployment_ids) now _)
                  (bump_if-SameKeys _ _)))
        ])
]

pub renew-SameKeys :
    (lease_id : String) (ttl : Option ℕ) (allocations : Dict (List ℕ)) (now : ℕ) (s : Store)
    → SameKeys s (renew lease_id ttl allocations now s).0
unfolding renew renew_active
renew-SameKeys lease_id ttl allocations now s = elim (Option-cases (get_lease s lease_id)) [
  | inl e ↦ rw (renew, e) (SameKeys-refl s)
  | inr (l, e) ↦
      rw (renew, e)
        (elim (Bool-cases (is_active l.state)) [
          | inr r ↦ rw r (SameKeys-refl s)
          | inl r ↦ rw r (
              SameKeys-trans (renew_lease-SameKeys l.id ttl (expiry now ttl) now s) (
                SameKeys-trans (revive_each-SameKeys (dedup l.deployment_ids) now _) (
                  SameKeys-trans (allocate_revived-SameKeys _ allocations _)
                    (bump_if-SameKeys _ _))))
        ])
]

pub renew_if_live-SameKeys :
    (lease_id : String) (ttl : Option ℕ) (now : ℕ) (s : Store)
    → SameKeys s (renew_if_live lease_id ttl now s).0
unfolding renew_if_live
renew_if_live-SameKeys lease_id ttl now s = elim (Option-cases (get_lease s lease_id)) [
  | inl e ↦ rw (renew_if_live, e) (SameKeys-refl s)
  | inr (l, e) ↦
      rw (renew_if_live, e)
        (elim (Bool-cases (is_active l.state)) [
          | inr r ↦ rw r (SameKeys-refl s)
          | inl r ↦ rw r (elim (Bool-cases (all_live (dedup l.deployment_ids) s)) [
            | inl k ↦ rw k (renew_lease-SameKeys lease_id ttl (expiry now ttl) now s)
            | inr k ↦ rw k (SameKeys-refl s)
          ])
        ])
]

pub sweep-SameKeys : (now : ℕ) (s : Store) → SameKeys s (sweep now s).0
unfolding sweep idle_deployments
sweep-SameKeys now s = SameKeys-trans (expire_each-SameKeys (active_leases_past s now) s) (
    SameKeys-trans (idle_each-SameKeys (dedup (claimed_ids (active_leases_past s now))) now _)
      (bump_if-SameKeys _ _))

pub evict_idle-SameKeys :
    (wanted : Option (List String)) (now : ℕ) (s : Store) → SameKeys s (evict_idle wanted now s).0
unfolding evict_idle
evict_idle-SameKeys wanted now s =
    SameKeys-trans (evict_each-SameKeys (filter (evicts wanted) (list_deployments s now)) now s)
      (bump_if-SameKeys _ _)

-- `acquire` inserts rows, in an order in which each claim finds its own.

insert_deployments-HasKeys :
    (gs : List Deployment) (s : Store) {t : Store}
    → HasKeys s
    → insert_deployments gs s ≡ ok t
    → HasKeys t
unfolding insert_deployments
insert_deployments-HasKeys [] s h e = subst HasKeys (ground arith) h
insert_deployments-HasKeys (g ∷ gs) s h e =
    let (u, f, rest) = >>=-steps (insert_deployment g s) (insert_deployments gs) e in
    insert_deployments-HasKeys gs u (insert_deployment-HasKeys g s h f) rest

insert_claims-HasKeys :
    (id : String) (cs : List (EndpointRequest × String)) (s : Store) {t : Store}
    → HasKeys s
    → insert_claims id cs s ≡ ok t
    → HasKeys t
unfolding insert_claims
insert_claims-HasKeys id [] s h e = subst HasKeys (ground arith) h
insert_claims-HasKeys id (c ∷ cs) s h e =
    let (u, f, rest) = >>=-steps (insert_claim (to_claim id c) s) (insert_claims id cs) e in
    insert_claims-HasKeys id cs u (insert_claim-HasKeys (to_claim id c) s h f) rest

commit-HasKeys :
    (lease_id owner : String) (ttl : Option ℕ) (o : AcquireOverlay) (allocations : Dict (List ℕ))
    (digest profile : Option String) (s : Store) {t : Store}
    → HasKeys s
    → commit lease_id owner ttl o allocations digest profile s ≡ ok t
    → HasKeys t
unfolding commit bump_desired_generation
commit-HasKeys lease_id owner ttl o allocations digest profile s h e =
    let (a, f, e1) = >>=-steps (insert_lease (new_lease lease_id owner o.now ttl) s) _ e in
    let (b, g, e2) = >>=-steps (insert_deployments o.created a) _ e1 in
    let (c, k, e3) =
      >>=-steps (insert_claims lease_id o.claims (write_overlay o allocations digest profile b)) _
        e2 in
    let keys =
      insert_claims-HasKeys lease_id o.claims _
        (SameKeys-HasKeys (write_overlay-SameKeys o allocations digest profile b)
          (insert_deployments-HasKeys o.created a (insert_lease-HasKeys _ s h f) g))
        k in
    subst HasKeys (ground arith) (SameKeys-HasKeys (bump_if-SameKeys true c) keys)

pub acquire-HasKeys :
    (ids : Ids) (owner : String) (requests : List EndpointRequest) (ttl : Option ℕ)
    (overlay : Option AcquireOverlay) (allocations : Dict (List ℕ)) (digest profile : Option String)
    (now next_id : ℕ) (s t : Store) (r : AcquireResult)
    → HasKeys s
    → acquire ids owner requests ttl overlay allocations digest profile now next_id s ≡ ok (t, r)
    → HasKeys t
acquire-HasKeys ids owner requests ttl overlay allocations digest profile now next_id s t r h e =
    let (o, f, g) =
      acquire-parts ids owner requests ttl overlay allocations digest profile now next_id s t r e in
    commit-HasKeys (ids.id_factory "lease" next_id) owner ttl o allocations digest profile s h g
