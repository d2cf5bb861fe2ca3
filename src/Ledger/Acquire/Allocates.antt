-- ===== src/Ledger/Acquire/Allocates.antt =====
-- The GPUs that the commit of an overlay leaves committed.
use infer_stack.Base.{
  ℕ, String, ◌≡◌, refl, Bool, true, false, not, ◌&&◌, ◌||◌, Option, some, List, [], ◌∷◌, map, any,
  is_in, arith, eq_iff, Dict, lookup, select, select-update, select-append, holds,
}
use infer_stack.Models.{DeploymentState, Deployment, lacks_allocation}
use infer_stack.Result.{ok, >>=-steps}
use infer_stack.Store.{
  Store, deployment_key, select_deployment, insert_lease, set_deployment_state,
  set_deployment_allocation, update_deployment_served, with_state, bump_desired_generation,
}
use infer_stack.Store.Publication.{write_profile, write_marker}
use infer_stack.Placement.Plan.{is_known}
use infer_stack.Ledger.{AcquireOverlay}
use infer_stack.Ledger.Acquire.{
  commit, write_overlay, insert_deployments, insert_claims, revive, update_served, allocate,
  new_lease,
}
use infer_stack.Ledger.Acquire.Writes.{insert_lease-ok, insert_deployments-ok, insert_claims-ok}

-- The row is LIVE without committed GPUs.
abbrev pub lacks_at : Store → String → Bool
lacks_at s id = holds lacks_allocation (select_deployment s id)

lacks_at-revive :
    (ids : List String) (now : ℕ) (s : Store) (j : String)
    → lacks_at (revive ids now s) j ≡ true
    → (lacks_at s j || is_in j ids) ≡ true
unfolding revive any set_deployment_state
lacks_at-revive [] now s j h = ground arith
lacks_at-revive (id ∷ ids) now s j h = ground (
  arith,
  eq_iff id j,
  select-update deployment_key id j (with_state DeploymentState.live now) s.deployments (λ g. refl),
  lacks_at-revive ids now (set_deployment_state id DeploymentState.live now s) j,
)

lacks_at-update_served :
    (d : Dict (Dict String)) (now : ℕ) (s : Store) (j : String)
    → lacks_at (update_served d now s) j ≡ lacks_at s j
unfolding update_served update_deployment_served
lacks_at-update_served [] now s j = refl
lacks_at-update_served ((id, served) ∷ d) now s j = ground (
  arith,
  select-update deployment_key id j (λ g. record g { served = served; updated_at = now })
      s.deployments (λ g. refl),
  lacks_at-update_served d now (update_deployment_served id served now s) j,
)

-- What is allocated is committed.
lacks_at-allocate :
    (d : Dict (List ℕ)) (s : Store) (j : String)
    → lacks_at (allocate d s) j ≡ (lacks_at s j && not (is_known j d))
unfolding allocate set_deployment_allocation lookup
lacks_at-allocate [] s j = ground arith
lacks_at-allocate ((id, gpus) ∷ d) s j = ground (
  arith,
  eq_iff id j,
  select-update deployment_key id j (λ g. record g { assigned_gpus = some gpus }) s.deployments
      (λ g. refl),
  lacks_at-allocate d (set_deployment_allocation id (some gpus) s) j,
)

select-is_in_key :
    (gs : List Deployment) (j : String)
    → holds lacks_allocation (select deployment_key j gs) ≡ true
    → is_in j (map deployment_key gs) ≡ true
unfolding select any
select-is_in_key [] j h = h
select-is_in_key (g ∷ gs) j h = ground (arith, select-is_in_key gs j)

-- After a commit a row lacks its GPUs only if it did before or is fresh, and only if none were
-- allocated to it.
pub commit-lacks_at :
    (lease_id owner : String) (ttl : Option ℕ) (o : AcquireOverlay) (allocations : Dict (List ℕ))
    (digest profile : Option String) (s t : Store)
    → commit lease_id owner ttl o allocations digest profile s ≡ ok t
    → (j : String) → lacks_at t j ≡ true
    → ((lacks_at s j || (is_in j (map deployment_key o.created) || is_in j o.revived)) ≡ true)
      × (is_known j allocations ≡ false)
unfolding commit bump_desired_generation write_overlay write_profile write_marker
commit-lacks_at lease_id owner ttl o allocations digest profile s t e j h =
    let (a, f, e1) = >>=-steps (insert_lease (new_lease lease_id owner o.now ttl) s) _ e in
    let (b, g, e2) = >>=-steps (insert_deployments o.created a) _ e1 in
    let (c, k, e3) =
      >>=-steps (insert_claims lease_id o.claims (write_overlay o allocations digest profile b)) _
        e2 in
    let at_a = (insert_lease-ok (new_lease lease_id owner o.now ttl) s a f).0 in
    let at_b = insert_deployments-ok o.created a b g in
    let at_c =
      insert_claims-ok lease_id o.claims (write_overlay o allocations digest profile b) c k in
    let t1 = revive o.revived o.now b in
    let t2 = update_served o.served_updates o.now t1 in
    let allocated : (lacks_at t2 j && not (is_known j allocations)) ≡ true =
      ground (arith, e3, at_c, lacks_at-allocate allocations t2 j) in
    let before : (lacks_at b j || is_in j o.revived) ≡ true = ground (
      arith,
      lacks_at-update_served o.served_updates o.now t1 j,
      lacks_at-revive o.revived o.now b j,
    ) in
    (
      ground (
        arith,
        at_a,
        at_b,
        select-append deployment_key j s.deployments o.created,
        select-is_in_key o.created j,
      ),
      ground arith,
    )
