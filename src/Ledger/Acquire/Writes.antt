-- ===== src/Ledger/Acquire/Writes.antt =====
-- What the commit of an overlay leaves in each table.
use mathlib.Core.List.{append-nil, append_assoc}
use infer_stack.Base.{
  ℕ, String, ◌≡◌, refl, Bool, true, ◌&&◌, ◌||◌, Option, none, some, List, [], ◌∷◌, ◌++◌, map, any,
  is_in, arith, eq_iff, Option-cases, inl, inr, Dict, select, select-update, select-append, holds,
}
use infer_stack.Models.{DeploymentState, Deployment, EndpointRequest, is_live}
use infer_stack.Result.{ok, >>=-steps}
use infer_stack.Store.{
  Store, LeaseRow, Claim, deployment_key, select_lease, select_deployment, insert_lease,
  insert_deployment, insert_claim, set_deployment_state, set_deployment_allocation,
  update_deployment_served, with_state, bump_desired_generation,
}
use infer_stack.Store.Publication.{write_profile, write_marker}
use infer_stack.Ledger.{AcquireOverlay}
use infer_stack.Ledger.Acquire.{
  commit, write_overlay, insert_deployments, insert_claims, revive, update_served, allocate,
  new_lease, to_claim,
}

-- The row is there.
abbrev pub is_stored : Store → String → Bool
is_stored s id = holds (λ g. true) (select_deployment s id)

pub insert_lease-ok :
    (l : LeaseRow) (s t : Store)
    → insert_lease l s ≡ ok t
    → ((record s { leases = s.leases ++ l ∷ [] }) ≡ t) × (select_lease s l.id ≡ none)
unfolding insert_lease
insert_lease-ok l s t e = elim (Option-cases (select_lease s l.id)) [
  | inl f ↦ (ground (arith, f), f)
  | inr (r, f) ↦ ground (arith, f)
]

pub insert_deployment-ok :
    (g : Deployment) (s t : Store)
    → insert_deployment g s ≡ ok t
    → ((record s { deployments = s.deployments ++ g ∷ [] }) ≡ t) × (select_deployment s g.id ≡ none)
unfolding insert_deployment
insert_deployment-ok g s t e = elim (Option-cases (select_deployment s g.id)) [
  | inl f ↦ (ground (arith, f), f)
  | inr (r, f) ↦ ground (arith, f)
]

insert_claim-ok :
    (c : Claim) (s t : Store)
    → insert_claim c s ≡ ok t
    → (record s { claims = s.claims ++ c ∷ [] }) ≡ t
unfolding insert_claim
insert_claim-ok c s t e = elim (Option-cases (select_lease s c.lease_id)) [
  | inl f ↦ ground (arith, f)
  | inr (l, f) ↦ elim (Option-cases (select_deployment s c.deployment_id)) [
    | inl k ↦ ground (arith, f, k)
    | inr (g, k) ↦ ground (arith, f, k)
  ]
]

pub insert_deployments-ok :
    (gs : List Deployment) (s t : Store)
    → insert_deployments gs s ≡ ok t
    → (record s { deployments = s.deployments ++ gs }) ≡ t
unfolding insert_deployments
insert_deployments-ok [] s t e = ground (arith, append-nil s.deployments)
insert_deployments-ok (g ∷ gs) s t e =
    let (u, f, rest) = >>=-steps (insert_deployment g s) (insert_deployments gs) e in
    ground (
      arith,
      (insert_deployment-ok g s u f).0,
      insert_deployments-ok gs u t rest,
      append_assoc s.deployments (g ∷ []) gs,
    )

insert_deployments-fresh :
    (gs : List Deployment) (s t : Store)
    → insert_deployments gs s ≡ ok t
    → (j : String) → holds (λ g. true) (select deployment_key j gs) ≡ true
    → select_deployment s j ≡ none
unfolding insert_deployments select
insert_deployments-fresh [] s t e j h = ground arith
insert_deployments-fresh (g ∷ gs) s t e j h =
    let (u, f, rest) = >>=-steps (insert_deployment g s) (insert_deployments gs) e in
    ground (
      arith,
      eq_iff g.id j,
      insert_deployment-ok g s u f,
      insert_deployments-fresh gs u t rest j,
      select-append deployment_key j s.deployments (g ∷ []),
    )

pub insert_claims-ok :
    (id : String) (cs : List (EndpointRequest × String)) (s t : Store)
    → insert_claims id cs s ≡ ok t
    → (record s { claims = s.claims ++ map (to_claim id) cs }) ≡ t
unfolding insert_claims
insert_claims-ok id [] s t e = ground (arith, append-nil s.claims)
insert_claims-ok id (c ∷ cs) s t e =
    let (u, f, rest) = >>=-steps (insert_claim (to_claim id c) s) (insert_claims id cs) e in
    ground (
      arith,
      insert_claim-ok (to_claim id c) s u f,
      insert_claims-ok id cs u t rest,
      append_assoc s.claims (to_claim id c ∷ []) (map (to_claim id) cs),
    )

abbrev pub live_at : Store → String → Bool
live_at s id = holds (λ g. is_live g.state) (select_deployment s id)

live_at-revive :
    (ids : List String) (now : ℕ) (s : Store) (j : String)
    → live_at (revive ids now s) j ≡ (live_at s j || (is_stored s j && is_in j ids))
unfolding revive any set_deployment_state
live_at-revive [] now s j = ground arith
live_at-revive (id ∷ ids) now s j = ground (
  arith,
  eq_iff id j,
  select-update deployment_key id j (with_state DeploymentState.live now) s.deployments (λ g. refl),
  live_at-revive ids now (set_deployment_state id DeploymentState.live now s) j,
)

live_at-update_served :
    (d : Dict (Dict String)) (now : ℕ) (s : Store) (j : String)
    → live_at (update_served d now s) j ≡ live_at s j
unfolding update_served update_deployment_served
live_at-update_served [] now s j = refl
live_at-update_served ((id, served) ∷ d) now s j = ground (
  arith,
  select-update deployment_key id j (λ g. record g { served = served; updated_at = now })
      s.deployments (λ g. refl),
  live_at-update_served d now (update_deployment_served id served now s) j,
)

live_at-allocate :
    (d : Dict (List ℕ)) (s : Store) (j : String) → live_at (allocate d s) j ≡ live_at s j
unfolding allocate set_deployment_allocation
live_at-allocate [] s j = refl
live_at-allocate ((id, gpus) ∷ d) s j = ground (
  arith,
  select-update deployment_key id j (λ g. record g { assigned_gpus = some gpus }) s.deployments
      (λ g. refl),
  live_at-allocate d (set_deployment_allocation id (some gpus) s) j,
)

-- The same leases and claims.
abbrev Kept : Store → Store → Type 0
Kept s t = (t.leases ≡ s.leases) × (t.claims ≡ s.claims)

revive-Kept : (ids : List String) (now : ℕ) (s : Store) → Kept s (revive ids now s)
unfolding revive set_deployment_state
revive-Kept [] now s = (refl, refl)
revive-Kept (id ∷ ids) now s =
    revive-Kept ids now (set_deployment_state id DeploymentState.live now s)

update_served-Kept : (d : Dict (Dict String)) (now : ℕ) (s : Store) → Kept s (update_served d now s)
unfolding update_served update_deployment_served
update_served-Kept [] now s = (refl, refl)
update_served-Kept ((id, served) ∷ d) now s =
    update_served-Kept d now (update_deployment_served id served now s)

allocate-Kept : (d : Dict (List ℕ)) (s : Store) → Kept s (allocate d s)
unfolding allocate set_deployment_allocation
allocate-Kept [] s = (refl, refl)
allocate-Kept ((id, gpus) ∷ d) s = allocate-Kept d (set_deployment_allocation id (some gpus) s)

write_overlay-Kept :
    (o : AcquireOverlay) (allocations : Dict (List ℕ)) (digest profile : Option String) (s : Store)
    → Kept s (write_overlay o allocations digest profile s)
unfolding write_overlay write_profile write_marker
write_overlay-Kept o allocations digest profile s =
    let t = revive o.revived o.now s in
    let u = update_served o.served_updates o.now t in
    ground (
      arith,
      revive-Kept o.revived o.now s,
      update_served-Kept o.served_updates o.now t,
      allocate-Kept allocations u,
    )

live_at-write_overlay :
    (o : AcquireOverlay) (allocations : Dict (List ℕ)) (digest profile : Option String) (s : Store)
    (j : String)
    → live_at (write_overlay o allocations digest profile s) j
      ≡ live_at (revive o.revived o.now s) j
unfolding write_overlay write_profile write_marker
live_at-write_overlay o allocations digest profile s j = ground (
  arith,
  live_at-update_served o.served_updates o.now (revive o.revived o.now s) j,
  live_at-allocate allocations (update_served o.served_updates o.now (revive o.revived o.now s)) j,
)

-- The tables after a commit.
pub record Committed (lease_id owner : String) (ttl : Option ℕ) (o : AcquireOverlay) (s t : Store)
    : Type 0 where
  pub is_fresh : select_lease s lease_id ≡ none
  pub leases : t.leases ≡ s.leases ++ new_lease lease_id owner o.now ttl ∷ []
  pub claims : t.claims ≡ s.claims ++ map (to_claim lease_id) o.claims
  pub are_fresh :
      (j : String)
      → holds (λ g. true) (select deployment_key j o.created) ≡ true
      → select_deployment s j ≡ none
  pub lives :
      (j : String)
      → live_at t j ≡ (
          holds (λ g. is_live g.state) (select deployment_key j (s.deployments ++ o.created))
          || (holds (λ g. true) (select deployment_key j (s.deployments ++ o.created))
              && is_in j o.revived))

pub commit-Committed :
    (lease_id owner : String) (ttl : Option ℕ) (o : AcquireOverlay) (allocations : Dict (List ℕ))
    (digest profile : Option String) (s t : Store)
    → commit lease_id owner ttl o allocations digest profile s ≡ ok t
    → Committed lease_id owner ttl o s t
unfolding commit bump_desired_generation
commit-Committed lease_id owner ttl o allocations digest profile s t e =
    let (a, f, e1) = >>=-steps (insert_lease (new_lease lease_id owner o.now ttl) s) _ e in
    let (b, g, e2) = >>=-steps (insert_deployments o.created a) _ e1 in
    let (c, h, e3) =
      >>=-steps (insert_claims lease_id o.claims (write_overlay o allocations digest profile b)) _
        e2 in
    let (at_a, fresh) = insert_lease-ok (new_lease lease_id owner o.now ttl) s a f in
    let at_b = insert_deployments-ok o.created a b g in
    let at_c =
      insert_claims-ok lease_id o.claims (write_overlay o allocations digest profile b) c h in
    let kept = write_overlay-Kept o allocations digest profile b in
    record {
      is_fresh = fresh;
      leases = ground (arith, e3, at_a, at_b, at_c, kept.0);
      claims = ground (arith, e3, at_a, at_b, at_c, kept.1);
      are_fresh = λ j k. ground (arith, at_a, insert_deployments-fresh o.created a b g j k);
      lives = λ j. ground (
        arith,
        e3,
        at_a,
        at_b,
        at_c,
        live_at-write_overlay o allocations digest profile b j,
        live_at-revive o.revived o.now b j,
      );
    }
