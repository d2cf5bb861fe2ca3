-- ===== src/Ledger/Acquire/Version.antt =====
-- The optimistic check of `Ledger.acquire`.
use infer_stack.Base.{
  ℕ, suc, String, ◌≡◌, refl, ◌∙◌, subst, Option, some, List, [], ◌∷◌, ◌+◌, arith, Dict,
  Option-cases, inl, inr, false, true, eqb, none,
}
use infer_stack.Models.{EndpointRequest, Deployment, DeploymentState}
use infer_stack.Result.{ok, err, admission_conflict, >>=-steps}
use infer_stack.Store.{
  Store, LeaseRow, Claim, insert_lease, insert_deployment, insert_claim, bump_desired_generation,
  get_lease, set_deployment_state, update_deployment_served, set_deployment_allocation,
}
use infer_stack.Store.Publication.{write_profile, write_marker}
use infer_stack.Ledger.{Ids, AcquireOverlay, AcquireResult}
use infer_stack.Ledger.Plan.{plan_acquire}
use infer_stack.Ledger.Acquire.{
  acquire, acquired, commit, checked_overlay, write_overlay, insert_deployments, insert_claims,
  revive, update_served, allocate, new_lease, to_claim,
}

abbrev pub state_version : Store → ℕ
state_version s = s.meta.admission_state_version

version-insert_lease :
    (l : LeaseRow) (s t : Store) → insert_lease l s ≡ ok t → state_version t ≡ state_version s
unfolding insert_lease
version-insert_lease l s t e = ground arith

version-insert_deployment :
    (g : Deployment) (s t : Store)
    → insert_deployment g s ≡ ok t
    → state_version t ≡ state_version s
unfolding insert_deployment
version-insert_deployment g s t e = ground arith

version-insert_claim :
    (c : Claim) (s t : Store) → insert_claim c s ≡ ok t → state_version t ≡ state_version s
unfolding insert_claim
version-insert_claim c s t e = ground arith

version-insert_deployments :
    (gs : List Deployment) (s t : Store)
    → insert_deployments gs s ≡ ok t
    → state_version t ≡ state_version s
unfolding insert_deployments
version-insert_deployments [] s t e = ground arith
version-insert_deployments (g ∷ gs) s t e =
    let (u, f, rest) = >>=-steps (insert_deployment g s) (insert_deployments gs) e in
    version-insert_deployments gs u t rest ∙ version-insert_deployment g s u f

version-insert_claims :
    (id : String) (cs : List (EndpointRequest × String)) (s t : Store)
    → insert_claims id cs s ≡ ok t
    → state_version t ≡ state_version s
unfolding insert_claims
version-insert_claims id [] s t e = ground arith
version-insert_claims id (c ∷ cs) s t e =
    let (u, f, rest) = >>=-steps (insert_claim (to_claim id c) s) (insert_claims id cs) e in
    version-insert_claims id cs u t rest ∙ version-insert_claim (to_claim id c) s u f

version-revive :
    (ids : List String) (now : ℕ) (s : Store) → state_version (revive ids now s) ≡ state_version s
unfolding revive set_deployment_state
version-revive [] now s = refl
version-revive (id ∷ ids) now s =
    version-revive ids now (set_deployment_state id DeploymentState.live now s)

version-update_served :
    (d : Dict (Dict String)) (now : ℕ) (s : Store)
    → state_version (update_served d now s) ≡ state_version s
unfolding update_served update_deployment_served
version-update_served [] now s = refl
version-update_served ((id, served) ∷ d) now s =
    version-update_served d now (update_deployment_served id served now s)

version-allocate : (d : Dict (List ℕ)) (s : Store) → state_version (allocate d s) ≡ state_version s
unfolding allocate set_deployment_allocation
version-allocate [] s = refl
version-allocate ((id, gpus) ∷ d) s =
    version-allocate d (set_deployment_allocation id (some gpus) s)

version-write_overlay :
    (o : AcquireOverlay) (allocations : Dict (List ℕ)) (digest profile : Option String) (s : Store)
    → state_version (write_overlay o allocations digest profile s) ≡ state_version s
unfolding write_overlay write_profile write_marker
version-write_overlay o allocations digest profile s = ground (
  arith,
  version-allocate allocations (update_served o.served_updates o.now (revive o.revived o.now s)),
  version-update_served o.served_updates o.now (revive o.revived o.now s),
  version-revive o.revived o.now s,
)

version-commit :
    (lease_id owner : String) (ttl : Option ℕ) (o : AcquireOverlay) (allocations : Dict (List ℕ))
    (digest profile : Option String) (s t : Store)
    → commit lease_id owner ttl o allocations digest profile s ≡ ok t
    → state_version t ≡ suc (state_version s)
unfolding commit bump_desired_generation
version-commit lease_id owner ttl o allocations digest profile s t e =
    let (a, f, e1) = >>=-steps (insert_lease (new_lease lease_id owner o.now ttl) s) _ e in
    let (b, g, e2) = >>=-steps (insert_deployments o.created a) _ e1 in
    let (c, h, e3) =
      >>=-steps (insert_claims lease_id o.claims (write_overlay o allocations digest profile b)) _
        e2 in
    ground (
      arith,
      version-insert_lease (new_lease lease_id owner o.now ttl) s a f,
      version-insert_deployments o.created a b g,
      version-write_overlay o allocations digest profile b,
      version-insert_claims lease_id o.claims (write_overlay o allocations digest profile b) c h,
      e3,
    )

-- A successful `acquire` is a checked overlay and its commit.
pub acquire-parts :
    (ids : Ids) (owner : String) (requests : List EndpointRequest) (ttl : Option ℕ)
    (overlay : Option AcquireOverlay) (allocations : Dict (List ℕ)) (digest profile : Option String)
    (now next_id : ℕ) (s t : Store) (r : AcquireResult)
    → acquire ids owner requests ttl overlay allocations digest profile now next_id s ≡ ok (t, r)
    → (o : AcquireOverlay) × (checked_overlay ids requests overlay now (next_id + 1) s ≡ ok o)
      × (commit (ids.id_factory "lease" next_id) owner ttl o allocations digest profile s ≡ ok t)
unfolding acquire acquired
acquire-parts ids owner requests ttl overlay allocations digest profile now next_id s t r e =
    let (o, f, e1) = >>=-steps (checked_overlay ids requests overlay now (next_id + 1) s) _ e in
    let (u, g, e2) =
      >>=-steps (commit (ids.id_factory "lease" next_id) owner ttl o allocations digest profile s)
        (acquired (ids.id_factory "lease" next_id) o) e1 in
    (
      o,
      f,
      subst
          (λ v.
            commit (ids.id_factory "lease" next_id) owner ttl o allocations digest profile s ≡ ok v)
          (elim (Option-cases (get_lease u (ids.id_factory "lease" next_id))) [
            | inl n ↦ ground (arith, n)
            | inr (l, n) ↦ ground (arith, n)
          ])
          g,
    )

-- The overlay that is given is the one that is committed.
pub acquire-commit :
    (ids : Ids) (owner : String) (requests : List EndpointRequest) (ttl : Option ℕ)
    (o : AcquireOverlay) (allocations : Dict (List ℕ)) (digest profile : Option String)
    (now next_id : ℕ) (s t : Store) (r : AcquireResult)
    → acquire ids owner requests ttl (some o) allocations digest profile now next_id s ≡ ok (t, r)
    → commit (ids.id_factory "lease" next_id) owner ttl o allocations digest profile s ≡ ok t
unfolding checked_overlay
acquire-commit ids owner requests ttl o allocations digest profile now next_id s t r e =
    let (x, f, g) =
      acquire-parts ids owner requests ttl (some o) allocations digest profile now next_id s t r
        e in
    subst
      (λ y. commit (ids.id_factory "lease" next_id) owner ttl y allocations digest profile s ≡ ok t)
      (ground (arith, f)) g

-- A preview can be committed once: after an `acquire` has committed it, every further `acquire` of
-- it, for any owner, requests, TTL and allocations and at any time, is refused as a conflict.
pub acquire-twice :
    (ids : Ids) (owner other : String) (requests others : List EndpointRequest)
    (ttl ttl' : Option ℕ) (o : AcquireOverlay) (allocations allocations' : Dict (List ℕ))
    (digest profile digest' profile' : Option String) (now later next_id next : ℕ) (s t : Store)
    (r : AcquireResult)
    → acquire ids owner requests ttl (some o) allocations digest profile now next_id s ≡ ok (t, r)
    → acquire ids other others ttl' (some o) allocations' digest' profile' later next t
      ≡ err admission_conflict
unfolding acquire checked_overlay
acquire-twice ids owner other requests others ttl ttl' o allocations allocations' digest profile
      digest' profile' now later next_id next s t r e =
    let (o', f, g) =
      acquire-parts ids owner requests ttl (some o) allocations digest profile now next_id s t r
        e in
    let moved =
      version-commit (ids.id_factory "lease" next_id) owner ttl o' allocations digest profile s t
        g in
    ground (arith, f, moved)

-- An `acquire` without a preview is the one that commits the plan made from the same state at the same
-- time, with no residency hint and the ids that follow the lease's.
pub acquire-planned :
    (ids : Ids) (owner : String) (requests : List EndpointRequest) (ttl : Option ℕ)
    (allocations : Dict (List ℕ)) (digest profile : Option String) (now next_id : ℕ) (s : Store)
    → acquire ids owner requests ttl none allocations digest profile now next_id s
      ≡ acquire ids owner requests ttl
          (some (plan_acquire ids (λ id. false) requests now (next_id + 1) s))
          allocations
          digest
          profile
          now
          next_id
          s
unfolding acquire checked_overlay plan_acquire
acquire-planned ids owner requests ttl allocations digest profile now next_id s =
    rw (eqb_self (state_version s)) refl
  where
    eqb_self : (n : ℕ) → eqb n n ≡ true
    eqb_self n = ground arith
