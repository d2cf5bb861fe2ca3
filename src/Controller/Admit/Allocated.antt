-- ===== src/Controller/Admit/Allocated.antt =====
-- The committed GPUs after the commit of what `Controller._admit` allocates.
use infer_stack.Base.{
  ℕ, String, ◌≡◌, refl, ◌∙◌, ap, Bool, true, false, not, ◌&&◌, ◌||◌, Option, inl, inr, some, List,
  [], ◌∷◌, map, any, any-append, is_in, is_in-dedup, dedup, is_empty, Distinct, arith, Bool-cases,
  Option-cases, lookup, eq_iff, ◌==◌, holds,
}
use infer_stack.Models.{Deployment, EndpointRequest}
use infer_stack.Result.{ok}
use infer_stack.Store.{Store, deployment_key}
use infer_stack.Store.Keys.{deployment_ids}
use infer_stack.Residency.{Residency}
use infer_stack.Placement.Plan.{GpuPlan, is_known}
use infer_stack.Ledger.{Ids, AcquireOverlay, AcquireResult}
use infer_stack.Ledger.Plan.{
  Plan, plan_acquire, plan_requests, empty_plan, to_overlay, viewed, claim_id,
}
use infer_stack.Ledger.Plan.View.{IsPlanned, planned}
use infer_stack.Ledger.Acquire.{acquire}
use infer_stack.Ledger.Acquire.Version.{acquire-commit}
use infer_stack.Ledger.Acquire.Allocates.{lacks_at, commit-lacks_at}
use infer_stack.Controller.{Policy, fresh_ids, created_ids, unresolved_allocations}
use infer_stack.Controller.Admit.{Preview, admit, decide, needs, preview_of, allocations_of, ids_of}

-- Every LIVE deployment has committed GPUs.
abbrev pub IsAllocated : Store → Type 0
IsAllocated s = (id : String) → lacks_at s id ≡ false

-- An entry for each fresh deployment that is claimed.
is_known-allocations_of :
    (plan : GpuPlan) (fresh : List String) (gs : List Deployment) (id : String)
    → is_known id (allocations_of plan fresh gs) ≡ (is_in id (ids_of gs) && is_in id fresh)
unfolding allocations_of any lookup
is_known-allocations_of plan fresh [] id = refl
is_known-allocations_of plan fresh (g ∷ gs) id =
    ground (arith, eq_iff g.id id, is_known-allocations_of plan fresh gs id)

is_in-viewed :
    (s : Store) (p : Plan)
    → IsPlanned s p
    → (ids : List String) (id : String) → is_in id ids ≡ true
    → holds (λ g. true) (lookup id p.view) ≡ true
    → is_in id (ids_of (viewed p.view ids)) ≡ true
unfolding any
is_in-viewed s p h [] id e k = e
is_in-viewed s p h (j ∷ ids) id e k = elim (Option-cases (lookup j p.view)) [
  | inl f ↦ ground (arith, f, eq_iff j id, is_in-viewed s p h ids id)
  | inr (g, f) ↦
      ground (arith, f, h.view j g f, eq_iff j id, eq_iff g.id id, is_in-viewed s p h ids id)
]

viewed-is_in :
    (s : Store) (p : Plan)
    → IsPlanned s p
    → (ids : List String) (id : String) → is_in id (map deployment_key (viewed p.view ids)) ≡ true
    → is_in id ids ≡ true
unfolding any
viewed-is_in s p h [] id e = e
viewed-is_in s p h (j ∷ ids) id e = elim (Option-cases (lookup j p.view)) [
  | inl f ↦ ground (arith, f, viewed-is_in s p h ids id)
  | inr (g, f) ↦
      ground (arith, f, h.view j g f, eq_iff j id, eq_iff g.id id, viewed-is_in s p h ids id)
]

-- What a plan creates or revives is among the deployments it claims.
fresh-claimed :
    (s : Store) (p : Plan) (at : ℕ)
    → IsPlanned s p
    → (id : String) → (is_in id (created_ids (to_overlay at s p)) || is_in id p.revived) ≡ true
    → is_in id (ids_of (to_overlay at s p).deployments) ≡ true
fresh-claimed s p at h id e =
    let claimed : is_in id (map claim_id p.claims) ≡ true =
      ground (arith, viewed-is_in s p h p.created id, h.created id, h.revived id) in
    is_in-viewed s p h (dedup (map claim_id p.claims)) id
      (is_in-dedup id (map claim_id p.claims) ∙ claimed) (h.seen id claimed)

admitted-allocations :
    (c : Policy) (preview : Preview) (o : AcquireOverlay) (r : Residency) (now : ℕ) (s : Store)
    → is_empty (admit c preview o (some r) now s).reasons ≡ true
    → (admit c preview o (some r) now s).allocations
      ≡ allocations_of (preview_of c preview o r now s).0 (fresh_ids o) o.deployments
unfolding admit decide
admitted-allocations c preview o r now s h =
    elim (Bool-cases (
      any (needs c (some r) o) o.deployments
      && not (is_empty (unresolved_allocations c (ids_of o.deployments) now s)))) [
        | inl e ↦ ground (arith, e)
        | inr e ↦ rw e refl
      ]

module _ (c : Policy) (preview : Preview) (ids : Ids) (resident : String → Bool) (r : Residency)
    (requests : List EndpointRequest) (planned_at first_id now : ℕ) (s : Store) where
  abbrev pub candidate : AcquireOverlay
  candidate = plan_acquire ids resident requests planned_at first_id s

  -- Where every LIVE deployment has committed GPUs (perhaps none of them) and deployment ids are
  -- distinct: when an acquire commits a plan of the same state that admission has no objection to,
  -- with the GPUs that admission allocates, every LIVE deployment has committed GPUs after it,
  -- whatever the backend's preview says.
  pub acquire-IsAllocated :
      (owner : String) (ttl : Option ℕ) (digest profile : Option String) (at next_id : ℕ)
      (t : Store) (answer : AcquireResult)
      → Distinct (deployment_ids s)
      → IsAllocated s
      → is_empty (admit c preview candidate (some r) now s).reasons ≡ true
      → acquire ids owner requests ttl
          (some candidate)
          (admit c preview candidate (some r) now s).allocations
          digest
          profile
          at
          next_id
          s
        ≡ ok (t, answer)
      → IsAllocated t
  unfolding plan_acquire
  acquire-IsAllocated owner ttl digest profile at next_id t answer keyed allocated admissible e id =
      let p = plan_requests ids resident planned_at s requests (empty_plan first_id) in
      let h = planned s ids keyed resident planned_at requests first_id in
      let d = admit c preview candidate (some r) now s in
      let committed =
        acquire-commit ids owner requests ttl candidate d.allocations digest profile at next_id s t
          answer e in
      elim (Bool-cases (lacks_at t id)) [
        | inr f ↦ f
        | inl f ↦
            let (from, unknown) =
              commit-lacks_at (ids.id_factory "lease" next_id) owner ttl candidate d.allocations
                digest profile s t committed id f in
            ground (
              arith,
              allocated id,
              from,
              unknown,
              ap (is_known id) (admitted-allocations c preview candidate r now s admissible),
              is_known-allocations_of (preview_of c preview candidate r now s).0
                  (fresh_ids candidate) candidate.deployments id,
              any-append (λ j. j == id) (created_ids candidate) candidate.revived,
              fresh-claimed s p planned_at h id,
            )
      ]
