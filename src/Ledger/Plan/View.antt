-- ===== src/Ledger/Plan/View.antt =====
-- The plan's loop invariant: every deployment that is claimed is LIVE in the plan, and it is new,
-- LIVE in the store, or IDLE in the store and revived.
use infer_stack.Base.{
  ℕ, String, ◌≡◌, Bool, true, ◌&&◌, ◌||◌, some, List, [], ◌∷◌, ◌++◌, map, any, any-append, find-All,
  is_in, Distinct, arith, ◌==◌, eq_iff, Option-cases, Bool-cases, inl, inr, if◌then◌else◌, lookup,
  lookup-insert, All, All-append, All-map, All-filter, All-sort, All-of_select, holds, select-key,
}
use infer_stack.Models.{
  Deployment, EndpointRequest, is_live, is_idle, is_shared, capacity_satisfies,
}
use infer_stack.Store.{
  Store, deployment_key, select_deployment, deployments_by_compat, by_deployment_age,
  row_to_deployment, get_deployment,
}
use infer_stack.Ledger.{Ids, compat_key}
use infer_stack.Ledger.Plan.{
  Plan, viewed, Candidate, candidates, choose, cheaper, current, as_pending, as_claimed,
  claim_existing, claim_new, new_deployment, add_id, plan_request, plan_requests, empty_plan,
  claim_id,
}
use infer_stack.Ledger.Upkeep.{is_live_in, is_idle_in}

module _ (s : Store) where
  -- Where a deployment of the plan comes from.
  abbrev pub is_backed : List String → List String → String → Bool
  is_backed created revived id =
      is_in id created || is_live_in s id || (is_idle_in s id && is_in id revived)

  -- A candidate is one of the view, or an idle row of the store.
  abbrev pub is_usable : List String → List String → Deployment → Bool
  is_usable created revived g =
      (is_live g.state && is_backed created revived g.id) || (is_idle g.state && is_idle_in s g.id)

  pub record IsPlanned (p : Plan) : Type 0 where
    pub view :
        (id : String) (g : Deployment)
        → lookup id p.view ≡ some g
        → (g.id ≡ id) × (is_live g.state ≡ true) × (is_backed p.created p.revived id ≡ true)
    pub made :
        (id : String) → is_in id p.created ≡ true → holds (λ g. true) (lookup id p.view) ≡ true
    pub seen :
        (id : String)
        → is_in id (map claim_id p.claims) ≡ true
        → holds (λ g. true) (lookup id p.view) ≡ true
    pub created :
        (id : String) → is_in id p.created ≡ true → is_in id (map claim_id p.claims) ≡ true
    pub revived :
        (id : String) → is_in id p.revived ≡ true → is_in id (map claim_id p.claims) ≡ true
    pub claims :
        (id : String)
        → is_in id (map claim_id p.claims) ≡ true
        → is_backed p.created p.revived id ≡ true

  abbrev Usable : Plan → Candidate → Type 0
  Usable p c = is_usable p.created p.revived c.0 ≡ true

  is_live_in-select :
      (id : String) (g : Deployment)
      → select_deployment s id ≡ some g
      → (is_live_in s id ≡ is_live g.state) × (is_idle_in s id ≡ is_idle g.state)
  unfolding is_live_in is_idle_in get_deployment
  is_live_in-select id g e = ground (arith, e)

  row_Usable :
      (p : Plan)
      → IsPlanned p
      → (k : String) (g : Deployment) → select_deployment s k ≡ some g
      → (is_live g.state || is_idle g.state) ≡ true
      → Usable p (current p.view (row_to_deployment g))
  row_Usable p h k g e lives = elim (Option-cases (lookup g.id p.view)) [
    | inl f ↦
        (ground
          (arith, f, is_live_in-select k g e, select-key deployment_key k s.deployments {r = g} e))
    | inr (v, f) ↦ ground (arith, f, h.view g.id v f)
  ]

  viewed-Usable :
      (p : Plan)
      → IsPlanned p
      → (ids : List String) → All (λ g. is_usable p.created p.revived g ≡ true) (viewed p.view ids)
  viewed-Usable p h [] = tt
  viewed-Usable p h (id ∷ ids) = elim (Option-cases (lookup id p.view)) [
    | inl f ↦ rw (All, f) (viewed-Usable p h ids)
    | inr (g, f) ↦ rw (All, f) (ground (arith, h.view id g f), viewed-Usable p h ids)
  ]

  module _ (ids : Ids) (d : Distinct (map deployment_key s.deployments)) where
    candidates-Usable :
        (req : EndpointRequest) (p : Plan) → IsPlanned p → All (Usable p) (candidates ids s req p)
    unfolding candidates deployments_by_compat
    candidates-Usable req p h =
        All-append (Usable p) _ _
          (All-map (Usable p) (current p.view) _ (
            All-map (λ g. Usable p (current p.view g)) row_to_deployment _
              (All-sort by_deployment_age (λ g. Usable p (current p.view (row_to_deployment g))) _
                (All-filter (λ g. Usable p (current p.view (row_to_deployment g))) _ s.deployments
                  (All-of_select deployment_key _ s.deployments d (λ k g e. stored k g e))))))
          (All-map (Usable p) as_pending _ (
            All-filter (λ g. is_usable p.created p.revived g ≡ true) _ (viewed p.view p.created)
              (All_weaken _ (viewed p.view p.created) (viewed-Usable p h p.created))))
      where
        stored :
            (k : String) (g : Deployment)
            → select_deployment s k ≡ some g
            → (g.compat_key == compat_key ids req
                && is_shared g.sharing
                && (is_live g.state || is_idle g.state))
              ≡ true
            → Usable p (current p.view (row_to_deployment g))
        stored k g e t = row_Usable p h k g e (ground (arith, t))

        All_weaken :
            (q : Deployment → Bool) (gs : List Deployment)
            → All (λ g. is_usable p.created p.revived g ≡ true) gs
            → All (λ g. q g ≡ true → is_usable p.created p.revived g ≡ true) gs
        All_weaken q [] a = tt
        All_weaken q (g ∷ gs) a = (λ k. a.0, All_weaken q gs a.1)

    choose-usable :
        (resident : String → Bool) (req : EndpointRequest) (p : Plan) (g : Deployment) (b : Bool)
        → IsPlanned p
        → choose ids s resident req p ≡ some (g, b)
        → is_usable p.created p.revived g ≡ true
    unfolding choose
    choose-usable resident req p g b h e = elim (Bool-cases (is_shared req.sharing)) [
      | inr f ↦ ground (arith, f)
      | inl f ↦
          find-All (Usable p) (λ c. capacity_satisfies c.0.capacity req.capacity) _ {x = (g, b)}
            (All-sort (cheaper resident) (Usable p) _ (candidates-Usable req p h))
            (ground (arith, f))
    ]

  as_claimed_lem :
      (req : EndpointRequest) (g : Deployment)
      → ((as_claimed req g).id ≡ g.id)
        × (is_live (as_claimed req g).state ≡ (is_live g.state || is_idle g.state))
  as_claimed_lem req g = ground arith

  is_in-revived :
      (g : Deployment) (revived : List String) (id : String)
      → is_in id (if is_idle g.state then revived ++ g.id ∷ [] else revived)
        ≡ (is_in id revived || (is_idle g.state && (g.id == id)))
  unfolding any
  is_in-revived g revived id = ground (arith, any-append (λ j. j == id) revived (g.id ∷ []))

  is_in-claimed :
      (req : EndpointRequest) (k : String) (claims : List (EndpointRequest × String)) (id : String)
      → is_in id (map claim_id (claims ++ (req, k) ∷ []))
        ≡ (is_in id (map claim_id claims) || (k == id))
  unfolding any
  is_in-claimed req k [] id = ground arith
  is_in-claimed req k (c ∷ claims) id = ground (arith, is_in-claimed req k claims id)

  is_in-add_id :
      (k : String) (created : List String) (id : String)
      → is_in id (add_id k created) ≡ (is_in id created || (k == id))
  unfolding any
  is_in-add_id k created id =
      ground (arith, eq_iff k id, any-append (λ j. j == id) created (k ∷ []))

  claim_existing-IsPlanned :
      (req : EndpointRequest) (g : Deployment) (p : Plan)
      → IsPlanned p
      → is_usable p.created p.revived g ≡ true
      → IsPlanned (claim_existing req g p)
  unfolding claim_existing
  claim_existing-IsPlanned req g p h u = record {
    view = λ id x e. ground (
      arith,
      eq_iff g.id id,
      lookup-insert g.id id (as_claimed req g) p.view,
      h.view id x,
      as_claimed_lem req g,
      is_in-revived g p.revived id,
    );
    made = λ id e.
        ground (arith, eq_iff g.id id, h.made id, lookup-insert g.id id (as_claimed req g) p.view);
    seen = λ id e. ground (
      arith,
      eq_iff g.id id,
      h.seen id,
      is_in-claimed req g.id p.claims id,
      lookup-insert g.id id (as_claimed req g) p.view,
    );
    created = λ id e. ground (arith, h.created id, is_in-claimed req g.id p.claims id);
    revived = λ id e.
        ground
          (arith, h.revived id, is_in-claimed req g.id p.claims id, is_in-revived g p.revived id);
    claims = λ id e. ground (
      arith,
      eq_iff g.id id,
      h.claims id,
      is_in-claimed req g.id p.claims id,
      is_in-revived g p.revived id,
    );
  }

  claim_new-IsPlanned :
      (ids : Ids) (now : ℕ) (req : EndpointRequest) (p : Plan)
      → IsPlanned p
      → IsPlanned (claim_new ids now req p)
  unfolding claim_new
  claim_new-IsPlanned ids now req p h =
      let k = ids.id_factory "grp" p.next_id in
      record {
        view = λ id x e. ground (
          arith,
          eq_iff k id,
          lookup-insert k id (new_deployment ids now req p.next_id) p.view,
          h.view id x,
          is_in-add_id k p.created id,
        );
        made = λ id e. ground (
          arith,
          eq_iff k id,
          h.made id,
          is_in-add_id k p.created id,
          lookup-insert k id (new_deployment ids now req p.next_id) p.view,
        );
        seen = λ id e. ground (
          arith,
          eq_iff k id,
          h.seen id,
          is_in-claimed req k p.claims id,
          lookup-insert k id (new_deployment ids now req p.next_id) p.view,
        );
        created = λ id e.
            ground
              (arith, h.created id, is_in-claimed req k p.claims id, is_in-add_id k p.created id);
        revived = λ id e. ground (arith, h.revived id, is_in-claimed req k p.claims id);
        claims = λ id e.
            ground
              (arith, h.claims id, is_in-claimed req k p.claims id, is_in-add_id k p.created id);
      }

  empty_plan-IsPlanned : (next_id : ℕ) → IsPlanned (empty_plan next_id)
  unfolding lookup any
  empty_plan-IsPlanned next_id = record {
    view = λ id g e. ground arith;
    made = λ id e. ground arith;
    seen = λ id e. ground arith;
    created = λ id e. ground arith;
    revived = λ id e. ground arith;
    claims = λ id e. ground arith;
  }

  module _ (ids : Ids) (d : Distinct (map deployment_key s.deployments)) (resident : String → Bool)
      (now : ℕ) where
    plan_request-IsPlanned :
        (req : EndpointRequest) (p : Plan)
        → IsPlanned p
        → IsPlanned (plan_request ids resident now s req p)
    unfolding plan_request
    plan_request-IsPlanned req p h = elim (Option-cases (choose ids s resident req p)) [
      | inl e ↦ rw (plan_request, e) (claim_new-IsPlanned ids now req p h)
      | inr ((g, b), e) ↦
          rw (plan_request, e)
            (claim_existing-IsPlanned req g p h (choose-usable ids d resident req p g b h e))
    ]

    plan_requests-IsPlanned :
        (reqs : List EndpointRequest) (p : Plan)
        → IsPlanned p
        → IsPlanned (plan_requests ids resident now s reqs p)
    unfolding plan_requests
    plan_requests-IsPlanned [] p h = h
    plan_requests-IsPlanned (req ∷ reqs) p h =
        plan_requests-IsPlanned reqs (plan_request ids resident now s req p)
          (plan_request-IsPlanned req p h)

    pub planned :
        (reqs : List EndpointRequest) (next_id : ℕ)
        → IsPlanned (plan_requests ids resident now s reqs (empty_plan next_id))
    planned reqs next_id =
        plan_requests-IsPlanned reqs (empty_plan next_id) (empty_plan-IsPlanned next_id)
