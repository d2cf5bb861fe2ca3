-- ===== src/Controller/Desired.antt =====
-- The deployments and inputs that admission hands to placement: which deployment has which role.
use infer_stack.Base.{
  ℕ, String, ◌≡◌, refl, sym, ap, ◌∙◌, subst, Bool, true, false, ◌&&◌, ◌||◌, if◌then◌else◌, Option,
  none, some, List, [], ◌∷◌, ◌++◌, map, any, any-append, is_in, Distinct, arith, ◌==◌, eq_iff,
  Option-cases, Bool-cases, inl, inr, Dict, lookup, lookup-insert, select, sort, select-sort,
  Distinct-sort, select-map, keys-map, lookup-by_key, by_key, by_key-IsKeyed, IsKeyed, or_else,
}
use mathlib.Core.Option
use infer_stack.Models.{Deployment, is_live, is_idle}
use infer_stack.Store.{
  Store, deployment_key, select_deployment, list_deployments, with_demand, by_deployment_age,
}
use infer_stack.Store.Keys.{deployment_ids}
use infer_stack.Residency.{Residency}
use infer_stack.Ledger.{AcquireOverlay}
use infer_stack.Ledger.Status.{status}
use infer_stack.Placement.Complete.{listed}
use infer_stack.Controller.{
  Policy, View, empty_view, view_all, view_one, view_live, view_idle, keeps_up, known_gpus,
  proposed, candidates_of, fresh_of, admission_view,
}

-- A stored deployment as the ledger lists it.
pub select-status :
    (id : String) (now : ℕ) (s : Store)
    → Distinct (deployment_ids s)
    → select deployment_key id (status false now s).1
      ≡ Option.map (with_demand s now) (select_deployment s id)
unfolding status list_deployments
select-status id now s d =
    select-map deployment_key (with_demand s now) (λ g. refl) id
      (sort by_deployment_age s.deployments)
    ∙ ap (Option.map (with_demand s now))
        (select-sort deployment_key by_deployment_age id s.deployments d)

pub status-Distinct :
    (now : ℕ) (s : Store)
    → Distinct (deployment_ids s)
    → Distinct (map deployment_key (status false now s).1)
unfolding status list_deployments
status-Distinct now s d =
    subst Distinct
      (sym (
        keys-map deployment_key (with_demand s now) (λ g. refl)
          (sort by_deployment_age s.deployments)))
      (Distinct-sort deployment_key by_deployment_age s.deployments d)

-- A candidate's deployment stands in for the stored one.
pub lookup-proposed :
    (o : Option AcquireOverlay) (id : String) (now : ℕ) (s : Store)
    → Distinct (deployment_ids s)
    → Distinct (map deployment_key (candidates_of o))
    → lookup id (proposed o false now s)
      ≡ or_else
          (select deployment_key id (candidates_of o))
          (or_else (Option.map (with_demand s now) (select_deployment s id)) none)
unfolding proposed lookup
lookup-proposed o id now s d e =
    lookup-by_key deployment_key id (candidates_of o)
      (by_key deployment_key (status false now s).1 []) e
    ∙ ap (or_else (select deployment_key id (candidates_of o))) (
        lookup-by_key deployment_key id (status false now s).1 [] (status-Distinct now s d)
        ∙ ap (λ x. or_else x none) (select-status id now s d))

proposed-IsKeyed :
    (o : Option AcquireOverlay) (now : ℕ) (s : Store)
    → IsKeyed deployment_key (proposed o false now s)
unfolding proposed
proposed-IsKeyed o now s =
    by_key-IsKeyed deployment_key (candidates_of o)
      (by_key deployment_key (status false now s).1 [])
      (by_key-IsKeyed deployment_key (status false now s).1 [] tt)

-- What a deployment adds to the hard allocations.
abbrev pub hard_of : Deployment → Option (List ℕ)
hard_of g = if is_live g.state then g.assigned_gpus else none

module _ (c : Policy) (fresh : List String) (residency : Option Residency) where
  hard-view_one :
      (id : String) (g : Deployment) (v : View)
      → lookup id (view_one c fresh residency g v).hard
        ≡ (if g.id == id then or_else (hard_of g) (lookup id v.hard) else lookup id v.hard)
  unfolding view_one view_live view_idle
  hard-view_one id g v = elim (Bool-cases (is_live g.state)) [
    | inl e ↦ elim (Option-cases g.assigned_gpus) [
      | inl f ↦ ground (arith, e, f)
      | inr (gpus, f) ↦ ground (arith, e, f, lookup-insert g.id id gpus v.hard)
    ]
    | inr e ↦ elim (Option-cases (known_gpus residency g.id)) [
      | inl f ↦ ground (arith, e, f)
      | inr (gpus, f) ↦ ground (arith, e, f)
    ]
  ]

  hard-view_all :
      (id : String) (d : Dict Deployment) (v : View)
      → IsKeyed deployment_key d
      → lookup id (view_all c fresh residency d v).hard ≡ (elim (lookup id d) [
        | none ↦ lookup id v.hard
        | some g ↦ or_else (hard_of g) (lookup id v.hard)
      ])
  unfolding view_all lookup
  hard-view_all id [] v k = refl
  hard-view_all id ((j, g) ∷ d) v k = ground (
    arith,
    eq_iff g.id id,
    eq_iff j id,
    hard-view_one id g v,
    hard-view_all id d (view_one c fresh residency g v) k.2,
  )

  -- Which deployments a render is given, and how.
  abbrev pub is_given : Deployment → Bool
  is_given g =
      if is_live g.state
      then elim g.assigned_gpus [ some gpus ↦ true | none ↦ is_in g.id fresh ]
      else is_idle g.state
        && keeps_up c g
        && (elim (known_gpus residency g.id) [ none ↦ false | some gpus ↦ true ])

  listed-view_one :
      (id : String) (g : Deployment) (v : View)
      → listed id
          ((view_one c fresh residency g v).required ++ (view_one c fresh residency g v).optional)
        ≡ (listed id (v.required ++ v.optional) || (g.id == id && is_given g))
  unfolding view_one view_live view_idle any
  listed-view_one id g v =
      let at = λ (x : Deployment). x.id == id in
      elim (Bool-cases (is_live g.state)) [
        | inl e ↦ elim (Option-cases g.assigned_gpus) [
          | inl f ↦ ground (
            arith,
            e,
            f,
            any-append at v.required v.optional,
            any-append at (v.required ++ g ∷ []) v.optional,
            any-append at v.required (g ∷ []),
          )
          | inr (gpus, f) ↦ ground (
            arith,
            e,
            f,
            any-append at v.required v.optional,
            any-append at (v.required ++ g ∷ []) v.optional,
            any-append at v.required (g ∷ []),
          )
        ]
        | inr e ↦ elim (Option-cases (known_gpus residency g.id)) [
          | inl f ↦ ground (arith, e, f)
          | inr (gpus, f) ↦ ground (
            arith,
            e,
            f,
            any-append at v.required v.optional,
            any-append at v.required (v.optional ++ g ∷ []),
            any-append at v.optional (g ∷ []),
          )
        ]
      ]

  listed-view_all :
      (id : String) (d : Dict Deployment) (v : View)
      → IsKeyed deployment_key d
      → listed id
          ((view_all c fresh residency d v).required ++ (view_all c fresh residency d v).optional)
        ≡ (listed id (v.required ++ v.optional)
            || (elim (lookup id d) [ none ↦ false | some g ↦ is_given g ]))
  unfolding view_all lookup
  listed-view_all id [] v k = ground arith
  listed-view_all id ((j, g) ∷ d) v k = ground (
    arith,
    eq_iff g.id id,
    eq_iff j id,
    listed-view_one id g v,
    listed-view_all id d (view_one c fresh residency g v) k.2,
  )

module _ (c : Policy) (residency : Option Residency) (o : Option AcquireOverlay) (now : ℕ)
    (s : Store) (id : String) where
  -- A proposed deployment that is LIVE with committed GPUs is given to placement with these as its hard
  -- allocation.
  pub admission_view_committed :
      (g : Deployment) (want : List ℕ)
      → lookup id (proposed o false now s) ≡ some g
      → is_live g.state ≡ true
      → g.assigned_gpus ≡ some want
      → (listed id (admission_view c residency o false now s).0 ≡ true)
        × (lookup id (admission_view c residency o false now s).1.hard ≡ some want)
  unfolding admission_view
  admission_view_committed g want e live has =
      let keyed = proposed-IsKeyed o now s in
      (
        unfold any in
            ground (
              arith,
              e,
              live,
              has,
              listed-view_all c (fresh_of o) residency id (proposed o false now s) empty_view keyed,
            ),
        unfold lookup in
            ground (
              arith,
              e,
              live,
              has,
              hard-view_all c (fresh_of o) residency id (proposed o false now s) empty_view keyed,
            ),
      )
