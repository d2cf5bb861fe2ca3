-- ===== src/Controller/Admit/Apart.antt =====
-- The allocations that `Controller._admit` takes from a plan.
use infer_stack.Base.{
  ℕ, String, ◌≡◌, refl, ◌∙◌, subst, false, inl, inr, some, List, [], ◌∷◌, any, is_in, Distinct,
  arith, ◌==◌, eq_iff, Option-cases, Bool-cases, Dict, lookup,
}
use infer_stack.Hardware.{overlaps}
use infer_stack.Hardware.Sets.{overlaps_sym}
use infer_stack.Placement.Disjoint.{Disjoint, ApartFrom}
use infer_stack.Placement.Plan.{GpuPlan}
use infer_stack.Models.{Deployment}
use infer_stack.Controller.Admit.{allocations_of, assigned_to, ids_of}

ApartFrom-lookup :
    (want : List ℕ) (d : Dict (List ℕ)) (id : String) (gpus : List ℕ)
    → ApartFrom want d
    → lookup id d ≡ some gpus
    → overlaps gpus want ≡ false
unfolding lookup
ApartFrom-lookup want [] id gpus h e = cc
ApartFrom-lookup want ((j, old) ∷ d) id gpus h e = elim (Bool-cases (j == id)) [
  | inl f ↦ subst (λ x. overlaps x want ≡ false) (ground (arith, f)) h.0
  | inr f ↦ ApartFrom-lookup want d id gpus h.1 (ground (arith, f))
]

-- Two entries of disjoint assignments.
apart-lookup :
    (d : Dict (List ℕ)) (i j : String) (want gpus : List ℕ)
    → Disjoint d
    → lookup i d ≡ some want
    → lookup j d ≡ some gpus
    → (i == j) ≡ false
    → overlaps gpus want ≡ false
unfolding lookup
apart-lookup [] i j want gpus h e f ne = cc
apart-lookup ((k, old) ∷ d) i j want gpus h e f ne = elim (Bool-cases (k == i)) [
  | inl p ↦
      ApartFrom-lookup want d j gpus (subst (λ x. ApartFrom x d) (ground (arith, p)) h.0)
        (ground (arith, eq_iff k i, eq_iff k j, eq_iff i j, p))
  | inr p ↦ elim (Bool-cases (k == j)) [
    | inl q ↦
        overlaps_sym gpus want
        ∙ ApartFrom-lookup gpus d i want (subst (λ x. ApartFrom x d) (ground (arith, q)) h.0)
            (ground (arith, p))
    | inr q ↦ apart-lookup d i j want gpus h.1 (ground (arith, p)) (ground (arith, q)) ne
  ]
]

module _ (plan : GpuPlan) (disjoint : Disjoint plan.assignments) where
  assigned-apart :
      (i j : String) (want : List ℕ)
      → lookup i plan.assignments ≡ some want
      → (i == j) ≡ false
      → overlaps (assigned_to plan j) want ≡ false
  unfolding any
  assigned-apart i j want e ne = elim (Option-cases (lookup j plan.assignments)) [
    | inl f ↦ rw (f, assigned_to) refl
    | inr (gpus, f) ↦
        rw (f, assigned_to) (apart-lookup plan.assignments i j want gpus disjoint e f ne)
  ]

  pub allocations_of-ApartFrom :
      (fresh : List String) (gs : List Deployment) (id : String) (want : List ℕ)
      → lookup id plan.assignments ≡ some want
      → is_in id (ids_of gs) ≡ false
      → ApartFrom want (allocations_of plan fresh gs)
  unfolding allocations_of any
  allocations_of-ApartFrom fresh [] id want e absent = tt
  allocations_of-ApartFrom fresh (g ∷ gs) id want e absent =
      let rest = allocations_of-ApartFrom fresh gs id want e (ground arith) in
      elim (Bool-cases (is_in g.id fresh)) [
        | inl f ↦
            rw f
              (assigned-apart id g.id want e (ground (arith, eq_iff id g.id, eq_iff g.id id)), rest)
        | inr f ↦ rw f rest
      ]

  -- Apart from the head's assignment, known or not.
  rest-ApartFrom :
      (fresh : List String) (gs : List Deployment) (id : String)
      → is_in id (ids_of gs) ≡ false
      → ApartFrom (assigned_to plan id) (allocations_of plan fresh gs)
  rest-ApartFrom fresh gs id absent = elim (Option-cases (lookup id plan.assignments)) [
    | inl f ↦ rw (f, assigned_to) (ApartFrom-nil (allocations_of plan fresh gs))
    | inr (want, f) ↦ rw (f, assigned_to) (allocations_of-ApartFrom fresh gs id want f absent)
  ]
    where
      ApartFrom-nil : (d : Dict (List ℕ)) → ApartFrom [] d
      ApartFrom-nil [] = tt
      ApartFrom-nil ((k, gpus) ∷ d) = (unfold any in overlaps_sym gpus [], ApartFrom-nil d)

  pub allocations_of-Disjoint :
      (fresh : List String) (gs : List Deployment)
      → Distinct (ids_of gs)
      → Disjoint (allocations_of plan fresh gs)
  unfolding allocations_of
  allocations_of-Disjoint fresh [] d = tt
  allocations_of-Disjoint fresh (g ∷ gs) d = elim (Bool-cases (is_in g.id fresh)) [
    | inl f ↦ rw f (rest-ApartFrom fresh gs g.id d.0, allocations_of-Disjoint fresh gs d.1)
    | inr f ↦ rw f (allocations_of-Disjoint fresh gs d.1)
  ]
