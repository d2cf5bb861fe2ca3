-- ===== src/Placement/Allowed.antt =====
-- Where a plan of placement.py puts a deployment.
use infer_stack.Base.{
  ℕ, String, ◌≡◌, refl, sym, subst, true, Option, none, some, List, [], ◌∷◌, all, Dict, lookup,
  insert, ◌==◌, Bool-cases, ◌⊎◌, inl, inr,
}
use infer_stack.Models.{Deployment}
use infer_stack.Hardware.{has}
use infer_stack.Placement.{Host}
use infer_stack.Placement.Plan
use infer_stack.Placement.Passes.{AllEntries, plan-P}

-- What an assignment may be outside the pool for new placements: the deployment's own entry.
abbrev pub IsOwn : Dict (List ℕ) → Option Plan.Inputs → String → List ℕ → Type 0
IsOwn pins none id want = lookup id pins ≡ some want
IsOwn pins (some i) id want =
    (lookup id i.hard ≡ some want) ⊎ (lookup id i.optional_hints ≡ some want)

abbrev pub Allowed : List ℕ → (String → List ℕ → Type 0) → Dict (List ℕ) → Type 0
Allowed pool Own [] = Unit
Allowed pool Own ((id, want) ∷ d) =
    ((all (has pool) want ≡ true) ⊎ Own id want) × Allowed pool Own d

Allowed-insert :
    (pool : List ℕ) (Own : String → List ℕ → Type 0) (id : String) (want : List ℕ)
    (d : Dict (List ℕ))
    → (all (has pool) want ≡ true) ⊎ Own id want
    → Allowed pool Own d
    → Allowed pool Own (insert id want d)
unfolding insert
Allowed-insert pool Own id want [] w h = (w, tt)
Allowed-insert pool Own id want ((j, old) ∷ d) w h = elim (Bool-cases (j == id)) [
  | inl e ↦ rw e (w, h.1)
  | inr e ↦ rw e (h.0, Allowed-insert pool Own id want d w h.1)
]

IsOwn-entries :
    (pins : Dict (List ℕ)) (inputs : Option Plan.Inputs)
    → AllEntries (IsOwn pins inputs) pins inputs
IsOwn-entries pins none = λ id want e. e
IsOwn-entries pins (some i) = (λ id want e. inl e, λ id want e. inr e)

-- Every assignment of a plan keeps to the pool for new placements (the allowed, unreserved GPUs), or
-- it is unchanged what the deployment had already: its pin, or in admission mode its hard allocation
-- or its hint.
pub plan_placement-Allowed :
    (h : Host) (pins : Dict (List ℕ)) (inputs : Option Plan.Inputs) (gs : List Deployment)
    → Allowed
        (Plan.pool_of h)
        (IsOwn pins inputs)
        (Plan.plan_placement h pins inputs gs).assignments
plan_placement-Allowed h pins inputs gs =
    let Own = IsOwn pins inputs in
    let (p, a, e) =
      plan-P h (λ p. Allowed (Plan.pool_of h) Own p.assignments) Own
        (λ id want p _ inside k.
          Allowed-insert (Plan.pool_of h) Own id want p.assignments (inl inside) k)
        (λ id want p _ _ own k.
          Allowed-insert (Plan.pool_of h) Own id want p.assignments (inr own) k)
        (λ id p k.
          Allowed-insert (Plan.pool_of h) Own id [] p.assignments (inl (unfold all in refl)) k)
        (λ p q e _ k. subst (Allowed (Plan.pool_of h) Own) (sym e) k) pins inputs gs
        (IsOwn-entries pins inputs) tt in
    rw e a
