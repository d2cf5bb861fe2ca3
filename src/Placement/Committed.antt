-- ===== src/Placement/Committed.antt =====
-- Committed allocations in the admission mode of placement.py.
use infer_stack.Base.{
  ℕ, String, ◌≡◌, refl, ◌∙◌, sym, ap, Bool, true, false, ◌||◌, ◌⊎◌, none, some, List, [], ◌∷◌, ◌++◌,
  any, any-append, any-sort, is_in, Dict, lookup, lookup-insert, arith, eq_iff, eq_self, ◌==◌,
  Bool-cases, Option-cases, inl, inr, sort, subst,
}
use infer_stack.Models.{Deployment}
use infer_stack.Placement.{Host}
use infer_stack.Placement.Plan
use infer_stack.Placement.Complete.{listed}
use infer_stack.Placement.Others.{Same, Same-trans, Same-assign, Same-place, Same-stay_all}

module _ (id : String) where
  module _ (pool : List ℕ) (i : Plan.Inputs) (want : List ℕ)
      (committed : lookup id i.hard ≡ some want) where
    -- Degraded, or assigned what was committed.
    abbrev pub IsKept : Plan.Placing → Type 0
    IsKept p = (is_in id p.degraded ≡ true) ⊎ (lookup id p.assignments ≡ some want)

    abbrev others : Plan.Admission → Bool
    others a = listed id a.required || listed id a.optional

    Same-IsKept : (p q : Plan.Placing) → Same id p q → IsKept p → IsKept q
    Same-IsKept p q s (inl k) = inl (ap (is_in id) s.1 ∙ k)
    Same-IsKept p q s (inr k) = inr (s.0 ∙ k)

    keep_hard-IsKept : (p : Plan.Placing) → IsKept (Plan.keep_hard pool id want p)
    unfolding Plan.keep_hard any
    keep_hard-IsKept p = elim (Bool-cases (Plan.is_placeable pool p.used want)) [
      | inl b ↦ rw b (inr (ground (arith, lookup-insert id id want p.assignments, eq_self id)))
      | inr b ↦
          rw b (inl (ground (arith, any-append (λ j. j == id) p.degraded (id ∷ []), eq_self id)))
    ]

    -- A hard allocation of another deployment.
    keep_other :
        (k : String) (w : List ℕ) (p : Plan.Placing)
        → (k == id) ≡ false
        → IsKept p
        → IsKept (Plan.keep_hard pool k w p)
    unfolding Plan.keep_hard
    keep_other k w p e h = elim (Bool-cases (Plan.is_placeable pool p.used w)) [
      | inl b ↦ rw b (Same-IsKept p (Plan.assign k w p) (Same-assign id k w p e) h)
      | inr b ↦ rw b (degraded h)
    ]
      where
        degraded :
            IsKept p
            → (is_in id (p.degraded ++ k ∷ []) ≡ true) ⊎ (lookup id p.assignments ≡ some want)
        degraded (inl x) =
            inl (any-append (λ j. j == id) p.degraded (k ∷ []) ∙ ap (λ b. b || is_in id (k ∷ [])) x)
        degraded (inr x) = inr x

    -- What the admission loop has made sure of: the deployment is not to be placed again, and it is kept once
    -- the loop has come to it.
    record Admitted (a : Plan.Admission) (gs : List Deployment) : Type 0 where
      pub not_required : listed id a.required ≡ false
      pub not_optional : listed id a.optional ≡ false
      pub kept : (listed id gs ≡ true) ⊎ IsKept a.placing

    admit_hard :
        (g : Deployment) (w : List ℕ) (a : Plan.Admission)
        → lookup g.id i.hard ≡ some w
        → Plan.admit_one pool i g a ≡ record a { placing = Plan.keep_hard pool g.id w a.placing }
    unfolding Plan.admit_one
    admit_hard g w a e = rw (e, Plan.admit_one) refl

    -- Without a hard allocation the placing is left alone, and only this deployment may be added.
    admit_fresh :
        (g : Deployment) (a : Plan.Admission)
        → (g.id == id) ≡ false
        → lookup g.id i.hard ≡ none
        → ((Plan.admit_one pool i g a).placing ≡ a.placing)
          × (listed id (Plan.admit_one pool i g a).required ≡ listed id a.required)
          × (listed id (Plan.admit_one pool i g a).optional ≡ listed id a.optional)
    unfolding Plan.admit_one any
    admit_fresh g a e n = (
      ground (arith, n),
      ground (arith, n, any-append (λ (d : Deployment). d.id == id) a.required (g ∷ [])),
      ground (arith, n, any-append (λ (d : Deployment). d.id == id) a.optional (g ∷ [])),
    )

    admit_later :
        (g : Deployment) (gs : List Deployment) (p q : Plan.Placing)
        → (g.id == id) ≡ false
        → (IsKept p → IsKept q)
        → (listed id (g ∷ gs) ≡ true) ⊎ IsKept p
        → (listed id gs ≡ true) ⊎ IsKept q
    unfolding any
    admit_later g gs p q e step (inl x) = inl (ground arith)
    admit_later g gs p q e step (inr x) = inr (step x)

    admit_one-Admitted :
        (g : Deployment) (gs : List Deployment) (a : Plan.Admission)
        → Admitted a (g ∷ gs)
        → Admitted (Plan.admit_one pool i g a) gs
    admit_one-Admitted g gs a h = elim (Bool-cases (g.id == id)) [
      | inl e ↦
          let same = (eq_iff g.id id).0 e in
          subst (λ x. Admitted x gs)
            (sym (admit_hard g want a (ap (λ k. lookup k i.hard) same ∙ committed)))
            (record {
              not_required = h.not_required;
              not_optional = h.not_optional;
              kept = inr (
                  subst (λ k. IsKept (Plan.keep_hard pool k want a.placing)) (sym same)
                    (keep_hard-IsKept a.placing));
            })
      | inr e ↦ elim (Option-cases (lookup g.id i.hard)) [
        | inl n ↦
            let (same, required, optional) = admit_fresh g a e n in
            record {
              not_required = required ∙ h.not_required;
              not_optional = optional ∙ h.not_optional;
              kept =
                  admit_later g gs a.placing (Plan.admit_one pool i g a).placing e
                    (λ k. subst IsKept (sym same) k) h.kept;
            }
        | inr (w, n) ↦
            subst (λ x. Admitted x gs) (sym (admit_hard g w a n))
              (record {
                not_required = h.not_required;
                not_optional = h.not_optional;
                kept =
                    admit_later g gs a.placing (Plan.keep_hard pool g.id w a.placing) e
                      (keep_other g.id w a.placing e) h.kept;
              })
      ]
    ]

    admit-Admitted :
        (gs : List Deployment) (a : Plan.Admission)
        → Admitted a gs
        → Admitted (Plan.admit pool i gs a) []
    unfolding Plan.admit
    admit-Admitted [] a h = h
    admit-Admitted (g ∷ gs) a h =
        admit-Admitted gs (Plan.admit_one pool i g a) (admit_one-Admitted g gs a h)

    all-IsKept : (a : Plan.Admission) → Admitted a [] → IsKept a.placing
    unfolding any
    all-IsKept a h = kept_of h.kept
      where
        kept_of : (false ≡ true) ⊎ IsKept a.placing → IsKept a.placing
        kept_of (inl x) = cc
        kept_of (inr x) = x

-- In admission mode a deployment that is given and has a committed allocation is assigned exactly that
-- allocation in the final plan, or it is reported as degraded.
pub plan_placement_committed :
    (h : Host) (pins : Dict (List ℕ)) (i : Plan.Inputs) (gs : List Deployment) (id : String)
    (want : List ℕ)
    → listed id gs ≡ true
    → lookup id i.hard ≡ some want
    → (is_in id (Plan.plan_placement h pins (some i) gs).degraded ≡ true)
      ⊎ (lookup id (Plan.plan_placement h pins (some i) gs).assignments ≡ some want)
unfolding Plan.plan_placement any
plan_placement_committed h pins i gs id want given committed =
    let pool = Plan.pin_pool_of h in
    let a = Plan.admission h i gs in
    let p = Plan.place h [] a.required a.placing in
    let admitted =
      admit-Admitted id pool i want committed (sort Plan.older gs)
        (record { placing = Plan.start; required = []; optional = [] })
        (record {
          not_required = refl;
          not_optional = refl;
          kept = inl (any-sort Plan.older (λ (g : Deployment). g.id == id) gs ∙ given);
        }) in
    Same-IsKept id pool i want committed a.placing
      (Plan.stay_all pool i.optional_hints a.optional p)
      (Same-trans id a.placing p (Plan.stay_all pool i.optional_hints a.optional p)
        (Same-place id h a.required a.placing admitted.not_required)
        (Same-stay_all id pool i.optional_hints a.optional p admitted.not_optional))
      (all-IsKept id pool i want committed a admitted)
