-- ===== src/Placement/Disjoint.antt =====
-- Which GPUs a plan of placement.py hands out, over all its passes.
use mathlib.Core.Path.{subst₂}
use infer_stack.Base.{
  ℕ, String, ◌≡◌, refl, ◌∙◌, sym, subst, true, false, Option, some, none, List, [], ◌∷◌, ◌++◌, all,
  any, any-append, eqb, Dict, insert, arith, ◌==◌, Bool-cases, inl, inr,
}
use infer_stack.Models.{Deployment}
use infer_stack.Hardware.{has, overlaps}
use infer_stack.Hardware.Sets.{all_mono, overlaps_sym, overlaps_sub}
use infer_stack.Placement.{Host}
use infer_stack.Placement.Plan
use infer_stack.Placement.Passes.{AllEntries, plan-P}
use infer_stack.Placement.Pool.{all-has_self, pool-le-pin_pool}

-- Every assignment keeps to these GPUs.
abbrev pub Within : List ℕ → Dict (List ℕ) → Type 0
Within gpus [] = Unit
Within gpus ((id, want) ∷ d) = (all (has gpus) want ≡ true) × Within gpus d

abbrev pub ApartFrom : List ℕ → Dict (List ℕ) → Type 0
ApartFrom gpus [] = Unit
ApartFrom gpus ((id, want) ∷ d) = (overlaps want gpus ≡ false) × ApartFrom gpus d

-- No two assignments share a GPU.
abbrev pub Disjoint : Dict (List ℕ) → Type 0
Disjoint [] = Unit
Disjoint ((id, want) ∷ d) = ApartFrom want d × Disjoint d

Within-insert :
    (gpus : List ℕ) (id : String) (want : List ℕ) (d : Dict (List ℕ))
    → all (has gpus) want ≡ true
    → Within gpus d
    → Within gpus (insert id want d)
unfolding insert
Within-insert gpus id want [] w h = (w, tt)
Within-insert gpus id want ((j, old) ∷ d) w h = ground (arith, Within-insert gpus id want d w h.1)

Within-mono :
    (us vs : List ℕ) (d : Dict (List ℕ))
    → ((i : ℕ) → has us i ≡ true → has vs i ≡ true)
    → Within us d
    → Within vs d
Within-mono us vs [] sub h = tt
Within-mono us vs ((j, old) ∷ d) sub h =
    (all_mono (has us) (has vs) old sub h.0, Within-mono us vs d sub h.1)

-- What is apart from all GPUs in use is apart from each assignment.
Apart_of_used :
    (used want : List ℕ) (d : Dict (List ℕ))
    → overlaps used want ≡ false
    → Within used d
    → ApartFrom want d
Apart_of_used used want [] o h = tt
Apart_of_used used want ((j, old) ∷ d) o h =
    (overlaps_sub old used want h.0 o, Apart_of_used used want d o h.1)

ApartFrom-insert :
    (gpus : List ℕ) (id : String) (want : List ℕ) (d : Dict (List ℕ))
    → overlaps want gpus ≡ false
    → ApartFrom gpus d
    → ApartFrom gpus (insert id want d)
unfolding insert
ApartFrom-insert gpus id want [] o h = (o, tt)
ApartFrom-insert gpus id want ((j, old) ∷ d) o h =
    ground (arith, ApartFrom-insert gpus id want d o h.1)

Disjoint-insert :
    (used : List ℕ) (id : String) (want : List ℕ) (d : Dict (List ℕ))
    → overlaps used want ≡ false
    → Within used d
    → Disjoint d
    → Disjoint (insert id want d)
unfolding insert
Disjoint-insert used id want [] o w h = (tt, tt)
Disjoint-insert used id want ((j, old) ∷ d) o w h = elim (Bool-cases (j == id)) [
  | inl e ↦ rw e (Apart_of_used used want d o w.1, h.1)
  | inr e ↦ rw e (
    ApartFrom-insert old id want d (overlaps_sym want old ∙ overlaps_sub old used want w.0 o) h.0,
    Disjoint-insert used id want d o w.1 h.1,
  )
]

record IsApart (p : Plan.Placing) : Type 0 where
  within : Within p.used p.assignments
  disjoint : Disjoint p.assignments

used-sub : (us vs : List ℕ) (i : ℕ) → has us i ≡ true → has (us ++ vs) i ≡ true
used-sub us vs i h = ground (arith, any-append (λ j. eqb j i) us vs)

assign-IsApart :
    (id : String) (want : List ℕ) (p : Plan.Placing)
    → overlaps p.used want ≡ false
    → IsApart p
    → IsApart (Plan.assign id want p)
assign-IsApart id want p o a = record {
  within =
      Within-insert (p.used ++ want) id want p.assignments
        (all_mono (has want) (has (p.used ++ want)) want
          (λ i h. ground (arith, any-append (λ j. eqb j i) p.used want)) (all-has_self want))
        (Within-mono p.used (p.used ++ want) p.assignments (used-sub p.used want) a.within);
  disjoint = Disjoint-insert p.used id want p.assignments o a.within a.disjoint;
}

overlaps-nil : (us : List ℕ) → overlaps us [] ≡ false
unfolding any
overlaps-nil us = overlaps_sym us []

none-IsApart :
    (id : String) (p : Plan.Placing)
    → IsApart p
    → IsApart (record p { plan = record p.plan { assignments = insert id [] p.assignments } })
none-IsApart id p a = record {
  within = Within-insert p.used id [] p.assignments (unfold all in refl) a.within;
  disjoint = Disjoint-insert p.used id [] p.assignments (overlaps-nil p.used) a.within a.disjoint;
}

note-IsApart :
    (p q : Plan.Placing) → q.assignments ≡ p.assignments → q.used ≡ p.used → IsApart p → IsApart q
note-IsApart p q e f a = record {
  within = subst₂ Within (sym f) (sym e) a.within;
  disjoint = subst Disjoint (sym e) a.disjoint;
}

any_entries :
    (pins : Dict (List ℕ)) (inputs : Option Plan.Inputs) → AllEntries (λ id want. Unit) pins inputs
any_entries pins none = λ id want e. tt
any_entries pins (some i) = (λ id want e. tt, λ id want e. tt)

-- In every plan, in either mode and whatever the pins, hard allocations and hints, no two deployments
-- have a GPU in common.
pub plan_placement-Disjoint :
    (h : Host) (pins : Dict (List ℕ)) (inputs : Option Plan.Inputs) (gs : List Deployment)
    → Disjoint (Plan.plan_placement h pins inputs gs).assignments
plan_placement-Disjoint h pins inputs gs =
    let (p, a, e) =
      plan-P h IsApart (λ id want. Unit) (λ id want p o _ k. assign-IsApart id want p o k)
        (λ id want p o _ _ k. assign-IsApart id want p o k) none-IsApart note-IsApart pins inputs gs
        (any_entries pins inputs) (record { within = tt; disjoint = tt }) in
    rw e a.disjoint

-- In every plan each assigned GPU is one of the inventory that is not reserved (nor, where display
-- GPUs are skipped, drives a display).
pub plan_placement-Within :
    (h : Host) (pins : Dict (List ℕ)) (inputs : Option Plan.Inputs) (gs : List Deployment)
    → Within (Plan.pin_pool_of h) (Plan.plan_placement h pins inputs gs).assignments
plan_placement-Within h pins inputs gs =
    let (p, a, e) =
      plan-P h (λ p. Within (Plan.pin_pool_of h) p.assignments) (λ id want. Unit)
        (λ id want p _ inside k.
          Within-insert (Plan.pin_pool_of h) id want p.assignments
            (all_mono (has (Plan.pool_of h)) (has (Plan.pin_pool_of h)) want (pool-le-pin_pool h)
              inside)
            k)
        (λ id want p _ inside _ k.
          Within-insert (Plan.pin_pool_of h) id want p.assignments inside k)
        (λ id p k. Within-insert (Plan.pin_pool_of h) id [] p.assignments (unfold all in refl) k)
        (λ p q e _ k. subst (Within (Plan.pin_pool_of h)) (sym e) k) pins inputs gs
        (any_entries pins inputs) tt in
    rw e a
