-- ===== src/Placement/Complete.antt =====
-- Which deployments a plan of placement.py assigns.
use infer_stack.Base.{
  ℕ, String, ◌≡◌, refl, ◌∙◌, Bool, true, not, ◌&&◌, ◌||◌, none, some, List, [], ◌∷◌, ◌++◌, any,
  any-append, any-sort, is_in, eqb, ltb, Dict, lookup, lookup-insert, arith, eq_iff, ◌==◌,
  Bool-cases, Option-cases, inl, inr, is_empty, is_empty-snoc, sort, length, take, filter,
}
use infer_stack.Models.{Deployment}
use infer_stack.Hardware.{sorted_set, Gpu, has, first_fit}
use infer_stack.Placement.{Host, explicit_indices, min_vram_per_gpu, required_gpu_count}
use infer_stack.Placement.Plan
use infer_stack.Placement.Plan.{PlacementError}

-- The deployment has its GPUs, or the plan has an error.
abbrev settled : Plan.Placing → String → Bool
settled p id = Plan.is_known id p.assignments || not (is_empty p.errors)

abbrev pub listed : String → List Deployment → Bool
listed id = any (λ (g : Deployment). g.id == id)

-- What a pass has still to settle is handed on.
abbrev handled : Plan.Placing × List Deployment → String → Bool
handled (p, later) id = settled p id || listed id later

settled-assign :
    (p : Plan.Placing) (k id : String) (want : List ℕ)
    → settled (Plan.assign k want p) id ≡ (k == id || settled p id)
settled-assign p k id want = ground (arith, lookup-insert k id want p.assignments)

settled-error :
    (p : Plan.Placing) (e : PlacementError) (id : String) → settled (Plan.add_error e p) id ≡ true
settled-error p e id = ground (arith, is_empty-snoc p.errors e)

settled-warning :
    (gpus : List Gpu) (g : Deployment) (want : List ℕ) (kind : Plan.Kind) (p : Plan.Placing)
    (id : String)
    → settled (Plan.declaration_warning gpus g want kind p) id ≡ settled p id
unfolding Plan.declaration_warning
settled-warning gpus g want kind p id = ground arith

handled-pin_one :
    (gpus : List Gpu) (pool : List ℕ) (pins : Dict (List ℕ)) (g : Deployment)
    (r : Plan.Placing × List Deployment) (id : String)
    → (handled r id || g.id == id) ≡ true
    → handled (Plan.pin_one gpus pool pins g r) id ≡ true
unfolding Plan.pin_one any
handled-pin_one gpus pool pins g (p, later) id h = elim (Option-cases (lookup g.id pins)) [
  | inl e ↦
      rw (e, Plan.pin_one)
        (ground (arith, any-append (λ (d : Deployment). d.id == id) later (g ∷ [])))
  | inr (want, e) ↦
      rw (e, Plan.pin_one)
        (elim (Bool-cases (Plan.is_placeable pool p.used want)) [
          | inl b ↦ rw b (
              ground (
                arith,
                settled-warning gpus g want Plan.Kind.pinned (Plan.assign g.id want p) id,
                settled-assign p g.id id want,
              ))
          | inr b ↦
              rw b (ground (arith, any-append (λ (d : Deployment). d.id == id) later (g ∷ [])))
        ])
]

handled-pin_all :
    (gpus : List Gpu) (pool : List ℕ) (pins : Dict (List ℕ)) (gs : List Deployment)
    (r : Plan.Placing × List Deployment) (id : String)
    → (handled r id || listed id gs) ≡ true
    → handled (Plan.pin_all gpus pool pins gs r) id ≡ true
unfolding Plan.pin_all any
handled-pin_all gpus pool pins [] r id h = ground arith
handled-pin_all gpus pool pins (g ∷ gs) r id h =
    handled-pin_all gpus pool pins gs (Plan.pin_one gpus pool pins g r) id
      (ground (arith, handled-pin_one gpus pool pins g r id))

settled-explicit :
    (gpus : List Gpu) (pool : List ℕ) (g : Deployment) (want : List ℕ) (p : Plan.Placing)
    (id : String)
    → (settled p id || g.id == id) ≡ true
    → settled (Plan.place_explicit gpus pool g want p) id ≡ true
unfolding Plan.place_explicit
settled-explicit gpus pool g want p id h = elim (Bool-cases (is_empty want)) [
  | inl e ↦ rw e (ground (arith, lookup-insert g.id id [] p.assignments))
  | inr e ↦
      rw e
        (elim (Bool-cases (
          not (is_empty (filter (λ i. not (has pool i)) want))
          || not (is_empty (filter (has p.used) want)))) [
            | inl b ↦ rw b (
                settled-error p
                  (Plan.explicit_failed g.id (filter (λ i. not (has pool i)) want)
                    (sorted_set (filter (has p.used) want)))
                  id)
            | inr b ↦ rw b (
                ground (
                  arith,
                  settled-warning gpus g want Plan.Kind.explicit (Plan.assign g.id want p) id,
                  settled-assign p g.id id want,
                ))
          ])
]

handled-explicit_all :
    (gpus : List Gpu) (pool : List ℕ) (gs : List Deployment) (r : Plan.Placing × List Deployment)
    (id : String)
    → (handled r id || listed id gs) ≡ true
    → handled (Plan.explicit_all gpus pool gs r) id ≡ true
unfolding Plan.explicit_all any
handled-explicit_all gpus pool [] r id h = ground arith
handled-explicit_all gpus pool (g ∷ gs) (p, later) id h = elim (Option-cases (explicit_indices g)) [
  | inl e ↦
      rw (e, Plan.explicit_all)
        (handled-explicit_all gpus pool gs (p, later ++ (g ∷ [])) id
          (ground (arith, any-append (λ (d : Deployment). d.id == id) later (g ∷ []))))
  | inr (want, e) ↦
      rw (e, Plan.explicit_all)
        (handled-explicit_all gpus pool gs (Plan.place_explicit gpus pool g want p, later) id
          (ground (arith, settled-explicit gpus pool g want p id)))
]

settled-first_fit :
    (g : Deployment) (xs : List ℕ) (n : ℕ) (p : Plan.Placing) (id : String)
    → (settled p id || g.id == id) ≡ true
    → settled (Plan.assign_fit g.id (first_fit xs n) p) id ≡ true
unfolding first_fit
settled-first_fit g xs n p id h = elim (Bool-cases (ltb (length xs) n)) [
  | inl e ↦
      rw e (settled-error p (Plan.too_few g.id (record { needed = n; available = length xs })) id)
  | inr e ↦ rw e (ground (arith, settled-assign p g.id id (take n xs)))
]

settled-fit_one :
    (gpus : List Gpu) (pool : List ℕ) (g : Deployment) (p : Plan.Placing) (id : String)
    → (settled p id || g.id == id) ≡ true
    → settled (Plan.fit_one gpus pool g p) id ≡ true
unfolding Plan.fit_one
settled-fit_one gpus pool g p id h =
    let count = required_gpu_count g in
    let need = min_vram_per_gpu g in
    let fitting = Plan.eligible gpus pool need in
    let gpus_free = Plan.free p.used fitting in
    elim (Bool-cases (eqb need.amount 0)) [
      | inl e ↦ rw e (settled-first_fit g (Plan.free p.used pool) count p id h)
      | inr e ↦ rw e (elim (Bool-cases (ltb (length fitting) count)) [
        | inl b ↦ rw b (settled-error p (Plan.never_fits g.id count need) id)
        | inr b ↦ rw b (elim (Bool-cases (ltb (length gpus_free) count)) [
          | inl c ↦ rw c (settled-error p (Plan.busy g.id count need (length gpus_free)) id)
          | inr c ↦
              rw c
                (ground (arith, settled-assign p g.id id (Plan.select_gpus gpus g gpus_free count)))
        ])
      ])
    ]

settled-fit_all :
    (gpus : List Gpu) (pool : List ℕ) (gs : List Deployment) (p : Plan.Placing) (id : String)
    → (settled p id || listed id gs) ≡ true
    → settled (Plan.fit_all gpus pool gs p) id ≡ true
unfolding Plan.fit_all any
settled-fit_all gpus pool [] p id h = ground arith
settled-fit_all gpus pool (g ∷ gs) p id h =
    settled-fit_all gpus pool gs (Plan.fit_one gpus pool g p) id
      (ground (arith, settled-fit_one gpus pool g p id))

-- Passes 1 to 3 settle all that they are given.
pub settled-place :
    (h : Host) (pins : Dict (List ℕ)) (gs : List Deployment) (p : Plan.Placing) (id : String)
    → (settled p id || listed id gs) ≡ true
    → settled (Plan.place h pins gs p) id ≡ true
unfolding Plan.place
settled-place h pins gs p id e =
    let pool = Plan.pool_of h in
    let first = Plan.pin_all h.gpus (Plan.pin_pool_of h) pins gs (p, []) in
    let second = Plan.explicit_all h.gpus pool first.1 (first.0, []) in
    settled-fit_all h.gpus pool (sort (Plan.fits_before h.gpus pool) second.1) second.0 id (
      rw (any-sort (Plan.fits_before h.gpus pool) (λ (g : Deployment). g.id == id) second.1) (
        handled-explicit_all h.gpus pool first.1 (first.0, []) id
          (unfold any in
            ground (arith, handled-pin_all h.gpus (Plan.pin_pool_of h) pins gs (p, []) id))))

-- When a plan without admission inputs has no error, it assigns every deployment it was given.
pub plan_placement_complete :
    (h : Host) (pins : Dict (List ℕ)) (gs : List Deployment) (id : String)
    → Plan.is_ok (Plan.plan_placement h pins none gs) ≡ true
    → listed id gs ≡ true
    → Plan.is_known id (Plan.plan_placement h pins none gs).assignments ≡ true
unfolding Plan.plan_placement Plan.is_ok
plan_placement_complete h pins gs id ok given = ground (
  arith,
  settled-place h pins (sort Plan.older gs) Plan.start id,
  any-sort Plan.older (λ (g : Deployment). g.id == id) gs,
)

module _ (pool : List ℕ) (i : Plan.Inputs) (id : String) where
  abbrev required : List Deployment → Bool
  required gs = listed id gs && (is_in id i.required_ids && not (Plan.is_known id i.hard))

  listed-admit_one :
      (g : Deployment) (a : Plan.Admission)
      → (listed id a.required
          || (g.id == id && (is_in id i.required_ids && not (Plan.is_known id i.hard))))
        ≡ true
      → listed id (Plan.admit_one pool i g a).required ≡ true
  unfolding Plan.admit_one any
  listed-admit_one g a h = elim (Bool-cases (g.id == id)) [
    | inl e ↦ ground (
      arith,
      (eq_iff g.id id).0 e,
      any-append (λ (d : Deployment). d.id == id) a.required (g ∷ []),
    )
    | inr e ↦ ground (arith, any-append (λ (d : Deployment). d.id == id) a.required (g ∷ []))
  ]

  listed-admit :
      (gs : List Deployment) (a : Plan.Admission)
      → (listed id a.required || required gs) ≡ true
      → listed id (Plan.admit pool i gs a).required ≡ true
  unfolding Plan.admit any
  listed-admit [] a h = ground arith
  listed-admit (g ∷ gs) a h =
      listed-admit gs (Plan.admit_one pool i g a) (ground (arith, listed-admit_one g a))

  settled-stay_all :
      (gs : List Deployment) (p : Plan.Placing)
      → settled p id ≡ true
      → settled (Plan.stay_all pool i.optional_hints gs p) id ≡ true
  unfolding Plan.stay_all Plan.stay_one
  settled-stay_all [] p h = h
  settled-stay_all (g ∷ gs) p h =
      settled-stay_all gs (Plan.stay_one pool i.optional_hints g p)
        (elim (Option-cases (lookup g.id i.optional_hints)) [
          | inl e ↦ rw (e, Plan.stay_one) h
          | inr (want, e) ↦
              rw (e, Plan.stay_one)
                (elim (Bool-cases (Plan.is_placeable pool p.used want)) [
                  | inl b ↦ rw b (ground (arith, settled-assign p g.id id want))
                  | inr b ↦ rw b h
                ])
        ])

  errors-stay_all :
      (gs : List Deployment) (p : Plan.Placing)
      → (Plan.stay_all pool i.optional_hints gs p).errors ≡ p.errors
  unfolding Plan.stay_all Plan.stay_one
  errors-stay_all [] p = refl
  errors-stay_all (g ∷ gs) p =
      errors-stay_all gs (Plan.stay_one pool i.optional_hints g p) ∙ ground arith

-- In admission mode, when the plan has no error, every required deployment that was given and has no
-- hard allocation is assigned.
pub plan_placement_required :
    (h : Host) (pins : Dict (List ℕ)) (i : Plan.Inputs) (gs : List Deployment) (id : String)
    → Plan.is_ok (Plan.plan_placement h pins (some i) gs) ≡ true
    → listed id gs ≡ true
    → is_in id i.required_ids ≡ true
    → lookup id i.hard ≡ none
    → Plan.is_known id (Plan.plan_placement h pins (some i) gs).assignments ≡ true
unfolding Plan.plan_placement Plan.is_ok
plan_placement_required h pins i gs id ok given wanted free =
    let a = Plan.admission h i gs in
    let p = Plan.place h [] a.required a.placing in
    ground (
      arith,
      any-sort Plan.older (λ (g : Deployment). g.id == id) gs,
      listed-admit (Plan.pin_pool_of h) i id (sort Plan.older gs)
          (record { placing = Plan.start; required = []; optional = [] }),
      settled-place h [] a.required a.placing id,
      settled-stay_all (Plan.pin_pool_of h) i id a.optional p,
    )
