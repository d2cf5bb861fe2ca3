-- ===== src/Placement/Passes.antt =====
-- The rule for properties of a plan: what holds of the empty plan, and is kept by every assignment of
-- GPUs of the physical pool that are not in use, holds of the whole plan.
use infer_stack.Base.{
  ℕ, String, ◌≡◌, refl, ◌∙◌, subst, true, false, Option, none, some, List, [], ◌∷◌, ◌++◌, filter,
  all, take, length, eqb, ltb, is_empty, Dict, lookup, insert, sort, arith, Bool-cases,
  Option-cases, inl, inr, is_empty-filter,
}
use infer_stack.Models.{Deployment}
use infer_stack.Hardware.{first_fit, has, overlaps}
use infer_stack.Hardware.Sets.{has-filter, all_mono, all-take, overlaps_sym, overlaps-unused}
use infer_stack.Placement.{
  Host, Need, explicit_indices, required_gpu_count, min_vram_per_gpu, meets, memory_of,
}
use infer_stack.Placement.Plan
use infer_stack.Placement.Pool.{lacks, free-in, free-unused, all-select_gpus, all-of-none}

-- The GPUs that a deployment has a claim to: its entry in a dictionary of pins, hard allocations or hints.
abbrev pub Entries : (String → List ℕ → Type 0) → Dict (List ℕ) → Type 0
Entries Kept d = (id : String) (want : List ℕ) → lookup id d ≡ some want → Kept id want

-- What the dictionaries that count in this mode hold is kept.
abbrev pub AllEntries : (String → List ℕ → Type 0) → Dict (List ℕ) → Option Plan.Inputs → Type 0
AllEntries Kept pins none = Entries Kept pins
AllEntries Kept pins (some i) = Entries Kept i.hard × Entries Kept i.optional_hints

no_Entries : (Kept : String → List ℕ → Type 0) → Entries Kept []
unfolding lookup
no_Entries Kept id want e = cc

module _ {ℓ} (h : Host) (P : Plan.Placing → Type ℓ) (Kept : String → List ℕ → Type 0)
    (by_place : (id : String) (want : List ℕ) (p : Plan.Placing)
      → overlaps p.used want ≡ false
      → all (has (Plan.pool_of h)) want ≡ true
      → P p
      → P (Plan.assign id want p))
    (by_kept : (id : String) (want : List ℕ) (p : Plan.Placing)
      → overlaps p.used want ≡ false
      → all (has (Plan.pin_pool_of h)) want ≡ true
      → Kept id want
      → P p
      → P (Plan.assign id want p))
    (by_none : (id : String) (p : Plan.Placing)
      → P p
      → P (record p { plan = record p.plan { assignments = insert id [] p.assignments } }))
    (by_note : (p q : Plan.Placing)
      → q.assignments ≡ p.assignments
      → q.used ≡ p.used
      → P p
      → P q) where
  warned :
      (g : Deployment) (want : List ℕ) (kind : Plan.Kind) (p : Plan.Placing)
      → P p
      → P (Plan.declaration_warning h.gpus g want kind p)
  unfolding Plan.declaration_warning
  warned g want kind p k = by_note p _ (ground arith) (ground arith) k

  checked_assign :
      (id : String) (want : List ℕ) (p : Plan.Placing)
      → Plan.is_placeable (Plan.pin_pool_of h) p.used want ≡ true
      → Kept id want
      → P p
      → P (Plan.assign id want p)
  checked_assign id want p e m k = by_kept id want p (ground arith) (ground arith) m k

  keep_hard-P :
      (id : String) (want : List ℕ) (p : Plan.Placing)
      → Kept id want
      → P p
      → P (Plan.keep_hard (Plan.pin_pool_of h) id want p)
  unfolding Plan.keep_hard
  keep_hard-P id want p m k =
      elim (Bool-cases (Plan.is_placeable (Plan.pin_pool_of h) p.used want)) [
        | inl e ↦ rw e (checked_assign id want p e m k)
        | inr e ↦ rw e (by_note p _ refl refl k)
      ]

  admit_one-P :
      (i : Plan.Inputs)
      → Entries Kept i.hard
      → (g : Deployment) (a : Plan.Admission) → P a.placing
      → P (Plan.admit_one (Plan.pin_pool_of h) i g a).placing
  unfolding Plan.admit_one
  admit_one-P i m g a k = elim (Option-cases (lookup g.id i.hard)) [
    | inl e ↦ rw (e, Plan.admit_one) (subst P (ground arith) k)
    | inr (want, e) ↦ rw (e, Plan.admit_one) (keep_hard-P g.id want a.placing (m g.id want e) k)
  ]

  pub admit-P :
      (i : Plan.Inputs)
      → Entries Kept i.hard
      → (gs : List Deployment) (a : Plan.Admission) → P a.placing
      → P (Plan.admit (Plan.pin_pool_of h) i gs a).placing
  unfolding Plan.admit
  admit-P i m [] a k = k
  admit-P i m (g ∷ gs) a k =
      admit-P i m gs (Plan.admit_one (Plan.pin_pool_of h) i g a) (admit_one-P i m g a k)

  pin_one-P :
      (pins : Dict (List ℕ))
      → Entries Kept pins
      → (g : Deployment) (r : Plan.Placing × List Deployment) → P r.0
      → P (Plan.pin_one h.gpus (Plan.pin_pool_of h) pins g r).0
  unfolding Plan.pin_one
  pin_one-P pins m g (p, deferred) k = elim (Option-cases (lookup g.id pins)) [
    | inl e ↦ rw (e, Plan.pin_one) k
    | inr (want, e) ↦
        rw (e, Plan.pin_one)
          (elim (Bool-cases (Plan.is_placeable (Plan.pin_pool_of h) p.used want)) [
            | inl b ↦ rw b (
                warned g want Plan.Kind.pinned (Plan.assign g.id want p)
                  (checked_assign g.id want p b (m g.id want e) k))
            | inr b ↦ rw b k
          ])
  ]

  pin_all-P :
      (pins : Dict (List ℕ))
      → Entries Kept pins
      → (gs : List Deployment) (r : Plan.Placing × List Deployment) → P r.0
      → P (Plan.pin_all h.gpus (Plan.pin_pool_of h) pins gs r).0
  unfolding Plan.pin_all
  pin_all-P pins m [] r k = k
  pin_all-P pins m (g ∷ gs) r k =
      pin_all-P pins m gs (Plan.pin_one h.gpus (Plan.pin_pool_of h) pins g r)
        (pin_one-P pins m g r k)

  none_used :
      (used want : List ℕ) → is_empty (filter (has used) want) ≡ true → overlaps used want ≡ false
  none_used used want e = overlaps_sym used want ∙ ground (arith, is_empty-filter (has used) want)

  place_explicit-P :
      (g : Deployment) (want : List ℕ) (p : Plan.Placing)
      → P p
      → P (Plan.place_explicit h.gpus (Plan.pool_of h) g want p)
  unfolding Plan.place_explicit
  place_explicit-P g want p k = elim (Bool-cases (is_empty want)) [
    | inl e ↦ rw e (by_none g.id p k)
    | inr e ↦ rw e (elim (Bool-cases (is_empty (filter (lacks (Plan.pool_of h)) want))) [
      | inr bad ↦ rw bad (by_note p _ refl refl k)
      | inl pooled ↦ rw pooled (elim (Bool-cases (is_empty (filter (has p.used) want))) [
        | inr clash ↦ rw clash (by_note p _ refl refl k)
        | inl apart ↦ rw apart (
            warned g want Plan.Kind.explicit (Plan.assign g.id want p) (
              by_place g.id want p (none_used p.used want apart)
                (all-of-none (Plan.pool_of h) want pooled) k))
      ])
    ])
  ]

  explicit_all-P :
      (gs : List Deployment) (r : Plan.Placing × List Deployment)
      → P r.0
      → P (Plan.explicit_all h.gpus (Plan.pool_of h) gs r).0
  unfolding Plan.explicit_all
  explicit_all-P [] r k = k
  explicit_all-P (g ∷ gs) (p, fits) k = elim (Option-cases (explicit_indices g)) [
    | inl e ↦ rw (e, Plan.explicit_all) (explicit_all-P gs (p, fits ++ (g ∷ [])) k)
    | inr (want, e) ↦
        rw (e, Plan.explicit_all)
          (explicit_all-P gs (Plan.place_explicit h.gpus (Plan.pool_of h) g want p, fits)
            (place_explicit-P g want p k))
  ]

  -- A selection from the free GPUs of a part of the pool is an assignment.
  from_free :
      (id : String) (fitting want : List ℕ) (p : Plan.Placing)
      → ((i : ℕ) → has fitting i ≡ true → has (Plan.pool_of h) i ≡ true)
      → all (lacks p.used) want ≡ true
      → all (has fitting) want ≡ true
      → P p
      → P (Plan.assign id want p)
  from_free id fitting want p sub unused inside k =
      by_place id want p (overlaps_sym p.used want ∙ overlaps-unused p.used want unused)
        (all_mono (has fitting) (has (Plan.pool_of h)) want sub inside) k

  first_fit-P :
      (g : Deployment) (n : ℕ) (p : Plan.Placing)
      → P p
      → P (Plan.assign_fit g.id (first_fit (Plan.free p.used (Plan.pool_of h)) n) p)
  unfolding first_fit
  first_fit-P g n p k = elim (Bool-cases (ltb (length (Plan.free p.used (Plan.pool_of h))) n)) [
    | inl e ↦ rw e (by_note p _ refl refl k)
    | inr e ↦ rw e (
        from_free g.id (Plan.pool_of h) (take n (Plan.free p.used (Plan.pool_of h))) p (λ i m. m)
          (all-take (lacks p.used) n (Plan.free p.used (Plan.pool_of h))
            (free-unused p.used (Plan.pool_of h)))
          (all-take (has (Plan.pool_of h)) n (Plan.free p.used (Plan.pool_of h))
            (free-in p.used (Plan.pool_of h)))
          k)
  ]

  best_fit-P :
      (g : Deployment) (n : ℕ) (need : Need) (p : Plan.Placing)
      → P p
      → P (
          Plan.assign g.id
            (Plan.select_gpus h.gpus g
              (Plan.free p.used (Plan.eligible h.gpus (Plan.pool_of h) need))
              n)
            p)
  best_fit-P g n need p k =
      let fitting = Plan.eligible h.gpus (Plan.pool_of h) need in
      from_free g.id fitting (Plan.select_gpus h.gpus g (Plan.free p.used fitting) n) p
        (λ i m.
          ground (arith, has-filter (λ j. meets need (memory_of h.gpus j)) (Plan.pool_of h) i))
        (all-select_gpus (lacks p.used) h.gpus g (Plan.free p.used fitting) n
          (free-unused p.used fitting))
        (all-select_gpus (has fitting) h.gpus g (Plan.free p.used fitting) n
          (free-in p.used fitting))
        k

  fit_one-P :
      (g : Deployment) (p : Plan.Placing) → P p → P (Plan.fit_one h.gpus (Plan.pool_of h) g p)
  unfolding Plan.fit_one
  fit_one-P g p k = elim (Bool-cases (eqb (min_vram_per_gpu g).amount 0)) [
    | inl e ↦ rw e (first_fit-P g (required_gpu_count g) p k)
    | inr e ↦
        rw e
          (elim (Bool-cases (
            ltb (length (Plan.eligible h.gpus (Plan.pool_of h) (min_vram_per_gpu g)))
              (required_gpu_count g))) [
                | inl b ↦ rw b (by_note p _ refl refl k)
                | inr b ↦
                    rw b
                      (elim (Bool-cases (
                        ltb
                          (length (
                            Plan.free p.used
                              (Plan.eligible h.gpus (Plan.pool_of h) (min_vram_per_gpu g))))
                          (required_gpu_count g))) [
                            | inl c ↦ rw c (by_note p _ refl refl k)
                            | inr c ↦
                                rw c (best_fit-P g (required_gpu_count g) (min_vram_per_gpu g) p k)
                          ])
              ])
  ]

  fit_all-P :
      (gs : List Deployment) (p : Plan.Placing)
      → P p
      → P (Plan.fit_all h.gpus (Plan.pool_of h) gs p)
  unfolding Plan.fit_all
  fit_all-P [] p k = k
  fit_all-P (g ∷ gs) p k = fit_all-P gs (Plan.fit_one h.gpus (Plan.pool_of h) g p) (fit_one-P g p k)

  place-P :
      (pins : Dict (List ℕ))
      → Entries Kept pins
      → (gs : List Deployment) (p : Plan.Placing) → P p
      → P (Plan.place h pins gs p)
  unfolding Plan.place
  place-P pins m gs p k =
      let first = Plan.pin_all h.gpus (Plan.pin_pool_of h) pins gs (p, []) in
      let second = Plan.explicit_all h.gpus (Plan.pool_of h) first.1 (first.0, []) in
      fit_all-P (sort (Plan.fits_before h.gpus (Plan.pool_of h)) second.1) second.0
        (explicit_all-P first.1 (first.0, []) (pin_all-P pins m gs (p, []) k))

  stay_all-P :
      (hints : Dict (List ℕ))
      → Entries Kept hints
      → (gs : List Deployment) (p : Plan.Placing) → P p
      → P (Plan.stay_all (Plan.pin_pool_of h) hints gs p)
  unfolding Plan.stay_all
  stay_all-P hints m [] p k = k
  stay_all-P hints m (g ∷ gs) p k =
      stay_all-P hints m gs (Plan.stay_one (Plan.pin_pool_of h) hints g p)
        (elim (Option-cases (lookup g.id hints)) [
          | inl e ↦ unfold Plan.stay_one in rw (e, Plan.stay_one) k
          | inr (want, e) ↦
              unfold Plan.stay_one in
              rw (e, Plan.stay_one)
                (elim (Bool-cases (Plan.is_placeable (Plan.pin_pool_of h) p.used want)) [
                  | inl b ↦ rw b (checked_assign g.id want p b (m g.id want e) k)
                  | inr b ↦ rw b (by_note p _ refl refl k)
                ])
        ])

  -- Of the whole plan, in either mode.
  pub plan-P :
      (pins : Dict (List ℕ)) (inputs : Option Plan.Inputs) (gs : List Deployment)
      → AllEntries Kept pins inputs
      → P Plan.start
      → (p : Plan.Placing) × P p × (Plan.plan_placement h pins inputs gs ≡ p.plan)
  unfolding Plan.plan_placement
  plan-P pins none gs m k = (_, place-P pins m (sort Plan.older gs) Plan.start k, refl)
  plan-P pins (some i) gs m k =
      let a = Plan.admission h i gs in
      (
        _,
        stay_all-P i.optional_hints m.1 a.optional (Plan.place h [] a.required a.placing) (
            place-P [] (no_Entries Kept) a.required a.placing (
              admit-P i m.0 (sort Plan.older gs)
                (record { placing = Plan.start; required = []; optional = [] }) k)),
        refl,
      )
