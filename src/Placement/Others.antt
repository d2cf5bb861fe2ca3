-- ===== src/Placement/Others.antt =====
-- The passes of placement.py and the deployments that they are not given.
use infer_stack.Base.{
  ℕ, String, ◌≡◌, refl, ◌∙◌, false, not, ◌||◌, List, [], ◌∷◌, ◌++◌, any, any-append, any-sort, eqb,
  ltb, Dict, lookup, lookup-insert, arith, ◌==◌, Bool-cases, Option-cases, inl, inr, is_empty, sort,
  length, take, filter, subst,
}
use infer_stack.Models.{Deployment}
use infer_stack.Hardware.{Gpu, has, first_fit}
use infer_stack.Placement.{Host, explicit_indices, min_vram_per_gpu, required_gpu_count}
use infer_stack.Placement.Plan
use infer_stack.Placement.Complete.{listed}

module _ (id : String) where
  -- The step leaves the deployment's assignment and the degraded ones alone.
  abbrev pub Same : Plan.Placing → Plan.Placing → Type 0
  Same p q = (lookup id q.assignments ≡ lookup id p.assignments) × (q.degraded ≡ p.degraded)

  pub Same-trans : (p q r : Plan.Placing) → Same p q → Same q r → Same p r
  Same-trans p q r a b = (b.0 ∙ a.0, b.1 ∙ a.1)

  pub Same-assign :
      (k : String) (want : List ℕ) (p : Plan.Placing)
      → (k == id) ≡ false
      → Same p (Plan.assign k want p)
  Same-assign k want p e = (ground (arith, lookup-insert k id want p.assignments), refl)

  pub Same-warning :
      (gpus : List Gpu) (g : Deployment) (want : List ℕ) (kind : Plan.Kind) (p : Plan.Placing)
      → Same p (Plan.declaration_warning gpus g want kind p)
  unfolding Plan.declaration_warning
  Same-warning gpus g want kind p = (ground arith, ground arith)

  pub Same-explicit :
      (gpus : List Gpu) (pool : List ℕ) (g : Deployment) (want : List ℕ) (p : Plan.Placing)
      → (g.id == id) ≡ false
      → Same p (Plan.place_explicit gpus pool g want p)
  unfolding Plan.place_explicit
  Same-explicit gpus pool g want p e = elim (Bool-cases (is_empty want)) [
    | inl a ↦ rw a (ground (arith, lookup-insert g.id id [] p.assignments), refl)
    | inr a ↦
        rw a
          (elim (Bool-cases (
            not (is_empty (filter (λ i. not (has pool i)) want))
            || not (is_empty (filter (has p.used) want)))) [
              | inl b ↦ rw b (refl, refl)
              | inr b ↦ rw b (
                  Same-trans p (Plan.assign g.id want p)
                    (Plan.declaration_warning gpus g want Plan.Kind.explicit
                      (Plan.assign g.id want p))
                    (Same-assign g.id want p e)
                    (Same-warning gpus g want Plan.Kind.explicit (Plan.assign g.id want p)))
            ])
  ]

  pub Same-first_fit :
      (g : Deployment) (xs : List ℕ) (n : ℕ) (p : Plan.Placing)
      → (g.id == id) ≡ false
      → Same p (Plan.assign_fit g.id (first_fit xs n) p)
  unfolding first_fit
  Same-first_fit g xs n p e = elim (Bool-cases (ltb (length xs) n)) [
    | inl a ↦ rw a (refl, refl)
    | inr a ↦ rw a (Same-assign g.id (take n xs) p e)
  ]

  pub Same-fit_one :
      (gpus : List Gpu) (pool : List ℕ) (g : Deployment) (p : Plan.Placing)
      → (g.id == id) ≡ false
      → Same p (Plan.fit_one gpus pool g p)
  unfolding Plan.fit_one
  Same-fit_one gpus pool g p e =
      let count = required_gpu_count g in
      let fitting = Plan.eligible gpus pool (min_vram_per_gpu g) in
      let gpus_free = Plan.free p.used fitting in
      elim (Bool-cases (eqb (min_vram_per_gpu g).amount 0)) [
        | inl a ↦ rw a (Same-first_fit g (Plan.free p.used pool) count p e)
        | inr a ↦ rw a (elim (Bool-cases (ltb (length fitting) count)) [
          | inl b ↦ rw b (refl, refl)
          | inr b ↦ rw b (elim (Bool-cases (ltb (length gpus_free) count)) [
            | inl c ↦ rw c (refl, refl)
            | inr c ↦ rw c (Same-assign g.id (Plan.select_gpus gpus g gpus_free count) p e)
          ])
        ])
      ]

  pub head_other :
      (g : Deployment) (gs : List Deployment)
      → listed id (g ∷ gs) ≡ false
      → ((g.id == id) ≡ false) × (listed id gs ≡ false)
  unfolding any
  head_other g gs h = (ground arith, ground arith)

  pub Same-fit_all :
      (gpus : List Gpu) (pool : List ℕ) (gs : List Deployment) (p : Plan.Placing)
      → listed id gs ≡ false
      → Same p (Plan.fit_all gpus pool gs p)
  unfolding Plan.fit_all
  Same-fit_all gpus pool [] p h = (refl, refl)
  Same-fit_all gpus pool (g ∷ gs) p h =
      let (e, k) = head_other g gs h in
      Same-trans p (Plan.fit_one gpus pool g p)
        (Plan.fit_all gpus pool gs (Plan.fit_one gpus pool g p)) (Same-fit_one gpus pool g p e)
        (Same-fit_all gpus pool gs (Plan.fit_one gpus pool g p) k)

  pub listed-snoc :
      (gs : List Deployment) (g : Deployment)
      → listed id gs ≡ false
      → (g.id == id) ≡ false
      → listed id (gs ++ g ∷ []) ≡ false
  unfolding any
  listed-snoc gs g h e = ground (arith, any-append (λ (d : Deployment). d.id == id) gs (g ∷ []))

  -- The explicit pass, and what it hands on.
  pub Same-explicit_all :
      (gpus : List Gpu) (pool : List ℕ) (gs : List Deployment) (r : Plan.Placing × List Deployment)
      → listed id gs ≡ false
      → listed id r.1 ≡ false
      → Same r.0 (Plan.explicit_all gpus pool gs r).0
        × (listed id (Plan.explicit_all gpus pool gs r).1 ≡ false)
  unfolding Plan.explicit_all
  Same-explicit_all gpus pool [] r h k = ((refl, refl), k)
  Same-explicit_all gpus pool (g ∷ gs) (p, fits) h k =
      let (e, m) = head_other g gs h in
      elim (Option-cases (explicit_indices g)) [
        | inl n ↦
            rw (n, Plan.explicit_all)
              (Same-explicit_all gpus pool gs (p, fits ++ (g ∷ [])) m (listed-snoc fits g k e))
        | inr (want, n) ↦
            rw (n, Plan.explicit_all)
              (let rest =
                  Same-explicit_all gpus pool gs (Plan.place_explicit gpus pool g want p, fits) m
                    k in
                (
                  Same-trans p (Plan.place_explicit gpus pool g want p)
                      (Plan.explicit_all gpus pool gs
                        (Plan.place_explicit gpus pool g want p, fits)).0
                      (Same-explicit gpus pool g want p e) rest.0,
                  rest.1,
                ))
      ]

  -- Without pins the first pass hands everything on.
  pin_none :
      (gpus : List Gpu) (pool : List ℕ) (gs : List Deployment) (p : Plan.Placing)
      (later : List Deployment)
      → listed id gs ≡ false
      → listed id later ≡ false
      → ((Plan.pin_all gpus pool [] gs (p, later)).0 ≡ p)
        × (listed id (Plan.pin_all gpus pool [] gs (p, later)).1 ≡ false)
  unfolding Plan.pin_all Plan.pin_one lookup
  pin_none gpus pool [] p later h k = (refl, k)
  pin_none gpus pool (g ∷ gs) p later h k =
      let (e, m) = head_other g gs h in
      pin_none gpus pool gs p (later ++ g ∷ []) m (listed-snoc later g k e)

  pub Same-place :
      (h : Host) (gs : List Deployment) (p : Plan.Placing)
      → listed id gs ≡ false
      → Same p (Plan.place h [] gs p)
  unfolding Plan.place any
  Same-place h gs p k =
      let pool = Plan.pool_of h in
      let first = Plan.pin_all h.gpus (Plan.pin_pool_of h) [] gs (p, []) in
      let second = Plan.explicit_all h.gpus pool first.1 (first.0, []) in
      let (same, others) = pin_none h.gpus (Plan.pin_pool_of h) gs p [] k refl in
      let (kept, left) = Same-explicit_all h.gpus pool first.1 (first.0, []) others refl in
      Same-trans p second.0
        (Plan.fit_all h.gpus pool (sort (Plan.fits_before h.gpus pool) second.1) second.0)
        (subst (λ q. Same q second.0) same kept)
        (Same-fit_all h.gpus pool (sort (Plan.fits_before h.gpus pool) second.1) second.0 (
          any-sort (Plan.fits_before h.gpus pool) (λ (g : Deployment). g.id == id) second.1 ∙ left))

  pub Same-stay_all :
      (pool : List ℕ) (hints : Dict (List ℕ)) (gs : List Deployment) (p : Plan.Placing)
      → listed id gs ≡ false
      → Same p (Plan.stay_all pool hints gs p)
  unfolding Plan.stay_all Plan.stay_one
  Same-stay_all pool hints [] p h = (refl, refl)
  Same-stay_all pool hints (g ∷ gs) p h =
      let (e, m) = head_other g gs h in
      Same-trans p (Plan.stay_one pool hints g p)
        (Plan.stay_all pool hints gs (Plan.stay_one pool hints g p))
        (elim (Option-cases (lookup g.id hints)) [
          | inl n ↦ rw (n, Plan.stay_one) (refl, refl)
          | inr (want, n) ↦
              rw (n, Plan.stay_one)
                (elim (Bool-cases (Plan.is_placeable pool p.used want)) [
                  | inl b ↦ rw b (Same-assign g.id want p e)
                  | inr b ↦ rw b (refl, refl)
                ])
        ])
        (Same-stay_all pool hints gs (Plan.stay_one pool hints g p) m)
