-- ===== src/Placement/Fit.antt =====
-- What pass 3 of placement.py gives a deployment.
use infer_stack.Base.{
  ℕ, filter, Bool, not, ◌≤◌, ◌≡◌, refl, ◌∙◌, true, false, ◌⊎◌, inl, inr, List, [], ◌∷◌, all, take,
  length, length-take, length-sort, sort, leb, ltb, eqb, arith, Bool-cases,
}
use infer_stack.Models.{Deployment}
use infer_stack.Hardware.{Gpu, has, first_fit}
use infer_stack.Hardware.Sets.{all_mono, has-filter, all-take}
use infer_stack.Placement.{Need, meets, memory_of, min_vram_per_gpu, required_gpu_count}
use infer_stack.Placement.Plan
use infer_stack.Placement.Pool.{lacks, free-in, free-unused, all-select_gpus}

pub record IsFit (gpus : List Gpu) (pool : List ℕ) (g : Deployment) (p : Plan.Placing)
    (want : List ℕ) : Type 0 where
  pub count : length want ≡ required_gpu_count g
  pub in_pool : all (has pool) want ≡ true
  pub unused : all (lacks p.used) want ≡ true
  pub large : all (λ i. meets (min_vram_per_gpu g) (memory_of gpus i)) want ≡ true

filter-all {ℓ} : {A : Type ℓ} (q : A → Bool) (xs : List A) → all q xs ≡ true → filter q xs ≡ xs
unfolding filter all
filter-all q [] e = refl
filter-all q (x ∷ xs) e = ground (arith, filter-all q xs)

length-filter {ℓ} : {A : Type ℓ} (q : A → Bool) (xs : List A) → length (filter q xs) ≤ length xs
unfolding filter
length-filter q [] = ground arith
length-filter q (x ∷ xs) = ground (arith, length-filter q xs)

length-select_gpus :
    (gpus : List Gpu) (g : Deployment) (xs : List ℕ) (n : ℕ)
    → n ≤ length xs
    → length (Plan.select_gpus gpus g xs n) ≡ n
unfolding Plan.select_gpus
length-select_gpus gpus g xs n h = ground (
  arith,
  length-sort leb (take n (sort (Plan.smaller gpus) xs)),
  length-take n (sort (Plan.smaller gpus) xs),
  length-sort (Plan.smaller gpus) xs,
  length-take n xs,
)

module _ (gpus : List Gpu) (pool : List ℕ) (g : Deployment) (p : Plan.Placing) where
  -- The pool has fewer free GPUs with the memory than the deployment needs.
  abbrev pub is_short : Bool
  is_short =
      ltb (length (Plan.free p.used (Plan.eligible gpus pool (min_vram_per_gpu g))))
        (required_gpu_count g)

  abbrev pub Outcome : Plan.Placing → Type 0
  Outcome q =
      ((e : Plan.PlacementError) × (q ≡ Plan.add_error e p) × (is_short ≡ true))
      ⊎ ((is_short ≡ false)
          × ((want : List ℕ) × (q ≡ Plan.assign g.id want p) × IsFit gpus pool g p want))

  any_memory :
      (need : Need) (xs : List ℕ)
      → need.amount ≡ 0
      → all (λ i. meets need (memory_of gpus i)) xs ≡ true
  unfolding all
  any_memory need [] e = refl
  any_memory need (x ∷ xs) e = ground (arith, any_memory need xs e)

  -- Without a requirement every GPU of the pool will do.
  eligible_all :
      eqb (min_vram_per_gpu g).amount 0 ≡ true → Plan.eligible gpus pool (min_vram_per_gpu g) ≡ pool
  eligible_all e =
      filter-all (λ i. meets (min_vram_per_gpu g) (memory_of gpus i)) pool
        (any_memory (min_vram_per_gpu g) pool (ground arith))

  first_fit-Outcome :
      eqb (min_vram_per_gpu g).amount 0 ≡ true
      → Outcome (Plan.assign_fit g.id (first_fit (Plan.free p.used pool) (required_gpu_count g)) p)
  unfolding first_fit
  first_fit-Outcome e =
      let xs = Plan.free p.used pool in
      let n = required_gpu_count g in
      elim (Bool-cases (ltb (length xs) n)) [
        | inl b ↦ rw b (inl (_, refl, rw (eligible_all e) b))
        | inr b ↦ rw b (
            inr (
              rw (eligible_all e) b,
              (
                take n xs,
                refl,
                record {
                  count = length-take n xs ∙ ground arith;
                  in_pool = all-take (has pool) n xs (free-in p.used pool);
                  unused = all-take (lacks p.used) n xs (free-unused p.used pool);
                  large = any_memory (min_vram_per_gpu g) (take n xs) (ground arith);
                },
              ),
            ))
      ]

  select_gpus-IsFit :
      let xs = Plan.free p.used (Plan.eligible gpus pool (min_vram_per_gpu g)) in
      ltb (length xs) (required_gpu_count g) ≡ false
      → IsFit gpus pool g p (Plan.select_gpus gpus g xs (required_gpu_count g))
  select_gpus-IsFit b =
      let fitting = Plan.eligible gpus pool (min_vram_per_gpu g) in
      let xs = Plan.free p.used fitting in
      let n = required_gpu_count g in
      record {
        count = length-select_gpus gpus g xs n (ground arith);
        in_pool = all-select_gpus (has pool) gpus g xs n (
            all_mono (has fitting) (has pool) xs
              (λ i k.
                ground
                  (arith, has-filter (λ j. meets (min_vram_per_gpu g) (memory_of gpus j)) pool i))
              (free-in p.used fitting));
        unused = all-select_gpus (lacks p.used) gpus g xs n (free-unused p.used fitting);
        large =
            all-select_gpus (λ i. meets (min_vram_per_gpu g) (memory_of gpus i)) gpus g xs n
              (all_mono (has fitting) (λ i. meets (min_vram_per_gpu g) (memory_of gpus i)) xs
                (λ i k.
                  ground
                    (arith, has-filter (λ j. meets (min_vram_per_gpu g) (memory_of gpus j)) pool i))
                (free-in p.used fitting));
      }

  -- Fitting one deployment assigns it GPUs unless fewer GPUs of the pool are free and have the memory
  -- that it requires than it needs, and then reports exactly one more error. What it
  -- assigns is exactly as many GPUs as are needed: GPUs of the pool that no one uses, each with at least
  -- the memory that is required.
  pub fit_one-Outcome : Outcome (Plan.fit_one gpus pool g p)
  unfolding Plan.fit_one
  fit_one-Outcome =
      let n = required_gpu_count g in
      let fitting = Plan.eligible gpus pool (min_vram_per_gpu g) in
      let xs = Plan.free p.used fitting in
      elim (Bool-cases (eqb (min_vram_per_gpu g).amount 0)) [
        | inl e ↦ rw e (first_fit-Outcome e)
        | inr e ↦ rw e (elim (Bool-cases (ltb (length fitting) n)) [
          | inl b ↦
              rw b (inl (_, refl, ground (arith, length-filter (λ i. not (has p.used i)) fitting)))
          | inr b ↦ rw b (elim (Bool-cases (ltb (length xs) n)) [
            | inl c ↦ rw c (inl (_, refl, refl))
            | inr c ↦ rw c (inr (refl, (Plan.select_gpus gpus g xs n, refl, select_gpus-IsFit c)))
          ])
        ])
      ]
