-- ===== src/Placement/Pool.antt =====
-- The placeable pool of placement.py, and the free GPUs in it.
use infer_stack.Base.{
  ℕ, ◌≡◌, refl, Bool, true, not, ◌||◌, Option, none, some, List, [], ◌∷◌, filter, all, take, eqb,
  leb, is_empty, sort, arith, all-sort, all-filter, any,
}
use infer_stack.Models.{Deployment}
use infer_stack.Hardware.{Gpu, has, available_gpu_indices}
use infer_stack.Hardware.Sets.{has-filter, all_mono, all-take}
use infer_stack.Placement.{allowed, Host, available_indices}
use infer_stack.Placement.Plan

has-allowed :
    (ok : Option (List ℕ)) (xs : List ℕ) (i : ℕ) → has (allowed ok xs) i ≡ true → has xs i ≡ true
has-allowed none xs i k = k
has-allowed (some ok) xs i k = ground (arith, has-filter (has ok) xs i)

-- The pool for new placements is part of the physical pool.
pub pool-le-pin_pool :
    (h : Host) (i : ℕ) → has (Plan.pool_of h) i ≡ true → has (Plan.pin_pool_of h) i ≡ true
unfolding available_indices
pool-le-pin_pool h i k = ground (
  arith,
  has-filter (λ j. not (has h.reserved j)) (available_gpu_indices h.gpus h.skip_display) i,
  has-filter (λ j. not (has h.reserved j))
      (allowed h.allowed_gpus (available_gpu_indices h.gpus h.skip_display)) i,
  has-allowed h.allowed_gpus (available_gpu_indices h.gpus h.skip_display) i,
)

pub all-has_self : (xs : List ℕ) → all (has xs) xs ≡ true
unfolding all any
all-has_self [] = refl
all-has_self (x ∷ xs) =
    ground (
      arith,
      all_mono (has xs) (λ i. eqb x i || has xs i) xs (λ i h. ground arith) (all-has_self xs),
    )

abbrev pub lacks : List ℕ → ℕ → Bool
lacks used i = not (has used i)

-- The free GPUs of a pool: in it, and not in use.
pub free-in : (used pool : List ℕ) → all (has pool) (Plan.free used pool) ≡ true
free-in used pool =
    all_mono (has (Plan.free used pool)) (has pool) (Plan.free used pool)
      (λ i k. ground (arith, has-filter (lacks used) pool i)) (all-has_self (Plan.free used pool))

pub free-unused : (used pool : List ℕ) → all (lacks used) (Plan.free used pool) ≡ true
free-unused used pool = all-filter (lacks used) pool

-- What the fit selects has every property that all the free GPUs have.
pub all-select_gpus :
    (p : ℕ → Bool) (gpus : List Gpu) (g : Deployment) (xs : List ℕ) (count : ℕ)
    → all p xs ≡ true
    → all p (Plan.select_gpus gpus g xs count) ≡ true
unfolding Plan.select_gpus
all-select_gpus p gpus g xs count h = ground (
  arith,
  all-sort leb p (take count (sort (Plan.smaller gpus) xs)),
  all-take p count (sort (Plan.smaller gpus) xs),
  all-sort (Plan.smaller gpus) p xs,
  all-take p count xs h,
)

pub all-of-none :
    (pool want : List ℕ) → is_empty (filter (lacks pool) want) ≡ true → all (has pool) want ≡ true
unfolding all filter
all-of-none pool [] e = refl
all-of-none pool (i ∷ want) e = ground (arith, all-of-none pool want)
