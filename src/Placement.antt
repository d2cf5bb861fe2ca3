-- ===== src/Placement.antt =====
-- infer_stack/leasing/placement.py: what a deployment needs, and the pool it is placed on. The
-- planner's loops are in Placement/Plan.
pub mod Plan
pub mod Pool
pub mod Passes
pub mod Others
pub mod Committed
pub mod Disjoint
pub mod Allowed
pub mod Complete
pub mod Fit
use infer_stack.Base.{
  ℕ, ◌+◌, ◌*◌, zero, suc, String, Bool, true, false, not, ◌&&◌, ◌||◌, Option, none, some, List, [],
  ◌∷◌, map, filter, leb, ltb, eqb, max, if◌then◌else◌, is_empty, ◌==◌,
}
use infer_stack.Models.{Deployment, Runtime}
use infer_stack.Hardware.{Gpu, available_gpu_indices, has}

-- The part of `plan_placement`'s arguments that the pool depends on.
pub record Host : Type 0 where
  pub gpus : List Gpu
  pub allowed_gpus : Option (List ℕ)
  pub reserved : List ℕ
  pub skip_display : Bool

abbrev pub allowed : Option (List ℕ) → List ℕ → List ℕ
allowed none indices = indices
allowed (some ok) indices = filter (has ok) indices

-- The placeable pool, in real-index order.
unfoldable pub available_indices : List Gpu → Option (List ℕ) → List ℕ → Bool → List ℕ
available_indices gpus allowed_gpus reserved skip_display =
    filter (λ i. not (has reserved i))
      (allowed allowed_gpus (available_gpu_indices gpus skip_display))

-- `int(value or 1)`
abbrev pub size_or_one : Option ℕ → ℕ
size_or_one none = 1
size_or_one (some zero) = 1
size_or_one (some (suc n)) = suc n

abbrev parallel_count : Runtime → ℕ
parallel_count r =
    if r.simulator || r.cpu_only
    then 0
    else max 1 (
        size_or_one r.tensor_parallel_size
        * size_or_one r.pipeline_parallel_size
        * size_or_one r.data_parallel_size)

-- A reservation count that is 0 counts as none.
unfoldable pub required_gpu_count : Deployment → ℕ
required_gpu_count g = elim g.spec.reserved_gpu_count [
  | none ↦ parallel_count g.spec.runtime
  | some n ↦ if eqb n 0 then parallel_count g.spec.runtime else max 1 n
]

abbrev weight_ways : Runtime → ℕ
weight_ways r = max 1 (size_or_one r.tensor_parallel_size * size_or_one r.pipeline_parallel_size)

-- Data parallelism replicates the weights, so it does not divide them.
unfoldable pub weight_shard_count : Deployment → ℕ
weight_shard_count g = elim g.spec.reserved_gpu_count [
  | none ↦ weight_ways g.spec.runtime
  | some n ↦ if eqb n 0 then weight_ways g.spec.runtime else 1
]

abbrev pub ollama : String
ollama = "ollama"

abbrev is_ollama : Option String → Bool
is_ollama none = false
is_ollama (some engine) = engine == ollama

-- The indices that are pinned: always for Ollama, else the placement's, else the runtime's.
unfoldable pub explicit_indices : Deployment → Option (List ℕ)
explicit_indices g =
    if is_ollama g.spec.engine
    then some g.spec.gpu_indices
    else if is_empty g.spec.placement.gpu_indices
    then (if is_empty g.spec.runtime.gpu_indices then none else some g.spec.runtime.gpu_indices)
    else some g.spec.placement.gpu_indices

abbrev pub or_zero : Option ℕ → ℕ
or_zero none = 0
or_zero (some n) = n

unfoldable pub declared_min_vram : Deployment → ℕ
declared_min_vram g = or_zero g.spec.placement.min_vram_gib

-- A requirement per GPU: `amount / shards`, with no rounding.
pub record Need : Type 0 where
  pub amount : ℕ
  pub shards : ℕ

abbrev declared_or_floor : ℕ → ℕ → ℕ → Need
declared_or_floor declared floor shards =
    if leb floor (declared * shards)
    then record { amount = declared; shards = 1 }
    else record { amount = floor; shards = shards }

-- The per-GPU requirement: a positive measurement as it is, else the larger of what is declared and
-- the floor of the weights over their shards.
unfoldable pub min_vram_per_gpu : Deployment → Need
unfolding weight_shard_count declared_min_vram
min_vram_per_gpu g =
    if g.spec.placement.is_measured && ltb 0 (or_zero g.spec.placement.min_vram_gib)
    then record { amount = or_zero g.spec.placement.min_vram_gib; shards = 1 }
    else declared_or_floor (declared_min_vram g) (or_zero g.spec.placement.floor_vram_gib)
        (weight_shard_count g)

-- `memory >= req`
abbrev pub meets : Need → ℕ → Bool
meets need memory = leb need.amount (memory * need.shards)

-- `memory.get(index, 0.0)`; of GPUs with one index the last counts.
unfoldable pub memory_of : List Gpu → ℕ → ℕ
memory_of [] i = 0
memory_of (g ∷ gpus) i =
    if has (map (λ (h : Gpu). h.index) gpus) i
    then memory_of gpus i
    else if eqb g.index i
    then or_zero g.memory_gib
    else 0
