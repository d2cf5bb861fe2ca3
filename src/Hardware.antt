-- ===== src/Hardware.antt =====
-- infer_stack/hardware.py: the GPUs of an inventory, and the first-fit primitive.
pub mod Sets
use infer_stack.Base.{
  ℕ, ◌≡◌, ◌≤◌, Bool, true, false, not, Option, none, some, List, [], ◌∷◌, map, filter, length, take,
  ltb, if◌then◌else◌, arith, length-take, any, eqb, any-append, refl,
}

-- Memory in a fixed unit; `none` where the inventory lacks it.
pub record Gpu : Type 0 where
  pub index : ℕ
  pub memory_gib : Option ℕ
  pub display_active : Bool

abbrev pub indices_of : List Gpu → List ℕ
indices_of = map (λ (g : Gpu). g.index)

unfoldable pub available_gpu_indices : List Gpu → Bool → List ℕ
available_gpu_indices gpus true = indices_of (filter (λ g. not g.display_active) gpus)
available_gpu_indices gpus false = indices_of gpus

pub record Shortfall : Type 0 where
  pub needed : ℕ
  pub available : ℕ

-- The first `count` of the available indices, or the shortfall.
unfoldable pub first_fit : List ℕ → ℕ → List ℕ × Option Shortfall
first_fit available count =
    if ltb (length available) count
    then (available, some (record { needed = count; available = length available }))
    else (take count available, none)

-- Whether a GPU is among these.
abbrev pub has : List ℕ → ℕ → Bool
has xs i = any (λ j. eqb j i) xs

abbrev pub overlaps : List ℕ → List ℕ → Bool
overlaps xs ys = any (has ys) xs

-- `sorted({…})` of numbers.
unfoldable pub add_index : ℕ → List ℕ → List ℕ
add_index i [] = i ∷ []
add_index i (j ∷ js) =
    if ltb i j then i ∷ j ∷ js else if eqb i j then j ∷ js else j ∷ add_index i js

unfoldable pub sorted_set : List ℕ → List ℕ
unfolding add_index
sorted_set [] = []
sorted_set (i ∷ is) = add_index i (sorted_set is)
