-- ===== src/Placement/Plan.antt =====
-- `plan_placement`: the passes over the deployments, in the order of the source.
use infer_stack.Base.{
  ℕ, String, Bool, true, false, not, ◌&&◌, ◌||◌, Option, none, some, List, [], ◌∷◌, ◌++◌, filter,
  all, length, take, leb, ltb, eqb, if◌then◌else◌, is_empty, is_in, Dict, lookup, insert, sort,
  text_leb,
}
use infer_stack.Models.{Deployment}
use infer_stack.Hardware.{Gpu, Shortfall, first_fit, has, overlaps, sorted_set}
use infer_stack.Placement.{
  Host, Need, available_indices, required_gpu_count, explicit_indices, declared_min_vram,
  min_vram_per_gpu, meets, memory_of,
}

pub data Kind : Type 0 where
  pinned explicit : Kind

-- An honored placement on GPUs that are below the declared requirement.
pub record Warning : Type 0 where
  pub deployment_id : String
  pub kind : Kind
  pub want : List ℕ
  pub below : List ℕ

pub data PlacementError : Type 0 where
  -- The GPUs outside the pool, and the sorted ones that are in use already.
  explicit_failed : String → List ℕ → List ℕ → PlacementError
  too_few : String → Shortfall → PlacementError
  -- The pool can never satisfy it.
  never_fits : String → ℕ → Need → PlacementError
  busy : String → ℕ → Need → ℕ → PlacementError

pub record GpuPlan : Type 0 where
  pub assignments : Dict (List ℕ)
  pub errors : List PlacementError
  pub warnings : List Warning
  pub degraded : List String
  pub displaced : List String

-- `GpuPlan.ok`
unfoldable pub is_ok : GpuPlan → Bool
is_ok plan = is_empty plan.errors

-- The plan so far, and the GPUs that it uses.
pub record Placing : Type 0 where
  pub plan : GpuPlan
  pub open plan use *
  pub used : List ℕ

abbrev pub start : Placing
start = record {
  plan = record { assignments = []; errors = []; warnings = []; degraded = []; displaced = [] };
  used = [];
}

abbrev pub assign : String → List ℕ → Placing → Placing
assign id want p = record {
  plan = record p.plan { assignments = insert id want p.assignments };
  used = p.used ++ want;
}

abbrev pub add_error : PlacementError → Placing → Placing
add_error e p = record p { plan = record p.plan { errors = p.errors ++ (e ∷ []) } }

abbrev degrade : String → Placing → Placing
degrade id p = record p { plan = record p.plan { degraded = p.degraded ++ (id ∷ []) } }

abbrev displace : String → Placing → Placing
displace id p = record p { plan = record p.plan { displaced = p.displaced ++ (id ∷ []) } }

unfoldable pub declaration_warning : List Gpu → Deployment → List ℕ → Kind → Placing → Placing
declaration_warning gpus g want kind p =
    let need = min_vram_per_gpu g in
    let below = filter (λ i. not (meets need (memory_of gpus i))) want in
    if ltb 0 need.amount && not (is_empty below)
    then record p {
      plan = record p.plan {
        warnings =
            p.warnings
            ++ (record { deployment_id = g.id; kind = kind; want = want; below = below } ∷ []);
      };
    }
    else p

-- `sorted(deployments, key=lambda g: (g.created_at, g.id))`
abbrev pub older : Deployment → Deployment → Bool
older a b = ltb a.created_at b.created_at || (eqb a.created_at b.created_at && text_leb a.id b.id)

-- All in the physical pool, and none of them used.
abbrev pub is_placeable : List ℕ → List ℕ → List ℕ → Bool
is_placeable pin_pool used want = all (has pin_pool) want && not (overlaps used want)

-- Admission mode: what has a hard allocation is placed; the others are sorted by their kind.
pub record Admission : Type 0 where
  pub placing : Placing
  pub required : List Deployment
  pub optional : List Deployment

pub record Inputs : Type 0 where
  pub required_ids : List String
  pub hard : Dict (List ℕ)
  pub optional_hints : Dict (List ℕ)

unfoldable pub keep_hard : List ℕ → String → List ℕ → Placing → Placing
keep_hard pin_pool id want p =
    if is_placeable pin_pool p.used want then assign id want p else degrade id p

abbrev pub is_known : String → Dict (List ℕ) → Bool
is_known id d = elim (lookup id d) [ none ↦ false | some _ ↦ true ]

unfoldable pub admit_one : List ℕ → Inputs → Deployment → Admission → Admission
unfolding keep_hard
admit_one pin_pool i g a = elim (lookup g.id i.hard) [
  | some want ↦ record a { placing = keep_hard pin_pool g.id want a.placing }
  | none ↦
      if is_in g.id i.required_ids
      then record a { required = a.required ++ (g ∷ []) }
      else if is_known g.id i.optional_hints
      then record a { optional = a.optional ++ (g ∷ []) }
      else a
]

unfoldable pub admit : List ℕ → Inputs → List Deployment → Admission → Admission
unfolding admit_one
admit pin_pool i [] a = a
admit pin_pool i (g ∷ gs) a = admit pin_pool i gs (admit_one pin_pool i g a)

-- Pass 1: pinned deployments that are still placeable; the others are deferred.
unfoldable pub pin_one :
    List Gpu
    → List ℕ
    → Dict (List ℕ)
    → Deployment
    → Placing × List Deployment
    → Placing × List Deployment
unfolding declaration_warning
pin_one gpus pin_pool pins g (p, deferred) = elim (lookup g.id pins) [
  | none ↦ (p, deferred ++ (g ∷ []))
  | some want ↦
      if is_placeable pin_pool p.used want
      then (declaration_warning gpus g want Kind.pinned (assign g.id want p), deferred)
      else (p, deferred ++ (g ∷ []))
]

unfoldable pub pin_all :
    List Gpu
    → List ℕ
    → Dict (List ℕ)
    → List Deployment
    → Placing × List Deployment
    → Placing × List Deployment
unfolding pin_one
pin_all gpus pin_pool pins [] r = r
pin_all gpus pin_pool pins (g ∷ gs) r =
    pin_all gpus pin_pool pins gs (pin_one gpus pin_pool pins g r)

-- Pass 2: exactly the GPUs that a deployment names; the others are to be fitted.
unfoldable pub place_explicit : List Gpu → List ℕ → Deployment → List ℕ → Placing → Placing
unfolding declaration_warning sorted_set
place_explicit gpus pool g want p =
    let invalid = filter (λ i. not (has pool i)) want in
    let clash = filter (has p.used) want in
    if is_empty want
    then record p { plan = record p.plan { assignments = insert g.id [] p.assignments } }
    else if not (is_empty invalid) || not (is_empty clash)
    then add_error (explicit_failed g.id invalid (sorted_set clash)) p
    else declaration_warning gpus g want Kind.explicit (assign g.id want p)

unfoldable pub explicit_all :
    List Gpu → List ℕ → List Deployment → Placing × List Deployment → Placing × List Deployment
unfolding place_explicit
explicit_all gpus pool [] r = r
explicit_all gpus pool (g ∷ gs) (p, fits) = elim (explicit_indices g) [
  | none ↦ explicit_all gpus pool gs (p, fits ++ (g ∷ []))
  | some want ↦ explicit_all gpus pool gs (place_explicit gpus pool g want p, fits)
]

-- Pass 3: the GPUs of the pool that have the memory, and those that are free.
abbrev pub eligible : List Gpu → List ℕ → Need → List ℕ
eligible gpus pool need = filter (λ i. meets need (memory_of gpus i)) pool

abbrev pub free : List ℕ → List ℕ → List ℕ
free used = filter (λ i. not (has used i))

-- Most constrained first, then by age and id.
abbrev pub fits_before : List Gpu → List ℕ → Deployment → Deployment → Bool
fits_before gpus pool a b =
    let m = length (eligible gpus pool (min_vram_per_gpu a)) in
    let n = length (eligible gpus pool (min_vram_per_gpu b)) in ltb m n || (eqb m n && older a b)

-- The smallest GPUs first, by index among equals.
abbrev pub smaller : List Gpu → ℕ → ℕ → Bool
smaller gpus i j =
    ltb (memory_of gpus i) (memory_of gpus j)
    || (eqb (memory_of gpus i) (memory_of gpus j) && leb i j)

-- A declaration takes the smallest eligible free GPUs; a floor alone keeps the index order.
unfoldable pub select_gpus : List Gpu → Deployment → List ℕ → ℕ → List ℕ
select_gpus gpus g gpus_free count =
    if ltb 0 (declared_min_vram g)
    then sort leb (take count (sort (smaller gpus) gpus_free))
    else take count gpus_free

abbrev pub assign_fit : String → List ℕ × Option Shortfall → Placing → Placing
assign_fit id (indices, none) p = assign id indices p
assign_fit id (indices, some e) p = add_error (too_few id e) p

unfoldable pub fit_one : List Gpu → List ℕ → Deployment → Placing → Placing
unfolding select_gpus
fit_one gpus pool g p =
    let count = required_gpu_count g in
    let need = min_vram_per_gpu g in
    let fitting = eligible gpus pool need in
    let gpus_free = free p.used fitting in
    if eqb need.amount 0
    then assign_fit g.id (first_fit (free p.used pool) count) p
    else if ltb (length fitting) count
    then add_error (never_fits g.id count need) p
    else if ltb (length gpus_free) count
    then add_error (busy g.id count need (length gpus_free)) p
    else assign g.id (select_gpus gpus g gpus_free count) p

unfoldable pub fit_all : List Gpu → List ℕ → List Deployment → Placing → Placing
unfolding fit_one
fit_all gpus pool [] p = p
fit_all gpus pool (g ∷ gs) p = fit_all gpus pool gs (fit_one gpus pool g p)

-- Pass 4: optional residents stay where they are, or yield.
unfoldable pub stay_one : List ℕ → Dict (List ℕ) → Deployment → Placing → Placing
stay_one pin_pool hints g p = elim (lookup g.id hints) [
  | none ↦ p
  | some want ↦ if is_placeable pin_pool p.used want then assign g.id want p else displace g.id p
]

unfoldable pub stay_all : List ℕ → Dict (List ℕ) → List Deployment → Placing → Placing
unfolding stay_one
stay_all pin_pool hints [] p = p
stay_all pin_pool hints (g ∷ gs) p = stay_all pin_pool hints gs (stay_one pin_pool hints g p)

abbrev pub pool_of : Host → List ℕ
pool_of h = available_indices h.gpus h.allowed_gpus h.reserved h.skip_display

-- The full physical pool, which committed allocations and pins are held to.
abbrev pub pin_pool_of : Host → List ℕ
pin_pool_of h = available_indices h.gpus none h.reserved h.skip_display

-- Passes 1 to 3.
unfoldable pub place : Host → Dict (List ℕ) → List Deployment → Placing → Placing
unfolding pin_all explicit_all fit_all
place h pins ordered p =
    let pinned_pass = pin_all h.gpus (pin_pool_of h) pins ordered (p, []) in
    let explicit_pass = explicit_all h.gpus (pool_of h) pinned_pass.1 (pinned_pass.0, []) in
    fit_all h.gpus (pool_of h) (sort (fits_before h.gpus (pool_of h)) explicit_pass.1)
      explicit_pass.0

abbrev pub admission : Host → Inputs → List Deployment → Admission
admission h i deployments =
    admit (pin_pool_of h) i (sort older deployments)
      (record { placing = start; required = []; optional = [] })

-- With admission inputs, demand decides; without, the pins are kept.
unfoldable pub plan_placement : Host → Dict (List ℕ) → Option Inputs → List Deployment → GpuPlan
unfolding admit place stay_all
plan_placement h pins none deployments = (place h pins (sort older deployments) start).plan
plan_placement h pins (some i) deployments =
    let a = admission h i deployments in
    (stay_all (pin_pool_of h) i.optional_hints a.optional (place h [] a.required a.placing)).plan
