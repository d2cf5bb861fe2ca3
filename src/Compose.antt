-- ===== src/Compose.antt =====
-- infer_stack/leasing/compose.py: how the Compose backend calls the placement planner. Rendering and
-- docker are not modelled; what a render refuses is an argument.
use infer_stack.Base.{
  Bool, true, false, not, ◌||◌, zero, suc, arith, Option-cases, inl, inr, ℕ, String, ◌≡◌, Option,
  none, some, List, [], ◌∷◌, map, any-map, any_congr, is_in, if◌then◌else◌, ap, ◌∙◌, Dict, ◌==◌,
}
use infer_stack.Models.{Deployment, Placement}
use infer_stack.Placement.{Host}
use infer_stack.Placement.Plan.{Inputs, GpuPlan, plan_placement}
use infer_stack.Placement.Complete.{listed}
use infer_stack.Controller.Admit.{Rendered, Preview}

-- What is known of a deployment's memory: the measurement that was recorded for its spec, and the size
-- of its weights in the local cache.
pub record Facts : Type 0 where
  pub measured : Option ℕ
  pub weight_floor : Option ℕ

-- The inventory and its settings, the pins of the sidecar file, and the memory facts; none where
-- reading them raises.
pub record ComposeBackend : Type 0 where
  pub host : Host
  pub sidecar : Dict (List ℕ)
  pub facts : Deployment → Option Facts

-- Neither `None` nor 0.
abbrev has_amount : Option ℕ → Bool
has_amount none = false
has_amount (some zero) = false
has_amount (some (suc n)) = true

abbrev fill_measured : Option ℕ → Placement → Placement
fill_measured measured p =
    if has_amount p.min_vram_gib || not (has_amount measured)
    then p
    else record p { min_vram_gib = measured; is_measured = true }

abbrev fill_floor : Option ℕ → Placement → Placement
fill_floor weight_floor p =
    if has_amount p.floor_vram_gib || not (has_amount weight_floor)
    then p
    else record p { floor_vram_gib = weight_floor }

abbrev with_facts : Option Facts → Deployment → Deployment
with_facts none g = g
with_facts (some f) g = record g {
  spec = record g.spec {
    placement = fill_floor f.weight_floor (fill_measured f.measured g.spec.placement);
  };
}

-- `_enrich_placement`, for one deployment. The source changes the `spec` of the object it is given; the
-- plan reads it there, and what later reads of the same object see is not modelled.
unfoldable pub enrich : ComposeBackend → Deployment → Deployment
enrich b g = if g.engine == "vllm" then with_facts (b.facts g) g else g

unfoldable pub plan : ComposeBackend → List Deployment → Option Inputs → GpuPlan
unfolding enrich
plan b desired placement = plan_placement b.host b.sidecar placement (map (enrich b) desired)

abbrev pins_among : List String → Dict (List ℕ) → Dict (List ℕ)
pins_among requested [] = []
pins_among requested ((id, gpus) ∷ d) =
    if is_in id requested then (id, gpus) ∷ pins_among requested d else pins_among requested d

-- Only the pins of the deployments that are asked about.
unfoldable pub plan_on_idle_host : ComposeBackend → List Deployment → GpuPlan
unfolding enrich
plan_on_idle_host b desired =
    plan_placement b.host (pins_among (map (λ (g : Deployment). g.id) desired) b.sidecar) none
      (map (enrich b) desired)

-- `preview`, with what the render of a plan refuses.
unfoldable pub preview : ComposeBackend → (GpuPlan → Rendered) → Preview
unfolding plan
preview b render desired inputs =
    (plan b desired (some inputs), render (plan b desired (some inputs)))

enrich-id : (b : ComposeBackend) (g : Deployment) → (enrich b g).id ≡ g.id
unfolding enrich
enrich-id b g = elim (Option-cases (b.facts g)) [
  | inl e ↦ ground (arith, e)
  | inr (f, e) ↦ ground (arith, e)
]

pub listed-enrich :
    (b : ComposeBackend) (id : String) (gs : List Deployment)
    → listed id (map (enrich b) gs) ≡ listed id gs
listed-enrich b id gs =
    any-map (λ (g : Deployment). g.id == id) (enrich b) gs
    ∙ any_congr (λ g. (enrich b g).id == id) (λ (g : Deployment). g.id == id) gs
        (λ g. ap (λ k. k == id) (enrich-id b g))
