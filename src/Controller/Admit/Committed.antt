-- ===== src/Controller/Admit/Committed.antt =====
-- An admission against the GPUs that LIVE deployments have committed.
use infer_stack.Base.{
  ℕ, String, ◌≡◌, refl, sym, ap, ◌∙◌, subst, true, false, not, ◌&&◌, ◌⊎◌, inl, inr, Option, some,
  List, [], map, any, is_in, is_empty, Distinct, arith, Bool-cases, lookup, keys-map, select_absent,
}
use infer_stack.Models.{Deployment, is_live}
use infer_stack.Store.{Store, deployment_key, select_deployment, with_demand}
use infer_stack.Store.Keys.{deployment_ids}
use infer_stack.Residency.{Residency}
use infer_stack.Placement.Plan.{GpuPlan}
use infer_stack.Placement.Disjoint.{Disjoint, ApartFrom, plan_placement-Disjoint}
use infer_stack.Placement.Committed.{plan_placement_committed}
use infer_stack.Ledger.{AcquireOverlay}
use infer_stack.Controller.{Policy, proposed, fresh_ids, unresolved_allocations}
use infer_stack.Controller.Desired.{lookup-proposed, admission_view_committed}
use infer_stack.Controller.Admit.{
  Rendered, Preview, admit, decide, needs, preview_of, previewed, with_kept, allocations_of, ids_of,
}
use infer_stack.Controller.Admit.Apart.{allocations_of-ApartFrom, allocations_of-Disjoint}
use infer_stack.Compose
use infer_stack.Compose.{ComposeBackend, listed-enrich}

-- A refusal allocates nothing; any other decision, what its plan says.
pub admit-allocations :
    (c : Policy) (preview : Preview) (o : AcquireOverlay) (r : Residency) (now : ℕ) (s : Store)
    → ((admit c preview o (some r) now s).allocations ≡ [])
      ⊎ ((admit c preview o (some r) now s).allocations
          ≡ allocations_of (preview_of c preview o r now s).0 (fresh_ids o) o.deployments)
unfolding admit decide
admit-allocations c preview o r now s =
    elim (Bool-cases (
      any (needs c (some r) o) o.deployments
      && not (is_empty (unresolved_allocations c (ids_of o.deployments) now s)))) [
        | inl e ↦ inl (rw e refl)
        | inr e ↦ inr (rw e refl)
      ]

with_kept-id :
    (c : Policy) (r : Option Residency) (o : AcquireOverlay) (g : Deployment)
    → deployment_key (with_kept c r o g) ≡ deployment_key g
unfolding with_kept
with_kept-id c r o g = ground arith

previewed-ids :
    (c : Policy) (r : Residency) (o : AcquireOverlay)
    → map deployment_key (previewed c r o).deployments ≡ ids_of o.deployments
previewed-ids c r o =
    keys-map deployment_key (with_kept c (some r) o) (with_kept-id c (some r) o) o.deployments

module _ (c : Policy) (b : ComposeBackend) (render : GpuPlan → Rendered) (o : AcquireOverlay)
    (r : Residency) (now : ℕ) (s : Store) where
  abbrev pub planned : GpuPlan
  planned = (preview_of c (Compose.preview b render) o r now s).0

  planned-Disjoint : Disjoint planned.assignments
  unfolding preview_of Compose.preview Compose.plan
  planned-Disjoint = plan_placement-Disjoint b.host b.sidecar _ _

  module _ (keyed : Distinct (deployment_ids s)) (distinct : Distinct (ids_of o.deployments))
      (id : String) (g : Deployment) (want : List ℕ) where
    -- A committed deployment that the candidate does not touch is proposed as it is stored.
    untouched :
        select_deployment s id ≡ some g
        → is_in id (ids_of o.deployments) ≡ false
        → lookup id (proposed (some (previewed c r o)) false now s) ≡ some (with_demand s now g)
    untouched e absent = ground (
      arith,
      e,
      lookup-proposed (some (previewed c r o)) id now s keyed
          (subst Distinct (sym (previewed-ids c r o)) distinct),
      select_absent deployment_key id (previewed c r o).deployments
          (ap (is_in id) (previewed-ids c r o) ∙ absent),
    )

    planned_committed :
        select_deployment s id ≡ some g
        → is_live g.state ≡ true
        → g.assigned_gpus ≡ some want
        → is_in id (ids_of o.deployments) ≡ false
        → (is_in id planned.degraded ≡ true) ⊎ (lookup id planned.assignments ≡ some want)
    unfolding preview_of Compose.preview Compose.plan
    planned_committed e live has absent =
        let (given, hard) =
          admission_view_committed c (some r) (some (previewed c r o)) now s id
            (with_demand s now g) want (untouched e absent) live has in
        plan_placement_committed b.host b.sidecar _ _ id want (listed-enrich b id _ ∙ given) hard

    -- What an admission with Compose's planner hands out: no two deployments share a GPU, and where a
    -- LIVE deployment that the candidate does not touch has committed GPUs, none of these is handed
    -- out, unless the plan reports that deployment as degraded.
    pub admit-ApartFrom :
        select_deployment s id ≡ some g
        → is_live g.state ≡ true
        → g.assigned_gpus ≡ some want
        → is_in id (ids_of o.deployments) ≡ false
        → Disjoint (admit c (Compose.preview b render) o (some r) now s).allocations
          × ((is_in id planned.degraded ≡ true)
              ⊎ ApartFrom want (admit c (Compose.preview b render) o (some r) now s).allocations)
    admit-ApartFrom e live has absent =
        elim (admit-allocations c (Compose.preview b render) o r now s) [
          | inl f ↦ rw f (tt, inr tt)
          | inr f ↦ rw f (
            allocations_of-Disjoint planned planned-Disjoint (fresh_ids o) o.deployments distinct,
            elim (planned_committed e live has absent) [
              | inl lost ↦ inl lost
              | inr kept ↦ inr (
                  allocations_of-ApartFrom planned planned-Disjoint (fresh_ids o) o.deployments id
                    want kept absent)
            ],
          )
        ]
