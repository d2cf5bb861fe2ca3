-- ===== src/Tests/Placement.antt =====
-- Plans for a host with a small and a large GPU.
use infer_stack.Base.{
  ℕ, ◌≡◌, refl, any, lookup, Bool, true, false, none, some, List, [], ◌∷◌, String, Option,
}
use infer_stack.Models.{DeploymentState, Deployment}
use infer_stack.Hardware.{Gpu, available_gpu_indices, first_fit}
use infer_stack.Placement.{Host}
use infer_stack.Placement.Plan
use infer_stack.Placement.Plan.{Inputs}
use infer_stack.Placement.Disjoint.{
  Disjoint, Within, plan_placement-Disjoint, plan_placement-Within,
}
use infer_stack.Placement.Complete.{plan_placement_complete, plan_placement_required}
use infer_stack.Placement.Allowed.{Allowed, IsOwn, plan_placement-Allowed}
use infer_stack.Placement.Committed.{plan_placement_committed}
use infer_stack.Base.{is_in, ◌⊎◌}
use infer_stack.Placement.Fit.{Outcome, fit_one-Outcome}
use infer_stack.Tests.Rows.{deployment}

abbrev gpus : List Gpu
gpus =
    record { index = 0; memory_gib = some 48; display_active = false }
    ∷ record { index = 1; memory_gib = some 16; display_active = false }
    ∷ []

abbrev pub host : Host
host = record { gpus = gpus; allowed_gpus = none; reserved = []; skip_display = false }

abbrev first : Deployment
first = deployment "x" DeploymentState.live 1

abbrev second : Deployment
second = deployment "y" DeploymentState.live 2

abbrev inputs : Inputs
inputs = record { required_ids = "y" ∷ []; hard = ("x", 0 ∷ []) ∷ []; optional_hints = [] }

plan_placement-Disjoint_example :
    Disjoint (Plan.plan_placement host [] (some inputs) (first ∷ second ∷ [])).assignments
plan_placement-Disjoint_example =
    plan_placement-Disjoint host [] (some inputs) (first ∷ second ∷ [])

plan_placement-Within_example :
    Within
      (Plan.pin_pool_of host)
      (Plan.plan_placement host [] (some inputs) (first ∷ second ∷ [])).assignments
plan_placement-Within_example = plan_placement-Within host [] (some inputs) (first ∷ second ∷ [])

plan_placement_complete_example :
    Plan.is_known "y" (Plan.plan_placement host [] none (first ∷ second ∷ [])).assignments ≡ true
unfolding Plan.plan_placement Plan.is_ok any lookup infer_stack.Base.sort
    infer_stack.Placement.explicit_indices infer_stack.Base.filter
    infer_stack.Placement.available_indices available_gpu_indices
    infer_stack.Placement.min_vram_per_gpu infer_stack.Placement.memory_of first_fit
    infer_stack.Placement.required_gpu_count
plan_placement_complete_example =
    plan_placement_complete host [] (first ∷ second ∷ []) "y" refl refl

plan_placement_required_example :
    Plan.is_known "y" (Plan.plan_placement host [] (some inputs) (first ∷ second ∷ [])).assignments
    ≡ true
unfolding Plan.plan_placement Plan.is_ok any lookup infer_stack.Base.sort
    infer_stack.Placement.explicit_indices infer_stack.Placement.min_vram_per_gpu first_fit
    infer_stack.Base.filter infer_stack.Placement.available_indices available_gpu_indices
    infer_stack.Base.all infer_stack.Placement.required_gpu_count
plan_placement_required_example =
    plan_placement_required host [] inputs (first ∷ second ∷ []) "y" refl refl refl refl

fit_one-Outcome_example :
    Outcome gpus (0 ∷ 1 ∷ []) second Plan.start (Plan.fit_one gpus (0 ∷ 1 ∷ []) second Plan.start)
fit_one-Outcome_example = fit_one-Outcome gpus (0 ∷ 1 ∷ []) second Plan.start

-- The first deployment stays outside the allowed GPUs, the second is placed inside.
abbrev slurm_host : Host
slurm_host = record host { allowed_gpus = some (1 ∷ []) }

plan_placement-Allowed_example :
    Allowed
      (Plan.pool_of slurm_host)
      (IsOwn [] (some inputs))
      (Plan.plan_placement slurm_host [] (some inputs) (first ∷ second ∷ [])).assignments
plan_placement-Allowed_example =
    plan_placement-Allowed slurm_host [] (some inputs) (first ∷ second ∷ [])

plan_placement_committed_example :
    (is_in "x" (Plan.plan_placement slurm_host [] (some inputs) (first ∷ second ∷ [])).degraded
      ≡ true)
    ⊎ (lookup "x"
          (Plan.plan_placement slurm_host [] (some inputs) (first ∷ second ∷ [])).assignments
        ≡ some (0 ∷ []))
unfolding any lookup
plan_placement_committed_example =
    plan_placement_committed slurm_host [] inputs (first ∷ second ∷ []) "x" (0 ∷ []) refl refl
