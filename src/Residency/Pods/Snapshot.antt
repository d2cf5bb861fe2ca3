-- ===== src/Residency/Pods/Snapshot.antt =====
-- Which pods a snapshot from kubernetes has.
use infer_stack.Base.{
  String, ◌≡◌, refl, Bool, true, false, ◌&&◌, ◌||◌, some, List, [], ◌∷◌, any, arith, ◌==◌, lookup,
}
use infer_stack.Residency.{Container, Residency, all_containers, units, is_conflicted}
use infer_stack.Residency.Inspect.{add_unit, no_residency}
use infer_stack.Residency.Inspect.Snapshot.{any-add_unit, any-units}
use infer_stack.Residency.Pods.{Pod, pod_container, collect_pods, residency_from_pods}

module _ (p : Container → Bool) where
  any-collect_pods :
      (ps : List Pod) (r : Residency)
      → any p (all_containers (collect_pods ps r))
        ≡ (any p (all_containers r) || any (λ x. p (pod_container x)) ps)
  unfolding collect_pods any
  any-collect_pods [] r = ground arith
  any-collect_pods (x ∷ ps) r = ground (
    arith,
    any-add_unit p (pod_container x) r,
    any-collect_pods ps (add_unit (pod_container x) r),
  )

  any-collect_pods-units :
      (id : String)
      → (id == "") ≡ false
      → (ps : List Pod) (r : Residency)
      → any p (units (collect_pods ps r) id)
        ≡ (any p (units r id) || any (λ x. x.deployment_label == id && p (pod_container x)) ps)
  unfolding collect_pods any
  any-collect_pods-units id e [] r = ground arith
  any-collect_pods-units id e (x ∷ ps) r = ground (
    arith,
    any-units p (pod_container x) r id e,
    any-collect_pods-units id e ps (add_unit (pod_container x) r),
  )

replicated-collect_pods :
    (ps : List Pod) (r : Residency) → (collect_pods ps r).replicated ≡ r.replicated
unfolding collect_pods
replicated-collect_pods [] r = refl
replicated-collect_pods (x ∷ ps) r =
    ground (arith, replicated-collect_pods ps (add_unit (pod_container x) r))

-- A pod list always gives a snapshot. Some container of it passes a test exactly when some pod does, as
-- a container; the units of a deployment are the pods with its label; and no deployment is conflicted,
-- however many pods it has.
pub residency_from_pods-any :
    (p : Container → Bool) (ps : List Pod) (id : String)
    → (id == "") ≡ false
    → (t : Residency) × (residency_from_pods (some ps) ≡ some t)
      × (any p (all_containers t) ≡ any (λ x. p (pod_container x)) ps)
      × (any p (units t id) ≡ any (λ x. x.deployment_label == id && p (pod_container x)) ps)
      × (is_conflicted t id ≡ false)
unfolding residency_from_pods is_conflicted all_containers units any lookup
residency_from_pods-any p ps id e = (
  collect_pods ps (no_residency true),
  refl,
  any-collect_pods p ps (no_residency true),
  any-collect_pods-units p id e ps (no_residency true),
  ground (arith, replicated-collect_pods ps (no_residency true)),
)
