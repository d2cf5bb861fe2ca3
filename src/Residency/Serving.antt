-- ===== src/Residency/Serving.antt =====
-- `deployment_health` against residency: which of its answers mean what.
use infer_stack.Base.{
  String, ◌≡◌, Bool, true, false, not, ◌&&◌, any, is_empty, is_empty-filter, any_mono, arith,
  eq_iff, holds,
}
use infer_stack.Residency.{
  Container, Residency, Health, up, conflicted, restarting, units, warm_units, is_conflicted,
  is_resident, is_warm, is_up, deployment_health,
}

abbrev pub says_up : Health → Bool
says_up up = true
says_up _ = false

abbrev pub says_conflicted : Health → Bool
says_conflicted conflicted = true
says_conflicted _ = false

abbrev pub says_restarting : Health → Bool
says_restarting restarting = true
says_restarting _ = false

warm_of_up : (c : Container) → is_up c ≡ true → is_warm c ≡ true
unfolding is_warm any
warm_of_up c h = ground (arith, eq_iff c.state "running")

module _ (r : Residency) (id : String) where
  up_units-warm : any is_up (units r id) ≡ true → is_empty (warm_units r id) ≡ false
  unfolding warm_units
  up_units-warm h = ground (
    arith,
    is_empty-filter is_warm (units r id),
    any_mono is_up is_warm (units r id) (λ c k. warm_of_up c k) h,
  )

  -- The health of a deployment has no value exactly when there is no unit of it. It is `conflicted`
  -- exactly when the units conflict, and `up` exactly when they do not and one of them runs and
  -- is neither starting nor unhealthy. A deployment that is `up` or `restarting` is resident; one that
  -- is `restarting` has no unit that is up.
  pub deployment_health_lem :
      (holds (λ h. true) (deployment_health r id) ≡ not (is_empty (units r id)))
      × (holds says_conflicted (deployment_health r id) ≡ is_conflicted r id)
      × (holds says_up (deployment_health r id)
          ≡ (not (is_conflicted r id) && any is_up (units r id)))
      × (holds says_up (deployment_health r id) ≡ true → is_resident r id ≡ true)
      × (holds says_restarting (deployment_health r id) ≡ true
          → (is_resident r id ≡ true) × (any is_up (units r id) ≡ false))
  unfolding deployment_health is_conflicted is_resident any
  deployment_health_lem = (
    ground arith,
    ground arith,
    ground arith,
    λ h. ground (arith, up_units-warm),
    λ h. ground arith,
  )
