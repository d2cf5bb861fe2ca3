-- ===== src/Residency/Units.antt =====
-- What the questions asked of a deployment mean in terms of its units.
use infer_stack.Base.{
  ℕ, String, ◌≡◌, refl, true, false, none, some, List, [], ◌∷◌, any, any-append, any_mono,
  is_empty-filter, filter, eqb, ltb, arith, eq_iff, length,
}
use infer_stack.Hardware.{has}
use infer_stack.Hardware.Sets.{has-sorted_set}
use infer_stack.Residency.{
  Container, Residency, up, is_warm, is_up, occupies, units, warm_units, is_conflicted, is_resident,
  unique_unit, only_warm, resident_gpus, gpus_of, deployment_health,
}

has-gpus_of : (cs : List Container) (k : ℕ) → has (gpus_of cs) k ≡ any (λ c. has c.gpus k) cs
unfolding any
has-gpus_of [] k = refl
has-gpus_of (c ∷ cs) k =
    ground (arith, any-append (λ j. eqb j k) c.gpus (gpus_of cs), has-gpus_of cs k)

any-occupies :
    (cs : List Container) (k : ℕ)
    → any (λ (c : Container). c.all_gpus) cs ≡ false
    → any (λ c. has c.gpus k) cs ≡ any (λ c. occupies c k) cs
unfolding any occupies
any-occupies [] k e = refl
any-occupies (c ∷ cs) k e = ground (arith, any-occupies cs k)

module _ (r : Residency) (id : String) where
  -- The GPUs that a resident deployment is known to hold are exactly those that its warm units occupy.
  pub resident_gpus-occupies :
      (gs : List ℕ) (k : ℕ)
      → resident_gpus r id ≡ some gs
      → has gs k ≡ any (λ c. occupies c k) (warm_units r id)
  unfolding resident_gpus
  resident_gpus-occupies gs k e = ground (
    arith,
    has-sorted_set (gpus_of (warm_units r id)) k,
    has-gpus_of (warm_units r id) k,
    any-occupies (warm_units r id) k,
  )

  up-warm : (c : Container) → is_up c ≡ true → is_warm c ≡ true
  unfolding is_warm any
  up-warm c h = ground (arith, eq_iff c.state "running", eq_iff "running" c.state)

  -- A deployment that is reported up is resident.
  pub is_resident_of_up : deployment_health r id ≡ some up → is_resident r id ≡ true
  unfolding deployment_health is_resident
  is_resident_of_up h =
      ground
        (arith, any_mono is_up is_warm (units r id) up-warm, is_empty-filter is_warm (units r id))

  -- A conflict fails closed: nothing is resident, no unit stands for the deployment, and its GPUs are
  -- not known. Only a runtime without replicas has conflicts, when two units claim one deployment.
  pub is_conflicted_lem :
      is_conflicted r id ≡ true
      → (r.replicated ≡ false)
        × (is_resident r id ≡ false)
        × (unique_unit r id ≡ none)
        × (resident_gpus r id ≡ none)
  unfolding is_conflicted is_resident unique_unit resident_gpus
  is_conflicted_lem h =
      (ground arith, ground arith, single (units r id) (ground arith), ground arith)
    where
      single : (us : List Container) → ltb 1 (length us) ≡ true → only_warm us ≡ none
      single [] e = refl
      single (c ∷ []) e = cc
      single (c ∷ d ∷ us) e = refl

only_warm_lem :
    (us : List Container) (c : Container)
    → only_warm us ≡ some c
    → (us ≡ c ∷ []) × (is_warm c ≡ true)
only_warm_lem [] c h = cc
only_warm_lem (d ∷ []) c h = ground arith
only_warm_lem (d ∷ e ∷ us) c h = cc

-- The unique unit of a deployment is its only one, is warm, and makes it resident.
pub unique_unit_lem :
    (r : Residency) (id : String) (c : Container)
    → unique_unit r id ≡ some c
    → (units r id ≡ c ∷ []) × (is_warm c ≡ true) × (is_resident r id ≡ true)
unfolding unique_unit
unique_unit_lem r id c h =
    let (alone, warm) = only_warm_lem (units r id) c h in
    (alone, warm, unfold is_resident filter in rw alone (ground arith))
