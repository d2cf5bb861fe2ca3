-- ===== src/Residency.antt =====
-- infer_stack/leasing/residency.py: which units exist, on which GPUs. The parsers of `docker inspect`
-- and `kubectl get pods` are in Residency/Inspect and Residency/Pods.
pub mod Inspect
pub mod Pods
pub mod Units
pub mod Serving
use infer_stack.Base.{
  ℕ, String, Bool, true, false, not, ◌&&◌, ◌||◌, Option, none, some, List, [], ◌∷◌, ◌++◌, map,
  filter, any, all, leb, ltb, eqb, if◌then◌else◌, is_empty, is_in, dedup, ◌==◌, Dict, lookup, sort,
  text_leb, length,
}
use infer_stack.Hardware.{has, sorted_set}

pub record Container : Type 0 where
  pub container_id : String
  pub deployment_id : String
  pub state : String
  pub gpus : List ℕ
  pub all_gpus : Bool
  pub service : String
  pub fingerprint : String
  pub labelled : Bool
  pub ips : List String
  pub health : String
  pub restart_count : ℕ
  pub exit_code : Option ℕ
  pub restart_policy : String
  pub restart_max : ℕ
  pub reason : String
  pub message : String
  pub started : String
  pub ports : String

-- WARM_STATES
abbrev pub warm_states : List String
warm_states = "running" ∷ "restarting" ∷ "paused" ∷ []

unfoldable pub is_warm : Container → Bool
is_warm c = is_in c.state warm_states

unfoldable pub occupies : Container → ℕ → Bool
occupies c gpu = c.all_gpus || has c.gpus gpu

unfoldable pub will_be_restarted : Container → Bool
unfolding is_warm
will_be_restarted c =
    if is_warm c
    then true
    else if c.restart_policy == "always" || c.restart_policy == "unless-stopped"
    then true
    else if c.restart_policy == "on-failure"
    then eqb c.restart_max 0 || ltb c.restart_count c.restart_max
    else false

pub record Residency : Type 0 where
  pub by_deployment : Dict (List Container)
  pub others : List Container
  pub replicated : Bool

unfoldable pub units : Residency → String → List Container
units r id = elim (lookup id r.by_deployment) [ none ↦ [] | some cs ↦ cs ]

unfoldable pub warm_units : Residency → String → List Container
unfolding units is_warm
warm_units r id = filter is_warm (units r id)

unfoldable pub is_conflicted : Residency → String → Bool
unfolding units
is_conflicted r id = not r.replicated && ltb 1 (length (units r id))

unfoldable pub is_resident : Residency → String → Bool
unfolding is_conflicted warm_units
is_resident r id = not (is_conflicted r id) && not (is_empty (warm_units r id))

abbrev pub only_warm : List Container → Option Container
only_warm (c ∷ []) = if is_warm c then some c else none
only_warm _ = none

-- The one warm unit: none for several, whatever their number means.
unfoldable pub unique_unit : Residency → String → Option Container
unfolding units is_warm
unique_unit r id = only_warm (units r id)

abbrev pub gpus_of : List Container → List ℕ
gpus_of [] = []
gpus_of (c ∷ cs) = c.gpus ++ gpus_of cs

-- The physical GPUs of a resident deployment; none if they are not known.
unfoldable pub resident_gpus : Residency → String → Option (List ℕ)
unfolding is_resident warm_units sorted_set
resident_gpus r id =
    if not (is_resident r id)
    then none
    else if any (λ (c : Container). c.all_gpus) (warm_units r id)
    then none
    else some (sorted_set (gpus_of (warm_units r id)))

abbrev pub groups : Dict (List Container) → List Container
groups [] = []
groups ((id, cs) ∷ d) = cs ++ groups d

unfoldable pub all_containers : Residency → List Container
all_containers r = groups r.by_deployment ++ r.others

unfoldable pub occupants : Residency → ℕ → List Container
unfolding all_containers occupies
occupants r gpu = filter (λ c. occupies c gpu) (all_containers r)

pub data Health : Type 0 where
  up starting restarting conflicted : Health
  -- The distinct states of the units, sorted.
  states : List String → Health

abbrev pub is_up : Container → Bool
is_up c = c.state == "running" && not (is_in c.health ("starting" ∷ "unhealthy" ∷ []))

abbrev is_starting : Container → Bool
is_starting c = c.state == "created" || (c.state == "running" && c.health == "starting")

unfoldable pub deployment_health : Residency → String → Option Health
unfolding units is_conflicted warm_units
deployment_health r id =
    let us = units r id in
    if is_empty us
    then none
    else if is_conflicted r id
    then some conflicted
    else if any is_up us
    then some up
    else if any is_starting us
    then some starting
    else if not (is_empty (warm_units r id))
        && all (λ (c : Container). c.state == "restarting") (warm_units r id)
    then some restarting
    else some (states (sort text_leb (dedup (map (λ (c : Container). c.state) us))))
