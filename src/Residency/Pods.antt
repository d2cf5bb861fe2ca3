-- ===== src/Residency/Pods.antt =====
-- `residency_from_pods`: a snapshot from `kubectl get pods -o json`.
pub mod Snapshot
use infer_stack.Base.{
  ℕ, String, Bool, true, false, not, ◌&&◌, Option, none, some, List, [], ◌∷◌, if◌then◌else◌,
  is_empty, any, find, ◌==◌,
}
use infer_stack.Residency.{Container, Residency}
use infer_stack.Residency.Inspect.{add_unit, no_residency}

pub record Terminated : Type 0 where
  pub exit_code : Option ℕ
  pub reason : String

-- One of `containerStatuses`; a missing text is empty. `running` is the start time.
pub record ContainerStatus : Type 0 where
  pub running : Option String
  pub waiting_reason : String
  pub terminated : Option Terminated
  pub last_terminated : Option Terminated
  pub restart_count : ℕ

pub record Condition : Type 0 where
  pub kind : String
  pub status : String
  pub reason : String
  pub message : String

pub record Pod : Type 0 where
  pub name : String
  pub deployment_label : String
  pub managed_label : String
  pub model_label : String
  pub is_deleting : Bool
  pub statuses : List ContainerStatus
  pub conditions : List Condition
  pub start_time : String

abbrev pub no_status : ContainerStatus
no_status = record {
  running = none;
  waiting_reason = "";
  terminated = none;
  last_terminated = none;
  restart_count = 0;
}

abbrev pub first_status : List ContainerStatus → ContainerStatus
first_status [] = no_status
first_status (s ∷ ss) = s

abbrev is_given {ℓ} : {A : Type ℓ} → Option A → Bool
is_given none = false
is_given (some _) = true

unfoldable pub pod_state : Bool → ContainerStatus → String
pod_state is_deleting s =
    if is_deleting
    then "removing"
    else if is_given s.running
    then "running"
    else if s.waiting_reason == "CrashLoopBackOff"
    then "restarting"
    else if is_given s.terminated
    then "exited"
    else "created"

abbrev no_end : Terminated
no_end = record { exit_code = none; reason = "" }

abbrev ended : ContainerStatus → Terminated
ended s = elim s.terminated [
  | some t ↦ t
  | none ↦ elim s.last_terminated [ none ↦ no_end | some t ↦ t ]
]

abbrev no_condition : Condition
no_condition = record { kind = ""; status = ""; reason = ""; message = "" }

-- Why a pod that has not started has not: its first failed condition that gives a reason.
abbrev failed : List Condition → Condition
failed cs = elim (find (λ (c : Condition). c.status == "False" && not (c.reason == "")) cs) [
  | none ↦ no_condition
  | some c ↦ c
]

abbrev unstarted : Pod → Bool
unstarted p = (first_status p.statuses).waiting_reason == "" && is_empty p.statuses

abbrev waiting : Pod → String
waiting p =
    if unstarted p then (failed p.conditions).reason else (first_status p.statuses).waiting_reason

abbrev pub is_ready : List Condition → Bool
is_ready = any λ (c : Condition). c.kind == "Ready" && c.status == "True"

abbrev started_at : Pod → String
started_at p = elim (first_status p.statuses).running [
  | none ↦ p.start_time
  | some t ↦ if t == "" then p.start_time else t
]

abbrev pub pod_container : Pod → Container
pod_container p =
    let s = first_status p.statuses in
    let state = pod_state p.is_deleting s in
    record {
      container_id = p.name;
      deployment_id = p.deployment_label;
      state = state;
      gpus = [];
      all_gpus = false;
      service = p.model_label;
      fingerprint = "";
      labelled = p.managed_label == "true";
      ips = [];
      health =
          if is_ready p.conditions
          then "healthy"
          else if state == "running"
          then "starting"
          else "";
      restart_count = s.restart_count;
      exit_code = (ended s).exit_code;
      restart_policy = "always";
      restart_max = 0;
      reason = if waiting p == "" then (ended s).reason else waiting p;
      message = if unstarted p then (failed p.conditions).message else "";
      started = started_at p;
      ports = "";
    }

unfoldable pub collect_pods : List Pod → Residency → Residency
unfolding pod_state
collect_pods [] r = r
collect_pods (p ∷ ps) r = collect_pods ps (add_unit (pod_container p) r)

-- The items are `none` when the output is no pod list.
unfoldable pub residency_from_pods : Option (List Pod) → Option Residency
unfolding collect_pods
residency_from_pods none = none
residency_from_pods (some ps) = some (collect_pods ps (no_residency true))
