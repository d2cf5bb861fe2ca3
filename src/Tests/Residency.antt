-- ===== src/Tests/Residency.antt =====
-- Snapshots of containers.
use infer_stack.Base.{
  ◌≡◌, refl, String, true, false, not, ◌&&◌, none, List, [], ◌∷◌, any, all, lookup, insert, sort,
  ◌==◌,
}
use infer_stack.Hardware.{has}
use infer_stack.Residency.{
  Container, Residency, units, all_containers, is_warm, is_conflicted, is_resident, unique_unit,
  resident_gpus,
}
use infer_stack.Residency.Inspect.{
  Item, object, index, request, requests, DeviceRequest, gpus_from_device_requests,
  residency_from_inspect,
}
use infer_stack.Residency.Inspect.Devices.{is_mappable, names_gpu, gpus_from_device_requests_lem}
use infer_stack.Residency.Inspect.Snapshot.{passes, residency_from_inspect-any}
use infer_stack.Residency.Units.{is_conflicted_lem}
use infer_stack.Residency.{deployment_health, is_up}
use infer_stack.Residency.Serving.{says_up, says_conflicted, says_restarting, deployment_health_lem}
use infer_stack.Residency.Pods.{Pod, no_status, pod_container, residency_from_pods}
use infer_stack.Residency.Pods.Snapshot.{residency_from_pods-any}
use infer_stack.Base.{holds, some}

abbrev device_requests : List DeviceRequest
device_requests = request (index 1 ∷ index 0 ∷ []) false ∷ []

abbrev item : Item
item = record {
  project = "stack";
  deployment = "x";
  id = "c1";
  status = "running";
  device_requests = requests device_requests;
  service_label = "svc";
  compose_service_label = "";
  fingerprint_label = "f";
  health = "healthy";
  restart_count = 0;
  restart_policy = "no";
  restart_max = 0;
  exit_code = none;
  started = "";
  ports = "";
  ips = [];
}

abbrev same : String → String
same s = s

abbrev container : Container
container = record {
  container_id = "c1";
  deployment_id = "x";
  state = "running";
  gpus = 0 ∷ 1 ∷ [];
  all_gpus = false;
  service = "svc";
  fingerprint = "f";
  labelled = true;
  ips = [];
  health = "healthy";
  restart_count = 0;
  exit_code = none;
  restart_policy = "no";
  restart_max = 0;
  reason = "";
  message = "";
  started = "";
  ports = "";
}

abbrev one : Residency
one = record { by_deployment = ("x", container ∷ []) ∷ []; others = []; replicated = false }

abbrev two : Residency
two = record {
  by_deployment = ("x", container ∷ container ∷ []) ∷ [];
  others = [];
  replicated = false;
}

gpus_from_device_requests_lem_example :
    ((gpus_from_device_requests (requests device_requests)).1
      ≡ not (all is_mappable device_requests))
    × (all is_mappable device_requests ≡ true
        → has (gpus_from_device_requests (requests device_requests)).0 1
          ≡ any (names_gpu 1) device_requests)
gpus_from_device_requests_lem_example = gpus_from_device_requests_lem device_requests 1

residency_from_inspect-any_example :
    (any is_warm (all_containers one) ≡ any (passes same "stack" is_warm) (object item ∷ []))
    × (any is_warm (units one "x")
        ≡ any (passes same "stack" (λ c. c.deployment_id == "x" && is_warm c)) (object item ∷ []))
unfolding residency_from_inspect lookup insert sort
residency_from_inspect-any_example =
    residency_from_inspect-any same "stack" is_warm (object item ∷ []) one "x" refl refl

is_conflicted_lem_example :
    (two.replicated ≡ false)
    × (is_resident two "x" ≡ false)
    × (unique_unit two "x" ≡ none)
    × (resident_gpus two "x" ≡ none)
unfolding is_conflicted units lookup
is_conflicted_lem_example = is_conflicted_lem two "x" refl

deployment_health_lem_example :
    (holds (λ h. true) (deployment_health one "x") ≡ true)
    × (holds says_conflicted (deployment_health one "x") ≡ is_conflicted one "x")
    × (holds says_up (deployment_health one "x")
        ≡ (not (is_conflicted one "x") && any is_up (units one "x")))
    × (holds says_up (deployment_health one "x") ≡ true → is_resident one "x" ≡ true)
    × (holds says_restarting (deployment_health one "x") ≡ true
        → (is_resident one "x" ≡ true) × (any is_up (units one "x") ≡ false))
unfolding units lookup
deployment_health_lem_example = deployment_health_lem one "x"

abbrev crashing : Pod
crashing = record {
  name = "p1";
  is_deleting = false;
  deployment_label = "x";
  model_label = "m";
  managed_label = "true";
  statuses = record no_status { waiting_reason = "CrashLoopBackOff"; restart_count = 3 } ∷ [];
  conditions = [];
  start_time = "";
}

residency_from_pods-any_example :
    (t : Residency) × (residency_from_pods (some (crashing ∷ [])) ≡ some t)
    × (any is_warm (all_containers t) ≡ any (λ p. is_warm (pod_container p)) (crashing ∷ []))
    × (any is_warm (units t "x")
        ≡ any (λ p. p.deployment_label == "x" && is_warm (pod_container p)) (crashing ∷ []))
    × (is_conflicted t "x" ≡ false)
residency_from_pods-any_example = residency_from_pods-any is_warm (crashing ∷ []) "x" refl
