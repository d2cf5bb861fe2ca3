-- ===== src/Residency/Inspect.antt =====
-- `_gpus_from_device_requests` and `residency_from_inspect`: a snapshot from Docker's own view. What
-- the JSON decoder returns is taken as a list of entries.
pub mod Devices
pub mod Snapshot
use infer_stack.Base.{
  ℕ, String, Bool, true, false, not, ◌&&◌, ◌||◌, Option, none, some, List, [], ◌∷◌, ◌++◌, map, eqb,
  if◌then◌else◌, is_empty, ◌==◌, Dict, lookup, insert, sort, text_leb,
}
use infer_stack.Hardware.{sorted_set}
use infer_stack.Residency.{Container, Residency}

-- An entry of `DeviceIDs`: an index, or a text that is none (a UUID, a MIG id).
pub data DeviceId : Type 0 where
  index : ℕ → DeviceId
  opaque : String → DeviceId

-- An entry of `DeviceRequests`; `has_count` says that `Count` is not 0.
pub data DeviceRequest : Type 0 where
  malformed : DeviceRequest
  request : List DeviceId → Bool → DeviceRequest

pub data DeviceRequests : Type 0 where
  absent not_a_list : DeviceRequests
  requests : List DeviceRequest → DeviceRequests

-- The indices of one request's ids; none when one of them is no index.
unfoldable pub device_indices : List DeviceId → Option (List ℕ)
device_indices [] = some []
device_indices (opaque id ∷ ids) = none
device_indices (index i ∷ ids) = elim (device_indices ids) [ none ↦ none | some is ↦ some (i ∷ is) ]

unfoldable pub request_indices : DeviceRequest → Option (List ℕ)
unfolding device_indices
request_indices malformed = none
request_indices (request [] has_count) = if has_count then none else some []
request_indices (request (id ∷ ids) has_count) = device_indices (id ∷ ids)

unfoldable pub all_indices : List DeviceRequest → Option (List ℕ)
unfolding request_indices
all_indices [] = some []
all_indices (r ∷ rs) = elim (request_indices r) [
  | none ↦ none
  | some is ↦ elim (all_indices rs) [ none ↦ none | some js ↦ some (is ++ js) ]
]

-- The indices, and whether every GPU must be taken for occupied.
unfoldable pub gpus_from_device_requests : DeviceRequests → List ℕ × Bool
unfolding all_indices sorted_set
gpus_from_device_requests absent = ([], false)
gpus_from_device_requests not_a_list = ([], true)
gpus_from_device_requests (requests rs) = elim (all_indices rs) [
  | none ↦ ([], true)
  | some is ↦ (sorted_set is, false)
]

-- The parts of an entry that are read; a missing text is empty.
pub record Item : Type 0 where
  pub project : String
  pub deployment : String
  pub id : String
  pub status : String
  pub device_requests : DeviceRequests
  pub service_label : String
  pub compose_service_label : String
  pub fingerprint_label : String
  pub health : String
  pub restart_count : ℕ
  pub restart_policy : String
  pub restart_max : ℕ
  pub exit_code : Option ℕ
  pub started : String
  pub ports : String
  pub ips : List String

pub data Entry : Type 0 where
  non_object : Entry
  object : Item → Entry

abbrev first_text : String → String → String
first_text a b = if a == "" then b else a

-- `lower` is `str.lower`, of the runtime.
abbrev pub to_container : (String → String) → Item → Container
to_container lower i = record {
  container_id = i.id;
  deployment_id = i.deployment;
  state = lower i.status;
  gpus = (gpus_from_device_requests i.device_requests).0;
  all_gpus = (gpus_from_device_requests i.device_requests).1;
  service = first_text i.service_label i.compose_service_label;
  fingerprint = i.fingerprint_label;
  labelled = not (i.service_label == "") && not (i.fingerprint_label == "");
  ips = sort text_leb i.ips;
  health = i.health;
  restart_count = i.restart_count;
  exit_code = i.exit_code;
  restart_policy = i.restart_policy;
  restart_max = i.restart_max;
  reason = "";
  message = "";
  started = i.started;
  ports = i.ports;
}

abbrev pub group_of : String → Dict (List Container) → List Container
group_of id d = elim (lookup id d) [ none ↦ [] | some cs ↦ cs ]

-- `grouped.setdefault(id, []).append(c)`, or the others.
abbrev pub add_unit : Container → Residency → Residency
add_unit c r =
    if c.deployment_id == "" then record r { others = r.others ++ (c ∷ []) } else record r {
      by_deployment =
          insert c.deployment_id (group_of c.deployment_id r.by_deployment ++ (c ∷ []))
            r.by_deployment;
    }

abbrev pub no_residency : Bool → Residency
no_residency replicated = record { by_deployment = []; others = []; replicated = replicated }

-- `none` is `ResidencyUnknown`.
unfoldable pub collect : (String → String) → String → List Entry → Residency → Option Residency
unfolding gpus_from_device_requests
collect lower project [] r = some r
collect lower project (non_object ∷ es) r = none
collect lower project (object i ∷ es) r =
    if not (i.project == project)
    then collect lower project es r
    else if i.id == "" || i.status == ""
    then none
    else collect lower project es (add_unit (to_container lower i) r)

abbrev pub by_id : Container → Container → Bool
by_id a b = text_leb a.container_id b.container_id

abbrev pub sort_groups : Dict (List Container) → Dict (List Container)
sort_groups [] = []
sort_groups ((id, cs) ∷ d) = (id, sort by_id cs) ∷ sort_groups d

abbrev pub sorted_snapshot : Residency → Residency
sorted_snapshot r = record r {
  by_deployment = sort_groups r.by_deployment;
  others = sort by_id r.others;
}

-- The decoded output is `none` when it is not a JSON array.
unfoldable pub residency_from_inspect :
    (String → String) → String → Option (List Entry) → Option Residency
unfolding collect
residency_from_inspect lower project none = none
residency_from_inspect lower project (some es) =
    elim (collect lower project es (no_residency false)) [
      | none ↦ none
      | some r ↦ some (sorted_snapshot r)
    ]
