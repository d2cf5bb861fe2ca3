-- ===== src/Models.antt =====
-- infer_stack/leasing/models.py: the records of the lease ledger.
-- A time is a natural number of clock ticks. An engine's JSON payloads (`structural`, the values of
-- `served`) are opaque texts; of `spec` the keys that the modelled code reads are fields.
pub mod Capacity
use infer_stack.Base.{
  ℕ, String, Bool, true, false, ◌&&◌, Option, none, some, List, [], ◌∷◌, ltb, ◌==◌, if◌then◌else◌,
  Dict, lookup, keys, sort, text_leb, max,
}

pub data LeaseState : Type 0 where
  active expired released : LeaseState

pub data DeploymentState : Type 0 where
  live idle reclaiming stopped : DeploymentState

pub data Sharing : Type 0 where
  shared dedicated : Sharing

-- `a == b` on the state constants.
abbrev pub is_active : LeaseState → Bool
is_active LeaseState.active = true
is_active _ = false

abbrev pub is_live : DeploymentState → Bool
is_live DeploymentState.live = true
is_live _ = false

abbrev pub is_idle : DeploymentState → Bool
is_idle DeploymentState.idle = true
is_idle _ = false

abbrev pub is_shared : Sharing → Bool
is_shared Sharing.shared = true
is_shared _ = false

abbrev pub reserved_engine : String
reserved_engine = "reserved"

abbrev pub reserved_endpoint : String
reserved_endpoint = "reserved-gpu"

-- `spec['runtime']`; a missing size is `none`, a missing list is empty.
pub record Runtime : Type 0 where
  pub simulator : Bool
  pub cpu_only : Bool
  pub tensor_parallel_size : Option ℕ
  pub pipeline_parallel_size : Option ℕ
  pub data_parallel_size : Option ℕ
  pub gpu_indices : List ℕ

-- `spec['placement']`; memory in a fixed unit.
pub record Placement : Type 0 where
  pub gpu_indices : List ℕ
  pub min_vram_gib : Option ℕ
  pub floor_vram_gib : Option ℕ
  pub is_measured : Bool

pub record Spec : Type 0 where
  pub engine : Option String
  pub served_model_name : Option String
  pub reserved_gpu_count : Option ℕ
  pub reclaim : Option String
  pub gpu_indices : List ℕ
  pub runtime : Runtime
  pub placement : Placement

abbrev pub no_runtime : Runtime
no_runtime = record {
  simulator = false;
  cpu_only = false;
  tensor_parallel_size = none;
  pipeline_parallel_size = none;
  data_parallel_size = none;
  gpu_indices = [];
}

abbrev pub no_placement : Placement
no_placement = record {
  gpu_indices = [];
  min_vram_gib = none;
  floor_vram_gib = none;
  is_measured = false;
}

abbrev pub no_spec : Spec
no_spec = record {
  engine = none;
  served_model_name = none;
  reserved_gpu_count = none;
  reclaim = none;
  gpu_indices = [];
  runtime = no_runtime;
  placement = no_placement;
}

pub record EndpointRequest : Type 0 where
  pub endpoint : String
  pub engine : String
  pub structural : String
  pub capacity : Dict ℕ
  pub sharing : Sharing
  pub spec : Spec
  pub served : String
  pub host : Option String

pub record Lease : Type 0 where
  pub id : String
  pub owner : String
  pub state : LeaseState
  pub created_at : ℕ
  pub ttl_seconds : Option ℕ
  pub expires_at : Option ℕ
  pub heartbeat_at : ℕ
  pub endpoints : List String
  pub deployment_ids : List String

-- `self.expires_at is None or self.expires_at > now`
abbrev pub unexpired : Option ℕ → ℕ → Bool
unexpired none now = true
unexpired (some t) now = ltb now t

unfoldable pub is_protecting : Lease → ℕ → Bool
is_protecting l now = is_active l.state && unexpired l.expires_at now

pub record Deployment : Type 0 where
  pub id : String
  pub compat_key : String
  pub engine : String
  pub sharing : Sharing
  pub capacity : Dict ℕ
  pub spec : Spec
  pub served : Dict String
  pub state : DeploymentState
  pub created_at : ℕ
  pub updated_at : ℕ
  pub demand : ℕ
  pub assigned_gpus : Option (List ℕ)

-- A running deployment whose GPUs are not committed.
abbrev pub lacks_allocation : Deployment → Bool
lacks_allocation g = is_live g.state && (elim g.assigned_gpus [ none ↦ true | some gpus ↦ false ])

abbrev first_or : String → List String → String
first_or id [] = id
first_or id (alias ∷ rest) = alias

-- The name that the engine serves under: the spec's, else the first alias, else the id.
unfoldable pub served_name : Deployment → String
served_name g = elim g.spec.served_model_name [
  | some name ↦ if name == "" then first_or g.id (sort text_leb (keys g.served)) else name
  | none ↦ first_or g.id (sort text_leb (keys g.served))
]

-- Of a request or a deployment, by its engine.
unfoldable pub is_reservation : String → Bool
is_reservation engine = engine == reserved_engine

-- Every capacity that is asked for is there, and at least as large.
unfoldable pub capacity_satisfies : Dict ℕ → Dict ℕ → Bool
capacity_satisfies existing [] = true
capacity_satisfies existing ((key, need) ∷ rest) = elim (lookup key existing) [
  | none ↦ false
  | some have ↦ if ltb have need then false else capacity_satisfies existing rest
]

-- A reservation of `count` GPUs, which serves nothing. `structural` is the payload that is hashed.
unfoldable pub reservation_request : (ℕ → String) → ℕ → String → EndpointRequest
reservation_request structural count endpoint = record {
  endpoint = endpoint;
  engine = reserved_engine;
  structural = structural (max 1 count);
  capacity = [];
  sharing = Sharing.dedicated;
  spec = record no_spec {
    engine = some reserved_engine;
    reserved_gpu_count = some (max 1 count);
    reclaim = some "reclaim";
  };
  served = "{}";
  host = none;
}
