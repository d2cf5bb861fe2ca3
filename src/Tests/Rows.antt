-- ===== src/Tests/Rows.antt =====
-- A small ledger: a running deployment with two holders, and an idle one.
use infer_stack.Base.{ℕ, String, true, false, none, some, [], ◌∷◌, ◌==◌, if◌then◌else◌}
use infer_stack.Models.{LeaseState, DeploymentState, Sharing, Deployment, EndpointRequest, no_spec}
use infer_stack.Store.{Store, LeaseRow, Claim, ClaimKind, Marker, empty_meta}
use infer_stack.Ledger.{Ids}

abbrev pub ids : Ids
ids = record { digest = λ engine structural. structural; id_factory = make }
  where
    make : String → ℕ → String
    make prefix n = if prefix == "lease" then "lease-new" else "grp-new"

abbrev pub alice : LeaseRow
alice = record {
  id = "a";
  owner = "alice";
  state = LeaseState.active;
  created_at = 1;
  ttl_seconds = none;
  expires_at = none;
  heartbeat_at = 1;
}

abbrev pub bob : LeaseRow
bob = record {
  id = "b";
  owner = "bob";
  state = LeaseState.active;
  created_at = 2;
  ttl_seconds = some 10;
  expires_at = some 12;
  heartbeat_at = 2;
}

abbrev pub deployment : String → DeploymentState → ℕ → Deployment
deployment id state created_at = record {
  id = id;
  compat_key = "key";
  engine = "vllm";
  sharing = Sharing.shared;
  capacity = ("max_model_len", 8) ∷ [];
  spec = no_spec;
  served = ("chat", "{}") ∷ [];
  state = state;
  created_at = created_at;
  updated_at = created_at;
  demand = 0;
  assigned_gpus = some (0 ∷ []);
}

abbrev pub claim : String → String → Claim
claim lease_id deployment_id = record {
  lease_id = lease_id;
  endpoint = "chat";
  deployment_id = deployment_id;
  kind = ClaimKind.endpoint_claim;
}

abbrev pub marker : Marker
marker = record {
  version = 3;
  apply_requested = true;
  interrupted = false;
  placement_context = none;
  approved_digest = some "d1";
}

-- "x" is held by bob alone, "y" by nobody.
abbrev pub ledger : Store
ledger = record {
  leases = alice ∷ bob ∷ [];
  deployments = deployment "x" DeploymentState.live 1 ∷ deployment "y" DeploymentState.idle 2 ∷ [];
  claims = claim "b" "x" ∷ [];
  service_addresses = ("svc", "10.0.0.2") ∷ [];
  meta = record empty_meta { profile = some "p0"; publication_pending = some marker };
}

abbrev pub request : EndpointRequest
request = record {
  endpoint = "chat";
  engine = "vllm";
  structural = "key";
  capacity = ("max_model_len", 4) ∷ [];
  sharing = Sharing.shared;
  spec = no_spec;
  served = "{}";
  host = none;
}
