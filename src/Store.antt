-- ===== src/Store.antt =====
-- infer_stack/leasing/store.py: the ledger's tables and the row operations of `SqliteStore`.
-- A table is the list of its rows in insertion order, which is also the order of `claims.id`. An
-- operation that SQLite can refuse (a primary key or foreign key that does not hold) returns a
-- `Result`; a transaction is a chain of them, and its error drops every write, as ROLLBACK does.
pub mod Publication
pub mod Prune
pub mod Epoch
pub mod Addresses
pub mod Demand
pub mod Keys
use infer_stack.Base.{
  ℕ, ◌+◌, String, Bool, true, false, ◌&&◌, ◌||◌, Option, none, some, List, [], ◌∷◌, ◌++◌, map,
  length, filter, any, dedup, leb, ltb, ◌==◌, if◌then◌else◌, Dict, select, update, sort,
}
use infer_stack.Models.{
  LeaseState, DeploymentState, Sharing, Lease, Deployment, is_active, is_live, is_idle, is_shared,
  unexpired,
}
use infer_stack.Result.{Result, ok, err, integrity, ◌>>=◌}

pub record LeaseRow : Type 0 where
  pub id : String
  pub owner : String
  pub state : LeaseState
  pub created_at : ℕ
  pub ttl_seconds : Option ℕ
  pub expires_at : Option ℕ
  pub heartbeat_at : ℕ

pub data ClaimKind : Type 0 where
  endpoint_claim reserved_gpu : ClaimKind

pub record Claim : Type 0 where
  pub lease_id : String
  pub endpoint : String
  pub deployment_id : String
  pub kind : ClaimKind

-- The publication marker: a desired state that is not fully applied.
pub record Marker : Type 0 where
  pub version : ℕ
  pub apply_requested : Bool
  pub interrupted : Bool
  pub placement_context : Option String
  pub approved_digest : Option String

-- The `meta` table; a counter that has no row yet is 0. Profiles and contexts are JSON texts.
pub record Meta : Type 0 where
  pub desired_gen : ℕ
  pub applied_gen : ℕ
  pub admission_state_version : ℕ
  pub profile : Option String
  pub publication_pending : Option Marker
  pub network_config : Option String
  pub adopted_containers : Option String
  pub ledger_archives : List String

pub record Store : Type 0 where
  pub leases : List LeaseRow
  pub deployments : List Deployment
  pub claims : List Claim
  pub service_addresses : Dict String
  pub meta : Meta

abbrev pub empty_meta : Meta
empty_meta = record {
  desired_gen = 0;
  applied_gen = 0;
  admission_state_version = 0;
  profile = none;
  publication_pending = none;
  network_config = none;
  adopted_containers = none;
  ledger_archives = [];
}

abbrev pub empty_store : Store
empty_store = record {
  leases = [];
  deployments = [];
  claims = [];
  service_addresses = [];
  meta = empty_meta;
}

abbrev pub lease_key : LeaseRow → String
lease_key l = l.id

abbrev pub deployment_key : Deployment → String
deployment_key g = g.id

abbrev pub select_lease : Store → String → Option LeaseRow
select_lease s id = select lease_key id s.leases

abbrev pub select_deployment : Store → String → Option Deployment
select_deployment s id = select deployment_key id s.deployments

-- Leases.

unfoldable pub insert_lease : LeaseRow → Store → Result Store
insert_lease l s = elim (select_lease s l.id) [
  | none ↦ ok (record s { leases = s.leases ++ (l ∷ []) })
  | some _ ↦ err integrity
]

unfoldable pub set_lease_state : String → LeaseState → Store → Store
set_lease_state id state s = record s {
  leases = update lease_key id (λ l. record l { state = state }) s.leases;
}

unfoldable pub renew_lease : String → Option ℕ → Option ℕ → ℕ → Store → Store
renew_lease id ttl_seconds expires_at heartbeat_at s = record s {
  leases = update lease_key id renewed s.leases;
}
  where
    renewed : LeaseRow → LeaseRow
    renewed l = record l {
      state = LeaseState.active;
      ttl_seconds = ttl_seconds;
      expires_at = expires_at;
      heartbeat_at = heartbeat_at;
    }

unfoldable pub claims_of_lease : String → List Claim → List Claim
claims_of_lease id = filter (λ c. c.lease_id == id)

unfoldable pub row_to_lease : Store → LeaseRow → Lease
unfolding claims_of_lease
row_to_lease s l = record {
  id = l.id;
  owner = l.owner;
  state = l.state;
  created_at = l.created_at;
  ttl_seconds = l.ttl_seconds;
  expires_at = l.expires_at;
  heartbeat_at = l.heartbeat_at;
  endpoints = map (λ c. c.endpoint) (claims_of_lease l.id s.claims);
  deployment_ids = dedup (map (λ c. c.deployment_id) (claims_of_lease l.id s.claims));
}

unfoldable pub get_lease : Store → String → Option Lease
get_lease s id = elim (select_lease s id) [ none ↦ none | some l ↦ some (row_to_lease s l) ]

-- `ORDER BY created_at`.
abbrev pub by_lease_age : LeaseRow → LeaseRow → Bool
by_lease_age a b = leb a.created_at b.created_at

unfoldable pub list_leases : Store → List Lease
list_leases s = map (row_to_lease s) (sort by_lease_age s.leases)

-- ACTIVE, with a TTL that has elapsed.
abbrev pub is_due : ℕ → LeaseRow → Bool
is_due now l = is_active l.state && (elim l.expires_at [ none ↦ false | some t ↦ leb t now ])

unfoldable pub active_leases_past : Store → ℕ → List Lease
active_leases_past s now = map (row_to_lease s) (filter (is_due now) s.leases)

-- Deployments.

unfoldable pub insert_deployment : Deployment → Store → Result Store
insert_deployment g s = elim (select_deployment s g.id) [
  | none ↦ ok (record s { deployments = s.deployments ++ (g ∷ []) })
  | some _ ↦ err integrity
]

-- Leaving LIVE releases the committed allocation.
abbrev pub with_state : DeploymentState → ℕ → Deployment → Deployment
with_state state now g = record g {
  state = state;
  updated_at = now;
  assigned_gpus = if is_live state then g.assigned_gpus else none;
}

unfoldable pub set_deployment_state : String → DeploymentState → ℕ → Store → Store
set_deployment_state id state now s = record s {
  deployments = update deployment_key id (with_state state now) s.deployments;
}

unfoldable pub set_deployment_allocation : String → Option (List ℕ) → Store → Store
set_deployment_allocation id gpus s = record s {
  deployments = update deployment_key id (λ g. record g { assigned_gpus = gpus }) s.deployments;
}

unfoldable pub update_deployment_served : String → Dict String → ℕ → Store → Store
update_deployment_served id served now s = record s {
  deployments =
      update deployment_key id (λ g. record g { served = served; updated_at = now }) s.deployments;
}

-- A lease that protects what it claims: the WHERE clause of `demand`.
abbrev pub row_protects : ℕ → LeaseRow → Bool
row_protects now l = is_active l.state && unexpired l.expires_at now

abbrev pub id_protects : Store → ℕ → String → Bool
id_protects s now id = elim (select_lease s id) [ none ↦ false | some l ↦ row_protects now l ]

-- COUNT(DISTINCT c.lease_id) over the claims joined with their leases.
unfoldable pub demand : Store → String → ℕ → ℕ
demand s id now = length (
    dedup (
      map (λ c. c.lease_id)
        (filter (λ c. c.deployment_id == id && id_protects s now c.lease_id) s.claims)))

-- The `demand` of a stored row is 0 until a read computes it.
abbrev pub row_to_deployment : Deployment → Deployment
row_to_deployment g = record g { demand = 0 }

-- `now = none` leaves the demand uncomputed.
unfoldable pub get_deployment : Store → String → Option ℕ → Option Deployment
get_deployment s id now = elim (select_deployment s id) [
  | none ↦ none
  | some g ↦
      some (elim now [ none ↦ row_to_deployment g | some t ↦ record g { demand = demand s id t } ])
]

abbrev pub by_deployment_age : Deployment → Deployment → Bool
by_deployment_age a b = leb a.created_at b.created_at

-- Shared deployments with this key that are LIVE or IDLE, oldest first.
unfoldable pub deployments_by_compat : Store → String → List Deployment
deployments_by_compat s compat_key = map row_to_deployment (
    sort by_deployment_age (
      filter
        (λ g.
          g.compat_key == compat_key && is_shared g.sharing && (is_live g.state || is_idle g.state))
        s.deployments))

abbrev pub with_demand : Store → ℕ → Deployment → Deployment
with_demand s now g = record g { demand = demand s g.id now }

unfoldable pub list_deployments : Store → ℕ → List Deployment
list_deployments s now = map (with_demand s now) (sort by_deployment_age s.deployments)

unfoldable pub deployments_for_lease : Store → String → List Deployment
deployments_for_lease s lease_id = map row_to_deployment (
    filter (λ g. any (λ c. c.deployment_id == g.id && c.lease_id == lease_id) s.claims)
      s.deployments)

-- Claims: both foreign keys must hold.

unfoldable pub insert_claim : Claim → Store → Result Store
insert_claim c s = elim (select_lease s c.lease_id) [
  | none ↦ err integrity
  | some _ ↦ elim (select_deployment s c.deployment_id) [
    | none ↦ err integrity
    | some _ ↦ ok (record s { claims = s.claims ++ (c ∷ []) })
  ]
]

-- Generations.

unfoldable pub bump_admission_state_version : Store → Store
bump_admission_state_version s = record s {
  meta = record s.meta { admission_state_version = s.meta.admission_state_version + 1 };
}

unfoldable pub bump_desired_generation : Store → Store
unfolding bump_admission_state_version
bump_desired_generation s =
    bump_admission_state_version
      (record s { meta = record s.meta { desired_gen = s.meta.desired_gen + 1 } })

-- Monotonic: an older apply never lowers it.
unfoldable pub set_applied_generation : ℕ → Store → Store
set_applied_generation gen s =
    if ltb s.meta.applied_gen gen
    then record s { meta = record s.meta { applied_gen = gen } }
    else s
