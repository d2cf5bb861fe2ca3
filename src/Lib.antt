-- ===== src/Lib.antt =====
-- infer_stack runs language-model endpoints on shared GPU hosts. Clients take leases on endpoints;
-- a ledger in SQLite coalesces compatible requests onto deployments, a placement planner assigns
-- GPUs to the deployments in demand, and a view of the running containers tells what is really
-- there. A controller admits, publishes and takes back the leases. This library models that core
-- and proves what makes it correct.
--
-- The parts and their files:
--
-- Models (infer_stack/leasing/models.py): leases, deployments, endpoint requests, and the order on
-- capacities (`capacity_satisfies`). Models/Capacity has its laws.
--
-- Store (infer_stack/leasing/store.py): the tables of `SqliteStore` as lists of rows in insertion
-- order, and one function for each row operation. Store/Publication is the publication marker,
-- Store/Prune the deletion of terminal rows, Store/Epoch the change of backend, Store/Addresses
-- the append-only address table. Store/Keys has the schema's keys, Store/Demand what the demand
-- count means, and the children of each part its theorems.
--
-- Ledger (infer_stack/leasing/ledger.py): Ledger/Plan is `plan_acquire`, Ledger/Acquire is
-- `acquire`, Ledger/Upkeep has `release`, `renew`, `renew_if_live`, `sweep`, `evict_idle` and
-- `prune`, Ledger/Status the read-only view, Ledger/Setters the setters of one value. Ledger/Held
-- has the invariant that ties a deployment's state to the leases that claim it, Ledger/Keys the
-- schema's keys through every operation, Ledger/Expiry the agreement of the view with the sweep,
-- Ledger/Plan/View the loop invariant of the plan and Ledger/Plan/Choice its choice.
--
-- Hardware and Placement (infer_stack/hardware.py, infer_stack/leasing/placement.py):
-- Placement/Plan has the passes of `plan_placement` in the order of the source: hard allocations,
-- pins, explicit indices, fitting, optional residents. Placement/Passes is the rule by which an
-- invariant of one assignment becomes one of the plan.
--
-- Residency (infer_stack/leasing/residency.py): the snapshot of containers, its parsers
-- (Residency/Inspect for docker, Residency/Pods for kubernetes), and what is asked of it.
--
-- Routes (infer_stack/leasing/routes.py): the gateway's route table and the plans of a seed and a
-- prune.
--
-- Controller (infer_stack/leasing/controller.py): what `Controller` reads of the ledger and the
-- runtime for a decision. Controller/Admit is `_admit`, Controller/Publish is `_mark_pending`,
-- `_apply_pending` and the wait for a settled runtime, Controller/Render is `_render` and
-- `_publish`, Controller/Calls has `release`, `release_leases`, `evict`, `gc`, `reconcile`,
-- `renew` and `_make_room`, Controller/Acquire is one attempt of `_acquire_by_admission` with its
-- roll back, Controller/Ready is `wait_ready`, Controller/Queue the whole `acquire` with its queue
-- and its wait. Controller/Desired has what the desired state keeps of the ledger,
-- Controller/Sound the calls as steps of System, and the children of each part its theorems.
-- `ApplyResult` and `RenderPreview` are from infer_stack/leasing/backend.py.
--
-- Compose (infer_stack/leasing/compose.py): the memory facts that the Compose backend attaches to
-- a deployment, how it calls the planner, and its preview. The source attaches the facts to the
-- object that it is given; that an admission's commit inserts this same object is not modelled, so
-- a created deployment is stored with the spec of its request.
--
-- Network (infer_stack/leasing/network.py): the allocation of stable addresses in a subnet, whose
-- table the store keeps, and the verdict on an upstream.
--
-- System: the successful operations on a ledger as steps from state to state, and what holds of
-- every state they lead to. Base, Result and Tests are the shared helpers, the results of calls
-- that may raise, and concrete runs.
--
-- How the code is read: a call's clock reading is its argument `now`, a natural number of ticks;
-- memory is a natural number of a fixed unit, and a requirement is a fraction (`Need`) compared by
-- multiplication, so nothing is rounded. A call that may raise returns a `Result`; a transaction
-- is a chain of them, whose error drops its writes as ROLLBACK does. JSON payloads that the code
-- only compares are opaque texts. Message texts of errors and warnings are data. SQL without ORDER
-- BY returns rows in insertion order, and ties of ORDER BY keep it. A loop of the source over a
-- list is recursion on that list. Three loops run until a deadline and take fuel: the wait for a
-- settled runtime has 31 rounds, one for each interval of 2 seconds in its 60 seconds and the
-- first; the queue and the readiness wait of an acquire are given their numbers of rounds, of
-- which one for each interval that the deadline leaves and one more are enough for a clock that
-- moves on by the interval. The search for a free address runs over the hosts of the subnet, as
-- the source does.
--
-- From outside come: the digest of a compatibility key and the id factory (`Ids`), `str.lower`,
-- the hash of a reservation's payload, the residency hint of a plan, and the decoding of JSON.
-- What the runtime, the backend and the operator answer during a call of the controller is a
-- record of answers (`Round` for a render with its apply, `World` for an attempt to acquire); the
-- backend's preview and what a render refuses are functions. They are all arguments. A call of the
-- controller holds the global lock, so it is one function from state to state, and one reading of
-- the clock serves its ledger operations.
--
-- Not modelled: connections, locks, migration and backup of SQLite; of the controller, the profile
-- and its catalog (a profile is an opaque text that a commit stores), the commits of routes,
-- `access`, `apply_now`, `publish_endpoints` and `observe_state`, the first network configuration
-- (`_prepare_network`), network migration, the rotation of a key and the removal of orphans; the
-- catalog, the rendering and the I/O of the compose, gateway and Kubernetes backends, the command
-- line and the TUI, which do I/O around this core; running nvidia-smi; the mock server and the
-- experiments.
pub mod Base
pub mod Result
pub mod Models
pub mod Store
pub mod Ledger
pub mod Hardware
pub mod Placement
pub mod Residency
pub mod Routes
pub mod Controller
pub mod Compose
pub mod Network
pub mod System
mod Tests
