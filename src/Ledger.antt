-- ===== src/Ledger.antt =====
-- infer_stack/leasing/ledger.py: the bookkeeping over the store. `plan_acquire` is in Ledger/Plan,
-- `acquire` in Ledger/Acquire, the other operations in Ledger/Upkeep and the read-only view in
-- Ledger/Status.
pub mod Plan
pub mod Acquire
pub mod Upkeep
pub mod Setters
pub mod Status
pub mod Held
pub mod Expiry
pub mod Keys
use infer_stack.Base.{ℕ, String, Option, List, Dict}
use infer_stack.Models.{EndpointRequest, Lease, Deployment}

-- What the ledger takes from outside: the digest of an engine with its structural payload
-- (`compatibility_key`, a SHA-256), and the id factory, whose n-th call has the number n.
pub record Ids : Type 0 where
  pub digest : String → String → String
  pub id_factory : String → ℕ → String

-- `EndpointRequest.compat_key`.
abbrev pub compat_key : Ids → EndpointRequest → String
compat_key ids r = ids.digest r.engine r.structural

pub record AcquireOverlay : Type 0 where
  pub now : ℕ
  pub claims : List (EndpointRequest × String)
  pub created : List Deployment
  pub revived : List String
  pub served_updates : Dict (Dict String)
  pub deployments : List Deployment
  pub state_version : ℕ
  -- The number of the next call of the id factory.
  pub next_id : ℕ

pub record AcquireResult : Type 0 where
  pub lease : Lease
  pub deployments : List Deployment
