-- ===== src/Store/Prune.antt =====
-- `SqliteStore.prune`: terminal leases and deployments are deleted, and their claims first.
pub mod Exact
use infer_stack.Base.{
  ℕ, ◌-◌, String, Bool, true, false, not, ◌&&◌, Option, none, some, List, length, filter, any, ◌==◌,
}
use infer_stack.Models.{LeaseState, DeploymentState, Deployment}
use infer_stack.Store.{Store, LeaseRow, Claim, select_lease, select_deployment}
use infer_stack.Result.{Result, ok, err, integrity, ◌>>=◌}

-- DELETE FROM claims WHERE lease_id IN (SELECT id FROM leases WHERE state IN (…))
unfoldable pub delete_claims_of_leases : (LeaseState → Bool) → Store → Store
delete_claims_of_leases gone s = record s {
  claims = filter (λ c. not (any (λ l. l.id == c.lease_id && gone l.state) s.leases)) s.claims;
}

unfoldable pub delete_claims_of_deployments : (DeploymentState → Bool) → Store → Store
delete_claims_of_deployments gone s = record s {
  claims =
      filter (λ c. not (any (λ g. g.id == c.deployment_id && gone g.state) s.deployments)) s.claims;
}

-- DELETE FROM leases: a deleted lease takes its claims with it (ON DELETE CASCADE).
unfoldable pub delete_leases : (LeaseState → Bool) → Store → Store
delete_leases gone s = record s {
  leases = filter (λ l. not (gone l.state)) s.leases;
  claims = filter (λ c. not (any (λ l. l.id == c.lease_id && gone l.state) s.leases)) s.claims;
}

-- DELETE FROM deployments: refused while a claim refers to a deleted row.
unfoldable pub delete_deployments : (DeploymentState → Bool) → Store → Result Store
delete_deployments gone s =
    elim (any (λ g. gone g.state && any (λ c. c.deployment_id == g.id) s.claims) s.deployments) [
      | true ↦ err integrity
      | false ↦ ok (record s { deployments = filter (λ g. not (gone g.state)) s.deployments })
    ]

-- The store after, and how many leases and deployments went. Each test is a non-empty list of states
-- in the source; a test that never holds is the empty list.
unfoldable pub prune :
    (LeaseState → Bool) → (DeploymentState → Bool) → Store → Result (Store × ℕ × ℕ)
unfolding delete_claims_of_leases delete_claims_of_deployments delete_leases delete_deployments
prune lease_gone deployment_gone s = do
  let t = delete_claims_of_deployments deployment_gone (delete_claims_of_leases lease_gone s)
  let u = delete_leases lease_gone t
  v ← delete_deployments deployment_gone u
  ok (v, length t.leases - length u.leases, length u.deployments - length v.deployments)
