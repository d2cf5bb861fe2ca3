-- ===== src/Ledger/Status.antt =====
-- `Ledger.status`: what a read-only view shows, with TTL expiry that is not written yet.
use infer_stack.Base.{ℕ, Bool, true, false, not, ◌&&◌, List, map, eqb, if◌then◌else◌}
use infer_stack.Models.{
  LeaseState, DeploymentState, Lease, Deployment, is_active, is_live, is_protecting,
}
use infer_stack.Store.{Store, list_leases, list_deployments}

abbrev pub lapsed : ℕ → Lease → Lease
lapsed now l =
    if is_active l.state && not (is_protecting l now)
    then record l { state = LeaseState.expired }
    else l

abbrev pub undemanded : Deployment → Deployment
undemanded g =
    if is_live g.state && eqb g.demand 0 then record g { state = DeploymentState.idle } else g

unfoldable pub status : Bool → ℕ → Store → List Lease × List Deployment
status true now s = (map (lapsed now) (list_leases s), map undemanded (list_deployments s now))
status false now s = (list_leases s, list_deployments s now)
