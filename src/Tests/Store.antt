-- ===== src/Tests/Store.antt =====
-- The store's operations.
use infer_stack.Base.{
  some, if◌then◌else◌, ◌&&◌, ◌-◌, ◌≡◌, refl, true, false, none, List, [], ◌∷◌, String, lookup, any,
  filter, length, not,
}
use infer_stack.Result.{ok}
use infer_stack.Store.{Store}
use infer_stack.Store.Publication.{clear_publication_pending}
use infer_stack.Store.Publication.Marks.{
  Write, marks, approves, write_all, is_mark, is_pending, with_pending, clear-write_all,
}
use infer_stack.Store.Addresses.{add_service_addresses, add_rows, insert_address}
use infer_stack.Store.Addresses.AppendOnly.{Grown, add_service_addresses-append_only}
use infer_stack.Store.Prune.{prune}
use infer_stack.Store.Prune.Exact.{pruned, prune_ok}
use infer_stack.Tests.Rows.{ledger}

abbrev table : List (String × String)
table = ("svc", "10.0.0.2") ∷ ("other", "10.0.0.3") ∷ []

abbrev extended : Store
extended = record ledger { service_addresses = table }

add_service_addresses-append_only_example :
    Grown ledger.service_addresses table × (extended ≡ record ledger { service_addresses = table })
unfolding add_service_addresses add_rows insert_address lookup any
add_service_addresses-append_only_example =
    add_service_addresses-append_only table ledger extended (refl, tt) refl

prune_ok_example :
    prune (λ st. false) (λ st. true) ledger
    ≡ ok (
      pruned (λ st. false) (λ st. true) ledger,
      length ledger.leases - length (filter (λ l. not false) ledger.leases),
      length ledger.deployments - length (filter (λ g. not true) ledger.deployments),
    )
prune_ok_example = prune_ok (λ st. false) (λ st. true) ledger

-- One mark, and an approval before it.
abbrev writes : List Write
writes = approves (some "d2") ∷ marks true false none none none ∷ []

clear-write_all_example : clear_publication_pending 3 (write_all writes ledger) ≡ (
    if not (any is_mark writes) && is_pending ledger
    then (with_pending none (write_all writes ledger), true)
    else (write_all writes ledger, false))
clear-write_all_example = clear-write_all writes ledger
