-- ===== src/Store/Addresses.antt =====
-- `SqliteStore.add_service_addresses`: the table of stable addresses.
pub mod AppendOnly
pub mod Lookup
use infer_stack.Base.{
  ℕ, String, Bool, true, false, Option, none, some, List, [], ◌∷◌, ◌++◌, any, ◌==◌, if◌then◌else◌,
  Dict, lookup,
}
use infer_stack.Store.{Store}
use infer_stack.Result.{Result, ok, err, address_taken, integrity, ◌>>=◌}

-- The INSERT: `ipv4` is UNIQUE.
unfoldable pub insert_address : String → String → Dict String → Result (Dict String)
insert_address service ip rows =
    if any (λ row. row.1 == ip) rows then err integrity else ok (rows ++ ((service, ip) ∷ []))

-- `current` is read once, before the loop.
unfoldable pub add_rows : Dict String → Dict String → Dict String → Result (Dict String)
unfolding insert_address
add_rows current [] rows = ok rows
add_rows current ((service, ip) ∷ table) rows = elim (lookup service current) [
  | some held ↦ if held == ip then add_rows current table rows else err address_taken
  | none ↦ insert_address service ip rows >>= add_rows current table
]

unfoldable pub add_service_addresses : Dict String → Store → Result Store
unfolding add_rows
add_service_addresses table s = do
  rows ← add_rows s.service_addresses table s.service_addresses
  ok (record s { service_addresses = rows })
