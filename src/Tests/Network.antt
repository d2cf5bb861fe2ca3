-- ===== src/Tests/Network.antt =====
-- Address allocation in a subnet of two hosts besides the gateway, and the store that keeps the table.
use infer_stack.Base.{◌≡◌, refl, some, none, [], ◌∷◌, ◌++◌, String, Dict, any, lookup, insert, sort}
use infer_stack.Result.{ok}
use infer_stack.Store.{Store}
use infer_stack.Store.Addresses.{add_service_addresses, add_rows, insert_address}
use infer_stack.Store.Addresses.Lookup.{view, keep_or_add, add_service_addresses-view}
use infer_stack.Network.{Subnet, address_text, allocate, next_free_address}
use infer_stack.Network.Free.{IsNext, next_free_address-IsNext}
use infer_stack.Network.Grown.{IsNew, allocate-add_service_addresses}
use infer_stack.Network.Outcome.{Outcome, allocate-Outcome}
use infer_stack.Tests.Rows.{ledger}

-- 10.0.0.0/29: the gateway is 10.0.0.1, the hosts after it end with 10.0.0.6.
abbrev subnet : Subnet
subnet = record { network_address = 167_772_160; prefixlen = 29 }

-- 10.0.0.0/30: one host besides the gateway.
abbrev small : Subnet
small = record { network_address = 167_772_160; prefixlen = 30 }

abbrev grown : Dict String
grown = ledger.service_addresses ++ (("web", "10.0.0.3") ∷ [])

-- The lowest free host: "10.0.0.2" is taken.
finds : next_free_address subnet ledger.service_addresses ≡ some "10.0.0.3"
unfolding next_free_address any address_text
finds = refl

allocates_web : allocate subnet ledger.service_addresses ("web" ∷ "svc" ∷ []) ≡ some grown
unfolding allocate sort lookup any address_text insert
allocates_web = refl

exhausted : allocate small ledger.service_addresses ("web" ∷ []) ≡ none
unfolding allocate sort lookup any address_text
exhausted = refl

next_free_address-IsNext_example :
    IsNext subnet ledger.service_addresses (next_free_address subnet ledger.service_addresses)
next_free_address-IsNext_example = next_free_address-IsNext subnet ledger.service_addresses

allocate-add_service_addresses_example :
    (add_service_addresses grown ledger ≡ ok (record ledger { service_addresses = grown }))
    × ((new : Dict String) × (grown ≡ ledger.service_addresses ++ new)
        × IsNew ledger.service_addresses new)
unfolding any
allocate-add_service_addresses_example =
    allocate-add_service_addresses subnet ("web" ∷ "svc" ∷ []) ledger grown (refl, tt) allocates_web

allocate-Outcome_example :
    Outcome small
      ("web" ∷ [])
      ledger.service_addresses
      (allocate small ledger.service_addresses ("web" ∷ []))
allocate-Outcome_example = allocate-Outcome small ("web" ∷ []) ledger.service_addresses

abbrev offered : Dict String
offered = ("svc", "10.0.0.2") ∷ ("web", "10.0.0.3") ∷ []

abbrev joined : Store
joined = record ledger { service_addresses = grown }

adds : add_service_addresses offered ledger ≡ ok joined
unfolding add_service_addresses add_rows insert_address lookup any
adds = refl

add_service_addresses-view_example :
    view joined ≡ keep_or_add (view ledger) (λ service. lookup service offered)
add_service_addresses-view_example = add_service_addresses-view offered ledger joined adds
