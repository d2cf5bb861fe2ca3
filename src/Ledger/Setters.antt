-- ===== src/Ledger/Setters.antt =====
-- `Ledger.set_allocation`, and the setters of a single value of the `meta` table.
use infer_stack.Base.{ℕ, String, Option, some, List}
use infer_stack.Store.{Store, set_deployment_allocation, bump_admission_state_version}
use infer_stack.Store.Publication.{write_profile}

unfoldable pub set_allocation : String → Option (List ℕ) → Store → Store
unfolding set_deployment_allocation bump_admission_state_version
set_allocation id gpus s = bump_admission_state_version (set_deployment_allocation id gpus s)

unfoldable pub set_network_config : String → Store → Store
set_network_config config s = record s { meta = record s.meta { network_config = some config } }

-- A table of containers as a JSON text; it is never removed, so a write gives a text.
unfoldable pub set_adopted_containers : Option String → Store → Store
set_adopted_containers adopted s = record s {
  meta = record s.meta { adopted_containers = adopted };
}

unfoldable pub set_profile : String → Store → Store
unfolding write_profile
set_profile profile s = write_profile profile s
