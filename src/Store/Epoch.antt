-- ===== src/Store/Epoch.antt =====
-- `SqliteStore.start_backend_epoch`: archived history is replaced by a new backend's snapshot.
pub mod Guard
use infer_stack.Base.{
  ℕ, String, Bool, true, false, ◌&&◌, Option, none, some, List, [], ◌∷◌, ◌++◌, eqb, ◌==◌,
}
use infer_stack.Store.{Store, Meta, bump_desired_generation}
use infer_stack.Store.Publication.{write_profile}
use infer_stack.Result.{Result, ok, err, profile_mismatch}

abbrev pub is_profile : Option String → String → Bool
is_profile none expected = false
is_profile (some p) expected = p == expected

-- DELETE FROM meta WHERE key NOT IN (…): the counters and the archives stay.
abbrev kept_meta : Meta → String → Meta
kept_meta m archive = record m {
  profile = none;
  publication_pending = none;
  network_config = none;
  adopted_containers = none;
  ledger_archives = m.ledger_archives ++ (archive ∷ []);
}

unfoldable pub start_backend_epoch : String → String → String → ℕ → Store → Result Store
unfolding write_profile bump_desired_generation
start_backend_epoch profile archive expected_profile expected_version s =
    elim (is_profile s.meta.profile expected_profile
      && eqb s.meta.admission_state_version expected_version) [
        | false ↦ err profile_mismatch
        | true ↦ ok (
            bump_desired_generation (
              write_profile profile (record {
                leases = [];
                deployments = [];
                claims = [];
                service_addresses = [];
                meta = kept_meta s.meta archive;
              })))
      ]
