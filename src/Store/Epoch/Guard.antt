-- ===== src/Store/Epoch/Guard.antt =====
-- The guards of `SqliteStore.start_backend_epoch`.
use infer_stack.Base.{ℕ, suc, String, ◌≡◌, true, false, ◌&&◌, none, some, [], ◌∷◌, ◌++◌, eqb, arith}
use infer_stack.Store.{Store, bump_desired_generation}
use infer_stack.Store.Epoch.{start_backend_epoch, is_profile}
use infer_stack.Store.Publication.{write_profile}
use infer_stack.Result.{ok, err, profile_mismatch}

-- The epoch starts exactly when the stored profile and state version are the expected ones; else the
-- store is untouched and the call reports the mismatch. A started epoch has no leases, deployments,
-- claims, addresses, marker, subnet or adopted containers, records the archive, and both its counters
-- are one above the old ones, so that no plan made before it can be committed.
pub start_backend_epoch_lem :
    (profile archive expected : String) (version : ℕ) (s : Store)
    → start_backend_epoch profile archive expected version s
      ≡ (elim (is_profile s.meta.profile expected && eqb s.meta.admission_state_version version) [
        | false ↦ err profile_mismatch
        | true ↦ ok (record {
          leases = [];
          deployments = [];
          claims = [];
          service_addresses = [];
          meta = record {
            desired_gen = suc s.meta.desired_gen;
            applied_gen = s.meta.applied_gen;
            admission_state_version = suc s.meta.admission_state_version;
            profile = some profile;
            publication_pending = none;
            network_config = none;
            adopted_containers = none;
            ledger_archives = s.meta.ledger_archives ++ archive ∷ [];
          };
        })
      ])
unfolding start_backend_epoch write_profile bump_desired_generation
start_backend_epoch_lem profile archive expected version s = ground arith
