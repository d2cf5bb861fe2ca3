-- ===== src/System/Invariant.antt =====
-- What holds of every state that a ledger can come to.
use infer_stack.Base.{
  ℕ, String, ◌≡◌, refl, subst, Bool, true, false, not, ◌&&◌, Option, List, [], ◌∷◌, map, any, all,
  filter, is_in, Distinct, arith, ◌==◌, Dict, Bool-cases, inl, inr, select, select-update,
}
use infer_stack.Result.{ok, >>=-steps}
use infer_stack.Store.{
  Store, empty_store, lease_key, deployment_key, get_deployment, set_applied_generation,
  set_deployment_allocation, bump_admission_state_version,
}
use infer_stack.Store.Demand.{is_claimed_by}
use infer_stack.Store.Keys.{
  set_deployment_allocation-SameKeys, HasKeys, SameKeys-HasKeys, is_known, lease_ids,
  deployment_ids,
}
use infer_stack.Store.Prune.Exact.{pruned, survives, prune_ok}
use infer_stack.Store.Publication.{
  mark_publication_pending, set_approved_digest, publish_profile, migrate_network,
  clear_publication_pending, clear_placement_context, write_marker, write_profile,
}
use infer_stack.Store.Epoch.{start_backend_epoch}
use infer_stack.Store.Epoch.Guard.{start_backend_epoch_lem}
use infer_stack.Store.Addresses.{add_rows, add_service_addresses}
use infer_stack.Ledger.{Ids}
use infer_stack.Ledger.Keys.{
  acquire-HasKeys, release-SameKeys, renew-SameKeys, renew_if_live-SameKeys, sweep-SameKeys,
  evict_idle-SameKeys,
}
use infer_stack.Ledger.Held.{IsHeld}
use infer_stack.Ledger.Held.Endings.{release-IsHeld, sweep-IsHeld}
use infer_stack.Ledger.Held.Acquired.{acquire-IsHeld}
use infer_stack.Ledger.Held.Renewals.{renew-IsHeld, renew_if_live-IsHeld}
use infer_stack.Ledger.Held.Removals.{evict_idle-IsHeld, prune-IsHeld}
use infer_stack.Ledger.Setters.{
  set_allocation, set_adopted_containers, set_network_config, set_profile,
}
use infer_stack.Ledger.Upkeep.{is_live_in, prune, is_over, is_stopped}
use infer_stack.System.{
  Step, Reachable, acquires, releases, renews, renews_fast, sweeps, evicts_idle, prunes,
  starts_epoch, adds_addresses, marks, approves, publishes, migrates, clears, clears_context,
  applies, allocates, adopts, configures, sets_profile, start, after,
}

pub record IsSound (s : Store) : Type 0 where
  pub keys : HasKeys s
  pub held : IsHeld s

-- The rows are as they were.
abbrev outside : Store → Store → Store
outside s t = record s { meta = t.meta; service_addresses = t.service_addresses }

rows_IsSound : (s t : Store) → outside s t ≡ t → IsSound s → IsSound t
unfolding is_live_in get_deployment is_claimed_by
rows_IsSound s t e h = subst IsSound e (record {
  keys = record {
    leases = h.keys.leases;
    deployments = h.keys.deployments;
    claims = h.keys.claims;
  };
  held = record { at = h.held.at };
})

module _ {ℓ} {R : Type ℓ} (key : R → String) where
  is_in-filter :
      (k : String) (q : R → Bool) (t : List R)
      → is_in k (map key t) ≡ false
      → is_in k (map key (filter q t)) ≡ false
  unfolding filter any
  is_in-filter k q [] e = e
  is_in-filter k q (r ∷ t) e = ground (arith, is_in-filter k q t)

  Distinct-filter :
      (q : R → Bool) (t : List R) → Distinct (map key t) → Distinct (map key (filter q t))
  unfolding filter
  Distinct-filter q [] d = tt
  Distinct-filter q (r ∷ t) d = elim (Bool-cases (q r)) [
    | inl e ↦ rw e (is_in-filter (key r) q t d.0, Distinct-filter q t d.1)
    | inr e ↦ rw e (Distinct-filter q t d.1)
  ]

  kept_key :
      (k : String) (gone : R → Bool) (t : List R)
      → is_in k (map key t) ≡ true
      → any (λ r. key r == k && gone r) t ≡ false
      → is_in k (map key (filter (λ r. not (gone r)) t)) ≡ true
  unfolding filter any
  kept_key k gone [] e f = e
  kept_key k gone (r ∷ t) e f = ground (arith, kept_key k gone t)

  all-filter_mono :
      (p q r : R → Bool) (xs : List R)
      → ((x : R) → (p x && q x) ≡ true → r x ≡ true)
      → all p xs ≡ true
      → all r (filter q xs) ≡ true
  unfolding filter all
  all-filter_mono p q r [] imp h = refl
  all-filter_mono p q r (x ∷ xs) imp h = ground (arith, imp x, all-filter_mono p q r xs imp)

pruned-HasKeys : (s : Store) → HasKeys s → HasKeys (pruned is_over is_stopped s)
pruned-HasKeys s h = record {
  leases = Distinct-filter lease_key (λ l. not (is_over l.state)) s.leases h.leases;
  deployments =
      Distinct-filter deployment_key (λ g. not (is_stopped g.state)) s.deployments h.deployments;
  claims =
      all-filter_mono (λ c. c.lease_id) (is_known (lease_ids s) (deployment_ids s))
        (survives is_over is_stopped s)
        (is_known (lease_ids (pruned is_over is_stopped s))
          (deployment_ids (pruned is_over is_stopped s)))
        s.claims
        (λ c k. ground (
          arith,
          kept_key lease_key c.lease_id (λ l. is_over l.state) s.leases,
          kept_key deployment_key c.deployment_id (λ g. is_stopped g.state) s.deployments,
        ))
        h.claims;
}

prune-HasKeys : (s t : Store) (n m : ℕ) → HasKeys s → prune s ≡ ok (t, n, m) → HasKeys t
unfolding prune
prune-HasKeys s t n m h e =
    subst HasKeys (ground (arith, prune_ok is_over is_stopped s)) (pruned-HasKeys s h)

pub empty_IsSound : IsSound empty_store
unfolding all is_live_in get_deployment select
empty_IsSound = record {
  keys = record { leases = tt; deployments = tt; claims = refl };
  held = record { at = λ id e. ground arith };
}

-- A new epoch has no rows at all.
epoch-rows :
    (profile archive expected : String) (version : ℕ) (s t : Store)
    → start_backend_epoch profile archive expected version s ≡ ok t
    → outside empty_store t ≡ t
epoch-rows profile archive expected version s t e =
    ground (arith, start_backend_epoch_lem profile archive expected version s)

addresses-rows :
    (table : Dict String) (s t : Store) → add_service_addresses table s ≡ ok t → outside s t ≡ t
unfolding add_service_addresses
addresses-rows table s t e =
    let (rows, f, same) = >>=-steps (add_rows s.service_addresses table s.service_addresses) _ e in
    ground arith

marked-rows :
    (a i : Bool) (context digest profile : Option String) (s : Store)
    → outside s (mark_publication_pending a i context digest profile s)
      ≡ mark_publication_pending a i context digest profile s
unfolding mark_publication_pending write_marker write_profile
marked-rows a i context digest profile s = ground arith

approved-rows :
    (digest : Option String) (s : Store)
    → outside s (set_approved_digest digest s) ≡ set_approved_digest digest s
unfolding set_approved_digest
approved-rows digest s = ground arith

published-rows :
    (profile : String) (digest : Option String) (s : Store)
    → outside s (publish_profile profile digest s) ≡ publish_profile profile digest s
unfolding publish_profile write_marker write_profile
published-rows profile digest s = refl

migrated-rows :
    (subnet : String) (reset : Bool) (digest profile : Option String) (s : Store)
    → outside s (migrate_network subnet reset digest profile s)
      ≡ migrate_network subnet reset digest profile s
unfolding migrate_network write_marker write_profile
migrated-rows subnet reset digest profile s = ground arith

cleared-rows :
    (version : ℕ) (s : Store)
    → outside s (clear_publication_pending version s).0 ≡ (clear_publication_pending version s).0
unfolding clear_publication_pending
cleared-rows version s = ground arith

context-rows : (s : Store) → outside s (clear_placement_context s) ≡ clear_placement_context s
unfolding clear_placement_context
context-rows s = ground arith

applied-rows :
    (gen : ℕ) (s : Store) → outside s (set_applied_generation gen s) ≡ set_applied_generation gen s
unfolding set_applied_generation
applied-rows gen s = ground arith

allocated-IsSound :
    (id : String) (gpus : Option (List ℕ)) (s : Store)
    → IsSound s
    → IsSound (set_allocation id gpus s)
unfolding set_allocation bump_admission_state_version set_deployment_allocation is_live_in
    get_deployment is_claimed_by
allocated-IsSound id gpus s h =
    let k = SameKeys-HasKeys (set_deployment_allocation-SameKeys id gpus s) h.keys in
    record {
      keys = record { leases = k.leases; deployments = k.deployments; claims = k.claims };
      held = record {
        at = λ j e. h.held.at j (
            ground (
              arith,
              select-update deployment_key id j (λ g. record g { assigned_gpus = gpus })
                  s.deployments (λ g. refl),
            ));
      };
    }

module _ (ids : Ids) where
  pub Step-IsSound : {s t : Store} → Step ids s t → IsSound s → IsSound t
  Step-IsSound
        (acquires resident owner requests ttl allocations digest profile planned_at first_id now
          next_id s t r e)
        h =
      record {
        keys =
            acquire-HasKeys ids owner requests ttl _ allocations digest profile now next_id s t r
              h.keys e;
        held =
            acquire-IsHeld ids resident owner requests ttl allocations digest profile planned_at
              first_id now next_id s t r h.keys.deployments e h.held;
      }
  Step-IsSound (releases lease_id now s) h = record {
    keys = SameKeys-HasKeys (release-SameKeys lease_id now s) h.keys;
    held = release-IsHeld lease_id now s h.held;
  }
  Step-IsSound (renews lease_id ttl allocations now s) h = record {
    keys = SameKeys-HasKeys (renew-SameKeys lease_id ttl allocations now s) h.keys;
    held = renew-IsHeld lease_id ttl allocations now s h.held;
  }
  Step-IsSound (renews_fast lease_id ttl now s) h = record {
    keys = SameKeys-HasKeys (renew_if_live-SameKeys lease_id ttl now s) h.keys;
    held = renew_if_live-IsHeld lease_id ttl now s h.held;
  }
  Step-IsSound (sweeps now s) h = record {
    keys = SameKeys-HasKeys (sweep-SameKeys now s) h.keys;
    held = sweep-IsHeld now s h.held;
  }
  Step-IsSound (evicts_idle wanted now s) h = record {
    keys = SameKeys-HasKeys (evict_idle-SameKeys wanted now s) h.keys;
    held = evict_idle-IsHeld wanted now s h.held;
  }
  Step-IsSound (prunes s t n m e) h = record {
    keys = prune-HasKeys s t n m h.keys e;
    held = prune-IsHeld s t n m h.keys h.held e;
  }
  Step-IsSound (starts_epoch profile archive expected version s t e) h =
      rows_IsSound empty_store t (epoch-rows profile archive expected version s t e) empty_IsSound
  Step-IsSound (adds_addresses table s t e) h = rows_IsSound s t (addresses-rows table s t e) h
  Step-IsSound (marks a i context digest profile s) h =
      rows_IsSound s _ (marked-rows a i context digest profile s) h
  Step-IsSound (approves digest s) h = rows_IsSound s _ (approved-rows digest s) h
  Step-IsSound (publishes profile digest s) h = rows_IsSound s _ (published-rows profile digest s) h
  Step-IsSound (migrates subnet reset digest profile s) h =
      rows_IsSound s _ (migrated-rows subnet reset digest profile s) h
  Step-IsSound (clears version s) h = rows_IsSound s _ (cleared-rows version s) h
  Step-IsSound (clears_context s) h = rows_IsSound s _ (context-rows s) h
  Step-IsSound (allocates id gpus s) h = allocated-IsSound id gpus s h
  Step-IsSound (adopts adopted s) h =
      rows_IsSound s (set_adopted_containers adopted s) (unfold set_adopted_containers in refl) h
  Step-IsSound (configures config s) h =
      rows_IsSound s (set_network_config config s) (unfold set_network_config in refl) h
  Step-IsSound (sets_profile profile s) h =
      rows_IsSound s (set_profile profile s) (unfold set_profile write_profile in refl) h
  Step-IsSound (applies gen s) h = rows_IsSound s _ (applied-rows gen s) h

  -- In every state that a new ledger can come to, by successful calls in any order and at any times:
  -- lease ids and deployment ids are distinct, every claim is of a lease and a deployment that are
  -- there, and every LIVE deployment is claimed by an ACTIVE lease.
  pub Reachable-IsSound : {s : Store} → Reachable ids s → IsSound s
  Reachable-IsSound start = empty_IsSound
  Reachable-IsSound (after s t r step) = Step-IsSound step (Reachable-IsSound r)
