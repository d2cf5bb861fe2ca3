-- ===== src/Store/Demand.antt =====
-- What the count of `SqliteStore.demand` means.
use infer_stack.Base.{
  ℕ, String, ◌≡◌, refl, ◌∙◌, Bool, true, false, not, ◌&&◌, none, some, List, [], ◌∷◌, map, any,
  any_mono, arith, eqb, ◌==◌, length, dedup, is_empty, is_empty-dedup, is_empty-filter,
  is_empty-map,
}
use infer_stack.Models.{is_active}
use infer_stack.Store.{Store, Claim, select_lease, demand, id_protects}

-- Some claim on this deployment has a lease that passes the test.
unfoldable pub is_claimed_by : (String → Bool) → Store → String → Bool
is_claimed_by p s id = any (λ c. c.deployment_id == id && p c.lease_id) s.claims

abbrev pub id_active : Store → String → Bool
id_active s id = elim (select_lease s id) [ none ↦ false | some l ↦ is_active l.state ]

-- An ACTIVE lease claims it, whether or not its TTL has elapsed.
abbrev pub is_held : Store → String → Bool
is_held s = is_claimed_by (id_active s) s

abbrev pub is_protected : Store → ℕ → String → Bool
is_protected s now = is_claimed_by (id_protects s now) s

eqb-length {ℓ} : {A : Type ℓ} (xs : List A) → eqb (length xs) 0 ≡ is_empty xs
eqb-length [] = refl
eqb-length (x ∷ xs) = ground arith

-- The count of distinct leases in `demand` is zero exactly when no claim on the deployment has a lease that
-- is ACTIVE with a TTL that has not elapsed.
pub demand_zero :
    (s : Store) (id : String) (now : ℕ) → eqb (demand s id now) 0 ≡ not (is_protected s now id)
unfolding demand is_claimed_by
demand_zero s id now =
    eqb-length (dedup (map (λ (c : Claim). c.lease_id) _))
    ∙ is_empty-dedup (map (λ (c : Claim). c.lease_id) _)
    ∙ is_empty-map (λ (c : Claim). c.lease_id) _
    ∙ is_empty-filter (λ (c : Claim). c.deployment_id == id && id_protects s now c.lease_id)
        s.claims

-- A protected deployment is held.
pub is_held_of_protected :
    (s : Store) (now : ℕ) (id : String) → is_protected s now id ≡ true → is_held s id ≡ true
unfolding is_claimed_by
is_held_of_protected s now id =
    any_mono (λ (c : Claim). c.deployment_id == id && id_protects s now c.lease_id)
      (λ (c : Claim). c.deployment_id == id && id_active s c.lease_id) s.claims
      (λ c h. ground arith)
