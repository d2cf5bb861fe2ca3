-- ===== src/Ledger/Upkeep/Renew.antt =====
-- The two paths of a renewal, `renew` and `renew_if_live` of ledger.py.
use infer_stack.Base.{
  ℕ, String, ◌≡◌, refl, ◌∙◌, ap, select-key, true, false, not, Option, none, some, List, [], ◌∷◌,
  arith, if◌then◌else◌, any, is_empty, dedup, Option-cases, inl, inr, Dict,
}
use infer_stack.Models.{Lease, is_active}
use infer_stack.Store.{
  Store, lease_key, select_lease, row_to_lease, get_lease, get_deployment, renew_lease,
}
use infer_stack.Ledger.Acquire.{expiry}
use infer_stack.Ledger.Upkeep.{
  renew, renew_active, renew_if_live, renewed, revive_each, is_idle_in, is_live_in, all_live,
  allocate_revived, bump_if, not_renewable, needs_admission,
}

live_not_idle : (s : Store) (id : String) → is_live_in s id ≡ true → is_idle_in s id ≡ false
unfolding is_live_in is_idle_in
live_not_idle s id h = ground arith

revive-all_live :
    (ids : List String) (now : ℕ) (s : Store)
    → all_live ids s ≡ true
    → revive_each ids now s ≡ (s, [])
unfolding revive_each all_live
revive-all_live [] now s h = refl
revive-all_live (id ∷ ids) now s h = ground (arith, live_not_idle s id, revive-all_live ids now s)

allocate_none : (allocations : Dict (List ℕ)) (s : Store) → allocate_revived [] allocations s ≡ s
unfolding allocate_revived any
allocate_none [] s = refl
allocate_none ((id, gpus) ∷ rest) s = allocate_none rest s

all_live-renew_lease :
    (ids : List String) (id : String) (ttl expires : Option ℕ) (now : ℕ) (s : Store)
    → all_live ids (renew_lease id ttl expires now s) ≡ all_live ids s
unfolding all_live renew_lease is_live_in get_deployment
all_live-renew_lease [] id ttl expires now s = refl
all_live-renew_lease (j ∷ ids) id ttl expires now s =
    ground (arith, all_live-renew_lease ids id ttl expires now s)

-- With every deployment LIVE, the full renewal only renews the row.
renew_active-live :
    (l : Lease) (ttl : Option ℕ) (allocations : Dict (List ℕ)) (now : ℕ) (s : Store)
    → all_live (dedup l.deployment_ids) s ≡ true
    → renew_active l ttl allocations now s ≡ renew_lease l.id ttl (expiry now ttl) now s
unfolding renew_active
renew_active-live l ttl allocations now s h =
    let t = renew_lease l.id ttl (expiry now ttl) now s in
    ap (λ u. bump_if (not (is_empty u.1)) (allocate_revived u.1 allocations u.0))
      (revive-all_live (dedup l.deployment_ids) now t
        (all_live-renew_lease (dedup l.deployment_ids) l.id ttl (expiry now ttl) now s ∙ h))
    ∙ allocate_none allocations t

id-get_lease :
    (lease_id : String) (s : Store) {l : Lease} → get_lease s lease_id ≡ some l → l.id ≡ lease_id
unfolding get_lease row_to_lease
id-get_lease lease_id s {l} e = elim (Option-cases (select_lease s lease_id)) [
  | inl f ↦ ground (arith, f)
  | inr (r, f) ↦ ground (arith, f, select-key lease_key lease_id s.leases {r = r} f)
]

renew-live :
    (lease_id : String) (ttl : Option ℕ) (allocations : Dict (List ℕ)) (now : ℕ) (s : Store)
    (l : Lease)
    → get_lease s lease_id ≡ some l
    → is_active l.state ≡ true
    → all_live (dedup l.deployment_ids) s ≡ true
    → renew lease_id ttl allocations now s
      ≡ (let t = renew_lease lease_id ttl (expiry now ttl) now s in (t, get_lease t lease_id))
unfolding renew
renew-live lease_id ttl allocations now s l e a h =
    rw (e, renew, a, renew_active-live l ttl allocations now s h, id-get_lease lease_id s {l = l} e)
      refl

-- The fast path answers as the full renewal does and leaves the same store when all the deployments of
-- the lease are LIVE, whatever allocations the full renewal has; when one is not, it changes nothing
-- and asks for the full one; and a lease that is not ACTIVE has neither.
pub renew_if_live-renew :
    (lease_id : String) (ttl : Option ℕ) (allocations : Dict (List ℕ)) (now : ℕ) (s : Store)
    → renew_if_live lease_id ttl now s ≡ (elim (get_lease s lease_id) [
      | none ↦ (s, not_renewable)
      | some l ↦
          if not (is_active l.state)
          then (s, not_renewable)
          else if all_live (dedup l.deployment_ids) s
          then (let (t, answer) = renew lease_id ttl allocations now s in (t, renewed answer))
          else (s, needs_admission)
    ])
unfolding renew_if_live
renew_if_live-renew lease_id ttl allocations now s = elim (Option-cases (get_lease s lease_id)) [
  | inl e ↦ ground (arith, e)
  | inr (l, e) ↦ ground (arith, e, renew-live lease_id ttl allocations now s l e)
]
