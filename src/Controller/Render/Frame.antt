-- ===== src/Controller/Render/Frame.antt =====
-- The publication marker and the ACTIVE leases after `Controller._render`.
use infer_stack.Base.{
  ℕ, String, ◌≡◌, refl, ◌∙◌, subst, Bool, true, false, Option, some, List, [], ◌∷◌, arith,
  Option-cases, Bool-cases, inl, inr, Dict, select-key, select-update, holds, eq_self, eqb, filter,
  not, is_empty,
}
use infer_stack.Models.{LeaseState, DeploymentState, Lease, Deployment, is_active, lacks_allocation}
use infer_stack.Result.{Result, ok, err, >>=-steps}
use infer_stack.Store.{
  Store, LeaseRow, lease_key, select_lease, set_lease_state, set_deployment_state,
  set_deployment_allocation, row_to_lease, active_leases_past, list_deployments, get_lease,
  bump_desired_generation, bump_admission_state_version,
}
use infer_stack.Store.Publication.{pending}
use infer_stack.Store.Addresses.{add_service_addresses}
use infer_stack.Residency.{Residency, unique_unit}
use infer_stack.Ledger.Upkeep.{
  idles, idle_each, idle_deployments, expire_each, sweep, release, release_active, evict_each,
  evict_idle, evicts, is_released, bump_if,
}
use infer_stack.Ledger.Setters.{set_allocation, set_adopted_containers}
use infer_stack.Ledger.Status.{status}
use infer_stack.Controller.{Policy, backfill_each, backfill_allocations, gpu_units, adoptable}
use infer_stack.Controller.Render.{
  Round, Converged, declined, failed, wrote, unseen, with_addresses, without_sight, converged,
  render,
}

abbrev pub active_at : Store → String → Bool
active_at s id = holds (λ l. is_active l.state) (select_lease s id)

-- The marker is the same, and no lease becomes ACTIVE.
pub record Keeps (s t : Store) : Type 0 where
  pub marker : pending t ≡ pending s
  pub inactive : (id : String) → active_at t id ≡ true → active_at s id ≡ true

pub Keeps-refl : (s : Store) → Keeps s s
Keeps-refl s = record { marker = refl; inactive = λ id h. h }

pub Keeps-trans : (s t u : Store) → Keeps s t → Keeps t u → Keeps s u
Keeps-trans s t u h k = record {
  marker = k.marker ∙ h.marker;
  inactive = λ id x. h.inactive id (k.inactive id x);
}

-- A write to the other tables.
same-Keeps : (s t : Store) → pending t ≡ pending s → t.leases ≡ s.leases → Keeps s t
same-Keeps s t e f = record { marker = e; inactive = λ id h. ground (arith, f) }

set_lease_state-Keeps :
    (id : String) (state : LeaseState) (s : Store)
    → is_active state ≡ false
    → Keeps s (set_lease_state id state s)
unfolding set_lease_state
set_lease_state-Keeps id state s ends = record {
  marker = refl;
  inactive = λ k h. ground (
    arith,
    ends,
    select-update lease_key id k (λ l. record l { state = state }) s.leases (λ l. refl),
  );
}

idle_each-Keeps : (ids : List String) (now : ℕ) (s : Store) → Keeps s (idle_each ids now s).0
unfolding idle_each set_deployment_state
idle_each-Keeps [] now s = Keeps-refl s
idle_each-Keeps (id ∷ ids) now s = elim (Bool-cases (idles now s id)) [
  | inr e ↦ rw e (idle_each-Keeps ids now s)
  | inl e ↦
      let t = set_deployment_state id DeploymentState.idle now s in
      rw e (
        Keeps-trans s t (idle_each ids now t).0 (same-Keeps s t refl refl)
          (idle_each-Keeps ids now t))
]

expire_each-Keeps : (ls : List Lease) (s : Store) → Keeps s (expire_each ls s)
unfolding expire_each
expire_each-Keeps [] s = Keeps-refl s
expire_each-Keeps (l ∷ ls) s =
    let t = set_lease_state l.id LeaseState.expired s in
    Keeps-trans s t (expire_each ls t) (set_lease_state-Keeps l.id LeaseState.expired s refl)
      (expire_each-Keeps ls t)

pub bump_if-Keeps : (b : Bool) (s t : Store) → Keeps s t → Keeps s (bump_if b t)
unfolding bump_desired_generation
bump_if-Keeps false s t k = k
bump_if-Keeps true s t k = Keeps-trans s t _ k (same-Keeps t _ refl refl)

pub sweep-Keeps : (now : ℕ) (s : Store) → Keeps s (sweep now s).0
unfolding sweep idle_deployments
sweep-Keeps now s = bump_if-Keeps _ s _ (
    Keeps-trans s (expire_each (active_leases_past s now) s) _
      (expire_each-Keeps (active_leases_past s now) s)
      (idle_each-Keeps _ now (expire_each (active_leases_past s now) s)))

evict_each-Keeps : (gs : List Deployment) (now : ℕ) (s : Store) → Keeps s (evict_each gs now s)
unfolding evict_each set_deployment_state
evict_each-Keeps [] now s = Keeps-refl s
evict_each-Keeps (g ∷ gs) now s =
    let t = set_deployment_state g.id DeploymentState.stopped now s in
    Keeps-trans s t (evict_each gs now t) (same-Keeps s t refl refl) (evict_each-Keeps gs now t)

pub evict_idle-Keeps :
    (wanted : Option (List String)) (now : ℕ) (s : Store) → Keeps s (evict_idle wanted now s).0
unfolding evict_idle
evict_idle-Keeps wanted now s =
    let gone = filter (evicts wanted) (list_deployments s now) in
    bump_if-Keeps (not (is_empty gone)) s (evict_each gone now s) (evict_each-Keeps gone now s)

set_allocation-Keeps :
    (id : String) (gpus : Option (List ℕ)) (s : Store) → Keeps s (set_allocation id gpus s)
unfolding set_allocation set_deployment_allocation bump_admission_state_version
set_allocation-Keeps id gpus s = same-Keeps s _ refl refl

backfill_each-Keeps :
    (c : Policy) (r : Residency) (gs : List Deployment) (s : Store)
    → Keeps s (backfill_each c r gs s).0
unfolding backfill_each
backfill_each-Keeps c r [] s = Keeps-refl s
backfill_each-Keeps c r (g ∷ gs) s = elim (Bool-cases (lacks_allocation g)) [
  | inr e ↦ rw (e, backfill_each) (backfill_each-Keeps c r gs s)
  | inl e ↦ elim (Bool-cases (eqb (gpu_units c g) 0)) [
    | inl f ↦
        let t = set_allocation g.id (some []) s in
        rw (e, f, backfill_each)
          (Keeps-trans s t _ (set_allocation-Keeps g.id (some []) s) (backfill_each-Keeps c r gs t))
    | inr f ↦ elim (Option-cases (adoptable (unique_unit r g.id))) [
      | inl k ↦ rw (e, f, k, backfill_each) (backfill_each-Keeps c r gs s)
      | inr (gpus, k) ↦
          let t = set_allocation g.id (some gpus) s in
          rw (e, f, k, backfill_each)
            (Keeps-trans s t _ (set_allocation-Keeps g.id (some gpus) s)
              (backfill_each-Keeps c r gs t))
    ]
  ]
]

add_service_addresses-Keeps :
    (table : Dict String) (s t : Store) → add_service_addresses table s ≡ ok t → Keeps s t
unfolding add_service_addresses
add_service_addresses-Keeps table s t e =
    let (rows, f, g) =
      >>=-steps (infer_stack.Store.Addresses.add_rows s.service_addresses table s.service_addresses)
        _ e in
    same-Keeps s t (ground (arith, g)) (ground (arith, g))

set_adopted_containers-Keeps :
    (adopted : Option String) (s : Store) → Keeps s (set_adopted_containers adopted s)
unfolding set_adopted_containers
set_adopted_containers-Keeps adopted s = same-Keeps s _ refl refl

converged-Keeps : (e : Round) (v : Converged) (s : Store) → Keeps s (converged e v s).0
unfolding converged
converged-Keeps e declined s = Keeps-refl s
converged-Keeps e failed s = Keeps-refl s
converged-Keeps e (unseen table) s = seen (add_service_addresses table s) refl
  where
    seen : (x : Result Store) → add_service_addresses table s ≡ x → Keeps s (without_sight s x).0
    seen (err reason) f = Keeps-refl s
    seen (ok t) f = add_service_addresses-Keeps table s t f
converged-Keeps e (wrote table w) s = added (add_service_addresses table s) refl
  where
    added :
        (x : Result Store) → add_service_addresses table s ≡ x → Keeps s (with_addresses e w s x).0
    added (err reason) f = Keeps-refl s
    added (ok t) f =
        Keeps-trans s t _ (add_service_addresses-Keeps table s t f)
          (set_adopted_containers-Keeps (e.adopt_existing t.meta.adopted_containers) t)

pub render-Keeps : (c : Policy) (e : Round) (s : Store) → Keeps s (render c e s).0
unfolding render backfill_allocations
render-Keeps c e s = elim (Option-cases e.residency) [
  | inl f ↦ rw (f, render) (sweep-Keeps e.now s)
  | inr (r, f) ↦
      let t = (sweep e.now s).0 in
      let u = (backfill_each c r (status false e.now t).1 t).0 in
      let v = set_adopted_containers (e.prune_adopted u.meta.adopted_containers) u in
      rw (f, render)
        (Keeps-trans s t _ (sweep-Keeps e.now s) (
          Keeps-trans t u _ (backfill_each-Keeps c r (status false e.now t).1 t)
            (Keeps-trans u v _ (set_adopted_containers-Keeps _ u) (converged-Keeps e _ v))))
]

idle_deployments-Keeps :
    (ids : List String) (now : ℕ) (s : Store) → Keeps s (idle_deployments ids now s).0
unfolding idle_deployments
idle_deployments-Keeps ids now s = idle_each-Keeps _ now s

-- What follows the end of a lease in a release.
rest-Keeps :
    (l : Lease) (now : ℕ) (s : Store)
    → Keeps (set_lease_state l.id LeaseState.released s) (release_active l now s).0
unfolding release_active
rest-Keeps l now s =
    bump_if-Keeps _ _ _
      (idle_deployments-Keeps l.deployment_ids now (set_lease_state l.id LeaseState.released s))

ended_at :
    (id : String) (s : Store) → active_at (set_lease_state id LeaseState.released s) id ≡ false
unfolding set_lease_state
ended_at id s = ground (
  arith,
  eq_self id,
  Option-cases (select_lease s id),
  select-update lease_key id id (λ l. record l { state = LeaseState.released }) s.leases
      (λ l. refl),
)

pub still_inactive :
    (s t : Store) (id : String) → Keeps s t → active_at s id ≡ false → active_at t id ≡ false
still_inactive s t id k h = elim (Bool-cases (active_at t id)) [
  | inl e ↦ absurd (cc (k.inactive id e, h))
  | inr e ↦ e
]

-- A release makes no lease ACTIVE, and its own lease is not ACTIVE after it.
pub release-Keeps :
    (id : String) (now : ℕ) (s : Store)
    → Keeps s (release id now s).0 × (active_at (release id now s).0 id ≡ false)
unfolding release get_lease row_to_lease
release-Keeps id now s = elim (Option-cases (select_lease s id)) [
  | inl e ↦ rw (e, release) (Keeps-refl s, ground (arith, e))
  | inr (l, e) ↦ elim (Bool-cases (is_released l.state)) [
    | inl f ↦ rw (e, f, release) (Keeps-refl s, ground (arith, e, f))
    | inr f ↦
        let same = select-key lease_key id s.leases {r = l} e in
        let x = row_to_lease s l in
        let t = set_lease_state l.id LeaseState.released s in
        rw (e, f, release)
          (
            Keeps-trans s t _ (set_lease_state-Keeps l.id LeaseState.released s refl)
                (rest-Keeps x now s),
            subst (λ k. active_at (release_active x now s).0 k ≡ false) same
                (still_inactive t (release_active x now s).0 l.id (rest-Keeps x now s)
                  (ended_at l.id s)),
          )
  ]
]
