-- ===== src/Store/Keys.antt =====
-- The schema's keys: what PRIMARY KEY and REFERENCES promise, and that the row operations keep it.
use infer_stack.Base.{
  ℕ, String, ◌≡◌, refl, sym, ◌∙◌, subst, Bool, true, false, ◌&&◌, ◌||◌, Option, none, some, List,
  [], ◌∷◌, ◌++◌, map, all, any, is_in, Distinct, arith, ◌==◌, eq_iff, select, update, map-update,
  Option-cases, inl, inr, Dict,
}
use infer_stack.Models.{LeaseState, DeploymentState, Deployment}
use infer_stack.Result.{ok}
use infer_stack.Store.{
  Store, LeaseRow, Claim, lease_key, deployment_key, select_lease, select_deployment, insert_lease,
  insert_deployment, insert_claim, set_lease_state, renew_lease, set_deployment_state,
  set_deployment_allocation, update_deployment_served,
}

abbrev pub lease_ids : Store → List String
lease_ids s = map lease_key s.leases

abbrev pub deployment_ids : Store → List String
deployment_ids s = map deployment_key s.deployments

-- Both foreign keys of a claim hold.
abbrev pub is_known : List String → List String → Claim → Bool
is_known leases deployments c = is_in c.lease_id leases && is_in c.deployment_id deployments

-- Ids are primary keys, and every claim refers to rows that are there.
pub record HasKeys (s : Store) : Type 0 where
  pub leases : Distinct (lease_ids s)
  pub deployments : Distinct (deployment_ids s)
  pub claims : all (is_known (lease_ids s) (deployment_ids s)) s.claims ≡ true

-- The same ids and claims: what an UPDATE leaves alone.
pub record SameKeys (s t : Store) : Type 0 where
  pub leases : lease_ids t ≡ lease_ids s
  pub deployments : deployment_ids t ≡ deployment_ids s
  pub claims : t.claims ≡ s.claims

pub SameKeys-refl : (s : Store) → SameKeys s s
SameKeys-refl s = record { leases = refl; deployments = refl; claims = refl }

pub SameKeys-trans : {s t u : Store} → SameKeys s t → SameKeys t u → SameKeys s u
SameKeys-trans f g = record {
  leases = g.leases ∙ f.leases;
  deployments = g.deployments ∙ f.deployments;
  claims = g.claims ∙ f.claims;
}

pub SameKeys-HasKeys : {s t : Store} → SameKeys s t → HasKeys s → HasKeys t
SameKeys-HasKeys {s} {t} f h = record {
  leases = subst Distinct (sym f.leases) h.leases;
  deployments = subst Distinct (sym f.deployments) h.deployments;
  claims = (λ i. all (is_known (f.leases i) (f.deployments i)) (f.claims i)) ∙ h.claims;
}

pub set_lease_state-SameKeys :
    (id : String) (st : LeaseState) (s : Store) → SameKeys s (set_lease_state id st s)
unfolding set_lease_state
set_lease_state-SameKeys id st s = record {
  leases = map-update lease_key id (λ l. record l { state = st }) s.leases (λ l. refl);
  deployments = refl;
  claims = refl;
}

pub renew_lease-SameKeys :
    (id : String) (ttl expires : Option ℕ) (now : ℕ) (s : Store)
    → SameKeys s (renew_lease id ttl expires now s)
unfolding renew_lease
renew_lease-SameKeys id ttl expires now s = record {
  leases = map-update lease_key id _ s.leases (λ l. refl);
  deployments = refl;
  claims = refl;
}

-- An UPDATE of the deployment rows.
update_deployments :
    (id : String) (f : Deployment → Deployment) (s : Store)
    → ((g : Deployment) → (f g).id ≡ g.id)
    → SameKeys s (record s { deployments = update deployment_key id f s.deployments })
update_deployments id f s keeps = record {
  leases = refl;
  deployments = map-update deployment_key id f s.deployments keeps;
  claims = refl;
}

pub set_deployment_state-SameKeys :
    (id : String) (st : DeploymentState) (now : ℕ) (s : Store)
    → SameKeys s (set_deployment_state id st now s)
unfolding set_deployment_state
set_deployment_state-SameKeys id st now s = update_deployments id _ s (λ g. refl)

pub set_deployment_allocation-SameKeys :
    (id : String) (gpus : Option (List ℕ)) (s : Store)
    → SameKeys s (set_deployment_allocation id gpus s)
unfolding set_deployment_allocation
set_deployment_allocation-SameKeys id gpus s = update_deployments id _ s (λ g. refl)

pub update_deployment_served-SameKeys :
    (id : String) (served : Dict String) (now : ℕ) (s : Store)
    → SameKeys s (update_deployment_served id served now s)
unfolding update_deployment_served
update_deployment_served-SameKeys id served now s = update_deployments id _ s (λ g. refl)

-- New rows.

module _ {ℓ} {R : Type ℓ} (key : R → String) where
  is_in-snoc :
      (k : String) (t : List R) (r : R)
      → is_in k (map key (t ++ r ∷ [])) ≡ (is_in k (map key t) || (key r == k))
  unfolding any
  is_in-snoc k [] r = ground arith
  is_in-snoc k (q ∷ t) r = ground (arith, is_in-snoc k t r)

  absent : (k : String) (t : List R) → select key k t ≡ none → is_in k (map key t) ≡ false
  unfolding select any
  absent k [] e = refl
  absent k (r ∷ t) e = ground (arith, absent k t)

  present : (k : String) (t : List R) {r : R} → select key k t ≡ some r → is_in k (map key t) ≡ true
  unfolding select any
  present k [] e = cc
  present k (q ∷ t) {r} e = ground (arith, present k t {r = r})

  Distinct-snoc :
      (t : List R) (r : R)
      → is_in (key r) (map key t) ≡ false
      → Distinct (map key t)
      → Distinct (map key (t ++ r ∷ []))
  unfolding any
  Distinct-snoc [] r fresh d = (refl, tt)
  Distinct-snoc (q ∷ t) r fresh d = (
    ground (arith, eq_iff (key q) (key r), eq_iff (key r) (key q), is_in-snoc (key q) t r, d.0),
    Distinct-snoc t r (ground arith) d.1,
  )

pub all_mono {ℓ} :
    {A : Type ℓ} (p q : A → Bool) (xs : List A)
    → ((x : A) → p x ≡ true → q x ≡ true)
    → all p xs ≡ true
    → all q xs ≡ true
unfolding all
all_mono p q [] imp h = refl
all_mono p q (x ∷ xs) imp h = ground (arith, imp x, all_mono p q xs imp)

pub insert_lease-HasKeys :
    (l : LeaseRow) (s : Store) {t : Store} → HasKeys s → insert_lease l s ≡ ok t → HasKeys t
unfolding insert_lease
insert_lease-HasKeys l s {t} h e = elim (Option-cases (select_lease s l.id)) [
  | inr (r, f) ↦ ground (arith, f)
  | inl f ↦ subst HasKeys (added f) (record {
    leases = Distinct-snoc lease_key s.leases l (absent lease_key l.id s.leases f) h.leases;
    deployments = h.deployments;
    claims =
        all_mono (is_known (lease_ids s) (deployment_ids s))
          (is_known (map lease_key (s.leases ++ l ∷ [])) (deployment_ids s)) s.claims
          (λ c k. ground (arith, is_in-snoc lease_key c.lease_id s.leases l)) h.claims;
  })
]
  where
    added : select_lease s l.id ≡ none → (record s { leases = s.leases ++ l ∷ [] }) ≡ t
    added f = ground (arith, f)

pub insert_deployment-HasKeys :
    (g : Deployment) (s : Store) {t : Store} → HasKeys s → insert_deployment g s ≡ ok t → HasKeys t
unfolding insert_deployment
insert_deployment-HasKeys g s {t} h e = elim (Option-cases (select_deployment s g.id)) [
  | inr (r, f) ↦ ground (arith, f)
  | inl f ↦ subst HasKeys (added f) (record {
    leases = h.leases;
    deployments =
        Distinct-snoc deployment_key s.deployments g (absent deployment_key g.id s.deployments f)
          h.deployments;
    claims =
        all_mono (is_known (lease_ids s) (deployment_ids s))
          (is_known (lease_ids s) (map deployment_key (s.deployments ++ g ∷ []))) s.claims
          (λ c k. ground (arith, is_in-snoc deployment_key c.deployment_id s.deployments g))
          h.claims;
  })
]
  where
    added :
        select_deployment s g.id ≡ none → (record s { deployments = s.deployments ++ g ∷ [] }) ≡ t
    added f = ground (arith, f)

all-snoc :
    (p : Claim → Bool) (cs : List Claim) (c : Claim)
    → all p cs ≡ true
    → p c ≡ true
    → all p (cs ++ c ∷ []) ≡ true
unfolding all
all-snoc p [] c h k = ground arith
all-snoc p (d ∷ cs) c h k = ground (arith, all-snoc p cs c)

pub insert_claim-HasKeys :
    (c : Claim) (s : Store) {t : Store} → HasKeys s → insert_claim c s ≡ ok t → HasKeys t
unfolding insert_claim
insert_claim-HasKeys c s {t} h e = elim (Option-cases (select_lease s c.lease_id)) [
  | inl f ↦ ground (arith, f)
  | inr (l, f) ↦ elim (Option-cases (select_deployment s c.deployment_id)) [
    | inl k ↦ ground (arith, f, k)
    | inr (g, k) ↦ subst HasKeys (added l g f k) (record {
      leases = h.leases;
      deployments = h.deployments;
      claims = all-snoc (is_known (lease_ids s) (deployment_ids s)) s.claims c h.claims (
          ground (
            arith,
            present lease_key c.lease_id s.leases {r = l} f,
            present deployment_key c.deployment_id s.deployments {r = g} k,
          ));
    })
  ]
]
  where
    added :
        (l : LeaseRow) (g : Deployment)
        → select_lease s c.lease_id ≡ some l
        → select_deployment s c.deployment_id ≡ some g
        → (record s { claims = s.claims ++ c ∷ [] }) ≡ t
    added l g f k = ground (arith, f, k)
