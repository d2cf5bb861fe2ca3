-- ===== src/Models/Capacity.antt =====
-- `capacity_satisfies` of models.py as an order on capacities.
use infer_stack.Base.{
  ℕ, String, ◌≡◌, refl, Bool, true, false, Option, none, some, [], ◌∷◌, arith, leb, eq_iff, eq_self,
  ◌↔◌, Option-cases, inl, inr, Dict, lookup, keys, any, Distinct, is_in,
}
use infer_stack.Models.{capacity_satisfies}

abbrev pub covers : Option ℕ → ℕ → Bool
covers none need = false
covers (some have) need = leb need have

-- What a satisfied request asks for is there, and no smaller.
pub covers-lookup :
    (a b : Dict ℕ) (k : String) (need : ℕ)
    → capacity_satisfies a b ≡ true
    → lookup k b ≡ some need
    → covers (lookup k a) need ≡ true
unfolding capacity_satisfies lookup
covers-lookup a [] k need s e = cc
covers-lookup a ((j, n) ∷ b) k need s e = ground (arith, eq_iff j k, covers-lookup a b k need)

lookup-in-keys : (k : String) (b : Dict ℕ) {n : ℕ} → lookup k b ≡ some n → is_in k (keys b) ≡ true
unfolding lookup any
lookup-in-keys k [] e = cc
lookup-in-keys k ((j, m) ∷ b) {n} e = ground (arith, lookup-in-keys k b {n = n})

module _ (a b : Dict ℕ) (j : String) (n : ℕ) (fresh : is_in j (keys b) ≡ false) where
  abbrev Covered : Dict ℕ → Type 0
  Covered c = (k : String) (need : ℕ) → lookup k c ≡ some need → covers (lookup k a) need ≡ true

  Covered-head : Covered ((j, n) ∷ b) → covers (lookup j a) n ≡ true
  Covered-head h = h j n (unfold lookup in rw eq_self)

  Covered-rest : Covered ((j, n) ∷ b) → Covered b
  unfolding lookup
  Covered-rest h k need e = h k need (ground (arith, eq_iff j k, lookup-in-keys k b {n = need}))

-- With distinct keys the loop decides: all that is asked for is there, and no smaller.
pub capacity_satisfies_intro :
    (a b : Dict ℕ)
    → Distinct (keys b)
    → ((k : String) (need : ℕ) → lookup k b ≡ some need → covers (lookup k a) need ≡ true)
    → capacity_satisfies a b ≡ true
unfolding capacity_satisfies
capacity_satisfies_intro a [] d h = refl
capacity_satisfies_intro a ((j, n) ∷ b) d h = ground (
  arith,
  Covered-head a b j n d.0 h,
  capacity_satisfies_intro a b d.1 (Covered-rest a b j n d.0 h),
)

-- A deployment serves a request exactly when each capacity that is asked for is there, and no
-- smaller (the request's keys are distinct, as in a `dict`).
pub capacity_satisfies_iff :
    (a b : Dict ℕ)
    → Distinct (keys b)
    → (capacity_satisfies a b ≡ true)
      ↔ ((k : String) (need : ℕ) → lookup k b ≡ some need → covers (lookup k a) need ≡ true)
capacity_satisfies_iff a b d =
    (λ s k need. covers-lookup a b k need s, capacity_satisfies_intro a b d)

-- What covers a request that covers another covers that one too: a deployment picked for a large
-- request serves every smaller one.
pub capacity_satisfies_trans :
    (a b c : Dict ℕ)
    → capacity_satisfies a b ≡ true
    → capacity_satisfies b c ≡ true
    → capacity_satisfies a c ≡ true
unfolding capacity_satisfies
capacity_satisfies_trans a b [] s t = refl
capacity_satisfies_trans a b ((k, need) ∷ c) s t = elim (Option-cases (lookup k b)) [
  | inl e ↦ ground arith
  | inr (h, e) ↦ ground (arith, covers-lookup a b k h s e, capacity_satisfies_trans a b c s)
]
