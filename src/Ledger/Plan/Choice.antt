-- ===== src/Ledger/Plan/Choice.antt =====
-- Which deployment `Ledger.plan_acquire` gives a request.
use infer_stack.Base.{
  ℕ, String, ◌≡◌, refl, ◌∙◌, sym, Bool, true, false, not, ◌&&◌, ◌||◌, none, some, List, [], ◌∷◌,
  any, all, any-sort, all-sort, find, leb, arith, Bool-cases, inl, inr, sort, insert_sorted,
}
use infer_stack.Models.{EndpointRequest, is_shared, capacity_satisfies}
use infer_stack.Store.{Store}
use infer_stack.Ledger.{Ids}
use infer_stack.Ledger.Plan.{Plan, Candidate, candidates, choose, cost, cheaper}

module _ {ℓ} {A : Type ℓ} (key : A → ℕ) where
  abbrev no_dearer : A → A → Bool
  no_dearer a b = leb (key a) (key b)

  -- Each entry is no dearer than those after it.
  abbrev Sorted : List A → Type 0
  Sorted [] = Unit
  Sorted (x ∷ xs) = (all (no_dearer x) xs ≡ true) × Sorted xs

  all-no_dearer :
      (x y : A) (xs : List A)
      → no_dearer x y ≡ true
      → all (no_dearer y) xs ≡ true
      → all (no_dearer x) xs ≡ true
  unfolding all
  all-no_dearer x y [] e h = refl
  all-no_dearer x y (z ∷ xs) e h = ground (arith, all-no_dearer x y xs e)

  all-insert :
      (p : A → Bool) (x : A) (xs : List A)
      → all p (insert_sorted no_dearer x xs) ≡ (p x && all p xs)
  unfolding all insert_sorted
  all-insert p x [] = refl
  all-insert p x (y ∷ ys) = ground (arith, all-insert p x ys)

  insert_sorted-Sorted : (x : A) (xs : List A) → Sorted xs → Sorted (insert_sorted no_dearer x xs)
  unfolding insert_sorted all
  insert_sorted-Sorted x [] h = (refl, tt)
  insert_sorted-Sorted x (y ∷ ys) h = elim (Bool-cases (no_dearer x y)) [
    | inl e ↦ rw e (ground (arith, all-no_dearer x y ys e h.0), (h.0, h.1))
    | inr e ↦
        rw e (ground (arith, all-insert (no_dearer y) x ys, h.0), insert_sorted-Sorted x ys h.1)
  ]

  sort-Sorted : (xs : List A) → Sorted (sort no_dearer xs)
  unfolding sort
  sort-Sorted [] = tt
  sort-Sorted (x ∷ xs) = insert_sorted-Sorted x (sort no_dearer xs) (sort-Sorted xs)

  abbrev beats : (A → Bool) → A → A → Bool
  beats p c d = not (p d) || no_dearer c d

  all-beats :
      (p : A → Bool) (c : A) (xs : List A) → all (no_dearer c) xs ≡ true → all (beats p c) xs ≡ true
  unfolding all
  all-beats p c [] h = refl
  all-beats p c (x ∷ xs) h = ground (arith, all-beats p c xs)

  find-cheapest :
      (p : A → Bool) (xs : List A) (c : A)
      → Sorted xs
      → find p xs ≡ some c
      → (p c ≡ true) × (all (beats p c) xs ≡ true)
  unfolding find all
  find-cheapest p [] c h e = cc
  find-cheapest p (x ∷ xs) c h e = elim (Bool-cases (p x)) [
    | inl f ↦ ground (arith, f, all-beats p x xs h.0)
    | inr f ↦ ground (arith, f, find-cheapest p xs c h.1)
  ]

  find-all :
      (p q : A → Bool) (xs : List A) (c : A) → find p xs ≡ some c → all q xs ≡ true → q c ≡ true
  unfolding find all
  find-all p q [] c e h = cc
  find-all p q (x ∷ xs) c e h = ground (arith, find-all p q xs c)

  find-none : (p : A → Bool) (xs : List A) → find p xs ≡ none → any p xs ≡ false
  unfolding find any
  find-none p [] e = refl
  find-none p (x ∷ xs) e = ground (arith, find-none p xs)

module _ (ids : Ids) (s : Store) (resident : String → Bool) (req : EndpointRequest) (p : Plan) where
  abbrev pub is_covering : Candidate → Bool
  is_covering c = capacity_satisfies c.0.capacity req.capacity

  choose-some :
      (c : Candidate)
      → choose ids s resident req p ≡ some c
      → (is_shared req.sharing ≡ true)
        × (find is_covering (sort (cheaper resident) (candidates ids s req p)) ≡ some c)
  unfolding choose
  choose-some c e = ground arith

  -- What a request coalesces onto: the request is shared, the deployment is one of the candidates (it has
  -- each property that all of them have), its capacity covers the request, and no candidate that
  -- covers the request costs less. When a shared request has none, no candidate covers it.
  pub choose_cheapest :
      ((c : Candidate)
        → choose ids s resident req p ≡ some c
        → (is_shared req.sharing ≡ true)
          × ((q : Candidate → Bool) → all q (candidates ids s req p) ≡ true → q c ≡ true)
          × (is_covering c ≡ true)
          × (all
                (λ d. not (is_covering d) || leb (cost resident c) (cost resident d))
                (candidates ids s req p)
              ≡ true))
      × (is_shared req.sharing ≡ true
          → choose ids s resident req p ≡ none
          → any is_covering (candidates ids s req p) ≡ false)
  unfolding choose
  choose_cheapest = (
    λ c e.
        let (shared, f) = choose-some c e in
        let (covers, least) =
          find-cheapest (cost resident) is_covering _ c
            (sort-Sorted (cost resident) (candidates ids s req p)) f in
        (
          shared,
          λ q h.
              find-all (cost resident) is_covering q _ c f
                (all-sort (cheaper resident) q (candidates ids s req p) ∙ h),
          covers,
          sym (
                all-sort (cheaper resident)
                  (λ d. not (is_covering d) || leb (cost resident c) (cost resident d))
                  (candidates ids s req p))
              ∙ least,
        ),
    λ shared e.
        sym (any-sort (cheaper resident) is_covering (candidates ids s req p))
        ∙ find-none (cost resident) is_covering (sort (cheaper resident) (candidates ids s req p))
            (ground arith),
  )
