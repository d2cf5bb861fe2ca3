-- ===== src/Routes/Seed.antt =====
-- The plans of a seed and of a prune in routes.py, name by name.
use infer_stack.Base.{
  String, ◌≡◌, refl, ◌∙◌, Bool, true, false, not, ◌&&◌, ◌||◌, Option, none, some, List, [], ◌∷◌,
  any, any-sort, any-append, any-filter, sort, text_leb, ◌==◌, eq_iff, arith, Dict, lookup,
  lookup-insert, keys, is_in, is_in-dedup, dedup, filter, holds, Option-cases, inl, inr,
  if◌then◌else◌,
}
use infer_stack.Routes.{RoutePlan, seed_one, seed_each, plan_seed, plan_prune, empty_plan}

module _ {ℓ} {A : Type ℓ} (same : A → A → Bool) (current : Dict A) where
  -- What a seed should say of a name.
  abbrev pub as_added : Option A → Option A → Option A
  as_added none row = row
  as_added (some held) row = none

  abbrev pub as_unchanged : Option A → Option A → Bool
  as_unchanged none row = false
  as_unchanged (some held) none = false
  as_unchanged (some held) (some row) = same held row

  abbrev pub as_conflicted : Option A → Option A → Option (A × A)
  as_conflicted none row = none
  as_conflicted (some held) none = none
  as_conflicted (some held) (some row) = if same held row then none else some (held, row)

  is_in-keys : (k : String) (d : Dict A) → is_in k (keys d) ≡ holds (λ r. true) (lookup k d)
  unfolding any lookup
  is_in-keys k [] = refl
  is_in-keys k ((j, r) ∷ d) = ground (arith, is_in-keys k d)

  added-seed_each :
      (names : List String) (incoming : Dict A) (p : RoutePlan A) (k : String)
      → lookup k (seed_each same current names incoming p).added
        ≡ (elim (if is_in k names then as_added (lookup k current) (lookup k incoming) else none) [
          | none ↦ lookup k p.added
          | some r ↦ some r
        ])
  unfolding seed_each seed_one any
  added-seed_each [] incoming p k = refl
  added-seed_each (name ∷ names) incoming p k = elim (Option-cases (lookup name incoming)) [
    | inl e ↦ ground (arith, e, eq_iff name k, added-seed_each names incoming p k)
    | inr (row, e) ↦ ground (
      arith,
      e,
      eq_iff name k,
      lookup-insert name k row p.added,
      added-seed_each names incoming (seed_one same current name row p) k,
    )
  ]

  unchanged-seed_each :
      (names : List String) (incoming : Dict A) (p : RoutePlan A) (k : String)
      → is_in k (seed_each same current names incoming p).unchanged ≡ (
          is_in k p.unchanged
          || (is_in k names && as_unchanged (lookup k current) (lookup k incoming)))
  unfolding seed_each seed_one any
  unchanged-seed_each [] incoming p k = ground arith
  unchanged-seed_each (name ∷ names) incoming p k = elim (Option-cases (lookup name incoming)) [
    | inl e ↦ ground (arith, e, eq_iff name k, unchanged-seed_each names incoming p k)
    | inr (row, e) ↦ ground (
      arith,
      e,
      eq_iff name k,
      any-append (λ j. j == k) p.unchanged (name ∷ []),
      unchanged-seed_each names incoming (seed_one same current name row p) k,
    )
  ]

  conflicted-seed_each :
      (names : List String) (incoming : Dict A) (p : RoutePlan A) (k : String)
      → lookup k (seed_each same current names incoming p).conflicted
        ≡ (elim (if is_in k names
            then as_conflicted (lookup k current) (lookup k incoming)
            else none) [ none ↦ lookup k p.conflicted | some r ↦ some r ])
  unfolding seed_each seed_one any
  conflicted-seed_each [] incoming p k = refl
  conflicted-seed_each (name ∷ names) incoming p k = elim (Option-cases (lookup name incoming)) [
    | inl e ↦ ground (arith, e, eq_iff name k, conflicted-seed_each names incoming p k)
    | inr (row, e) ↦ elim (Option-cases (lookup name current)) [
      | inl f ↦ ground (
        arith,
        e,
        f,
        eq_iff name k,
        conflicted-seed_each names incoming (seed_one same current name row p) k,
      )
      | inr (held, f) ↦ ground (
        arith,
        e,
        f,
        eq_iff name k,
        lookup-insert name k (held, row) p.conflicted,
        conflicted-seed_each names incoming (seed_one same current name row p) k,
      )
    ]
  ]

  -- The plan of a seed, name by name: an incoming name that is not published yet is added with its row;
  -- one that is published with the same meaning is unchanged; one that is published with another
  -- meaning is a conflict, with both meanings. No other name is in any of the three.
  pub plan_seed_lem :
      (incoming : Dict A) (k : String)
      → (lookup k (plan_seed same current incoming).added
          ≡ as_added (lookup k current) (lookup k incoming))
        × (is_in k (plan_seed same current incoming).unchanged
            ≡ as_unchanged (lookup k current) (lookup k incoming))
        × (lookup k (plan_seed same current incoming).conflicted
            ≡ as_conflicted (lookup k current) (lookup k incoming))
  unfolding plan_seed lookup any
  plan_seed_lem incoming k =
      let names = sort text_leb (keys incoming) in
      let p = empty_plan incoming in
      (
        ground (
          arith,
          added-seed_each names incoming p k,
          any-sort text_leb (λ j. j == k) (keys incoming),
          is_in-keys k incoming,
        ),
        ground (
          arith,
          unchanged-seed_each names incoming p k,
          any-sort text_leb (λ j. j == k) (keys incoming),
          is_in-keys k incoming,
        ),
        ground (
          arith,
          conflicted-seed_each names incoming p k,
          any-sort text_leb (λ j. j == k) (keys incoming),
          is_in-keys k incoming,
        ),
      )

any-kept :
    (keep : List String) (k : String) (xs : List String)
    → any (λ name. not (is_in name keep) && (name == k)) xs ≡ (is_in k xs && not (is_in k keep))
unfolding any
any-kept keep k [] = refl
any-kept keep k (x ∷ xs) = ground (arith, eq_iff x k, any-kept keep k xs)

-- A prune drops exactly the published names that are not kept.
pub plan_prune_lem :
    (current keep : List String) (k : String)
    → is_in k (plan_prune current keep).dropped ≡ (is_in k current && not (is_in k keep))
unfolding plan_prune
plan_prune_lem current keep k =
    any-sort text_leb (λ j. j == k) (filter (λ name. not (is_in name keep)) (dedup current))
    ∙ any-filter (λ j. j == k) (λ name. not (is_in name keep)) (dedup current)
    ∙ any-kept keep k (dedup current)
    ∙ ground (arith, is_in-dedup k current)
