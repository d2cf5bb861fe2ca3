-- ===== src/Base/Select.antt =====
-- Lookups by a primary key through `sorted`, `map` and a dictionary comprehension.
use Prim.Native.String.{String}
use mathlib.Core.Path.{◌≡◌, refl, sym, ◌∙◌, ap}
use mathlib.Core.Bool.{Bool, false, ◌||◌}
use mathlib.Core.Option.{Option, none, some}
use mathlib.Core.Option
use mathlib.Core.List.{List, [], ◌∷◌, map}
use native.Mathlib.Omega.{arith}
use text.Mathlib.Text.{◌==◌}
use text.Mathlib.TextEquality.{eq_iff}
use mathlib.Core.Logic.{inl, inr}
use infer_stack.Base.Tests.{Bool-cases}
use infer_stack.Base.Lists.{any, any-map, is_in, Distinct}
use infer_stack.Base.Dicts.{Dict, lookup, insert, lookup-insert}
use infer_stack.Base.Table.{select}
use infer_stack.Base.Sort.{sort, insert_sorted, any-sort}

abbrev pub or_else {ℓ} : {A : Type ℓ} → Option A → Option A → Option A
or_else none b = b
or_else (some a) b = some a

module _ {ℓ} {R : Type ℓ} (key : R → String) where
  pub select_absent :
      (k : String) (t : List R) → is_in k (map key t) ≡ false → select key k t ≡ none
  unfolding select any
  select_absent k [] h = refl
  select_absent k (r ∷ t) h = ground (arith, select_absent k t)

  module _ (le : R → R → Bool) where
    is_in-sort : (k : String) (t : List R) → is_in k (map key (sort le t)) ≡ is_in k (map key t)
    is_in-sort k t =
        any-map (λ j. j == k) key (sort le t)
        ∙ any-sort le (λ r. key r == k) t
        ∙ sym (any-map (λ j. j == k) key t)

    is_in-insert_sorted :
        (k : String) (r : R) (t : List R)
        → is_in k (map key (insert_sorted le r t)) ≡ ((key r == k) || is_in k (map key t))
    unfolding any insert_sorted
    is_in-insert_sorted k r [] = refl
    is_in-insert_sorted k r (x ∷ t) = ground (arith, is_in-insert_sorted k r t)

    select-insert_sorted :
        (k : String) (r : R) (t : List R)
        → is_in (key r) (map key t) ≡ false
        → select key k (insert_sorted le r t) ≡ select key k (r ∷ t)
    unfolding select any insert_sorted
    select-insert_sorted k r [] h = refl
    select-insert_sorted k r (x ∷ t) h = ground (
      arith,
      eq_iff (key r) k,
      eq_iff (key x) k,
      eq_iff (key x) (key r),
      select-insert_sorted k r t,
    )

    Distinct-insert_sorted :
        (r : R) (t : List R)
        → is_in (key r) (map key t) ≡ false
        → Distinct (map key t)
        → Distinct (map key (insert_sorted le r t))
    unfolding any insert_sorted
    Distinct-insert_sorted r [] h d = (refl, tt)
    Distinct-insert_sorted r (x ∷ t) h d = ground (
      arith,
      eq_iff (key r) (key x),
      eq_iff (key x) (key r),
      is_in-insert_sorted (key x) r t,
      Distinct-insert_sorted r t,
    )

    -- Sorting a table keeps its key.
    pub Distinct-sort : (t : List R) → Distinct (map key t) → Distinct (map key (sort le t))
    unfolding sort
    Distinct-sort [] d = tt
    Distinct-sort (r ∷ t) d =
        Distinct-insert_sorted r (sort le t) (is_in-sort (key r) t ∙ d.0) (Distinct-sort t d.1)

    -- and its rows.
    pub select-sort :
        (k : String) (t : List R) → Distinct (map key t) → select key k (sort le t) ≡ select key k t
    unfolding sort select
    select-sort k [] d = refl
    select-sort k (r ∷ t) d = ground (
      arith,
      select-insert_sorted k r (sort le t) (is_in-sort (key r) t ∙ d.0),
      select-sort k t d.1,
    )

  module _ (f : R → R) (keeps : (r : R) → key (f r) ≡ key r) where
    pub select-map :
        (k : String) (t : List R) → select key k (map f t) ≡ Option.map f (select key k t)
    unfolding select
    select-map k [] = refl
    select-map k (r ∷ t) =
        ground (arith, keeps r, eq_iff (key r) k, eq_iff (key (f r)) k, select-map k t)

    pub keys-map : (t : List R) → map key (map f t) ≡ map key t
    keys-map [] = refl
    keys-map (r ∷ t) = ground (arith, keeps r, keys-map t)

  -- `{key(r): r for r in rows}`, from a dictionary.
  abbrev pub by_key : List R → Dict R → Dict R
  by_key [] d = d
  by_key (r ∷ t) d = by_key t (insert (key r) r d)

  pub lookup-by_key :
      (k : String) (t : List R) (d : Dict R)
      → Distinct (map key t)
      → lookup k (by_key t d) ≡ or_else (select key k t) (lookup k d)
  unfolding select
  lookup-by_key k [] d h = refl
  lookup-by_key k (r ∷ t) d h = ground (
    arith,
    eq_iff (key r) k,
    lookup-insert (key r) k r d,
    lookup-by_key k t (insert (key r) r d) h.1,
    select_absent (key r) t h.0,
  )

  -- Every entry stands under its own key, and no key stands twice.
  abbrev pub IsKeyed : Dict R → Type ℓ
  IsKeyed [] = Unit
  IsKeyed ((k, r) ∷ d) = (key r ≡ k) × (lookup k d ≡ none) × IsKeyed d

  insert-IsKeyed : (r : R) (d : Dict R) → IsKeyed d → IsKeyed (insert (key r) r d)
  unfolding insert lookup
  insert-IsKeyed r [] h = (refl, refl, tt)
  insert-IsKeyed r ((k, x) ∷ d) h = elim (Bool-cases (k == key r)) [
    | inl e ↦ rw e (refl, ap (λ j. lookup j d) (sym ((eq_iff k (key r)).0 e)) ∙ h.1, h.2)
    | inr e ↦ rw e (
      h.0,
      ground (arith, eq_iff (key r) k, eq_iff k (key r), e, lookup-insert (key r) k r d, h.1),
      insert-IsKeyed r d h.2,
    )
  ]

  pub by_key-IsKeyed : (t : List R) (d : Dict R) → IsKeyed d → IsKeyed (by_key t d)
  by_key-IsKeyed [] d h = h
  by_key-IsKeyed (r ∷ t) d h = by_key-IsKeyed t (insert (key r) r d) (insert-IsKeyed r d h)
