-- ===== src/Base/Table.antt =====
-- A table of rows with a primary key: `SELECT` and `UPDATE … WHERE id = ?`.
use Prim.Native.String.{String}
use mathlib.Core.Path.{◌≡◌, refl, sym, ap, ◌∙◌, subst}
use mathlib.Core.Bool.{Bool, true, false, ◌&&◌}
use mathlib.Core.Option.{Option, none, some}
use mathlib.Core.Option
use mathlib.Core.List.{List, [], ◌∷◌, ◌++◌, map}
use native.Mathlib.Omega.{arith}
use text.Mathlib.Text.{◌==◌}
use text.Mathlib.TextEquality.{eq_iff}
use infer_stack.Base.Tests.{if◌then◌else◌, eq_self}
use infer_stack.Base.Lists.{any, is_in, Distinct, All}

abbrev pub holds {ℓ} : {R : Type ℓ} → (R → Bool) → Option R → Bool
holds p none = false
holds p (some r) = p r

module _ {ℓ} {R : Type ℓ} (key : R → String) where
  -- The row with this key.
  unfoldable pub select : String → List R → Option R
  select k [] = none
  select k (r ∷ t) = if key r == k then some r else select k t

  unfoldable pub update : String → (R → R) → List R → List R
  update k f [] = []
  update k f (r ∷ t) = (if key r == k then f r else r) ∷ update k f t

  pub select-key : (k : String) (t : List R) {r : R} → select k t ≡ some r → key r ≡ k
  unfolding select
  select-key k [] e = cc
  select-key k (x ∷ t) {r} e = ground (arith, eq_iff (key x) k, select-key k t {r = r})

  pub select-append :
      (k : String) (t u : List R)
      → select k (t ++ u) ≡ elim (select k t) [ none ↦ select k u | some r ↦ some r ]
  unfolding select
  select-append k [] u = refl
  select-append k (r ∷ t) u = ground (arith, select-append k t u)

  pub select-update :
      (j k : String) (f : R → R) (t : List R)
      → ((r : R) → key (f r) ≡ key r)
      → select k (update j f t) ≡ (if j == k then Option.map f (select k t) else select k t)
  unfolding select update
  select-update j k f [] keeps = ground arith
  select-update j k f (r ∷ t) keeps = ground (
    arith,
    keeps r,
    eq_iff (key r) j,
    eq_iff (key r) k,
    eq_iff (key (f r)) k,
    eq_iff j k,
    select-update j k f t keeps,
  )

  absent_key :
      (k : String) (p : R → Bool) (t : List R)
      → is_in k (map key t) ≡ false
      → any (λ r. key r == k && p r) t ≡ false
  unfolding any
  absent_key k p [] d = refl
  absent_key k p (r ∷ t) d = ground (arith, absent_key k p t)

  -- Under a primary key, a search for a key is the selected row's test.
  pub any-select :
      (k : String) (p : R → Bool) (t : List R)
      → Distinct (map key t)
      → any (λ r. key r == k && p r) t ≡ holds p (select k t)
  unfolding any select
  any-select k p [] d = refl
  any-select k p (r ∷ t) d =
      ground (arith, eq_iff (key r) k, any-select k p t d.1, absent_key (key r) p t d.0)

  pub map-update :
      (k : String) (f : R → R) (t : List R)
      → ((r : R) → key (f r) ≡ key r)
      → map key (update k f t) ≡ map key t
  unfolding update
  map-update k f [] keeps = refl
  map-update k f (r ∷ t) keeps = ground (arith, keeps r, map-update k f t keeps)

  pub select-is_in :
      (k : String) (t : List R) {r : R} → select k t ≡ some r → is_in k (map key t) ≡ true
  unfolding any select
  select-is_in k [] e = cc
  select-is_in k (x ∷ t) {r} e = ground (arith, select-is_in k t {r = r})

  -- The rows of these keys, in the keys' order.
  abbrev pub select_all : List String → List R → List R
  select_all [] t = []
  select_all (k ∷ ks) t = elim (select k t) [
    | none ↦ select_all ks t
    | some r ↦ r ∷ select_all ks t
  ]

  select_all-cons :
      (ks : List String) (r : R) (t : List R)
      → is_in (key r) ks ≡ false
      → select_all ks (r ∷ t) ≡ select_all ks t
  unfolding any select
  select_all-cons [] r t absent = refl
  select_all-cons (k ∷ ks) r t absent =
      ground (arith, eq_iff (key r) k, eq_iff k (key r), select_all-cons ks r t)

  -- A table is the rows of its keys.
  pub select_all_self : (t : List R) → Distinct (map key t) → select_all (map key t) t ≡ t
  unfolding select
  select_all_self [] d = refl
  select_all_self (r ∷ t) d =
      ground
        (arith, eq_iff (key r) (key r), select_all-cons (map key t) r t d.0, select_all_self t d.1)

  select_all-map :
      (f : R → R) (t u : List R) (ks : List String)
      → ((k : String) → select k u ≡ Option.map f (select k t))
      → select_all ks u ≡ map f (select_all ks t)
  select_all-map f t u [] same = refl
  select_all-map f t u (k ∷ ks) same = ground (arith, same k, select_all-map f t u ks same)

  -- Two tables with the same keys, one looked up as the image of the other, are so row by row.
  pub table_ext :
      (f : R → R) (t u : List R)
      → Distinct (map key t)
      → map key u ≡ map key t
      → ((k : String) → select k u ≡ Option.map f (select k t))
      → u ≡ map f t
  table_ext f t u d e same =
      sym (select_all_self u (subst Distinct (sym e) d))
      ∙ ap (λ ks. select_all ks u) e
      ∙ select_all-map f t u (map key t) same
      ∙ ap (map f) (select_all_self t d)

  -- A property of every row that can be selected is one of every row.
  pub All-of_select {κ} :
      (P : R → Type κ) (t : List R)
      → Distinct (map key t)
      → ((k : String) (r : R) → select k t ≡ some r → P r)
      → All P t
  All-of_select P [] d h = tt
  All-of_select P (r ∷ t) d h = (
    h (key r) r (unfold select in rw eq_self),
    All-of_select P t d.1 (λ k x e. h k x (select-tail k x e)),
  )
    where
      select-tail : (k : String) (x : R) → select k t ≡ some x → select k (r ∷ t) ≡ some x
      select-tail k x e =
          unfold select any in
          ground (arith, eq_iff (key r) k, eq_iff k (key r), select-is_in k t {r = x} e, d.0)
