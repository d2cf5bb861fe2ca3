-- ===== src/Network/Outcome.antt =====
-- What `allocate` of network.py does for the services that are asked for.
use mathlib.Core.List.{append-nil, append_assoc}
use infer_stack.Base.{
  String, ◌≡◌, refl, sym, ◌∙◌, subst, Bool, true, false, Option, none, some, List, [], ◌∷◌, ◌++◌,
  arith, any, all, Option-cases, inl, inr, Dict, lookup, is_in, keys, eq_self, holds, ◌==◌, sort,
  text_leb, any-sort, all-sort,
}
use infer_stack.Network.{Subnet, next_free_address, allocate_each, allocate}
use infer_stack.Network.Free.{IsNext, next_free_address-IsNext}
use infer_stack.Network.Grown.{IsNew, insert-absent, next-fresh}

abbrev pub has_address : Dict String → String → Bool
has_address table name = holds (λ ip. true) (lookup name table)

-- Rows that are added: new services at new addresses, each of a service that is asked for.
abbrev pub IsAdded : List String → Dict String → Dict String → Type 0
IsAdded services rows new = IsNew rows new × (all (λ name. is_in name services) (keys new) ≡ true)

abbrev pub Outcome : Subnet → List String → Dict String → Option (Dict String) → Type 0
Outcome net services rows (some table) =
    ((new : Dict String) × (table ≡ rows ++ new) × IsAdded services rows new)
    × (all (has_address table) services ≡ true)
Outcome net services rows none =
    (new : Dict String) × IsAdded services rows new
    × IsNext net (rows ++ new) none
    × ((name : String) × (is_in name services ≡ true) × (has_address (rows ++ new) name ≡ false))

all-cons :
    (name : String) (names xs : List String)
    → all (λ k. is_in k names) xs ≡ true
    → all (λ k. is_in k (name ∷ names)) xs ≡ true
unfolding all any
all-cons name names [] h = refl
all-cons name names (x ∷ xs) h = ground (arith, all-cons name names xs)

lookup-kept :
    (k ip : String) (xs ys : Dict String) → lookup k xs ≡ some ip → lookup k (xs ++ ys) ≡ some ip
unfolding lookup
lookup-kept k ip [] ys h = cc
lookup-kept k ip ((j, v) ∷ xs) ys h = ground (arith, lookup-kept k ip xs ys)

lookup-added :
    (k ip : String) (xs : Dict String)
    → lookup k xs ≡ none
    → lookup k (xs ++ (k, ip) ∷ []) ≡ some ip
unfolding lookup
lookup-added k ip [] h = ground (arith, eq_self k)
lookup-added k ip ((j, v) ∷ xs) h = ground (arith, lookup-added k ip xs)

-- A service with an address is asked for as well.
with_held :
    (net : Subnet) (name held : String) (names : List String) (rows : Dict String)
    (o : Option (Dict String))
    → lookup name rows ≡ some held
    → Outcome net names rows o
    → Outcome net (name ∷ names) rows o
unfolding all any
with_held net name held names rows none f (new, (fresh, of), full, (left, asked, lacks)) =
    (new, (fresh, all-cons name names (keys new) of), full, (left, ground (arith, asked), lacks))
with_held net name held names rows (some table) f ((new, same, (fresh, of)), served) = (
  (new, same, (fresh, all-cons name names (keys new) of)),
  ground (arith, served, same, lookup-kept name held rows new f),
)

-- A service without one is given this one first.
with_next :
    (net : Subnet) (name ip : String) (names : List String) (rows : Dict String)
    (o : Option (Dict String))
    → lookup name rows ≡ none
    → next_free_address net rows ≡ some ip
    → Outcome net names (rows ++ (name, ip) ∷ []) o
    → Outcome net (name ∷ names) rows o
unfolding all any
with_next net name ip names rows none f g (new, (fresh, of), full, (left, asked, lacks)) = (
  (name, ip) ∷ new,
  (
    (f, next-fresh net rows ip g, fresh),
    ground (arith, eq_self name, all-cons name names (keys new) of),
  ),
  subst (λ d. IsNext net d none) (append_assoc rows ((name, ip) ∷ []) new) full,
  (
    left,
    ground (arith, asked),
    subst (λ d. has_address d left ≡ false) (append_assoc rows ((name, ip) ∷ []) new) lacks,
  ),
)
with_next net name ip names rows (some table) f g ((new, same, (fresh, of)), served) = (
  (
    (name, ip) ∷ new,
    same ∙ append_assoc rows ((name, ip) ∷ []) new,
    (
      (f, next-fresh net rows ip g, fresh),
      ground (arith, eq_self name, all-cons name names (keys new) of),
    ),
  ),
  ground (
    arith,
    served,
    same,
    lookup-kept name ip (rows ++ (name, ip) ∷ []) new (lookup-added name ip rows f),
  ),
)

allocate_each-Outcome :
    (net : Subnet) (names : List String) (rows : Dict String)
    → Outcome net names rows (allocate_each net names rows)
unfolding allocate_each all any
allocate_each-Outcome net [] rows = (([], sym (append-nil rows), (tt, refl)), refl)
allocate_each-Outcome net (name ∷ names) rows = elim (Option-cases (lookup name rows)) [
  | inr (held, f) ↦
      rw (f, allocate_each)
        (with_held net name held names rows _ f (allocate_each-Outcome net names rows))
  | inl f ↦ elim (Option-cases (next_free_address net rows)) [
    | inl g ↦
        rw (f, g, allocate_each)
          (
            [],
            (tt, refl),
            subst (λ d. IsNext net d none) (sym (append-nil rows))
                (subst (IsNext net rows) g (next_free_address-IsNext net rows)),
            (name, ground (arith, eq_self name), ground (arith, f, append-nil rows)),
          )
    | inr (ip, g) ↦
        rw (f, g, allocate_each, insert-absent name ip rows f)
          (with_next net name ip names rows _ f g
            (allocate_each-Outcome net names (rows ++ (name, ip) ∷ [])))
  ]
]

-- Sorting asks for the same services.
members :
    (services xs : List String)
    → all (λ k. is_in k (sort text_leb services)) xs ≡ true
    → all (λ k. is_in k services) xs ≡ true
unfolding all
members services [] h = refl
members services (x ∷ xs) h =
    ground (arith, any-sort text_leb (λ j. j == x) services, members services xs)

sorted-Outcome :
    (net : Subnet) (services : List String) (rows : Dict String) (o : Option (Dict String))
    → Outcome net (sort text_leb services) rows o
    → Outcome net services rows o
sorted-Outcome net services rows none (new, (fresh, of), full, (left, asked, lacks)) = (
  new,
  (fresh, members services (keys new) of),
  full,
  (left, sym (any-sort text_leb (λ j. j == left) services) ∙ asked, lacks),
)
sorted-Outcome net services rows (some table) ((new, same, (fresh, of)), served) = (
  (new, same, (fresh, members services (keys new) of)),
  sym (all-sort text_leb (has_address table) services) ∙ served,
)

-- An allocation only appends rows to the table: new services at new addresses, each of a service that is
-- asked for. It succeeds with an address for every service that is asked for, and it is refused only
-- when such rows leave no host of the subnet free, each being the gateway or taken, while a service
-- that is asked for still has no address.
pub allocate-Outcome :
    (net : Subnet) (services : List String) (existing : Dict String)
    → Outcome net services existing (allocate net existing services)
unfolding allocate
allocate-Outcome net services existing =
    sorted-Outcome net services existing _
      (allocate_each-Outcome net (sort text_leb services) existing)
