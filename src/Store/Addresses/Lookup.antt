-- ===== src/Store/Addresses/Lookup.antt =====
-- The address table as a partial map from services to addresses.
use mathlib.Core.Path.{fun_ext}
use infer_stack.Base.{
  String, ◌≡◌, refl, Option, some, [], ◌∷◌, ◌++◌, arith, Bool-cases, Option-cases, inl, inr, Dict,
  lookup, or_else, ◌==◌, eq_iff,
}
use infer_stack.Result.{ok, >>=-steps}
use infer_stack.Store.{Store}
use infer_stack.Store.Addresses.{insert_address, add_rows, add_service_addresses}
use infer_stack.Store.Addresses.AppendOnly.{insert_address-ok}

lookup-append :
    (k : String) (xs ys : Dict String) → lookup k (xs ++ ys) ≡ or_else (lookup k xs) (lookup k ys)
unfolding lookup
lookup-append k [] ys = refl
lookup-append k ((j, v) ∷ xs) ys = ground (arith, lookup-append k xs ys)

-- What `current` says, the rows say.
abbrev Covers : Dict String → Dict String → Type 0
Covers current rows = (k held : String) → lookup k current ≡ some held → lookup k rows ≡ some held

abbrev Merged : Dict String → Dict String → Dict String → String → Type 0
Merged rows table new k = (lookup k new ≡ or_else (lookup k rows) (lookup k table))

add_rows-Merged :
    (current table rows new : Dict String) (k : String)
    → Covers current rows
    → add_rows current table rows ≡ ok new
    → Merged rows table new k
unfolding add_rows lookup
add_rows-Merged current [] rows new k h e = ground (arith, Option-cases (lookup k rows))
add_rows-Merged current ((service, ip) ∷ table) rows new k h e =
    elim (Option-cases (lookup service current)) [
      | inl f ↦
          let (mid, g, rest) =
            >>=-steps (insert_address service ip rows) (add_rows current table) {last = new}
              (ground (arith, f)) in
          let (same, fresh) = insert_address-ok service ip rows mid g in
          let covers : Covers current mid = λ j held q.
            ground (arith, same, h j held q, lookup-append j rows ((service, ip) ∷ [])) in
          ground (
            arith,
            same,
            eq_iff service k,
            Option-cases (lookup k rows),
            lookup-append k rows ((service, ip) ∷ []),
            add_rows-Merged current table mid new k covers rest,
          )
      | inr (held, f) ↦ elim (Bool-cases (held == ip)) [
        | inr g ↦ ground (arith, f, g)
        | inl g ↦ ground (
          arith,
          eq_iff service k,
          h service held f,
          add_rows-Merged current table rows new k h (ground (arith, f, g)),
        )
      ]
    ]

-- The abstract table: which address a service has.
abbrev pub AddressMap : Type 0
AddressMap = String → Option String

abbrev pub view : Store → AddressMap
view s service = lookup service s.service_addresses

-- What is held stays, and what is not is taken from the given addresses.
abbrev pub keep_or_add : AddressMap → AddressMap → AddressMap
keep_or_add held given service = or_else (held service) (given service)

-- A call that succeeds in adding addresses is, on the abstract table, the union in which each service
-- that has an address keeps it.
pub add_service_addresses-view :
    (table : Dict String) (s t : Store)
    → add_service_addresses table s ≡ ok t
    → view t ≡ keep_or_add (view s) (λ service. lookup service table)
unfolding add_service_addresses
add_service_addresses-view table s t e =
    let rows = s.service_addresses in
    let (new, f, same) = >>=-steps (add_rows rows table rows) _ e in
    fun_ext (λ k. ground (arith, same, add_rows-Merged rows table rows new k (λ j held q. q) f))
