-- ===== src/Store/Addresses/AppendOnly.antt =====
-- How the address table of store.py changes.
use infer_stack.Base.{
  String, ◌≡◌, refl, false, ◌||◌, List, [], ◌∷◌, sym, ◌∙◌, subst, ◌++◌, any, is_in, ◌==◌, eq_iff,
  arith, Dict, lookup, Option-cases, Bool-cases, inl, inr, Distinct,
}
use infer_stack.Store.{Store}
use infer_stack.Store.Addresses.{insert_address, add_rows, add_service_addresses}
use infer_stack.Result.{ok, >>=-steps}

abbrev pub addresses : Dict String → List String
addresses [] = []
addresses ((service, ip) ∷ rows) = ip ∷ addresses rows

pub any-addresses :
    (ip : String) (rows : Dict String) → is_in ip (addresses rows) ≡ any (λ row. row.1 == ip) rows
unfolding any
any-addresses ip [] = refl
any-addresses ip ((service, j) ∷ rows) = ground (arith, any-addresses ip rows)

-- A row that is there stays there, at the same place.
abbrev pub Extends : Dict String → Dict String → Type 0
Extends [] new = Unit
Extends (r ∷ rows) [] = ⊥
Extends (r ∷ rows) (q ∷ new) = (r ≡ q) × Extends rows new

Extends-refl : (rows : Dict String) → Extends rows rows
Extends-refl [] = tt
Extends-refl (r ∷ rows) = (refl, Extends-refl rows)

Extends-snoc :
    (rows new : Dict String) (r : String × String) → Extends (rows ++ r ∷ []) new → Extends rows new
Extends-snoc [] new r h = tt
Extends-snoc (q ∷ rows) (p ∷ new) r h = (h.0, Extends-snoc rows new r h.1)
Extends-snoc (q ∷ rows) [] r h = h

Distinct-snoc :
    (rows : Dict String) (service ip : String)
    → is_in ip (addresses rows) ≡ false
    → Distinct (addresses rows)
    → Distinct (addresses (rows ++ (service, ip) ∷ []))
unfolding any
Distinct-snoc [] service ip fresh d = (refl, tt)
Distinct-snoc ((name, j) ∷ rows) service ip fresh d = (
  ground (arith, eq_iff j ip, eq_iff ip j, d.0, is_in-snoc j rows service ip),
  Distinct-snoc rows service ip (ground arith) d.1,
)
  where
    is_in-snoc :
        (k : String) (rows : Dict String) (service ip : String)
        → is_in k (addresses (rows ++ (service, ip) ∷ [])) ≡ (is_in k (addresses rows) || (ip == k))
    is_in-snoc k [] service ip = unfold any in ground arith
    is_in-snoc k ((n, j) ∷ rows) service ip =
        unfold any in ground (arith, is_in-snoc k rows service ip)

abbrev pub Grown : Dict String → Dict String → Type 0
Grown rows new = Extends rows new × Distinct (addresses new)

pub insert_address-ok :
    (service ip : String) (rows new : Dict String)
    → insert_address service ip rows ≡ ok new
    → (new ≡ rows ++ (service, ip) ∷ []) × (is_in ip (addresses rows) ≡ false)
unfolding insert_address
insert_address-ok service ip rows new h = elim (Bool-cases (any (λ row. row.1 == ip) rows)) [
  | inl e ↦ ground (arith, e)
  | inr e ↦ (ground (arith, e), any-addresses ip rows ∙ e)
]

add_rows-Grown :
    (current table rows new : Dict String)
    → Distinct (addresses rows)
    → add_rows current table rows ≡ ok new
    → Grown rows new
unfolding add_rows
add_rows-Grown current [] rows new d h = subst (Grown rows) (ground arith) (Extends-refl rows, d)
add_rows-Grown current ((service, ip) ∷ table) rows new d h =
    elim (Option-cases (lookup service current)) [
      | inl e ↦
          let (mid, f, rest) =
            >>=-steps (insert_address service ip rows) (add_rows current table)
              (ground (arith, e)) in
          let (same, fresh) = insert_address-ok service ip rows mid f in
          let (kept, distinct) =
            add_rows-Grown current table mid new
              (subst (λ m. Distinct (addresses m)) (sym same)
                (Distinct-snoc rows service ip fresh d))
              rest in
          (Extends-snoc rows new (service, ip) (subst (λ m. Extends m new) same kept), distinct)
      | inr (held, e) ↦ elim (Bool-cases (held == ip)) [
        | inl f ↦ add_rows-Grown current table rows new d (ground (arith, e, f))
        | inr f ↦ ground (arith, e, f)
      ]
    ]

-- When no address is held twice and a call adds addresses, every earlier row is still there, at the
-- same place with the same service and address, no address is held twice after, and nothing else of
-- the store has changed.
pub add_service_addresses-append_only :
    (table : Dict String) (s t : Store)
    → Distinct (addresses s.service_addresses)
    → add_service_addresses table s ≡ ok t
    → Grown s.service_addresses t.service_addresses
      × (t ≡ record s { service_addresses = t.service_addresses })
unfolding add_service_addresses
add_service_addresses-append_only table s t d h =
    let (rows, f, same) = >>=-steps (add_rows s.service_addresses table s.service_addresses) _ h in
    (
      subst (λ m. Grown s.service_addresses m) (ground arith)
          (add_rows-Grown s.service_addresses table s.service_addresses rows d f),
      ground arith,
    )
