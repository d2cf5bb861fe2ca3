-- ===== src/Network/Grown.antt =====
-- `allocate` of network.py, and the store's table of addresses.
use mathlib.Core.List.{append-nil, append_assoc}
use infer_stack.Base.{
  String, ◌≡◌, refl, sym, ap, ◌∙◌, subst, false, none, some, List, [], ◌∷◌, ◌++◌, arith, any,
  Option-cases, inl, inr, Dict, lookup, insert, is_in, Distinct, keys, eq_iff, eq_self,
}
use infer_stack.Result.{ok}
use infer_stack.Store.{Store}
use infer_stack.Store.Addresses.{add_service_addresses, add_rows, insert_address}
use infer_stack.Store.Addresses.AppendOnly.{addresses, any-addresses}
use infer_stack.Network.{Subnet, next_free_address, allocate_each, allocate}
use infer_stack.Network.Free.{IsNext, next_free_address-IsNext}

-- Rows to be added, each of a new service at a new address.
abbrev pub IsNew : Dict String → Dict String → Type 0
IsNew rows [] = Unit
IsNew rows ((service, ip) ∷ new) =
    (lookup service rows ≡ none)
    × (is_in ip (addresses rows) ≡ false)
    × IsNew (rows ++ (service, ip) ∷ []) new

pub insert-absent :
    (k : String) (v : String) (d : Dict String)
    → lookup k d ≡ none
    → insert k v d ≡ d ++ (k, v) ∷ []
unfolding insert lookup
insert-absent k v [] h = refl
insert-absent k v ((j, w) ∷ d) h = ground (arith, insert-absent k v d)

-- The next address is in no row.
pub next-fresh :
    (net : Subnet) (rows : Dict String) (ip : String)
    → next_free_address net rows ≡ some ip
    → is_in ip (addresses rows) ≡ false
next-fresh net rows ip e =
    let (h, same, low, high, free, least) =
      subst (IsNext net rows) e (next_free_address-IsNext net rows) in
    ground (arith, ap (λ t. is_in t (addresses rows)) same)

abbrev Adds : Dict String → Dict String → Type 0
Adds rows table = (new : Dict String) × (table ≡ rows ++ new) × IsNew rows new

allocate_each-Adds :
    (net : Subnet) (names : List String) (rows table : Dict String)
    → allocate_each net names rows ≡ some table
    → Adds rows table
unfolding allocate_each
allocate_each-Adds net [] rows table e = ([], ground (arith, append-nil rows), tt)
allocate_each-Adds net (name ∷ names) rows table e = elim (Option-cases (lookup name rows)) [
  | inr (held, f) ↦ allocate_each-Adds net names rows table (ground (arith, f))
  | inl f ↦ elim (Option-cases (next_free_address net rows)) [
    | inl g ↦ ground (arith, f, g)
    | inr (ip, g) ↦
        let (new, same, fresh) =
          allocate_each-Adds net names (rows ++ (name, ip) ∷ []) table
            (ground (arith, f, g, insert-absent name ip rows f)) in
        (
          (name, ip) ∷ new,
          same ∙ append_assoc rows ((name, ip) ∷ []) new,
          (f, next-fresh net rows ip g, fresh),
        )
  ]
]

-- Rows that the store has already.
abbrev Held : Dict String → Dict String → Type 0
Held current [] = Unit
Held current ((service, ip) ∷ rows) = (lookup service current ≡ some ip) × Held current rows

add_rows-Held :
    (current xs new rows : Dict String)
    → Held current xs
    → add_rows current (xs ++ new) rows ≡ add_rows current new rows
unfolding add_rows
add_rows-Held current [] new rows h = refl
add_rows-Held current ((service, ip) ∷ xs) new rows h =
    ground (arith, h.0, eq_self ip, add_rows-Held current xs new rows h.1)

Held-cons :
    (service ip : String) (d xs : Dict String)
    → is_in service (keys xs) ≡ false
    → Held d xs
    → Held ((service, ip) ∷ d) xs
unfolding lookup any
Held-cons service ip d [] h k = tt
Held-cons service ip d ((j, jp) ∷ xs) h k = (
  ground (arith, eq_iff service j, eq_iff j service),
  Held-cons service ip d xs (ground arith) k.1,
)

Held-refl : (d : Dict String) → Distinct (keys d) → Held d d
unfolding lookup
Held-refl [] h = tt
Held-refl ((service, ip) ∷ d) h =
    (ground (arith, eq_self service), Held-cons service ip d d h.0 (Held-refl d h.1))

lookup-append_none :
    (k : String) (xs ys : Dict String) → lookup k (xs ++ ys) ≡ none → lookup k xs ≡ none
unfolding lookup
lookup-append_none k [] ys h = refl
lookup-append_none k ((j, v) ∷ xs) ys h = ground (arith, lookup-append_none k xs ys)

-- New rows are appended one by one; `more` are those that have been.
add_rows-IsNew :
    (current more new : Dict String)
    → IsNew (current ++ more) new
    → add_rows current new (current ++ more) ≡ ok ((current ++ more) ++ new)
unfolding add_rows insert_address
add_rows-IsNew current more [] h = ground (arith, append-nil (current ++ more))
add_rows-IsNew current more ((service, ip) ∷ new) h =
    let rest : IsNew (current ++ (more ++ (service, ip) ∷ [])) new =
      subst (λ d. IsNew d new) (append_assoc current more ((service, ip) ∷ [])) h.2 in
    ground (
      arith,
      lookup-append_none service current more h.0,
      any-addresses ip (current ++ more),
      h.1,
      append_assoc current more ((service, ip) ∷ []),
      append_assoc (current ++ more) ((service, ip) ∷ []) new,
      add_rows-IsNew current (more ++ (service, ip) ∷ []) new rest,
    )

-- When the stored table names no service twice and an allocation from it succeeds, the store accepts the
-- allocated table: adding it succeeds, and then the store holds exactly that table, which is the old
-- one followed by new services at new addresses. Nothing else changes.
pub allocate-add_service_addresses :
    (net : Subnet) (services : List String) (s : Store) (table : Dict String)
    → Distinct (keys s.service_addresses)
    → allocate net s.service_addresses services ≡ some table
    → (add_service_addresses table s ≡ ok (record s { service_addresses = table }))
      × ((new : Dict String) × (table ≡ s.service_addresses ++ new) × IsNew s.service_addresses new)
unfolding allocate add_service_addresses
allocate-add_service_addresses net services s table d e =
    let rows = s.service_addresses in
    let (new, same, fresh) = allocate_each-Adds net _ rows table e in
    (
      ground (
        arith,
        same,
        append-nil rows,
        add_rows-Held rows rows new rows (Held-refl rows d),
        add_rows-IsNew rows [] new (subst (λ x. IsNew x new) (sym (append-nil rows)) fresh),
      ),
      (new, same, fresh),
    )
