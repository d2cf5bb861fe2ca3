-- ===== src/Routes/Table.antt =====
-- `route_table` of routes.py, alias by alias.
use infer_stack.Base.{
  String, ◌≡◌, refl, Bool, true, Option, none, some, List, [], ◌∷◌, any, any-sort, sort, text_leb,
  ◌==◌, eq_iff, arith, Dict, lookup, insert, lookup-insert, keys, is_in, select, holds,
  Option-cases, inl, inr, if◌then◌else◌,
}
use infer_stack.Routes.{GatewayRoute, add_routes, add_layers, values, route_table}

abbrev pub alias_of : GatewayRoute → String
alias_of r = r.alias

-- The last route of an alias, or what there was.
abbrev pub last_in : String → List GatewayRoute → Option GatewayRoute → Option GatewayRoute
last_in k [] old = old
last_in k (r ∷ rs) old = last_in k rs (if r.alias == k then some r else old)

abbrev pub last_route :
    String → List (List GatewayRoute) → Option GatewayRoute → Option GatewayRoute
last_route k [] old = old
last_route k (layer ∷ layers) old = last_route k layers (last_in k layer old)

lookup-add_routes :
    (k : String) (rs : List GatewayRoute) (d : Dict GatewayRoute)
    → lookup k (add_routes rs d) ≡ last_in k rs (lookup k d)
unfolding add_routes
lookup-add_routes k [] d = refl
lookup-add_routes k (r ∷ rs) d =
    ground (arith, lookup-add_routes k rs (insert r.alias r d), lookup-insert r.alias k r d)

lookup-add_layers :
    (k : String) (layers : List (List GatewayRoute)) (d : Dict GatewayRoute)
    → lookup k (add_layers layers d) ≡ last_route k layers (lookup k d)
unfolding add_layers
lookup-add_layers k [] d = refl
lookup-add_layers k (layer ∷ layers) d =
    ground (arith, lookup-add_layers k layers (add_routes layer d), lookup-add_routes k layer d)

abbrev is_keyed : String → Option GatewayRoute → Bool
is_keyed k none = true
is_keyed k (some r) = r.alias == k

is_keyed-last_in :
    (k : String) (rs : List GatewayRoute) (old : Option GatewayRoute)
    → is_keyed k old ≡ true
    → is_keyed k (last_in k rs old) ≡ true
is_keyed-last_in k [] old h = h
is_keyed-last_in k (r ∷ rs) old h =
    is_keyed-last_in k rs (if r.alias == k then some r else old) (ground arith)

is_keyed-last_route :
    (k : String) (layers : List (List GatewayRoute)) (old : Option GatewayRoute)
    → is_keyed k old ≡ true
    → is_keyed k (last_route k layers old) ≡ true
is_keyed-last_route k [] old h = h
is_keyed-last_route k (layer ∷ layers) old h =
    is_keyed-last_route k layers (last_in k layer old) (is_keyed-last_in k layer old h)

is_in-keys :
    (k : String) (d : Dict GatewayRoute) → is_in k (keys d) ≡ holds (λ r. true) (lookup k d)
unfolding any lookup
is_in-keys k [] = refl
is_in-keys k ((j, r) ∷ d) = ground (arith, is_in-keys k d)

select-values :
    (k : String) (ks : List String) (d : Dict GatewayRoute)
    → ((j : String) → is_keyed j (lookup j d) ≡ true)
    → select alias_of k (values ks d) ≡ (if is_in k ks then lookup k d else none)
unfolding select values any
select-values k [] d h = refl
select-values k (j ∷ ks) d h = elim (Option-cases (lookup j d)) [
  | inl e ↦ ground (arith, e, eq_iff j k, select-values k ks d h)
  | inr (r, e) ↦
      ground (arith, e, h j, eq_iff j k, eq_iff r.alias j, eq_iff r.alias k, select-values k ks d h)
]

-- An alias's route in the table is the last one that the layers give it, so that a later layer wins
-- over an earlier one; an alias that no layer gives has none.
pub select-route_table :
    (k : String) (layers : List (List GatewayRoute))
    → select alias_of k (route_table layers) ≡ last_route k layers none
unfolding route_table lookup
select-route_table k layers =
    let d = add_layers layers [] in
    ground (
      arith,
      select-values k (sort text_leb (keys d)) d (λ j.
          ground (arith, lookup-add_layers j layers [], is_keyed-last_route j layers none refl)),
      any-sort text_leb (λ j. j == k) (keys d),
      is_in-keys k d,
      lookup-add_layers k layers [],
    )
