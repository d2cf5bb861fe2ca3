-- ===== src/Routes.antt =====
-- infer_stack/leasing/routes.py: the gateway's route table, and what a seed or a prune of it would do.
pub mod Table
pub mod Seed
use infer_stack.Base.{
  ℕ, String, Bool, true, false, not, ◌&&◌, Option, none, some, List, [], ◌∷◌, ◌++◌, map, filter,
  sort, text_leb, ◌==◌, eqb, if◌then◌else◌, Dict, lookup, insert, keys, is_in, dedup,
}

pub record GatewayRoute : Type 0 where
  pub alias : String
  pub kind : String
  pub model : String
  pub api_base : String
  pub key_env : Option String
  pub route_id : Option String
  pub origin : String
  pub max_input_tokens : Option ℕ

-- The dictionary that a later route of the same alias overwrites.
unfoldable pub add_routes : List GatewayRoute → Dict GatewayRoute → Dict GatewayRoute
add_routes [] table = table
add_routes (r ∷ rs) table = add_routes rs (insert r.alias r table)

unfoldable pub add_layers : List (List GatewayRoute) → Dict GatewayRoute → Dict GatewayRoute
unfolding add_routes
add_layers [] table = table
add_layers (layer ∷ layers) table = add_layers layers (add_routes layer table)

-- The values of these keys.
unfoldable pub values {ℓ} : {V : Type ℓ} → List String → Dict V → List V
values [] d = []
values (k ∷ ks) d = elim (lookup k d) [ none ↦ values ks d | some v ↦ v ∷ values ks d ]

unfoldable pub route_table : List (List GatewayRoute) → List GatewayRoute
unfolding add_layers values
route_table layers = let table = add_layers layers [] in values (sort text_leb (keys table)) table

abbrev same_text : Option String → Option String → Bool
same_text none none = true
same_text (some a) (some b) = a == b
same_text _ _ = false

abbrev same_number : Option ℕ → Option ℕ → Bool
same_number none none = true
same_number (some a) (some b) = eqb a b
same_number _ _ = false

-- The dataclass's `==`: the origin is not compared.
abbrev pub same_route : GatewayRoute → GatewayRoute → Bool
same_route a b =
    a.alias == b.alias
    && a.kind == b.kind
    && a.model == b.model
    && a.api_base == b.api_base
    && same_text a.key_env b.key_env
    && same_text a.route_id b.route_id
    && same_number a.max_input_tokens b.max_input_tokens

pub record Meaning : Type 0 where
  pub route : Option GatewayRoute
  pub key : Option String

abbrev pub same_option : Option GatewayRoute → Option GatewayRoute → Bool
same_option none none = true
same_option (some a) (some b) = same_route a b
same_option _ _ = false

-- By their keys when both have one, else by the routes.
unfoldable pub same_meaning : Meaning → Meaning → Bool
same_meaning a b = elim a.key [
  | none ↦ same_option a.route b.route
  | some j ↦ elim b.key [ none ↦ same_option a.route b.route | some k ↦ j == k ]
]

-- Of a plan the parts that these two functions fill.
pub record RoutePlan {ℓ} (A : Type ℓ) : Type ℓ where
  pub added : Dict A
  pub unchanged : List String
  pub conflicted : Dict (A × A)
  pub dropped : List String
  pub incoming : Dict A

abbrev pub empty_plan {ℓ} : {A : Type ℓ} → Dict A → RoutePlan A
empty_plan incoming = record {
  added = [];
  unchanged = [];
  conflicted = [];
  dropped = [];
  incoming = incoming;
}

module _ {ℓ} {A : Type ℓ} (same : A → A → Bool) (current : Dict A) where
  -- One name of the loop.
  unfoldable pub seed_one : String → A → RoutePlan A → RoutePlan A
  seed_one name row p = elim (lookup name current) [
    | none ↦ record p { added = insert name row p.added }
    | some held ↦
        if same held row
        then record p { unchanged = p.unchanged ++ name ∷ [] }
        else record p { conflicted = insert name (held, row) p.conflicted }
  ]

  unfoldable pub seed_each : List String → Dict A → RoutePlan A → RoutePlan A
  unfolding seed_one
  seed_each [] incoming p = p
  seed_each (name ∷ names) incoming p = elim (lookup name incoming) [
    | none ↦ seed_each names incoming p
    | some row ↦ seed_each names incoming (seed_one name row p)
  ]

  unfoldable pub plan_seed : Dict A → RoutePlan A
  unfolding seed_each
  plan_seed incoming = seed_each (sort text_leb (keys incoming)) incoming (empty_plan incoming)

unfoldable pub plan_prune : List String → List String → RoutePlan String
plan_prune current keep = record (empty_plan []) {
  dropped = sort text_leb (filter (λ name. not (is_in name keep)) (dedup current));
}
