-- ===== src/Tests/Routes.antt =====
-- Routes of one alias from two layers, and the plans of a seed and a prune.
use infer_stack.Base.{
  ◌≡◌, String, Bool, none, some, List, [], ◌∷◌, Dict, lookup, is_in, select, ◌==◌,
}
use infer_stack.Routes.{GatewayRoute, route_table, plan_seed}
use infer_stack.Routes.Table.{alias_of, select-route_table}
use infer_stack.Routes.Seed.{as_unchanged, plan_seed_lem}

abbrev route : String → GatewayRoute
route base = record {
  alias = "a";
  kind = "openai";
  model = "m";
  api_base = base;
  key_env = none;
  route_id = none;
  origin = "catalog";
  max_input_tokens = none;
}

abbrev layers : List (List GatewayRoute)
layers = (route "http://old/v1" ∷ []) ∷ (route "http://new/v1" ∷ []) ∷ []

select-route_table_example : select alias_of "a" (route_table layers) ≡ some (route "http://new/v1")
select-route_table_example = select-route_table "a" layers

abbrev same_text : String → String → Bool
same_text a b = a == b

abbrev published : Dict String
published = ("a", "1") ∷ ("b", "2") ∷ []

abbrev seeded : Dict String
seeded = ("a", "1") ∷ ("b", "9") ∷ ("c", "3") ∷ []

plan_seed_lem_example :
    (lookup "b" (plan_seed same_text published seeded).added ≡ none)
    × (is_in "b" (plan_seed same_text published seeded).unchanged
        ≡ as_unchanged same_text published (some "2") (some "9"))
    × (lookup "b" (plan_seed same_text published seeded).conflicted ≡ some ("2", "9"))
unfolding lookup
plan_seed_lem_example = plan_seed_lem same_text published seeded "b"
