-- ===== src/Tests/Models.antt =====
-- Capacities.
use infer_stack.Base.{ℕ, ◌≡◌, refl, true, false, some, [], ◌∷◌, ◌↔◌, Dict, String, lookup, any}
use infer_stack.Models.{capacity_satisfies}
use infer_stack.Models.Capacity.{covers, capacity_satisfies_iff}

abbrev small : Dict ℕ
small = ("max_model_len", 4) ∷ []

abbrev large : Dict ℕ
large = ("max_model_len", 8) ∷ ("max_num_seqs", 2) ∷ []

too_small : capacity_satisfies small large ≡ false
unfolding capacity_satisfies lookup
too_small = refl

capacity_satisfies_iff_example :
    (capacity_satisfies large small ≡ true)
    ↔ ((k : String) (need : ℕ) → lookup k small ≡ some need → covers (lookup k large) need ≡ true)
capacity_satisfies_iff_example = capacity_satisfies_iff large small (unfold any in refl, tt)
