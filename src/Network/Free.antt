-- ===== src/Network/Free.antt =====
-- `next_free_address` of network.py, by the hosts of the subnet.
use infer_stack.Base.{
  ℕ, zero, suc, ◌+◌, ◌≤◌, ◌<◌, String, ◌≡◌, refl, true, false, inl, inr, Option, none, some, arith,
  Bool-cases, Dict, eqb, subst,
}
use infer_stack.Network.{
  Subnet, search_free, next_free_address, first_host, host_count, is_used, address_text, text_found,
}

abbrev pub Found : Subnet → Dict String → ℕ → ℕ → Option ℕ → Type 0
Found net taken left host none = (k : ℕ) → host ≤ k → k < host + left → is_used net taken k ≡ true
Found net taken left host (some h) =
    (host ≤ h)
    × (h < host + left)
    × (is_used net taken h ≡ false)
    × ((k : ℕ) → host ≤ k → k < h → is_used net taken k ≡ true)

-- One used host more, below.
below :
    (net : Subnet) (taken : Dict String) (left host : ℕ) (o : Option ℕ)
    → is_used net taken host ≡ true
    → Found net taken left (host + 1) o
    → Found net taken (suc left) host o
below net taken left host none used found = λ k p q. elim (Bool-cases (eqb k host)) [
  | inl e ↦ subst (λ j. is_used net taken j ≡ true) (ground (arith, e)) used
  | inr e ↦ found k (ground (arith, e)) (omega arith)
]
below net taken left host (some h) used found = (
  omega (arith, found.0),
  omega (arith, found.1),
  found.2,
  λ k p q. elim (Bool-cases (eqb k host)) [
    | inl e ↦ subst (λ j. is_used net taken j ≡ true) (ground (arith, e)) used
    | inr e ↦ found.3 k (ground (arith, e)) q
  ],
)

search_free-Found :
    (net : Subnet) (taken : Dict String) (left host : ℕ)
    → Found net taken left host (search_free net taken left host)
unfolding search_free
search_free-Found net taken zero host = λ k p q. absurd (omega arith)
search_free-Found net taken (suc left) host = elim (Bool-cases (is_used net taken host)) [
  | inl e ↦ rw e (
      below net taken left host (search_free net taken left (host + 1)) e
        (search_free-Found net taken left (host + 1)))
  | inr e ↦ rw e (omega arith, omega arith, e, λ k p q. absurd (omega arith))
]

-- Where the host's text stands for it.
abbrev pub IsNext : Subnet → Dict String → Option String → Type 0
IsNext net taken none =
    (k : ℕ) → first_host net ≤ k → k < first_host net + host_count net → is_used net taken k ≡ true
IsNext net taken (some ip) =
    (h : ℕ) × (ip ≡ address_text h)
    × (first_host net ≤ h)
    × (h < first_host net + host_count net)
    × (is_used net taken h ≡ false)
    × ((k : ℕ) → first_host net ≤ k → k < h → is_used net taken k ≡ true)

-- The next free address is the lowest host of the subnet that is neither the gateway nor taken; there is
-- none exactly when every host is one of these.
pub next_free_address-IsNext :
    (net : Subnet) (taken : Dict String) → IsNext net taken (next_free_address net taken)
unfolding next_free_address
next_free_address-IsNext net taken =
    next (search_free net taken (host_count net) (first_host net))
      (search_free-Found net taken (host_count net) (first_host net))
  where
    next :
        (o : Option ℕ)
        → Found net taken (host_count net) (first_host net) o
        → IsNext net taken (text_found o)
    next none found = found
    next (some h) found = (h, refl, found.0, found.1, found.2, found.3)
