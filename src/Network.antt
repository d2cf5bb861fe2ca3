-- ===== src/Network.antt =====
-- infer_stack/leasing/network.py: stable addresses for services. A subnet is its parsed address and
-- prefix length. `ip_address` reads no text but the one that `str` gives, so an address is among others
-- exactly when its text is.
pub mod Free
pub mod Grown
pub mod Outcome
use Prim.Native.Nat.{◌/◌, ◌%◌, ◌^◌}
use Prim.Native.String.{◌++◌ as append}
use infer_stack.Base.{
  ℕ, zero, suc, ◌+◌, ◌-◌, ◌*◌, String, Bool, true, false, ◌&&◌, ◌||◌, Option, none, some, List, [],
  ◌∷◌, any, eqb, ltb, if◌then◌else◌, is_in, Dict, lookup, insert, sort, text_leb, dedup,
}
use infer_stack.Store.Addresses.AppendOnly.{addresses}

-- An IPv4 network: `ip_network(subnet)`.
pub record Subnet : Type 0 where
  pub network_address : ℕ
  pub prefixlen : ℕ

abbrev digits : List String
digits = "0" ∷ "1" ∷ "2" ∷ "3" ∷ "4" ∷ "5" ∷ "6" ∷ "7" ∷ "8" ∷ "9" ∷ []

abbrev nth : List String → ℕ → String
nth [] n = ""
nth (d ∷ ds) zero = d
nth (d ∷ ds) (suc n) = nth ds n

-- A number below 1000, with no leading zero.
abbrev octet : ℕ → String
octet n =
    if ltb n 10
    then nth digits n
    else if ltb n 100
    then append (nth digits (n / 10)) (nth digits (n % 10))
    else append (nth digits (n / 100)) (append (nth digits (n / 10 % 10)) (nth digits (n % 10)))

-- `str` of an address.
unfoldable pub address_text : ℕ → String
address_text a = append (octet (a / 16_777_216 % 256)) (
    append "." (
      append (octet (a / 65_536 % 256))
        (append "." (append (octet (a / 256 % 256)) (append "." (octet (a % 256)))))))

-- `net.hosts()`: the first host and how many there are.
unfoldable pub first_host : Subnet → ℕ
first_host net = if ltb net.prefixlen 31 then net.network_address + 1 else net.network_address

unfoldable pub host_count : Subnet → ℕ
host_count net =
    if ltb net.prefixlen 31
    then 2 ^ (32 - net.prefixlen) - 2
    else if eqb net.prefixlen 31
    then 2
    else 1

abbrev pub gateway : Subnet → ℕ
gateway net = net.network_address + 1

-- The gateway, or taken by a service.
abbrev pub is_used : Subnet → Dict String → ℕ → Bool
is_used net taken host = eqb host (gateway net) || is_in (address_text host) (addresses taken)

-- The loop over the hosts, from one of them on.
unfoldable pub search_free : Subnet → Dict String → ℕ → ℕ → Option ℕ
search_free net taken zero host = none
search_free net taken (suc left) host =
    let rest = search_free net taken left (host + 1) in
    if is_used net taken host then rest else some host

abbrev pub text_found : Option ℕ → Option String
text_found none = none
text_found (some host) = some (address_text host)

unfoldable pub next_free_address : Subnet → Dict String → Option String
unfolding search_free host_count first_host
next_free_address net taken = text_found (search_free net taken (host_count net) (first_host net))

-- `none` is the RuntimeError of an exhausted subnet.
unfoldable pub allocate_each : Subnet → List String → Dict String → Option (Dict String)
unfolding next_free_address
allocate_each net [] table = some table
allocate_each net (name ∷ names) table = elim (lookup name table) [
  | some ip ↦ allocate_each net names table
  | none ↦ elim (next_free_address net table) [
    | none ↦ none
    | some ip ↦ allocate_each net names (insert name ip table)
  ]
]

unfoldable pub allocate : Subnet → Dict String → List String → Option (Dict String)
unfolding allocate_each
allocate net existing services = allocate_each net (sort text_leb services) existing

-- What a probe of an upstream answers: nothing, an error, or the ids of its models.
pub data Answer : Type 0 where
  no_answer error_answer : Answer
  models : List String → Answer

pub data Upstream : Type 0 where
  healthy not_ready routing_fault : Upstream

unfoldable pub classify_upstream : String → Answer → Upstream
classify_upstream expected (models ids) = if is_in expected ids then healthy else routing_fault
classify_upstream expected _ = not_ready
