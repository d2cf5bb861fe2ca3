-- ===== src/Residency/Inspect/Devices.antt =====
-- What `_gpus_from_device_requests` of residency.py reads.
use infer_stack.Base.{
  ℕ, ◌≡◌, refl, Bool, true, false, not, ◌&&◌, ◌||◌, Option, none, some, List, [], ◌∷◌, ◌++◌, any,
  any-append, all, is_empty, eqb, arith, if◌then◌else◌,
}
use infer_stack.Hardware.{has, sorted_set}
use infer_stack.Hardware.Sets.{has-sorted_set}
use infer_stack.Residency.Inspect.{
  DeviceId, index, opaque, DeviceRequest, malformed, request, requests, device_indices,
  request_indices, all_indices, gpus_from_device_requests,
}

abbrev pub is_index : DeviceId → Bool
is_index (index i) = true
is_index (opaque id) = false

-- A request that names physical indices: ids that are all indices, or no GPU at all.
abbrev pub is_mappable : DeviceRequest → Bool
is_mappable malformed = false
is_mappable (request ids has_count) = if is_empty ids then not has_count else all is_index ids

abbrev pub is_device : ℕ → DeviceId → Bool
is_device k (index i) = eqb i k
is_device k (opaque id) = false

abbrev pub names_gpu : ℕ → DeviceRequest → Bool
names_gpu k malformed = false
names_gpu k (request ids has_count) = any (is_device k) ids

abbrev has_in : Option (List ℕ) → ℕ → Bool
has_in none k = false
has_in (some is) k = has is k

abbrev is_given : Option (List ℕ) → Bool
is_given none = false
is_given (some is) = true

abbrev as_occupied : Option (List ℕ) → List ℕ × Bool
as_occupied none = ([], true)
as_occupied (some is) = (sorted_set is, false)

given-device_indices : (ids : List DeviceId) → is_given (device_indices ids) ≡ all is_index ids
unfolding device_indices all
given-device_indices [] = refl
given-device_indices (opaque id ∷ ids) = refl
given-device_indices (index i ∷ ids) = ground (arith, given-device_indices ids)

has-device_indices :
    (ids : List DeviceId) (k : ℕ)
    → all is_index ids ≡ true
    → has_in (device_indices ids) k ≡ any (is_device k) ids
unfolding device_indices all any
has-device_indices [] k h = refl
has-device_indices (opaque id ∷ ids) k h = cc
has-device_indices (index i ∷ ids) k h =
    ground (arith, has-device_indices ids k, given-device_indices ids)

given-request : (r : DeviceRequest) → is_given (request_indices r) ≡ is_mappable r
unfolding request_indices
given-request malformed = refl
given-request (request [] c) = ground arith
given-request (request (id ∷ ids) c) = given-device_indices (id ∷ ids)

has-request :
    (r : DeviceRequest) (k : ℕ)
    → is_mappable r ≡ true
    → has_in (request_indices r) k ≡ names_gpu k r
unfolding request_indices any
has-request malformed k h = cc
has-request (request [] c) k h = ground arith
has-request (request (id ∷ ids) c) k h = has-device_indices (id ∷ ids) k h

given-all : (rs : List DeviceRequest) → is_given (all_indices rs) ≡ all is_mappable rs
unfolding all_indices all
given-all [] = refl
given-all (r ∷ rs) = ground (arith, given-request r, given-all rs)

has-all :
    (rs : List DeviceRequest) (k : ℕ)
    → all is_mappable rs ≡ true
    → has_in (all_indices rs) k ≡ any (names_gpu k) rs
unfolding all_indices all any
has-all [] k h = refl
has-all (r ∷ rs) k h = ground (
  arith,
  given-request r,
  given-all rs,
  has-request r k,
  has-all rs k,
  has_in-append (request_indices r) (all_indices rs) k,
)
  where
    has_in-append :
        (a b : Option (List ℕ)) (k : ℕ)
        → (elim a [ none ↦ false | some is ↦ elim b [ none ↦ false | some js ↦ has (is ++ js) k ] ])
          ≡ (is_given a && is_given b && (has_in a k || has_in b k))
    has_in-append none b k = refl
    has_in-append (some is) none k = refl
    has_in-append (some is) (some js) k = any-append (λ j. eqb j k) is js

-- Every GPU counts as occupied exactly when some request cannot be mapped to indices; otherwise the
-- indices are exactly those that some request names.
pub gpus_from_device_requests_lem :
    (rs : List DeviceRequest) (k : ℕ)
    → ((gpus_from_device_requests (requests rs)).1 ≡ not (all is_mappable rs))
      × (all is_mappable rs ≡ true
          → has (gpus_from_device_requests (requests rs)).0 k ≡ any (names_gpu k) rs)
unfolding gpus_from_device_requests
gpus_from_device_requests_lem rs k = (
  ground (arith, given-all rs),
  λ h. ground (arith, given-all rs, has-all rs k h, has_sorted (all_indices rs) k),
)
  where
    has_sorted : (o : Option (List ℕ)) (k : ℕ) → has (as_occupied o).0 k ≡ has_in o k
    has_sorted none k = unfold any in refl
    has_sorted (some is) k = has-sorted_set is k
