-- ===== src/Result.antt =====
-- The outcome of a call that may raise. The errors are those of ledger.py and store.py: a key that
-- SQLite refuses, a stale preview, an epoch from another state, a second address for a service, and
-- a lease that is gone right after it was written.
use infer_stack.Base.{◌≡◌, refl}

pub data Error : Type 0 where
  integrity admission_conflict profile_mismatch address_taken vanished : Error

pub data Result {ℓ} (T : Type ℓ) : Type ℓ where
  err : Error → Result T
  ok : T → Result T

infixl 5 ◌>>=◌
abbrev pub ◌>>=◌ {ℓ κ} : {T : Type ℓ} {U : Type κ} → Result T → (T → Result U) → Result U
call >>= next = elim call [ err reason ↦ err reason | ok value ↦ next value ]

module _ {ℓ κ} {T : Type ℓ} {U : Type κ} where
  -- A chain that succeeds has succeeded in its first call and in the rest.
  pub >>=-steps :
      (call : Result T) (next : T → Result U) {last : U}
      → (call >>= next) ≡ ok last
      → (value : T) × (call ≡ ok value) × (next value ≡ ok last)
  >>=-steps (err reason) next e = cc
  >>=-steps (ok value) next e = (value, refl, e)
