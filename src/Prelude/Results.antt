-- ===== src/Prelude/Results.antt =====
-- What a call returns or raises. An exception is its class; its text is not modelled.
use mathlib.Core.Path.{◌≡◌, refl, subst}
use mathlib.Core.Logic.{◌⊎◌, inl, inr}
use mathlib.Core.Bool.{Bool, true, false}
use mathlib.Core.Option.{Option, none, some}

-- The exception classes that the modelled code raises; RuntimeStoreError is a RuntimeError that
-- only the store raises. The second line has those of gateway/conversation/errors.py.
pub data Error : Type 0 where
  value_error key_error runtime_error store_error integrity_error type_error : Error
  resource_not_found turn_not_found queue_conflict queue_limit undo_expired steering_limit : Error
  idempotency_conflict execution_scope_limit gateway_saturated approval_conflict : Error
  result_not_owned validation_failed : Error

pub data Result {ℓ} (T : Type ℓ) : Type ℓ where
  ok : T → Result T
  err : Error → Result T

-- The value that an absence of another raises.
abbrev pub require {ℓ} : {T : Type ℓ} → Option T → Error → Result T
require (some value) problem = ok value
require none problem = err problem

-- `if not test: raise error`
abbrev pub guard : (test : Bool) (problem : Error) → Result (Unit {0})
guard false problem = err problem
guard true problem = ok tt

infixl 5 ◌>>=◌ ◌>>◌
-- The rest of a call runs on the value, or is left out.
abbrev pub ◌>>=◌ {ℓ κ} : {T : Type ℓ} {U : Type κ} → Result T → (T → Result U) → Result U
err problem >>= rest = err problem
ok value >>= rest = rest value

abbrev pub ◌>>◌ {κ} : {U : Type κ} → Result (Unit {0}) → Result U → Result U
first >> rest = first >>= λ _. rest

-- A chain that succeeds has passed its first call.
pub >>=-eq-ok {ℓ κ} :
    {T : Type ℓ} {U : Type κ} (call : Result T) (rest : T → Result U) {u : U}
    → (call >>= rest) ≡ ok u
    → (t : T) × (call ≡ ok t) × (rest t ≡ ok u)
>>=-eq-ok (err problem) rest h = cc
>>=-eq-ok (ok value) rest h = (value, refl, h)

-- To split on a result and keep the equation.
pub Result-cases {ℓ} :
    {A : Type ℓ} (r : Result A) → ((a : A) × (r ≡ ok a)) ⊎ ((e : Error) × (r ≡ err e))
Result-cases (ok a) = inl (a, refl)
Result-cases (err e) = inr (e, refl)

-- What a chain that succeeds has gone through.
pub guard-ok {ℓ} :
    {B : Type ℓ} (b : Bool) (x : Error) (m : Result B) {a : B}
    → (guard b x >> m) ≡ ok a
    → (b ≡ true) × (m ≡ ok a)
guard-ok true x m h = (refl, h)
guard-ok false x m h = absurd (cc)

-- What a call leaves, if it does not raise.
abbrev pub Post {ℓ κ} : {T : Type ℓ} → (T → Type κ) → Result T → Type κ
Post P (ok value) = P value
Post P (err problem) = Unit

module _ {ℓ κ} {T : Type ℓ} (P : T → Type κ) where
  pub Post-of : (r : Result T) → ((value : T) → r ≡ ok value → P value) → Post P r
  Post-of (ok value) h = h value refl
  Post-of (err problem) h = tt

  pub Post-ok : (r : Result T) (value : T) → r ≡ ok value → Post P r → P value
  Post-ok r value e post = subst (Post P) e post

  -- The rest of a call starts from what its first part leaves.
  pub Post-bind {μ ν} :
      {U : Type μ} (Q : U → Type ν) (m : Result U) (rest : U → Result T)
      → Post Q m
      → ((value : U) → Q value → Post P (rest value))
      → Post P (m >>= rest)
  Post-bind Q (ok value) rest first h = h value first
  Post-bind Q (err problem) rest first h = tt

  -- The rest of a call where it does not matter what its first part does.
  pub Post-skip {μ} :
      {U : Type μ} (m : Result U) (rest : U → Result T)
      → ((value : U) → Post P (rest value))
      → Post P (m >>= rest)
  Post-skip (ok value) rest h = h value
  Post-skip (err problem) rest h = tt
