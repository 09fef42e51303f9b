-- ===== src/Prelude/Order.antt =====
-- Ordered answers (ORDER BY over a number), their last entries, and what the tables add to.
use Prim.Native.Nat.{ℕ, zero, suc, ◌≤◌, max}
use Prim.Native.String.{String}
use mathlib.Core.Path.{◌≡◌, refl, ap, ◌∙◌}
use mathlib.Core.Logic.{inl, inr}
use mathlib.Core.Bool.{Bool}
use mathlib.Core.Option.{Option, none, some}
use mathlib.Core.List.{List, [], ◌∷◌, ◌++◌}
use native.Mathlib.Omega.{arith}
use learn_agent.Prelude.Tests.{if◌then◌else◌, leb, Bool-cases}
use learn_agent.Prelude.Lists.{All, keep, length}

module _ {ℓ} {A : Type ℓ} where
  -- xs[:n], and LIMIT n
  abbrev pub take : ℕ → List A → List A
  take zero xs = []
  take (suc n) [] = []
  take (suc n) (x ∷ xs) = x ∷ take n xs

  abbrev pub head : List A → Option A
  head [] = none
  head (x ∷ xs) = some x

  module _ (key : A → ℕ) where
    -- The entry goes before the first that is not less.
    unfoldable pub place : A → List A → List A
    place x [] = x ∷ []
    place x (y ∷ ys) = if leb (key x) (key y) then x ∷ y ∷ ys else y ∷ place x ys

    -- ORDER BY key: rows of the same key stay in the order of the table.
    unfoldable pub order_by : List A → List A
    unfolding place
    order_by [] = []
    order_by (x ∷ xs) = place x (order_by xs)

    -- MAX(key)
    abbrev pub greatest : List A → Option ℕ
    greatest [] = none
    greatest (x ∷ xs) = elim (greatest xs) [ none ↦ some (key x) | some m ↦ some (max (key x) m) ]

    place-append :
        (x y : A) (xs : List A) → key x ≤ key y → place x (xs ++ (y ∷ [])) ≡ place x xs ++ (y ∷ [])
    unfolding place
    place-append x y [] h = ground arith
    place-append x y (z ∷ zs) h = elim (Bool-cases (leb (key x) (key z))) [
      | inl e ↦ rw e refl
      | inr e ↦ rw e (ap (◌∷◌ z) (place-append x y zs h))
    ]

    -- A row whose key is no less than the others' comes last.
    pub order_by-append :
        (xs : List A) (y : A)
        → All (λ x. key x ≤ key y) xs
        → order_by (xs ++ (y ∷ [])) ≡ order_by xs ++ (y ∷ [])
    unfolding order_by place
    order_by-append [] y h = refl
    order_by-append (x ∷ xs) y h =
        rw (order_by-append xs y h.1) (place-append x y (order_by xs) h.0)

    length-place : (x : A) (xs : List A) → length (place x xs) ≡ suc (length xs)
    unfolding place
    length-place x [] = refl
    length-place x (y ∷ ys) = ground (arith, length-place x ys)

    pub length-order_by : (xs : List A) → length (order_by xs) ≡ length xs
    unfolding order_by
    length-order_by [] = refl
    length-order_by (x ∷ xs) = length-place x (order_by xs) ∙ ap suc (length-order_by xs)

  pub keep-append : (p : A → Bool) (xs ys : List A) → keep p (xs ++ ys) ≡ keep p xs ++ keep p ys
  keep-append p [] ys = refl
  keep-append p (x ∷ xs) ys = elim (Bool-cases (p x)) [
    | inl e ↦ rw e (ap (◌∷◌ x) (keep-append p xs ys))
    | inr e ↦ rw e (keep-append p xs ys)
  ]

  pub length-take : (n : ℕ) (xs : List A) → length (take n xs) ≤ n
  length-take zero xs = omega arith
  length-take (suc n) [] = omega arith
  length-take (suc n) (x ∷ xs) = omega (arith, length-take n xs)

-- The rows of a table without their keys.
abbrev pub values {ℓ} : {V : Type ℓ} → List (String × V) → List V
values [] = []
values ((id, row) ∷ rows) = row ∷ values rows

pub values-append {ℓ} :
    {V : Type ℓ} (rows more : List (String × V))
    → values (rows ++ more) ≡ values rows ++ values more
values-append [] more = refl
values-append ((id, row) ∷ rows) more = ap (◌∷◌ row) (values-append rows more)
