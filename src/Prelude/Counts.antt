-- ===== src/Prelude/Counts.antt =====
-- How many rows pass a test, before and after the updates of a table.
use Prim.Native.Nat.{ℕ, zero, suc, ◌+◌, ◌≤◌}
use Prim.Native.String.{String}
use mathlib.Core.Path.{◌≡◌, refl, ap}
use mathlib.Core.Logic.{inl, inr}
use mathlib.Core.Bool.{Bool, true, false, not, ◌&&◌}
use mathlib.Core.Option.{Option, none, some}
use mathlib.Core.Option
use mathlib.Core.List.{List, [], ◌∷◌, ◌++◌}
use native.Mathlib.Omega.{arith}
use text.Mathlib.Text.{◌==◌}
use learn_agent.Prelude.Tests.{Bool-cases, leb}
use learn_agent.Prelude.Lists.{keep, length}
use learn_agent.Prelude.Table.{lookup, update, map_rows}
use learn_agent.Prelude.Order.{values, order_by, place, take}

-- The number of entries that pass the test.
abbrev pub count {ℓ} : {A : Type ℓ} → (A → Bool) → List A → ℕ
count p xs = length (keep p xs)

abbrev pub one : Bool → ℕ
one true = 1
one false = 0

module _ {ℓ} {A : Type ℓ} where
  pub count-cons : (p : A → Bool) (x : A) (xs : List A) → count p (x ∷ xs) ≡ one (p x) + count p xs
  count-cons p x xs = elim (Bool-cases (p x)) [
    | inl e ↦ rw e (omega arith)
    | inr e ↦ rw e (omega arith)
  ]

  pub count-append : (p : A → Bool) (xs ys : List A) → count p (xs ++ ys) ≡ count p xs + count p ys
  count-append p [] ys = omega arith
  count-append p (x ∷ xs) ys =
      omega (arith, count-cons p x (xs ++ ys), count-cons p x xs, count-append p xs ys)

  count-place :
      (p : A → Bool) (key : A → ℕ) (x : A) (xs : List A)
      → count p (place key x xs) ≡ one (p x) + count p xs
  unfolding place
  count-place p key x [] = count-cons p x []
  count-place p key x (y ∷ ys) = elim (Bool-cases (leb (key x) (key y))) [
    | inl e ↦ rw e (count-cons p x (y ∷ ys))
    | inr e ↦
        rw e (
          omega (arith, count-cons p y (place key x ys), count-place p key x ys, count-cons p y ys))
  ]

  pub count-order_by :
      (p : A → Bool) (key : A → ℕ) (xs : List A) → count p (order_by key xs) ≡ count p xs
  unfolding order_by
  count-order_by p key [] = refl
  count-order_by p key (x ∷ xs) =
      omega
        (arith, count-place p key x (order_by key xs), count-order_by p key xs, count-cons p x xs)

  pub count-take : (p : A → Bool) (n : ℕ) (xs : List A) → count p (take n xs) ≤ count p xs
  count-take p zero xs = omega arith
  count-take p (suc n) [] = omega arith
  count-take p (suc n) (x ∷ xs) =
      omega (arith, count-cons p x (take n xs), count-cons p x xs, count-take p n xs)

  -- A test that is narrower on every entry passes no more of them.
  pub count_mono :
      (p q : A → Bool) (xs : List A) → ((x : A) → p x ≡ true → q x ≡ true) → count p xs ≤ count q xs
  count_mono p q [] h = omega arith
  count_mono p q (x ∷ xs) h = elim (Bool-cases (p x)) [
    | inl e ↦
        omega (
          arith,
          count-cons p x xs,
          count-cons q x xs,
          count_mono p q xs h,
          ap one e,
          ap one (h x e),
        )
    | inr e ↦ omega (arith, count-cons p x xs, count-cons q x xs, count_mono p q xs h, ap one e)
  ]

  -- The entries of one test are those of another, and the rest.
  pub count-split :
      (p q : A → Bool) (xs : List A)
      → count p xs ≡ count (λ x. p x && q x) xs + count p (keep (λ x. not (q x)) xs)
  count-split p q [] = omega arith
  count-split p q (x ∷ xs) = ground (arith, count-split p q xs)

module _ {ℓ} {V : Type ℓ} where
  pub count-update :
      (p : V → Bool) (key : String) (f : V → V) (rows : List (String × V)) (row : V)
      → lookup key rows ≡ some row
      → count p (values (update key f rows)) + one (p row) ≡ count p (values rows) + one (p (f row))
  count-update p key f [] row h = absurd (cc)
  count-update p key f ((id, r) ∷ rows) row h = elim (Bool-cases (id == key)) [
    | inl e ↦ rw e (
        omega (
          arith,
          count-cons p (f r) (values rows),
          count-cons p r (values rows),
          ap (λ v. one (p v)) (found e),
          ap (λ v. one (p (f v))) (found e),
        ))
    | inr e ↦ rw e (
        omega (
          arith,
          count-cons p r (values (update key f rows)),
          count-cons p r (values rows),
          count-update p key f rows row (rw e at h),
        ))
  ]
    where
      found : id == key ≡ true → r ≡ row
      found e = ground arith

  pub update-missing :
      (key : String) (f : V → V) (rows : List (String × V))
      → lookup key rows ≡ none
      → update key f rows ≡ rows
  update-missing key f [] h = refl
  update-missing key f ((id, r) ∷ rows) h = ground (arith, update-missing key f rows)

  -- An update that leaves the test of every row leaves the number.
  pub count-map_rows :
      (p : V → Bool) (f : V → V) (rows : List (String × V))
      → ((v : V) → p (f v) ≡ p v)
      → count p (values (map_rows f rows)) ≡ count p (values rows)
  count-map_rows p f [] h = refl
  count-map_rows p f ((id, r) ∷ rows) h = omega (
    arith,
    count-cons p (f r) (values (map_rows f rows)),
    count-cons p r (values rows),
    count-map_rows p f rows h,
    ap one (h r),
  )

  -- After an update that makes the test fail on every row, none passes.
  pub count-map_rows_none :
      (p : V → Bool) (f : V → V) (rows : List (String × V))
      → ((v : V) → p (f v) ≡ false)
      → count p (values (map_rows f rows)) ≡ 0
  count-map_rows_none p f [] h = refl
  count-map_rows_none p f ((id, r) ∷ rows) h = omega (
    arith,
    count-cons p (f r) (values (map_rows f rows)),
    count-map_rows_none p f rows h,
    ap one (h r),
  )

  pub lookup-map_rows :
      (f : V → V) (key : String) (rows : List (String × V))
      → lookup key (map_rows f rows) ≡ Option.map f (lookup key rows)
  lookup-map_rows f key [] = refl
  lookup-map_rows f key ((id, r) ∷ rows) = ground (arith, lookup-map_rows f key rows)
