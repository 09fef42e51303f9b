-- ===== src/Prelude/Table.antt =====
-- A database table with a text primary key: its rows in the order of insertion.
use Prim.Native.String.{String}
use mathlib.Core.Path.{◌≡◌, refl, ap}
use mathlib.Core.Logic.{inl, inr}
use mathlib.Core.Bool.{true, false}
use mathlib.Core.Option.{Option, none, some}
use mathlib.Core.List.{List, [], ◌∷◌, ◌++◌}
use native.Mathlib.Omega.{arith}
use text.Mathlib.Text.{◌==◌}
use text.Mathlib.TextEquality.{eq_iff}
use mathlib.Core.Option
use learn_agent.Prelude.Tests.{if◌then◌else◌, Bool-cases, is_some}
use learn_agent.Prelude.Results.{Result, ok, err, integrity_error}

module _ {ℓ} {V : Type ℓ} where
  -- SELECT ... WHERE key=?
  abbrev pub lookup : String → List (String × V) → Option V
  lookup key [] = none
  lookup key ((id, row) ∷ rows) = if id == key then some row else lookup key rows

  -- INSERT ... ON CONFLICT(key) DO UPDATE: the row keeps its place.
  abbrev pub insert : String → V → List (String × V) → List (String × V)
  insert key new [] = (key, new) ∷ []
  insert key new ((id, row) ∷ rows) =
      if id == key then (key, new) ∷ rows else (id, row) ∷ insert key new rows

  -- INSERT of a row under a new key; a key that is taken violates the primary key.
  abbrev pub add : String → V → List (String × V) → Result (List (String × V))
  add key new rows =
      if is_some (lookup key rows) then err integrity_error else ok (rows ++ ((key, new) ∷ []))

  -- UPDATE ... WHERE key=?
  abbrev pub update : String → (V → V) → List (String × V) → List (String × V)
  update key f [] = []
  update key f ((id, row) ∷ rows) =
      let rest = update key f rows in if id == key then (id, f row) ∷ rows else (id, row) ∷ rest

  -- DELETE ... WHERE key=?
  abbrev pub without : String → List (String × V) → List (String × V)
  without k [] = []
  without k ((j, v) ∷ m) = let rest = without k m in if j == k then rest else (j, v) ∷ rest

  -- UPDATE of every row by a function of the row.
  abbrev pub map_rows : (V → V) → List (String × V) → List (String × V)
  map_rows f [] = []
  map_rows f ((j, v) ∷ m) = (j, f v) ∷ map_rows f m

  pub lookup-insert :
      (key other : String) (new : V) (rows : List (String × V))
      → lookup other (insert key new rows) ≡ (if key == other then some new else lookup other rows)
  lookup-insert key other new [] = refl
  lookup-insert key other new ((id, row) ∷ rows) =
      ground
        (arith, lookup-insert key other new rows, eq_iff key other, eq_iff id key, eq_iff id other)

  pub lookup-without :
      (k j : String) (m : List (String × V))
      → lookup j (without k m) ≡ (if k == j then none else lookup j m)
  lookup-without k j [] = ground arith
  lookup-without k j ((i, v) ∷ m) =
      ground (arith, lookup-without k j m, eq_iff i k, eq_iff i j, eq_iff k j)

  pub lookup-update :
      (key other : String) (f : V → V) (rows : List (String × V))
      → lookup other (update key f rows)
        ≡ (if key == other then Option.map f (lookup other rows) else lookup other rows)
  lookup-update key other f [] = ground arith
  lookup-update key other f ((id, row) ∷ rows) =
      ground
        (arith, lookup-update key other f rows, eq_iff key other, eq_iff id key, eq_iff id other)

  pub lookup-append :
      (key : String) (rows more : List (String × V))
      → lookup key (rows ++ more)
        ≡ elim (lookup key rows) [ none ↦ lookup key more | some row ↦ some row ]
  lookup-append key [] more = refl
  lookup-append key ((id, row) ∷ rows) more = ground (arith, lookup-append key rows more)

  -- A key that finds a row is not a key that finds none, or another row.
  pub lookup-differ :
      (k j : String) (v : V) (m : List (String × V))
      → lookup k m ≡ none
      → lookup j m ≡ some v
      → (k == j) ≡ false
  lookup-differ k j v m none_at some_at = elim (Bool-cases (k == j)) [
    | inl same ↦ absurd (cc (ap (λ i. lookup i m) ((eq_iff k j).0 same)))
    | inr differ ↦ differ
  ]

  pub lookup-same :
      (k j : String) (v w : V) (m : List (String × V))
      → (k == j) ≡ true
      → lookup k m ≡ some v
      → lookup j m ≡ some w
      → w ≡ v
  lookup-same k j v w m same at_k at_j =
      let keys : lookup k m ≡ lookup j m = ap (λ i. lookup i m) ((eq_iff k j).0 same) in cc
