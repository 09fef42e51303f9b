-- ===== src/Store/Sweep.antt =====
-- The loop of a pass over the task table (core/runtime/sqlite_store.py), for a step that never
-- fails: every row is where it was, as the step leaves it.
use learn_agent.Prelude.{
  ◌≡◌, refl, String, Option, none, some, List, [], ◌∷◌, arith, Result, ok, lookup,
}
use learn_agent.Store.Db.{TaskRow}
use learn_agent.Store.Recovery.{Swept, Pass, extend, sweep}
use learn_agent.Store.Passes.{after}

pub pass : (TaskRow → Option Swept) → List (String × TaskRow) → Pass
unfolding extend
pass outcome [] = record { rows = []; events = []; taken = [] }
pass outcome ((id, row) ∷ rows) = extend id row (outcome row) (pass outcome rows)

module _ (outcome : TaskRow → Option Swept) where
  pub sweep-pass :
      (step : TaskRow → Result (Option Swept))
      → ((row : TaskRow) → step row ≡ ok (outcome row))
      → (rows : List (String × TaskRow)) → sweep step rows ≡ ok (pass outcome rows)
  unfolding sweep pass
  sweep-pass step h [] = refl
  sweep-pass step h ((id, row) ∷ rows) = rw (h row, sweep-pass step h rows) refl

  -- The row of a key after the pass.
  abbrev pub left : Option TaskRow → Option TaskRow
  left none = none
  left (some row) = some (after row (outcome row))

  rows-extend :
      (id : String) (row : TaskRow) (o : Option Swept) (p : Pass)
      → (extend id row o p).rows ≡ (id, after row o) ∷ p.rows
  unfolding extend
  rows-extend id row none p = refl
  rows-extend id row (some s) p = refl

  pub lookup-pass :
      (id : String) (rows : List (String × TaskRow))
      → lookup id (pass outcome rows).rows ≡ left (lookup id rows)
  unfolding pass
  lookup-pass id [] = refl
  lookup-pass id ((j, row) ∷ rows) =
      rw (rows-extend j row (outcome row) (pass outcome rows)) (ground (arith, lookup-pass id rows))
