-- ===== src/Goal/Runtime/Calls/Operations.antt =====
-- GoalRuntime (core/goal/runtime.py): the operations that take an expected version, archiving among
-- them. An operation reads the goal and writes it in two transactions of the store; here no other
-- writer comes in between.
use learn_agent.Prelude.{
  ℕ, ◌≡◌, ◌<◌, ◌∙◌, refl, ap, String, false, Option, some, arith, ok, err, Error, lookup, ◌==◌,
  runtime_error, key_error, none, Result, Result-cases, Bool-cases, inl, inr, without,
  lookup-without, eq_refl,
}
use learn_agent.Goal.Model.{Goal, is_terminal, normal}
use learn_agent.Goal.Runtime.{World, get, load, archive, require_version}
use learn_agent.Goal.Runtime.Soundness.{IsConsistent, require_version-missing, get-found}
use learn_agent.Store.Goals.{delete_goal}
use learn_agent.Goal.Runtime.Calls.{GoalCall, perform}
use learn_agent.Goal.Runtime.Calls.Versions.{
  IsProper, perform-Step, perform-refused, before-status, before_below, live_outcome,
  expected_below, stale,
}

pub data Operation : Type 0 where
  changing : GoalCall → Operation
  archiving : Operation

abbrev pub operate : ℕ → String → Option ℕ → World → Operation → Result (Goal × World)
operate clock id expected w (changing call) = perform clock id expected w call
operate clock id expected w archiving = archive clock id expected w

-- The task of a finished round has an id.
abbrev pub IsSensible : Operation → Type 0
IsSensible (changing call) = IsProper call
IsSensible archiving = Unit

operate_refused :
    (clock : ℕ) (id : String) (expected : Option ℕ) (w : World) (op : Operation) (x : Error)
    → require_version id expected w ≡ err x
    → operate clock id expected w op ≡ err x
unfolding archive
operate_refused clock id expected w (changing call) x h =
    perform-refused clock id expected w call x h
operate_refused clock id expected w archiving x h = rw h refl

archive-goals :
    (clock : ℕ) (id : String) (expected : Option ℕ) (w : World) {g' : Goal} {w' : World}
    → archive clock id expected w ≡ ok (g', w')
    → w'.db.goals ≡ without id w.db.goals
unfolding archive delete_goal
archive-goals clock id expected w h = elim (Result-cases (require_version id expected w)) [
  | inr (x, e) ↦ absurd (cc (rw e at h))
  | inl (g, e) ↦ elim (Bool-cases (is_terminal g.status)) [
    | inl over ↦ let made = rw (e, over) at h in ground arith
    | inr live ↦ let made = rw (e, live) at h in ground arith
  ]
]

archive_gone :
    (clock : ℕ) (id : String) (expected : Option ℕ) (w : World) {g' : Goal} {w' : World}
    → archive clock id expected w ≡ ok (g', w')
    → lookup id w'.db.goals ≡ none
archive_gone clock id expected w h =
    ap (lookup id) (archive-goals clock id expected w h)
    ∙ lookup-without id id w.db.goals
    ∙ rw (eq_refl id) refl

get_missing : (id : String) (w : World) → lookup id w.db.goals ≡ none → get id w ≡ ok none
unfolding get load
get_missing id w e = rw e refl

-- What a writer is told whose version a successful operation has used up.
abbrev pub refusal : Operation → Error
refusal (changing call) = runtime_error
refusal archiving = key_error

-- In a consistent database, where an operation reads and writes without another writer in between, once
-- an operation that expected some version (a finished round's task
-- has an id) has succeeded on a stored goal that is not terminal, every further operation that
-- expects the same version raises: a RuntimeError, or a KeyError where the first archived the goal.
pub stale_writer :
    (clock clock' : ℕ) (id : String) (v : ℕ) (w : World) (g0 : Goal) (op op' : Operation)
    {g' : Goal} {w' : World}
    → IsConsistent w.db
    → IsSensible op
    → lookup id w.db.goals ≡ some g0
    → is_terminal g0.status ≡ false
    → operate clock id (some v) w op ≡ ok (g', w')
    → operate clock' id (some v) w' op' ≡ err (refusal op)
stale_writer clock clock' id v w g0 archiving op' {g'} {w'} c p found live h =
    operate_refused clock' id (some v) w' op' key_error
      (require_version-missing id (some v) w' (archive_gone clock id (some v) w h))
stale_writer clock clock' id v w g0 (changing call) op' {g'} {w'} c p found live h =
    let s = perform-Step clock id (some v) w call c p h in
    let d =
      live_outcome id w s.before g' w' (rw (before-status id (some v) w g0 g' w' s found) live)
        s.outcome in
    let newer = d.newer in
    let expects = s.load.expects in
    operate_refused clock' id (some v) w' op' runtime_error
      (stale id v w' g' d.consistent d.stored (expected_below s.before g' v expects newer))

-- What an operation makes of a goal that is over: nothing, or archiving takes it and no other goal
-- out of the store.
abbrev pub Rests : Operation → String → World → World → Type 0
Rests (changing call) id w w' = w' ≡ w
Rests archiving id w w' =
    (get id w' ≡ ok none)
    × ((k : String) → (id == k) ≡ false → lookup k w'.db.goals ≡ lookup k w.db.goals)

-- What `get` gives after an operation on a live goal.
abbrev pub ReadsBack : Operation → String → Goal → Goal → World → Type 0
ReadsBack (changing call) id g0 g' w' =
    (get id w' ≡ ok (some (normal g'))) × (g0.version < g'.version)
ReadsBack archiving id g0 g' w' = get id w' ≡ ok none

-- In a consistent database, after an operation (a finished round's task has an id) that succeeds on a
-- stored goal that is not terminal, `get` gives the goal that the operation returned, as loading
-- leaves it, and its version is greater than the stored one was; or, after archiving, no goal.
pub read_back :
    (clock : ℕ) (id : String) (expected : Option ℕ) (w : World) (g0 : Goal) (op : Operation)
    {g' : Goal} {w' : World}
    → IsConsistent w.db
    → IsSensible op
    → lookup id w.db.goals ≡ some g0
    → is_terminal g0.status ≡ false
    → operate clock id expected w op ≡ ok (g', w')
    → ReadsBack op id g0 g' w'
read_back clock id expected w g0 archiving {g'} {w'} c p found live h =
    get_missing id w' (archive_gone clock id expected w h)
read_back clock id expected w g0 (changing call) {g'} {w'} c p found live h =
    let s = perform-Step clock id expected w call c p h in
    let d =
      live_outcome id w s.before g' w' (rw (before-status id expected w g0 g' w' s found) live)
        s.outcome in
    (
      get-found id w' g' d.stored (d.consistent.goals id g' d.stored).sound,
      before_below id expected w g0 g' w' s found d.newer,
    )
