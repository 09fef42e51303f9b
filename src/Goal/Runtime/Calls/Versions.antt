-- ===== src/Goal/Runtime/Calls/Versions.antt =====
-- GoalRuntime (core/goal/runtime.py): what an operation does to a live and to a terminal goal,
-- and which versions it accepts.
use learn_agent.Prelude.{
  ℕ, ◌≡◌, ◌<◌, ◌∙◌, refl, sym, ap, String, true, false, Option, some, arith, ok, err, Error, lookup,
  ◌==◌, ◌>>=◌, guard, runtime_error,
}
use learn_agent.Goal.Model.{Goal, is_terminal, normal}
use learn_agent.Goal.Runtime.{
  World, require_version, is_version, update_continuation, edit, attach_plan, resume, disarm, block,
  cancel, update_max_rounds, pause, record_dropped_round, reserve_round, finish_round, complete,
}
use learn_agent.Goal.Runtime.Soundness.{IsConsistent, require_version-found, version-normal}
use learn_agent.Goal.Runtime.Calls.{
  GoalCall, continues, edits, attaches, resumes, disarms, blocks, cancels, limits, pauses, drops,
  reserves, finishes, completes, perform,
}
use learn_agent.Goal.Runtime.Calls.Steps.{Step, Outcome, Written, kept, written}
use learn_agent.Goal.Runtime.Calls.Changes.{
  update_continuation-Step, edit-Step, attach_plan-Step, resume-Step, disarm-Step, block-Step,
  cancel-Step, update_max_rounds-Step, record_dropped_round-Step,
}
use learn_agent.Goal.Runtime.Calls.Rounds.{reserve_round-Step, finish_round-Step, complete-Step}
use learn_agent.Goal.Runtime.Calls.Pausing.{pause-Step}

-- The task of a finished round has an id.
abbrev pub IsProper : GoalCall → Type 0
IsProper (continues c) = Unit
IsProper (edits o) = Unit
IsProper (attaches p) = Unit
IsProper resumes = Unit
IsProper disarms = Unit
IsProper (blocks r) = Unit
IsProper cancels = Unit
IsProper (limits n) = Unit
IsProper pauses = Unit
IsProper (drops t r s) = Unit
IsProper (reserves t) = Unit
IsProper (finishes task summary) = (task == "") ≡ false
IsProper (completes r) = Unit

module _ (clock : ℕ) (id : String) (expected : Option ℕ) (w : World) where
  pub perform-Step :
      (call : GoalCall) {g' : Goal} {w' : World}
      → IsConsistent w.db
      → IsProper call
      → perform clock id expected w call ≡ ok (g', w')
      → Step id expected w g' w'
  perform-Step (continues c) v p h = update_continuation-Step clock id expected w v c h
  perform-Step (edits o) v p h = edit-Step clock id expected w v o h
  perform-Step (attaches x) v p h = attach_plan-Step clock id expected w v x h
  perform-Step resumes v p h = resume-Step clock id expected w v h
  perform-Step disarms v p h = disarm-Step clock id expected w v h
  perform-Step (blocks r) v p h = block-Step clock id expected w v r h
  perform-Step cancels v p h = cancel-Step clock id expected w v h
  perform-Step (limits n) v p h = update_max_rounds-Step clock id expected w v n h
  perform-Step pauses v p h = pause-Step clock id expected w v h
  perform-Step (drops t r s) v p h = record_dropped_round-Step clock id expected w v t r s h
  perform-Step (reserves t) v p h = reserve_round-Step clock id expected w v t h
  perform-Step (finishes t s) v p h = finish_round-Step clock id expected w v t s p h
  perform-Step (completes r) v p h = complete-Step clock id expected w v r h

  -- Where the goal cannot be loaded, every operation raises what loading raises.
  pub perform-refused :
      (call : GoalCall) (x : Error)
      → require_version id expected w ≡ err x
      → perform clock id expected w call ≡ err x
  unfolding update_continuation edit attach_plan resume disarm block cancel update_max_rounds pause
      record_dropped_round reserve_round finish_round complete
  perform-refused (continues c) x h = rw h refl
  perform-refused (edits o) x h = rw h refl
  perform-refused (attaches y) x h = rw h refl
  perform-refused resumes x h = rw h refl
  perform-refused disarms x h = rw h refl
  perform-refused (blocks r) x h = rw h refl
  perform-refused cancels x h = rw h refl
  perform-refused (limits n) x h = rw h refl
  perform-refused pauses x h = rw h refl
  perform-refused (drops t r s) x h = rw h refl
  perform-refused (reserves t) x h = rw h refl
  perform-refused (finishes t s) x h = rw h refl
  perform-refused (completes r) x h = rw h refl

outcome-IsConsistent :
    (id : String) (w : World) (g g' : Goal) (w' : World)
    → IsConsistent w.db
    → Outcome id w g g' w'
    → IsConsistent w'.db
outcome-IsConsistent id w g g' w' v (kept over same still) = rw still v
outcome-IsConsistent id w g g' w' v (written d) = d.consistent

-- The goal that a step starts from has the status of the stored one.
pub before-status :
    (id : String) (expected : Option ℕ) (w : World) (g0 g' : Goal) (w' : World)
    (s : Step id expected w g' w')
    → lookup id w.db.goals ≡ some g0
    → s.before.status ≡ g0.status
before-status id expected w g0 g' w' s found =
    let both : some s.load.stored ≡ some g0 = sym s.load.found ∙ found in
    let same : s.load.stored ≡ g0 = cc in s.load.status ∙ cc

pub before_below :
    (id : String) (expected : Option ℕ) (w : World) (g0 g' : Goal) (w' : World)
    (s : Step id expected w g' w')
    → lookup id w.db.goals ≡ some g0
    → s.before.version < g'.version
    → g0.version < g'.version
before_below id expected w g0 g' w' s found newer =
    let both : some s.load.stored ≡ some g0 = sym s.load.found ∙ found in
    let same : s.load.stored ≡ g0 = cc in
    rw (ap (λ x. x.version) (sym same) ∙ sym s.load.version) newer

pub live_outcome :
    (id : String) (w : World) (g g' : Goal) (w' : World)
    → is_terminal g.status ≡ false
    → Outcome id w g g' w'
    → Written id g g' w'
live_outcome id w g g' w' live (kept over same still) = absurd (cc)
live_outcome id w g g' w' live (written d) = d

pub terminal_outcome :
    (id : String) (w : World) (g g' : Goal) (w' : World)
    → is_terminal g.status ≡ true
    → Outcome id w g g' w'
    → w' ≡ w
terminal_outcome id w g g' w' over (kept _ same still) = still
terminal_outcome id w g g' w' over (written d) = let live = d.live in absurd (cc)

pub expected_below :
    (g g' : Goal) (v : ℕ) → is_version (some v) g ≡ true → g.version < g'.version → v < g'.version
expected_below g g' v expects newer = ground arith

differs :
    (g : Goal) (v : ℕ)
    → v < g.version
    → (guard (is_version (some v) g) runtime_error >>= λ _. ok g) ≡ err runtime_error
differs g v newer = ground arith

pub stale :
    (id : String) (v : ℕ) (w : World) (g : Goal)
    → IsConsistent w.db
    → lookup id w.db.goals ≡ some g
    → v < g.version
    → require_version id (some v) w ≡ err runtime_error
stale id v w g c found newer =
    let sound = (c.goals id g found).sound in
    let same = version-normal g sound in
    require_version-found id (some v) w g found sound ∙ differs (normal g) v (rw same newer)

-- After an operation of GoalRuntime that succeeds, on a goal whose task ids are not empty, the
-- database is as consistent as before: every stored goal is named, within its rounds, armed only
-- while it is active and busy only while it is armed, and a session points only at an active goal
-- of its own.
pub perform-IsConsistent :
    (clock : ℕ) (id : String) (expected : Option ℕ) (w : World) (call : GoalCall) {g' : Goal}
    {w' : World}
    → IsConsistent w.db
    → IsProper call
    → perform clock id expected w call ≡ ok (g', w')
    → IsConsistent w'.db
perform-IsConsistent clock id expected w call {g'} {w'} v p h =
    let s = perform-Step clock id expected w call v p h in
    outcome-IsConsistent id w s.before g' w' v s.outcome
