-- ===== src/Goal/Runtime/Calls.antt =====
-- The operations of GoalRuntime as one type of calls on a goal, and what each makes of the goal.
pub mod Steps
pub mod Changes
pub mod Rounds
pub mod Pausing
pub mod Versions
pub mod Operations
use learn_agent.Prelude.{ℕ, String, Option, Bool, Result, ℤ}
use learn_agent.Goal.Model.{Goal, BlockedReason, Continuation}
use learn_agent.Goal.Runtime.{
  World, update_continuation, edit, attach_plan, resume, disarm, block, cancel, update_max_rounds,
  pause, record_dropped_round, reserve_round, finish_round, complete,
}

-- Every operation on a stored goal but `archive`.
pub data GoalCall : Type 0 where
  continues : Continuation → GoalCall
  edits : String → GoalCall
  attaches : String → GoalCall
  resumes : GoalCall
  disarms : GoalCall
  blocks : BlockedReason → GoalCall
  cancels : GoalCall
  limits : ℤ → GoalCall
  pauses : GoalCall
  drops : String → ℕ → String → GoalCall
  reserves : String → GoalCall
  finishes : String → String → GoalCall
  completes : Option Bool → GoalCall

abbrev pub perform : ℕ → String → Option ℕ → World → GoalCall → Result (Goal × World)
perform clock id expected w (continues snapshot) = update_continuation clock id expected w snapshot
perform clock id expected w (edits objective) = edit clock id expected w objective
perform clock id expected w (attaches plan) = attach_plan clock id expected w plan
perform clock id expected w resumes = resume clock id expected w
perform clock id expected w disarms = disarm clock id expected w
perform clock id expected w (blocks reason) = block clock id expected w reason
perform clock id expected w cancels = cancel clock id expected w
perform clock id expected w (limits rounds) = update_max_rounds clock id expected w rounds
perform clock id expected w pauses = pause clock id expected w
perform clock id expected w (drops task round reason) =
    record_dropped_round clock id expected w task round reason
perform clock id expected w (reserves task) = reserve_round clock id expected w task
perform clock id expected w (finishes task summary) = finish_round clock id expected w task summary
perform clock id expected w (completes report) = complete clock id expected w report
