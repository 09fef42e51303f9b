-- ===== src/Examples/Goals.antt =====
-- Runs of GoalRuntime (core/goal/runtime.py).
use learn_agent.Prelude.{
  ℕ, ◌≡◌, ◌<◌, refl, Option, none, some, List, [], ◌∷◌, true, Result, ok, err, runtime_error,
  lookup, pos, moment, strip, is_empty,
}
use learn_agent.Goal.Model.{Goal, no_continuation, custom, normal, post_init, title_or_objective}
use learn_agent.Goal.Model
use learn_agent.Goal.Runtime.{World, create, get, require_version, block, cancel, touch}
use learn_agent.Goal.Runtime.Soundness.{IsConsistent}
use learn_agent.Goal.Runtime.Calls.{blocks, cancels, reserves, perform}
use learn_agent.Goal.Runtime.Calls.Operations.{
  operate, changing, archiving, stale_writer, read_back,
}
use learn_agent.Goal.Runtime.History.{GoalEvent, creates, performs, archives, run, run-IsConsistent}
use learn_agent.Store.Db.{empty_db}
use learn_agent.Store.Goals.{save_goal, point_session}

abbrev empty_world : World
empty_world = record { db = empty_db; published = [] }

empty_world-IsConsistent : IsConsistent empty_world.db
empty_world-IsConsistent = record {
  goals = λ id g h. absurd (cc);
  sessions = λ sid s h. absurd (cc);
}

abbrev creation : ℕ × GoalEvent
creation = (5, creates "g1" "s1" "write the report" "Report" no_continuation (pos 2) true)

abbrev events : List (ℕ × GoalEvent)
events =
    creation
    ∷ (6, performs "g1" (some 1) (reserves "t1"))
    ∷ (7, performs "g1" none cancels)
    ∷ (8, archives "g1" none)
    ∷ []

run-IsConsistent_example : IsConsistent (run events empty_world).db
run-IsConsistent_example =
    run-IsConsistent events empty_world empty_world-IsConsistent (refl, (tt, (tt, (tt, tt))))

-- A goal that has just been created.
abbrev created_world : World
created_world = run (creation ∷ []) empty_world

created_world-IsConsistent : IsConsistent created_world.db
created_world-IsConsistent =
    run-IsConsistent (creation ∷ []) empty_world empty_world-IsConsistent (refl, tt)

abbrev goal_in : World → Option Goal
goal_in w = lookup "g1" w.db.goals

abbrev or_goal : Option Goal → Goal
or_goal (some g) = g
or_goal none = record {
  goal_id = "";
  session_id = "";
  title = "";
  objective = "";
  status = Model.active;
  activation = Model.disarmed;
  version = 0;
  plan_id = none;
  progress = 0;
  continuation = no_continuation;
  blocked_reason = none;
  rounds_started = 0;
  max_rounds = 0;
  current_task_id = none;
  created_at = moment 0;
  updated_at = moment 0;
}

abbrev or_pair : Result (Goal × World) → Goal × World
or_pair (ok p) = p
or_pair (err e) = (or_goal none, empty_world)

abbrev blocked_pair : Goal × World
blocked_pair = or_pair (perform 7 "g1" (some 1) created_world (blocks (custom "x")))

abbrev cancelled_world : World
cancelled_world = run (creation ∷ (7, performs "g1" none cancels) ∷ []) empty_world

stale_writer_example : operate 9 "g1" (some 1) blocked_pair.1 archiving ≡ err runtime_error
unfolding create block cancel require_version Model.create post_init save_goal point_session
    is_empty strip touch
stale_writer_example =
    stale_writer 7 9 "g1" 1 created_world (or_goal (goal_in created_world))
      (changing (blocks (custom "x"))) archiving created_world-IsConsistent tt refl refl refl

read_back_example :
    (get "g1" blocked_pair.1 ≡ ok (some (normal blocked_pair.0)))
    × ((or_goal (goal_in created_world)).version < blocked_pair.0.version)
unfolding create block cancel require_version Model.create post_init save_goal point_session
    is_empty strip touch
read_back_example =
    read_back 7 "g1" (some 1) created_world (or_goal (goal_in created_world))
      (changing (blocks (custom "x"))) created_world-IsConsistent tt refl refl refl

abbrev over_pair : Goal × World
over_pair = or_pair (perform 9 "g1" none cancelled_world cancels)
