-- ===== src/Examples/Plans.antt =====
-- Runs of PlanManager and of the checks of plans (core/plan), of Budget.strictest and of CancellationToken.
use learn_agent.Prelude.{
  ℕ, ◌≡◌, ◌≤◌, ◌<◌, ◌⊎◌, refl, String, Option, none, some, List, [], ◌∷◌, true, false, Result, ok,
  err, lookup, pos, moment, All, if◌then◌else◌, ◌==◌, is_empty, strip, arith, any, Bool-cases, inl,
  inr,
}
use learn_agent.Plan.Model.{
  Plan, PlanTask, is_unique, knows_all, find_task, check_plan, check_tasks, check_task, transition,
  paused, active, value,
}
use learn_agent.Plan.Model
use learn_agent.Plan.TaskStatus
use learn_agent.Plan.Dag.{
  each, leave, is_acyclic, Node, Walk, seen, names, validate_dag, dependencies, member,
}
use learn_agent.Plan.Dag.Order.{Ordered, validate_dag-Ordered}
use learn_agent.Plan.Dag.Ranked.{validate_dag-accepts}
use learn_agent.Plan.Manager.{
  get, settle, settle_task, report_task, refresh_finished, refresh_ready, Outcome, block_downstream,
  require_plan, pause, finish_task, save,
}
use learn_agent.Plan.Manager.Downstream.{block_downstream-ends}
use learn_agent.Plan.Manager.Calls.{pauses, manage, plan_moves, paused_finish}
use learn_agent.Plan.Manager.Moves.{Reaches}
use learn_agent.Store.Db.{Db, empty_db}
use learn_agent.Store.Plans.{save_plan}
use learn_agent.Runtime.Cancellation.{new_token}
use learn_agent.Runtime.Cancellation.Dispatch.{
  Turn, adds, cancels, turns, due, first_reason, added, dispatched_once,
}
use learn_agent.Runtime.Budget.{Budget, strictest}
use learn_agent.Runtime.Budget.Strictest.{steps, limit_of, AtMost, Silent, states, strictest_lem}

-- b depends on a, and c on both.
abbrev diamond : List Node
diamond =
    record { id = "c"; depends_on = "a" ∷ "b" ∷ [] }
    ∷ record { id = "b"; depends_on = "a" ∷ [] }
    ∷ record { id = "a"; depends_on = [] }
    ∷ []

abbrev visits : Walk → List String
visits (seen vs) = vs
visits Walk.cyclic = []
visits Walk.stuck = []

validate_dag-Ordered_example :
    Ordered diamond ("c" ∷ "b" ∷ "a" ∷ [])
    × All (λ x. member x ("c" ∷ "b" ∷ "a" ∷ []) ≡ true) (names diamond)
unfolding validate_dag names dependencies each leave
validate_dag-Ordered_example = validate_dag-Ordered diamond ("c" ∷ "b" ∷ "a" ∷ []) refl

abbrev height : String → ℕ
height x = if "c" == x then 2 else if "b" == x then 1 else 0

height-low : (x : String) → height x ≤ 3
height-low x = ground arith

height-falls : (x : String) → All (λ d. height d < height x) (dependencies diamond x)
unfolding dependencies
height-falls x = elim (Bool-cases ("c" == x)) [
  | inl e ↦ rw e (omega arith, (omega arith, tt))
  | inr not_c ↦ elim (Bool-cases ("b" == x)) [
    | inl e ↦ rw (not_c, e) (omega arith, tt)
    | inr not_b ↦ elim (Bool-cases ("a" == x)) [
      | inl e ↦ rw (not_c, not_b, e) tt
      | inr not_a ↦ rw (not_c, not_b, not_a) tt
    ]
  ]
]

validate_dag-accepts_example : (order : List String) × (validate_dag diamond ≡ seen order)
validate_dag-accepts_example = validate_dag-accepts diamond height height-low height-falls

abbrev task_with : String → List String → Model.PlanTask
task_with id deps = record {
  plan_task_id = id;
  description = id;
  depends_on = deps;
  status = TaskStatus.pending;
  weight = pos 1;
  acceptance = [];
  retry_limit = pos 0;
  attempts = 0;
  task_id = none;
  result_summary = "";
  artifact_ids = [];
  quality_report = [];
  blocked_reason = none;
  created_at = moment 1;
  updated_at = moment 1;
}

abbrev running_first : List PlanTask
running_first =
    record (task_with "a" []) { status = TaskStatus.in_progress; attempts = 1; task_id = some "t1" }
    ∷ task_with "b" ("a" ∷ [])
    ∷ []

block_downstream-ends_example : (block_downstream (moment 5) "a" "broken" running_first).0 ≡ []
block_downstream-ends_example = block_downstream-ends (moment 5) "a" "broken" running_first

abbrev plan_with : Model.PlanStatus → Plan
plan_with s = record {
  plan_id = "p1";
  session_id = "s1";
  title = "Plan";
  tasks = running_first;
  status = s;
  version = 1;
  goal_id = none;
  source_prompt = "";
  approved_at = none;
  approval_actor = none;
  archived_at = none;
  created_at = moment 1;
  updated_at = moment 1;
}

abbrev db_with : Model.PlanStatus → Db
db_with s = record empty_db { plans = ("p1", plan_with s) ∷ [] }

abbrev or_plan : Result (Plan × Db) → Plan × Db
or_plan (ok p) = p
or_plan (err e) = (plan_with Model.draft, empty_db)

abbrev paused_pair : Plan × Db
paused_pair = or_plan (manage 5 "p1" (db_with active) pauses)

plan_moves_example :
    (p : Plan) × (lookup "p1" (db_with active).plans ≡ some p)
    × Reaches p.status paused_pair.0.status
unfolding pause require_plan save get check_tasks check_task is_unique knows_all is_acyclic is_empty
    strip transition check_plan validate_dag save_plan each leave dependencies
plan_moves_example =
    plan_moves 5 "p1" (db_with active) pauses {p' = paused_pair.0} {db' = paused_pair.1} refl

abbrev failure : Outcome
failure = record {
  success = false;
  summary = "broken";
  blocked_reason = none;
  artifact_ids = none;
  quality_report = none;
}

abbrev finished_pair : Plan × Db
finished_pair = or_plan (finish_task 5 "p1" (db_with paused) "a" failure)

paused_finish_example : finished_pair.0.status ≡ paused
unfolding require_plan save find_task settle settle_task report_task refresh_finished refresh_ready
    get check_tasks check_task is_unique knows_all is_acyclic is_empty strip check_plan validate_dag
    save_plan finish_task each leave dependencies
paused_finish_example =
    paused_finish 5 "p1" (db_with paused) "a" failure (plan_with paused) {p' = finished_pair.0}
      {db' = finished_pair.1} refl refl refl

abbrev budget_with : Option ℕ → Budget
budget_with n = record {
  max_steps = n;
  max_input_tokens = none;
  max_output_tokens = none;
  max_total_tokens = none;
  max_wall_seconds = none;
  max_tool_calls = none;
  max_failures = none;
  max_children = none;
}

abbrev budgets : List (Option Budget)
budgets =
    some (budget_with (some 5)) ∷ none ∷ some (budget_with (some 3)) ∷ some (budget_with none) ∷ []

strictest_lem_example :
    ((limit_of steps (strictest budgets) ≡ none) × All (Silent steps) budgets)
    ⊎ ((m : ℕ) × (limit_of steps (strictest budgets) ≡ some m)
        × All (AtMost steps m) budgets
        × (any (states steps m) budgets ≡ true))
strictest_lem_example = strictest_lem steps budgets

abbrev race : List Turn
race = adds 1 ∷ cancels "stop" ∷ adds 2 ∷ cancels "again" ∷ []

dispatched_once_example : (turns race ([], new_token)).0 ≡ due (first_reason race) (added race)
dispatched_once_example = dispatched_once race
