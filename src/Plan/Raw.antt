-- ===== src/Plan/Raw.antt =====
-- core/plan/manager.py: the tasks of a raw plan, and the summaries that a task's prompt repeats.
use learn_agent.Prelude.{
  ℕ, zero, suc, ◌/◌, ◌%◌, String, Option, none, some, not, ◌||◌, ◌==◌, if◌then◌else◌, List, [], ◌∷◌,
  Result, ok, err, value_error, guard, ◌>>=◌, ◌>>◌, Iso, concat, strip, prefix, is_empty, ltb, eqb,
  ℤ, at_least_one, take_last,
}
use learn_agent.Plan.TaskStatus.{PlanTaskStatus, pending, task_is}
use learn_agent.Plan.TaskStatus
use learn_agent.Plan.Model.{Plan, PlanTask, check_task, is_nil}

-- The value of "depends_on": None, a list whose items that are no text are `none`, or another value.
pub data RawDepends : Type 0 where
  absent : RawDepends
  listed : List (Option String) → RawDepends
  malformed : RawDepends

-- An entry of "steps" that is an object. A description that is no text is `none`; `id` is
-- str(raw["id"]) where that value is truthy; the defaults of the last three fields are filled in.
pub record RawStep : Type 0 where
  pub description : Option String
  pub id : Option String
  pub depends_on : RawDepends
  pub weight : ℤ
  pub acceptance : List String
  pub retry_limit : ℤ

-- The digit of a number below ten.
abbrev digit : ℕ → String
digit n =
    if eqb n 0
    then "0"
    else if eqb n 1
    then "1"
    else if eqb n 2
    then "2"
    else if eqb n 3
    then "3"
    else if eqb n 4
    then "4"
    else if eqb n 5
    then "5"
    else if eqb n 6
    then "6"
    else if eqb n 7
    then "7"
    else if eqb n 8
    then "8"
    else "9"

-- str(n); the fuel bounds the number of digits.
decimal : ℕ → ℕ → String
decimal zero n = ""
decimal (suc f) n =
    let rest = decimal f (n / 10) in if ltb n 10 then digit n else concat rest (digit (n % 10))

-- str(raw.get("id") or f"step_{index}").strip()
unfoldable pub step_id : ℕ → RawStep → String
unfolding decimal
step_id index s = elim s.id [
  | some id ↦ strip id
  | none ↦ concat "step_" (decimal (suc index) index)
]

-- A list of texts, or a refusal.
unfoldable pub all_texts : List (Option String) → Result (List String)
all_texts [] = ok []
all_texts (none ∷ xs) = err value_error
all_texts (some x ∷ xs) = do ok (x ∷ (← all_texts xs))

-- depends_on, by default the step before
unfoldable pub depends_of : String → RawDepends → Result (List String)
unfolding all_texts
depends_of previous absent = ok (if previous == "" then [] else previous ∷ [])
depends_of previous (listed xs) = all_texts xs
depends_of previous malformed = err value_error

-- The text of a description that is neither missing nor blank.
unfoldable pub described : Option String → Result String
described none = err value_error
described (some d) = do guard (not (is_empty (strip d))) value_error; ok d

-- One turn of the loop of _tasks_from_raw; `now` is the time at which PlanTask is made.
unfoldable pub task_of : Iso → ℕ → String → RawStep → Result PlanTask
unfolding described depends_of
task_of now index previous s = do
  description ← described s.description
  depends ← depends_of previous s.depends_on
  check_task (record {
    plan_task_id = step_id index s;
    description = description;
    depends_on = depends;
    status = pending;
    weight = s.weight;
    acceptance = s.acceptance;
    retry_limit = s.retry_limit;
    attempts = 0;
    task_id = none;
    result_summary = "";
    artifact_ids = [];
    quality_report = [];
    blocked_reason = none;
    created_at = now;
    updated_at = now;
  })

-- The loop over the steps from an index on; a step that is no object is `none`.
unfoldable pub tasks_from : Iso → ℕ → String → List (Option RawStep) → Result (List PlanTask)
unfolding task_of
tasks_from now index previous [] = ok []
tasks_from now index previous (none ∷ ss) = err value_error
tasks_from now index previous (some s ∷ ss) = do
  t ← task_of now index previous s
  ok (t ∷ (← tasks_from now (suc index) (step_id index s) ss))

-- PlanManager._tasks_from_raw; `steps` is `none` where the plan has no list of steps.
unfoldable pub tasks_from_raw : Iso → Option (List (Option RawStep)) → Result (List PlanTask)
unfolding tasks_from
tasks_from_raw now none = err value_error
tasks_from_raw now (some steps) = do
  tasks ← tasks_from now 1 "" steps
  guard (not (is_nil tasks)) value_error
  ok tasks

-- The lines of the completed tasks other than one.
unfoldable pub prior_lines : String → List PlanTask → List String
prior_lines id [] = []
prior_lines id (t ∷ ts) =
    let summary = strip t.result_summary in
    let line = concat "- " (concat t.plan_task_id (concat ": " (prefix 500 summary))) in
    let rest = prior_lines id ts in
    if t.plan_task_id == id || not (task_is t.status TaskStatus.completed) || is_empty summary
    then rest
    else line ∷ rest

-- "\n".join(lines)
unfoldable pub join_lines : List String → String
join_lines [] = ""
join_lines (x ∷ []) = x
join_lines (x ∷ y ∷ ys) = concat x (concat "\n" (join_lines (y ∷ ys)))

-- PlanManager.task_prior_summaries_block
unfoldable pub task_prior_summaries_block : Plan → PlanTask → ℤ → String
unfolding prior_lines join_lines
task_prior_summaries_block p t max_items =
    let prior = prior_lines t.plan_task_id p.tasks in
    if is_nil prior
    then ""
    else concat "\n已完成的前置步骤结果：\n"
        (concat (join_lines (take_last (at_least_one max_items) prior)) "\n")
