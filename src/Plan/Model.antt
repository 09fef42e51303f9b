-- ===== src/Plan/Model.antt =====
-- core/plan/models.py: plans, their tasks and the checks of their constructors. Weights are whole
-- numbers, and the entries of `acceptance` and `quality_report` are texts.
use learn_agent.Prelude.{
  ℕ, ◌+◌, String, Option, Bool, true, false, not, ◌&&◌, ◌||◌, ◌==◌, if◌then◌else◌, List, [], ◌∷◌,
  map, any, all, Result, ok, err, value_error, key_error, guard, ◌>>=◌, ◌>>◌, Iso, strip, is_empty,
  eqb, ℤ, pos, negsuc, is_positive, is_negative,
}
use learn_agent.Plan.TaskStatus.{PlanTaskStatus, task_is}
use learn_agent.Plan.Dag.{Node, is_acyclic}

pub data PlanStatus : Type 0 where
  draft awaiting_approval approved active paused completed failed cancelled superseded : PlanStatus

abbrev pub value : PlanStatus → String
value draft = "draft"
value awaiting_approval = "awaiting_approval"
value approved = "approved"
value active = "active"
value paused = "paused"
value completed = "completed"
value failed = "failed"
value cancelled = "cancelled"
value superseded = "superseded"

-- The position in the declaration, by which two statuses are compared.
abbrev pub index : PlanStatus → ℕ
index draft = 0
index awaiting_approval = 1
index approved = 2
index active = 3
index paused = 4
index completed = 5
index failed = 6
index cancelled = 7
index superseded = 8

abbrev pub same : PlanStatus → PlanStatus → Bool
same s t = eqb (index s) (index t)

abbrev pub is_in : PlanStatus → List PlanStatus → Bool
is_in s = any (same s)

abbrev pub is_terminal : PlanStatus → Bool
is_terminal s = is_in s (completed ∷ failed ∷ cancelled ∷ superseded ∷ [])

-- The table _PLAN_TRANSITIONS.
abbrev pub plan_transitions : PlanStatus → List PlanStatus
plan_transitions draft = awaiting_approval ∷ cancelled ∷ []
plan_transitions awaiting_approval = approved ∷ cancelled ∷ superseded ∷ []
plan_transitions approved = active ∷ cancelled ∷ superseded ∷ []
plan_transitions active = paused ∷ completed ∷ failed ∷ cancelled ∷ []
plan_transitions paused = active ∷ cancelled ∷ []
plan_transitions completed = []
plan_transitions failed = []
plan_transitions cancelled = []
plan_transitions superseded = []

-- The dictionary `blocked_reason`.
pub data PlanReason : Type 0 where
  dependency_failed : String → PlanReason
  custom : String → PlanReason

pub record PlanTask : Type 0 where
  pub plan_task_id : String
  pub description : String
  pub depends_on : List String
  pub status : PlanTaskStatus
  pub weight : ℤ
  pub acceptance : List String
  pub retry_limit : ℤ
  pub attempts : ℕ
  pub task_id : Option String
  pub result_summary : String
  pub artifact_ids : List String
  pub quality_report : List String
  pub blocked_reason : Option PlanReason
  pub created_at : Iso
  pub updated_at : Iso

-- x in xs
abbrev pub contains : String → List String → Bool
contains x = any (λ y. x == y)

-- PlanTask.__post_init__, which PlanTask.from_dict runs on every stored task too.
unfoldable pub check_task : PlanTask → Result PlanTask
check_task t = do
  let id = strip t.plan_task_id
  let description = strip t.description
  guard (not (is_empty id || is_empty description)) value_error
  guard (not (contains id t.depends_on)) value_error
  guard (is_positive t.weight) value_error
  guard (not (is_negative t.retry_limit)) value_error
  ok (record t { plan_task_id = id; description = description })

pub record Plan : Type 0 where
  pub plan_id : String
  pub session_id : String
  pub title : String
  pub tasks : List PlanTask
  pub status : PlanStatus
  pub version : ℕ
  pub goal_id : Option String
  pub source_prompt : String
  pub approved_at : Option Iso
  pub approval_actor : Option String
  pub archived_at : Option Iso
  pub created_at : Iso
  pub updated_at : Iso

abbrev pub ids : List PlanTask → List String
ids = map (λ t. t.plan_task_id)

-- len(ids) == len(set(ids))
unfoldable pub is_unique : List String → Bool
is_unique [] = true
is_unique (x ∷ xs) = not (contains x xs) && is_unique xs

-- The graph that _validate_dag walks.
abbrev pub edges : List PlanTask → List Node
edges = map (λ t. record { id = t.plan_task_id; depends_on = t.depends_on })

-- Every dependency of every task is the id of a task.
unfoldable pub knows_all : List String → List PlanTask → Bool
knows_all known [] = true
knows_all known (t ∷ ts) = all (λ d. contains d known) t.depends_on && knows_all known ts

unfoldable pub check_tasks : List PlanTask → Result (List PlanTask)
check_tasks [] = ok []
check_tasks (t ∷ ts) = do ok ((← check_task t) ∷ (← check_tasks ts))

abbrev pub is_nil {ℓ} : {A : Type ℓ} → List A → Bool
is_nil [] = true
is_nil (x ∷ xs) = false

-- The __post_init__ of a plan, which from_dict runs on every stored plan too.
unfoldable pub check_plan : Plan → Result Plan
check_plan p = do
  guard (not (p.plan_id == "" || p.session_id == "")) value_error
  let title = strip p.title
  guard (not (eqb p.version 0)) value_error
  tasks ← check_tasks p.tasks
  guard (not (is_nil tasks)) value_error
  guard (is_unique (ids tasks)) value_error
  guard (knows_all (ids tasks) tasks) value_error
  guard (is_acyclic (edges tasks)) value_error
  ok (record p { title = if is_empty title then "执行方案" else title; tasks = tasks })

-- The method `transition` of a plan.
unfoldable pub transition : Plan → PlanStatus → Iso → Result Plan
transition p target now =
    if is_in target (plan_transitions p.status)
    then ok (record p { status = target; updated_at = now })
    else err value_error

-- The method `task` of a plan.
unfoldable pub find_task : String → List PlanTask → Result PlanTask
find_task id [] = err key_error
find_task id (t ∷ ts) = if t.plan_task_id == id then ok t else find_task id ts

abbrev pub natural : ℤ → ℕ
natural (pos n) = n
natural (negsuc n) = 0

-- The completed and the total weight, whose quotient the property `progress` is.
unfoldable pub total_weight : (PlanTask → Bool) → List PlanTask → ℕ
total_weight p [] = 0
total_weight p (t ∷ ts) = (if p t then natural t.weight else 0) + total_weight p ts

unfoldable pub progress : Plan → ℕ × ℕ
unfolding total_weight
progress p = (
  total_weight (λ t. task_is t.status PlanTaskStatus.completed) p.tasks,
  total_weight (λ t. true) p.tasks,
)
