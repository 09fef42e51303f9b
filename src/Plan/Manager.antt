-- ===== src/Plan/Manager.antt =====
-- core/plan/manager.py: PlanManager. Every operation takes the reading of the clock, and gives the
-- plan with the database after it, or raises and leaves the database as it was.
pub mod Downstream
pub mod Moves
pub mod Calls
use learn_agent.Prelude.{
  ℕ, zero, suc, ◌+◌, ◌*◌, String, Option, none, some, Bool, true, false, not, ◌&&◌, ◌||◌, ◌==◌,
  if◌then◌else◌, List, [], ◌∷◌, ◌++◌, map, any, all, keep, length, Result, ok, err, value_error,
  key_error, guard, require, ◌>>=◌, ◌>>◌, Iso, utc_now, concat, eqb, leb, ℤ, pos, negsuc,
}
use learn_agent.Plan.TaskStatus.{
  PlanTaskStatus, task_is, task_is_terminal, pending, ready, assigned, in_progress, waiting,
  blocked, failed, cancelled,
}
use learn_agent.Plan.Model.{
  Plan, PlanTask, PlanStatus, PlanReason, dependency_failed, awaiting_approval, approved, active,
  paused, draft, contains, value, check_plan, transition, find_task, is_terminal, is_in, same,
  is_nil, natural,
}
use learn_agent.Plan.Raw.{RawStep, tasks_from_raw}
use learn_agent.Store.Db.{Db, Event}
use learn_agent.Store.Plans.{save_plan, get_plan, delete_plan}

-- PlanManager._save
unfoldable pub save : Plan → String → Db → Result Db
save p event =
    save_plan p (record { event_type = event; session_id = some p.session_id; task_id = none })

-- from_dict(data) if data else None
unfoldable pub load : Option Plan → Result (Option Plan)
load none = ok none
load (some p) = do loaded ← check_plan p; ok (some loaded)

-- PlanManager.get
unfoldable pub get : String → Db → Result (Option Plan)
unfolding load
get id db = load (get_plan id db)

-- PlanManager._require
unfoldable pub require_plan : String → Db → Result Plan
require_plan id db = do found ← get id db; require found key_error

-- PlanManager.create_preview, with Plan.create; `id` is the generated plan id.
unfoldable pub create_preview :
    ℕ
    → String
    → String
    → String
    → Option (List (Option RawStep))
    → String
    → Option String
    → Db
    → Result (Plan × Db)
create_preview clock id session title steps prompt goal db = do
  tasks ← tasks_from_raw (utc_now clock) steps
  p ← check_plan (record {
    plan_id = id;
    session_id = session;
    title = title;
    tasks = tasks;
    status = draft;
    version = 1;
    goal_id = goal;
    source_prompt = prompt;
    approved_at = none;
    approval_actor = none;
    archived_at = none;
    created_at = utc_now clock;
    updated_at = utc_now clock;
  })
  db1 ← save p "plan.created" db
  waiting_plan ← transition p awaiting_approval (utc_now clock)
  db2 ← save waiting_plan "plan.awaiting_approval" db1
  ok (waiting_plan, db2)

-- by_id[dependency].status is COMPLETED
unfoldable pub is_done : List PlanTask → String → Bool
is_done tasks d = elim (find_task d tasks) [
  | ok t ↦ task_is t.status PlanTaskStatus.completed
  | err e ↦ false
]

-- The condition under which `_refresh_ready` makes a task ready.
unfoldable pub is_released : List PlanTask → PlanTask → Bool
is_released tasks t = task_is t.status pending && all (is_done tasks) t.depends_on

-- PlanManager._refresh_ready. A task that becomes ready completes no dependency, so that every task
-- is tested against the tasks as they were.
unfoldable pub refresh_ready : Iso → Plan → Plan
refresh_ready now p = record p {
  tasks =
      map (λ t. if is_released p.tasks t then record t { status = ready; updated_at = now } else t)
        p.tasks;
  updated_at = if any (is_released p.tasks) p.tasks then now else p.updated_at;
}

-- PlanManager._refresh_terminal
unfoldable pub refresh_terminal : Iso → Plan → Plan
refresh_terminal now p =
    if all (λ t. task_is_terminal t.status) p.tasks
    then record p {
      status =
          if all (λ t. task_is t.status PlanTaskStatus.completed) p.tasks
          then PlanStatus.completed
          else PlanStatus.failed;
      updated_at = now;
    }
    else p

-- The ids of the tasks that depend on a task.
unfoldable pub dependents_of : String → List PlanTask → List String
dependents_of id [] = []
dependents_of id (t ∷ ts) =
    if contains id t.depends_on then t.plan_task_id ∷ dependents_of id ts else dependents_of id ts

-- dependents.update(ids), on a set
unfoldable pub union : List String → List String → List String
union [] set = set
union (x ∷ xs) set = if contains x set then union xs set else x ∷ union xs set

-- The task with an id, changed.
unfoldable pub change_task : String → (PlanTask → PlanTask) → List PlanTask → List PlanTask
change_task id f [] = []
change_task id f (t ∷ ts) = if t.plan_task_id == id then f t ∷ ts else t ∷ change_task id f ts

abbrev pub block_task : Iso → PlanReason → PlanTask → PlanTask
block_task now reason t = record t {
  status = blocked;
  blocked_reason = some reason;
  updated_at = now;
}

abbrev pub is_pending : String → List PlanTask → Bool
is_pending id tasks = elim (find_task id tasks) [ ok t ↦ task_is t.status pending | err e ↦ false ]

-- The loop of _block_downstream, with the set `dependents` as a list of which `pop` takes the head.
unfoldable pub spread :
    ℕ → Iso → PlanReason → List String → List PlanTask → List String × List PlanTask
spread zero now reason set tasks = (set, tasks)
spread (suc f) now reason [] tasks = ([], tasks)
spread (suc f) now reason (current ∷ set) tasks =
    let next = change_task current (block_task now reason) tasks in
    let on = spread f now reason (union (dependents_of current next) set) next in
    let over = spread f now reason set tasks in if is_pending current tasks then on else over

-- Every turn of the loop takes an id off the set, and adds ids only when it blocks a task.
abbrev pub spread_fuel : List PlanTask → ℕ
spread_fuel tasks = length tasks + suc (length tasks) * length tasks

-- PlanManager._block_downstream
unfoldable pub block_downstream :
    Iso → String → String → List PlanTask → List String × List PlanTask
unfolding spread
block_downstream now id reason tasks =
    spread (spread_fuel tasks) now (dependency_failed (if reason == "" then id else reason))
      (dependents_of id tasks) tasks

-- task.attempts <= task.retry_limit
abbrev pub may_retry : PlanTask → Bool
may_retry t = elim t.retry_limit [ pos n ↦ leb t.attempts n | negsuc n ↦ false ]

-- list(dict.fromkeys(ids))
unfoldable pub unique : List String → List String → List String
unique seen [] = []
unique seen (x ∷ xs) = if contains x seen then unique seen xs else x ∷ unique (x ∷ seen) xs

-- What finish_task is given of a task's result.
pub record Outcome : Type 0 where
  pub success : Bool
  pub summary : String
  pub blocked_reason : Option PlanReason
  pub artifact_ids : Option (List String)
  pub quality_report : Option (List String)

abbrev pub is_running : PlanTaskStatus → Bool
is_running s = any (task_is s) (assigned ∷ in_progress ∷ waiting ∷ [])

-- The result of a task, stored before its status is settled.
unfoldable pub report_task : Iso → Outcome → PlanTask → PlanTask
unfolding unique
report_task now o t = record t {
  result_summary = o.summary;
  artifact_ids = elim o.artifact_ids [ none ↦ t.artifact_ids | some ids ↦ unique [] ids ];
  quality_report = elim o.quality_report [ none ↦ t.quality_report | some q ↦ q ];
  updated_at = now;
}

-- The status that a finished task gets, with the event.
unfoldable pub settle_task : Outcome → PlanTask → PlanTask × String
settle_task o t =
    if o.success
    then (
      record t { status = PlanTaskStatus.completed; blocked_reason = none },
      "plan.task_completed",
    )
    else if may_retry t
    then (record t { status = ready; blocked_reason = none }, "plan.task_retry_ready")
    else elim o.blocked_reason [
      | none ↦ (record t { status = failed; blocked_reason = none }, "plan.task_failed")
      | some r ↦ (record t { status = blocked; blocked_reason = some r }, "plan.task_blocked")
    ]

-- What finish_task makes of the tasks once the running task has been found.
unfoldable pub settle : Iso → Outcome → PlanTask → List PlanTask → List PlanTask
unfolding block_downstream
settle now o t tasks =
    let t' = (settle_task o (report_task now o t)).0 in
    let changed = change_task t.plan_task_id (λ _. t') tasks in
    let below = (block_downstream now t.plan_task_id o.summary changed).1 in
    if o.success || may_retry t then changed else below

-- The end of finish_task: a paused plan stays paused.
unfoldable pub refresh_finished : Iso → Plan → Plan
refresh_finished now p =
    if same p.status active then refresh_terminal now (refresh_ready now p) else refresh_ready now p

module _ (clock : ℕ) (id : String) (db : Db) where
  unfoldable pub approve : String → Result (Plan × Db)
  approve actor = do
    p ← require_plan id db
    moved ← transition p approved (utc_now clock)
    let approved_plan : Plan = record moved {
      approval_actor = some actor;
      approved_at = some (utc_now clock);
    }
    saved ← save approved_plan "plan.approved" db
    ok (approved_plan, saved)

  unfoldable pub activate : Result (Plan × Db)
  activate = do
    p ← require_plan id db
    moved ← transition p active (utc_now clock)
    let started = refresh_terminal (utc_now clock) (refresh_ready (utc_now clock) moved)
    saved ← save started (concat "plan." (value started.status)) db
    ok (started, saved)

  unfoldable pub pause : Result (Plan × Db)
  pause = do
    p ← require_plan id db
    moved ← transition p paused (utc_now clock)
    saved ← save moved "plan.paused" db
    ok (moved, saved)

  unfoldable pub cancel : Result (Plan × Db)
  cancel = do
    p ← require_plan id db
    moved ← transition p PlanStatus.cancelled (utc_now clock)
    let ended : Plan = record moved {
      tasks =
          map
            (λ t.
              if task_is_terminal t.status
              then t
              else record t { status = cancelled; updated_at = utc_now clock })
            moved.tasks;
    }
    saved ← save ended "plan.cancelled" db
    ok (ended, saved)

  -- PlanManager.ready_tasks
  unfoldable pub ready_tasks : Result (List PlanTask)
  ready_tasks = do
    p ← require_plan id db
    ok (
        if same p.status active
        then keep (λ t. task_is t.status ready) (refresh_ready (utc_now clock) p).tasks
        else [])

  unfoldable pub assign_task : String → String → Result (Plan × Db)
  assign_task plan_task task = do
    p ← require_plan id db
    guard (same p.status active) value_error
    t ← find_task plan_task p.tasks
    guard (task_is t.status ready) value_error
    let taken : PlanTask = record t {
      status = assigned;
      task_id = some task;
      attempts = t.attempts + 1;
      updated_at = utc_now clock;
    }
    let p' : Plan = record p { tasks = change_task plan_task (λ _. taken) p.tasks }
    saved ← save p' "plan.task_assigned" db
    ok (p', saved)

  unfoldable pub start_task : String → Result (Plan × Db)
  start_task plan_task = do
    p ← require_plan id db
    t ← find_task plan_task p.tasks
    guard (task_is t.status assigned) value_error
    let begun : PlanTask = record t { status = in_progress; updated_at = utc_now clock }
    let p' : Plan = record p { tasks = change_task plan_task (λ _. begun) p.tasks }
    saved ← save p' "plan.task_started" db
    ok (p', saved)

  unfoldable pub finish_task : String → Outcome → Result (Plan × Db)
  finish_task plan_task o = do
    p ← require_plan id db
    if is_terminal p.status then ok (p, db) else do
      guard (is_in p.status (active ∷ paused ∷ [])) value_error
      t ← find_task plan_task p.tasks
      guard (is_running t.status) value_error
      let settled : Plan = record p { tasks = settle (utc_now clock) o t p.tasks }
      let p' = refresh_finished (utc_now clock) settled
      saved ← save p' (settle_task o t).1 db
      ok (p', saved)

  -- PlanManager.archive_terminal
  unfoldable pub archive_terminal : Result (Plan × Db)
  archive_terminal = do
    p ← require_plan id db
    guard (is_terminal p.status) value_error
    ok (p, (delete_plan clock p.plan_id db).1)
