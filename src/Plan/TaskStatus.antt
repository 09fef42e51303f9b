-- ===== src/Plan/TaskStatus.antt =====
-- core/plan/models.py: PlanTaskStatus.
use learn_agent.Prelude.{ℕ, Bool, eqb, any, [], ◌∷◌}

pub data PlanTaskStatus : Type 0 where
  pending ready assigned in_progress waiting completed failed blocked cancelled : PlanTaskStatus

-- The position in the declaration, by which two statuses are compared.
abbrev pub task_index : PlanTaskStatus → ℕ
task_index pending = 0
task_index ready = 1
task_index assigned = 2
task_index in_progress = 3
task_index waiting = 4
task_index completed = 5
task_index failed = 6
task_index blocked = 7
task_index cancelled = 8

abbrev pub task_is : PlanTaskStatus → PlanTaskStatus → Bool
task_is s t = eqb (task_index s) (task_index t)

-- status in PlanTaskStatus.terminal()
abbrev pub task_is_terminal : PlanTaskStatus → Bool
task_is_terminal s = any (task_is s) (completed ∷ failed ∷ blocked ∷ cancelled ∷ [])
