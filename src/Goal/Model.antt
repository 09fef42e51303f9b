-- ===== src/Goal/Model.antt =====
-- core/goal/models.py: a goal and its life cycle. `progress` is in thousandths.
use learn_agent.Prelude.{
  ℕ, String, Option, none, Bool, true, false, not, ◌||◌, ◌==◌, if◌then◌else◌, List, [], Result, ok,
  value_error, guard, ◌>>◌, Iso, strip, prefix, is_empty, min, max, ℤ, at_least_one,
}

pub data GoalStatus : Type 0 where
  active paused blocked completed cancelled : GoalStatus

pub data GoalActivation : Type 0 where
  armed disarmed : GoalActivation

-- status in GoalStatus.terminal()
abbrev pub is_terminal : GoalStatus → Bool
is_terminal completed = true
is_terminal cancelled = true
is_terminal active = false
is_terminal paused = false
is_terminal blocked = false

abbrev pub is_active : GoalStatus → Bool
is_active active = true
is_active paused = false
is_active blocked = false
is_active completed = false
is_active cancelled = false

-- The reasons for which the code blocks a goal; `custom` is a caller's own.
pub data BlockedReason : Type 0 where
  max_rounds : ℕ → BlockedReason
  quality_gate_failed : BlockedReason
  plan_terminal : String → String → BlockedReason
  round_failed : String → String → BlockedReason
  driver_error : String → BlockedReason
  custom : String → BlockedReason

-- An entry of continuation["round_history"].
pub record RoundSummary : Type 0 where
  pub round : ℕ
  pub summary : String

-- An entry of continuation["dropped_rounds"].
pub record DroppedRound : Type 0 where
  pub round : ℕ
  pub task_id : String
  pub reason : String
  pub at : Iso

-- The dictionary `continuation`, by the keys that the code reads or writes; `other` holds the rest.
pub record Continuation : Type 0 where
  pub round : Option ℕ
  pub revision : Option ℕ
  pub task_id : Option String
  pub state : Option String
  pub summary : Option String
  pub round_history : List RoundSummary
  pub dropped_rounds : List DroppedRound
  pub other : List (String × String)

abbrev pub no_continuation : Continuation
no_continuation = record {
  round = none;
  revision = none;
  task_id = none;
  state = none;
  summary = none;
  round_history = [];
  dropped_rounds = [];
  other = [];
}

pub record Goal : Type 0 where
  pub goal_id : String
  pub session_id : String
  pub title : String
  pub objective : String
  pub status : GoalStatus
  pub activation : GoalActivation
  pub version : ℕ
  pub plan_id : Option String
  pub progress : ℕ
  pub continuation : Continuation
  pub blocked_reason : Option BlockedReason
  pub rounds_started : ℕ
  pub max_rounds : ℕ
  pub current_task_id : Option String
  pub created_at : Iso
  pub updated_at : Iso

-- Goal.is_armed
abbrev pub is_armed : Goal → Bool
is_armed g = elim g.activation [ armed ↦ is_active g.status | disarmed ↦ false ]

-- title.strip() or objective.strip()[:120]
unfoldable pub title_or_objective : String → String → String
title_or_objective title objective =
    if is_empty (strip title) then prefix 120 (strip objective) else strip title

-- The test at the head of __post_init__.
abbrev pub is_named : Goal → Bool
is_named g = not (g.goal_id == "" || g.session_id == "" || is_empty (strip g.objective))

-- The fields as __post_init__ leaves them.
unfoldable pub normal : Goal → Goal
normal g = record g {
  version = max 1 g.version;
  max_rounds = max 1 g.max_rounds;
  title = title_or_objective g.title g.objective;
  progress = min 1000 g.progress;
  activation = if is_active g.status then g.activation else disarmed;
}

-- Goal.__post_init__, which Goal.from_dict runs on every stored goal too.
unfoldable pub post_init : Goal → Result Goal
unfolding normal
post_init g = do guard (is_named g) value_error; ok (normal g)

-- title or objective[:120]
title_or_head : String → String → String
title_or_head title objective = if title == "" then prefix 120 objective else title

-- Goal.create, as GoalRuntime.create calls it; `id` is the generated goal id.
unfoldable pub create :
    String → String → String → String → Continuation → ℤ → Bool → Iso → Result Goal
unfolding title_or_head
create id session objective title continuation rounds is_start now = post_init (record {
  goal_id = id;
  session_id = session;
  title = title_or_head title objective;
  objective = objective;
  status = active;
  activation = if is_start then armed else disarmed;
  version = 1;
  plan_id = none;
  progress = 0;
  continuation = continuation;
  blocked_reason = none;
  rounds_started = 0;
  max_rounds = at_least_one rounds;
  current_task_id = none;
  created_at = now;
  updated_at = now;
})
