-- ===== src/Goal/Runtime/Calls/Rounds.antt =====
-- The operations of GoalRuntime (core/goal/runtime.py) on rounds and on completion.
use learn_agent.Prelude.{
  ℕ, ◌≡◌, ◌+◌, refl, String, Bool, true, false, not, Option, none, some, arith, ok, ◌==◌, eq_iff,
  Bool-cases, Option-cases, Result-cases, ◌>>=◌, ◌>>◌, inl, inr, truthy, same_text, value_error,
  runtime_error, guard, guard-ok, leb,
}
use learn_agent.Goal.Model.{Goal, completed, disarmed, is_terminal, is_active, is_armed}
use learn_agent.Goal.Runtime.{World, touch, require_version, reserve_round, finish_round, complete}
use learn_agent.Goal.Runtime.Soundness.{IsSound, IsConsistent, require_version-Loaded}
use learn_agent.Goal.Runtime.Calls.Steps.{Step, Edit, simple, restep, answered, changed-Written}
use learn_agent.Goal.Runtime.Calls.Changes.{block-Step}
use learn_agent.Goal.Runtime.Calls.Pausing.{active_live}

-- A round may be finished only while the goal is live, since its task id is not empty.
finishing_live :
    (g : Goal) (task : String)
    → IsSound g
    → (task == "") ≡ false
    → same_text g.current_task_id (some task) ≡ true
    → is_terminal g.status ≡ false
finishing_live g task s full same = elim (Option-cases g.current_task_id) [
  | inl e ↦ absurd (cc (rw e at same))
  | inr (t, e) ↦
      let text : t ≡ task = (eq_iff t task).0 (rw e at same) in
      let busy : truthy g.current_task_id ≡ true = rw (e, text, full) refl in
      let on = s.running busy in ground arith
]

armed_live : (g : Goal) → is_armed g ≡ true → is_terminal g.status ≡ false
armed_live g h = ground arith

-- The goal with a round reserved for a task.
abbrev reserved : Goal → String → Goal
reserved g task = record g {
  rounds_started = g.rounds_started + 1;
  current_task_id = some task;
  continuation = record (g.continuation) {
    round = some (g.rounds_started + 1);
    revision = some (g.version + 1);
    task_id = some task;
    state = some "queued";
  };
}

reserved-Edit :
    (g : Goal) (task : String)
    → IsSound g
    → is_armed g ≡ true
    → leb g.max_rounds g.rounds_started ≡ false
    → Edit g (reserved g task)
reserved-Edit g task s on room = ground arith

-- The goal when it is completed.
abbrev finished : Goal → Goal
finished g = record g {
  status = completed;
  activation = disarmed;
  progress = 1000;
  current_task_id = none;
}

finished-Edit : (g : Goal) → IsSound g → Edit g (finished g)
finished-Edit g s = ground arith

module _ (clock : ℕ) (id : String) (expected : Option ℕ) (w : World) (v : IsConsistent w.db)
    {g' : Goal} {w' : World} where
  pub finish_round-Step :
      (task summary : String)
      → (task == "") ≡ false
      → finish_round clock id expected w task summary ≡ ok (g', w')
      → Step id expected w g' w'
  unfolding finish_round
  finish_round-Step task summary full =
      simple clock id expected w v runtime_error "goal.round_completed"
        (λ g. same_text g.current_task_id (some task)) _
        (λ g s same. (finishing_live g task s full same, ground arith))

  pub reserve_round-Step :
      (task : String)
      → reserve_round clock id expected w task ≡ ok (g', w')
      → Step id expected w g' w'
  unfolding reserve_round
  reserve_round-Step task h = elim (Result-cases (require_version id expected w)) [
    | inr (_, e) ↦ absurd (cc (rw e at h))
    | inl (g, e) ↦
        let l = require_version-Loaded id expected w v e in
        let (armed_now, more) = guard-ok (is_armed g) value_error _ (rw e at h) in
        let (idle, final) = guard-ok (not (truthy g.current_task_id)) runtime_error _ more in
        elim (Bool-cases (leb g.max_rounds g.rounds_started)) [
          | inl full ↦
              restep id expected (some g.version) w g g' w' l
                (block-Step clock id (some g.version) w v _ (rw full at final))
          | inr room ↦ record {
            before = g;
            load = l;
            outcome =
                answered id w g _
                  (changed-Written clock id expected "goal.round_reserved" w g (reserved g task) v l
                    (armed_live g armed_now) (reserved-Edit g task l.sound armed_now room))
                  (rw room at final);
          }
        ]
  ]

  -- Completion, where no gate stands in its way.
  completing :
      (require_version id expected w >>= λ g.
      guard (is_active g.status) value_error >> ok (touch clock (finished g) "goal.completed" w))
        ≡ ok (g', w')
      → Step id expected w g' w'
  completing =
      simple clock id expected w v value_error "goal.completed" (λ g. is_active g.status) finished
        (λ g s on. (active_live g on, finished-Edit g s))

  pub complete-Step :
      (report : Option Bool)
      → complete clock id expected w report ≡ ok (g', w')
      → Step id expected w g' w'
  unfolding complete
  complete-Step none h = completing h
  complete-Step (some true) h = completing h
  complete-Step (some false) h = elim (Result-cases (require_version id expected w)) [
    | inr (_, e) ↦ absurd (cc (rw e at h))
    | inl (g, e) ↦
        let l = require_version-Loaded id expected w v e in
        let (_, final) = guard-ok (is_active g.status) value_error _ (rw e at h) in
        restep id expected (some g.version) w g g' w' l
          (block-Step clock id (some g.version) w v _ final)
  ]
