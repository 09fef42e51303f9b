-- ===== src/Goal/Runtime.antt =====
-- core/goal/runtime.py: GoalRuntime. Every operation takes the reading of the clock, and gives the
-- goal with the world after it, or raises and leaves the world as it was.
pub mod Soundness
pub mod Calls
pub mod History
use learn_agent.Prelude.{
  ℕ, suc, ◌+◌, String, Option, none, some, List, [], ◌∷◌, ◌++◌, Bool, true, false, not, ◌&&◌, ◌||◌,
  ◌==◌, if◌then◌else◌, ltb, leb, eqb, Iso, utc_now, truthy, same_text, strip, prefix, is_empty,
  take_last, Result, ok, err, value_error, key_error, runtime_error, guard, require, ◌>>=◌, ◌>>◌, ℤ,
  at_least_one, max,
}
use learn_agent.Goal.Model.{
  GoalStatus, active, paused, blocked, completed, cancelled, GoalActivation, armed, disarmed,
  is_terminal, is_active, is_armed, BlockedReason, Continuation, RoundSummary, DroppedRound, Goal,
  post_init,
}
use learn_agent.Goal.Model
use learn_agent.Plan.Model.{Plan}
use learn_agent.Plan.Model as PlanModel
use learn_agent.Store.Db.{Db, Event}
use learn_agent.Store.Tasks.{request_cancel}
use learn_agent.Store.Goals.{save_goal, get_goal, delete_goal}

-- The store, and what the callback `publish` has been given.
pub record World : Type 0 where
  pub db : Db
  pub published : List (String × Goal)

-- GoalRuntime._save
unfoldable pub save : ℕ → Goal → String → World → World
save clock g event w = record {
  db =
      save_goal clock g
        (record { event_type = event; session_id = some g.session_id; task_id = none }) w.db;
  published = w.published ++ (event, g) ∷ [];
}

-- GoalRuntime._touch
unfoldable pub touch : ℕ → Goal → String → World → Goal × World
unfolding save
touch clock g event w =
    let g' = record g { version = g.version + 1; updated_at = utc_now clock } in
    (g', save clock g' event w)

-- Goal.from_dict(data) if data else None
unfoldable pub load : Option Goal → Result (Option Goal)
load none = ok none
load (some g) = do loaded ← post_init g; ok (some loaded)

-- GoalRuntime.get
unfoldable pub get : String → World → Result (Option Goal)
unfolding load
get id w = load (get_goal id w.db)

-- No version is expected, or the goal has the one that is.
abbrev pub is_version : Option ℕ → Goal → Bool
is_version none g = true
is_version (some v) g = eqb g.version v

-- GoalRuntime._require_version: a transaction of its own, which does not bind the one that saves. An
-- operation here is both of them, with no other writer in between.
unfoldable pub require_version : String → Option ℕ → World → Result Goal
unfolding get
require_version id expected w = do
  found ← get id w
  g ← require found key_error
  guard (is_version expected g) runtime_error
  ok g

-- GoalRuntime.create; `id` is the generated goal id.
unfoldable pub create :
    ℕ → String → String → String → String → Continuation → ℤ → Bool → World → Result (Goal × World)
unfolding save
create clock id session objective title continuation rounds is_start w = do
  g ← Model.create id session objective title continuation rounds is_start (utc_now clock)
  ok (g, save clock g "goal.created" w)

module _ (clock : ℕ) (id : String) (expected : Option ℕ) (w : World) where
  unfoldable pub update_continuation : Continuation → Result (Goal × World)
  update_continuation snapshot = do
    g ← require_version id expected w
    guard (not (is_terminal g.status)) value_error
    ok (touch clock (record g { continuation = snapshot }) "goal.continuation_updated" w)

  unfoldable pub edit : String → Result (Goal × World)
  edit objective = do
    g ← require_version id expected w
    let text = strip objective
    guard (not (is_empty text)) value_error
    guard (not (is_terminal g.status)) value_error
    ok (touch clock (record g { objective = text; title = prefix 120 text }) "goal.edited" w)

  unfoldable pub attach_plan : String → Result (Goal × World)
  attach_plan plan = do
    g ← require_version id expected w
    guard (not (is_terminal g.status)) value_error
    ok (touch clock (record g { plan_id = some plan }) "goal.plan_attached" w)

  unfoldable pub resume : Result (Goal × World)
  resume = do
    g ← require_version id expected w
    guard (not (is_terminal g.status)) value_error
    ok (
        touch clock
          (record g {
            status = active;
            activation = armed;
            blocked_reason = none;
            current_task_id = none;
          })
          "goal.resumed" w)

  unfoldable pub disarm : Result (Goal × World)
  disarm = do
    g ← require_version id expected w
    if is_terminal g.status
        then ok (g, w)
        else ok (
            touch clock (record g { activation = disarmed; current_task_id = none }) "goal.disarmed"
              w)

  unfoldable pub block : BlockedReason → Result (Goal × World)
  block reason = do
    g ← require_version id expected w
    guard (not (is_terminal g.status)) value_error
    ok (
        touch clock
          (record g {
            status = blocked;
            activation = disarmed;
            blocked_reason = some reason;
            current_task_id = none;
          })
          "goal.blocked" w)

  unfoldable pub cancel : Result (Goal × World)
  cancel = do
    g ← require_version id expected w
    if is_terminal g.status
        then ok (g, w)
        else ok (
            touch clock
              (record g { status = cancelled; activation = disarmed; current_task_id = none })
              "goal.cancelled" w)

  unfoldable pub update_max_rounds : ℤ → Result (Goal × World)
  update_max_rounds rounds = do
    g ← require_version id expected w
    guard (not (is_terminal g.status)) value_error
    guard (leb g.rounds_started (at_least_one rounds)) value_error
    ok (touch clock (record g { max_rounds = at_least_one rounds }) "goal.max_rounds_updated" w)

  -- GoalRuntime.archive
  unfoldable pub archive : Result (Goal × World)
  archive = do
    g ← require_version id expected w
    let w' = record w { db = (delete_goal clock id w.db).1 }
    if is_terminal g.status
        then ok (g, w')
        else ok (record g { status = cancelled; activation = disarmed; current_task_id = none }, w')

-- continuation.get("round") or rounds_started
abbrev pub round_of : Goal → ℕ
round_of g = elim g.continuation.round [
  | none ↦ g.rounds_started
  | some n ↦ if eqb n 0 then g.rounds_started else n
]

-- GoalRuntime._record_dropped_round
unfoldable pub record_drop : ℕ → Goal → String → ℕ → String → World → Goal × World
unfolding touch
record_drop clock g task round reason w =
    let entry : DroppedRound = record {
      round = round;
      task_id = task;
      reason = reason;
      at = utc_now clock;
    } in
    touch clock
      (record g {
        continuation = record (g.continuation) {
          dropped_rounds = take_last 20 (g.continuation.dropped_rounds ++ entry ∷ []);
        };
      })
      "goal.round_dropped" w

-- The cancel mark that `pause` leaves in the store; its failure is ignored.
unfoldable pub mark_cancelled : ℕ → String → World → World
mark_cancelled clock task w = elim (request_cancel clock task "goal_paused" w.db) [
  | ok (r, db) ↦ record w { db = db }
  | err e ↦ w
]

-- What `pause` does with a round that is under way.
unfoldable pub drop_current : ℕ → Goal → World → Goal × World
unfolding record_drop mark_cancelled
drop_current clock g w = elim g.current_task_id [
  | none ↦ (g, w)
  | some task ↦
      if task == ""
      then (g, w)
      else (let (g', w') = record_drop clock g task (round_of g) "paused" w in
          (record g' { current_task_id = none }, mark_cancelled clock task w'))
]

module _ (clock : ℕ) (id : String) (expected : Option ℕ) (w : World) where
  unfoldable pub pause : Result (Goal × World)
  pause = do
    g ← require_version id expected w
    guard (is_active g.status) value_error
    let dropped = drop_current clock g w
    ok (
        touch clock (record (dropped.0) { status = paused; activation = disarmed }) "goal.paused"
          dropped.1)

  unfoldable pub record_dropped_round : String → ℕ → String → Result (Goal × World)
  record_dropped_round task round reason = do
    g ← require_version id expected w
    if is_terminal g.status then ok (g, w) else ok (record_drop clock g task round reason w)

  unfoldable pub reserve_round : String → Result (Goal × World)
  reserve_round task = do
    g ← require_version id expected w
    guard (is_armed g) value_error
    guard (not (truthy g.current_task_id)) runtime_error
    if leb g.max_rounds g.rounds_started
        then block clock id (some g.version) w (BlockedReason.max_rounds g.max_rounds)
        else ok (
            touch clock
              (record g {
                rounds_started = g.rounds_started + 1;
                current_task_id = some task;
                continuation = record (g.continuation) {
                  round = some (g.rounds_started + 1);
                  revision = some (g.version + 1);
                  task_id = some task;
                  state = some "queued";
                };
              })
              "goal.round_reserved" w)

  unfoldable pub finish_round : String → String → Result (Goal × World)
  finish_round task summary = do
    g ← require_version id expected w
    guard (same_text g.current_task_id (some task)) runtime_error
    let entry : RoundSummary = record { round = g.rounds_started; summary = prefix 300 summary }
    let history = g.continuation.round_history ++ (if summary == "" then [] else entry ∷ [])
    ok (
        touch clock
          (record g {
            current_task_id = none;
            continuation = record (g.continuation) {
              task_id = some task;
              state = some "completed";
              summary = some (prefix 2000 summary);
              round_history = take_last 8 history;
            };
          })
          "goal.round_completed" w)

  -- GoalRuntime.complete and complete_async. `report` tells whether the quality gate passed, where
  -- there are acceptance criteria and a gate.
  unfoldable pub complete : Option Bool → Result (Goal × World)
  complete report = do
    g ← require_version id expected w
    guard (is_active g.status) value_error
    elim report [
      | some false ↦ block clock id (some g.version) w BlockedReason.quality_gate_failed
      | _ ↦ ok (
          touch clock
            (record g {
              status = completed;
              activation = disarmed;
              progress = 1000;
              current_task_id = none;
            })
            "goal.completed" w)
    ]

-- What becomes of a goal when its plan has ended in a status.
unfoldable pub follow_plan : ℕ → Goal → Plan → Option Bool → World → Result (Goal × World)
follow_plan clock g p report w =
    if PlanModel.same p.status PlanModel.completed
    then complete clock g.goal_id none w report
    else if PlanModel.is_in p.status (PlanModel.failed ∷ PlanModel.cancelled ∷ [])
    then block clock g.goal_id none w
        (BlockedReason.plan_terminal p.plan_id (PlanModel.value p.status))
    else ok (g, w)

-- GoalRuntime.reconcile_plan: `none` where the plan has no goal, or its goal is not stored.
unfoldable pub reconcile_plan : ℕ → Plan → Option Bool → World → Result (Option Goal × World)
unfolding follow_plan
reconcile_plan clock p report w = elim p.goal_id [
  | none ↦ ok (none, w)
  | some id ↦ do
    found ← get id w
    elim found [
      | none ↦ ok (none, w)
      | some g ↦
          if is_terminal g.status
          then ok (some g, w)
          else (do after ← follow_plan clock g p report w; ok (some (after.0), after.1))
    ]
]
