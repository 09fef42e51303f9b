-- ===== src/Goal/Runtime/Calls/Pausing.antt =====
-- GoalRuntime.pause (core/goal/runtime.py): the round under way is dropped and its task marked
-- cancelled before the goal is saved as paused.
use learn_agent.Prelude.{
  ℕ, ◌≡◌, ◌∙◌, refl, sym, ap, subst, String, true, false, Option, none, some, arith, ok, lookup,
  ◌==◌, if◌then◌else◌, Bool-cases, Option-cases, Result-cases, inl, inr, truthy, value_error,
  guard-ok,
}
use learn_agent.Goal.Model.{Goal, paused, disarmed, is_terminal, is_active}
use learn_agent.Store.Db.{Db}
use learn_agent.Store.Tasks.{request_cancel}
use learn_agent.Runtime.Task.{TaskRecord}
use learn_agent.Goal.Runtime.{
  World, touch, require_version, pause, record_drop, drop_current, mark_cancelled, round_of,
}
use learn_agent.Goal.Runtime.Soundness.{IsSound, IsConsistent, Loaded, require_version-Loaded}
use learn_agent.Goal.Runtime.Calls.Steps.{
  Step, Edit, Written, answered, changed-Written, touch-Written,
}
use learn_agent.Goal.Runtime.Calls.Changes.{record_drop-Written}

pub active_live : (g : Goal) → is_active g.status ≡ true → is_terminal g.status ≡ false
active_live g h = ground arith

-- Marking a task cancelled leaves goals and sessions alone.
request_cancel-keeps :
    (clock : ℕ) (task reason : String) (db : Db) {r : TaskRecord} {db' : Db}
    → request_cancel clock task reason db ≡ ok (r, db')
    → (db'.goals ≡ db.goals) × (db'.sessions ≡ db.sessions)
unfolding request_cancel
request_cancel-keeps clock task reason db h = elim (Option-cases (lookup task db.tasks)) [
  | inl e ↦ ground arith
  | inr (t, e) ↦ ground arith
]

mark_cancelled-keeps :
    (clock : ℕ) (task : String) (w : World)
    → ((mark_cancelled clock task w).db.goals ≡ w.db.goals)
      × ((mark_cancelled clock task w).db.sessions ≡ w.db.sessions)
unfolding mark_cancelled
mark_cancelled-keeps clock task w =
    elim (Result-cases (request_cancel clock task "goal_paused" w.db)) [
      | inl ((r, db), e) ↦
          rw (mark_cancelled, e) (request_cancel-keeps clock task "goal_paused" w.db e)
      | inr (x, e) ↦ rw (mark_cancelled, e) (refl, refl)
    ]

mark_cancelled-IsConsistent :
    (clock : ℕ) (task : String) (w : World)
    → IsConsistent w.db
    → IsConsistent (mark_cancelled clock task w).db
mark_cancelled-IsConsistent clock task w v =
    let (goals, sessions) = mark_cancelled-keeps clock task w in
    record {
      goals = λ id g h. v.goals id g (ap (lookup id) (sym goals) ∙ h);
      sessions = λ sid s h gid e.
          let (g, found, on, own) = v.sessions sid s (ap (lookup sid) (sym sessions) ∙ h) gid e in
          (g, ap (lookup gid) goals ∙ found, on, own);
    }

-- The two ways of `drop_current`.
dropping : ℕ → Goal → World → Option String → Goal × World
dropping clock g w none = (g, w)
dropping clock g w (some task) = if task == "" then (g, w) else (
  record ((record_drop clock g task (round_of g) "paused" w).0) { current_task_id = none },
  mark_cancelled clock task (record_drop clock g task (round_of g) "paused" w).1,
)

drop_current-dropping :
    (clock : ℕ) (g : Goal) (w : World)
    → drop_current clock g w ≡ dropping clock g w g.current_task_id
unfolding drop_current dropping
drop_current-dropping clock g w = ground arith

idle_dropping :
    (clock : ℕ) (g : Goal) (w : World) (task : Option String)
    → truthy task ≡ false
    → dropping clock g w task ≡ (g, w)
unfolding dropping
idle_dropping clock g w none h = refl
idle_dropping clock g w (some task) h = ground arith

drop_current-idle :
    (clock : ℕ) (g : Goal) (w : World)
    → truthy g.current_task_id ≡ false
    → drop_current clock g w ≡ (g, w)
unfolding dropping
drop_current-idle clock g w idle =
    drop_current-dropping clock g w ∙ idle_dropping clock g w g.current_task_id idle

drop_current-busy :
    (clock : ℕ) (g : Goal) (w : World) (task : String)
    → g.current_task_id ≡ some task
    → (task == "") ≡ false
    → drop_current clock g w ≡ (
      record ((record_drop clock g task (round_of g) "paused" w).0) { current_task_id = none },
      mark_cancelled clock task (record_drop clock g task (round_of g) "paused" w).1,
    )
unfolding dropping
drop_current-busy clock g w task e full =
    drop_current-dropping clock g w ∙ ap (dropping clock g w) e ∙ (rw full refl)

-- A paused goal with no round under way.
abbrev halted : Goal → Goal
halted g = record g { status = paused; activation = disarmed }

-- Saving the goal of a pair as paused writes it.
abbrev Pauses : ℕ → String → Goal → Goal × World → Type 0
Pauses clock id g p =
    Written id g (touch clock (halted p.0) "goal.paused" p.1).0
      (touch clock (halted p.0) "goal.paused" p.1).1

drop_halted-IsSound :
    (clock : ℕ) (g : Goal) (task : String) (round : ℕ) (reason : String) (w : World)
    → IsSound g
    → IsSound
        (halted (record ((record_drop clock g task round reason w).0) { current_task_id = none }))
unfolding record_drop touch
drop_halted-IsSound clock g task round reason w s = ground arith

halted-IsSound : (g : Goal) → IsSound g → truthy g.current_task_id ≡ false → IsSound (halted g)
halted-IsSound g s idle = ground arith

halted-Edit : (g : Goal) → IsSound g → truthy g.current_task_id ≡ false → Edit g (halted g)
halted-Edit g s idle = record {
  key = refl;
  session = refl;
  version = refl;
  sound = halted-IsSound g s idle;
}

module _ (clock : ℕ) (id : String) (expected : Option ℕ) (w : World) (v : IsConsistent w.db)
    (g : Goal) (l : Loaded id expected w g) (on : is_active g.status ≡ true) where
  -- Dropping the round under way and pausing writes the goal twice.
  halted_Written :
      (task reason : String) (round : ℕ)
      → Pauses clock id g (
        record ((record_drop clock g task round reason w).0) { current_task_id = none },
        mark_cancelled clock task (record_drop clock g task round reason w).1,
      )
  halted_Written task reason round =
      let first =
        record_drop-Written clock id expected w v g task round reason l (active_live g on) in
      let g1 = (record_drop clock g task round reason w).0 in
      let w1 = (record_drop clock g task round reason w).1 in
      touch-Written clock id "goal.paused" (mark_cancelled clock task w1) g
        (halted (record g1 { current_task_id = none }))
        (record {
          consistent = mark_cancelled-IsConsistent clock task w1 first.consistent;
          old = g1;
          found = ap (lookup id) ((mark_cancelled-keeps clock task w1).0) ∙ first.stored;
          same = refl;
          named = first.key ∙ l.key;
        })
        (active_live g on) (let n = first.newer in omega arith) first.key first.session
        (drop_halted-IsSound clock g task round reason w l.sound)

  idle_Written : truthy g.current_task_id ≡ false → Pauses clock id g (g, w)
  idle_Written idle =
      changed-Written clock id expected "goal.paused" w g (halted g) v l (active_live g on)
        (halted-Edit g l.sound idle)

  paused_Written : Pauses clock id g (drop_current clock g w)
  paused_Written = elim (Option-cases g.current_task_id) [
    | inl e ↦
        subst (Pauses clock id g) (sym (drop_current-idle clock g w (rw e refl)))
          (idle_Written (rw e refl))
    | inr (task, e) ↦ elim (Bool-cases (task == "")) [
      | inl empty ↦
          subst (Pauses clock id g) (sym (drop_current-idle clock g w (rw (e, empty) refl)))
            (idle_Written (rw (e, empty) refl))
      | inr full ↦
          subst (Pauses clock id g) (sym (drop_current-busy clock g w task e full))
            (halted_Written task "paused" (round_of g))
    ]
  ]

module _ (clock : ℕ) (id : String) (expected : Option ℕ) (w : World) (v : IsConsistent w.db)
    {g' : Goal} {w' : World} where
  pub pause-Step : pause clock id expected w ≡ ok (g', w') → Step id expected w g' w'
  unfolding pause
  pause-Step h = elim (Result-cases (require_version id expected w)) [
    | inr (_, e) ↦ absurd (cc (rw e at h))
    | inl (g, e) ↦
        let l = require_version-Loaded id expected w v e in
        let (on, final) = guard-ok (is_active g.status) value_error _ (rw e at h) in
        record {
          before = g;
          load = l;
          outcome = answered id w g _ (paused_Written clock id expected w v g l on) final;
        }
  ]
