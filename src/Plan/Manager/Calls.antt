-- ===== src/Plan/Manager/Calls.antt =====
-- PlanManager (core/plan/manager.py): its operations as one type of calls, and what they keep.
use learn_agent.Prelude.{
  ◌⊎◌, ℕ, ◌≡◌, refl, sym, ap, ◌∙◌, String, true, some, [], ◌∷◌, Result, ok, lookup, Bool-cases,
  Result-cases, guard-ok, inl, inr, Iso, utc_now, value_error, subst,
}
use learn_agent.Plan.Model.{Plan, is_in, is_terminal, same, active, paused, find_task}
use learn_agent.Store.Db.{Db}
use learn_agent.Plan.Manager.{
  save, require_plan, approve, activate, pause, cancel, assign_task, start_task, finish_task,
  refresh_ready, refresh_finished, Outcome, settle, settle_task, is_running,
}
use learn_agent.Plan.Manager.Moves.{
  Reaches, here, Moved, require_plan-status, refresh_terminal-Reaches, is_same_pair, saving,
  approve-Moved, activate-Moved, pause-Moved, cancel-Moved, assign_task-Moved, start_task-Moved,
}

-- The operations of PlanManager on a stored plan that save it.
pub data PlanCall : Type 0 where
  approves : String → PlanCall
  activates : PlanCall
  pauses : PlanCall
  cancels : PlanCall
  assigns : String → String → PlanCall
  starts : String → PlanCall
  finishes : String → Outcome → PlanCall

abbrev pub manage : ℕ → String → Db → PlanCall → Result (Plan × Db)
manage clock id db (approves actor) = approve clock id db actor
manage clock id db activates = activate clock id db
manage clock id db pauses = pause clock id db
manage clock id db cancels = cancel clock id db
manage clock id db (assigns plan_task task) = assign_task clock id db plan_task task
manage clock id db (starts plan_task) = start_task clock id db plan_task
manage clock id db (finishes plan_task o) = finish_task clock id db plan_task o

-- The end of finish_task keeps the status, or ends an active plan.
abbrev Goes : Plan → Plan → Type 0
Goes p p' = (p'.status ≡ p.status) ⊎ ((same p.status active ≡ true) × Reaches p.status p'.status)

refresh_finished-Goes : (now : Iso) (p : Plan) → Goes p (refresh_finished now p)
unfolding refresh_finished refresh_ready
refresh_finished-Goes now p = elim (Bool-cases (same p.status active)) [
  | inl on ↦ rw on (inr (refl, refresh_terminal-Reaches now (refresh_ready now p) on))
  | inr off ↦ rw off (inl refl)
]

saving-status :
    (f : Plan) (event : String) (db : Db) {p' : Plan} {db' : Db}
    → saving f event db ≡ ok (p', db')
    → p'.status ≡ f.status
saving-status f event db {p'} {db'} h = elim (Result-cases (save f event db)) [
  | inl (s, e) ↦ is_same_pair f p' s db' (rw e at h)
  | inr (x, e) ↦ absurd (cc (rw e at h))
]

module _ (clock : ℕ) (id : String) (db : Db) {p' : Plan} {db' : Db} where
  finishing :
      (p : Plan) (plan_task : String) (o : Outcome)
      → require_plan id db ≡ ok p
      → finish_task clock id db plan_task o ≡ ok (p', db')
      → Goes p p'
  unfolding finish_task
  finishing p plan_task o e h = elim (Bool-cases (is_terminal p.status)) [
    | inl over ↦ inl (is_same_pair p p' db db' (rw (e, over) at h))
    | inr live ↦
        let (_, h1) =
          guard-ok (is_in p.status (active ∷ paused ∷ [])) value_error _ (rw (e, live) at h) in
        elim (Result-cases (find_task plan_task p.tasks)) [
          | inr (x, e1) ↦ absurd (cc (rw e1 at h1))
          | inl (t, e1) ↦
              let (_, h2) = guard-ok (is_running t.status) value_error _ (rw e1 at h1) in
              let settled : Plan = record p { tasks = settle (utc_now clock) o t p.tasks } in
              let last =
                saving-status (refresh_finished (utc_now clock) settled) (settle_task o t).1 db
                  h2 in
              subst (λ s. (s ≡ p.status) ⊎ ((same p.status active ≡ true) × Reaches p.status s))
                (sym last) (refresh_finished-Goes (utc_now clock) settled)
        ]
  ]

  finish_task-loads :
      (plan_task : String) (o : Outcome)
      → finish_task clock id db plan_task o ≡ ok (p', db')
      → (p : Plan) × (require_plan id db ≡ ok p)
  unfolding finish_task
  finish_task-loads plan_task o h = elim (Result-cases (require_plan id db)) [
    | inl found ↦ found
    | inr (x, e) ↦ absurd (cc (rw e at h))
  ]

  finish_task-Moved :
      (plan_task : String) (o : Outcome)
      → finish_task clock id db plan_task o ≡ ok (p', db')
      → Moved id db p'
  finish_task-Moved plan_task o h =
      let (p, e) = finish_task-loads plan_task o h in
      let (p0, found, same) = require_plan-status id db e in
      elim (finishing p plan_task o e h) [
        | inl kept ↦ (p0, found, subst (Reaches p0.status) (sym (kept ∙ same)) here)
        | inr (on, goes) ↦ (p0, found, subst (λ s. Reaches s p'.status) same goes)
      ]

-- After an operation of PlanManager that succeeds, the plan has the status of the stored plan, or
-- one that the table of transitions reaches from it.
pub plan_moves :
    (clock : ℕ) (id : String) (db : Db) (call : PlanCall) {p' : Plan} {db' : Db}
    → manage clock id db call ≡ ok (p', db')
    → (p0 : Plan) × (lookup id db.plans ≡ some p0) × Reaches p0.status p'.status
plan_moves clock id db (approves actor) h = approve-Moved clock id db actor h
plan_moves clock id db activates h = activate-Moved clock id db h
plan_moves clock id db pauses h = pause-Moved clock id db h
plan_moves clock id db cancels h = cancel-Moved clock id db h
plan_moves clock id db (assigns plan_task task) h = assign_task-Moved clock id db plan_task task h
plan_moves clock id db (starts plan_task) h = start_task-Moved clock id db plan_task h
plan_moves clock id db (finishes plan_task o) h = finish_task-Moved clock id db plan_task o h

-- A finish_task that succeeds on a stored plan that is paused leaves the plan paused, whatever the
-- result of the task.
pub paused_finish :
    (clock : ℕ) (id : String) (db : Db) (plan_task : String) (o : Outcome) (p0 : Plan) {p' : Plan}
    {db' : Db}
    → lookup id db.plans ≡ some p0
    → p0.status ≡ paused
    → finish_task clock id db plan_task o ≡ ok (p', db')
    → p'.status ≡ paused
paused_finish clock id db plan_task o p0 {p'} held at h =
    let (p, e) = finish_task-loads clock id db plan_task o h in
    let (p1, found, same) = require_plan-status id db e in
    let both : some p1 ≡ some p0 = sym found ∙ held in
    let one : p1 ≡ p0 = cc in
    let now : p.status ≡ paused = same ∙ ap (λ x. x.status) one ∙ at in
    elim (finishing clock id db p plan_task o e h) [
      | inl kept ↦ kept ∙ now
      | inr (on, goes) ↦ absurd (cc (rw now at on))
    ]
