-- ===== src/Plan/Manager/Moves.antt =====
-- PlanManager (core/plan/manager.py): how the status of a plan moves under its operations.
use learn_agent.Prelude.{
  concat, ℕ, ◌≡◌, refl, sym, ap, ◌∙◌, String, true, some, List, all, arith, Result, ok, lookup,
  Bool-cases, Option-cases, Result-cases, ◌>>=◌, guard-ok, inl, inr, Iso, utc_now, value_error,
  subst,
}
use learn_agent.Plan.TaskStatus.{completed, task_is, task_is_terminal, ready, assigned}
use learn_agent.Plan.Model.{
  Plan, PlanTask, PlanStatus, plan_transitions, is_in, same, active, paused, approved, value,
  check_plan, check_tasks, transition, find_task,
}
use learn_agent.Store.Db.{Db}
use learn_agent.Plan.Manager.{
  get, load, save, require_plan, approve, activate, pause, cancel, assign_task, start_task,
  refresh_ready, refresh_terminal,
}

-- One status is reached from another by the moves of the table.
pub data Reaches : PlanStatus → PlanStatus → Type 0 where
  here : {s : PlanStatus} → Reaches s s
  via :
      {s t : PlanStatus} (u : PlanStatus)
      → is_in u (plan_transitions s) ≡ true
      → Reaches u t
      → Reaches s t

is_same_status : (p p' : Plan) → ◌≡◌ {A = Result Plan} (ok p) (ok p') → p'.status ≡ p.status
is_same_status p p' h = let same : p ≡ p' = cc in ap (λ x. x.status) (sym same)

check_plan-status : (p : Plan) {p' : Plan} → check_plan p ≡ ok p' → p'.status ≡ p.status
unfolding check_plan
check_plan-status p h = elim (Result-cases (check_tasks p.tasks)) [
  | inl (ts, e) ↦ ground arith
  | inr (x, e) ↦ ground arith
]

transition-move :
    (p : Plan) (target : PlanStatus) (now : Iso) {p' : Plan}
    → transition p target now ≡ ok p'
    → (is_in target (plan_transitions p.status) ≡ true) × (p'.status ≡ target)
unfolding transition
transition-move p target now {p'} h = elim (Bool-cases (is_in target (plan_transitions p.status))) [
  | inl may ↦ (may, is_same_status _ p' (rw may at h))
  | inr not_allowed ↦ absurd (cc (rw not_allowed at h))
]

-- What require_plan gives has the status of the stored plan.
pub require_plan-status :
    (id : String) (db : Db) {p : Plan}
    → require_plan id db ≡ ok p
    → (p0 : Plan) × (lookup id db.plans ≡ some p0) × (p.status ≡ p0.status)
unfolding require_plan get load
require_plan-status id db {p} h = elim (Option-cases (lookup id db.plans)) [
  | inl e ↦ absurd (cc (rw e at h))
  | inr (p0, e) ↦ elim (Result-cases (check_plan p0)) [
    | inr (x, f) ↦ absurd (cc (rw (e, f) at h))
    | inl (p1, f) ↦ (p0, e, is_same_status p1 p (rw (e, f) at h) ∙ check_plan-status p0 f)
  ]
]

ends :
    (s : PlanStatus)
    → same s active ≡ true
    → (is_in PlanStatus.completed (plan_transitions s) ≡ true)
      × (is_in PlanStatus.failed (plan_transitions s) ≡ true)
ends s on = ground arith

pub refresh_terminal-Reaches :
    (now : Iso) (p : Plan)
    → same p.status active ≡ true
    → Reaches p.status (refresh_terminal now p).status
unfolding refresh_terminal
refresh_terminal-Reaches now p on =
    elim (Bool-cases (all (λ t. task_is_terminal t.status) p.tasks)) [
      | inr more ↦ rw more here
      | inl over ↦ elim (Bool-cases (all (λ t. task_is t.status completed) p.tasks)) [
        | inl well ↦ rw (over, well) (via PlanStatus.completed (ends p.status on).0 here)
        | inr ill ↦ rw (over, ill) (via PlanStatus.failed (ends p.status on).1 here)
      ]
    ]

started-Reaches :
    (now : Iso) (m : Plan)
    → m.status ≡ active
    → Reaches active (refresh_terminal now (refresh_ready now m)).status
unfolding refresh_ready
started-Reaches now m e =
    subst (λ s. Reaches s (refresh_terminal now (refresh_ready now m)).status) e
      (refresh_terminal-Reaches now (refresh_ready now m) (rw e refl))

-- A plan that an operation gives, by the stored one.
abbrev pub Moved : String → Db → Plan → Type 0
Moved id db p' = (p0 : Plan) × (lookup id db.plans ≡ some p0) × Reaches p0.status p'.status

pub is_same_pair :
    (p p' : Plan) (x x' : Db)
    → ◌≡◌ {A = Result (Plan × Db)} (ok (p, x)) (ok (p', x'))
    → p'.status ≡ p.status
is_same_pair p p' x x' h =
    let same : ◌≡◌ {A = Plan × Db} (p, x) (p', x') = cc in ap (λ y. y.0.status) (sym same)

-- How an operation that has changed a plan ends.
abbrev pub saving : Plan → String → Db → Result (Plan × Db)
saving p event db = do saved ← save p event db; ok (p, saved)

module _ (clock : ℕ) (id : String) (db : Db) {p' : Plan} {db' : Db} where
  saved_last :
      (p0 f : Plan) (event : String)
      → lookup id db.plans ≡ some p0
      → Reaches p0.status f.status
      → saving f event db ≡ ok (p', db')
      → Moved id db p'
  saved_last p0 f event found goes h = elim (Result-cases (save f event db)) [
    | inl (s, e) ↦
        (p0, found, subst (Reaches p0.status) (sym (is_same_pair f p' s db' (rw e at h))) goes)
    | inr (x, e) ↦ absurd (cc (rw e at h))
  ]

  -- A move of the table, with what is done after it.
  moving :
      (target : PlanStatus) (f : Plan → Plan) (event : Plan → String)
      → ((m : Plan) → m.status ≡ target → Reaches target (f m).status)
      → (require_plan id db >>= λ p.
          transition p target (utc_now clock) >>= λ m. saving (f m) (event m) db)
        ≡ ok (p', db')
      → Moved id db p'
  moving target f event goes h = elim (Result-cases (require_plan id db)) [
    | inr (x, e) ↦ absurd (cc (rw e at h))
    | inl (p, e) ↦
        let h1 = rw e at h in
        elim (Result-cases (transition p target (utc_now clock))) [
          | inr (x, e1) ↦ absurd (cc (rw e1 at h1))
          | inl (m, e1) ↦
              let h2 = rw e1 at h1 in
              let (p0, found, same) = require_plan-status id db e in
              let (may, at) = transition-move p target (utc_now clock) e1 in
              saved_last p0 (f m) (event m) found (via target (rw⁻¹ same may) (goes m at)) h2
        ]
  ]

  pub approve-Moved : (actor : String) → approve clock id db actor ≡ ok (p', db') → Moved id db p'
  unfolding approve
  approve-Moved actor =
      moving approved
        (λ m. record m { approval_actor = some actor; approved_at = some (utc_now clock) })
        (λ _. "plan.approved") (λ m e. subst (Reaches approved) (sym e) here)

  pub activate-Moved : activate clock id db ≡ ok (p', db') → Moved id db p'
  unfolding activate
  activate-Moved =
      moving active (λ m. refresh_terminal (utc_now clock) (refresh_ready (utc_now clock) m))
        (λ m.
          concat "plan."
            (value (refresh_terminal (utc_now clock) (refresh_ready (utc_now clock) m)).status))
        (λ m e. started-Reaches (utc_now clock) m e)

  pub pause-Moved : pause clock id db ≡ ok (p', db') → Moved id db p'
  unfolding pause
  pause-Moved =
      moving paused (λ m. m) (λ _. "plan.paused") (λ m e. subst (Reaches paused) (sym e) here)

  pub cancel-Moved : cancel clock id db ≡ ok (p', db') → Moved id db p'
  unfolding cancel
  cancel-Moved =
      moving PlanStatus.cancelled _ (λ _. "plan.cancelled")
        (λ m e. subst (Reaches PlanStatus.cancelled) (sym e) here)

  -- An operation that leaves the status of the loaded plan alone.
  unmoved :
      (p : Plan) (tasks : List PlanTask) (event : String)
      → require_plan id db ≡ ok p
      → saving (record p { tasks = tasks }) event db ≡ ok (p', db')
      → Moved id db p'
  unmoved p tasks event e h =
      let (p0, found, same) = require_plan-status id db e in
      saved_last p0 (record p { tasks = tasks }) event found
        (subst (Reaches p0.status) (sym same) here) h

  pub assign_task-Moved :
      (plan_task task : String)
      → assign_task clock id db plan_task task ≡ ok (p', db')
      → Moved id db p'
  unfolding assign_task
  assign_task-Moved plan_task task h = elim (Result-cases (require_plan id db)) [
    | inr (x, e) ↦ absurd (cc (rw e at h))
    | inl (p, e) ↦
        let (_, h1) = guard-ok (same p.status active) value_error _ (rw e at h) in
        elim (Result-cases (find_task plan_task p.tasks)) [
          | inr (x, e1) ↦ absurd (cc (rw e1 at h1))
          | inl (t, e1) ↦
              let (_, h2) = guard-ok (task_is t.status ready) value_error _ (rw e1 at h1) in
              unmoved p _ _ e h2
        ]
  ]

  pub start_task-Moved :
      (plan_task : String) → start_task clock id db plan_task ≡ ok (p', db') → Moved id db p'
  unfolding start_task
  start_task-Moved plan_task h = elim (Result-cases (require_plan id db)) [
    | inr (x, e) ↦ absurd (cc (rw e at h))
    | inl (p, e) ↦
        let h1 = rw e at h in
        elim (Result-cases (find_task plan_task p.tasks)) [
          | inr (x, e1) ↦ absurd (cc (rw e1 at h1))
          | inl (t, e1) ↦
              let (_, h2) = guard-ok (task_is t.status assigned) value_error _ (rw e1 at h1) in
              unmoved p _ _ e h2
        ]
  ]
