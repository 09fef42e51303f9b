-- ===== src/Store/History.antt =====
-- Histories of the task table: sequences of the transactions of core/runtime/sqlite_store.py.
pub mod Survival
use learn_agent.Prelude.{
  ℕ, ◌≡◌, refl, sym, String, Bool, true, false, Option, none, some, List, [], ◌∷◌, arith, Result,
  ok, err, Iso, lookup, insert, lookup-insert, ◌==◌, eq_iff, if◌then◌else◌, Bool-cases,
  Option-cases, ◌⊎◌, inl, inr, is_some,
}
use learn_agent.Runtime.Status.{TaskStatus}
use learn_agent.Runtime.Task.{TaskEnvelope, TaskRecord}
use learn_agent.Runtime.Task.Lifecycle.{IsClosed, Evolves, Evolves-refl, Evolves-trans}
use learn_agent.Store.Db.{Db, TaskRow}
use learn_agent.Store.Tasks.{
  Change, create_task, transition_task, increment_attempt, request_cancel, delete_terminal_task,
}
use learn_agent.Store.Recovery.{
  requeue_missing_context, recover_interrupted, release_leases, claim_retry_wait,
}

-- A transaction on the task table, each with the reading of the clock.
pub data TaskCall : Type 0 where
  creates : TaskEnvelope → TaskCall
  changes : String → TaskStatus → Change → TaskCall
  attempts : String → TaskCall
  cancels : String → String → TaskCall
  reopens : Option (List String) → Option String → TaskCall
  recovers : Bool → Option String → ℕ → TaskCall
  releases : Option String → TaskCall
  claims : Option String → ℕ → TaskCall
  deletes : String → TaskCall

-- The database after a call: an error rolls back.
abbrev pub settled {ℓ} : {A : Type ℓ} → Db → Result (A × Db) → Db
settled db (ok (a, db')) = db'
settled db (err e) = db

abbrev pub created_db : Db → Result (TaskRecord × Bool × Db) → Db
created_db db (ok (r, b, db')) = db'
created_db db (err e) = db

unfoldable pub apply : Db → ℕ × TaskCall → Db
apply db (clock, creates e) = created_db db (create_task clock e db)
apply db (clock, changes id t c) = settled db (transition_task clock id t c db)
apply db (clock, attempts id) = settled db (increment_attempt clock id db)
apply db (clock, cancels id reason) = settled db (request_cancel clock id reason db)
apply db (clock, reopens sources owner) =
    settled db (requeue_missing_context clock sources owner db)
apply db (clock, recovers again owner grace) =
    settled db (recover_interrupted clock again owner grace db)
apply db (clock, releases owner) = settled db (release_leases clock owner db)
apply db (clock, claims owner grace) = settled db (claim_retry_wait clock owner grace db)
apply db (clock, deletes id) = (delete_terminal_task id db).1

unfoldable pub run : Db → List (ℕ × TaskCall) → Db
run db [] = db
run db (c ∷ cs) = run (apply db c) cs
