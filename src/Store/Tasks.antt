-- ===== src/Store/Tasks.antt =====
-- core/runtime/sqlite_store.py: the transactions on one task. `clock` is the reading of the clock
-- in the transaction. An error rolls the transaction back.
pub mod Creation
use learn_agent.Prelude.{
  ℕ, suc, ◌+◌, String, Option, none, some, List, [], ◌∷◌, Bool, true, false, not, ◌&&◌, ◌||◌, ◌==◌,
  if◌then◌else◌, Iso, utc_now, lookup, insert, without, keep, truthy, same_text, concat, any, map,
  Result, ok, err, value_error, runtime_error, store_error, guard, require, ◌>>=◌, ◌>>◌, is_some,
}
use learn_agent.Runtime.Status.{
  TaskStatus, created, queued, waiting_approval, waiting_dependency, retry_wait, cancelled, same,
  is_in, is_terminal, value,
}
use learn_agent.Runtime.Task.{
  TaskEnvelope, TaskRecord, TaskResult, Report, no_report, new_record, transition,
}
use learn_agent.Store.Db.{Db, TaskRow, task_event, append_events, ensure_session}

-- The row of the session that holds an idempotency key.
pub find_key : String → String → List (String × TaskRow) → Option TaskRow
find_key session key [] = none
find_key session key ((id, row) ∷ rows) =
    if row.envelope.session_id == session && same_text row.envelope.idempotency_key (some key)
    then some row
    else find_key session key rows

-- The row that create_task finds for the envelope's key; an absent or empty key finds none.
unfoldable pub find_duplicate : TaskEnvelope → Db → Option TaskRow
unfolding find_key
find_duplicate e db = elim e.idempotency_key [
  | none ↦ none
  | some key ↦ if key == "" then none else find_key e.session_id key db.tasks
]

-- The primary key and the unique index over (session_id, idempotency_key).
unfoldable pub violates_key : TaskEnvelope → Db → Bool
unfolding find_key
violates_key e db = is_some (lookup e.task_id db.tasks) || elim e.idempotency_key [
  | none ↦ false
  | some key ↦ is_some (find_key e.session_id key db.tasks)
]

-- The record and the two events of a task that is new.
write_task : ℕ → TaskEnvelope → Db → Result (TaskRecord × Bool × Db)
unfolding violates_key
write_task clock e db = do
  task ← transition (new_record e.task_id) queued (utc_now clock) no_report
  guard (not (violates_key e db)) runtime_error
  let row : TaskRow = record {
    envelope = e;
    task = task;
    result = none;
    updated_at = utc_now clock;
  }
  let inserted = record db { tasks = insert e.task_id row db.tasks }
  let events = task_event "task.created" e ∷ task_event "task.queued" e ∷ []
  ok (task, true, append_events events inserted)

insert_task : ℕ → TaskEnvelope → Db → Result (TaskRecord × Bool × Db)
unfolding write_task
insert_task clock e db = do
  open_db ← ensure_session clock e.session_id e.session_key db
  write_task clock e open_db

-- RuntimeStore.create_task
unfoldable pub create_task : ℕ → TaskEnvelope → Db → Result (TaskRecord × Bool × Db)
unfolding insert_task
create_task clock e db = elim (find_duplicate e db) [
  | some row ↦ ok (row.task, false, db)
  | none ↦ insert_task clock e db
]

-- The optional arguments of transition_task.
pub record Change : Type 0 where
  pub lease_owner : Option String
  pub lease_expires_at : Option Iso
  pub expected_status : Option TaskStatus
  pub error_code : Option String
  pub error_message : Option String
  pub result : Option TaskResult

abbrev pub no_change : Change
no_change = record {
  lease_owner = none;
  lease_expires_at = none;
  expected_status = none;
  error_code = none;
  error_message = none;
  result = none;
}

-- Is the status the one that the caller expects, if it expects one?
abbrev pub expected : Option TaskStatus → TaskStatus → Bool
expected none s = true
expected (some e) s = same s e

-- The lease arguments, written before the transition; an empty one is not written.
unfoldable pub take_lease : Change → TaskRecord → TaskRecord
take_lease c r = record r {
  lease_owner = if truthy c.lease_owner then c.lease_owner else r.lease_owner;
  lease_expires_at = elim c.lease_expires_at [ none ↦ r.lease_expires_at | some t ↦ some t ];
}

-- The result's artifacts and usage, written after it.
unfoldable pub take_result : Option TaskResult → TaskRecord → TaskRecord
take_result none r = r
take_result (some x) r = record r { artifact_ids = x.artifact_ids; usage = x.usage }

-- The texts that the transition is given.
abbrev pub report_of : Change → Report
report_of c = record {
  error_code = c.error_code;
  error_message = c.error_message;
  result_summary = elim c.result [ none ↦ none | some x ↦ some x.summary ];
}

-- What transition_task makes of a row that it has read.
unfoldable pub change_row : ℕ → TaskStatus → Change → TaskRow → Result TaskRow
unfolding take_lease take_result
change_row clock target c row = do
  guard (expected c.expected_status row.task.status) value_error
  moved ← transition (take_lease c row.task) target (utc_now clock) (report_of c)
  let result : Option TaskResult = elim c.result [ none ↦ row.result | some x ↦ some x ]
  ok (record row { task = take_result c.result moved; result = result; updated_at = utc_now clock })

-- RuntimeStore.transition_task
unfoldable pub transition_task : ℕ → String → TaskStatus → Change → Db → Result (TaskRecord × Db)
unfolding change_row
transition_task clock id target c db = do
  row ← require (lookup id db.tasks) store_error
  row' ← change_row clock target c row
  let saved = record db { tasks = insert id row' db.tasks }
  let event = task_event (concat "task." (value target)) row.envelope
  ok (row'.task, append_events (event ∷ []) saved)

-- RuntimeStore.increment_attempt
unfoldable pub increment_attempt : ℕ → String → Db → Result (TaskRecord × Db)
increment_attempt clock id db = do
  row ← require (lookup id db.tasks) store_error
  let task = record (row.task) { attempt = row.task.attempt + 1 }
  let row' = record row { task = task; updated_at = utc_now clock }
  let saved = record db { tasks = insert id row' db.tasks }
  ok (task, append_events (task_event "task.attempt_started" row.envelope ∷ []) saved)

-- The statuses that a cancel request closes at once.
abbrev pub cancellable : TaskStatus → Bool
cancellable s = is_in s (created ∷ queued ∷ waiting_approval ∷ waiting_dependency ∷ retry_wait ∷ [])

-- The cancel request, on a record.
unfoldable pub cancel_record : ℕ → String → TaskRecord → Result TaskRecord
cancel_record clock reason r =
    let marked = record r { cancel_requested = true } in
    if cancellable r.status
    then transition marked cancelled (utc_now clock) (record {
      error_code = some "TASK_CANCELLED";
      error_message = some reason;
      result_summary = none;
    })
    else ok marked

-- RuntimeStore.request_cancel
unfoldable pub request_cancel : ℕ → String → String → Db → Result (TaskRecord × Db)
unfolding cancel_record
request_cancel clock id reason db = do
  row ← require (lookup id db.tasks) store_error
  task ← cancel_record clock reason row.task
  let row' = record row { task = task; updated_at = utc_now clock }
  let saved = record db { tasks = insert id row' db.tasks }
  ok (task, append_events (task_event "task.cancel_requested" row.envelope ∷ []) saved)

-- RuntimeStore.delete_terminal_task: the task with its deliveries and events.
unfoldable pub delete_terminal_task : String → Db → Bool × Db
delete_terminal_task id db = elim (lookup id db.tasks) [
  | none ↦ (false, db)
  | some row ↦
      if is_terminal row.task.status
      then (
        true,
        record db {
          deliveries = keep (λ d. not (d.1 == id)) db.deliveries;
          events = keep (λ e. not (same_text e.task_id (some id))) db.events;
          tasks = without id db.tasks;
        },
      )
      else (false, db)
]

-- RuntimeStore.has_active_work
unfoldable pub has_active_work : String → List String → List TaskStatus → Db → Bool
has_active_work session sources statuses db =
    any
      (λ row.
        row.1.envelope.session_id == session
        && any (λ s. row.1.envelope.source == s) sources
        && is_in row.1.task.status statuses)
      db.tasks

-- RuntimeStore.get_task
unfoldable pub get_task : String → Db → Option TaskRow
get_task id db = lookup id db.tasks
