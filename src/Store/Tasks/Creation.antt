-- ===== src/Store/Tasks/Creation.antt =====
-- RuntimeStore.create_task (core/runtime/sqlite_store.py): what it answers and what it writes.
use learn_agent.Prelude.{
  ℕ, ◌≡◌, ◌∙◌, refl, sym, ap, String, Bool, true, false, none, some, List, [], ◌∷◌, ◌++◌, arith, ok,
  lookup, insert, lookup-insert, ◌==◌, eq_refl, Option-cases, ◌⊎◌, inl, inr, is_some, utc_now,
  Result-cases,
}
use learn_agent.Runtime.Status.{queued}
use learn_agent.Runtime.Task.{TaskEnvelope, TaskRecord, moved, transition, new_record, no_report}
use learn_agent.Store.Db.{Db, TaskRow, first_session, task_event, ensure_session}
use learn_agent.Store.Tasks.{
  create_task, insert_task, write_task, find_duplicate, violates_key, find_key,
}

-- A session is there after ensure_session, and nothing but the sessions is written.
pub record Ensured (id : String) (db db' : Db) : Type 0 where
  pub there : is_some (lookup id db'.sessions) ≡ true
  pub tasks : db'.tasks ≡ db.tasks
  pub events : db'.events ≡ db.events

pub ensure_session-Ensured :
    (clock : ℕ) (id key : String) (db : Db) {db' : Db}
    → ensure_session clock id key db ≡ ok db'
    → Ensured id db db'
unfolding ensure_session
ensure_session-Ensured clock id key db h = elim (Option-cases (lookup id db.sessions)) [
  | inl e ↦ ground (arith, lookup-insert id id (first_session clock key) db.sessions, eq_refl id)
  | inr (s, e) ↦ ground arith
]

-- The row of a new task.
abbrev pub new_row : ℕ → TaskEnvelope → TaskRow
new_row clock e = record {
  envelope = e;
  task = moved (new_record e.task_id) queued (utc_now clock) no_report;
  result = none;
  updated_at = utc_now clock;
}

pub record Created (clock : ℕ) (e : TaskEnvelope) (db : Db) (r : TaskRecord) (fresh : Bool)
    (db' : Db) : Type 0 where
  pub is_fresh : fresh ≡ true
  pub unused : lookup e.task_id db.tasks ≡ none
  pub answer : r ≡ (new_row clock e).task
  pub tasks : db'.tasks ≡ insert e.task_id (new_row clock e) db.tasks
  pub events :
      db'.events ≡ db.events ++ task_event "task.created" e ∷ task_event "task.queued" e ∷ []
  pub session : is_some (lookup e.session_id db'.sessions) ≡ true

write_task-Created :
    (clock : ℕ) (e : TaskEnvelope) (db open_db : Db) {r : TaskRecord} {fresh : Bool} {db' : Db}
    → Ensured e.session_id db open_db
    → write_task clock e open_db ≡ ok (r, fresh, db')
    → Created clock e db r fresh db'
unfolding write_task transition violates_key
write_task-Created clock e db open_db v h = ground arith

insert_task-Created :
    (clock : ℕ) (e : TaskEnvelope) (db : Db) {r : TaskRecord} {fresh : Bool} {db' : Db}
    → insert_task clock e db ≡ ok (r, fresh, db')
    → Created clock e db r fresh db'
unfolding insert_task
insert_task-Created clock e db h =
    elim (Result-cases (ensure_session clock e.session_id e.session_key db)) [
      | inl (open_db, opened) ↦
          write_task-Created clock e db open_db
            (ensure_session-Ensured clock e.session_id e.session_key db opened) (rw opened at h)
      | inr (x, failed) ↦ absurd (cc (rw failed at h))
    ]

-- What create_task answers: the task that holds the key, or a new one.
pub create_task_cases :
    (clock : ℕ) (e : TaskEnvelope) (db : Db) {r : TaskRecord} {fresh : Bool} {db' : Db}
    → create_task clock e db ≡ ok (r, fresh, db')
    → ((old : TaskRow) × (find_duplicate e db ≡ some old)
        × (r ≡ old.task)
        × (fresh ≡ false)
        × (db' ≡ db))
      ⊎ ((find_duplicate e db ≡ none) × Created clock e db r fresh db')
unfolding create_task
create_task_cases clock e db h = elim (Option-cases (find_duplicate e db)) [
  | inl free ↦ inr (free, insert_task-Created clock e db (rw (free, create_task) at h))
  | inr (old, found) ↦
      let same = rw (found, create_task) at h in
      inl (old, found, ground arith, ground arith, ground arith)
]

-- The key of an envelope is one that create_task looks up.
abbrev pub HasKey : TaskEnvelope → String → Type 0
HasKey e key = (e.idempotency_key ≡ some key) × ((key == "") ≡ false)

find_duplicate-HasKey :
    (e : TaskEnvelope) (key : String) (db : Db)
    → HasKey e key
    → find_duplicate e db ≡ find_key e.session_id key db.tasks
unfolding find_duplicate
find_duplicate-HasKey e key db (k, full) = rw k (rw full refl)

-- A key that no row holds is found in the row that is added with it.
find_key-insert :
    (clock : ℕ) (e : TaskEnvelope) (key : String) (rows : List (String × TaskRow))
    → e.idempotency_key ≡ some key
    → lookup e.task_id rows ≡ none
    → find_key e.session_id key rows ≡ none
    → find_key e.session_id key (insert e.task_id (new_row clock e) rows) ≡ some (new_row clock e)
unfolding find_key
find_key-insert clock e key [] k free missing = rw (k, eq_refl e.session_id, eq_refl key) refl
find_key-insert clock e key ((id, row) ∷ rows) k free missing =
    ground (arith, find_key-insert clock e key rows k)

create_task-found :
    (clock : ℕ) (e : TaskEnvelope) (db : Db) (old : TaskRow)
    → find_duplicate e db ≡ some old
    → create_task clock e db ≡ ok (old.task, false, db)
unfolding create_task
create_task-found clock e db old found = rw (found, create_task) refl

-- After a create_task that succeeds, a second one for the same session and the same idempotency
-- key, which is not empty, at any time and whatever else its envelope says, answers the same record,
-- says that nothing was inserted, and leaves the database as it is.
pub create_task_twice :
    (clock later : ℕ) (e e' : TaskEnvelope) (key : String) (db db' : Db) (r : TaskRecord)
    (fresh : Bool)
    → HasKey e key
    → HasKey e' key
    → e'.session_id ≡ e.session_id
    → create_task clock e db ≡ ok (r, fresh, db')
    → create_task later e' db' ≡ ok (r, false, db')
create_task_twice clock later e e' key db db' r fresh k k' s h =
    elim (create_task_cases clock e db h) [
      | inl (old, found, answer, _, same) ↦
          rw (answer, same)
            (create_task-found later e' db old (
              find_duplicate-HasKey e' key db k'
              ∙ ap (λ x. find_key x key db.tasks) s
              ∙ sym (find_duplicate-HasKey e key db k)
              ∙ found))
      | inr (free, new) ↦ rw new.answer (
          create_task-found later e' db' (new_row clock e) (
            find_duplicate-HasKey e' key db' k'
            ∙ ap (λ x. find_key x key db'.tasks) s
            ∙ ap (find_key e.session_id key) new.tasks
            ∙ find_key-insert clock e key db.tasks k.0 new.unused
                (sym (find_duplicate-HasKey e key db k) ∙ free)))
    ]
