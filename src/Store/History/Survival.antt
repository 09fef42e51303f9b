-- ===== src/Store/History/Survival.antt =====
-- No transaction on the task table loses a task or undoes what is recorded of it.
use learn_agent.Prelude.{
  ℕ, ◌≡◌, ◌∙◌, refl, sym, ap, subst, String, Bool, true, Option, none, some, List, [], ◌∷◌, arith,
  Result, ok, store_error, require, Result-cases, ◌>>=◌, lookup, insert, lookup-insert, ◌==◌,
  eq_iff, Bool-cases, Option-cases, inl, inr, utc_now, ◌+◌, ◌⊎◌, ◌++◌, lookup-without,
}
use learn_agent.Runtime.Status.{TaskStatus, is_terminal}
use learn_agent.Runtime.Task.{TaskEnvelope, TaskRecord}
use learn_agent.Runtime.Task.Lifecycle.{Evolves, Evolves-refl, Evolves-trans, transition-Evolves}
use learn_agent.Store.Db.{Db, TaskRow, Event, append_events, task_event}
use learn_agent.Store.Tasks.{
  Change, create_task, transition_task, increment_attempt, request_cancel, change_row,
  cancel_record, cancellable, delete_terminal_task,
}
use learn_agent.Store.Recovery.{
  requeue_missing_context, recover_interrupted, release_leases, claim_retry_wait, Swept, sweep,
  commit,
}
use learn_agent.Store.Tasks.Creation.{create_task_cases, new_row}
use learn_agent.Store.Rows.{change_row-Evolves}
use learn_agent.Store.Passes.{
  Step, after, reopen_row_lem, reopen_outcome-Step, interrupt_row_lem, interrupt_outcome-Step,
  release_row_lem, release_outcome-Step, claim_row_lem, claim_outcome-Step,
}
use learn_agent.Store.Sweep.{sweep-pass, lookup-pass, left}
use learn_agent.Store.History.{
  TaskCall, creates, changes, attempts, cancels, reopens, recovers, releases, claims, deletes,
  settled, created_db, apply, run,
}

-- The row is still there, with its envelope, and evolved from what it was.
abbrev pub Survives : TaskRow → Option TaskRow → Type 0
Survives row found =
    (row' : TaskRow) × (found ≡ some row')
    × Evolves row.task row'.task
    × (row'.envelope ≡ row.envelope)

Survives-refl : (row : TaskRow) {o : Option TaskRow} → o ≡ some row → Survives row o
Survives-refl row e = (row, e, Evolves-refl row.task, refl)

module _ (id k : String) (m : List (String × TaskRow)) (row old new : TaskRow)
    (found : lookup id m ≡ some row) where
  -- A write of an evolved row under a key.
  insert-Survives :
      lookup k m ≡ some old
      → Evolves old.task new.task
      → new.envelope ≡ old.envelope
      → Survives row (lookup id (insert k new m))
  insert-Survives e v env = elim (Bool-cases (k == id)) [
    | inl same ↦
        let k_id : k ≡ id = (eq_iff k id).0 same in
        let both : some old ≡ some row = sym e ∙ ap (λ j. lookup j m) k_id ∙ found in
        let old_row : old ≡ row = cc in
        (
          new,
          rw (lookup-insert k id new m, same) refl,
          subst (λ r. Evolves r.task new.task) old_row v,
          env ∙ ap (λ r. r.envelope) old_row,
        )
    | inr differ ↦ Survives-refl row (rw (lookup-insert k id new m, differ) found)
  ]

  -- A write under a key that was free.
  insert_new-Survives : lookup k m ≡ none → Survives row (lookup id (insert k new m))
  insert_new-Survives free = elim (Bool-cases (k == id)) [
    | inl same ↦ absurd (cc (ap (λ j. lookup j m) ((eq_iff k id).0 same)))
    | inr differ ↦ Survives-refl row (rw (lookup-insert k id new m, differ) found)
  ]

-- What a call leaves of every row.
abbrev pub KeepsRows : Db → Db → Type 0
KeepsRows db db' =
    (id : String) (row : TaskRow)
    → lookup id db.tasks ≡ some row
    → Survives row (lookup id db'.tasks)

-- A pass whose step never fails.
sweep-KeepsRows :
    (db : Db) (step : TaskRow → Result (Option Swept)) (outcome : TaskRow → Option Swept)
    → ((row : TaskRow) → step row ≡ ok (outcome row))
    → ((row : TaskRow) → Step row (outcome row))
    → KeepsRows db (settled db (sweep step db.tasks >>= λ p. ok (commit db p)))
unfolding commit
sweep-KeepsRows db step outcome h v id row found = rw (sweep-pass outcome step h db.tasks) (
  after row (outcome row),
  lookup-pass outcome id db.tasks ∙ ap (left outcome) found,
  (v row).evolves,
  (v row).envelope,
)

-- A transaction that reads one row, works on it and writes it back.
single-KeepsRows :
    {A B : Type 0} (db : Db) (k : String) (work : TaskRow → Result B) (new : TaskRow → B → TaskRow)
    (answer : TaskRow → B → A) (events : TaskRow → B → List Event)
    → ((row : TaskRow) (b : B)
        → work row ≡ ok b
        → Evolves row.task (new row b).task × ((new row b).envelope ≡ row.envelope))
    → KeepsRows db (
        settled db (
          require (lookup k db.tasks) store_error >>= λ row. work row >>= λ b. ok (
            answer row b,
            append_events (events row b) (record db { tasks = insert k (new row b) db.tasks }),
          )))
single-KeepsRows db k work new answer events v id row found =
    elim (Option-cases (lookup k db.tasks)) [
      | inl e ↦ rw e (Survives-refl row found)
      | inr (old, e) ↦ rw e (elim (Result-cases (work old)) [
        | inl (b, done) ↦ rw done (
            insert-Survives id k db.tasks row old (new old b) found e (v old b done).0
              (v old b done).1)
        | inr (x, failed) ↦ rw failed (Survives-refl row found)
      ])
    ]

cancel_record-Evolves :
    (clock : ℕ) (reason : String) (r : TaskRecord) {r' : TaskRecord}
    → cancel_record clock reason r ≡ ok r'
    → Evolves r r'
unfolding cancel_record
cancel_record-Evolves clock reason r h = elim (Bool-cases (cancellable r.status)) [
  | inl c ↦
      Evolves-trans {b = record r { cancel_requested = true }} (ground arith)
        (transition-Evolves _ _ _ _ (rw c at h))
  | inr n ↦ ground arith
]

create_task-KeepsRows :
    (clock : ℕ) (e : TaskEnvelope) (db : Db) → KeepsRows db (created_db db (create_task clock e db))
create_task-KeepsRows clock e db id row found = elim (Result-cases (create_task clock e db)) [
  | inl ((r, fresh, db'), h) ↦ rw h (elim (create_task_cases clock e db h) [
    | inl (old, _, _, _, same) ↦ Survives-refl row (ap (λ d. lookup id d.tasks) same ∙ found)
    | inr (_, new) ↦
        rw new.tasks
          (insert_new-Survives id e.task_id db.tasks row row (new_row clock e) found new.unused)
  ])
  | inr (x, failed) ↦ rw failed (Survives-refl row found)
]

module _ (clock : ℕ) (k : String) (db : Db) where
  transition_task-KeepsRows :
      (t : TaskStatus) (c : Change) → KeepsRows db (settled db (transition_task clock k t c db))
  unfolding transition_task
  transition_task-KeepsRows t c =
      single-KeepsRows db k (change_row clock t c) (λ row row'. row') _ _
        (λ row row' done. change_row-Evolves clock t c row done)

  increment_attempt-KeepsRows : KeepsRows db (settled db (increment_attempt clock k db))
  unfolding increment_attempt
  increment_attempt-KeepsRows =
      single-KeepsRows {B = Unit {0}} db k (λ row. ok tt) (λ row _. counted row)
        (λ row _. (counted row).task) (λ row _. task_event "task.attempt_started" row.envelope ∷ [])
        (λ row _ done. (ground arith, refl))
    where
      counted : TaskRow → TaskRow
      counted row = record row {
        task = record (row.task) { attempt = row.task.attempt + 1 };
        updated_at = utc_now clock;
      }

  request_cancel-KeepsRows :
      (reason : String) → KeepsRows db (settled db (request_cancel clock k reason db))
  unfolding request_cancel
  request_cancel-KeepsRows reason =
      single-KeepsRows db k (λ row. cancel_record clock reason row.task)
        (λ row t. record row { task = t; updated_at = utc_now clock }) _ _
        (λ row t done. (cancel_record-Evolves clock reason row.task done, refl))

module _ (clock : ℕ) (owner : Option String) (db : Db) where
  requeue_missing_context-KeepsRows :
      (sources : Option (List String))
      → KeepsRows db (settled db (requeue_missing_context clock sources owner db))
  unfolding requeue_missing_context
  requeue_missing_context-KeepsRows sources =
      sweep-KeepsRows db _ _ (reopen_row_lem clock sources owner)
        (reopen_outcome-Step clock sources owner)

  recover_interrupted-KeepsRows :
      (again : Bool) (grace : ℕ)
      → KeepsRows db (settled db (recover_interrupted clock again owner grace db))
  unfolding recover_interrupted
  recover_interrupted-KeepsRows again grace =
      sweep-KeepsRows db _ _ (interrupt_row_lem clock again owner grace)
        (interrupt_outcome-Step clock again owner grace)

  release_leases-KeepsRows : KeepsRows db (settled db (release_leases clock owner db))
  unfolding release_leases
  release_leases-KeepsRows =
      sweep-KeepsRows db _ _ (release_row_lem clock owner) (release_outcome-Step clock owner)

  claim_retry_wait-KeepsRows :
      (grace : ℕ) → KeepsRows db (settled db (claim_retry_wait clock owner grace db))
  unfolding claim_retry_wait
  claim_retry_wait-KeepsRows grace =
      sweep-KeepsRows db _ _ (claim_row_lem clock owner grace)
        (claim_outcome-Step clock owner grace)

-- A task that delete_terminal_task removes has ended; every other row stays as it was.
delete_terminal_task-fate :
    (k id : String) (db : Db) (row : TaskRow)
    → lookup id db.tasks ≡ some row
    → Survives row (lookup id (delete_terminal_task k db).1.tasks)
      ⊎ ((k ≡ id) × (is_terminal row.task.status ≡ true))
unfolding delete_terminal_task
delete_terminal_task-fate k id db row found = elim (Option-cases (lookup k db.tasks)) [
  | inl e ↦ inl (Survives-refl row (rw (delete_terminal_task, e) found))
  | inr (old, e) ↦ elim (Bool-cases (is_terminal old.task.status)) [
    | inr live ↦ inl (Survives-refl row (rw (delete_terminal_task, e, live) found))
    | inl over ↦ elim (Bool-cases (k == id)) [
      | inr differ ↦ inl (
          Survives-refl row
            (rw (delete_terminal_task, e, over) (lookup-without k id db.tasks ∙ rw differ found)))
      | inl same ↦
          let k_id : k ≡ id = (eq_iff k id).0 same in
          let both : some old ≡ some row = sym e ∙ ap (λ j. lookup j db.tasks) k_id ∙ found in
          let one : old ≡ row = cc in
          inr (k_id, ap (λ r. is_terminal r.task.status) (sym one) ∙ over)
    ]
  ]
]

-- The call deletes the task, which has ended.
abbrev Ends : String → TaskRow → TaskCall → Type 0
Ends id row call = (call ≡ deletes id) × (is_terminal row.task.status ≡ true)

apply-fate :
    (db : Db) (clock : ℕ) (call : TaskCall) (id : String) (row : TaskRow)
    → lookup id db.tasks ≡ some row
    → Survives row (lookup id (apply db (clock, call)).tasks) ⊎ Ends id row call
unfolding apply
apply-fate db clock (creates e) id row found = inl (create_task-KeepsRows clock e db id row found)
apply-fate db clock (changes k t c) id row found =
    inl (transition_task-KeepsRows clock k db t c id row found)
apply-fate db clock (attempts k) id row found =
    inl (increment_attempt-KeepsRows clock k db id row found)
apply-fate db clock (cancels k reason) id row found =
    inl (request_cancel-KeepsRows clock k db reason id row found)
apply-fate db clock (reopens sources owner) id row found =
    inl (requeue_missing_context-KeepsRows clock owner db sources id row found)
apply-fate db clock (recovers again owner grace) id row found =
    inl (recover_interrupted-KeepsRows clock owner db again grace id row found)
apply-fate db clock (releases owner) id row found =
    inl (release_leases-KeepsRows clock owner db id row found)
apply-fate db clock (claims owner grace) id row found =
    inl (claim_retry_wait-KeepsRows clock owner db grace id row found)
apply-fate db clock (deletes k) id row found = elim (delete_terminal_task-fate k id db row found) [
  | inl kept ↦ inl kept
  | inr (same, over) ↦ inr (ap deletes same, over)
]

-- A call of the history has deleted the task, which had survived until then and had ended.
abbrev pub WasDeleted : String → TaskRow → Db → List (ℕ × TaskCall) → Type 0
WasDeleted id row db cs =
    (before : List (ℕ × TaskCall)) × (clock : ℕ) × (later : List (ℕ × TaskCall)) × (last : TaskRow)
    × (cs ≡ before ++ ((clock, deletes id) ∷ later))
    × (lookup id (run db before).tasks ≡ some last)
    × Evolves row.task last.task
    × (is_terminal last.task.status ≡ true)

-- In every history of transactions on the task table, deletions included, a stored task stays in it,
-- with its envelope and id; once completed, failed, cancelled or timed out it keeps that status; its
-- attempt count never falls, a cancel request is never taken back, and its first start time stays. Or
-- a delete_terminal_task of the history has removed it, when it had so evolved and its status was a
-- final one.
pub run-Survives :
    (cs : List (ℕ × TaskCall)) (db : Db) (id : String) (row : TaskRow)
    → lookup id db.tasks ≡ some row
    → Survives row (lookup id (run db cs).tasks) ⊎ WasDeleted id row db cs
unfolding run
run-Survives [] db id row found = inl (Survives-refl row found)
run-Survives ((clock, call) ∷ cs) db id row found = elim (apply-fate db clock call id row found) [
  | inr (gone, over) ↦
      inr ([], clock, cs, row, ap (λ c. (clock, c) ∷ cs) gone, found, Evolves-refl row.task, over)
  | inl (row', e, v, env) ↦ elim (run-Survives cs (apply db (clock, call)) id row' e) [
    | inl (row'', e', v', env') ↦ inl (row'', e', Evolves-trans v v', env' ∙ env)
    | inr (before, at, later, last, split, there, v', over) ↦ inr (
      (clock, call) ∷ before,
      at,
      later,
      last,
      ap (◌∷◌ (clock, call)) split,
      there,
      Evolves-trans v v',
      over,
    )
  ]
]
