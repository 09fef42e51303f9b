-- ===== src/Store/Leases.antt =====
-- Several instances over one database (core/runtime/sqlite_store.py): task leases, recovery and
-- the leader lease.
use learn_agent.Prelude.{
  ℕ, ◌≡◌, ◌≢◌, ◌≤◌, ◌<◌, ◌∙◌, ◌+◌, max, refl, ap, String, Bool, true, false, Option, none, some,
  List, arith, ok, err, value_error, moment, lookup, insert, lookup-insert, eq_iff, eq_refl,
  Option-cases, Result-cases, ◌⊎◌, inl, inr, utc_now, millis,
}
use learn_agent.Runtime.Status.{TaskStatus, queued, leased, retry_wait, same}
use learn_agent.Runtime.Task.{TaskResult, TaskRecord, moved}
use learn_agent.Runtime.Task.Lifecycle.{transition-status}
use learn_agent.Store.Db.{Db, TaskRow}
use learn_agent.Store.Tasks.{Change, transition_task, change_row, take_result}
use learn_agent.Store.Recovery.{
  recover_interrupted, release_leases, claim_retry_wait, recover_eligible, holds_lease, is_foreign,
  commit, try_acquire_lease, owns,
}
use learn_agent.Store.Rows.{change_row_parts}
use learn_agent.Store.Passes.{
  after, claim_outcome, claim_row_lem, interrupt_outcome, interrupt_row_lem, release_outcome,
  release_row_lem,
}
use learn_agent.Store.Sweep.{pass, sweep-pass, lookup-pass, left}

-- A change that expects another status than the row has is refused, and nothing is written.
unexpected :
    (clock : ℕ) (id : String) (t s : TaskStatus) (c : Change) (db : Db) (row : TaskRow)
    → lookup id db.tasks ≡ some row
    → c.expected_status ≡ some s
    → same row.task.status s ≡ false
    → transition_task clock id t c db ≡ err value_error
unfolding transition_task change_row
unexpected clock id t s c db row found e differ = rw found (rw e (rw differ refl))

take_result-status : (x : Option TaskResult) (r : TaskRecord) → (take_result x r).status ≡ r.status
unfolding take_result
take_result-status none r = refl
take_result-status (some x) r = refl

change_row-status :
    (clock : ℕ) (t : TaskStatus) (c : Change) (row : TaskRow) {row' : TaskRow}
    → change_row clock t c row ≡ ok row'
    → row'.task.status ≡ t
change_row-status clock t c row done =
    let (r, moves, task, _, _) = change_row_parts clock t c row done in
    ap (λ x. x.status) task ∙ take_result-status c.result r ∙ transition-status _ t _ _ moves

-- The row that a successful transition_task leaves.
transition_task-row :
    (clock : ℕ) (id : String) (t : TaskStatus) (c : Change) (db : Db) {r : TaskRecord} {db' : Db}
    → transition_task clock id t c db ≡ ok (r, db')
    → (row : TaskRow) × (lookup id db'.tasks ≡ some row) × (row.task.status ≡ t)
unfolding transition_task
transition_task-row clock id t c db {r} {db'} h = elim (Option-cases (lookup id db.tasks)) [
  | inl e ↦ absurd (cc (rw (e, transition_task) at h))
  | inr (old, e) ↦ elim (Result-cases (change_row clock t c old)) [
    | inl (row, done) ↦
        let written : db'.tasks ≡ insert id row db.tasks = ground arith in
        (
          row,
          rw (written, lookup-insert id id row db.tasks, eq_refl id) refl,
          change_row-status clock t c old done,
        )
    | inr (x, failed) ↦ absurd (ground arith)
  ]
]

-- Once a task has been leased, a transition to leased that expects the task to be queued raises a
-- ValueError, whoever asks and whenever.
pub lease_once :
    (clock later : ℕ) (id : String) (c c' : Change) (db db' : Db) (r : TaskRecord)
    → transition_task clock id leased c db ≡ ok (r, db')
    → c'.expected_status ≡ some queued
    → transition_task later id leased c' db' ≡ err value_error
lease_once clock later id c c' db db' r h e =
    let (row, found, status) = transition_task-row clock id leased c db h in
    unexpected later id leased queued c' db' row found e (rw status refl)

-- claim_retry_wait never fails, and leaves this of the table.
claim_retry_wait_lem :
    (clock : ℕ) (owner : Option String) (grace : ℕ) (db db' : Db) (taken : List (String × TaskRow))
    → claim_retry_wait clock owner grace db ≡ ok (taken, db')
    → db'.tasks ≡ (pass (claim_outcome clock owner grace) db.tasks).rows
unfolding claim_retry_wait commit
claim_retry_wait_lem clock owner grace db db' taken h = ground (
  arith,
  sweep-pass (claim_outcome clock owner grace) _ (claim_row_lem clock owner grace) db.tasks,
)

-- Once claim_retry_wait has put a task that waited for its retry, and was eligible, back into the
-- queue, a transition to queued that expects it to wait for the retry raises a ValueError.
pub claim_then_timer :
    (clock later : ℕ) (owner : Option String) (grace : ℕ) (id : String) (row : TaskRow) (c : Change)
    (db db' : Db) (taken : List (String × TaskRow))
    → lookup id db.tasks ≡ some row
    → row.task.status ≡ retry_wait
    → recover_eligible clock owner grace row.task ≡ true
    → claim_retry_wait clock owner grace db ≡ ok (taken, db')
    → c.expected_status ≡ some retry_wait
    → transition_task later id queued c db' ≡ err value_error
unfolding moved
claim_then_timer clock later owner grace id row c db db' taken found waits eligible h e =
    unexpected later id queued retry_wait c db' (after row (claim_outcome clock owner grace row))
      (ap (lookup id) (claim_retry_wait_lem clock owner grace db db' taken h)
        ∙ lookup-pass (claim_outcome clock owner grace) id db.tasks
        ∙ ap (left (claim_outcome clock owner grace)) found)
      e (ground arith)

-- The lease that a successful try_acquire_lease leaves.
granted :
    (clock : ℕ) (name holder : String) (ttl : ℕ) (db db' : Db)
    → try_acquire_lease clock name holder ttl db ≡ (true, db')
    → lookup name db'.leases
      ≡ some (record {
        holder = holder;
        expires_at = millis (clock + max 1_000_000 ttl);
        updated_at = millis clock;
      })
unfolding try_acquire_lease
granted clock name holder ttl db db' h = ground (
  arith,
  lookup-insert name name
      (record {
        holder = holder;
        expires_at = millis (clock + max 1_000_000 ttl);
        updated_at = millis clock;
      })
      db.leases,
  eq_refl name,
)

-- After a grant of the leader lease, until its time to live has passed (a second at least), another
-- holder's try_acquire_lease answers False and writes nothing.
pub leader_exclusive :
    (clock later : ℕ) (name holder other : String) (ttl ttl' : ℕ) (db db' : Db)
    → try_acquire_lease clock name holder ttl db ≡ (true, db')
    → other ≢ holder
    → later ≤ clock + max 1_000_000 ttl
    → try_acquire_lease later name other ttl' db' ≡ (false, db')
unfolding try_acquire_lease
leader_exclusive clock later name holder other ttl ttl' db db' h differ early =
    rw (granted clock name holder ttl db db' h) (ground (arith, eq_iff holder other))

-- After a grant of the leader lease its holder is granted it again at any time, and anyone else
-- from a millisecond after the end of the time to live (of a second at least) on.
pub leader_handover :
    (clock later : ℕ) (name holder other : String) (ttl ttl' : ℕ) (db db' : Db)
    → try_acquire_lease clock name holder ttl db ≡ (true, db')
    → (other ≡ holder) ⊎ (clock + max 1_000_000 ttl + 1000 ≤ later)
    → (try_acquire_lease later name other ttl' db').0 ≡ true
unfolding try_acquire_lease
leader_handover clock later name holder other ttl ttl' db db' h (inl same) =
    rw (granted clock name holder ttl db db' h) (ground (arith, eq_iff holder other))
leader_handover clock later name holder other ttl ttl' db db' h (inr late) =
    rw (granted clock name holder ttl db db' h) (ground arith)

release_leases_lem :
    (clock : ℕ) (owner : Option String) (db db' : Db) (taken : List (String × TaskRow))
    → release_leases clock owner db ≡ ok (taken, db')
    → db'.tasks ≡ (pass (release_outcome clock owner) db.tasks).rows
unfolding release_leases commit
release_leases_lem clock owner db db' taken h =
    ground
      (arith, sweep-pass (release_outcome clock owner) _ (release_row_lem clock owner) db.tasks)

recover_interrupted_lem :
    (clock : ℕ) (again : Bool) (owner : Option String) (grace : ℕ) (db db' : Db)
    (taken : List (String × TaskRow))
    → recover_interrupted clock again owner grace db ≡ ok (taken, db')
    → db'.tasks ≡ (pass (interrupt_outcome clock again owner grace) db.tasks).rows
unfolding recover_interrupted commit
recover_interrupted_lem clock again owner grace db db' taken h = ground (
  arith,
  sweep-pass (interrupt_outcome clock again owner grace) _
      (interrupt_row_lem clock again owner grace) db.tasks,
)

-- A task that another instance holds under a lease that has not run out is not eligible.
held_elsewhere :
    (clock grace t : ℕ) (me holder : String) (r : TaskRecord)
    → r.lease_owner ≡ some holder
    → owns me holder ≡ false
    → r.lease_expires_at ≡ some (moment t)
    → clock ≤ t + grace
    → recover_eligible clock (some me) grace r ≡ false
unfolding recover_eligible
held_elsewhere clock grace t me holder r held other expiry alive = rw (held, expiry) (ground arith)

-- Where a recover_interrupted of one instance succeeds, it has left exactly as it was the row of
-- every task that another instance holds under a lease that has not run out, the grace period added.
pub live_lease_kept :
    (clock grace t : ℕ) (again : Bool) (me holder id : String) (row : TaskRow) (db db' : Db)
    (taken : List (String × TaskRow))
    → lookup id db.tasks ≡ some row
    → row.task.lease_owner ≡ some holder
    → owns me holder ≡ false
    → row.task.lease_expires_at ≡ some (moment t)
    → clock ≤ t + grace
    → recover_interrupted clock again (some me) grace db ≡ ok (taken, db')
    → lookup id db'.tasks ≡ some row
live_lease_kept clock grace t again me holder id row db db' taken found held other expiry alive h =
    let live = held_elsewhere clock grace t me holder row.task held other expiry alive in
    ap (lookup id) (recover_interrupted_lem clock again (some me) grace db db' taken h)
    ∙ lookup-pass (interrupt_outcome clock again (some me) grace) id db.tasks
    ∙ ap (left (interrupt_outcome clock again (some me) grace)) found
    ∙ ground arith

-- A lease that ran out before now makes a task eligible, whoever asks.
run_out :
    (clock t : ℕ) (owner : Option String) (r : TaskRecord)
    → r.lease_expires_at ≡ some (moment t)
    → t < clock
    → recover_eligible clock owner 0 r ≡ true
unfolding recover_eligible
run_out clock t owner r e late = rw e (ground arith)

released :
    (clock : ℕ) (owner : Option String) (row : TaskRow)
    → holds_lease row.task.status ≡ true
    → is_foreign owner row.task ≡ false
    → ((after row (release_outcome clock owner row)).task.lease_expires_at ≡ some (utc_now clock))
      × ((after row (release_outcome clock owner row)).task.status ≡ row.task.status)
released clock owner row held mine = rw (held, mine) (refl, refl)

-- What an eligible task under a lease becomes, where it is requeued.
interrupted_queued :
    (clock : ℕ) (owner : Option String) (grace : ℕ) (row : TaskRow)
    → holds_lease row.task.status ≡ true
    → recover_eligible clock owner grace row.task ≡ true
    → (after row (interrupt_outcome clock true owner grace row)).task.status ≡ queued
unfolding moved
interrupted_queued clock owner grace row held eligible = rw (held, eligible) refl

-- A leased or running task that release_leases does not pass over as another instance's is queued
-- after a recover_interrupted of any instance that follows it, at any later microsecond, requeues and
-- gives no grace, where both succeed.
pub released_recovered :
    (clock later : ℕ) (owner other : Option String) (id : String) (row : TaskRow) (db db1 db2 : Db)
    (taken taken' : List (String × TaskRow))
    → lookup id db.tasks ≡ some row
    → holds_lease row.task.status ≡ true
    → is_foreign owner row.task ≡ false
    → release_leases clock owner db ≡ ok (taken, db1)
    → clock < later
    → recover_interrupted later true other 0 db1 ≡ ok (taken', db2)
    → (row' : TaskRow) × (lookup id db2.tasks ≡ some row') × (row'.task.status ≡ queued)
released_recovered clock later owner other id row db db1 db2 taken taken' found held mine h late
      h' =
    let row1 = after row (release_outcome clock owner row) in
    let found1 : lookup id db1.tasks ≡ some row1 =
      ap (lookup id) (release_leases_lem clock owner db db1 taken h)
      ∙ lookup-pass (release_outcome clock owner) id db.tasks
      ∙ ap (left (release_outcome clock owner)) found in
    (
      after row1 (interrupt_outcome later true other 0 row1),
      ap (lookup id) (recover_interrupted_lem later true other 0 db1 db2 taken' h')
          ∙ lookup-pass (interrupt_outcome later true other 0) id db1.tasks
          ∙ ap (left (interrupt_outcome later true other 0)) found1,
      interrupted_queued later other 0 row1
          (ap holds_lease (released clock owner row held mine).1 ∙ held)
          (run_out later (millis clock) other row1.task (released clock owner row held mine).0
            (omega arith)),
    )
