-- ===== src/Store/Recovery.antt =====
-- core/runtime/sqlite_store.py: the transactions that go through the tasks of several instances,
-- and the leader lease. Times and durations are in microseconds.
use learn_agent.Prelude.{
  ℕ, ◌+◌, String, Option, none, some, List, [], ◌∷◌, ◌++◌, Bool, true, false, not, ◌&&◌, ◌||◌, ◌==◌,
  if◌then◌else◌, Iso, moment, unreadable, millis, utc_now, lookup, insert, truthy, same_text,
  concat, any, max, ltb, Result, ok, ◌>>=◌,
}
use text.Mathlib.Text.{starts_with}
use learn_agent.Runtime.Status.{
  TaskStatus, queued, leased, running, blocked, interrupted, retry_wait, same, is_in,
}
use learn_agent.Runtime.Task.{TaskRecord, no_report, transition}
use learn_agent.Store.Db.{Db, TaskRow, Event, Lease, task_event, append_events}

-- The text of a truthy optional text.
abbrev pub name_of : Option String → String
name_of none = ""
name_of (some s) = s

-- lease_owner == owner or lease_owner.startswith(f"{owner}-")
abbrev pub owns : String → String → Bool
owns owner holder = holder == owner || starts_with holder (concat owner "-")

-- Has the lease run out? No expiry counts as run out, an unreadable one never does.
abbrev pub is_over : ℕ → ℕ → Option Iso → Bool
is_over clock grace none = true
is_over clock grace (some (moment t)) = ltb (t + grace) clock
is_over clock grace (some (unreadable s)) = false

-- RuntimeStore._recover_eligible; `grace` is the grace period, which the source cuts at 0 below.
unfoldable pub recover_eligible : ℕ → Option String → ℕ → TaskRecord → Bool
recover_eligible clock owner grace r =
    if truthy owner && truthy r.lease_owner
    then owns (name_of owner) (name_of r.lease_owner) || is_over clock grace r.lease_expires_at
    else is_over clock grace r.lease_expires_at

-- What a transaction makes of one row: the row that it writes and the events that it adds.
pub record Swept : Type 0 where
  pub row : TaskRow
  pub events : List Event

-- A pass over the table: the table after it, the events added, and the rows written.
pub record Pass : Type 0 where
  pub rows : List (String × TaskRow)
  pub events : List Event
  pub taken : List (String × TaskRow)

-- Puts the outcome for one row before the outcome for the rest.
unfoldable pub extend : String → TaskRow → Option Swept → Pass → Pass
extend id row none p = record p { rows = (id, row) ∷ p.rows }
extend id row (some s) p = record {
  rows = (id, s.row) ∷ p.rows;
  events = s.events ++ p.events;
  taken = (id, s.row) ∷ p.taken;
}

-- The loop `for row in rows`.
unfoldable pub sweep : (TaskRow → Result (Option Swept)) → List (String × TaskRow) → Result Pass
unfolding extend
sweep step [] = ok (record { rows = []; events = []; taken = [] })
sweep step ((id, row) ∷ rows) = do
  outcome ← step row
  rest ← sweep step rows
  ok (extend id row outcome rest)

-- Writes a pass to the database.
unfoldable pub commit : Db → Pass → List (String × TaskRow) × Db
commit db p = (p.taken, append_events p.events (record db { tasks = p.rows }))

-- if owner: record.lease_owner = owner
abbrev pub claim : Option String → TaskRecord → TaskRecord
claim owner r = record r { lease_owner = if truthy owner then owner else r.lease_owner }

-- sources is None or envelope.source in sources
abbrev pub from_source : Option (List String) → String → Bool
from_source none source = true
from_source (some sources) source = any (λ s. source == s) sources

-- The tests of requeue_missing_context.
abbrev pub reopens : ℕ → Option (List String) → Option String → TaskRow → Bool
reopens clock sources owner row =
    same row.task.status blocked
    && same_text row.task.error_code (some "RUNTIME_CONTEXT_MISSING")
    && from_source sources row.envelope.source
    && recover_eligible clock owner 0 row.task

unfoldable pub reopen_row :
    ℕ → Option (List String) → Option String → TaskRow → Result (Option Swept)
reopen_row clock sources owner row =
    if reopens clock sources owner row
    then (do
      r ← transition row.task queued (utc_now clock) no_report
      ok (
          some (record {
            row = record row { task = claim owner r; result = none; updated_at = utc_now clock };
            events = task_event "task.requeued" row.envelope ∷ [];
          })))
    else ok none

-- RuntimeStore.requeue_missing_context
unfoldable pub requeue_missing_context :
    ℕ → Option (List String) → Option String → Db → Result (List (String × TaskRow) × Db)
unfolding reopen_row sweep commit
requeue_missing_context clock sources owner db = do
  p ← sweep (reopen_row clock sources owner) db.tasks
  ok (commit db p)

abbrev pub holds_lease : TaskStatus → Bool
holds_lease s = is_in s (leased ∷ running ∷ [])

-- Back to the queue, where the caller asks for it.
requeue : ℕ → Bool → TaskRecord → Result TaskRecord
requeue clock true r = transition r queued (utc_now clock) no_report
requeue clock false r = ok r

unfoldable pub interrupt_row : ℕ → Bool → Option String → ℕ → TaskRow → Result (Option Swept)
unfolding requeue
interrupt_row clock again owner grace row =
    if holds_lease row.task.status && recover_eligible clock owner grace row.task
    then (do
      r ← transition row.task interrupted (utc_now clock) (record {
        error_code = some "RUNTIME_INTERRUPTED";
        error_message = some "runtime restarted before task completed";
        result_summary = none;
      })
      r' ← requeue clock again r
      ok (
          some (record {
            row = record row { task = claim owner r'; updated_at = utc_now clock };
            events =
                task_event "task.interrupted" row.envelope
                ∷ (if again then task_event "task.queued" row.envelope ∷ [] else []);
          })))
    else ok none

-- RuntimeStore.recover_interrupted
unfoldable pub recover_interrupted :
    ℕ → Bool → Option String → ℕ → Db → Result (List (String × TaskRow) × Db)
unfolding interrupt_row sweep commit
recover_interrupted clock again owner grace db = do
  p ← sweep (interrupt_row clock again owner grace) db.tasks
  ok (commit db p)

-- Does release_leases pass over the task, as another instance's?
abbrev pub is_foreign : Option String → TaskRecord → Bool
is_foreign owner r =
    truthy owner && truthy r.lease_owner && not (owns (name_of owner) (name_of r.lease_owner))

unfoldable pub release_row : ℕ → Option String → TaskRow → Result (Option Swept)
release_row clock owner row =
    if holds_lease row.task.status && not (is_foreign owner row.task)
    then ok (
        some (record {
          row = record row {
            task = record (row.task) { lease_expires_at = some (utc_now clock) };
            updated_at = utc_now clock;
          };
          events = [];
        }))
    else ok none

-- RuntimeStore.release_leases; the source returns the number of the rows taken.
unfoldable pub release_leases : ℕ → Option String → Db → Result (List (String × TaskRow) × Db)
unfolding release_row sweep commit
release_leases clock owner db = do p ← sweep (release_row clock owner) db.tasks; ok (commit db p)

unfoldable pub claim_row : ℕ → Option String → ℕ → TaskRow → Result (Option Swept)
claim_row clock owner grace row =
    if same row.task.status retry_wait && recover_eligible clock owner grace row.task
    then (do
      r ← transition row.task queued (utc_now clock) no_report
      ok (
          some (record {
            row = record row { task = claim owner r; updated_at = utc_now clock };
            events = task_event "task.queued" row.envelope ∷ [];
          })))
    else ok none

-- RuntimeStore.claim_retry_wait
unfoldable pub claim_retry_wait : ℕ → Option String → ℕ → Db → Result (List (String × TaskRow) × Db)
unfolding claim_row sweep commit
claim_retry_wait clock owner grace db = do
  p ← sweep (claim_row clock owner grace) db.tasks
  ok (commit db p)

-- May the holder write the row? A row that is absent, its own, or run out.
abbrev pub may_take : ℕ → String → Option Lease → Bool
may_take now holder none = true
may_take now holder (some l) = l.holder == holder || ltb l.expires_at now

-- RuntimeStore.try_acquire_lease; times are milliseconds' texts, compared as numbers.
unfoldable pub try_acquire_lease : ℕ → String → String → ℕ → Db → Bool × Db
try_acquire_lease clock name holder ttl db =
    let now = millis clock in
    let lease : Lease = record {
      holder = holder;
      expires_at = millis (clock + max 1_000_000 ttl);
      updated_at = now;
    } in
    if may_take now holder (lookup name db.leases)
    then (true, record db { leases = insert name lease db.leases })
    else (false, db)

-- RuntimeStore.get_lease
unfoldable pub get_lease : String → Db → Option Lease
get_lease name db = lookup name db.leases
