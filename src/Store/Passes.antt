-- ===== src/Store/Passes.antt =====
-- Each pass over the task table, on one row: it never fails, and what it leaves of the row.
use learn_agent.Prelude.{
  ℕ, ◌≡◌, [], ◌∷◌, String, Bool, true, false, not, ◌&&◌, Option, none, some, arith, List, ok,
  utc_now, if◌then◌else◌,
}
use learn_agent.Runtime.Status.{queued, interrupted, retry_wait, is_final, same}
use learn_agent.Runtime.Task.{TaskRecord, no_report, transition, moved}
use learn_agent.Runtime.Task.Lifecycle.{IsClosed, Evolves}
use learn_agent.Store.Db.{TaskRow, task_event}
use learn_agent.Store.Recovery.{
  Swept, reopen_row, interrupt_row, release_row, claim_row, reopens, holds_lease, recover_eligible,
  claim, is_foreign,
}

-- What a pass leaves of a row.
abbrev pub after : TaskRow → Option Swept → TaskRow
after row none = row
after row (some s) = s.row

-- What the later work needs to know of the step of a pass.
pub record Step (row : TaskRow) (o : Option Swept) : Type 0 where
  pub evolves : Evolves row.task (after row o).task
  pub envelope : (after row o).envelope ≡ row.envelope
  pub closed : IsClosed row.task → IsClosed (after row o).task

-- A row that goes back to the queue under a claim.
abbrev pub requeued : ℕ → Option String → TaskRecord → TaskRecord
requeued clock owner r = claim owner (moved r queued (utc_now clock) no_report)

requeued-Evolves :
    (clock : ℕ) (owner : Option String) (r : TaskRecord)
    → is_final r.status ≡ false
    → Evolves r (requeued clock owner r)
unfolding moved
requeued-Evolves clock owner r h = ground arith

requeued-IsClosed :
    (clock : ℕ) (owner : Option String) (r : TaskRecord) → IsClosed (requeued clock owner r)
unfolding moved
requeued-IsClosed clock owner r = ground arith

-- An outcome for a row that a test selects.
abbrev pub select : Bool → Swept → Option Swept
select b s = if b then some s else none

abbrev pub claim_outcome : ℕ → Option String → ℕ → TaskRow → Option Swept
claim_outcome clock owner grace row =
    select (same row.task.status retry_wait && recover_eligible clock owner grace row.task)
      (record {
        row = record row { task = requeued clock owner row.task; updated_at = utc_now clock };
        events = task_event "task.queued" row.envelope ∷ [];
      })

pub claim_row_lem :
    (clock : ℕ) (owner : Option String) (grace : ℕ) (row : TaskRow)
    → claim_row clock owner grace row ≡ ok (claim_outcome clock owner grace row)
unfolding claim_row transition
claim_row_lem clock owner grace row = ground arith

abbrev pub reopen_outcome : ℕ → Option (List String) → Option String → TaskRow → Option Swept
reopen_outcome clock sources owner row = select (reopens clock sources owner row) (record {
  row = record row {
    task = requeued clock owner row.task;
    result = none;
    updated_at = utc_now clock;
  };
  events = task_event "task.requeued" row.envelope ∷ [];
})

pub reopen_row_lem :
    (clock : ℕ) (sources : Option (List String)) (owner : Option String) (row : TaskRow)
    → reopen_row clock sources owner row ≡ ok (reopen_outcome clock sources owner row)
unfolding reopen_row transition
reopen_row_lem clock sources owner row = ground arith

-- A record of a run that a restart has cut off.
abbrev pub cut_off : ℕ → TaskRecord → TaskRecord
cut_off clock r = moved r interrupted (utc_now clock) (record {
  error_code = some "RUNTIME_INTERRUPTED";
  error_message = some "runtime restarted before task completed";
  result_summary = none;
})

abbrev pub interrupt_outcome : ℕ → Bool → Option String → ℕ → TaskRow → Option Swept
interrupt_outcome clock again owner grace row =
    select (holds_lease row.task.status && recover_eligible clock owner grace row.task) (record {
      row = record row {
        task =
            if again
            then requeued clock owner (cut_off clock row.task)
            else claim owner (cut_off clock row.task);
        updated_at = utc_now clock;
      };
      events =
          task_event "task.interrupted" row.envelope
          ∷ (if again then task_event "task.queued" row.envelope ∷ [] else []);
    })

pub interrupt_row_lem :
    (clock : ℕ) (again : Bool) (owner : Option String) (grace : ℕ) (row : TaskRow)
    → interrupt_row clock again owner grace row ≡ ok (interrupt_outcome clock again owner grace row)
unfolding interrupt_row transition moved
interrupt_row_lem clock true owner grace row = ground arith
interrupt_row_lem clock false owner grace row = ground arith

abbrev pub release_outcome : ℕ → Option String → TaskRow → Option Swept
release_outcome clock owner row =
    select (holds_lease row.task.status && not (is_foreign owner row.task)) (record {
      row = record row {
        task = record (row.task) { lease_expires_at = some (utc_now clock) };
        updated_at = utc_now clock;
      };
      events = [];
    })

pub release_row_lem :
    (clock : ℕ) (owner : Option String) (row : TaskRow)
    → release_row clock owner row ≡ ok (release_outcome clock owner row)
unfolding release_row
release_row_lem clock owner row = ground arith

pub claim_outcome-Step :
    (clock : ℕ) (owner : Option String) (grace : ℕ) (row : TaskRow)
    → Step row (claim_outcome clock owner grace row)
unfolding moved
claim_outcome-Step clock owner grace row = ground arith

pub reopen_outcome-Step :
    (clock : ℕ) (sources : Option (List String)) (owner : Option String) (row : TaskRow)
    → Step row (reopen_outcome clock sources owner row)
unfolding moved
reopen_outcome-Step clock sources owner row = ground arith

pub interrupt_outcome-Step :
    (clock : ℕ) (again : Bool) (owner : Option String) (grace : ℕ) (row : TaskRow)
    → Step row (interrupt_outcome clock again owner grace row)
unfolding moved
interrupt_outcome-Step clock again owner grace row = ground arith

pub release_outcome-Step :
    (clock : ℕ) (owner : Option String) (row : TaskRow) → Step row (release_outcome clock owner row)
release_outcome-Step clock owner row = ground arith
