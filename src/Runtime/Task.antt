-- ===== src/Runtime/Task.antt =====
-- core/runtime/models.py: what a task is given, its mutable record, and its result. The free-form
-- parts of an envelope (context references, metadata, lineage ids) are kept out of the model.
pub mod Lifecycle
use learn_agent.Prelude.{
  ℕ, zero, String, Option, none, some, Bool, true, false, not, ◌&&◌, ◌||◌, ◌==◌, if◌then◌else◌, ltb,
  List, [], ◌∷◌, any, Result, ok, err, value_error, guard, ◌>>=◌, ◌>>◌, Iso, truthy, strip,
  is_empty, ℤ, is_positive,
}
use learn_agent.Runtime.Status.{
  TaskStatus, queued, leased, running, same, is_in, is_terminal, allowed_transitions, created,
}
use learn_agent.Runtime.Budget.{Budget}

pub record TaskEnvelope : Type 0 where
  pub task_id : String
  pub session_id : String
  pub session_key : String
  pub source : String
  pub prompt : String
  pub created_at : Iso
  pub priority : ℤ
  pub timeout_seconds : ℤ
  pub max_steps : ℤ
  pub idempotency_key : Option String
  pub budget : Budget

abbrev pub valid_sources : List String
valid_sources =
    "user" ∷ "plan" ∷ "goal" ∷ "subagent" ∷ "heartbeat" ∷ "scheduler" ∷ "system" ∷ "retry" ∷ []

-- __post_init__: the envelope is refused, or kept as it is.
unfoldable pub check_envelope : TaskEnvelope → Result TaskEnvelope
check_envelope e = do
  guard (not (e.task_id == "")) value_error
  guard (not (e.session_id == "" || e.session_key == "")) value_error
  guard (any (λ s. e.source == s) valid_sources) value_error
  guard (not (is_empty (strip e.prompt))) value_error
  guard (is_positive e.timeout_seconds && is_positive e.max_steps) value_error
  ok e

-- TaskEnvelope.create, for the arguments of an envelope whose id and time are the generated ones
-- where the caller gives none.
unfoldable pub create_envelope :
    String → Iso → Option String → Option Iso → TaskEnvelope → Result TaskEnvelope
unfolding check_envelope
create_envelope id now task_id created_at e = check_envelope (record e {
  task_id = elim task_id [ none ↦ id | some t ↦ t ];
  created_at = elim created_at [ none ↦ now | some t ↦ t ];
})

pub record TaskRecord : Type 0 where
  pub task_id : String
  pub status : TaskStatus
  pub attempt : ℕ
  pub queued_at : Option Iso
  pub started_at : Option Iso
  pub finished_at : Option Iso
  pub lease_owner : Option String
  pub lease_expires_at : Option Iso
  pub cancel_requested : Bool
  pub error_code : Option String
  pub error_message : Option String
  pub result_summary : Option String
  pub artifact_ids : List String
  pub usage : List (String × ℕ)

-- TaskRecord(task_id=...): every other field has its default.
abbrev pub new_record : String → TaskRecord
new_record id = record {
  task_id = id;
  status = created;
  attempt = 0;
  queued_at = none;
  started_at = none;
  finished_at = none;
  lease_owner = none;
  lease_expires_at = none;
  cancel_requested = false;
  error_code = none;
  error_message = none;
  result_summary = none;
  artifact_ids = [];
  usage = [];
}

-- `x or default`
or_default {ℓ} : {A : Type ℓ} → Option A → A → A
or_default none d = d
or_default (some a) d = a

-- `new if new is not None else old`
given {ℓ} : {A : Type ℓ} → Option A → Option A → Option A
given none old = old
given (some a) old = some a

-- The fields that the arrival at a status sets.
arrive : TaskRecord → TaskStatus → Iso → TaskRecord
unfolding or_default
arrive r queued now = record r {
  status = queued;
  queued_at = some now;
  lease_owner = none;
  lease_expires_at = none;
}
arrive r leased now = record r {
  status = leased;
  lease_owner = if truthy r.lease_owner then r.lease_owner else some "runtime";
}
arrive r running now = record r {
  status = running;
  started_at = some (or_default r.started_at now);
}
arrive r target now = record r { status = target }

-- A terminal status closes the record and gives up the lease.
close : TaskRecord → TaskStatus → Iso → TaskRecord
close r target now =
    if is_terminal target
    then record r { finished_at = some now; lease_owner = none; lease_expires_at = none }
    else r

-- The optional texts of a transition: `None` leaves the field as it is.
pub record Report : Type 0 where
  pub error_code : Option String
  pub error_message : Option String
  pub result_summary : Option String

abbrev pub no_report : Report
no_report = record { error_code = none; error_message = none; result_summary = none }

fill : TaskRecord → Report → TaskRecord
unfolding given
fill r p = record r {
  error_code = given p.error_code r.error_code;
  error_message = given p.error_message r.error_message;
  result_summary = given p.result_summary r.result_summary;
}

-- What an allowed change of status makes of a record.
unfoldable pub moved : TaskRecord → TaskStatus → Iso → Report → TaskRecord
unfolding arrive close fill
moved r target now p = fill (close (arrive r target now) target now) p

-- TaskRecord.transition
unfoldable pub transition : TaskRecord → TaskStatus → Iso → Report → Result TaskRecord
transition r target now p =
    if same target r.status
    then ok r
    else if is_in target (allowed_transitions r.status)
    then ok (moved r target now p)
    else err value_error

pub record TaskResult : Type 0 where
  pub task_id : String
  pub status : TaskStatus
  pub visible_text : String
  pub summary : String
  pub artifact_ids : List String
  pub usage : List (String × ℕ)
  pub error_code : Option String
  pub error_message : Option String

-- TaskResult.__post_init__
unfoldable pub check_result : TaskResult → Result TaskResult
check_result r = do guard (is_terminal r.status) value_error; ok r
