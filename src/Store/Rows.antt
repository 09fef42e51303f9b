-- ===== src/Store/Rows.antt =====
-- One row of the task table under each transaction of core/runtime/sqlite_store.py.
use learn_agent.Prelude.{
  ℕ, ◌≡◌, ◌∙◌, refl, inl, inr, true, Option, none, some, arith, ok, value_error, utc_now, >>=-eq-ok,
  guard,
}
use learn_agent.Runtime.Status.{TaskStatus, is_terminal}
use learn_agent.Runtime.Task.{TaskRecord, TaskResult, transition}
use learn_agent.Runtime.Task.Lifecycle.{
  IsClosed, Evolves, Evolves-trans, transition-Evolves, transition_cases, moved-IsClosed,
}
use learn_agent.Store.Db.{TaskRow}
use learn_agent.Store.Tasks.{Change, change_row, report_of, take_lease, take_result, expected}

-- Lease arguments come with no terminal target: the runtime passes them for `leased` alone.
abbrev pub IsLeaseChange : TaskStatus → Change → Type 0
IsLeaseChange t c = is_terminal t ≡ true → (c.lease_owner ≡ none) × (c.lease_expires_at ≡ none)

take_lease-Evolves : (c : Change) (r : TaskRecord) → Evolves r (take_lease c r)
unfolding take_lease
take_lease-Evolves c r = ground arith

take_lease-status : (c : Change) (r : TaskRecord) → (take_lease c r).status ≡ r.status
unfolding take_lease
take_lease-status c r = refl

take_result-Evolves : (x : Option TaskResult) (r : TaskRecord) → Evolves r (take_result x r)
unfolding take_result
take_result-Evolves none r = ground arith
take_result-Evolves (some x) r = ground arith

take_result-IsClosed :
    (x : Option TaskResult) (r : TaskRecord) → IsClosed r → IsClosed (take_result x r)
unfolding take_result
take_result-IsClosed none r v = v
take_result-IsClosed (some x) r v = ground arith

-- What a successful change makes of the row.
pub change_row_parts :
    (clock : ℕ) (t : TaskStatus) (c : Change) (row : TaskRow) {row' : TaskRow}
    → change_row clock t c row ≡ ok row'
    → (r : TaskRecord) × (transition (take_lease c row.task) t (utc_now clock) (report_of c) ≡ ok r)
      × (row'.task ≡ take_result c.result r)
      × (row'.envelope ≡ row.envelope)
      × (expected c.expected_status row.task.status ≡ true)
unfolding change_row
change_row_parts clock t c row done =
    let (_, passed, rest) =
      >>=-eq-ok (guard (expected c.expected_status row.task.status) value_error) _ done in
    let (r, e, final) =
      >>=-eq-ok (transition (take_lease c row.task) t (utc_now clock) (report_of c)) _ rest in
    (r, e, ground arith, ground arith, ground arith)

take_lease-IsClosed :
    (t : TaskStatus) (c : Change) (r : TaskRecord)
    → IsLeaseChange t c
    → t ≡ r.status
    → IsClosed r
    → IsClosed (take_lease c r)
unfolding take_lease
take_lease-IsClosed t c r l e v = ground arith

module _ (clock : ℕ) (t : TaskStatus) (c : Change) (row : TaskRow) {row' : TaskRow}
    (done : change_row clock t c row ≡ ok row') where
  pub change_row-Evolves : Evolves row.task row'.task × (row'.envelope ≡ row.envelope)
  change_row-Evolves =
      let (r, e, eq, env, _) = change_row_parts clock t c row done in
      (
        rw eq (
            Evolves-trans (take_lease-Evolves c row.task)
              (Evolves-trans (transition-Evolves _ t _ _ e) (take_result-Evolves c.result r))),
        env,
      )

  pub change_row-IsClosed : IsLeaseChange t c → IsClosed row.task → IsClosed row'.task
  change_row-IsClosed l v =
      let (r, e, eq, env, _) = change_row_parts clock t c row done in
      rw eq (
        take_result-IsClosed c.result r (elim (transition_cases _ t _ _ e) [
          | inl (s, k) ↦
              rw k (take_lease-IsClosed t c row.task l (s ∙ take_lease-status c row.task) v)
          | inr (a, k) ↦ rw k (moved-IsClosed _ t _ _)
        ]))
