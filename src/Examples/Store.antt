-- ===== src/Examples/Store.antt =====
-- Runs of the store's transactions (core/runtime/sqlite_store.py).
use learn_agent.Prelude.{
  ℕ, ◌≡◌, ◌⊎◌, inr, refl, String, none, some, List, [], ◌∷◌, Bool, true, false, Result, ok, err,
  value_error, lookup, pos, eq_iff, concat, moment, arith,
}
use learn_agent.Runtime.Status.{queued, leased, running, completed}
use learn_agent.Runtime.Budget.{Budget}
use learn_agent.Runtime.Task.{TaskEnvelope, TaskRecord, new_record, transition, moved, no_report}
use learn_agent.Runtime.Task.Lifecycle.{IsClosed, Evolves, transition-IsClosed, transition-Evolves}
use learn_agent.Store.Db.{Db, TaskRow, empty_db, first_session, ensure_session}
use learn_agent.Store.Tasks.{Change, no_change, create_task, transition_task, find_duplicate}
use learn_agent.Store.Tasks.Creation.{create_task_twice}
use learn_agent.Store.Recovery.{
  recover_interrupted, release_leases, try_acquire_lease, recover_eligible,
}
use learn_agent.Store.History.{TaskCall, changes, recovers, deletes, run}
use learn_agent.Store.Goals.{delete_stale_sessions}
use learn_agent.Store.Stale.{referenced_kept}
use learn_agent.Store.History.Survival.{Survives, WasDeleted, run-Survives}
use learn_agent.Store.Leases.{
  lease_once, leader_exclusive, leader_handover, live_lease_kept, released_recovered,
}

abbrev or_else : {A : Type 0} → Result A → A → A
or_else (ok a) d = a
or_else (err e) d = d

abbrev no_budget : Budget
no_budget = record {
  max_steps = none;
  max_input_tokens = none;
  max_output_tokens = none;
  max_total_tokens = none;
  max_wall_seconds = none;
  max_tool_calls = none;
  max_failures = none;
  max_children = none;
}

abbrev hello : TaskEnvelope
hello = record {
  task_id = "t1";
  session_id = "s1";
  session_key = "web:1";
  source = "user";
  prompt = "hello";
  created_at = moment 1;
  priority = pos 0;
  timeout_seconds = pos 60;
  max_steps = pos 10;
  idempotency_key = some "k1";
  budget = no_budget;
}

abbrev row_with : TaskRecord → TaskRow
row_with r = record { envelope = hello; task = r; result = none; updated_at = moment 1 }

abbrev db_with : TaskRecord → Db
db_with r = record empty_db { tasks = ("t1", row_with r) ∷ [] }

abbrev queued_task : TaskRecord
queued_task = record (new_record "t1") { status = queued; queued_at = some (moment 1) }

abbrev running_task : TaskRecord
running_task = record (new_record "t1") {
  status = running;
  started_at = some (moment 2);
  lease_owner = some "main:1";
  lease_expires_at = some (moment 9000);
}

abbrev as_leader : Change
as_leader = record no_change { lease_owner = some "main:1"; expected_status = some queued }

abbrev calls : List (ℕ × TaskCall)
calls = (5, changes "t1" completed no_change) ∷ (6, recovers true none 0) ∷ (7, deletes "t1") ∷ []

run-Survives_example :
    Survives (row_with running_task) (lookup "t1" (run (db_with running_task) calls).tasks)
    ⊎ WasDeleted "t1" (row_with running_task) (db_with running_task) calls
run-Survives_example = run-Survives calls (db_with running_task) "t1" (row_with running_task) refl

abbrev leased_pair : TaskRecord × Db
unfolding transition_task transition moved concat
leased_pair =
    or_else (transition_task 5 "t1" leased as_leader (db_with queued_task)) (queued_task, empty_db)

lease_once_example : transition_task 9 "t1" leased as_leader leased_pair.1 ≡ err value_error
unfolding transition_task leased_pair transition moved concat
lease_once_example =
    lease_once 5 9 "t1" as_leader as_leader (db_with queued_task) leased_pair.1 leased_pair.0 refl
      refl

abbrev leader_db : Db
unfolding try_acquire_lease transition moved concat
leader_db = (try_acquire_lease 5 "leader" "main:1" 3_000_000 empty_db).1

leader_exclusive_example :
    try_acquire_lease 1_000_000 "leader" "main:2" 3_000_000 leader_db ≡ (false, leader_db)
unfolding try_acquire_lease leader_db
leader_exclusive_example =
    leader_exclusive 5 1_000_000 "leader" "main:1" "main:2" 3_000_000 3_000_000 empty_db leader_db
      refl (λ h. absurd (let e : false ≡ true = (eq_iff "main:2" "main:1").1 h in cc)) (omega arith)

leader_handover_example :
    (try_acquire_lease 9_000_000 "leader" "main:2" 3_000_000 leader_db).0 ≡ true
unfolding try_acquire_lease leader_db
leader_handover_example =
    leader_handover 5 9_000_000 "leader" "main:1" "main:2" 3_000_000 3_000_000 empty_db leader_db
      refl (inr (omega arith))

abbrev released_pair : List (String × TaskRow) × Db
unfolding release_leases transition moved concat
released_pair = or_else (release_leases 5 (some "main:1") (db_with running_task)) ([], empty_db)

abbrev recovered_pair : List (String × TaskRow) × Db
unfolding recover_interrupted recover_eligible released_pair transition moved concat
recovered_pair =
    or_else (recover_interrupted 5000 true (some "main:2") 0 released_pair.1) ([], empty_db)

released_recovered_example :
    (row : TaskRow) × (lookup "t1" recovered_pair.1.tasks ≡ some row) × (row.task.status ≡ queued)
unfolding release_leases recover_interrupted recover_eligible released_pair recovered_pair
    transition moved concat
released_recovered_example =
    released_recovered 5 5000 (some "main:1") (some "main:2") "t1" (row_with running_task)
      (db_with running_task) released_pair.1 recovered_pair.1 released_pair.0 recovered_pair.0 refl
      refl refl refl (omega arith) refl

abbrev live_pair : List (String × TaskRow) × Db
unfolding recover_interrupted recover_eligible transition moved concat
live_pair =
    or_else (recover_interrupted 5000 true (some "main:2") 0 (db_with running_task)) ([], empty_db)

live_lease_kept_example : lookup "t1" live_pair.1.tasks ≡ some (row_with running_task)
unfolding recover_interrupted recover_eligible live_pair transition moved concat
live_lease_kept_example =
    live_lease_kept 5000 0 9000 true "main:2" "main:1" "t1" (row_with running_task)
      (db_with running_task) live_pair.1 live_pair.0 refl refl refl refl (omega arith) refl

abbrev created_triple : TaskRecord × Bool × Db
unfolding create_task find_duplicate ensure_session transition moved concat
created_triple = or_else (create_task 5 hello empty_db) (queued_task, false, empty_db)

create_task_twice_example :
    create_task 9 (record hello { task_id = "t2"; prompt = "again" }) created_triple.2
    ≡ ok (created_triple.0, false, created_triple.2)
unfolding create_task find_duplicate ensure_session created_triple transition moved concat
create_task_twice_example =
    create_task_twice 5 9 hello (record hello { task_id = "t2"; prompt = "again" }) "k1" empty_db
      created_triple.2 created_triple.0 created_triple.1 (refl, refl) (refl, refl) refl refl

abbrev ended_task : TaskRecord
unfolding moved transition concat
ended_task = moved running_task completed (moment 7) no_report

transition-IsClosed_example : IsClosed ended_task
unfolding transition ended_task moved concat
transition-IsClosed_example =
    transition-IsClosed running_task completed (moment 7) no_report
      (record { owner = λ h. absurd (cc); expiry = λ h. absurd (cc); finished = λ h. absurd (cc) })
      refl

transition-Evolves_example : Evolves running_task ended_task
unfolding transition ended_task moved concat
transition-Evolves_example = transition-Evolves running_task completed (moment 7) no_report refl

abbrev with_session : Db
with_session = record (db_with queued_task) {
  sessions = ("s1", first_session 5 "web:1") ∷ ("s2", first_session 5 "web:2") ∷ [];
}

referenced_kept_example :
    lookup "s1" (delete_stale_sessions (moment 9_000_000) with_session).1.sessions
    ≡ some (first_session 5 "web:1")
referenced_kept_example =
    referenced_kept (moment 9_000_000) with_session "s1" (first_session 5 "web:1") refl refl
