-- ===== src/Lib.antt =====
-- A model of the durable core of learn-agent: tasks, goals, plans, permissions and conversations.
--
-- The program runs agents over one SQLite database that several gateway instances may share. A
-- message enters the queue of its conversation and is sent as a turn, whose nodes the frontends
-- show; work that outlives a turn becomes a task. Tasks are leased, run, retried, interrupted and
-- recovered. A goal turns into rounds, each of which is a task; a plan is a graph of tasks that a
-- goal may own. Every tool call passes the permission policy. The files and what they model:
--
-- - Prelude and its children: lists, tables under a key, results with the exception classes, times
--   and texts. A time is a reading of the clock in microseconds (Iso); utc_now
--   (core/runtime/models.py) cuts it to milliseconds.
-- - Runtime: core/runtime/models.py. Runtime/Status has TaskStatus and the table of transitions,
--   Runtime/Task the envelope, the record and TaskRecord.transition, Runtime/Budget the ceilings
--   and Budget.strictest, Runtime/Cancellation the tokens of core/runtime/cancellation.py, where
--   each section under a lock is one step. Runtime/Task/Lifecycle, Runtime/Budget/Strictest and
--   Runtime/Cancellation/Dispatch hold the proofs.
-- - Store: core/runtime/sqlite_store.py. Store/Db has the tables as lists of rows under their
--   primary keys, and every transaction of RuntimeStore that is modelled is a function of a
--   database, under the method's name: Store/Tasks (create_task, transition_task,
--   increment_attempt, request_cancel, delete_terminal_task), Store/Recovery (_recover_eligible,
--   the four passes over the task table and the leader lease), Store/Goals, Store/Plans. A
--   transaction that raises rolls back, so that it gives an error and no database. The order of
--   rows is that of insertion; the passes take it as the order in which SQLite answers. A stored
--   time is never an empty text, so that the time of a row is given exactly if it is not None;
--   try_acquire_lease has one reading of the clock for its two. Store/History has sequences of
--   calls of any instances, deletion included; Store/Rows, Store/Passes and Store/Sweep describe
--   what one pass does to one row.
-- - Goal: core/goal/models.py and core/goal/runtime.py. Goal/Runtime has every operation of
--   GoalRuntime on one goal, over a World: the database and what was published. An operation reads
--   the goal (_require_version) and saves it in two transactions of the store, and the save does
--   not look at the version again; here no other writer comes in between. Goal/Runtime/Calls has
--   the operations but `archive` as one type of calls, Goal/Runtime/Calls/Operations adds
--   `archive`, and Goal/Runtime/History has sequences with creation and archiving. The verdict of
--   the quality gate enters `complete` as an optional truth value.
-- - Plan: core/plan/models.py and core/plan/manager.py. Plan/Dag is _validate_dag, a depth-first
--   walk on fuel: one more than the number of nodes is enough where the graph has no cycle.
--   Plan/Raw builds tasks from a raw plan. Plan/Manager has PlanManager; the loop of
--   _block_downstream runs on the fuel n + (n + 1) * n for n tasks, since every turn takes an id
--   off its set and only one that blocks a task adds any.
-- - Policy: core/policy_engine.py. str.lower, the dangerous patterns, the paths in a command and
--   the tests of resolved paths come as the functions of a record, Surroundings.
-- - Conversation: gateway/conversation. Conversation/Model has the records of models.py and the
--   tables (Tables); Conversation/Store the transactions of store.py, under the methods' names;
--   Conversation/Service the operations of service.py, which give the events to publish after the
--   commit (Pending) beside the new tables (Sending with Images for send_next, Completion and
--   Stopping for the ends of a turn); Conversation/Publisher is outbox.py. Conversation/Activity
--   bounds what each operation does to the number of active turns, and has the histories of calls,
--   which count the statuses written over turns that had ended; a step of a history that is none of
--   the calls listed there (`others`) makes no conversation's active turns more. Where a store and
--   a service method share a name the service's is clear_all (clear_history), decide_approval
--   (resolve_approval), undo_delete_item and move_item. All ids of a call come from a sequence,
--   `ids`, for token_hex; `clock` is its one reading of the clock. `request_hash`, the image store
--   and the publishing callback are parameters, and so are SQLite's row numbers and the digest in a
--   tool's id. send_next, start_turn and request_stop read before the transaction has its lock:
--   they take those reads from other tables, `seen`, than the ones they write.
-- - TextUtil: split_text of gateway/textutil.py, whose loop runs on one more turn than the text has
--   characters.
-- - Examples: the models run on concrete data.
--
-- The components meet in the store: goals save goals and mark tasks cancelled, plans save plans,
-- and both enter the sessions that point at them. The conversation service appends to the outbox in
-- the transaction that changes a turn or a queue, and the publisher delivers what was not.
-- `progress` of a goal is in thousandths, weights of plan tasks are integers, and free-form
-- metadata of tasks, goals and plans is left out.
--
-- Not modelled: the schema and its migrations, foreign keys, backups and connections (SQL text and
-- I/O), the lists of conversations and tasks, preferences of a conversation, the checks of an image
-- envelope, teams, the interleavings of pause_async, the plan executor, the goal driver, the task
-- runtime, the checks of core/sandbox/guard.py, and everything that is network, prompts or user
-- interface.
pub mod Prelude
pub mod Conversation
pub mod TextUtil
pub mod Runtime
pub mod Goal
pub mod Plan
pub mod Store
pub mod Policy
pub mod Examples
