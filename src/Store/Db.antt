-- ===== src/Store/Db.antt =====
-- core/runtime/sqlite_store.py: the tables, as lists of rows under their primary keys. A row holds
-- what the JSON column of the source's row holds; its indexed columns repeat parts of that. An
-- event keeps its type and the ids that it names, and neither its own id nor its data.
use learn_agent.Prelude.{
  ℕ, String, Option, none, some, List, [], ◌++◌, Iso, utc_now, lookup, insert, any, ◌==◌, ◌&&◌, not,
  Result, ok, err, integrity_error, if◌then◌else◌,
}
use learn_agent.Runtime.Task.{TaskEnvelope, TaskRecord, TaskResult}
use learn_agent.Goal.Model.{Goal}
use learn_agent.Plan.Model.{Plan}

pub record Session : Type 0 where
  pub session_key : String
  pub channel : String
  pub status : String
  pub active_goal_id : Option String
  pub active_plan_id : Option String
  pub team_id : Option String
  pub parent_session_id : Option String
  pub origin : String
  pub subagent_mode : Option String
  pub updated_at : Iso

pub record TaskRow : Type 0 where
  pub envelope : TaskEnvelope
  pub task : TaskRecord
  pub result : Option TaskResult
  pub updated_at : Iso

pub record Event : Type 0 where
  pub event_type : String
  pub session_id : Option String
  pub task_id : Option String

-- What links an artifact to the records that refer to it.
pub record Artifact : Type 0 where
  pub session_id : String
  pub goal_id : Option String
  pub plan_id : Option String
  pub plan_task_id : Option String
  pub team_id : Option String
  pub child_session_id : Option String

pub record Lease : Type 0 where
  pub holder : String
  pub expires_at : ℕ
  pub updated_at : ℕ

pub record Db : Type 0 where
  pub sessions : List (String × Session)
  pub tasks : List (String × TaskRow)
  pub events : List Event
  pub goals : List (String × Goal)
  pub plans : List (String × Plan)
  pub artifacts : List (String × Artifact)
  -- team_id with the goal, agent_id with the team, message_id with the team
  pub teams : List (String × Option String)
  pub team_members : List (String × String)
  pub team_messages : List (String × String)
  -- delivery_id with the task
  pub deliveries : List (String × String)
  pub leases : List (String × Lease)

abbrev pub empty_db : Db
empty_db = record {
  sessions = [];
  tasks = [];
  events = [];
  goals = [];
  plans = [];
  artifacts = [];
  teams = [];
  team_members = [];
  team_messages = [];
  deliveries = [];
  leases = [];
}

-- An event about a task of a session.
abbrev pub task_event : String → TaskEnvelope → Event
task_event type e = record {
  event_type = type;
  session_id = some e.session_id;
  task_id = some e.task_id;
}

-- _insert_event_in_connection
abbrev pub append_events : List Event → Db → Db
append_events es db = record db { events = db.events ++ es }

-- The columns of a session that is inserted by its id and key alone.
abbrev pub first_session : ℕ → String → Session
first_session clock key = record {
  session_key = key;
  channel = "";
  status = "active";
  active_goal_id = none;
  active_plan_id = none;
  team_id = none;
  parent_session_id = none;
  origin = "gateway";
  subagent_mode = none;
  updated_at = utc_now clock;
}

-- _upsert_session_in_connection: a session that exists is left alone; the key of another session
-- breaks the UNIQUE constraint of the column.
unfoldable pub ensure_session : ℕ → String → String → Db → Result Db
ensure_session clock id key db = elim (lookup id db.sessions) [
  | some s ↦ ok db
  | none ↦
      if any (λ row. row.1.session_key == key) db.sessions
      then err integrity_error
      else ok (record db { sessions = insert id (first_session clock key) db.sessions })
]

-- COALESCE(new, old)
abbrev either : Option String → Option String → Option String
either none old = old
either (some new) old = some new

-- RuntimeStore.upsert_session, with the arguments as a row: an absent parent or mode keeps the old.
unfoldable pub upsert_session : ℕ → String → Session → Db → Result Db
upsert_session clock id s db =
    if any (λ row. row.1.session_key == s.session_key && not (row.0 == id)) db.sessions
    then err integrity_error
    else ok (record db { sessions = insert id (merge (lookup id db.sessions)) db.sessions })
  where
    merge : Option Session → Session
    merge none = record s { updated_at = utc_now clock }
    merge (some old) = record s {
      parent_session_id = either s.parent_session_id old.parent_session_id;
      subagent_mode = either s.subagent_mode old.subagent_mode;
      updated_at = utc_now clock;
    }
