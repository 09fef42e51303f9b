-- ===== src/Conversation/Service/Events.antt =====
-- gateway/conversation/service.py: events, and their way through the outbox to the broadcast.
use learn_agent.Prelude.{
  ℕ, String, Option, none, some, List, [], ◌∷◌, ◌++◌, Bool, ◌==◌, if◌then◌else◌, Result, ok, ◌>>=◌,
  concat,
}
use learn_agent.Conversation.Model.{
  ConversationSession, Payload, Tables, Datum, queue, Outcome, words, plain,
}
use learn_agent.Conversation.Store.Turns.{bump_session_version}
use learn_agent.Conversation.Store.Queue.{list_active_queue}
use learn_agent.Conversation.Store.Outbox.{append_outbox, mark_outbox_published}
use learn_agent.Conversation.Store.Records.{check_idempotency, record_idempotency}

-- The events of a transaction, with the ids of their rows.
abbrev pub Pending : Type 0
Pending = List (String × Payload × String)

-- default_execution_scope
abbrev pub default_execution_scope : String → String → Option String → String
default_execution_scope origin subtype workspace =
    let system = if origin == "system" then concat "system:" subtype else "gateway:default" in
    elim workspace [
      | none ↦ system
      | some id ↦
          if subtype == "workspace"
          then (if id == "" then system else concat "workspace:" id)
          else system
    ]

-- _event
abbrev pub event_of :
    ConversationSession → String → ℕ → Option String → List (String × Datum) → Payload
event_of conv scope version turn data_of = record {
  conversation_id = conv.conversation_id;
  session_key = conv.session_key;
  origin = conv.origin;
  subtype = conv.subtype;
  workspace_id = conv.workspace_id;
  scope = scope;
  version = version;
  turn_id = turn;
  data_of = data_of;
}

-- _append_and_emit: the row of the outbox, and the event to broadcast
unfoldable pub append_and_emit :
    ℕ
    → String
    → ConversationSession
    → String
    → String
    → ℕ
    → Option String
    → List (String × Datum)
    → Pending × Tables
    → Result (Pending × Tables)
append_and_emit clock token conv event_type scope version turn data_of (events, db) = do
  let payload = event_of conv scope version turn data_of
  (id, db₁) ← append_outbox clock token conv.conversation_id event_type scope version payload db
  ok (events ++ ((event_type, payload, id) ∷ []), db₁)

-- bump_session_version and the event queue.updated, with the active queue as it then is
unfoldable pub queue_updated :
    ℕ
    → String
    → ConversationSession
    → List (String × Datum)
    → Pending × Tables
    → Result (Pending × Tables)
queue_updated clock token conv data_of (events, db) =
    let (version, db₁) = bump_session_version clock conv.conversation_id db in
    append_and_emit clock token conv "queue.updated" "session" version none
      (data_of ++ (("queue", queue (list_active_queue conv.conversation_id db₁)) ∷ []))
      (events, db₁)

-- _emit: `publish` says whether the callback returned; the ids that it did are marked later
unfoldable pub emit :
    (String → Payload → Bool) → String × Payload × String → List String → List String
emit publish (event_type, payload, id) published =
    if publish event_type payload then published ++ (id ∷ []) else published

unfoldable pub emit_all : (String → Payload → Bool) → Pending → List String → List String
emit_all publish [] published = published
emit_all publish (event ∷ events) published = emit_all publish events (emit publish event published)

-- flush_outbox_published, where its transaction commits
unfoldable pub flush_outbox_published : ℕ → List String → Tables → Tables
flush_outbox_published clock [] db = db
flush_outbox_published clock (id ∷ ids) db =
    flush_outbox_published clock ids (mark_outbox_published clock id db)

-- The payloads that _request_hash is taken of.
pub data Request : Type 0 where
  to_enqueue : String → Request
  to_send : String → Request
  to_edit : String → Option String → ℕ → Request
  to_stop : Request

-- `if operation_id: check_idempotency(...)`
unfoldable pub recorded : Option String → String → Tables → Result (Option Outcome)
recorded none hash db = ok none
recorded (some operation) hash db =
    if operation == "" then ok none else check_idempotency operation hash db

-- `if operation_id: record_idempotency(...)`
unfoldable pub remember : ℕ → Option String → String → String → Outcome → Tables → Result Tables
remember clock none conversation hash outcome db = ok db
remember clock (some operation) conversation hash outcome db =
    if operation == ""
    then ok db
    else record_idempotency clock operation conversation hash outcome db

abbrev pub text_or_absent : Option String → Datum
text_or_absent none = Datum.absent
text_or_absent (some t) = plain (words t)
