-- ===== src/Conversation/Service/Turns.antt =====
-- gateway/conversation/service.py: the life of a turn and of its nodes.
use learn_agent.Prelude.{
  ℕ, suc, ◌+◌, String, Option, none, some, List, [], ◌∷◌, Bool, true, false, ◌==◌, if◌then◌else◌,
  Result, ok, err, guard, turn_not_found, ◌>>=◌, ◌>>◌, text_length,
}
use learn_agent.Conversation.TurnStatus.{TurnStatus}
use learn_agent.Conversation.NodeType.{TurnNodeType}
use learn_agent.Conversation.Model.{
  ConversationSession, Turn, TurnNode, Tables, Datum, plain, words, flag, amount, turn_state, kind,
  Metadata, merge, absent,
}
use learn_agent.Conversation.Store.Turns.{
  TurnEnd, get_conversation, get_turn, update_turn_status, bump_turn_version,
}
use learn_agent.Conversation.Store.Nodes.{
  NewNode, plain_node, create_node, find_last_node_id, append_node_text, update_node,
  get_last_turn_node, set_node_status, has,
}
use learn_agent.Conversation.Service.Events.{Pending, append_and_emit, text_or_absent}

-- _assert_turn_owned
unfoldable pub assert_turn_owned : String → String → Tables → Result (Unit {0})
assert_turn_owned conversation id db = do
  turn ← get_turn id db
  guard (turn.conversation_id == conversation) turn_not_found

abbrev pub with_error : Option String → TurnEnd
with_error code = record { error_code = code; finished_at = none; final_assistant_node_id = none }

abbrev pub status_data : Turn → List (String × Datum)
status_data turn =
    ("status", turn_state turn.status) ∷ ("error_code", text_or_absent turn.error_code) ∷ []

unfoldable pub set_turn_status :
    ℕ
    → (ℕ → String)
    → String
    → String
    → TurnStatus
    → Option String
    → Tables
    → Result (Turn × Pending × Tables)
set_turn_status clock ids conversation id status code db = do
  conv ← get_conversation conversation db
  assert_turn_owned conversation id db
  (turn, db₁) ← update_turn_status id status (with_error code) db
  (events, db₂) ←
      append_and_emit clock (ids 0) conv "turn.status" "turn" turn.turn_version (some id)
        (status_data turn) ([], db₁)
  ok (turn, events, db₂)

abbrev pub position_data : TurnNode → Datum
position_data node = elim node.position [ none ↦ absent | some p ↦ plain (amount p) ]

-- The arguments of a delta that starts a node.
pub record Origin : Type 0 where
  pub metadata : Metadata
  pub source_channel : Option String
  pub source_message_id : Option String
  pub sender_id : Option String
  pub sender_name : Option String

abbrev pub no_origin : Origin
no_origin = record {
  metadata = [];
  source_channel = none;
  source_message_id = none;
  sender_id = none;
  sender_name = none;
}

abbrev streaming_node : String → TurnNodeType → String → Origin → NewNode
streaming_node turn type_of delta origin =
    record (plain_node type_of "streaming" (some turn) (some delta)) {
      metadata = origin.metadata;
      source_channel = origin.source_channel;
      source_message_id = origin.source_message_id;
      sender_id = origin.sender_id;
      sender_name = origin.sender_name;
    }

-- The node that a delta goes to, if it continues one.
abbrev pub continued : Bool → String → TurnNodeType → Tables → Option String
continued continue_existing turn type_of db =
    if continue_existing then find_last_node_id turn type_of db else none

-- The delta is appended to the last node of its type, or starts a node; with the node, its seq.
unfoldable pub write_delta :
    ℕ
    → String
    → String
    → String
    → TurnNodeType
    → String
    → Bool
    → Origin
    → Tables
    → Result (TurnNode × ℕ × Tables)
write_delta clock token conversation turn type_of delta continue_existing origin db =
    elim (continued continue_existing turn type_of db) [
      | some id ↦ do (node, db₁) ← append_node_text clock id delta db; ok (node, node.text_seq, db₁)
      | none ↦ do
        (node, db₁) ←
            create_node clock token conversation (streaming_node turn type_of delta origin) db
        ok (node, 1, db₁)
    ]

abbrev delta_data : TurnNode → TurnNodeType → String → ℕ → List (String × Datum)
delta_data node type_of delta seq =
    ("node_id", plain (words node.node_id))
    ∷ ("type", kind type_of)
    ∷ ("delta", plain (words delta))
    ∷ ("seq", plain (amount seq))
    ∷ ("text_len", plain (amount (text_length delta)))
    ∷ ("status", plain (words node.status))
    ∷ ("position", position_data node)
    ∷ []

-- One delta in a transaction: the node, the turn's version and the event node.delta.
unfoldable pub put_delta :
    ℕ
    → String
    → String
    → ConversationSession
    → String
    → TurnNodeType
    → String
    → Bool
    → Origin
    → Pending × Tables
    → Result (TurnNode × Pending × Tables)
put_delta clock token event_token conv turn type_of delta continue_existing origin (events, db) = do
  (node, seq, db₁) ←
      write_delta clock token conv.conversation_id turn type_of delta continue_existing origin db
  let (version, db₂) = bump_turn_version turn db₁
  (more, db₃) ←
      append_and_emit clock event_token conv "node.delta" "turn" version (some turn)
        (delta_data node type_of delta seq) (events, db₂)
  ok (node, more, db₃)

unfoldable pub upsert_node_delta :
    ℕ
    → (ℕ → String)
    → String
    → String
    → TurnNodeType
    → String
    → Bool
    → Origin
    → Tables
    → Result (TurnNode × Pending × Tables)
upsert_node_delta clock ids conversation turn type_of delta continue_existing origin db = do
  conv ← get_conversation conversation db
  assert_turn_owned conversation turn db
  put_delta clock (ids 0) (ids 1) conv turn type_of delta continue_existing origin ([], db)

-- A key of a batch of deltas.
pub record Delta : Type 0 where
  pub conversation_id : String
  pub turn_id : String
  pub node_type : TurnNodeType
  pub body : String

-- Is the turn of the delta there, and its conversation's? A stale key is passed over.
abbrev pub is_current : Delta → Tables → Bool
is_current delta db = elim (get_turn delta.turn_id db) [
  | err problem ↦ false
  | ok turn ↦ turn.conversation_id == delta.conversation_id
]

-- upsert_node_deltas: the number of keys written. `n` counts the ids used.
unfoldable pub upsert_node_deltas :
    ℕ → (ℕ → String) → ℕ → List Delta → Pending × Tables → Result (ℕ × Pending × Tables)
upsert_node_deltas clock ids n [] (events, db) = ok (0, events, db)
upsert_node_deltas clock ids n (delta ∷ deltas) (events, db) =
    if is_current delta db
    then (do
      conv ← get_conversation delta.conversation_id db
      (node, events₁, db₁) ←
          put_delta clock (ids n) (ids (n + 1)) conv delta.turn_id delta.node_type delta.body true
            no_origin (events, db)
      (written, events₂, db₂) ← upsert_node_deltas clock ids (n + 2) deltas (events₁, db₁)
      ok (suc written, events₂, db₂))
    else upsert_node_deltas clock ids n deltas (events, db)

-- The end of a streaming node, marked as intermediate on request.
unfoldable pub close_node : ℕ → TurnNode → Bool → Tables → Result (TurnNode × Tables)
close_node clock node mark_intermediate db =
    if mark_intermediate
    then update_node clock node.node_id
        (record {
          body = none;
          status = some "done";
          metadata = some (merge node.metadata (("intermediate", flag true) ∷ []));
        })
        db
    else set_node_status clock node.node_id "done" db

abbrev body_of : TurnNode → String
body_of node = elim node.body [ none ↦ "" | some t ↦ t ]

-- finalize_node; `text_seq` reads 0 where the node comes from update_node
unfoldable pub finalize_node :
    ℕ
    → (ℕ → String)
    → String
    → String
    → TurnNodeType
    → Bool
    → Tables
    → Result (Option TurnNode × Pending × Tables)
finalize_node clock ids conversation turn type_of mark_intermediate db = do
  conv ← get_conversation conversation db
  assert_turn_owned conversation turn db
  elim (get_last_turn_node turn type_of db) [
    | none ↦ ok (none, [], db)
    | some node ↦
        if node.status == "streaming"
        then (do
          (closed, db₁) ← close_node clock node mark_intermediate db
          let (version, db₂) = bump_turn_version turn db₁
          let data_of =
              ("node_id", plain (words closed.node_id))
              ∷ ("type", kind type_of)
              ∷ ("text", plain (words (body_of closed)))
              ∷ ("status", plain (words "done"))
              ∷ ("seq", plain (amount (if mark_intermediate then 0 else closed.text_seq)))
              ∷ ("intermediate", plain (flag (has "intermediate" closed.metadata)))
              ∷ []
          (events, db₃) ←
              append_and_emit clock (ids 0) conv "node.delta" "turn" version (some turn) data_of
                ([], db₂)
          ok (some closed, events, db₃))
        else ok (none, [], db)
  ]
