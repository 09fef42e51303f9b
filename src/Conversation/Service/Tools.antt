-- ===== src/Conversation/Service/Tools.antt =====
-- gateway/conversation/service.py: upsert_tool_node, the card of one tool call, and record_delivery.
pub mod Merging
pub mod Columns
use learn_agent.Prelude.{
  ℕ, String, Option, none, some, List, [], ◌∷◌, ◌++◌, if◌then◌else◌, lookup, insert, Result, ok,
  eqb, ◌>>=◌, ◌>>◌, concat, prefix,
}
use learn_agent.Conversation.NodeType.{tool}
use learn_agent.Conversation.Model.{
  ConversationSession, TurnNode, Tables, Datum, plain, words, amount, Metadata, merge, absent,
}
use learn_agent.Conversation.Store.Turns.{get_conversation, bump_turn_version}
use learn_agent.Conversation.Store.Nodes.{plain_node, create_node, update_node, truth, set_default}
use learn_agent.Conversation.Service.Events.{Pending, append_and_emit, text_or_absent}
use learn_agent.Conversation.Service.Turns.{assert_turn_owned, position_data}

-- The optional arguments of upsert_tool_node: what one event says of a call.
pub record ToolEvent : Type 0 where
  pub status : String
  pub params_summary : Option String
  pub result_summary : Option String
  pub error : Option String
  pub error_code : Option String
  pub error_message : Option String
  pub result_ref : Option String
  pub result_size_bytes : ℕ
  pub tool_name : Option String
  pub extra_metadata : Metadata

-- `if value is not None: metadata[key] = value`
abbrev pub given : String → Option String → Metadata
given key none = []
given key (some t) = (key, words t) ∷ []

-- `if result_size_bytes: ...`
abbrev pub sized : ℕ → Metadata
sized n = if eqb n 0 then [] else ("result_size_bytes", amount n) ∷ []

-- The fields that an event writes, in the order of their writing.
unfoldable pub fields_of : ToolEvent → Metadata
fields_of e =
    given "tool" e.tool_name
    ++ given "params_summary" e.params_summary
    ++ given "result_summary" e.result_summary
    ++ given "error" e.error
    ++ given "error_code" e.error_code
    ++ given "error_message" e.error_message
    ++ given "result_ref" e.result_ref
    ++ sized e.result_size_bytes
    ++ e.extra_metadata

-- metadata.get(key) or other
abbrev or_else : String → Datum → Metadata → Datum
or_else key other m = elim (lookup key m) [
  | none ↦ other
  | some v ↦ if truth v then plain v else other
]

abbrev pub tool_data : TurnNode → String → ToolEvent → Metadata → List (String × Datum)
tool_data node call_id e m =
    ("node_id", plain (words node.node_id))
    ∷ ("call_id", plain (words call_id))
    ∷ ("status", plain (words e.status))
    ∷ ("result_ref", text_or_absent e.result_ref)
    ∷ ("tool", or_else "tool" (plain (words "")) m)
    ∷ ("params_summary", or_else "params_summary" (plain (words "")) m)
    ∷ ("result_summary", or_else "result_summary" (plain (words "")) m)
    ∷ ("error", or_else "error" absent m)
    ∷ ("error_code", or_else "error_code" absent m)
    ∷ ("position", position_data node)
    ∷ []

abbrev or_empty : Option String → String
or_empty none = ""
or_empty (some t) = t

-- The node is found under the id that the call gives, and its metadata is merged; or it is created.
unfoldable pub write_tool :
    ℕ
    → String
    → String
    → String
    → String
    → ToolEvent
    → Tables
    → Result (TurnNode × Metadata × Tables)
write_tool clock conversation turn call_id id e db = elim (lookup id db.nodes) [
  | some old ↦ do
    let m = merge (set_default "call_id" (words call_id) old.metadata) (fields_of e)
    (node, db₁) ←
        update_node clock id (record { body = none; status = some e.status; metadata = some m }) db
    ok (node, m, db₁)
  | none ↦ do
    let m = merge (("call_id", words call_id) ∷ []) (fields_of e)
    let new = record (plain_node tool e.status (some turn) (some (or_empty e.params_summary))) {
      metadata = m;
      node_id = some id;
    }
    (node, db₁) ← create_node clock "" conversation new db
    ok (node, m, db₁)
]

module _ (digest : String → String) where
  -- `digest` is the hexadecimal sha256 of a text
  abbrev pub gen_node_id_from_call : String → String → String
  gen_node_id_from_call call_id conversation =
      concat "node_" (prefix 24 (digest (concat conversation (concat ":" call_id))))

  unfoldable pub upsert_tool_node :
      ℕ
      → (ℕ → String)
      → String
      → String
      → String
      → ToolEvent
      → Tables
      → Result (TurnNode × Pending × Tables)
  upsert_tool_node clock ids conversation turn call_id e db = do
    conv ← get_conversation conversation db
    assert_turn_owned conversation turn db
    (node, m, db₁) ←
        write_tool clock conversation turn call_id (gen_node_id_from_call call_id conversation) e db
    let (version, db₂) = bump_turn_version turn db₁
    (events, db₃) ←
        append_and_emit clock (ids 0) conv "node.tool" "turn" version (some turn)
          (tool_data node call_id e m) ([], db₂)
    ok (node, events, db₃)

-- record_delivery: an event in the outbox and nothing else
unfoldable pub record_delivery :
    ℕ
    → (ℕ → String)
    → String
    → String
    → String
    → String
    → String
    → ℕ
    → Tables
    → Result (Pending × Tables)
record_delivery clock ids conversation turn channel message_id state version db = do
  conv ← get_conversation conversation db
  assert_turn_owned conversation turn db
  append_and_emit clock (ids 0) conv "delivery.status" "delivery" version (some turn)
      (("channel", plain (words channel))
        ∷ ("message_id", plain (words message_id))
        ∷ ("state", plain (words state))
        ∷ [])
      ([], db)
