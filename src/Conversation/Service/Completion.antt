-- ===== src/Conversation/Service/Completion.antt =====
-- gateway/conversation/service.py: the end of a turn, the replies of background runs, and stopping.
pub mod Quiet
pub mod Settled
use learn_agent.Prelude.{
  ℕ, suc, ◌+◌, String, Option, none, some, List, [], ◌∷◌, ◌++◌, Bool, true, false, not, ◌&&◌, ◌||◌,
  ◌==◌, if◌then◌else◌, millis, lookup, insert, keep, values, Result, ok, err, guard, require,
  turn_not_found, key_error, ◌>>=◌, ◌>>◌, is_some, text_length,
}
use learn_agent.Conversation.TurnStatus.{TurnStatus, stopping, is_terminal, is_abort, is_done}
use learn_agent.Conversation.NodeType.{assistant}
use learn_agent.Conversation.ApprovalStatus.{cancelled}
use learn_agent.Conversation.Model.{
  ConversationSession, Turn, TurnNode, Approval, Tables, Datum, plain, words, flag, amount,
  turn_state, approval_state, kind, Value, Metadata, merge, absent,
}
use learn_agent.Conversation.Store.Turns.{
  TurnEnd, get_conversation, get_turn, get_active_turn, update_turn_status, bump_turn_version,
  no_end,
}
use learn_agent.Conversation.Store.Nodes.{
  NewNode, plain_node, create_node, update_node, get_last_turn_node, finalize_turn_nodes,
  sweep_running_tool_nodes, has,
}
use learn_agent.Conversation.Store.Approvals.{pending_in, cancel_pending}
use learn_agent.Conversation.Service.Events.{
  Pending, Request, to_stop, recorded, remember, append_and_emit, text_or_absent,
}
use learn_agent.Conversation.Service.Sending.{turn_outcome}
use learn_agent.Conversation.Service.Turns.{assert_turn_owned, status_data, position_data}

abbrev pub sweep_note : String
sweep_note = "工具调用未返回（轮次已停止/超时/中断），已自动收口"

-- metadata.get(key) or ""
abbrev word_of : String → Metadata → String
word_of key m = elim (lookup key m) [ some (words t) ↦ t | _ ↦ "" ]

-- Has the node been classified before?
abbrev is_classified : Metadata → Bool
is_classified m =
    is_some (lookup "intermediate" m) || is_some (lookup "final" m) || has "runtime_final" m

-- The answer of a finished turn, over the streamed text of its last assistant node.
unfoldable pub final_node :
    ℕ
    → String
    → String
    → String
    → TurnStatus
    → Option String
    → Tables
    → Result (Option String × Tables)
final_node clock token conversation turn status none db = ok (none, db)
final_node clock token conversation turn status (some full_text) db =
    if is_done status
    then elim (get_last_turn_node turn assistant db) [
      | none ↦ do
        let new = record (plain_node assistant "done" (some turn) (some full_text)) {
          metadata = ("final", flag true) ∷ [];
        }
        (node, db₁) ← create_node clock token conversation new db
        ok (some node.node_id, db₁)
      | some node ↦ do
        let marked = merge node.metadata (("final", flag true) ∷ ("intermediate", flag false) ∷ [])
        (closed, db₁) ←
            update_node clock node.node_id
              (record {
                body = some full_text;
                status = some "done";
                metadata = if is_classified node.metadata then none else some marked;
              })
              db
        ok (some closed.node_id, db₁)
    ]
    else ok (none, db)

abbrev swept_data : TurnNode → List (String × Datum)
swept_data node =
    ("node_id", plain (words node.node_id))
    ∷ ("call_id", plain (words (word_of "call_id" node.metadata)))
    ∷ ("status", plain (words "error"))
    ∷ ("result_ref", absent)
    ∷ ("tool", plain (words (word_of "tool" node.metadata)))
    ∷ ("params_summary", plain (words (word_of "params_summary" node.metadata)))
    ∷ ("result_summary", plain (words sweep_note))
    ∷ ("error", plain (words sweep_note))
    ∷ ("error_code", plain (words "tool_no_return"))
    ∷ ("position", position_data node)
    ∷ []

-- An event node.tool for every tool that was closed. `n` counts the ids used.
unfoldable pub announce_swept :
    ℕ
    → (ℕ → String)
    → ℕ
    → ConversationSession
    → Turn
    → List TurnNode
    → Pending × Tables
    → Result (ℕ × Pending × Tables)
announce_swept clock ids n conv turn [] (events, db) = ok (n, events, db)
announce_swept clock ids n conv turn (node ∷ nodes) (events, db) = do
  (events₁, db₁) ←
      append_and_emit clock (ids n) conv "node.tool" "turn" turn.turn_version (some turn.turn_id)
        (swept_data node) (events, db)
  announce_swept clock ids (n + 1) conv turn nodes (events₁, db₁)

abbrev cancelled_data : Approval → List (String × Datum)
cancelled_data approval =
    ("approval_id", plain (words approval.approval_id))
    ∷ ("status", approval_state cancelled)
    ∷ ("tool_name", plain (words approval.tool_name))
    ∷ ("error_code", plain (words "approval_cancelled"))
    ∷ ("reason", plain (words "turn_terminal"))
    ∷ []

-- An event approval.resolved for every approval that was cancelled.
unfoldable pub announce_cancelled :
    ℕ
    → (ℕ → String)
    → ℕ
    → ConversationSession
    → Turn
    → List Approval
    → Pending × Tables
    → Result (ℕ × Pending × Tables)
announce_cancelled clock ids n conv turn [] (events, db) = ok (n, events, db)
announce_cancelled clock ids n conv turn (approval ∷ rest) (events, db) = do
  (events₁, db₁) ←
      append_and_emit clock (ids n) conv "approval.resolved" "turn" turn.turn_version
        (some turn.turn_id) (cancelled_data approval) (events, db)
  announce_cancelled clock ids (n + 1) conv turn rest (events₁, db₁)

-- The pending approvals of a turn are cancelled, each with its event.
unfoldable pub cancel_approvals :
    ℕ
    → (ℕ → String)
    → ℕ
    → ConversationSession
    → Turn
    → Pending × Tables
    → Result (ℕ × Pending × Tables)
cancel_approvals clock ids n conv turn (events, db) =
    let rows = keep (pending_in conv.conversation_id turn.turn_id) (values db.approvals) in
    announce_cancelled clock ids n conv turn rows
      (events, cancel_pending clock conv.conversation_id turn.turn_id db)

-- Only a turn that ends without an answer has its approvals cancelled.
unfoldable pub cancel_if_abort :
    ℕ
    → (ℕ → String)
    → ℕ
    → ConversationSession
    → Turn
    → TurnStatus
    → Pending × Tables
    → Result (ℕ × Pending × Tables)
cancel_if_abort clock ids n conv turn status (events, db) =
    if is_abort status
    then cancel_approvals clock ids n conv turn (events, db)
    else ok (n, events, db)

abbrev done_data : Turn → String → Option String → List (String × Datum)
done_data turn full_text node =
    ("full_text", plain (words full_text))
    ∷ ("full_text_len", plain (amount (text_length full_text)))
    ∷ ("final_assistant_node_id", text_or_absent node)
    ∷ ("status", turn_state turn.status)
    ∷ ("error_code", text_or_absent turn.error_code)
    ∷ []

abbrev full_text_of : Option String → String
full_text_of none = ""
full_text_of (some t) = t

-- The row of the turn and its nodes: the answer, the status, streamed nodes and running tools.
unfoldable pub end_turn :
    ℕ
    → String
    → ConversationSession
    → String
    → TurnStatus
    → Option String
    → Option String
    → Tables
    → Result ((Turn × List TurnNode × Option String) × Tables)
end_turn clock token conv id status full_text code db = do
  (node, db₁) ← final_node clock token conv.conversation_id id status full_text db
  let end : TurnEnd = record {
    error_code = code;
    finished_at = some (millis clock);
    final_assistant_node_id = node;
  }
  (turn, db₂) ← update_turn_status id status end db₁
  let (count, db₃) = finalize_turn_nodes clock id db₂
  let (swept, db₄) = sweep_running_tool_nodes clock id sweep_note "tool_no_return" db₃
  ok ((turn, swept, node), db₄)

-- complete_turn of a turn that has not ended
unfoldable pub finish_turn :
    ℕ
    → (ℕ → String)
    → ConversationSession
    → String
    → TurnStatus
    → Option String
    → Option String
    → Tables
    → Result (Turn × Pending × Tables)
finish_turn clock ids conv id status full_text code db = do
  ((turn, swept, node), db₁) ← end_turn clock (ids 0) conv id status full_text code db
  (n, events, db₂) ← announce_swept clock ids 3 conv turn swept ([], db₁)
  (m, events₁, db₃) ← cancel_if_abort clock ids n conv turn status (events, db₂)
  (events₂, db₄) ←
      append_and_emit clock (ids 1) conv "turn.status" "turn" turn.turn_version (some id)
        (status_data turn) (events₁, db₃)
  (events₃, db₅) ←
      append_and_emit clock (ids 2) conv "chat.done" "turn" turn.turn_version (some id)
        (done_data turn (full_text_of full_text) node) (events₂, db₄)
  ok (turn, events₃, db₅)

unfoldable pub complete_turn :
    ℕ
    → (ℕ → String)
    → String
    → String
    → TurnStatus
    → Option String
    → Option String
    → Tables
    → Result (Turn × Pending × Tables)
complete_turn clock ids conversation id status full_text code db = do
  conv ← get_conversation conversation db
  turn ← get_turn id db
  guard (turn.conversation_id == conversation) turn_not_found
  if is_terminal turn.status
      then ok (turn, [], db)
      else finish_turn clock ids conv id status full_text code db
