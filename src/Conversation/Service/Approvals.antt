-- ===== src/Conversation/Service/Approvals.antt =====
-- gateway/conversation/service.py: approvals of tool calls.
use learn_agent.Prelude.{
  ℕ, ◌+◌, String, none, some, List, [], ◌∷◌, ◌++◌, ◌==◌, keep, values, length, Result, ok, guard,
  resource_not_found, validation_failed, result_not_owned, ◌>>=◌, ◌>>◌, lookup, ◌&&◌,
}
use learn_agent.Conversation.TurnStatus.{approval}
use learn_agent.Conversation.ApprovalStatus.{ApprovalStatus, timed_out, is_decision}
use learn_agent.Conversation.Model.{
  ConversationSession, Approval, ToolResult, Payload, Tables, plain, words, approval_state,
}
use learn_agent.Conversation.Store.Turns.{get_conversation, get_turn, update_turn_status, no_end}
use learn_agent.Conversation.Store.Approvals.{
  create_approval, get_approval, resolve_approval, pending_in, is_stale, expire_stale_approvals,
}
use learn_agent.Conversation.Store.Outbox.{append_outbox}
use learn_agent.Conversation.Store.Records.{get_tool_result}
use learn_agent.Conversation.Service.Events.{Pending, append_and_emit}
use learn_agent.Conversation.Service.Turns.{assert_turn_owned}
use learn_agent.Conversation.Service.Completion.{cancel_approvals}

-- _assert_approval_owned
unfoldable pub assert_approval_owned : String → String → Tables → Result Approval
assert_approval_owned conversation id db = do
  found ← get_approval id db
  guard (found.conversation_id == conversation) resource_not_found
  ok found

unfoldable pub request_approval :
    ℕ
    → (ℕ → String)
    → String
    → String
    → String
    → String
    → Tables
    → Result (Approval × Pending × Tables)
request_approval clock ids conversation id tool_name params db = do
  conv ← get_conversation conversation db
  assert_turn_owned conversation id db
  (made, db₁) ← create_approval clock (ids 0) conversation id tool_name params db
  (turn, db₂) ← update_turn_status id approval no_end db₁
  let data_of =
      ("approval_id", plain (words made.approval_id))
      ∷ ("tool_name", plain (words tool_name))
      ∷ ("params_summary", plain (words params))
      ∷ []
  (events, db₃) ←
      append_and_emit clock (ids 1) conv "approval.requested" "turn" turn.turn_version (some id)
        data_of ([], db₂)
  ok (made, events, db₃)

-- resolve_approval of the service
unfoldable pub decide_approval :
    ℕ
    → (ℕ → String)
    → String
    → String
    → ApprovalStatus
    → String
    → Tables
    → Result (Approval × Pending × Tables)
decide_approval clock ids conversation id decision who db = do
  conv ← get_conversation conversation db
  owned ← assert_approval_owned conversation id db
  guard (is_decision decision) validation_failed
  (resolved, db₁) ← resolve_approval clock id decision who db
  turn ← get_turn resolved.turn_id db₁
  let data_of =
      ("approval_id", plain (words resolved.approval_id))
      ∷ ("status", approval_state resolved.status)
      ∷ ("tool_name", plain (words resolved.tool_name))
      ∷ []
  (events, db₂) ←
      append_and_emit clock (ids 0) conv "approval.resolved" "turn" turn.turn_version
        (some resolved.turn_id) data_of ([], db₁)
  ok (resolved, events, db₂)

-- cancel_pending_approvals: the number of approvals cancelled
unfoldable pub cancel_pending_approvals :
    ℕ → (ℕ → String) → String → String → Tables → Result (ℕ × Pending × Tables)
cancel_pending_approvals clock ids conversation id db = do
  conv ← get_conversation conversation db
  let rows = keep (pending_in conversation id) (values db.approvals)
  elim rows [
    | [] ↦ ok (0, [], db)
    | first ∷ more ↦ do
      turn ← get_turn id db
      (n, events, db₁) ← cancel_approvals clock ids 0 conv turn ([], db)
      ok (length (first ∷ more), events, db₁)
  ]

abbrev stale_payload : ConversationSession → ℕ → Approval → Payload
stale_payload conv version row = record {
  conversation_id = row.conversation_id;
  session_key = conv.session_key;
  origin = conv.origin;
  subtype = conv.subtype;
  workspace_id = conv.workspace_id;
  scope = "turn";
  version = version;
  turn_id = some row.turn_id;
  data_of =
      ("approval_id", plain (words row.approval_id))
      ∷ ("status", approval_state timed_out)
      ∷ ("tool_name", plain (words row.tool_name))
      ∷ ("error_code", plain (words "approval_timed_out"))
      ∷ ("reason", plain (words "timeout"))
      ∷ [];
}

-- LEFT JOIN turns: the version of the turn, 0 without one
abbrev version_of : String → Tables → ℕ
version_of id db = elim (lookup id db.turns) [ none ↦ 0 | some turn ↦ turn.turn_version ]

-- The events of the approvals that have timed out; the join leaves out those without conversation.
-- `n` counts the ids used.
unfoldable pub announce_stale :
    ℕ → (ℕ → String) → ℕ → List Approval → Pending × Tables → Result (Pending × Tables)
announce_stale clock ids n [] (events, db) = ok (events, db)
announce_stale clock ids n (row ∷ rows) (events, db) =
    elim (lookup row.conversation_id db.conversations) [
      | none ↦ announce_stale clock ids n rows (events, db)
      | some conv ↦ do
        let version = version_of row.turn_id db
        let payload = stale_payload conv version row
        (id, db₁) ←
            append_outbox clock (ids n) row.conversation_id "approval.resolved" "turn" version
              payload db
        announce_stale clock ids (n + 1) rows
            (events ++ (("approval.resolved", payload, id) ∷ []), db₁)
    ]

-- _expire_and_broadcast_approvals
unfoldable pub expire_and_broadcast : ℕ → (ℕ → String) → Tables → Result (ℕ × Pending × Tables)
expire_and_broadcast clock ids db = do
  let rows = keep (is_stale clock) (values db.approvals)
  let (count, db₁) = expire_stale_approvals clock db
  (events, db₂) ← announce_stale clock ids 0 rows ([], db₁)
  ok (count, events, db₂)

-- get_result: a result is given only to the conversation and turn that it belongs to
unfoldable pub get_result : String → String → String → Tables → Result ToolResult
get_result conversation turn ref db = do
  result ← get_tool_result ref db
  guard (result.conversation_id == conversation && result.turn_id == turn) result_not_owned
  ok result
