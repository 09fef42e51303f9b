-- ===== src/Conversation/Store/Approvals.antt =====
-- gateway/conversation/store.py: requests for approval.
use learn_agent.Prelude.{
  ℕ, ◌-◌, String, Option, none, some, List, Bool, ◌&&◌, ◌==◌, if◌then◌else◌, millis, lookup, add,
  update, map_rows, keep, length, values, Result, ok, guard, require, resource_not_found,
  approval_conflict, type_error, ◌>>=◌, ◌>>◌, ltb, order_by,
}
use learn_agent.Conversation.ApprovalStatus.{
  ApprovalStatus, pending, cancelled, timed_out, is_pending,
}
use learn_agent.Conversation.Model.{Approval, Tables, gen_id}

-- APPROVAL_TIMEOUT_SECONDS in microseconds
abbrev pub approval_timeout : ℕ
approval_timeout = 300_000_000

abbrev pub new_approval : ℕ → String → String → String → String → String → Approval
new_approval clock token conversation turn tool_name params = record {
  approval_id = gen_id "apr_" token;
  conversation_id = conversation;
  turn_id = turn;
  node_id = none;
  tool_name = tool_name;
  params_summary = params;
  status = pending;
  created_at = millis clock;
  resolved_at = none;
  resolved_by = none;
}

unfoldable pub create_approval :
    ℕ → String → String → String → String → String → Tables → Result (Approval × Tables)
create_approval clock token conversation turn tool_name params db = do
  let approval = new_approval clock token conversation turn tool_name params
  approvals ← add approval.approval_id approval db.approvals
  ok (approval, record db { approvals = approvals })

unfoldable pub get_approval : String → Tables → Result Approval
get_approval id db = require (lookup id db.approvals) resource_not_found

abbrev pub resolve : ℕ → ApprovalStatus → Option String → Approval → Approval
resolve clock status who approval = record approval {
  status = status;
  resolved_at = some (millis clock);
  resolved_by = who;
}

unfoldable pub resolve_approval :
    ℕ → String → ApprovalStatus → String → Tables → Result (Approval × Tables)
resolve_approval clock id status who db = do
  current ← get_approval id db
  guard (is_pending current.status) approval_conflict
  let approvals = update id (resolve clock status (some who)) db.approvals
  approval ← require (lookup id approvals) type_error
  ok (approval, record db { approvals = approvals })

-- conversation_id=? AND turn_id=? AND status='pending'
abbrev pub pending_in : String → String → Approval → Bool
pending_in conversation turn approval =
    approval.conversation_id == conversation
    && approval.turn_id == turn
    && is_pending approval.status

unfoldable pub list_pending_approvals : String → Tables → List Approval
list_pending_approvals conversation db =
    order_by (λ approval. approval.created_at)
      (keep (λ approval. approval.conversation_id == conversation && is_pending approval.status)
        (values db.approvals))

abbrev pub cancel_in : ℕ → String → String → Approval → Approval
cancel_in clock conversation turn approval =
    if pending_in conversation turn approval
    then resolve clock cancelled (some "system") approval
    else approval

-- The UPDATE that cancels the pending approvals of a turn.
unfoldable pub cancel_pending : ℕ → String → String → Tables → Tables
cancel_pending clock conversation turn db = record db {
  approvals = map_rows (cancel_in clock conversation turn) db.approvals;
}

abbrev pub is_stale : ℕ → Approval → Bool
is_stale clock approval =
    is_pending approval.status && ltb approval.created_at (millis (clock - approval_timeout))

-- resolved_by stays as it was
abbrev expire : ℕ → Approval → Approval
expire clock approval =
    if is_stale clock approval
    then resolve clock timed_out approval.resolved_by approval
    else approval

unfoldable pub expire_stale_approvals : ℕ → Tables → ℕ × Tables
expire_stale_approvals clock db = (
  length (keep (is_stale clock) (values db.approvals)),
  record db { approvals = map_rows (expire clock) db.approvals },
)
