-- ===== src/Conversation/ApprovalStatus.antt =====
-- gateway/conversation/models.py: the states of a request for approval.
use learn_agent.Prelude.{Bool, true, false}

pub data ApprovalStatus : Type 0 where
  pending approved denied cancelled timed_out : ApprovalStatus

abbrev pub is_pending : ApprovalStatus → Bool
is_pending pending = true
is_pending _ = false

-- decision in ("approved", "denied")
abbrev pub is_decision : ApprovalStatus → Bool
is_decision approved = true
is_decision denied = true
is_decision _ = false
