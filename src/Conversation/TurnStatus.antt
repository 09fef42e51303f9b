-- ===== src/Conversation/TurnStatus.antt =====
-- gateway/conversation/models.py: the states of a turn.
use learn_agent.Prelude.{Bool, true, false, not}

pub data TurnStatus : Type 0 where
  queued thinking tool approval answering steering stopping : TurnStatus
  done stopped error interrupted : TurnStatus

-- status in TERMINAL_TURN_STATUSES
abbrev pub is_terminal : TurnStatus → Bool
is_terminal done = true
is_terminal stopped = true
is_terminal error = true
is_terminal interrupted = true
is_terminal _ = false

-- `status NOT IN ('done','stopped','error','interrupted')`
abbrev pub is_active : TurnStatus → Bool
is_active s = not (is_terminal s)

-- The statuses that end a turn without an answer.
abbrev pub is_abort : TurnStatus → Bool
is_abort stopped = true
is_abort error = true
is_abort interrupted = true
is_abort _ = false

abbrev pub is_done : TurnStatus → Bool
is_done done = true
is_done _ = false
