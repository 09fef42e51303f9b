-- ===== src/Conversation/QueueStatus.antt =====
-- gateway/conversation/models.py: the states of a message in a conversation's queue.
use learn_agent.Prelude.{Bool, true, false}

pub data QueueItemStatus : Type 0 where
  waiting waiting_for_steering injecting sending pending_delete : QueueItemStatus
  failed sent injected deleted : QueueItemStatus

-- `status NOT IN ('sent','injected','deleted','failed')`: the item still has a place.
abbrev pub is_placed : QueueItemStatus → Bool
is_placed sent = false
is_placed injected = false
is_placed deleted = false
is_placed failed = false
is_placed _ = true

-- The same without `pending_delete`: the active queue.
abbrev pub is_active : QueueItemStatus → Bool
is_active pending_delete = false
is_active s = is_placed s

abbrev pub is_waiting : QueueItemStatus → Bool
is_waiting waiting = true
is_waiting _ = false

abbrev pub is_steering : QueueItemStatus → Bool
is_steering waiting_for_steering = true
is_steering _ = false

abbrev pub is_pending_delete : QueueItemStatus → Bool
is_pending_delete pending_delete = true
is_pending_delete _ = false

-- status IN ('waiting_for_steering','injecting')
abbrev pub is_interrupted : QueueItemStatus → Bool
is_interrupted waiting_for_steering = true
is_interrupted injecting = true
is_interrupted _ = false

-- The statuses that send_next takes from the head of the queue.
abbrev pub is_sendable : QueueItemStatus → Bool
is_sendable waiting = true
is_sendable waiting_for_steering = true
is_sendable _ = false
