-- ===== src/Conversation.antt =====
-- gateway/conversation: conversations, their turns, nodes and queues, and the outbox of events.
pub mod TurnStatus
pub mod NodeType
pub mod QueueStatus
pub mod ApprovalStatus
pub mod Model
pub mod Store
pub mod Service
pub mod Publisher
pub mod Activity
