-- ===== src/Conversation/Service.antt =====
-- gateway/conversation/service.py: the operations of ConversationService. Each is one transaction,
-- and gives what it returns, the events to broadcast after the commit, and the tables; an exception
-- rolls the tables back and broadcasts nothing. `ids` has what `secrets.token_hex` gives in the
-- call, and `request_hash` is _request_hash, which goes through hashlib.
pub mod Events
pub mod Queueing
pub mod Images
pub mod Sending
pub mod Steering
pub mod Turns
pub mod Completion
pub mod Stopping
pub mod Approvals
pub mod Recovery
pub mod Effects
pub mod Tools
