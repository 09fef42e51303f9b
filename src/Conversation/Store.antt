-- ===== src/Conversation/Store.antt =====
-- gateway/conversation/store.py: the queries and updates of ConversationStore. Each is a function of
-- the tables, to be composed into transactions; `clock` is the reading of the clock in the
-- transaction, and a token what `secrets.token_hex` gives.
pub mod Turns
pub mod Nodes
pub mod Queue
pub mod QueueMoves
pub mod Records
pub mod Outbox
pub mod Approvals
pub mod History
