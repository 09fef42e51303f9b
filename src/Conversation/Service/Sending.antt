-- ===== src/Conversation/Service/Sending.antt =====
-- gateway/conversation/service.py: send_next and start_turn. The transaction takes its lock with its
-- first write: `seen` has the tables as the reads before it found them, `db` as the write finds them,
-- so that other calls may have committed in between.
use learn_agent.Prelude.{
  ℕ, String, Option, none, some, [], ◌∷◌, ◌==◌, if◌then◌else◌, keep, Result, ok, err, guard,
  require, key_error, execution_scope_limit, gateway_saturated, ◌>>=◌, ◌>>◌, ltb, head, is_some,
}
use learn_agent.Conversation.NodeType.{user}
use learn_agent.Conversation.QueueStatus.{is_sendable, sent}
use learn_agent.Conversation.Model.{
  ConversationSession, Turn, TurnNode, QueueItem, Tables, plain, words, turn_state, item_state,
  Outcome,
}
use learn_agent.Conversation.Store.Turns.{
  NewTurn, get_conversation, get_active_turn, get_turn, count_active_turns,
  count_active_turns_in_scope, create_turn_if_no_active,
}
use learn_agent.Conversation.Store.Nodes.{
  NewNode, plain_node, create_node, assign_node_to_turn, get_node,
}
use learn_agent.Conversation.Store.Queue.{list_active_queue, mark_queue_sent}
use learn_agent.Conversation.Service.Events.{
  Pending, Request, to_send, recorded, remember, queue_updated, append_and_emit,
}
use learn_agent.Conversation.Service.Images.{ImageStore, consume_images}

-- The node that the dispatched message gets in its turn.
abbrev fresh_user_node : String → QueueItem → NewNode
fresh_user_node turn item = plain_node user "dispatched" (some turn) (some item.body)

abbrev sourced_node : ConversationSession → String → QueueItem → NewNode
sourced_node conv turn item = record (fresh_user_node turn item) {
  source_channel = conv.channel;
  source_message_id = item.operation_id;
}

-- The channel's queued node becomes the turn's user node in place; without one a node is created.
unfoldable pub user_node :
    ℕ
    → String
    → ConversationSession
    → String
    → QueueItem
    → Option String
    → Tables
    → Result (TurnNode × Tables)
user_node clock token conv turn item none db =
    create_node clock token conv.conversation_id (sourced_node conv turn item) db
user_node clock token conv turn item (some id) db =
    if id == ""
    then create_node clock token conv.conversation_id (sourced_node conv turn item) db
    else elim (get_node id db) [
      | err problem ↦ create_node clock token conv.conversation_id (fresh_user_node turn item) db
      | ok node ↦
          if is_some node.turn_id
          then create_node clock token conv.conversation_id (fresh_user_node turn item) db
          else assign_node_to_turn clock id turn 1 db
    ]

-- The arguments of send_next.
pub record Send : Type 0 where
  pub turn : NewTurn
  pub channel_node_id : Option String
  pub operation_id : Option String

-- What send_next and its repetition return: the turn and its user node.
abbrev pub Sent : Type 0
Sent = Option (Turn × TurnNode)

unfoldable pub turn_again : Outcome → Tables → Result (Turn × TurnNode)
turn_again outcome db = do
  turn_id ← require outcome.turn_id key_error
  turn ← get_turn turn_id db
  node_id ← require outcome.node_id key_error
  node ← get_node node_id db
  ok (turn, node)

abbrev pub turn_outcome : String → Option String → Outcome
turn_outcome turn node = record { queue_item_id = none; turn_id = some turn; node_id = node }

-- The two limits on concurrent turns.
unfoldable pub check_limits : ℕ → ℕ → String → Tables → Result (Unit {0})
check_limits per_scope global scope db = do
  guard (ltb (count_active_turns_in_scope scope db) per_scope) execution_scope_limit
  guard (ltb (count_active_turns db) global) gateway_saturated

abbrev pub next_sendable : String → Tables → Option QueueItem
next_sendable conversation db =
    head (keep (λ item. is_sendable item.status) (list_active_queue conversation db))

module _ (request_hash : Request → String) (image_store : ImageStore) where
  -- What send_next does once it has created the turn.
  unfoldable pub dispatch :
      ℕ
      → (ℕ → String)
      → ConversationSession
      → Send
      → QueueItem
      → Turn
      → Tables
      → Result (Sent × Pending × Tables)
  dispatch clock ids conv args item turn db = do
    let conversation = conv.conversation_id
    (plain_user, db₁) ← user_node clock (ids 1) conv turn.turn_id item args.channel_node_id db
    (node, events, db₂) ←
        consume_images clock ids image_store conv turn.turn_id plain_user item.images db₁
    (marked, db₃) ← mark_queue_sent clock item.queue_item_id turn.turn_id (some node.node_id) db₂
    db₄ ←
        remember clock args.operation_id conversation (request_hash (to_send item.queue_item_id))
          (turn_outcome turn.turn_id (some node.node_id)) db₃
    (events₁, db₅) ←
        append_and_emit clock (ids 2) conv "turn.status" "turn" turn.turn_version
          (some turn.turn_id) (("status", turn_state turn.status) ∷ []) (events, db₄)
    let data_of =
        ("queue_item_id", plain (words item.queue_item_id))
        ∷ ("status", item_state sent)
        ∷ ("turn_id", plain (words turn.turn_id))
        ∷ []
    (events₂, db₆) ← queue_updated clock (ids 3) conv data_of (events₁, db₅)
    ok (some (turn, node), events₂, db₆)

  -- The write part of send_next: it begins with the conditional insertion of the turn.
  unfoldable pub create_and_dispatch :
      ℕ
      → (ℕ → String)
      → ConversationSession
      → Send
      → QueueItem
      → Tables
      → Result (Sent × Pending × Tables)
  create_and_dispatch clock ids conv args item db = do
    (made, db₁) ← create_turn_if_no_active clock (ids 0) conv.conversation_id args.turn db
    elim made [ none ↦ ok (none, [], db₁) | some turn ↦ dispatch clock ids conv args item turn db₁ ]

  -- What send_next does with the head of the queue that it has read.
  unfoldable pub send_item :
      ℕ
      → ℕ
      → ℕ
      → (ℕ → String)
      → ConversationSession
      → Send
      → QueueItem
      → Tables
      → Tables
      → Result (Sent × Pending × Tables)
  send_item per_scope global clock ids conv args item seen db = do
    hit ← recorded args.operation_id (request_hash (to_send item.queue_item_id)) seen
    elim hit [
      | some outcome ↦ do again ← turn_again outcome seen; ok (some again, [], db)
      | none ↦ do
        check_limits per_scope global conv.execution_scope seen
        create_and_dispatch clock ids conv args item db
    ]

  unfoldable pub send_next :
      ℕ → ℕ → ℕ → (ℕ → String) → String → Send → Tables → Tables → Result (Sent × Pending × Tables)
  send_next per_scope global clock ids conversation args seen db = do
    conv ← get_conversation conversation seen
    elim (get_active_turn conversation seen) [
      | some turn ↦ ok (none, [], db)
      | none ↦ elim (next_sendable conversation seen) [
        | none ↦ ok (none, [], db)
        | some item ↦ send_item per_scope global clock ids conv args item seen db
      ]
    ]

-- The write part of start_turn: an active turn that came in between is given back.
unfoldable pub begin_turn :
    ℕ
    → (ℕ → String)
    → ConversationSession
    → String
    → NewTurn
    → Tables
    → Result (Option Turn × Pending × Tables)
begin_turn clock ids conv conversation args db = do
  (made, db₁) ← create_turn_if_no_active clock (ids 0) conversation args db
  elim made [
    | none ↦ ok (get_active_turn conversation db₁, [], db₁)
    | some turn ↦ do
      (events, db₂) ←
          append_and_emit clock (ids 1) conv "turn.status" "turn" turn.turn_version
            (some turn.turn_id) (("status", turn_state turn.status) ∷ []) ([], db₁)
      ok (some turn, events, db₂)
  ]

-- start_turn: an active turn is given back
unfoldable pub start_turn :
    ℕ
    → ℕ
    → (ℕ → String)
    → String
    → NewTurn
    → Tables
    → Tables
    → Result (Option Turn × Pending × Tables)
start_turn per_scope clock ids conversation args seen db = do
  conv ← get_conversation conversation seen
  elim (get_active_turn conversation seen) [
    | some turn ↦ ok (some turn, [], db)
    | none ↦ do
      guard (ltb (count_active_turns_in_scope conv.execution_scope seen) per_scope)
          execution_scope_limit
      begin_turn clock ids conv conversation args db
  ]
