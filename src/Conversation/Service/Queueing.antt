-- ===== src/Conversation/Service/Queueing.antt =====
-- gateway/conversation/service.py: the operations on the queue of a conversation.
pub mod Repeats
use learn_agent.Prelude.{
  ℕ, ◌+◌, String, Option, none, some, List, [], ◌∷◌, Bool, true, false, not, ◌==◌, if◌then◌else◌,
  Result, ok, err, guard, require, resource_not_found, key_error, ◌>>=◌, ◌>>◌, text_length,
}
use learn_agent.Conversation.NodeType.{user}
use learn_agent.Conversation.QueueStatus.{pending_delete}
use learn_agent.Conversation.Model.{
  ConversationSession, QueueItem, Image, Tables, Datum, plain, words, amount, item_state, Outcome,
  counts,
}
use learn_agent.Conversation.Store.Turns.{get_conversation, bump_session_version}
use learn_agent.Conversation.Store.Nodes.{NewNode, plain_node, create_node}
use learn_agent.Conversation.Store.Queue.{
  NewItem, ItemChange, enqueue_item, get_queue_item, update_queue_item,
}
use learn_agent.Conversation.Store.QueueMoves.{
  Direction, up, down, undo_delete, move_queue_item, clear_waiting_queue,
}
use learn_agent.Conversation.Store.Records.{clear_history}
use learn_agent.Conversation.Service.Events.{
  Pending, Request, to_enqueue, to_edit, recorded, remember, queue_updated, append_and_emit,
  text_or_absent,
}

-- The arguments of enqueue; the images have passed _validate_image_envelope.
pub record NewMessage : Type 0 where
  pub body : String
  pub operation_id : Option String
  pub channel : Option String
  pub message_id : Option String
  pub sender_id : Option String
  pub sender_name : Option String
  pub create_queued_node : Bool
  pub images : List Image

abbrev pub item_of : NewMessage → NewItem
item_of new = record {
  body = new.body;
  operation_id = new.operation_id;
  target_turn_id = none;
  images = new.images;
}

abbrev pub queued_node : NewMessage → NewNode
queued_node new = record (plain_node user "queued" none (some new.body)) {
  source_channel = new.channel;
  source_message_id = new.message_id;
  sender_id = new.sender_id;
  sender_name = new.sender_name;
}

-- The queued user node of a channel's message, if one is wanted.
unfoldable pub add_queued_node :
    ℕ → String → String → NewMessage → Tables → Result (Option String × Tables)
add_queued_node clock token conversation new db =
    if new.create_queued_node
    then (do
      (node, db₁) ← create_node clock token conversation (queued_node new) db
      ok (some node.node_id, db₁))
    else ok (none, db)

abbrev pub item_outcome : String → Outcome
item_outcome id = record { queue_item_id = some id; turn_id = none; node_id = none }

-- get_queue_item(result["queue_item_id"]): nothing is written
unfoldable pub item_again : Outcome → Tables → Result (QueueItem × Pending × Tables)
item_again outcome db = do
  id ← require outcome.queue_item_id key_error
  item ← get_queue_item id db
  ok (item, [], db)

-- _assert_queue_item_owned
unfoldable pub assert_queue_item_owned : String → String → Tables → Result (Unit {0})
assert_queue_item_owned conversation id db = do
  item ← get_queue_item id db
  guard (item.conversation_id == conversation) resource_not_found

abbrev pub enqueue_data : QueueItem → NewMessage → Option String → List (String × Datum)
enqueue_data item new node =
    ("queue_item_id", plain (words item.queue_item_id))
    ∷ ("status", item_state item.status)
    ∷ ("position", plain (amount item.position))
    ∷ ("text_len", plain (amount (text_length new.body)))
    ∷ ("node_id", text_or_absent node)
    ∷ []

module _ (request_hash : Request → String) where
  -- enqueue, where the operation has not run before
  unfoldable pub enqueue_new :
      ℕ
      → (ℕ → String)
      → ConversationSession
      → NewMessage
      → Tables
      → Result (QueueItem × Pending × Tables)
  enqueue_new clock ids conv new db = do
    let conversation = conv.conversation_id
    (item, db₁) ← enqueue_item clock (ids 0) conversation (item_of new) db
    (node, db₂) ← add_queued_node clock (ids 1) conversation new db₁
    db₃ ←
        remember clock new.operation_id conversation (request_hash (to_enqueue new.body))
          (item_outcome item.queue_item_id) db₂
    (events, db₄) ← queue_updated clock (ids 2) conv (enqueue_data item new node) ([], db₃)
    ok (item, events, db₄)

  unfoldable pub enqueue :
      ℕ → (ℕ → String) → String → NewMessage → Tables → Result (QueueItem × Pending × Tables)
  enqueue clock ids conversation new db = do
    conv ← get_conversation conversation db
    hit ← recorded new.operation_id (request_hash (to_enqueue new.body)) db
    elim hit [ some outcome ↦ item_again outcome db | none ↦ enqueue_new clock ids conv new db ]

  unfoldable pub edit_queue_item :
      ℕ
      → (ℕ → String)
      → String
      → String
      → ℕ
      → Option String
      → Option String
      → Tables
      → Result (QueueItem × Pending × Tables)
  edit_queue_item clock ids conversation id revision body operation db = do
    conv ← get_conversation conversation db
    assert_queue_item_owned conversation id db
    let hash = request_hash (to_edit id body revision)
    hit ← recorded operation hash db
    elim hit [
      | some outcome ↦ item_again outcome db
      | none ↦ do
        let change : ItemChange = record { body = body; status = none; target_turn_id = none }
        (item, db₁) ← update_queue_item clock id revision change db
        db₂ ← remember clock operation conversation hash (item_outcome item.queue_item_id) db₁
        let data_of =
            ("queue_item_id", plain (words item.queue_item_id))
            ∷ ("status", item_state item.status)
            ∷ ("revision", plain (amount item.revision))
            ∷ []
        (events, db₃) ← queue_updated clock (ids 0) conv data_of ([], db₂)
        ok (item, events, db₃)
    ]

abbrev item_data : QueueItem → List (String × Datum)
item_data item =
    ("queue_item_id", plain (words item.queue_item_id)) ∷ ("status", item_state item.status) ∷ []

unfoldable pub delete_queue_item :
    ℕ → (ℕ → String) → String → String → ℕ → Tables → Result (QueueItem × Pending × Tables)
delete_queue_item clock ids conversation id revision db = do
  conv ← get_conversation conversation db
  assert_queue_item_owned conversation id db
  let change : ItemChange = record {
    body = none;
    status = some pending_delete;
    target_turn_id = none;
  }
  (item, db₁) ← update_queue_item clock id revision change db
  (events, db₂) ← queue_updated clock (ids 0) conv (item_data item) ([], db₁)
  ok (item, events, db₂)

unfoldable pub undo_delete_item :
    ℕ → (ℕ → String) → String → String → Tables → Result (QueueItem × Pending × Tables)
undo_delete_item clock ids conversation id db = do
  conv ← get_conversation conversation db
  assert_queue_item_owned conversation id db
  (item, db₁) ← undo_delete clock id db
  (events, db₂) ← queue_updated clock (ids 0) conv (item_data item) ([], db₁)
  ok (item, events, db₂)

abbrev direction_value : Direction → String
direction_value up = "up"
direction_value down = "down"

unfoldable pub move_item :
    ℕ
    → (ℕ → String)
    → String
    → String
    → Direction
    → Tables
    → Result (List QueueItem × Pending × Tables)
move_item clock ids conversation id direction db = do
  conv ← get_conversation conversation db
  (items, db₁) ← move_queue_item clock conversation id direction db
  let data_of =
      ("queue_item_id", plain (words id))
      ∷ ("direction", plain (words (direction_value direction)))
      ∷ []
  (events, db₂) ← queue_updated clock (ids 0) conv data_of ([], db₁)
  ok (items, events, db₂)

unfoldable pub clear_waiting : ℕ → (ℕ → String) → String → Tables → Result (ℕ × Pending × Tables)
clear_waiting clock ids conversation db = do
  conv ← get_conversation conversation db
  let (count, db₁) = clear_waiting_queue clock conversation db
  (events, db₂) ←
      queue_updated clock (ids 0) conv (("cleared", plain (amount count)) ∷ []) ([], db₁)
  ok (count, events, db₂)

-- clear_history of the service
unfoldable pub clear_all :
    ℕ → (ℕ → String) → String → Tables → Result (List (String × ℕ) × Pending × Tables)
clear_all clock ids conversation db = do
  conv ← get_conversation conversation db
  let (removed, db₁) = clear_history conversation db
  let (version, db₂) = bump_session_version clock conversation db₁
  (events, db₃) ←
      append_and_emit clock (ids 0) conv "conversation.cleared" "session" version none
        (("counts", counts removed) ∷ []) ([], db₂)
  ok (removed, events, db₃)
