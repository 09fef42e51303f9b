-- ===== src/Conversation/Store/Queue.antt =====
-- gateway/conversation/store.py: the queue of messages of a conversation.
pub mod Fifo
pub mod Revisions
use learn_agent.Prelude.{
  ℕ, suc, ◌+◌, ◌-◌, String, Option, none, some, List, [], ◌∷◌, ◌++◌, Bool, true, false, not, ◌&&◌,
  ◌||◌, ◌==◌, if◌then◌else◌, millis, lookup, add, update, map_rows, keep, length, values, Result,
  ok, err, guard, require, resource_not_found, type_error, validation_failed, queue_limit,
  queue_conflict, undo_expired, ◌>>=◌, ◌>>◌, leb, ltb, eqb, greatest, order_by, is_some, strip,
  text_length,
}
use learn_agent.Conversation.QueueStatus.{
  QueueItemStatus, waiting, sent, injected, deleted, is_placed, is_active, is_waiting,
  is_pending_delete, is_interrupted,
}
use learn_agent.Conversation.Model.{QueueItem, Image, Tables, gen_id}

abbrev pub max_active_queue_items : ℕ
max_active_queue_items = 20

abbrev pub max_queue_text_length : ℕ
max_queue_text_length = 10_000

-- UNDO_WINDOW_SECONDS in microseconds
abbrev pub undo_window : ℕ
undo_window = 5_000_000

abbrev pub in_queue : String → QueueItem → Bool
in_queue conversation item = item.conversation_id == conversation && is_active item.status

-- list_active_queue
unfoldable pub list_active_queue : String → Tables → List QueueItem
list_active_queue conversation db =
    order_by (λ item. item.position) (keep (in_queue conversation) (values db.items))

-- _active_queue_count
unfoldable pub active_queue_count : String → Tables → ℕ
active_queue_count conversation db = length (keep (in_queue conversation) (values db.items))

abbrev pub has_place : String → QueueItem → Bool
has_place conversation item = item.conversation_id == conversation && is_placed item.status

-- One after the greatest position of the items that still have one.
unfoldable pub next_place : String → Tables → ℕ
next_place conversation db =
    elim (greatest (λ item. item.position) (keep (has_place conversation) (values db.items))) [
      | none ↦ 1
      | some m ↦ m + 1
    ]

pub record NewItem : Type 0 where
  pub body : String
  pub operation_id : Option String
  pub target_turn_id : Option String
  pub images : List Image

abbrev pub new_item : ℕ → String → String → NewItem → Tables → QueueItem
new_item clock token conversation new db = record {
  queue_item_id = gen_id "q_" token;
  conversation_id = conversation;
  position = next_place conversation db;
  revision = 1;
  status = waiting;
  body = new.body;
  target_turn_id = new.target_turn_id;
  created_turn_id = none;
  created_node_id = none;
  operation_id = new.operation_id;
  created_at = millis clock;
  updated_at = millis clock;
  images = new.images;
}

unfoldable pub enqueue_item : ℕ → String → String → NewItem → Tables → Result (QueueItem × Tables)
enqueue_item clock token conversation new db = do
  guard (not (strip new.body == "")) validation_failed
  guard (leb (text_length new.body) max_queue_text_length) queue_limit
  guard (ltb (active_queue_count conversation db) max_active_queue_items) queue_limit
  let item = new_item clock token conversation new db
  items ← add item.queue_item_id item db.items
  ok (item, record db { items = items })

unfoldable pub get_queue_item : String → Tables → Result QueueItem
get_queue_item id db = require (lookup id db.items) resource_not_found

-- The change, with `revision=revision+1, updated_at=?`.
abbrev pub revised : ℕ → (QueueItem → QueueItem) → QueueItem → QueueItem
revised clock change item = record (change item) {
  revision = item.revision + 1;
  updated_at = millis clock;
}

-- One of the conditional updates: `WHERE queue_item_id=? AND revision=?`, which must change a row.
unfoldable pub update_at : ℕ → String → ℕ → (QueueItem → QueueItem) → Tables → Result Tables
update_at clock id revision change db = do
  item ← require (lookup id db.items) queue_conflict
  guard (eqb item.revision revision) queue_conflict
  ok (record db { items = update id (revised clock change) db.items })

pub record ItemChange : Type 0 where
  pub body : Option String
  pub status : Option QueueItemStatus
  pub target_turn_id : Option String

unfoldable pub set_body : ℕ → String → ℕ → Option String → Tables → Result Tables
set_body clock id revision none db = ok db
set_body clock id revision (some new) db = do
  guard (leb (text_length new) max_queue_text_length) queue_limit
  update_at clock id revision (λ item. record item { body = new }) db

unfoldable pub set_state : ℕ → String → ℕ → Option QueueItemStatus → Tables → Result Tables
set_state clock id revision none db = ok db
set_state clock id revision (some new) db =
    update_at clock id revision (λ item. record item { status = new }) db

unfoldable pub set_target : ℕ → String → ℕ → Option String → Tables → Result Tables
set_target clock id revision none db = ok db
set_target clock id revision (some new) db =
    update_at clock id revision (λ item. record item { target_turn_id = some new }) db

unfoldable pub update_queue_item :
    ℕ → String → ℕ → ItemChange → Tables → Result (QueueItem × Tables)
update_queue_item clock id revision change db = do
  current ← require (lookup id db.items) resource_not_found
  guard (eqb current.revision revision) queue_conflict
  db₁ ← set_body clock id revision change.body db
  db₂ ← set_state clock id revision change.status db₁
  db₃ ← set_target clock id revision change.target_turn_id db₂
  item ← require (lookup id db₃.items) type_error
  ok (item, db₃)

-- An UPDATE of one item that bumps its revision, and the row that it leaves.
unfoldable pub write_item :
    ℕ → String → (QueueItem → QueueItem) → Tables → Result (QueueItem × Tables)
write_item clock id change db = do
  let items = update id (revised clock change) db.items
  item ← require (lookup id items) type_error
  ok (item, record db { items = items })

unfoldable pub set_queue_status :
    ℕ → String → QueueItemStatus → Tables → Result (QueueItem × Tables)
set_queue_status clock id status db =
    write_item clock id (λ item. record item { status = status }) db

unfoldable pub mark_queue_sent :
    ℕ → String → String → Option String → Tables → Result (QueueItem × Tables)
mark_queue_sent clock id turn node db =
    write_item clock id
      (λ item. record item { status = sent; created_turn_id = some turn; created_node_id = node })
      db

unfoldable pub mark_queue_injected : ℕ → String → String → Tables → Result (QueueItem × Tables)
mark_queue_injected clock id node db =
    write_item clock id (λ item. record item { status = injected; created_node_id = some node }) db
