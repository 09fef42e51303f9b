-- ===== src/Conversation/Store/QueueMoves.antt =====
-- gateway/conversation/store.py: reordering, deletion with undo, and the passes over all queues.
use learn_agent.Prelude.{
  ℕ, ◌-◌, String, Option, none, some, List, [], ◌∷◌, Bool, ◌&&◌, ◌==◌, if◌then◌else◌, millis,
  map_rows, keep, length, values, Result, ok, err, guard, resource_not_found, queue_conflict,
  undo_expired, ◌>>=◌, ◌>>◌, leb, ltb,
}
use learn_agent.Conversation.QueueStatus.{
  QueueItemStatus, waiting, deleted, is_waiting, is_pending_delete, is_interrupted,
}
use learn_agent.Conversation.Model.{QueueItem, Tables}
use learn_agent.Conversation.Store.Queue.{
  list_active_queue, get_queue_item, write_item, set_queue_status, revised, undo_window,
}

-- direction in ("up", "down")
pub data Direction : Type 0 where
  up down : Direction

-- The item of the id, and the one beside it that it changes places with, if there is one.
pub data Neighbours : Type 0 where
  missing at_edge : Neighbours
  beside : QueueItem → QueueItem → Neighbours

-- The item before the entry, if any, comes first.
unfoldable pub neighbours : Direction → String → Option QueueItem → List QueueItem → Neighbours
neighbours direction id before [] = missing
neighbours up id none (item ∷ items) =
    let rest = neighbours up id (some item) items in
    if item.queue_item_id == id then at_edge else rest
neighbours up id (some b) (item ∷ items) =
    let rest = neighbours up id (some item) items in
    if item.queue_item_id == id then beside item b else rest
neighbours down id before (item ∷ []) = if item.queue_item_id == id then at_edge else missing
neighbours down id before (item ∷ next ∷ items) =
    let rest = neighbours down id (some item) (next ∷ items) in
    if item.queue_item_id == id then beside item next else rest

abbrev set_position : ℕ → QueueItem → QueueItem
set_position p item = record item { position = p }

unfoldable pub swap_places : ℕ → QueueItem → QueueItem → Tables → Result Tables
swap_places clock a b db = do
  (first, db₁) ← write_item clock a.queue_item_id (set_position b.position) db
  (second, db₂) ← write_item clock b.queue_item_id (set_position a.position) db₁
  ok db₂

unfoldable pub move_queue_item :
    ℕ → String → String → Direction → Tables → Result (List QueueItem × Tables)
move_queue_item clock conversation id direction db =
    let items = list_active_queue conversation db in
    elim (neighbours direction id none items) [
      | missing ↦ err resource_not_found
      | at_edge ↦ ok (items, db)
      | beside a b ↦ do db₁ ← swap_places clock a b db; ok (list_active_queue conversation db₁, db₁)
    ]

-- undo_delete: `now` is a reading of the clock that is not cut to milliseconds
unfoldable pub undo_delete : ℕ → String → Tables → Result (QueueItem × Tables)
undo_delete now id db = do
  item ← get_queue_item id db
  guard (is_pending_delete item.status) queue_conflict
  guard (leb (now - item.updated_at) undo_window) undo_expired
  set_queue_status now id waiting db

abbrev set_where : ℕ → (QueueItem → Bool) → QueueItemStatus → QueueItem → QueueItem
set_where clock test status item =
    if test item then revised clock (λ old. record old { status = status }) item else item

-- An UPDATE of all items that pass the test: their number, and the tables.
unfoldable pub set_all : ℕ → (QueueItem → Bool) → QueueItemStatus → Tables → ℕ × Tables
set_all clock test status db = (
  length (keep test (values db.items)),
  record db { items = map_rows (set_where clock test status) db.items },
)

abbrev pub waits_in : String → QueueItem → Bool
waits_in conversation item = item.conversation_id == conversation && is_waiting item.status

unfoldable pub clear_waiting_queue : ℕ → String → Tables → ℕ × Tables
clear_waiting_queue clock conversation db = set_all clock (waits_in conversation) deleted db

-- The undo window of the item is over: `updated_at < cutoff`.
abbrev pub undo_over : ℕ → QueueItem → Bool
undo_over clock item =
    is_pending_delete item.status && ltb item.updated_at (millis (clock - undo_window))

unfoldable pub archive_expired_pending_deletes : ℕ → Tables → ℕ × Tables
archive_expired_pending_deletes clock db = set_all clock (undo_over clock) deleted db

unfoldable pub reset_interrupted_queue_items : ℕ → Tables → ℕ × Tables
reset_interrupted_queue_items clock db =
    set_all clock (λ item. is_interrupted item.status) waiting db
