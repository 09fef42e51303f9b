-- ===== src/Examples/Conversations.antt =====
-- Runs of the conversations (gateway/conversation).
use learn_agent.Prelude.{
  ℕ, ◌≡◌, refl, String, none, some, [], ◌∷◌, Bool, true, false, Result, ok, err, eq_iff, concat,
  arith, queue_conflict, idempotency_conflict, strip, text_length, eqb, if◌then◌else◌,
}
use learn_agent.Conversation.QueueStatus.{waiting, pending_delete}
use learn_agent.Conversation.Model.{ConversationSession, QueueItem, Tables, empty_tables}
use learn_agent.Conversation.Store.Turns.{NewTurn, new_conversation, NewConversation}
use learn_agent.Conversation.Store.Queue.{NewItem, enqueue_item}
use learn_agent.Conversation.Service.Events.{
  Pending, Request, to_enqueue, to_send, to_edit, to_stop,
}
use learn_agent.Conversation.Service.Queueing.{NewMessage, enqueue}
use learn_agent.Conversation.Service.Queueing.Repeats.{enqueue_twice, enqueue_conflict}
use learn_agent.Conversation.Store.Turns.{new_turn}
use learn_agent.Conversation.Store.Queue.{new_item, list_active_queue, update_queue_item}
use learn_agent.Conversation.Store.Queue.Fifo.{push, seen, enqueue_item-refines}
use learn_agent.Conversation.Store.Queue.Revisions.{change_of, two_fields_conflict, edit_once}
use learn_agent.Conversation.Store.Outbox.{new_event, is_unpublished, trim_outbox_backlog}
use learn_agent.Conversation.Store.Records.{count_rows}

abbrev pub web : ConversationSession
web = new_conversation 1_000 "1" (record {
  session_key = "web:1";
  origin = "webui";
  subtype = "main";
  execution_scope = "gateway:default";
  workspace_id = none;
  channel = none;
})

-- One conversation, conv_1, and nothing in it.
abbrev pub one_conversation : Tables
one_conversation = record empty_tables { conversations = ("conv_1", web) ∷ [] }

abbrev pub numbered : ℕ → String
numbered n = if eqb n 0 then "a" else if eqb n 1 then "b" else if eqb n 2 then "c" else "d"

abbrev pub plain_hash : Request → String
plain_hash (to_enqueue t) = concat "enqueue " t
plain_hash (to_send t) = concat "send " t
plain_hash (to_edit id t n) = concat "edit " id
plain_hash to_stop = "stop"

abbrev pub message : String → NewMessage
message t = record {
  body = t;
  operation_id = some "op1";
  channel = none;
  message_id = none;
  sender_id = none;
  sender_name = none;
  create_queued_node = false;
  images = [];
}

abbrev pub tables_of : {A : Type 0} → Result (A × Pending × Tables) → Tables
tables_of (ok (value, events, db)) = db
tables_of (err problem) = empty_tables

abbrev pub value_of : {A : Type 0} → A → Result (A × Pending × Tables) → A
value_of other (ok (value, events, db)) = value
value_of other (err problem) = other

abbrev pub events_of : {A : Type 0} → Result (A × Pending × Tables) → Pending
events_of (ok (value, events, db)) = events
events_of (err problem) = []

abbrev pub is_ok : {A : Type 0} → Result A → Bool
is_ok (ok value) = true
is_ok (err problem) = false

-- A run that did not raise, in its parts.
pub ran :
    {A : Type 0} (other : A) (r : Result (A × Pending × Tables))
    → is_ok r ≡ true
    → r ≡ ok (value_of other r, events_of r, tables_of r)
ran other (ok (value, events, db)) h = refl
ran other (err problem) h = absurd (cc)

abbrev hello : QueueItem
hello = record {
  queue_item_id = "q_a";
  conversation_id = "conv_1";
  position = 1;
  revision = 1;
  status = waiting;
  body = "hello";
  target_turn_id = none;
  created_turn_id = none;
  created_node_id = none;
  operation_id = some "op1";
  created_at = 2_000;
  updated_at = 2_000;
  images = [];
}

abbrev first_enqueue : Result (QueueItem × Pending × Tables)
first_enqueue = enqueue plain_hash 2_000 numbered "conv_1" (message "hello") one_conversation

first_enqueue-ok : is_ok first_enqueue ≡ true
unfolding enqueue learn_agent.Conversation.Store.Turns.get_conversation
    learn_agent.Conversation.Service.Events.recorded
    learn_agent.Conversation.Store.Records.check_idempotency
    learn_agent.Conversation.Service.Queueing.enqueue_new enqueue_item strip text_length
    learn_agent.Conversation.Store.Queue.active_queue_count
    learn_agent.Conversation.Service.Queueing.add_queued_node
    learn_agent.Conversation.Service.Events.remember
    learn_agent.Conversation.Store.Records.record_idempotency
    learn_agent.Conversation.Service.Events.queue_updated
    learn_agent.Conversation.Service.Events.append_and_emit
    learn_agent.Conversation.Store.Outbox.append_outbox
    learn_agent.Conversation.Store.Turns.bump_session_version
first_enqueue-ok = refl

enqueue_twice_example :
    enqueue plain_hash 9_000 numbered "conv_1" (message "hello") (tables_of first_enqueue)
    ≡ ok (value_of hello first_enqueue, [], tables_of first_enqueue)
enqueue_twice_example =
    enqueue_twice plain_hash 2_000 9_000 numbered numbered "conv_1" "op1" (message "hello")
      one_conversation (tables_of first_enqueue) (value_of hello first_enqueue)
      (events_of first_enqueue) refl refl (message "hello") refl refl
      (ran hello first_enqueue first_enqueue-ok)

enqueue_conflict_example :
    enqueue plain_hash 9_000 numbered "conv_1" (message "bye") (tables_of first_enqueue)
    ≡ err idempotency_conflict
unfolding concat
enqueue_conflict_example =
    enqueue_conflict plain_hash 2_000 9_000 numbered numbered "conv_1" "op1" (message "hello")
      one_conversation (tables_of first_enqueue) (value_of hello first_enqueue)
      (events_of first_enqueue) refl refl (message "bye") refl
      (λ h. absurd (let e : false ≡ true = (eq_iff "enqueue bye" "enqueue hello").1 h in cc))
      (ran hello first_enqueue first_enqueue-ok)

abbrev queue_message : NewItem
queue_message = record { body = "hi"; operation_id = none; target_turn_id = none; images = [] }

-- One message in the table of the queues.
abbrev pub one_item : Tables
one_item = record one_conversation { items = ("q_a", hello) ∷ [] }

enqueue_item-refines_example :
    seen "conv_1" (enqueue_item 3_000 "z" "conv_1" queue_message one_item)
    ≡ push
        (new_item 3_000 "z" "conv_1" queue_message one_item)
        (list_active_queue "conv_1" one_item)
unfolding strip text_length concat
enqueue_item-refines_example =
    enqueue_item-refines 3_000 "z" "conv_1" queue_message one_item refl (omega arith) refl

two_fields_conflict_example :
    update_queue_item 3_000 "q_a" 1 (change_of (some "hi") (some pending_delete) none) one_item
    ≡ err queue_conflict
unfolding text_length
two_fields_conflict_example =
    two_fields_conflict 3_000 "q_a" 1 (some "hi") (some pending_delete) none one_item hello refl
      refl refl

abbrev edited : Result (QueueItem × Tables)
edited = update_queue_item 3_000 "q_a" 1 (change_of (some "hi") none none) one_item

abbrev item_after : QueueItem
item_after = record hello { body = "hi"; revision = 2; updated_at = 3_000 }

abbrev edited_tables : Tables
edited_tables = record one_item { items = ("q_a", item_after) ∷ [] }

edited_lem : edited ≡ ok (item_after, edited_tables)
unfolding update_queue_item learn_agent.Conversation.Store.Queue.set_body text_length
    learn_agent.Conversation.Store.Queue.update_at learn_agent.Conversation.Store.Queue.set_state
    learn_agent.Conversation.Store.Queue.set_target
edited_lem = refl

edit_once_example :
    update_queue_item 4_000 "q_a" 1 (change_of none (some pending_delete) none) edited_tables
    ≡ err queue_conflict
edit_once_example =
    edit_once 3_000 4_000 "q_a" 1 (some "hi") none none (change_of none (some pending_delete) none)
      one_item edited_tables item_after edited_lem refl
