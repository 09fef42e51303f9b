-- ===== src/Examples/Turns.antt =====
-- Runs of turns (gateway/conversation).
use learn_agent.Prelude.{
  ℕ, ◌≡◌, ◌≢◌, refl, String, none, some, List, [], ◌∷◌, Bool, true, false, Result, ok, err, Option,
  lookup, eq_iff, concat, arith, queue_conflict, idempotency_conflict, strip, text_length, order_by,
  is_some, eqb, ◌≤◌, ◌+◌, join, if◌then◌else◌,
}
use learn_agent.Conversation.TurnStatus.{stopped}
use learn_agent.Conversation.NodeType.{assistant}
use learn_agent.Conversation.Model.{Turn, TurnNode, Tables}
use learn_agent.Conversation.Store.Turns.{NewTurn, new_conversation, NewConversation}
use learn_agent.Conversation.Store.Queue.{NewItem, enqueue_item}
use learn_agent.Conversation.Service.Events.{
  Pending, Request, to_enqueue, to_send, to_edit, to_stop,
}
use learn_agent.Conversation.Service.Sending.{Send, send_next, start_turn}
use learn_agent.Conversation.Store.Turns.{new_turn}
use learn_agent.Conversation.Store.Nodes.{plain_node, new_node}
use learn_agent.Conversation.Store.Nodes.Streaming.{stream, stream_whole, text_of}
use learn_agent.Conversation.Store.Queue.{new_item, list_active_queue, update_queue_item}
use learn_agent.Conversation.Store.Outbox.{new_event, is_unpublished, trim_outbox_backlog}
use learn_agent.Conversation.Service.Completion.{complete_turn}
use learn_agent.Conversation.Service.Completion.Settled.{Settled, complete_turn-Settled}
use learn_agent.Conversation.Service.Sending.{Sent}
use learn_agent.Conversation.Activity.{open_count}
use learn_agent.Conversation.Activity.History.{start, next, sends, Run-Within}
use learn_agent.Examples.Conversations.{
  web, one_conversation, numbered, plain_hash, tables_of, value_of, events_of, is_ok, ran, one_item,
}

-- A turn with a running tool and a reply that streams.
abbrev no_turn : NewTurn
no_turn = record {
  runtime_snapshot_id = none;
  parent_conversation_id = none;
  parent_turn_id = none;
}

abbrev busy_turn : Turn
busy_turn = new_turn 3_000 "1" "conv_1" no_turn

abbrev reply : TurnNode
reply =
    new_node 3_000 "r" "conv_1" (plain_node assistant "streaming" (some "turn_1") (some "He"))
      one_conversation

abbrev busy : Tables
busy = record one_conversation {
  turns = ("turn_1", busy_turn) ∷ [];
  nodes = ("node_r", reply) ∷ [];
}

stream_whole_example :
    (db' : Tables) × (new : TurnNode) × (stream ((4_000, "l") ∷ (5_000, "lo") ∷ []) "node_r" busy
      ≡ ok db')
    × (lookup "node_r" db'.nodes ≡ some new)
    × (text_of new.body ≡ concat "He" (join ("l" ∷ "lo" ∷ [])))
    × (new.text_seq ≡ reply.text_seq + 2)
    × (new.status ≡ reply.status)
    × (new.node_type ≡ reply.node_type)
stream_whole_example = stream_whole ((4_000, "l") ∷ (5_000, "lo") ∷ []) "node_r" busy reply refl

abbrev completed : Result (Turn × Pending × Tables)
completed = complete_turn 9_000 numbered "conv_1" "turn_1" stopped none none busy

completed-ok : is_ok completed ≡ true
unfolding complete_turn learn_agent.Conversation.Store.Turns.get_conversation
    learn_agent.Conversation.Store.Turns.get_turn
    learn_agent.Conversation.Store.Turns.update_turn_status
    learn_agent.Conversation.Service.Completion.finish_turn
    learn_agent.Conversation.Service.Completion.end_turn
    learn_agent.Conversation.Service.Completion.final_node
    learn_agent.Conversation.Service.Completion.announce_swept
    learn_agent.Conversation.Service.Completion.cancel_if_abort
    learn_agent.Conversation.Service.Completion.cancel_approvals
    learn_agent.Conversation.Service.Completion.announce_cancelled
    learn_agent.Conversation.Store.Nodes.sweep_running_tool_nodes
    learn_agent.Conversation.Store.Nodes.finalize_turn_nodes
    learn_agent.Conversation.Service.Events.append_and_emit
    learn_agent.Conversation.Store.Outbox.append_outbox
    learn_agent.Conversation.Store.Approvals.cancel_pending concat
completed-ok = refl

complete_turn-Settled_example :
    Settled 9_000 web "turn_1" stopped (value_of busy_turn completed) (tables_of completed)
complete_turn-Settled_example =
    complete_turn-Settled 9_000 numbered "conv_1" "turn_1" stopped none none busy
      (tables_of completed) web busy_turn (value_of busy_turn completed) (events_of completed) refl
      refl refl (ran busy_turn completed completed-ok)

-- Two instances have read a conversation without an active turn; the second to write starts none.
abbrev sending : Send
sending = record { turn = no_turn; channel_node_id = none; operation_id = none }

abbrev first_send : Result (Sent × Pending × Tables)
first_send = send_next plain_hash none 5 4 4_000 numbered "conv_1" sending one_item one_item

first_send-ok : is_ok first_send ≡ true
unfolding send_next list_active_queue order_by learn_agent.Prelude.place concat
    learn_agent.Conversation.Store.Turns.get_conversation
    learn_agent.Conversation.Store.Turns.get_active_turn learn_agent.Conversation.Store.Turns.latest
    learn_agent.Conversation.Store.Turns.count_active_turns_in_scope
    learn_agent.Conversation.Store.Turns.count_active_turns
    learn_agent.Conversation.Store.Turns.create_turn_if_no_active
    learn_agent.Conversation.Store.Turns.bump_session_version
    learn_agent.Conversation.Service.Sending.send_item
    learn_agent.Conversation.Service.Sending.check_limits
    learn_agent.Conversation.Service.Sending.create_and_dispatch
    learn_agent.Conversation.Service.Sending.dispatch
    learn_agent.Conversation.Service.Sending.user_node
    learn_agent.Conversation.Service.Images.consume_images
    learn_agent.Conversation.Store.Nodes.create_node
    learn_agent.Conversation.Store.Nodes.next_position
    learn_agent.Conversation.Store.Queue.mark_queue_sent
    learn_agent.Conversation.Store.Queue.write_item learn_agent.Conversation.Service.Events.recorded
    learn_agent.Conversation.Service.Events.remember
    learn_agent.Conversation.Service.Events.append_and_emit
    learn_agent.Conversation.Service.Events.queue_updated
    learn_agent.Conversation.Store.Outbox.append_outbox
first_send-ok = refl

abbrev second_send : Result (Sent × Pending × Tables)
second_send =
    send_next plain_hash none 5 4 5_000 numbered "conv_1" sending one_item (tables_of first_send)

second_send-ok : is_ok second_send ≡ true
unfolding send_next list_active_queue order_by learn_agent.Prelude.place concat
    learn_agent.Conversation.Store.Turns.get_conversation
    learn_agent.Conversation.Store.Turns.get_active_turn learn_agent.Conversation.Store.Turns.latest
    learn_agent.Conversation.Store.Turns.count_active_turns_in_scope
    learn_agent.Conversation.Store.Turns.count_active_turns
    learn_agent.Conversation.Store.Turns.create_turn_if_no_active
    learn_agent.Conversation.Store.Turns.bump_session_version
    learn_agent.Conversation.Service.Sending.send_item
    learn_agent.Conversation.Service.Sending.check_limits
    learn_agent.Conversation.Service.Sending.create_and_dispatch
    learn_agent.Conversation.Service.Sending.dispatch
    learn_agent.Conversation.Service.Sending.user_node
    learn_agent.Conversation.Service.Images.consume_images
    learn_agent.Conversation.Store.Nodes.create_node
    learn_agent.Conversation.Store.Nodes.next_position
    learn_agent.Conversation.Store.Queue.mark_queue_sent
    learn_agent.Conversation.Store.Queue.write_item learn_agent.Conversation.Service.Events.recorded
    learn_agent.Conversation.Service.Events.remember
    learn_agent.Conversation.Service.Events.append_and_emit
    learn_agent.Conversation.Service.Events.queue_updated
    learn_agent.Conversation.Store.Outbox.append_outbox
second_send-ok = refl

Run-Within_example : open_count "conv_1" (tables_of second_send) ≤ 1
Run-Within_example =
    Run-Within 0 one_item (tables_of second_send)
      (next
        (next start (
          sends plain_hash none 5 4 4_000 numbered "conv_1" sending one_item one_item
            (tables_of first_send) (value_of none first_send) (events_of first_send)
            (ran none first_send first_send-ok)))
        (sends plain_hash none 5 4 5_000 numbered "conv_1" sending one_item (tables_of first_send)
          (tables_of second_send) (value_of none second_send) (events_of second_send)
          (ran none second_send second_send-ok)))
      (λ c. omega arith) "conv_1"

-- Only the first has sent the message.
second_send_lem : value_of none second_send ≡ none
unfolding send_next list_active_queue order_by learn_agent.Prelude.place concat
    learn_agent.Conversation.Store.Turns.get_conversation
    learn_agent.Conversation.Store.Turns.get_active_turn learn_agent.Conversation.Store.Turns.latest
    learn_agent.Conversation.Store.Turns.count_active_turns_in_scope
    learn_agent.Conversation.Store.Turns.count_active_turns
    learn_agent.Conversation.Store.Turns.create_turn_if_no_active
    learn_agent.Conversation.Store.Turns.bump_session_version
    learn_agent.Conversation.Service.Sending.send_item
    learn_agent.Conversation.Service.Sending.check_limits
    learn_agent.Conversation.Service.Sending.create_and_dispatch
    learn_agent.Conversation.Service.Sending.dispatch
    learn_agent.Conversation.Service.Sending.user_node
    learn_agent.Conversation.Service.Images.consume_images
    learn_agent.Conversation.Store.Nodes.create_node
    learn_agent.Conversation.Store.Nodes.next_position
    learn_agent.Conversation.Store.Queue.mark_queue_sent
    learn_agent.Conversation.Store.Queue.write_item learn_agent.Conversation.Service.Events.recorded
    learn_agent.Conversation.Service.Events.remember
    learn_agent.Conversation.Service.Events.append_and_emit
    learn_agent.Conversation.Service.Events.queue_updated
    learn_agent.Conversation.Store.Outbox.append_outbox
second_send_lem = refl
