-- ===== src/Examples/Histories.antt =====
-- Runs of the tool events and of the pages of a history (gateway/conversation).
use learn_agent.Prelude.{
  ℕ, suc, ◌≡◌, ◌≢◌, refl, String, Option, none, some, err, List, [], ◌∷◌, ok, lookup, eq_iff, arith,
  length, concat, prefix, reversed, if◌then◌else◌, ◌==◌, Result, take, sort_by, keep, values,
}
use learn_agent.Conversation.NodeType.{tool}
use learn_agent.Conversation.Model.{
  ConversationSession, Turn, TurnNode, Tables, empty_tables, words,
}
use learn_agent.Conversation.Store.Turns.{NewTurn, new_turn, new_conversation, coalesce}
use learn_agent.Conversation.Store.Nodes.{plain_node, new_node}
use learn_agent.Conversation.Store.History.{newest, history_page}
use learn_agent.Conversation.Store.History.Paging.{
  read_history, read_history-whole, turns_of, RowidsDiffer,
}
use learn_agent.Conversation.Service.Events.{Pending}
use learn_agent.Conversation.Service.Tools.{
  ToolEvent, fields_of, gen_node_id_from_call, upsert_tool_node,
}
use learn_agent.Conversation.Service.Tools.Columns.{params, key_of, gives, upsert_tool_node-merges}

abbrev feishu : ConversationSession
feishu = new_conversation 1_000 "1" (record {
  session_key = "feishu:1";
  origin = "channel";
  subtype = "feishu";
  execution_scope = "gateway:default";
  workspace_id = none;
  channel = some "feishu";
})

abbrev turn_at : ℕ → String → Turn
turn_at clock token =
    new_turn clock token "conv_1"
      (record { runtime_snapshot_id = none; parent_conversation_id = none; parent_turn_id = none })

abbrev no_tables : Tables
no_tables = record empty_tables { conversations = ("conv_1", feishu) ∷ [] }

-- Three turns, of which two started in the same millisecond.
abbrev three_turns : Tables
three_turns = record no_tables {
  turns =
      ("turn_1", turn_at 3_000 "1")
      ∷ ("turn_2", turn_at 5_000 "2")
      ∷ ("turn_3", turn_at 5_000 "3")
      ∷ [];
}

abbrev row_of : Turn → ℕ
row_of turn = if turn.turn_id == "turn_1" then 1 else if turn.turn_id == "turn_2" then 2 else 3

-- The page of the newest two turns, oldest first.
first_page :
    turns_of (history_page row_of "conv_1" none 2 three_turns)
    ≡ turn_at 5_000 "2" ∷ turn_at 5_000 "3" ∷ []
unfolding history_page learn_agent.Conversation.Store.History.page_rows newest sort_by
    learn_agent.Prelude.place_by concat
first_page = refl

one_two : ◌≢◌ {A = ℕ} 1 2
one_two = ground arith

one_three : ◌≢◌ {A = ℕ} 1 3
one_three = ground arith

two_three : ◌≢◌ {A = ℕ} 2 3
two_three = ground arith

rows_differ : RowidsDiffer row_of (values three_turns.turns)
unfolding concat
rows_differ = ((one_two, (one_three, tt)), ((two_three, tt), (tt, tt)))

read_history-whole_example :
    read_history row_of "conv_1" 2 three_turns
      (suc (length (newest row_of "conv_1" three_turns)))
      none
    ≡ some (reversed (newest row_of "conv_1" three_turns))
read_history-whole_example = read_history-whole row_of "conv_1" 2 three_turns rows_differ

-- A running tool: its start has come, with the parameters of the call.
abbrev plain_digest : String → String
plain_digest t = t

abbrev running_tool : TurnNode
running_tool =
    new_node 4_000 "" "conv_1"
      (record (plain_node tool "running" (some "turn_1") (some "ls")) {
        metadata =
            ("call_id", words "c1") ∷ ("tool", words "bash") ∷ ("params_summary", words "ls") ∷ [];
        node_id = some "node_conv_1:c1";
      })
      no_tables

abbrev tool_tables : Tables
tool_tables = record three_turns { nodes = ("node_conv_1:c1", running_tool) ∷ [] }

abbrev tool_end : ToolEvent
tool_end = record {
  status = "done";
  params_summary = none;
  result_summary = some "a.txt";
  error = none;
  error_code = none;
  error_message = none;
  result_ref = none;
  result_size_bytes = 5;
  tool_name = none;
  extra_metadata = [];
}

abbrev token_e : ℕ → String
token_e n = "e"

abbrev ended : Result (TurnNode × Pending × Tables)
ended = upsert_tool_node plain_digest 6_000 token_e "conv_1" "turn_1" "c1" tool_end tool_tables

abbrev node_after : TurnNode
node_after = elim ended [ err problem ↦ running_tool | ok out ↦ out.0 ]

abbrev events_after : Pending
events_after = elim ended [ err problem ↦ [] | ok out ↦ out.1 ]

abbrev tables_after : Tables
tables_after = elim ended [ err problem ↦ tool_tables | ok out ↦ out.2 ]

was_found :
    lookup (gen_node_id_from_call plain_digest "c1" "conv_1") tool_tables.nodes ≡ some running_tool
unfolding concat prefix
was_found = refl

ended-ok : ended ≡ ok (node_after, events_after, tables_after)
unfolding upsert_tool_node learn_agent.Conversation.Store.Turns.get_conversation
    learn_agent.Conversation.Service.Turns.assert_turn_owned
    learn_agent.Conversation.Store.Turns.get_turn learn_agent.Conversation.Service.Tools.write_tool
    concat prefix learn_agent.Conversation.Store.Nodes.update_node
    learn_agent.Conversation.Store.Nodes.write_node
    learn_agent.Conversation.Service.Events.append_and_emit
    learn_agent.Conversation.Store.Outbox.append_outbox
    learn_agent.Conversation.Store.Turns.bump_turn_version
ended-ok = refl

upsert_tool_node-merges_example :
    (lookup (gen_node_id_from_call plain_digest "c1" "conv_1") tables_after.nodes ≡ some node_after)
    × (length tables_after.nodes ≡ 1)
    × (node_after.status ≡ "done")
    × (lookup (key_of params) node_after.metadata
        ≡ coalesce (gives params tool_end) (lookup (key_of params) running_tool.metadata))
unfolding upsert_tool_node
upsert_tool_node-merges_example =
    upsert_tool_node-merges plain_digest 6_000 token_e "conv_1" "turn_1" "c1" tool_end tool_tables
      tables_after running_tool node_after events_after params was_found refl ended-ok
