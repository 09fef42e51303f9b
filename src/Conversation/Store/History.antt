-- ===== src/Conversation/Store/History.antt =====
-- gateway/conversation/store.py: what the frontends read, the snapshot of a conversation and the
-- pages of its history. A cursor stands decoded; its text is base64 of JSON. `rowid` is SQLite's.
pub mod Paging
use learn_agent.Prelude.{
  ℕ, String, Option, none, some, List, [], ◌∷◌, Bool, true, false, ◌&&◌, ◌||◌, ◌==◌, ltb, eqb, min,
  max, millis, lookup, keep, any, values, take, order_by, head, drop, map, Result, ok, add, require,
  resource_not_found, ◌>>=◌, sort_by, last, reversed, is_some, not, same_text, if◌then◌else◌,
}
use learn_agent.Conversation.TurnStatus.{TurnStatus}
use learn_agent.Conversation.NodeType.{user}
use learn_agent.Conversation.Model.{
  ConversationSession, Turn, TurnNode, QueueItem, Approval, Tables,
}
use learn_agent.Conversation.Store.Turns.{NewTurn, new_turn, get_conversation, get_active_turn}
use learn_agent.Conversation.Store.Nodes.{get_turn_nodes, of_type, rank}
use learn_agent.Conversation.Store.Queue.{list_active_queue}
use learn_agent.Conversation.Store.Approvals.{list_pending_approvals}

-- max(1, min(limit, most))
abbrev pub clamp : ℕ → ℕ → ℕ
clamp most limit = max 1 (min limit most)

abbrev pub of_conversation : String → Turn → Bool
of_conversation conversation turn = turn.conversation_id == conversation

-- create_turn, which does not look for an active turn
unfoldable pub create_turn :
    ℕ → String → String → TurnStatus → NewTurn → Tables → Result (Turn × Tables)
create_turn clock token conversation status new db = do
  let turn : Turn = record (new_turn clock token conversation new) { status = status }
  turns ← add turn.turn_id turn db.turns
  ok (turn, record db { turns = turns })

-- get_turn_user_node
unfoldable pub get_turn_user_node : String → Tables → Option TurnNode
get_turn_user_node turn db = head (order_by rank (keep (of_type turn user) (values db.nodes)))

abbrev is_queued : String → TurnNode → Bool
is_queued conversation node = node.conversation_id == conversation && not (is_some node.turn_id)

-- The nodes of messages that have not been sent, ORDER BY created_at.
unfoldable pub queued_nodes : String → Tables → List TurnNode
queued_nodes conversation db =
    order_by (λ node. node.created_at) (keep (is_queued conversation) (values db.nodes))

-- The snapshot; its version is the conversation's.
pub record Snapshot : Type 0 where
  pub conversation : ConversationSession
  pub queue : List QueueItem
  pub live_turn : Option Turn
  pub turn_version : ℕ
  pub nodes : List TurnNode
  pub queued : List TurnNode
  pub pending_approvals : List Approval
  pub server_time : ℕ

unfoldable pub snapshot : ℕ → String → Tables → Result Snapshot
snapshot clock id db = do
  conv ← get_conversation id db
  let live = get_active_turn id db
  ok (record {
    conversation = conv;
    queue = list_active_queue id db;
    live_turn = live;
    turn_version = elim live [ none ↦ 0 | some turn ↦ turn.turn_version ];
    nodes = elim live [ none ↦ [] | some turn ↦ get_turn_nodes turn.turn_id db ];
    queued = queued_nodes id db;
    pending_approvals = list_pending_approvals id db;
    server_time = millis clock;
  })

-- A cursor of an old client has no row.
pub record Cursor : Type 0 where
  pub started : ℕ
  pub row : Option ℕ

pub record Page : Type 0 where
  pub items : List (Turn × List TurnNode)
  pub next_cursor : Option Cursor

module _ (rowid : Turn → ℕ) where
  -- started_at < ? OR (started_at = ? AND rowid < ?)
  abbrev pub is_older : ℕ → ℕ → Turn → Bool
  is_older started row turn =
      ltb turn.started_at started || (eqb turn.started_at started && ltb (rowid turn) row)

  abbrev pub is_before : Option Cursor → Turn → Bool
  is_before none turn = true
  is_before (some c) turn = elim c.row [
    | none ↦ ltb turn.started_at c.started
    | some row ↦ is_older c.started row turn
  ]

  -- The turn comes first where both are listed by started_at DESC, rowid DESC.
  abbrev pub precedes : Turn → Turn → Bool
  precedes turn other = is_older turn.started_at (rowid turn) other

  -- The turns of a conversation, newest first.
  unfoldable pub newest : String → Tables → List Turn
  newest conversation db = sort_by precedes (keep (of_conversation conversation) (values db.turns))

  unfoldable pub page_rows : String → Option Cursor → ℕ → Tables → List Turn
  page_rows conversation before limit db =
      take (clamp 200 limit) (keep (is_before before) (newest conversation db))

  abbrev pub cursor_of : Turn → Cursor
  cursor_of turn = record { started = turn.started_at; row = some (rowid turn) }

  -- The boundary of the next page, if the conversation has a turn beyond it.
  unfoldable pub next_cursor_of : String → List Turn → Tables → Option Cursor
  next_cursor_of conversation rows db = elim (last rows) [
    | none ↦ none
    | some turn ↦
        if any (precedes turn) (newest conversation db) then some (cursor_of turn) else none
  ]

  -- history_page: the page's turns, oldest first, with their nodes
  unfoldable pub history_page : String → Option Cursor → ℕ → Tables → Page
  history_page conversation before limit db =
      let rows = page_rows conversation before limit db in
      record {
        items = map (λ turn. (turn, get_turn_nodes turn.turn_id db)) (reversed rows);
        next_cursor = next_cursor_of conversation rows db;
      }
