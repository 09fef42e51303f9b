-- ===== src/Conversation/Service/Steering.antt =====
-- gateway/conversation/service.py: messages that are put into a running turn, in two phases.
use learn_agent.Prelude.{
  ℕ, ◌+◌, ◌-◌, String, Option, none, some, List, [], ◌∷◌, Bool, true, false, not, ◌&&◌, ◌==◌,
  if◌then◌else◌, lookup, insert, without, map, Result, ok, err, guard, resource_not_found,
  queue_conflict, validation_failed, steering_limit, ◌>>=◌, ◌>>◌, ltb,
}
use learn_agent.Conversation.NodeType.{user_steering}
use learn_agent.Conversation.QueueStatus.{waiting, waiting_for_steering, is_waiting, is_steering}
use learn_agent.Conversation.Model.{
  ConversationSession, Turn, TurnNode, QueueItem, Tables, words, listed,
}
use learn_agent.Conversation.Store.Turns.{get_conversation, get_active_turn, bump_turn_version}
use learn_agent.Conversation.Store.Nodes.{NewNode, plain_node, create_node, count_steering_nodes}
use learn_agent.Conversation.Store.Queue.{get_queue_item, set_queue_status, mark_queue_injected}
use learn_agent.Conversation.Service.Events.{Pending, queue_updated, append_and_emit}

abbrev pub max_steering_per_turn : ℕ
max_steering_per_turn = 10

-- STEERING_TIMEOUT_SECONDS in microseconds
abbrev pub steering_timeout : ℕ
steering_timeout = 10_000_000

-- _steering_pending: under the conversation, the items that wait and the deadline of the wait
pub record Wait : Type 0 where
  pub qids : List String
  pub deadline : ℕ

abbrev pub Waits : Type 0
Waits = List (String × Wait)

unfoldable pub register_steering_wait : ℕ → String → List String → Waits → Waits
register_steering_wait clock conversation ids waits =
    insert conversation (record { qids = ids; deadline = clock + steering_timeout }) waits

unfoldable pub pending_steering : String → Waits → Option (List String)
pending_steering conversation waits = elim (lookup conversation waits) [
  | none ↦ none
  | some wait ↦ some wait.qids
]

unfoldable pub steering_remaining : ℕ → String → Waits → Option ℕ
steering_remaining clock conversation waits = elim (lookup conversation waits) [
  | none ↦ none
  | some wait ↦ some (wait.deadline - clock)
]

unfoldable pub conclude_steering : String → Waits → Waits
conclude_steering conversation waits = without conversation waits

unfoldable pub check_steering_timeout : ℕ → String → Waits → Option (List String) × Waits
check_steering_timeout clock conversation waits = elim (lookup conversation waits) [
  | none ↦ (none, waits)
  | some wait ↦
      if ltb clock wait.deadline
      then (none, waits)
      else (some wait.qids, without conversation waits)
]

-- The loop of prepare_steering: every item is the conversation's, and waits.
unfoldable pub hold_items : ℕ → String → List String → Tables → Result (List QueueItem × Tables)
hold_items clock conversation [] db = ok ([], db)
hold_items clock conversation (id ∷ ids) db = do
  item ← get_queue_item id db
  guard (item.conversation_id == conversation) resource_not_found
  guard (is_waiting item.status) queue_conflict
  (held, db₁) ← set_queue_status clock id waiting_for_steering db
  (items, db₂) ← hold_items clock conversation ids db₁
  ok (held ∷ items, db₂)

abbrev ids_of : List QueueItem → List String
ids_of = map (λ item. item.queue_item_id)

abbrev no_ids : List String → Bool
no_ids [] = true
no_ids (id ∷ ids) = false

unfoldable pub prepare_steering :
    ℕ
    → (ℕ → String)
    → String
    → List String
    → Tables
    → Result ((Turn × List QueueItem) × Pending × Tables)
prepare_steering clock ids conversation chosen db = do
  conv ← get_conversation conversation db
  elim (get_active_turn conversation db) [
    | none ↦ err queue_conflict
    | some turn ↦ do
      guard (not (no_ids chosen)) validation_failed
      guard (ltb (count_steering_nodes turn.turn_id db) max_steering_per_turn) steering_limit
      (items, db₁) ← hold_items clock conversation chosen db
      (events, db₂) ←
          queue_updated clock (ids 0) conv (("steering", listed (ids_of items)) ∷ []) ([], db₁)
      ok ((turn, items), events, db₂)
  ]

abbrev steering_node : String → QueueItem → NewNode
steering_node turn item =
    record (plain_node user_steering "injected" (some turn) (some item.body)) {
      metadata = ("role", words "user") ∷ ("source", words "steering") ∷ [];
    }

-- The loop of commit_steering: an item of another conversation, or one that does not wait for it, is
-- passed over. `n` counts the ids used.
unfoldable pub inject_items :
    ℕ → (ℕ → String) → ℕ → String → String → List String → Tables → Result (List TurnNode × Tables)
inject_items clock ids n conversation turn [] db = ok ([], db)
inject_items clock ids n conversation turn (id ∷ chosen) db = do
  item ← get_queue_item id db
  if item.conversation_id == conversation && is_steering item.status
      then (do
        (node, db₁) ← create_node clock (ids n) conversation (steering_node turn item) db
        (marked, db₂) ← mark_queue_injected clock id node.node_id db₁
        (nodes, db₃) ← inject_items clock ids (n + 1) conversation turn chosen db₂
        ok (node ∷ nodes, db₃))
      else inject_items clock ids n conversation turn chosen db

-- The turn has ended: every item waits again, whatever it was.
unfoldable pub restore_items : ℕ → List String → Tables → Result Tables
restore_items clock [] db = ok db
restore_items clock (id ∷ ids) db = do
  (item, db₁) ← set_queue_status clock id waiting db
  restore_items clock ids db₁

abbrev node_ids : List TurnNode → List String
node_ids = map (λ node. node.node_id)

abbrev body_of : TurnNode → String
body_of node = elim node.body [ none ↦ "" | some t ↦ t ]

-- The two events of a commit that injected something.
unfoldable pub announce_injected :
    ℕ
    → (ℕ → String)
    → ConversationSession
    → String
    → List TurnNode
    → Tables
    → Result (List TurnNode × Pending × Tables)
announce_injected clock ids conv turn nodes db = do
  let (version, db₁) = bump_turn_version turn db
  (events, db₂) ←
      append_and_emit clock (ids 0) conv "node.user_steering" "turn" version (some turn)
        (("nodes", listed (node_ids nodes)) ∷ ("texts", listed (map body_of nodes)) ∷ []) ([], db₁)
  (events₁, db₃) ←
      queue_updated clock (ids 1) conv (("injected", listed (node_ids nodes)) ∷ []) (events, db₂)
  ok (nodes, events₁, db₃)

unfoldable pub commit_steering :
    ℕ → (ℕ → String) → String → List String → Tables → Result (List TurnNode × Pending × Tables)
commit_steering clock ids conversation chosen db = do
  conv ← get_conversation conversation db
  elim (get_active_turn conversation db) [
    | none ↦ do db₁ ← restore_items clock chosen db; ok ([], [], db₁)
    | some turn ↦ do
      (nodes, db₁) ← inject_items clock ids 2 conversation turn.turn_id chosen db
      elim nodes [
        | [] ↦ ok ([], [], db₁)
        | node ∷ more ↦ announce_injected clock ids conv turn.turn_id (node ∷ more) db₁
      ]
  ]

-- The loop of abort_steering; a missing item is passed over.
unfoldable pub release_items : ℕ → String → List String → Tables → Result Tables
release_items clock conversation [] db = ok db
release_items clock conversation (id ∷ ids) db = elim (lookup id db.items) [
  | none ↦ release_items clock conversation ids db
  | some item ↦
      if item.conversation_id == conversation && is_steering item.status
      then (do
        (freed, db₁) ← set_queue_status clock id waiting db
        release_items clock conversation ids db₁)
      else release_items clock conversation ids db
]

unfoldable pub abort_steering :
    ℕ → (ℕ → String) → String → List String → Tables → Result (Pending × Tables)
abort_steering clock ids conversation chosen db = do
  conv ← get_conversation conversation db
  db₁ ← release_items clock conversation chosen db
  queue_updated clock (ids 0) conv (("aborted_steering", listed chosen) ∷ []) ([], db₁)
