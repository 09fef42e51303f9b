-- ===== src/Conversation/Store/Nodes.antt =====
-- gateway/conversation/store.py: the nodes of turns.
pub mod Streaming
use learn_agent.Prelude.{
  ℕ, zero, suc, ◌+◌, String, Option, none, some, List, [], ◌∷◌, ◌++◌, Bool, true, false, not, ◌&&◌,
  ◌||◌, ◌==◌, if◌then◌else◌, millis, lookup, insert, add, update, map_rows, keep, length, values,
  Result, ok, err, require, resource_not_found, type_error, ◌>>=◌, leb, eqb, greatest, order_by,
  is_some, concat, same_text,
}
use learn_agent.Conversation.NodeType.{TurnNodeType, user, user_steering, tool, same_type}
use learn_agent.Conversation.Model.{
  TurnNode, Tables, Metadata, Value, words, flag, amount, pictures, gen_id,
}

-- turn_id=?
abbrev pub in_turn : String → TurnNode → Bool
in_turn turn node = same_text node.turn_id (some turn)

-- The position as a number that NULL precedes.
abbrev pub rank : TurnNode → ℕ
rank node = elim node.position [ none ↦ 0 | some p ↦ suc p ]

abbrev after_rank : ℕ → ℕ
after_rank zero = 1
after_rank (suc p) = p + 1

-- _next_position: one after the greatest position in the turn
unfoldable pub next_position : String → Tables → ℕ
next_position turn db = elim (greatest rank (keep (in_turn turn) (values db.nodes))) [
  | none ↦ 1
  | some m ↦ after_rank m
]

-- The arguments of create_node; a node without id gets a generated one.
pub record NewNode : Type 0 where
  pub node_type : TurnNodeType
  pub status : String
  pub turn_id : Option String
  pub body : Option String
  pub metadata : Metadata
  pub source_channel : Option String
  pub source_message_id : Option String
  pub sender_id : Option String
  pub sender_name : Option String
  pub node_id : Option String

abbrev pub plain_node : TurnNodeType → String → Option String → Option String → NewNode
plain_node type_of status turn body = record {
  node_type = type_of;
  status = status;
  turn_id = turn;
  body = body;
  metadata = [];
  source_channel = none;
  source_message_id = none;
  sender_id = none;
  sender_name = none;
  node_id = none;
}

-- The node id that is given, or a generated one.
abbrev node_key : String → Option String → String
node_key token none = gen_id "node_" token
node_key token (some id) = if id == "" then gen_id "node_" token else id

-- The position of a new node: none outside a turn.
abbrev place_of : Option String → Tables → Option ℕ
place_of none db = none
place_of (some turn) db = if turn == "" then none else some (next_position turn db)

abbrev pub new_node : ℕ → String → String → NewNode → Tables → TurnNode
new_node clock token conversation new db = record {
  node_id = node_key token new.node_id;
  conversation_id = conversation;
  node_type = new.node_type;
  position = place_of new.turn_id db;
  status = new.status;
  turn_id = new.turn_id;
  body = new.body;
  metadata = new.metadata;
  source_channel = new.source_channel;
  source_message_id = new.source_message_id;
  sender_id = new.sender_id;
  sender_name = new.sender_name;
  created_at = millis clock;
  updated_at = millis clock;
  text_seq = if is_some new.body then 1 else 0;
}

unfoldable pub create_node : ℕ → String → String → NewNode → Tables → Result (TurnNode × Tables)
create_node clock token conversation new db = do
  let node = new_node clock token conversation new db
  nodes ← add node.node_id node db.nodes
  ok (node, record db { nodes = nodes })

-- An UPDATE of one node, and the row that it leaves; the source reads a missing row as None.
unfoldable pub write_node : String → (TurnNode → TurnNode) → Tables → Result (TurnNode × Tables)
write_node id change db = do
  let nodes = update id change db.nodes
  node ← require (lookup id nodes) type_error
  ok (node, record db { nodes = nodes })

unfoldable pub assign_node_to_turn : ℕ → String → String → ℕ → Tables → Result (TurnNode × Tables)
assign_node_to_turn clock id turn position db =
    write_node id
      (λ node. record node {
        turn_id = some turn;
        position = some position;
        updated_at = millis clock;
      })
      db

unfoldable pub set_node_status : ℕ → String → String → Tables → Result (TurnNode × Tables)
set_node_status clock id status db =
    write_node id (λ node. record node { status = status; updated_at = millis clock }) db

unfoldable pub get_node : String → Tables → Result TurnNode
get_node id db = require (lookup id db.nodes) resource_not_found

-- ORDER BY position DESC LIMIT 1
unfoldable pub last_node : List TurnNode → Option TurnNode
last_node [] = none
last_node (node ∷ nodes) = elim (last_node nodes) [
  | none ↦ some node
  | some other ↦ some (if leb (rank node) (rank other) then other else node)
]

abbrev pub of_type : String → TurnNodeType → TurnNode → Bool
of_type turn type_of node = in_turn turn node && same_type node.node_type type_of

unfoldable pub get_last_turn_node : String → TurnNodeType → Tables → Option TurnNode
get_last_turn_node turn type_of db = last_node (keep (of_type turn type_of) (values db.nodes))

unfoldable pub find_last_node_id : String → TurnNodeType → Tables → Option String
find_last_node_id turn type_of db = elim (get_last_turn_node turn type_of db) [
  | none ↦ none
  | some node ↦ some node.node_id
]

unfoldable pub get_turn_nodes : String → Tables → List TurnNode
get_turn_nodes turn db = order_by rank (keep (in_turn turn) (values db.nodes))

-- COALESCE(text, '') || ?
abbrev pub appended : Option String → String → String
appended none delta = delta
appended (some old) delta = concat old delta

abbrev pub grow : ℕ → String → TurnNode → TurnNode
grow clock delta node = record node {
  body = some (appended node.body delta);
  text_seq = node.text_seq + 1;
  updated_at = millis clock;
}

unfoldable pub append_node_text : ℕ → String → String → Tables → Result (TurnNode × Tables)
append_node_text clock id delta db = write_node id (grow clock delta) db

-- The optional arguments of update_node.
pub record NodeChange : Type 0 where
  pub body : Option String
  pub status : Option String
  pub metadata : Option Metadata

abbrev pub change_node : ℕ → NodeChange → TurnNode → TurnNode
change_node clock change node = record node {
  body = elim change.body [ none ↦ node.body | some t ↦ some t ];
  status = elim change.status [ none ↦ node.status | some s ↦ s ];
  metadata = elim change.metadata [ none ↦ node.metadata | some m ↦ m ];
  updated_at = millis clock;
}

unfoldable pub update_node : ℕ → String → NodeChange → Tables → Result (TurnNode × Tables)
update_node clock id change db =
    if is_some change.body || is_some change.status || is_some change.metadata
    then write_node id (change_node clock change) db
    else (do node ← get_node id db; ok (node, db))

-- status IN ('streaming','queued') of a turn's nodes
abbrev pub unfinished : String → TurnNode → Bool
unfinished turn node = in_turn turn node && (node.status == "streaming" || node.status == "queued")

abbrev pub finalized : ℕ → String → TurnNode → TurnNode
finalized clock turn node =
    if unfinished turn node
    then record node { status = "done"; updated_at = millis clock }
    else node

unfoldable pub finalize_turn_nodes : ℕ → String → Tables → ℕ × Tables
finalize_turn_nodes clock turn db = (
  length (keep (unfinished turn) (values db.nodes)),
  record db { nodes = map_rows (finalized clock turn) db.nodes },
)

-- Python's truth of a value in the metadata, and of `metadata.get(key)`.
abbrev pub truth : Value → Bool
truth (words t) = not (t == "")
truth (flag b) = b
truth (amount n) = not (eqb n 0)
truth (pictures []) = false
truth (pictures (p ∷ ps)) = true

abbrev pub has : String → Metadata → Bool
has key m = elim (lookup key m) [ none ↦ false | some v ↦ truth v ]

-- metadata.setdefault
abbrev pub set_default : String → Value → Metadata → Metadata
set_default key v m = if is_some (lookup key m) then m else insert key v m

unfoldable pub swept_metadata : String → String → Metadata → Metadata
swept_metadata note code m = insert "turn_terminal_sweep" (flag true) (
    insert "error_message" (words note) (
      insert "error_code" (words code)
        (insert "error" (words note) (set_default "result_summary" (words note) m))))

-- The nodes that the sweep closes: running tools that no background task owns.
abbrev pub is_swept : String → TurnNode → Bool
is_swept turn node =
    in_turn turn node
    && same_type node.node_type tool
    && node.status == "running"
    && not (has "runtime_type" node.metadata)

abbrev pub sweep : ℕ → String → String → String → TurnNode → TurnNode
sweep clock turn note code node =
    if is_swept turn node
    then record node {
      status = "error";
      metadata = swept_metadata note code node.metadata;
      updated_at = millis clock;
    }
    else node

-- sweep_running_tool_nodes: the nodes as they were closed
unfoldable pub sweep_running_tool_nodes :
    ℕ → String → String → String → Tables → List TurnNode × Tables
sweep_running_tool_nodes clock turn note code db = (
  keep (is_swept turn) (values db.nodes),
  record db { nodes = map_rows (sweep clock turn note code) db.nodes },
)

unfoldable pub count_steering_nodes : String → Tables → ℕ
count_steering_nodes turn db =
    length
      (keep (λ node. in_turn turn node && same_type node.node_type user_steering) (values db.nodes))
