-- ===== src/Conversation/Store/Turns.antt =====
-- gateway/conversation/store.py: conversations and turns.
use learn_agent.Prelude.{
  ℕ, ◌+◌, String, Option, none, some, List, [], ◌∷◌, Bool, true, false, ◌&&◌, ◌==◌, if◌then◌else◌,
  millis, lookup, add, update, map_rows, keep, any, length, values, Result, ok, require,
  resource_not_found, turn_not_found, type_error, ◌>>=◌, leb,
}
use learn_agent.Conversation.TurnStatus.{TurnStatus, queued, interrupted, is_active}
use learn_agent.Conversation.Model.{ConversationSession, Turn, Tables, gen_id}

unfoldable pub get_conversation : String → Tables → Result ConversationSession
get_conversation id db = require (lookup id db.conversations) resource_not_found

unfoldable pub find_session :
    String → List (String × ConversationSession) → Option ConversationSession
find_session key [] = none
find_session key ((id, row) ∷ rows) =
    if row.session_key == key then some row else find_session key rows

-- What create_conversation is given.
pub record NewConversation : Type 0 where
  pub session_key : String
  pub origin : String
  pub subtype : String
  pub execution_scope : String
  pub workspace_id : Option String
  pub channel : Option String

abbrev pub new_conversation : ℕ → String → NewConversation → ConversationSession
new_conversation clock token new = record {
  conversation_id = gen_id "conv_" token;
  session_key = new.session_key;
  origin = new.origin;
  subtype = new.subtype;
  execution_scope = new.execution_scope;
  workspace_id = new.workspace_id;
  channel = new.channel;
  session_version = 0;
  created_at = millis clock;
  updated_at = millis clock;
}

-- create_conversation, on a database that no other call changes between its query and its insertion
unfoldable pub create_conversation :
    ℕ → String → NewConversation → Tables → Result (ConversationSession × Bool × Tables)
create_conversation clock token new db = elim (find_session new.session_key db.conversations) [
  | some row ↦ ok (row, false, db)
  | none ↦ do
    let row = new_conversation clock token new
    conversations ← add row.conversation_id row db.conversations
    ok (row, true, record db { conversations = conversations })
]

abbrev pub bump : ℕ → ConversationSession → ConversationSession
bump clock row = record row { session_version = row.session_version + 1; updated_at = millis clock }

-- bump_session_version: the new version, and 0 where there is no such conversation
unfoldable pub bump_session_version : ℕ → String → Tables → ℕ × Tables
bump_session_version clock id db =
    let conversations = update id (bump clock) db.conversations in
    (
      elim (lookup id conversations) [ none ↦ 0 | some row ↦ row.session_version ],
      record db { conversations = conversations },
    )

-- What create_turn and create_turn_if_no_active are given.
pub record NewTurn : Type 0 where
  pub runtime_snapshot_id : Option String
  pub parent_conversation_id : Option String
  pub parent_turn_id : Option String

abbrev pub new_turn : ℕ → String → String → NewTurn → Turn
new_turn clock token conversation new = record {
  turn_id = gen_id "turn_" token;
  conversation_id = conversation;
  status = queued;
  turn_version = 1;
  runtime_snapshot_id = new.runtime_snapshot_id;
  started_at = millis clock;
  finished_at = none;
  final_assistant_node_id = none;
  error_code = none;
  parent_conversation_id = new.parent_conversation_id;
  parent_turn_id = new.parent_turn_id;
}

abbrev pub is_open : String → Turn → Bool
is_open conversation turn = turn.conversation_id == conversation && is_active turn.status

-- create_turn_if_no_active: INSERT ... SELECT ... WHERE NOT EXISTS, one statement
unfoldable pub create_turn_if_no_active :
    ℕ → String → String → NewTurn → Tables → Result (Option Turn × Tables)
create_turn_if_no_active clock token conversation new db =
    if any (is_open conversation) (values db.turns) then ok (none, db) else (do
      let turn = new_turn clock token conversation new
      turns ← add turn.turn_id turn db.turns
      ok (some turn, record db { turns = turns }))

unfoldable pub get_turn : String → Tables → Result Turn
get_turn id db = require (lookup id db.turns) turn_not_found

-- ORDER BY started_at DESC, of rows in the order of insertion, LIMIT 1
unfoldable pub latest : List Turn → Option Turn
latest [] = none
latest (turn ∷ turns) = elim (latest turns) [
  | none ↦ some turn
  | some other ↦ some (if leb other.started_at turn.started_at then turn else other)
]

unfoldable pub get_active_turn : String → Tables → Option Turn
get_active_turn conversation db = latest (keep (is_open conversation) (values db.turns))

-- COALESCE(?, column)
abbrev pub coalesce {ℓ} : {A : Type ℓ} → Option A → Option A → Option A
coalesce none old = old
coalesce (some new) old = some new

-- The optional arguments of update_turn_status.
pub record TurnEnd : Type 0 where
  pub error_code : Option String
  pub finished_at : Option ℕ
  pub final_assistant_node_id : Option String

abbrev pub no_end : TurnEnd
no_end = record { error_code = none; finished_at = none; final_assistant_node_id = none }

abbrev pub set_status : TurnStatus → TurnEnd → Turn → Turn
set_status s end turn = record turn {
  status = s;
  turn_version = turn.turn_version + 1;
  finished_at = coalesce end.finished_at turn.finished_at;
  error_code = coalesce end.error_code turn.error_code;
  final_assistant_node_id = coalesce end.final_assistant_node_id turn.final_assistant_node_id;
}

-- update_turn_status; on a missing row the source reads a field of None, a TypeError
unfoldable pub update_turn_status : String → TurnStatus → TurnEnd → Tables → Result (Turn × Tables)
update_turn_status id s end db = do
  let turns = update id (set_status s end) db.turns
  turn ← require (lookup id turns) type_error
  ok (turn, record db { turns = turns })

abbrev pub next_version : Turn → Turn
next_version turn = record turn { turn_version = turn.turn_version + 1 }

unfoldable pub bump_turn_version : String → Tables → ℕ × Tables
bump_turn_version id db =
    let turns = update id next_version db.turns in
    (
      elim (lookup id turns) [ none ↦ 0 | some turn ↦ turn.turn_version ],
      record db { turns = turns },
    )

-- JOIN conversation_sessions ON conversation_id, WHERE execution_scope=?
abbrev in_scope : String → Tables → Turn → Bool
in_scope scope db turn =
    is_active turn.status && elim (lookup turn.conversation_id db.conversations) [
      | none ↦ false
      | some row ↦ row.execution_scope == scope
    ]

unfoldable pub count_active_turns_in_scope : String → Tables → ℕ
count_active_turns_in_scope scope db = length (keep (in_scope scope db) (values db.turns))

unfoldable pub count_active_turns : Tables → ℕ
count_active_turns db = length (keep (λ turn. is_active turn.status) (values db.turns))

abbrev pub interrupt : ℕ → Turn → Turn
interrupt clock turn =
    if is_active turn.status
    then record turn {
      status = interrupted;
      turn_version = turn.turn_version + 1;
      error_code = coalesce turn.error_code (some "gateway_restart");
      finished_at = coalesce turn.finished_at (some (millis clock));
    }
    else turn

-- interrupt_active_turns: the number of rows changed
unfoldable pub interrupt_active_turns : ℕ → Tables → ℕ × Tables
interrupt_active_turns clock db =
    (count_active_turns db, record db { turns = map_rows (interrupt clock) db.turns })
