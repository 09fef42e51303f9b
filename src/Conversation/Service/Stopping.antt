-- ===== src/Conversation/Service/Stopping.antt =====
-- gateway/conversation/service.py: the replies of background runs, and stopping a turn.
use learn_agent.Prelude.{
  ℕ, String, Option, none, some, [], ◌∷◌, ◌++◌, Bool, true, if◌then◌else◌, Result, ok, require,
  key_error, ◌>>=◌, ◌>>◌,
}
use learn_agent.Conversation.TurnStatus.{stopping}
use learn_agent.Conversation.NodeType.{assistant}
use learn_agent.Conversation.Model.{
  ConversationSession, Turn, TurnNode, Tables, plain, words, flag, turn_state, kind, Metadata,
}
use learn_agent.Conversation.Store.Turns.{
  get_conversation, get_turn, get_active_turn, update_turn_status, bump_turn_version, no_end,
}
use learn_agent.Conversation.Store.Nodes.{plain_node, create_node}
use learn_agent.Conversation.Service.Events.{
  Pending, Request, to_stop, recorded, remember, append_and_emit,
}
use learn_agent.Conversation.Service.Sending.{turn_outcome}
use learn_agent.Conversation.Service.Turns.{assert_turn_owned, position_data}

abbrev runtime_metadata : String → String → String → Bool → Metadata
runtime_metadata runtime_type runtime_id status final =
    let front =
      ("runtime_type", words runtime_type)
      ∷ ("runtime_id", words runtime_id)
      ∷ ("runtime_status", words status)
      ∷ [] in
    front
    ++ (if final
        then ("runtime_final", flag true) ∷ ("final", flag true) ∷ []
        else ("intermediate", flag true) ∷ [])

unfoldable pub append_runtime_node :
    ℕ
    → (ℕ → String)
    → String
    → String
    → String
    → String
    → String
    → String
    → Bool
    → Tables
    → Result (TurnNode × Pending × Tables)
append_runtime_node clock ids conversation turn runtime_type runtime_id reply status final db = do
  conv ← get_conversation conversation db
  assert_turn_owned conversation turn db
  let new = record (plain_node assistant status (some turn) (some reply)) {
    metadata = runtime_metadata runtime_type runtime_id status final;
  }
  (node, db₁) ← create_node clock (ids 0) conversation new db
  let (version, db₂) = bump_turn_version turn db₁
  let data_of =
      ("node_id", plain (words node.node_id))
      ∷ ("type", kind assistant)
      ∷ ("text", plain (words reply))
      ∷ ("status", plain (words node.status))
      ∷ ("position", position_data node)
      ∷ []
  (events, db₃) ←
      append_and_emit clock (ids 1) conv "node.delta" "turn" version (some turn) data_of ([], db₂)
  ok (node, events, db₃)

module _ (request_hash : Request → String) where
  -- request_stop, where a turn is active and the operation has not run before
  unfoldable pub stop_turn :
      ℕ
      → (ℕ → String)
      → ConversationSession
      → String
      → Option String
      → Tables
      → Result (Option Turn × Pending × Tables)
  stop_turn clock ids conv id operation db = do
    (turn, db₁) ← update_turn_status id stopping no_end db
    db₂ ←
        remember clock operation conv.conversation_id (request_hash to_stop)
          (turn_outcome turn.turn_id none) db₁
    (events, db₃) ←
        append_and_emit clock (ids 0) conv "turn.status" "turn" turn.turn_version
          (some turn.turn_id) (("status", turn_state turn.status) ∷ []) ([], db₂)
    ok (some turn, events, db₃)

  -- request_stop reads before the transaction takes its lock with the write: `seen` has what it reads,
  -- `db` what the write finds.
  unfoldable pub request_stop :
      ℕ
      → (ℕ → String)
      → String
      → Option String
      → Tables
      → Tables
      → Result (Option Turn × Pending × Tables)
  request_stop clock ids conversation operation seen db = do
    conv ← get_conversation conversation seen
    elim (get_active_turn conversation seen) [
      | none ↦ ok (none, [], db)
      | some active ↦ do
        hit ← recorded operation (request_hash to_stop) seen
        elim hit [
          | some outcome ↦ do
            id ← require outcome.turn_id key_error
            turn ← get_turn id seen
            ok (some turn, [], db)
          | none ↦ stop_turn clock ids conv active.turn_id operation db
        ]
    ]
