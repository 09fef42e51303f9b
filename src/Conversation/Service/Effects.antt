-- ===== src/Conversation/Service/Effects.antt =====
-- gateway/conversation/service.py: which tables the shared steps of the operations leave as they were.
use learn_agent.Prelude.{
  ℕ, ◌≡◌, refl, ap, ◌∙◌, inl, inr, String, Option, none, some, List, [], ◌∷◌, false, arith,
  Result-cases, lookup, update, add, ok, eq_refl, lookup-append, millis, ◌==◌,
}
use learn_agent.Conversation.Model.{
  ConversationSession, Tables, Datum, Outcome, IdempotencyRecord, TurnNode,
}
use learn_agent.Conversation.Store.Turns.{bump_session_version, bump}
use learn_agent.Conversation.Store.Outbox.{append_outbox}
use learn_agent.Conversation.Store.Nodes.{create_node, NewNode}
use learn_agent.Conversation.Store.Records.{record_idempotency}
use learn_agent.Conversation.Service.Events.{Pending, append_and_emit, queue_updated, remember}

-- Only the outbox and the conversations differ, and no conversation has gone.
pub record Announced (db db' : Tables) : Type 0 where
  pub same_turns : db'.turns ≡ db.turns
  pub same_nodes : db'.nodes ≡ db.nodes
  pub same_items : db'.items ≡ db.items
  pub same_records : db'.records ≡ db.records
  pub same_approvals : db'.approvals ≡ db.approvals

module _ (clock : ℕ) (token : String) (conv : ConversationSession) (data_of : List (String × Datum))
    (events events' : Pending) (db db' : Tables) where
  pub append_and_emit-Announced :
      (event_type scope : String) (version : ℕ) (turn : Option String)
      → append_and_emit clock token conv event_type scope version turn data_of (events, db)
        ≡ ok (events', db')
      → Announced db db' × (db'.conversations ≡ db.conversations)
  unfolding append_and_emit append_outbox
  append_and_emit-Announced event_type scope version turn h = (
    record {
      same_turns = ground arith;
      same_nodes = ground arith;
      same_items = ground arith;
      same_records = ground arith;
      same_approvals = ground arith;
    },
    ground arith,
  )

  pub queue_updated-Announced :
      queue_updated clock token conv data_of (events, db) ≡ ok (events', db')
      → Announced db db'
        × (db'.conversations ≡ update conv.conversation_id (bump clock) db.conversations)
  unfolding queue_updated append_and_emit append_outbox bump_session_version
  queue_updated-Announced h = (
    record {
      same_turns = ground arith;
      same_nodes = ground arith;
      same_items = ground arith;
      same_records = ground arith;
      same_approvals = ground arith;
    },
    ground arith,
  )

-- The row that an INSERT leaves under its key.
pub add-lookup {ℓ} :
    {V : Type ℓ} (key : String) (new : V) (rows rows' : List (String × V))
    → add key new rows ≡ ok rows'
    → lookup key rows' ≡ some new
add-lookup key new rows rows' h =
    ground (arith, lookup-append key rows ((key, new) ∷ []), eq_refl key)

-- What the operation recorded under its id, and that nothing else has changed.
pub remember-lookup :
    (clock : ℕ) (operation conversation hash : String) (outcome : Outcome) (db db' : Tables)
    → (operation == "") ≡ false
    → remember clock (some operation) conversation hash outcome db ≡ ok db'
    → (row : IdempotencyRecord) × (lookup operation db'.records ≡ some row)
      × (row.request_hash ≡ hash)
      × (row.result ≡ outcome)
unfolding remember record_idempotency
remember-lookup clock operation conversation hash outcome db db' named h =
    let row : IdempotencyRecord = record {
      conversation_id = conversation;
      request_hash = hash;
      result = outcome;
      created_at = millis clock;
    } in
    elim (Result-cases (add operation row db.records)) [
      | inl (rows, e) ↦ (
        row,
        ap (lookup operation) (ground arith) ∙ add-lookup operation row db.records rows e,
        refl,
        refl,
      )
      | inr (x, e) ↦ absurd (ground arith)
    ]

pub remember-others :
    (clock : ℕ) (operation : Option String) (conversation hash : String) (outcome : Outcome)
    (db db' : Tables)
    → remember clock operation conversation hash outcome db ≡ ok db'
    → (db'.items ≡ db.items) × (db'.turns ≡ db.turns) × (db'.conversations ≡ db.conversations)
unfolding remember record_idempotency
remember-others clock none conversation hash outcome db db' h = ground arith
remember-others clock (some operation) conversation hash outcome db db' h = ground arith

pub create_node-others :
    (clock : ℕ) (token conversation : String) (new : NewNode) (db db' : Tables) (node : TurnNode)
    → create_node clock token conversation new db ≡ ok (node, db')
    → (db'.items ≡ db.items) × (db'.turns ≡ db.turns) × (db'.conversations ≡ db.conversations)
unfolding create_node
create_node-others clock token conversation new db db' node h = ground arith
