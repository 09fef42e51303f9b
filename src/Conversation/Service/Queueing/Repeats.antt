-- ===== src/Conversation/Service/Queueing/Repeats.antt =====
-- gateway/conversation/service.py: an operation that is sent again.
use learn_agent.Prelude.{
  ℕ, ◌≡◌, ◌≢◌, ap, sym, ◌∙◌, inl, inr, String, Option, none, some, List, [], true, false, arith,
  Bool-cases, Option-cases, Result-cases, lookup, update, add, ok, err, eq_iff, lookup-update,
  is_some, ◌==◌, idempotency_conflict,
}
use learn_agent.Conversation.Model.{
  ConversationSession, QueueItem, Tables, Outcome, Datum, IdempotencyRecord,
}
use learn_agent.Conversation.Store.Turns.{get_conversation, bump}
use learn_agent.Conversation.Store.Queue.{enqueue_item, get_queue_item, new_item}
use learn_agent.Conversation.Store.Nodes.{create_node}
use learn_agent.Conversation.Store.Records.{check_idempotency}
use learn_agent.Conversation.Service.Events.{
  Pending, Request, to_enqueue, recorded, remember, queue_updated,
}
use learn_agent.Conversation.Service.Effects.{
  queue_updated-Announced, remember-lookup, remember-others, create_node-others, add-lookup,
}
use learn_agent.Conversation.Service.Queueing.{
  NewMessage, enqueue, enqueue_new, add_queued_node, item_of, item_again, item_outcome, queued_node,
  enqueue_data,
}

-- The message that enqueue_item has inserted is found under its id.
enqueue_item-lookup :
    (clock : ℕ) (token conversation : String) (new : NewMessage) (db db' : Tables)
    (item : QueueItem)
    → enqueue_item clock token conversation (item_of new) db ≡ ok (item, db')
    → (lookup item.queue_item_id db'.items ≡ some item) × (db'.conversations ≡ db.conversations)
unfolding enqueue_item
enqueue_item-lookup clock token conversation new db db' item h =
    let made = new_item clock token conversation (item_of new) db in
    elim (Result-cases (add made.queue_item_id made db.items)) [
      | inl (rows, e) ↦
          let found = add-lookup made.queue_item_id made db.items rows e in
          (ground arith, ground arith)
      | inr (x, e) ↦ absurd (ground arith)
    ]

add_queued_node-others :
    (clock : ℕ) (token conversation : String) (new : NewMessage) (db db' : Tables)
    (made_node : Option String)
    → add_queued_node clock token conversation new db ≡ ok (made_node, db')
    → (db'.items ≡ db.items) × (db'.conversations ≡ db.conversations)
unfolding add_queued_node
add_queued_node-others clock token conversation new db db' made_node h =
    elim (Bool-cases new.create_queued_node) [
      | inl wanted ↦
          elim (Result-cases (create_node clock token conversation (queued_node new) db)) [
            | inl ((made, db₁), e) ↦
                let others =
                  create_node-others clock token conversation (queued_node new) db db₁ made e in
                ground arith
            | inr (x, e) ↦ absurd (ground arith)
          ]
      | inr plain ↦ ground arith
    ]

check_idempotency-found :
    (operation hash : String) (outcome : Outcome) (db : Tables) (row : IdempotencyRecord)
    → lookup operation db.records ≡ some row
    → row.request_hash ≡ hash
    → row.result ≡ outcome
    → check_idempotency operation hash db ≡ ok (some outcome)
unfolding check_idempotency
check_idempotency-found operation hash outcome db row found same result =
    ground (arith, eq_iff row.request_hash hash)

check_idempotency-differs :
    (operation hash other : String) (outcome : Outcome) (db : Tables)
    → other ≢ hash
    → check_idempotency operation hash db ≡ ok (some outcome)
    → check_idempotency operation other db ≡ err idempotency_conflict
unfolding check_idempotency
check_idempotency-differs operation hash other outcome db differ h =
    elim (Option-cases (lookup operation db.records)) [
      | inl e ↦ absurd (ground arith)
      | inr (row, e) ↦ elim (Bool-cases (row.request_hash == other)) [
        | inl same ↦
            absurd
              (differ (ground (arith, eq_iff row.request_hash hash, eq_iff row.request_hash other)))
        | inr no_match ↦ ground arith
      ]
    ]

module _ (request_hash : Request → String) (clock : ℕ) (ids : ℕ → String) where
  abbrev hash_of : NewMessage → String
  hash_of new = request_hash (to_enqueue new.body)

  -- The calls that a first run goes through.
  enqueue_new-parts :
      (conv : ConversationSession) (new : NewMessage) (db db' : Tables) (item : QueueItem)
      (events : Pending)
      → enqueue_new request_hash clock ids conv new db ≡ ok (item, events, db')
      → (db₁ : Tables) × (db₂ : Tables) × (db₃ : Tables) × (made_node : Option String)
        × (data_of : List (String × Datum)) × (enqueue_item clock
              (ids 0)
              conv.conversation_id
              (item_of new)
              db
            ≡ ok (item, db₁))
        × (add_queued_node clock (ids 1) conv.conversation_id new db₁ ≡ ok (made_node, db₂))
        × (remember clock new.operation_id conv.conversation_id
              (hash_of new)
              (item_outcome item.queue_item_id)
              db₂
            ≡ ok db₃)
        × (queue_updated clock (ids 2) conv data_of ([], db₃) ≡ ok (events, db'))
  unfolding enqueue_new
  enqueue_new-parts conv new db db' item events h =
      elim (Result-cases (enqueue_item clock (ids 0) conv.conversation_id (item_of new) db)) [
        | inr (x, e) ↦ absurd (ground arith)
        | inl ((made, db₁), e₁) ↦
            elim (Result-cases (add_queued_node clock (ids 1) conv.conversation_id new db₁)) [
              | inr (x, e) ↦ absurd (ground arith)
              | inl ((made_node, db₂), e₂) ↦
                  elim (Result-cases (
                    remember clock new.operation_id conv.conversation_id (hash_of new)
                      (item_outcome made.queue_item_id) db₂)) [
                        | inr (x, e) ↦ absurd (ground arith)
                        | inl (db₃, e₃) ↦
                            elim (Result-cases (
                              queue_updated clock (ids 2) conv (enqueue_data made new made_node)
                                ([], db₃))) [
                                  | inr (x, e) ↦ absurd (ground arith)
                                  | inl ((told, db₄), e₄) ↦ (
                                    db₁,
                                    db₂,
                                    db₃,
                                    made_node,
                                    enqueue_data made new made_node,
                                    ground arith,
                                    e₂,
                                    ground arith,
                                    ground arith,
                                  )
                                ]
                      ]
            ]
      ]

  -- What the first run of enqueue leaves: the message, the record of the operation, the conversation.
  enqueue_new-leaves :
      (conv : ConversationSession) (new : NewMessage) (operation : String) (db db' : Tables)
      (item : QueueItem) (events : Pending)
      → new.operation_id ≡ some operation
      → (operation == "") ≡ false
      → enqueue_new request_hash clock ids conv new db ≡ ok (item, events, db')
      → (lookup item.queue_item_id db'.items ≡ some item)
        × (check_idempotency operation (hash_of new) db'
            ≡ ok (some (item_outcome item.queue_item_id)))
        × (db'.conversations ≡ update conv.conversation_id (bump clock) db.conversations)
  enqueue_new-leaves conv new operation db db' item events named solid h =
      let (db₁, db₂, db₃, made_node, data_of, e₁, e₂, e₃, e₄) =
        enqueue_new-parts conv new db db' item events h in
      let (found, same₁) =
        enqueue_item-lookup clock (ids 0) conv.conversation_id new db db₁ item e₁ in
      let (items₂, same₂) =
        add_queued_node-others clock (ids 1) conv.conversation_id new db₁ db₂ made_node e₂ in
      let (items₃, turns₃, same₃) =
        remember-others clock new.operation_id conv.conversation_id (hash_of new)
          (item_outcome item.queue_item_id) db₂ db₃ e₃ in
      let (told, bumped) =
        queue_updated-Announced clock (ids 2) conv data_of [] events db₃ db' e₄ in
      let (row, at_operation, hash, outcome) =
        remember-lookup clock operation conv.conversation_id (hash_of new)
          (item_outcome item.queue_item_id) db₂ db₃ solid (rw named at e₃) in
      (
        ap (lookup item.queue_item_id) (told.same_items ∙ items₃ ∙ items₂) ∙ found,
        check_idempotency-found operation (hash_of new) (item_outcome item.queue_item_id) db' row
            (ap (lookup operation) told.same_records ∙ at_operation) hash outcome,
        bumped ∙ ap (update conv.conversation_id (bump clock)) (same₃ ∙ same₂ ∙ same₁),
      )

-- Can the message be read back under the outcome?
item_again-lookup :
    (id : String) (db : Tables) (item : QueueItem)
    → lookup id db.items ≡ some item
    → item_again (item_outcome id) db ≡ ok (item, [], db)
unfolding item_again get_queue_item
item_again-lookup id db item found = ground arith

module _ (request_hash : Request → String) (clock later : ℕ) (ids more : ℕ → String)
    (conversation operation : String) (new : NewMessage) (db db' : Tables) (item : QueueItem)
    (events : Pending) (named : new.operation_id ≡ some operation)
    (solid : (operation == "") ≡ false) where
  hash : NewMessage → String
  hash message = request_hash (to_enqueue message.body)

  -- A database in which the operation has its record, under which the message is found.
  Recorded : Type 0
  Recorded =
      (conv : ConversationSession) × (outcome : Outcome) × (lookup conversation db'.conversations
        ≡ some conv)
      × (check_idempotency operation (request_hash (to_enqueue new.body)) db' ≡ ok (some outcome))
      × (item_again outcome db' ≡ ok (item, [], db'))

  -- The operation had its record before.
  again-Recorded :
      (conv : ConversationSession) (outcome : Outcome)
      → lookup conversation db.conversations ≡ some conv
      → check_idempotency operation (request_hash (to_enqueue new.body)) db ≡ ok (some outcome)
      → item_again outcome db ≡ ok (item, events, db')
      → Recorded
  unfolding Recorded item_again
  again-Recorded conv outcome found hit h =
      let same : db ≡ db' = ground arith in
      let quiet : [] ≡ events = ground arith in
      (
        conv,
        outcome,
        ap (λ d. lookup conversation d.conversations) (sym same) ∙ found,
        ap (check_idempotency operation (request_hash (to_enqueue new.body))) (sym same) ∙ hit,
        ground arith,
      )

  -- The operation has run now.
  new-Recorded :
      (conv : ConversationSession)
      → lookup conversation db.conversations ≡ some conv
      → enqueue_new request_hash clock ids conv new db ≡ ok (item, events, db')
      → Recorded
  unfolding Recorded
  new-Recorded conv found h =
      let (at_id, hit, conversations) =
        enqueue_new-leaves request_hash clock ids conv new operation db db' item events named solid
          h in
      let at_conversation : is_some (lookup conversation db'.conversations) ≡ true =
        ground
          (arith, lookup-update conv.conversation_id conversation (bump clock) db.conversations) in
      elim (Option-cases (lookup conversation db'.conversations)) [
        | inl gone ↦ absurd (ground arith)
        | inr (conv', there) ↦ (
          conv',
          item_outcome item.queue_item_id,
          there,
          hit,
          item_again-lookup item.queue_item_id db' item at_id,
        )
      ]

  enqueue-Recorded :
      enqueue request_hash clock ids conversation new db ≡ ok (item, events, db') → Recorded
  unfolding enqueue get_conversation recorded
  enqueue-Recorded h = elim (Option-cases (lookup conversation db.conversations)) [
    | inl gone ↦ absurd (ground arith)
    | inr (conv, found) ↦
        elim (Result-cases (check_idempotency operation (request_hash (to_enqueue new.body)) db)) [
          | inr (x, e) ↦ absurd (ground arith)
          | inl (none, e) ↦ new-Recorded conv found (ground arith)
          | inl (some outcome, e) ↦ again-Recorded conv outcome found e (ground arith)
        ]
  ]

  -- Once enqueue has succeeded under a non-empty operation id, the same text sent again under that id
  -- gives the same message, changes nothing and announces nothing.
  pub enqueue_twice :
      (other : NewMessage)
      → other.operation_id ≡ some operation
      → other.body ≡ new.body
      → enqueue request_hash clock ids conversation new db ≡ ok (item, events, db')
      → enqueue request_hash later more conversation other db' ≡ ok (item, [], db')
  unfolding enqueue get_conversation recorded Recorded
  enqueue_twice other same_id same_body h =
      let (conv, outcome, found, hit, again) = enqueue-Recorded h in ground arith

  -- Once enqueue has succeeded under a non-empty operation id, another text under that id whose
  -- request has another hash raises IdempotencyConflict.
  pub enqueue_conflict :
      (other : NewMessage)
      → other.operation_id ≡ some operation
      → request_hash (to_enqueue other.body) ≢ request_hash (to_enqueue new.body)
      → enqueue request_hash clock ids conversation new db ≡ ok (item, events, db')
      → enqueue request_hash later more conversation other db' ≡ err idempotency_conflict
  unfolding enqueue get_conversation recorded Recorded
  enqueue_conflict other same_id differ h =
      let (conv, outcome, found, hit, again) = enqueue-Recorded h in
      let refused =
        check_idempotency-differs operation (request_hash (to_enqueue new.body))
          (request_hash (to_enqueue other.body)) outcome db' differ hit in
      ground arith
