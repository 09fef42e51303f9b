-- ===== src/Conversation/Activity/Sending.antt =====
-- gateway/conversation/service.py: send_next and start_turn make no second turn active.
use learn_agent.Prelude.{
  ℕ, ◌+◌, refl, inl, inr, String, Option, none, some, List, [], ◌∷◌, Bool-cases, Option-cases,
  List-cases, Result-cases, lookup, is_some, ◌==◌, Post, Post-of, Post-ok, Post-bind, Post-skip,
}
use learn_agent.Conversation.Model.{ConversationSession, Turn, TurnNode, QueueItem, Image, Tables}
use learn_agent.Conversation.Store.Turns.{
  NewTurn, bump_turn_version, get_conversation, get_active_turn,
}
use learn_agent.Conversation.Store.Nodes.{update_node, assign_node_to_turn, get_node}
use learn_agent.Conversation.Service.Events.{Pending, Request, recorded, to_send}
use learn_agent.Conversation.Service.Sending.{
  user_node, dispatch, create_and_dispatch, send_item, send_next, Send, Sent, start_turn,
  begin_turn, next_sendable, turn_again,
}
use learn_agent.Conversation.Service.Images.{
  ImageStore, Saved, image_node, add_image, add_images, consume_images,
}
use learn_agent.Conversation.Activity.{
  Within, Calm, Calm-trans, Calm-Within, bump_turn_version-Calm, create_turn_if_no_active-Within,
}
use learn_agent.Conversation.Activity.Steps.{told, updated, made, written, marked, remembered}

module _ (clock : ℕ) (conv : ConversationSession) where
  add_image-Calm :
      (token event_token turn : String) (saved : Saved) (events : Pending) (db : Tables)
      → Post (λ out. Calm db out.2) (add_image clock token event_token conv turn saved (events, db))
  unfolding add_image
  add_image-Calm token event_token turn saved events db =
      Post-bind (λ out. Calm db out.2) (λ out. Calm db out.1) _ _
        (made clock conv token conv.conversation_id (image_node turn saved) db)
        (λ out calm.
          let db₂ = (bump_turn_version turn out.1).1 in
          let bumped = bump_turn_version-Calm turn out.1 db₂ _ refl in
          Post-bind (λ out. Calm db out.2) (λ out. Calm db₂ out.1) _ _
            (told clock conv event_token "node.image" "turn" _ (some turn) _ events db₂)
            (λ last quiet.
              Calm-trans db out.1 last.1 calm (Calm-trans out.1 db₂ last.1 bumped quiet)))

  add_images-Calm :
      (ids : ℕ → String) (n : ℕ) (save : String → Image → Option Saved) (turn : String)
      (images : List Image) (events : Pending) (db : Tables)
      → Post (λ out. Calm db out.2) (add_images clock ids n save conv turn images (events, db))
  unfolding add_images
  add_images-Calm ids n save turn [] events db = λ c. refl
  add_images-Calm ids n save turn (img ∷ images) events db =
      elim (Option-cases (save conv.conversation_id img)) [
        | inl failed ↦ rw (failed, Post) (add_images-Calm ids n save turn images events db)
        | inr (saved, e) ↦
            rw (e, Post)
              (Post-bind (λ out. Calm db out.2) (λ out. Calm db out.2) _ _
                (add_image-Calm (ids n) (ids (n + 1)) turn saved events db)
                (λ out calm.
                  Post-bind (λ out. Calm db out.2) (λ last. Calm out.2 last.2) _ _
                    (add_images-Calm ids (n + 2) save turn images out.1 out.2)
                    (λ last quiet. Calm-trans db out.2 last.2 calm quiet)))
      ]

  consume_images-Calm :
      (ids : ℕ → String) (store : ImageStore) (turn : String) (user : TurnNode)
      (images : List Image) (db : Tables)
      → Post (λ out. Calm db out.2) (consume_images clock ids store conv turn user images db)
  unfolding consume_images update_node
  consume_images-Calm ids none turn user images db = λ c. refl
  consume_images-Calm ids (some save) turn user images db =
      Post-bind (λ out. Calm db out.2) (λ out. Calm db out.2) _ _
        (add_images-Calm ids 4 save turn images [] db)
        (λ out calm. elim (List-cases out.0) [
          | inl empty ↦ rw (empty, Post) calm
          | inr (ref, more, e) ↦
              rw (e, Post)
                (Post-bind (λ last. Calm db last.2) (λ last. Calm out.2 last.1) _ _
                  (written clock conv _ _ out.2)
                  (λ last quiet. Calm-trans db out.2 last.1 calm quiet))
        ])

  user_node-Calm :
      (token turn : String) (item : QueueItem) (node_id : Option String) (db : Tables)
      → Post (λ out. Calm db out.1) (user_node clock token conv turn item node_id db)
  unfolding user_node assign_node_to_turn
  user_node-Calm token turn item none db = made clock conv token conv.conversation_id _ db
  user_node-Calm token turn item (some id) db = elim (Bool-cases (id == "")) [
    | inl empty ↦ rw empty (made clock conv token conv.conversation_id _ db)
    | inr named ↦ elim (Result-cases (get_node id db)) [
      | inr (x, e) ↦ rw (named, e) (made clock conv token conv.conversation_id _ db)
      | inl (old, e) ↦ elim (Bool-cases (is_some old.turn_id)) [
        | inl taken ↦ rw (named, e, taken) (made clock conv token conv.conversation_id _ db)
        | inr free ↦ rw (named, e, free) (written clock conv id _ db)
      ]
    ]
  ]

  dispatch-Calm :
      (request_hash : Request → String) (store : ImageStore) (ids : ℕ → String) (args : Send)
      (item : QueueItem) (turn : Turn) (db : Tables)
      → Post (λ out. Calm db out.2) (dispatch request_hash store clock ids conv args item turn db)
  unfolding dispatch
  dispatch-Calm request_hash store ids args item turn db =
      Post-bind (λ out. Calm db out.2) (λ out. Calm db out.1) _ _
        (user_node-Calm (ids 1) turn.turn_id item args.channel_node_id db)
        (λ out₁ calm₁.
          Post-bind (λ out. Calm db out.2) (λ out. Calm out₁.1 out.2) _ _
            (consume_images-Calm ids store turn.turn_id out₁.0 item.images out₁.1)
            (λ out₂ calm₂.
              Post-bind (λ out. Calm db out.2) (λ out. Calm out₂.2 out.1) _ _
                (marked clock conv item.queue_item_id turn.turn_id (some out₂.0.node_id) out₂.2)
                (λ out₃ calm₃.
                  Post-bind (λ out. Calm db out.2) (λ db₄. Calm out₃.1 db₄) _ _
                    (remembered clock conv args.operation_id conv.conversation_id _ _ out₃.1)
                    (λ db₄ calm₄.
                      Post-bind (λ out. Calm db out.2) (λ out. Calm db₄ out.1) _ _
                        (told clock conv (ids 2) "turn.status" "turn" _ _ _ out₂.1 db₄)
                        (λ out₅ calm₅.
                          Post-bind (λ out. Calm db out.2) (λ out. Calm out₅.1 out.1) _ _
                            (updated clock conv (ids 3) _ out₅.0 out₅.1)
                            (λ out₆ calm₆. Calm-trans db out₁.1 out₆.1 calm₁ (
                              Calm-trans out₁.1 out₂.2 out₆.1 calm₂ (
                                Calm-trans out₂.2 out₃.1 out₆.1 calm₃ (
                                  Calm-trans out₃.1 db₄ out₆.1 calm₄
                                    (Calm-trans db₄ out₅.1 out₆.1 calm₅ calm₆))))))))))

  create_and_dispatch-Within :
      (k : ℕ) (request_hash : Request → String) (store : ImageStore) (ids : ℕ → String)
      (args : Send) (item : QueueItem) (db : Tables)
      → Within k db
      → Post
          (λ out. Within k out.2)
          (create_and_dispatch request_hash store clock ids conv args item db)
  unfolding create_and_dispatch
  create_and_dispatch-Within k request_hash store ids args item db single =
      Post-bind (λ out. Within k out.2) (λ out. Within k out.1) _ _
        (Post-of (λ out. Within k out.1) _
          (λ out h.
            create_turn_if_no_active-Within k clock (ids 0) conv.conversation_id args.turn db out.1
              out.0 h single))
        (λ out held. elim (Option-cases out.0) [
          | inl busy ↦ rw (busy, Post) held
          | inr (turn, e) ↦
              rw (e, Post)
                (Post-of (λ last. Within k last.2) _
                  (λ last h.
                    Calm-Within k out.1 last.2
                      (Post-ok (λ last. Calm out.1 last.2) _ last h
                        (dispatch-Calm request_hash store ids args item turn out.1))
                      held))
        ])

  send_item-Within :
      (k : ℕ) (request_hash : Request → String) (store : ImageStore) (per_scope global : ℕ)
      (ids : ℕ → String) (args : Send) (item : QueueItem) (seen db : Tables)
      → Within k db
      → Post
          (λ out. Within k out.2)
          (send_item request_hash store per_scope global clock ids conv args item seen db)
  unfolding send_item
  send_item-Within k request_hash store per_scope global ids args item seen db single =
      elim (Result-cases
        (recorded args.operation_id (request_hash (to_send item.queue_item_id)) seen)) [
          | inr (x, e) ↦ rw (e, Post) tt
          | inl (none, e) ↦
              rw (e, Post)
                (Post-skip (λ (out : Sent × Pending × Tables). Within k out.2) _ _
                  (λ v. create_and_dispatch-Within k request_hash store ids args item db single))
          | inl (some outcome, e) ↦
              rw (e, Post)
                (Post-skip (λ (out : Sent × Pending × Tables). Within k out.2)
                  (turn_again outcome seen) _ (λ v. single))
        ]

module _ (clock : ℕ) where
  -- The write part of start_turn.
  started :
      (k : ℕ) (conv : ConversationSession) (per_scope : ℕ) (ids : ℕ → String)
      (conversation : String) (args : NewTurn) (db : Tables)
      → Within k db
      → Post (λ out. Within k out.2) (begin_turn clock ids conv conversation args db)
  unfolding begin_turn
  started k conv per_scope ids conversation args db single =
      Post-bind (λ (out : Option Turn × Pending × Tables). Within k out.2) (λ out. Within k out.1) _
        _
        (Post-of (λ out. Within k out.1) _
          (λ out h.
            create_turn_if_no_active-Within k clock (ids 0) conversation args db out.1 out.0 h
              single))
        (λ out held. elim (Option-cases out.0) [
          | inl busy ↦ rw (busy, Post) held
          | inr (turn, e) ↦
              rw (e, Post)
                (Post-bind (λ (last : Option Turn × Pending × Tables). Within k last.2)
                  (λ last. Calm out.1 last.1) _ _
                  (told clock conv (ids 1) "turn.status" "turn" _ _ _ [] out.1)
                  (λ last calm. Calm-Within k out.1 last.1 calm held))
        ])

  -- send_next, whatever its reads before the transaction's first write have seen.
  pub send_next-Within :
      (k : ℕ) (request_hash : Request → String) (store : ImageStore) (per_scope global : ℕ)
      (ids : ℕ → String) (conversation : String) (args : Send) (seen db : Tables)
      → Within k db
      → Post
          (λ out. Within k out.2)
          (send_next request_hash store per_scope global clock ids conversation args seen db)
  unfolding send_next get_conversation
  send_next-Within k request_hash store per_scope global ids conversation args seen db single =
      elim (Option-cases (lookup conversation seen.conversations)) [
        | inl missing ↦ rw (missing, Post) tt
        | inr (conv, found) ↦ elim (Option-cases (get_active_turn conversation seen)) [
          | inr (turn, busy) ↦ rw (found, busy, Post) single
          | inl idle ↦ elim (Option-cases (next_sendable conversation seen)) [
            | inl empty ↦ rw (found, idle, empty, Post) single
            | inr (item, waits) ↦
                rw (found, idle, waits, Post)
                  (send_item-Within clock conv k request_hash store per_scope global ids args item
                    seen db single)
          ]
        ]
      ]

  pub start_turn-Within :
      (k : ℕ) (per_scope : ℕ) (ids : ℕ → String) (conversation : String) (args : NewTurn)
      (seen db : Tables)
      → Within k db
      → Post (λ out. Within k out.2) (start_turn per_scope clock ids conversation args seen db)
  unfolding start_turn get_conversation
  start_turn-Within k per_scope ids conversation args seen db single =
      elim (Option-cases (lookup conversation seen.conversations)) [
        | inl missing ↦ rw (missing, Post) tt
        | inr (conv, found) ↦ elim (Option-cases (get_active_turn conversation seen)) [
          | inr (turn, busy) ↦ rw (found, busy, Post) single
          | inl idle ↦
              rw (found, idle, Post)
                (Post-skip (λ (out : Option Turn × Pending × Tables). Within k out.2) _ _
                  (λ v. started k conv per_scope ids conversation args db single))
        ]
      ]
