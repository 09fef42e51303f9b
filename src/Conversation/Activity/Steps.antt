-- ===== src/Conversation/Activity/Steps.antt =====
-- gateway/conversation/service.py: the steps that keep the numbers of active turns.
use learn_agent.Prelude.{ℕ, String, Option, List, arith, Post, Post-of}
use learn_agent.Conversation.Model.{ConversationSession, TurnNode, Tables, Datum, Outcome}
use learn_agent.Conversation.Store.Nodes.{create_node, write_node, NewNode}
use learn_agent.Conversation.Store.Queue.{mark_queue_sent, write_item}
use learn_agent.Conversation.Service.Events.{Pending, append_and_emit, queue_updated, remember}
use learn_agent.Conversation.Service.Effects.{
  append_and_emit-Announced, queue_updated-Announced, remember-others, create_node-others,
}
use learn_agent.Conversation.Activity.{Calm, same_turns-Calm}

module _ (clock : ℕ) (conv : ConversationSession) where
  -- The steps that do not touch the turns.
  pub told :
      (token event_type scope : String) (version : ℕ) (turn : Option String)
      (data_of : List (String × Datum)) (events : Pending) (db : Tables)
      → Post
          (λ out. Calm db out.1)
          (append_and_emit clock token conv event_type scope version turn data_of (events, db))
  told token event_type scope version turn data_of events db =
      Post-of (λ out. Calm db out.1) _
        (λ out h.
          same_turns-Calm db out.1
            (append_and_emit-Announced clock token conv data_of events out.0 db out.1 event_type
              scope version turn h).0.same_turns)

  pub updated :
      (token : String) (data_of : List (String × Datum)) (events : Pending) (db : Tables)
      → Post (λ out. Calm db out.1) (queue_updated clock token conv data_of (events, db))
  updated token data_of events db =
      Post-of (λ out. Calm db out.1) _
        (λ out h.
          same_turns-Calm db out.1
            (queue_updated-Announced clock token conv data_of events out.0 db out.1 h).0.same_turns)

  pub made :
      (token conversation : String) (new : NewNode) (db : Tables)
      → Post (λ out. Calm db out.1) (create_node clock token conversation new db)
  made token conversation new db =
      Post-of (λ out. Calm db out.1) _
        (λ out h.
          same_turns-Calm db out.1
            (create_node-others clock token conversation new db out.1 out.0 h).1)

  pub written :
      (id : String) (change : TurnNode → TurnNode) (db : Tables)
      → Post (λ out. Calm db out.1) (write_node id change db)
  unfolding write_node
  written id change db =
      Post-of (λ out. Calm db out.1) _ (λ out h. same_turns-Calm db out.1 (ground arith))

  pub marked :
      (id turn : String) (node_id : Option String) (db : Tables)
      → Post (λ out. Calm db out.1) (mark_queue_sent clock id turn node_id db)
  unfolding mark_queue_sent write_item
  marked id turn node_id db =
      Post-of (λ out. Calm db out.1) _ (λ out h. same_turns-Calm db out.1 (ground arith))

  pub remembered :
      (operation : Option String) (conversation hash : String) (outcome : Outcome) (db : Tables)
      → Post (λ db'. Calm db db') (remember clock operation conversation hash outcome db)
  remembered operation conversation hash outcome db =
      Post-of (λ db'. Calm db db') _
        (λ db' h.
          same_turns-Calm db db'
            (remember-others clock operation conversation hash outcome db db' h).1)
