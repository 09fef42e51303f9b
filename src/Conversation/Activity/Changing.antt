-- ===== src/Conversation/Activity/Changing.antt =====
-- gateway/conversation/service.py: a new status for a turn makes at most this turn active again, and the
-- streaming into it makes none.
use learn_agent.Prelude.{
  ℕ, ◌≡◌, refl, ap, inl, inr, String, Option, some, [], Bool, true, arith, Option-cases, lookup,
  Post, Post-of, Post-bind, Post-skip, none, Result-cases, require, key_error,
}
use learn_agent.Conversation.TurnStatus.{TurnStatus, is_active, stopping, approval}
use learn_agent.Conversation.NodeType.{TurnNodeType}
use learn_agent.Conversation.Model.{ConversationSession, Turn, TurnNode, Approval, Tables}
use learn_agent.Conversation.Store.Turns.{
  TurnEnd, update_turn_status, bump_turn_version, get_conversation, no_end, get_active_turn,
  get_turn,
}
use learn_agent.Conversation.Store.Nodes.{append_node_text}
use learn_agent.Conversation.Store.Approvals.{create_approval}
use learn_agent.Conversation.Service.Events.{Pending, Request, recorded, to_stop}
use learn_agent.Conversation.Service.Turns.{
  set_turn_status, with_error, put_delta, write_delta, upsert_node_delta, Origin, continued,
  assert_turn_owned,
}
use learn_agent.Conversation.Service.Stopping.{stop_turn, request_stop}
use learn_agent.Conversation.Service.Approvals.{request_approval}
use learn_agent.Conversation.Activity.{
  Calm, NoMore, More, Calm-More, revives, ended, update_turn_status-More, same_turns-Calm,
  Calm-trans, bump_turn_version-Calm, update_turn_status-NoMore,
}
use learn_agent.Conversation.Activity.Steps.{told, made, written, remembered}

-- The turn that request_stop has seen active may have ended when it writes.
abbrev pub stop_revives : String → Tables → Tables → ℕ
stop_revives conversation seen db = elim (get_active_turn conversation seen) [
  | none ↦ 0
  | some turn ↦ revives turn.turn_id db
]

module _ (clock : ℕ) where
  -- The write of the status, of a turn that is active.
  pub set :
      (id : String) (s : TurnStatus) (end : TurnEnd) (db : Tables) (turn : Turn)
      → lookup id db.turns ≡ some turn
      → is_active turn.status ≡ true
      → Post (λ out. NoMore db out.1) (update_turn_status id s end db)
  set id s end db turn found active =
      Post-of (λ out. NoMore db out.1) _
        (λ out h. update_turn_status-NoMore id s end db out.1 turn out.0 found active h)

  -- The write of the status, of any turn.
  overwritten :
      (id : String) (s : TurnStatus) (end : TurnEnd) (db : Tables)
      → Post (λ out. More (revives id db) db out.1) (update_turn_status id s end db)
  overwritten id s end db =
      Post-of (λ out. More (revives id db) db out.1) _
        (λ out h. update_turn_status-More id s end db out.1 out.0 h)

  pub set_turn_status-More :
      (ids : ℕ → String) (conversation id : String) (s : TurnStatus) (code : Option String)
      (db : Tables)
      → Post
          (λ out. More (revives id db) db out.2)
          (set_turn_status clock ids conversation id s code db)
  unfolding set_turn_status
  set_turn_status-More ids conversation id s code db =
      Post-skip (λ (out : Turn × Pending × Tables). More (revives id db) db out.2)
        (get_conversation conversation db) _
        (λ conv.
          Post-skip (λ (out : Turn × Pending × Tables). More (revives id db) db out.2)
            (assert_turn_owned conversation id db) _
            (λ v.
              Post-bind (λ (out : Turn × Pending × Tables). More (revives id db) db out.2)
                (λ out. More (revives id db) db out.1) _ _ (overwritten id s (with_error code) db)
                (λ out more.
                  Post-bind (λ (last : Turn × Pending × Tables). More (revives id db) db last.2)
                    (λ last. Calm out.1 last.1) _ _
                    (told clock conv (ids 0) "turn.status" "turn" _ _ _ [] out.1)
                    (λ last calm. Calm-More (revives id db) db out.1 last.1 more calm))))

  stop_turn-More :
      (request_hash : Request → String) (ids : ℕ → String) (conv : ConversationSession)
      (id : String) (operation : Option String) (db : Tables)
      → Post
          (λ out. More (revives id db) db out.2)
          (stop_turn request_hash clock ids conv id operation db)
  unfolding stop_turn
  stop_turn-More request_hash ids conv id operation db =
      Post-bind (λ out. More (revives id db) db out.2) (λ out. More (revives id db) db out.1) _ _
        (overwritten id stopping no_end db)
        (λ out more.
          Post-bind (λ (last : Option Turn × Pending × Tables). More (revives id db) db last.2)
            (λ db₂. Calm out.1 db₂) _ _
            (remembered clock conv operation conv.conversation_id _ _ out.1)
            (λ db₂ calm.
              Post-bind (λ (last : Option Turn × Pending × Tables). More (revives id db) db last.2)
                (λ last. Calm db₂ last.1) _ _
                (told clock conv (ids 0) "turn.status" "turn" _ _ _ [] db₂)
                (λ last quiet.
                  Calm-More (revives id db) db db₂ last.1
                    (Calm-More (revives id db) db out.1 db₂ more calm) quiet)))

  unchanged : (n : ℕ) (db : Tables) → More n db db
  unchanged n db c = omega arith

  pub request_stop-More :
      (request_hash : Request → String) (ids : ℕ → String) (conversation : String)
      (operation : Option String) (seen db : Tables)
      → Post
          (λ out. More (stop_revives conversation seen db) db out.2)
          (request_stop request_hash clock ids conversation operation seen db)
  unfolding request_stop
  request_stop-More request_hash ids conversation operation seen db =
      Post-skip
        (λ (out : Option Turn × Pending × Tables).
          More (stop_revives conversation seen db) db out.2)
        (get_conversation conversation seen) _
        (λ conv. elim (Option-cases (get_active_turn conversation seen)) [
          | inl idle ↦ rw (idle, Post) (unchanged (stop_revives conversation seen db) db)
          | inr (turn, busy) ↦
              rw (stop_revives, busy)
                (elim (Result-cases (recorded operation (request_hash to_stop) seen)) [
                  | inr (x, e) ↦ rw (e, Post) tt
                  | inl (none, e) ↦
                      rw e (stop_turn-More request_hash ids conv turn.turn_id operation db)
                  | inl (some outcome, e) ↦ rw e (
                      Post-skip
                        (λ (out : Option Turn × Pending × Tables).
                          More (revives turn.turn_id db) db out.2)
                        (require outcome.turn_id key_error) _
                        (λ id.
                          Post-skip
                            (λ (out : Option Turn × Pending × Tables).
                              More (revives turn.turn_id db) db out.2)
                            (get_turn id seen) _ (λ old. unchanged (revives turn.turn_id db) db)))
                ])
        ])

  asked :
      (token conversation id tool_name params : String) (db : Tables)
      → Post
          (λ out. out.1.turns ≡ db.turns)
          (create_approval clock token conversation id tool_name params db)
  unfolding create_approval
  asked token conversation id tool_name params db =
      Post-of (λ out. out.1.turns ≡ db.turns) _ (λ out h. ground arith)

  pub request_approval-More :
      (ids : ℕ → String) (conversation id tool_name params : String) (db : Tables)
      → Post
          (λ out. More (revives id db) db out.2)
          (request_approval clock ids conversation id tool_name params db)
  unfolding request_approval
  request_approval-More ids conversation id tool_name params db =
      Post-skip (λ (out : Approval × Pending × Tables). More (revives id db) db out.2)
        (get_conversation conversation db) _
        (λ conv.
          Post-skip (λ (out : Approval × Pending × Tables). More (revives id db) db out.2)
            (assert_turn_owned conversation id db) _
            (λ v.
              Post-bind (λ (out : Approval × Pending × Tables). More (revives id db) db out.2)
                (λ (out : Approval × Tables). out.1.turns ≡ db.turns) _ _
                (asked (ids 0) conversation id tool_name params db)
                (λ made_one same.
                  Post-bind (λ (out : Approval × Pending × Tables). More (revives id db) db out.2)
                    (λ out. More (revives id made_one.1) made_one.1 out.1) _ _
                    (overwritten id approval no_end made_one.1)
                    (λ out more.
                      Post-bind
                        (λ (last : Approval × Pending × Tables). More (revives id db) db last.2)
                        (λ last. Calm out.1 last.1) _ _
                        (told clock conv (ids 1) "approval.requested" "turn" _ _ _ [] out.1)
                        (λ last calm c.
                          let number = ap (λ turns. ended (lookup id turns)) same in
                          omega (
                            arith,
                            calm c,
                            more c,
                            number,
                            same_turns-Calm db made_one.1 same c,
                          ))))))

  delta_written :
      (token : String) (conv : ConversationSession) (turn : String) (type_of : TurnNodeType)
      (delta : String) (continue_existing : Bool) (origin : Origin) (db : Tables)
      → Post
          (λ out. Calm db out.2)
          (write_delta clock token conv.conversation_id turn type_of delta continue_existing origin
            db)
  unfolding write_delta append_node_text
  delta_written token conv turn type_of delta continue_existing origin db =
      elim (Option-cases (continued continue_existing turn type_of db)) [
        | inl fresh ↦
            rw (fresh, Post)
              (Post-bind (λ (out : TurnNode × ℕ × Tables). Calm db out.2) (λ out. Calm db out.1) _ _
                (made clock conv token conv.conversation_id _ db) (λ out calm. calm))
        | inr (id, e) ↦
            rw (e, Post)
              (Post-bind (λ (out : TurnNode × ℕ × Tables). Calm db out.2) (λ out. Calm db out.1) _ _
                (written clock conv id _ db) (λ out calm. calm))
      ]

  -- The streaming of a delta.
  pub put_delta-Calm :
      (token event_token : String) (conv : ConversationSession) (turn : String)
      (type_of : TurnNodeType) (delta : String) (continue_existing : Bool) (origin : Origin)
      (events : Pending) (db : Tables)
      → Post
          (λ out. Calm db out.2)
          (put_delta clock token event_token conv turn type_of delta continue_existing origin
            (events, db))
  unfolding put_delta
  put_delta-Calm token event_token conv turn type_of delta continue_existing origin events db =
      Post-bind (λ out. Calm db out.2) (λ out. Calm db out.2) _ _
        (delta_written token conv turn type_of delta continue_existing origin db)
        (λ out calm.
          let db₂ = (bump_turn_version turn out.2).1 in
          let bumped = bump_turn_version-Calm turn out.2 db₂ _ refl in
          Post-bind (λ (last : TurnNode × Pending × Tables). Calm db last.2)
            (λ last. Calm db₂ last.1) _ _
            (told clock conv event_token "node.delta" "turn" _ _ _ events db₂)
            (λ last quiet.
              Calm-trans db out.2 last.1 calm (Calm-trans out.2 db₂ last.1 bumped quiet)))

  pub upsert_node_delta-Calm :
      (ids : ℕ → String) (conversation turn : String) (type_of : TurnNodeType) (delta : String)
      (continue_existing : Bool) (origin : Origin) (db : Tables)
      → Post
          (λ out. Calm db out.2)
          (upsert_node_delta clock ids conversation turn type_of delta continue_existing origin db)
  unfolding upsert_node_delta
  upsert_node_delta-Calm ids conversation turn type_of delta continue_existing origin db =
      Post-skip (λ (out : TurnNode × Pending × Tables). Calm db out.2)
        (get_conversation conversation db) _
        (λ conv.
          Post-skip (λ (out : TurnNode × Pending × Tables). Calm db out.2)
            (assert_turn_owned conversation turn db) _
            (λ v.
              put_delta-Calm (ids 0) (ids 1) conv turn type_of delta continue_existing origin []
                db))
