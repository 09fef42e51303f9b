-- ===== src/Conversation/Activity/Ending.antt =====
-- gateway/conversation/service.py: the end of a turn makes no turn active.
use learn_agent.Prelude.{
  ℕ, ◌+◌, ◌≡◌, refl, ap, ◌∙◌, inl, inr, String, Option, some, List, [], ◌∷◌, true, arith,
  Bool-cases, Option-cases, lookup, ◌==◌, Post, Post-of, Post-ok, Post-bind,
}
use learn_agent.Conversation.TurnStatus.{TurnStatus, is_active, is_terminal, is_abort}
use learn_agent.Conversation.Model.{ConversationSession, Turn, TurnNode, Approval, Tables}
use learn_agent.Conversation.Store.Turns.{get_conversation, get_turn}
use learn_agent.Conversation.Store.Nodes.{
  finalize_turn_nodes, sweep_running_tool_nodes, update_node, write_node, create_node, get_node,
}
use learn_agent.Conversation.Store.Approvals.{cancel_pending}
use learn_agent.Conversation.Service.Events.{Pending}
use learn_agent.Conversation.Service.Completion.{
  final_node, end_turn, announce_swept, announce_cancelled, cancel_approvals, cancel_if_abort,
  finish_turn, complete_turn,
}
use learn_agent.Conversation.Activity.{Calm, NoMore, same_turns-Calm, Calm-trans, Calm-NoMore}
use learn_agent.Conversation.Activity.Steps.{told}
use learn_agent.Conversation.Activity.Changing.{set}

module _ (clock : ℕ) (conv : ConversationSession) where
  final_node-Same :
      (token turn : String) (status : TurnStatus) (full_text : Option String) (db : Tables)
      → Post
          (λ out. out.1.turns ≡ db.turns)
          (final_node clock token conv.conversation_id turn status full_text db)
  unfolding final_node update_node write_node create_node get_node
  final_node-Same token turn status full_text db =
      Post-of (λ out. out.1.turns ≡ db.turns) _ (λ out h. ground arith)

  end_turn-NoMore :
      (token id : String) (status : TurnStatus) (full_text code : Option String) (db : Tables)
      (turn : Turn)
      → lookup id db.turns ≡ some turn
      → is_active turn.status ≡ true
      → Post (λ out. NoMore db out.1) (end_turn clock token conv id status full_text code db)
  unfolding end_turn finalize_turn_nodes sweep_running_tool_nodes
  end_turn-NoMore token id status full_text code db turn found active =
      Post-bind (λ (out : (Turn × List TurnNode × Option String) × Tables). NoMore db out.1)
        (λ out. out.1.turns ≡ db.turns) _ _ (final_node-Same token id status full_text db)
        (λ out same.
          Post-bind (λ (last : (Turn × List TurnNode × Option String) × Tables). NoMore db last.1)
            (λ last. NoMore out.1 last.1) _ _
            (set clock id status _ out.1 turn (ap (lookup id) same ∙ found) active)
            (λ last less c. omega (arith, less c, same_turns-Calm db out.1 same c)))

  announce_swept-Calm :
      (ids : ℕ → String) (n : ℕ) (turn : Turn) (nodes : List TurnNode) (events : Pending)
      (db : Tables)
      → Post (λ out. Calm db out.2) (announce_swept clock ids n conv turn nodes (events, db))
  unfolding announce_swept
  announce_swept-Calm ids n turn [] events db = λ c. refl
  announce_swept-Calm ids n turn (first ∷ nodes) events db =
      Post-bind (λ (out : ℕ × Pending × Tables). Calm db out.2) (λ out. Calm db out.1) _ _
        (told clock conv (ids n) "node.tool" "turn" _ _ _ events db)
        (λ out calm.
          Post-of (λ last. Calm db last.2) _
            (λ last h. Calm-trans db out.1 last.2 calm (
              Post-ok (λ last. Calm out.1 last.2) _ last h
                (announce_swept-Calm ids (n + 1) turn nodes out.0 out.1))))

  announce_cancelled-Calm :
      (ids : ℕ → String) (n : ℕ) (turn : Turn) (rows : List Approval) (events : Pending)
      (db : Tables)
      → Post (λ out. Calm db out.2) (announce_cancelled clock ids n conv turn rows (events, db))
  unfolding announce_cancelled
  announce_cancelled-Calm ids n turn [] events db = λ c. refl
  announce_cancelled-Calm ids n turn (first ∷ rows) events db =
      Post-bind (λ (out : ℕ × Pending × Tables). Calm db out.2) (λ out. Calm db out.1) _ _
        (told clock conv (ids n) "approval.resolved" "turn" _ _ _ events db)
        (λ out calm.
          Post-of (λ last. Calm db last.2) _
            (λ last h. Calm-trans db out.1 last.2 calm (
              Post-ok (λ last. Calm out.1 last.2) _ last h
                (announce_cancelled-Calm ids (n + 1) turn rows out.0 out.1))))

  cancel_if_abort-Calm :
      (ids : ℕ → String) (n : ℕ) (turn : Turn) (status : TurnStatus) (events : Pending)
      (db : Tables)
      → Post (λ out. Calm db out.2) (cancel_if_abort clock ids n conv turn status (events, db))
  unfolding cancel_if_abort cancel_approvals cancel_pending
  cancel_if_abort-Calm ids n turn status events db = elim (Bool-cases (is_abort status)) [
    | inr other ↦ rw (other, Post) (λ c. refl)
    | inl abort ↦
        Post-of (λ out. Calm db out.2) _
          (λ out h.
            Post-ok (λ (out : ℕ × Pending × Tables). Calm db out.2) _ out (rw abort at h)
              (announce_cancelled-Calm ids n turn _ events _))
  ]

  finish_turn-NoMore :
      (ids : ℕ → String) (id : String) (status : TurnStatus) (full_text code : Option String)
      (db : Tables) (turn : Turn)
      → lookup id db.turns ≡ some turn
      → is_active turn.status ≡ true
      → Post (λ out. NoMore db out.2) (finish_turn clock ids conv id status full_text code db)
  unfolding finish_turn
  finish_turn-NoMore ids id status full_text code db turn found active =
      Post-bind (λ (out : Turn × Pending × Tables). NoMore db out.2) (λ out. NoMore db out.1) _ _
        (end_turn-NoMore (ids 0) id status full_text code db turn found active)
        (λ out₁ less₁.
          Post-bind (λ (out : Turn × Pending × Tables). NoMore db out.2) (λ out. Calm out₁.1 out.2)
            _ _ (announce_swept-Calm ids 3 out₁.0.0 out₁.0.1 [] out₁.1)
            (λ out₂ calm₂.
              Post-bind (λ (out : Turn × Pending × Tables). NoMore db out.2)
                (λ out. Calm out₂.2 out.2) _ _
                (cancel_if_abort-Calm ids out₂.0 out₁.0.0 status out₂.1 out₂.2)
                (λ out₃ calm₃.
                  Post-bind (λ (out : Turn × Pending × Tables). NoMore db out.2)
                    (λ out. Calm out₃.2 out.1) _ _
                    (told clock conv (ids 1) "turn.status" "turn" _ _ _ out₃.1 out₃.2)
                    (λ out₄ calm₄.
                      Post-bind (λ (out : Turn × Pending × Tables). NoMore db out.2)
                        (λ out. Calm out₄.1 out.1) _ _
                        (told clock conv (ids 2) "chat.done" "turn" _ _ _ out₄.0 out₄.1)
                        (λ out₅ calm₅.
                          Calm-NoMore db out₄.1 out₅.1
                            (Calm-NoMore db out₃.2 out₄.1
                              (Calm-NoMore db out₂.2 out₃.2
                                (Calm-NoMore db out₁.1 out₂.2 less₁ calm₂) calm₃)
                              calm₄)
                            calm₅)))))

pub complete_turn-NoMore :
    (clock : ℕ) (ids : ℕ → String) (conversation id : String) (status : TurnStatus)
    (full_text code : Option String) (db : Tables)
    → Post
        (λ out. NoMore db out.2)
        (complete_turn clock ids conversation id status full_text code db)
unfolding complete_turn get_conversation get_turn
complete_turn-NoMore clock ids conversation id status full_text code db =
    elim (Option-cases (lookup conversation db.conversations)) [
      | inl missing ↦ rw (missing, Post) tt
      | inr (conv, there) ↦ elim (Option-cases (lookup id db.turns)) [
        | inl missing ↦ rw (there, missing, Post) tt
        | inr (turn, found) ↦ elim (Bool-cases (turn.conversation_id == conversation)) [
          | inr foreign ↦ rw (there, found, foreign, Post) tt
          | inl owned ↦ elim (Bool-cases (is_terminal turn.status)) [
            | inl over ↦ rw (there, found, owned, over, Post) (λ c. omega arith)
            | inr live ↦
                rw (there, found, owned, live, Post)
                  (finish_turn-NoMore clock conv ids id status full_text code db turn found
                    (ground arith))
          ]
        ]
      ]
    ]
