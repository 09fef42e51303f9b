-- ===== src/Conversation/Service/Completion/Quiet.antt =====
-- gateway/conversation/service.py: the announcements of a finished turn leave its tables.
use learn_agent.Prelude.{
  ℕ, ◌+◌, ◌≡◌, refl, ◌∙◌, String, Option, List, [], ◌∷◌, Post, Post-of, Post-ok, Post-bind,
}
use learn_agent.Conversation.Model.{ConversationSession, Turn, TurnNode, Approval, Tables, Datum}
use learn_agent.Conversation.Service.Events.{Pending, append_and_emit}
use learn_agent.Conversation.Service.Effects.{append_and_emit-Announced}
use learn_agent.Conversation.Service.Completion.{announce_swept, announce_cancelled}

-- The tables that the announcements leave.
pub record Same (db db' : Tables) : Type 0 where
  pub turns : db'.turns ≡ db.turns
  pub nodes : db'.nodes ≡ db.nodes
  pub approvals : db'.approvals ≡ db.approvals

pub Same-trans : (db db₁ db₂ : Tables) → Same db db₁ → Same db₁ db₂ → Same db db₂
Same-trans db db₁ db₂ first second = record {
  turns = second.turns ∙ first.turns;
  nodes = second.nodes ∙ first.nodes;
  approvals = second.approvals ∙ first.approvals;
}

pub Same-refl : (db : Tables) → Same db db
Same-refl db = record { turns = refl; nodes = refl; approvals = refl }

module _ (clock : ℕ) (conv : ConversationSession) where
  pub told :
      (token event_type scope : String) (version : ℕ) (turn : Option String)
      (data_of : List (String × Datum)) (events : Pending) (db : Tables)
      → Post
          (λ out. Same db out.1)
          (append_and_emit clock token conv event_type scope version turn data_of (events, db))
  told token event_type scope version turn data_of events db =
      Post-of (λ out. Same db out.1) _
        (λ out h.
          let said =
            (append_and_emit-Announced clock token conv data_of events out.0 db out.1 event_type
              scope version turn h).0 in
          record {
            turns = said.same_turns;
            nodes = said.same_nodes;
            approvals = said.same_approvals;
          })

  pub announce_swept-Same :
      (ids : ℕ → String) (n : ℕ) (turn : Turn) (nodes : List TurnNode) (events : Pending)
      (db : Tables)
      → Post (λ out. Same db out.2) (announce_swept clock ids n conv turn nodes (events, db))
  unfolding announce_swept
  announce_swept-Same ids n turn [] events db = Same-refl db
  announce_swept-Same ids n turn (first ∷ nodes) events db =
      Post-bind (λ (out : ℕ × Pending × Tables). Same db out.2) (λ out. Same db out.1) _ _
        (told (ids n) "node.tool" "turn" _ _ _ events db)
        (λ out same.
          Post-of (λ last. Same db last.2) _
            (λ last h. Same-trans db out.1 last.2 same (
              Post-ok (λ last. Same out.1 last.2) _ last h
                (announce_swept-Same ids (n + 1) turn nodes out.0 out.1))))

  pub announce_cancelled-Same :
      (ids : ℕ → String) (n : ℕ) (turn : Turn) (rows : List Approval) (events : Pending)
      (db : Tables)
      → Post (λ out. Same db out.2) (announce_cancelled clock ids n conv turn rows (events, db))
  unfolding announce_cancelled
  announce_cancelled-Same ids n turn [] events db = Same-refl db
  announce_cancelled-Same ids n turn (first ∷ rows) events db =
      Post-bind (λ (out : ℕ × Pending × Tables). Same db out.2) (λ out. Same db out.1) _ _
        (told (ids n) "approval.resolved" "turn" _ _ _ events db)
        (λ out same.
          Post-of (λ last. Same db last.2) _
            (λ last h. Same-trans db out.1 last.2 same (
              Post-ok (λ last. Same out.1 last.2) _ last h
                (announce_cancelled-Same ids (n + 1) turn rows out.0 out.1))))
