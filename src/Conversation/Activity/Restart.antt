-- ===== src/Conversation/Activity/Restart.antt =====
-- gateway/conversation/service.py: a restart leaves no turn active.
use learn_agent.Prelude.{
  ℕ, ◌+◌, refl, inl, inr, String, List, [], ◌∷◌, arith, Option-cases, lookup, Post, Post-of,
  Post-ok, Post-bind, Post-skip,
}
use learn_agent.Conversation.Model.{Turn, Tables}
use learn_agent.Conversation.Store.Turns.{get_conversation, interrupt_active_turns}
use learn_agent.Conversation.Store.QueueMoves.{reset_interrupted_queue_items, set_all}
use learn_agent.Conversation.Service.Events.{Pending}
use learn_agent.Conversation.Service.Recovery.{announce_interrupted, recover_after_restart}
use learn_agent.Conversation.Activity.{Calm, NoMore, Calm-trans, interrupt_active_turns-none}
use learn_agent.Conversation.Activity.Steps.{told, updated}

module _ (clock : ℕ) (ids : ℕ → String) where
  announce_interrupted-Calm :
      (n : ℕ) (rows : List Turn) (events : Pending) (db : Tables)
      → Post (λ out. Calm db out.1) (announce_interrupted clock ids n rows (events, db))
  unfolding announce_interrupted
  announce_interrupted-Calm n [] events db = λ c. refl
  announce_interrupted-Calm n (row ∷ rows) events db =
      elim (Option-cases (lookup row.turn_id db.turns)) [
        | inl missing ↦ rw (missing, Post) (announce_interrupted-Calm n rows events db)
        | inr (turn, found) ↦
            rw (found, Post)
              (Post-skip (λ (out : Pending × Tables). Calm db out.1)
                (get_conversation row.conversation_id db) _
                (λ conv.
                  Post-bind (λ (out : Pending × Tables). Calm db out.1) (λ out. Calm db out.1) _ _
                    (told clock conv (ids n) "turn.status" "turn" _ _ _ events db)
                    (λ out calm.
                      Post-bind (λ (out : Pending × Tables). Calm db out.1)
                        (λ last. Calm out.1 last.1) _ _
                        (updated clock conv (ids (n + 1)) _ out.0 out.1)
                        (λ last quiet.
                          Post-of (λ (end : Pending × Tables). Calm db end.1) _
                            (λ end h.
                              Calm-trans db last.1 end.1 (Calm-trans db out.1 last.1 calm quiet) (
                                Post-ok (λ (end : Pending × Tables). Calm last.1 end.1) _ end h
                                  (announce_interrupted-Calm (n + 2) rows last.0 last.1)))))))
      ]

  reset-Calm : (db : Tables) → Calm db (reset_interrupted_queue_items clock db).1
  unfolding reset_interrupted_queue_items set_all
  reset-Calm db = λ c. refl

  pub recover_after_restart-NoMore :
      (db : Tables) → Post (λ out. NoMore db out.2) (recover_after_restart clock ids db)
  unfolding recover_after_restart
  recover_after_restart-NoMore db =
      let stopped = (interrupt_active_turns clock db).1 in
      let reset = (reset_interrupted_queue_items clock stopped).1 in
      Post-bind (λ (out : (ℕ × ℕ) × Pending × Tables). NoMore db out.2)
        (λ (out : Pending × Tables). Calm reset out.1) _ _ (announce_interrupted-Calm 0 _ [] reset)
        (λ out calm c.
          omega (arith, calm c, reset-Calm stopped c, interrupt_active_turns-none clock db c))
