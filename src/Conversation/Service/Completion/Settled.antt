-- ===== src/Conversation/Service/Completion/Settled.antt =====
-- gateway/conversation/service.py: what complete_turn leaves of a turn.
use learn_agent.Prelude.{
  ℕ, ◌≡◌, refl, ap, sym, ◌∙◌, inl, inr, String, Option, some, List, [], Bool, true, false, not,
  arith, Bool-cases, Option-cases, lookup, lookup-update, ok, ◌==◌, ◌&&◌, ◌||◌, Post, Post-of,
  Post-ok, Post-bind, Post-skip, count, values, map_rows, count-map_rows_none, count-map_rows,
  eq_refl, eq_iff,
}
use learn_agent.Conversation.TurnStatus.{TurnStatus, is_abort, is_active}
use learn_agent.Conversation.NodeType.{tool, same_type}
use learn_agent.Conversation.Model.{ConversationSession, Turn, TurnNode, Tables}
use learn_agent.Conversation.Store.Turns.{
  TurnEnd, set_status, update_turn_status, get_conversation, get_turn,
}
use learn_agent.Conversation.Store.Nodes.{
  in_turn, unfinished, finalized, finalize_turn_nodes, is_swept, sweep, sweep_running_tool_nodes,
  has, swept_metadata,
}
use learn_agent.Conversation.Store.Approvals.{pending_in, cancel_pending, cancel_in}
use learn_agent.Conversation.Service.Events.{Pending}
use learn_agent.Conversation.Service.Completion.{
  end_turn, cancel_approvals, cancel_if_abort, finish_turn, complete_turn, sweep_note,
}
use learn_agent.Conversation.Service.Completion.Quiet.{
  Same, Same-trans, told, announce_swept-Same, announce_cancelled-Same,
}

and_false : (a : Bool) → (a && false) ≡ false
and_false true = refl
and_false false = refl

no_third : (a b d : Bool) → (a && b && false && d) ≡ false
no_third true true d = refl
no_third true false d = refl
no_third false b d = refl

third : (a b c d : Bool) → (a && b && c && d) ≡ true → c ≡ true
third true true true d h = refl
third true true false d h = absurd (cc)
third true false c d h = absurd (cc)
third false b c d h = absurd (cc)

-- A running tool is not streaming or queued.
running_unfinished :
    (id : String) (row : TurnNode) → is_swept id row ≡ true → unfinished id row ≡ false
running_unfinished id row h =
    let running = (eq_iff row.status "running").0 (
      third (in_turn id row) (same_type row.node_type tool) (row.status == "running")
        (not (has "runtime_type" row.metadata)) h) in
    ap (λ s. in_turn id row && (s == "streaming" || s == "queued")) running
    ∙ and_false (in_turn id row)

module _ (clock : ℕ) (conv : ConversationSession) where
  -- No approval of the turn is pending after an end without an answer.
  abbrev NothingPending : String → TurnStatus → Tables → Type 0
  NothingPending id status db =
      is_abort status ≡ true → count (pending_in conv.conversation_id id) (values db.approvals) ≡ 0

  cancel_if_abort-settles :
      (ids : ℕ → String) (n : ℕ) (turn : Turn) (status : TurnStatus) (events : Pending)
      (db : Tables)
      → Post
          (λ out.
            (out.2.turns ≡ db.turns)
            × (out.2.nodes ≡ db.nodes)
            × NothingPending turn.turn_id status out.2)
          (cancel_if_abort clock ids n conv turn status (events, db))
  unfolding cancel_if_abort cancel_approvals cancel_pending
  cancel_if_abort-settles ids n turn status events db = elim (Bool-cases (is_abort status)) [
    | inr other ↦ rw (other, Post) (refl, refl, λ abort. absurd (cc))
    | inl abort ↦
        Post-of
          (λ out.
            (out.2.turns ≡ db.turns)
            × (out.2.nodes ≡ db.nodes)
            × NothingPending turn.turn_id status out.2)
          _
          (λ out h.
            let cancelled = cancel_pending clock conv.conversation_id turn.turn_id db in
            let same =
              Post-ok (λ (out : ℕ × Pending × Tables). Same cancelled out.2) _ out (rw abort at h)
                (announce_cancelled-Same clock conv ids n turn _ events _) in
            (
              same.turns,
              same.nodes,
              λ a.
                  ap (λ rows. count (pending_in conv.conversation_id turn.turn_id) (values rows))
                    same.approvals
                  ∙ count-map_rows_none (pending_in conv.conversation_id turn.turn_id)
                      (cancel_in clock conv.conversation_id turn.turn_id) db.approvals
                      (λ row. ground arith),
            ))
  ]

  finalized_lem : (id : String) (row : TurnNode) → unfinished id (finalized clock id row) ≡ false
  finalized_lem id row = elim (Bool-cases (unfinished id row)) [
    | inl e ↦ rw (finalized, e) (and_false (in_turn id row))
    | inr e ↦ rw (finalized, e) e
  ]

  swept_lem :
      (id note code : String) (row : TurnNode) → is_swept id (sweep clock id note code row) ≡ false
  swept_lem id note code row = elim (Bool-cases (is_swept id row)) [
    | inl e ↦
        rw (sweep, e)
          (no_third (in_turn id row) (same_type row.node_type tool)
            (not (has "runtime_type" (swept_metadata note code row.metadata))))
    | inr e ↦ rw (sweep, e) e
  ]

  -- A running tool is neither streaming nor queued, and neither is one that was closed.
  sweep-unfinished :
      (id note code : String) (row : TurnNode)
      → unfinished id (sweep clock id note code row) ≡ unfinished id row
  sweep-unfinished id note code row = elim (Bool-cases (is_swept id row)) [
    | inl e ↦ rw (sweep, e) (and_false (in_turn id row) ∙ sym (running_unfinished id row e))
    | inr e ↦ rw (sweep, e) refl
  ]

  -- What end_turn leaves of the turn and its nodes.
  Ended : String → TurnStatus → Turn → Tables → Type 0
  Ended id status turn db =
      (lookup id db.turns ≡ some turn)
      × (turn.status ≡ status)
      × (count (unfinished id) (values db.nodes) ≡ 0)
      × (count (is_swept id) (values db.nodes) ≡ 0)

  updated-status :
      (id : String) (status : TurnStatus) (end : TurnEnd) (db : Tables)
      → Post
          (λ out. (lookup id out.1.turns ≡ some out.0) × (out.0.status ≡ status))
          (update_turn_status id status end db)
  unfolding update_turn_status
  updated-status id status end db =
      Post-of (λ out. (lookup id out.1.turns ≡ some out.0) × (out.0.status ≡ status)) _
        (λ out h. elim (Option-cases (lookup id db.turns)) [
          | inl missing ↦
              absurd
                (ground (arith, lookup-update id id (set_status status end) db.turns, eq_refl id))
          | inr (old, found) ↦
              ground (arith, lookup-update id id (set_status status end) db.turns, eq_refl id)
        ])

  end_turn-Ended :
      (token id : String) (status : TurnStatus) (full_text code : Option String) (db : Tables)
      → Post
          (λ out. Ended id status out.0.0 out.1)
          (end_turn clock token conv id status full_text code db)
  unfolding end_turn finalize_turn_nodes sweep_running_tool_nodes Ended
  end_turn-Ended token id status full_text code db =
      Post-skip
        (λ (out : (Turn × List TurnNode × Option String) × Tables). Ended id status out.0.0 out.1) _
        _
        (λ first.
          Post-bind
            (λ (out : (Turn × List TurnNode × Option String) × Tables).
              Ended id status out.0.0 out.1)
            (λ out. (lookup id out.1.turns ≡ some out.0) × (out.0.status ≡ status)) _ _
            (updated-status id status _ first.1)
            (λ out done.
              let closed = map_rows (finalized clock id) out.1.nodes in
              (
                done.0,
                done.1,
                count-map_rows (unfinished id) (sweep clock id sweep_note "tool_no_return") closed
                      (sweep-unfinished id sweep_note "tool_no_return")
                    ∙ count-map_rows_none (unfinished id) (finalized clock id) out.1.nodes
                        (finalized_lem id),
                count-map_rows_none (is_swept id) (sweep clock id sweep_note "tool_no_return")
                    closed (swept_lem id sweep_note "tool_no_return"),
              )))

  -- The turn and its nodes have come to rest.
  abbrev pub Settled : String → TurnStatus → Turn → Tables → Type 0
  Settled id status turn db =
      (lookup id db.turns ≡ some turn)
      × (turn.status ≡ status)
      × (count (unfinished id) (values db.nodes) ≡ 0)
      × (count (is_swept id) (values db.nodes) ≡ 0)
      × NothingPending turn.turn_id status db

  Settled-of :
      (id : String) (status : TurnStatus) (turn : Turn) (db db₁ db₂ db₃ : Tables)
      → Ended id status turn db
      → Same db db₁
      → (db₂.turns ≡ db₁.turns) × (db₂.nodes ≡ db₁.nodes) × NothingPending turn.turn_id status db₂
      → Same db₂ db₃
      → Settled id status turn db₃
  unfolding Ended
  Settled-of id status turn db db₁ db₂ db₃ (found, is_set, quiet, closed) same₁
        (turns, nodes, none_left) same₃ =
      let all_nodes = same₃.nodes ∙ nodes ∙ same₁.nodes in
      (
        ap (lookup id) (same₃.turns ∙ turns ∙ same₁.turns) ∙ found,
        is_set,
        ap (λ rows. count (unfinished id) (values rows)) all_nodes ∙ quiet,
        ap (λ rows. count (is_swept id) (values rows)) all_nodes ∙ closed,
        λ abort.
            ap (λ rows. count (pending_in conv.conversation_id turn.turn_id) (values rows))
              same₃.approvals
            ∙ none_left abort,
      )

  finish_turn-Settled :
      (ids : ℕ → String) (id : String) (status : TurnStatus) (full_text code : Option String)
      (db : Tables)
      → Post
          (λ out. Settled id status out.0 out.2)
          (finish_turn clock ids conv id status full_text code db)
  unfolding finish_turn
  finish_turn-Settled ids id status full_text code db =
      Post-bind (λ (out : Turn × Pending × Tables). Settled id status out.0 out.2)
        (λ out. Ended id status out.0.0 out.1) _ _
        (end_turn-Ended (ids 0) id status full_text code db)
        (λ out₁ ended.
          Post-bind (λ (out : Turn × Pending × Tables). Settled id status out.0 out.2)
            (λ out. Same out₁.1 out.2) _ _
            (announce_swept-Same clock conv ids 3 out₁.0.0 out₁.0.1 [] out₁.1)
            (λ out₂ same₂.
              Post-bind (λ (out : Turn × Pending × Tables). Settled id status out.0 out.2)
                (λ out.
                  (out.2.turns ≡ out₂.2.turns)
                  × (out.2.nodes ≡ out₂.2.nodes)
                  × NothingPending out₁.0.0.turn_id status out.2)
                _ _ (cancel_if_abort-settles ids out₂.0 out₁.0.0 status out₂.1 out₂.2)
                (λ out₃ settles.
                  Post-bind (λ (out : Turn × Pending × Tables). Settled id status out.0 out.2)
                    (λ out. Same out₃.2 out.1) _ _
                    (told clock conv (ids 1) "turn.status" "turn" _ _ _ out₃.1 out₃.2)
                    (λ out₄ same₄.
                      Post-bind (λ (out : Turn × Pending × Tables). Settled id status out.0 out.2)
                        (λ out. Same out₄.1 out.1) _ _
                        (told clock conv (ids 2) "chat.done" "turn" _ _ _ out₄.0 out₄.1)
                        (λ out₅ same₅.
                          Settled-of id status out₁.0.0 out₁.1 out₂.2 out₃.2 out₅.1 ended same₂
                            settles (Same-trans out₃.2 out₄.1 out₅.1 same₄ same₅))))))

-- When complete_turn succeeds on a turn that was active, the turn is stored with the given status, none
-- of its nodes is still streaming or queued, none of its tools still runs, background runs apart, and
-- after a stop, an error or an interruption no approval of it is pending.
pub complete_turn-Settled :
    (clock : ℕ) (ids : ℕ → String) (conversation id : String) (status : TurnStatus)
    (full_text code : Option String) (db db' : Tables) (conv : ConversationSession)
    (old turn : Turn) (events : Pending)
    → lookup conversation db.conversations ≡ some conv
    → lookup id db.turns ≡ some old
    → is_active old.status ≡ true
    → complete_turn clock ids conversation id status full_text code db ≡ ok (turn, events, db')
    → Settled clock conv id status turn db'
unfolding complete_turn get_conversation get_turn
complete_turn-Settled clock ids conversation id status full_text code db db' conv old turn events
      there found active h =
    let finished : finish_turn clock ids conv id status full_text code db ≡ ok (turn, events, db') =
      ground arith in
    Post-ok (λ (out : Turn × Pending × Tables). Settled clock conv id status out.0 out.2) _ _
      finished (finish_turn-Settled clock conv ids id status full_text code db)
