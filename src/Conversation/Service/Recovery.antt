-- ===== src/Conversation/Service/Recovery.antt =====
-- gateway/conversation/service.py: after a restart, and the periodic cleanup.
use learn_agent.Prelude.{
  ℕ, ◌+◌, ◌-◌, String, none, some, List, [], ◌∷◌, Bool, true, ◌&&◌, ◌||◌, ◌==◌, if◌then◌else◌, keep,
  values, lookup, Result, ok, ◌>>=◌, millis, ltb, take, order_by, max, ◌*◌,
}
use learn_agent.Conversation.TurnStatus.{is_active}
use learn_agent.Conversation.Model.{
  ConversationSession, Turn, Tables, plain, words, flag, turn_state,
}
use learn_agent.Conversation.Store.Turns.{get_conversation, interrupt_active_turns}
use learn_agent.Conversation.Store.QueueMoves.{
  reset_interrupted_queue_items, archive_expired_pending_deletes,
}
use learn_agent.Conversation.Store.Records.{
  cleanup_idempotency, cleanup_receipts, delete_conversation,
}
use learn_agent.Conversation.Store.Outbox.{cleanup_outbox}
use learn_agent.Conversation.Service.Events.{Pending, append_and_emit, queue_updated}
use learn_agent.Conversation.Service.Approvals.{expire_and_broadcast}

-- turn.error_code or GATEWAY_RESTART
abbrev restart_code : Turn → String
restart_code turn = elim turn.error_code [
  | none ↦ "gateway_restart"
  | some code ↦ if code == "" then "gateway_restart" else code
]

-- The two events of every turn that was interrupted. `n` counts the ids used.
unfoldable pub announce_interrupted :
    ℕ → (ℕ → String) → ℕ → List Turn → Pending × Tables → Result (Pending × Tables)
announce_interrupted clock ids n [] (events, db) = ok (events, db)
announce_interrupted clock ids n (row ∷ rows) (events, db) = elim (lookup row.turn_id db.turns) [
  | none ↦ announce_interrupted clock ids n rows (events, db)
  | some turn ↦ do
    conv ← get_conversation row.conversation_id db
    let data_of =
        ("status", turn_state turn.status) ∷ ("error_code", plain (words (restart_code turn))) ∷ []
    (events₁, db₁) ←
        append_and_emit clock (ids n) conv "turn.status" "turn" turn.turn_version
          (some turn.turn_id) data_of (events, db)
    (events₂, db₂) ←
        queue_updated clock (ids (n + 1)) conv (("interrupted", plain (flag true)) ∷ [])
          (events₁, db₁)
    announce_interrupted clock ids (n + 2) rows (events₂, db₂)
]

-- recover_after_restart: the numbers of turns and of queue items
unfoldable pub recover_after_restart :
    ℕ → (ℕ → String) → Tables → Result ((ℕ × ℕ) × Pending × Tables)
recover_after_restart clock ids db = do
  let affected = keep (λ turn. is_active turn.status) (values db.turns)
  let (turns, db₁) = interrupt_active_turns clock db
  let (items, db₂) = reset_interrupted_queue_items clock db₁
  (events, db₃) ← announce_interrupted clock ids 0 affected ([], db₂)
  ok ((turns, items), events, db₃)

-- What cleanup counts.
pub record Cleaned : Type 0 where
  pub idempotency : ℕ
  pub outbox : ℕ
  pub receipts : ℕ
  pub approvals : ℕ
  pub pending_deletes : ℕ
  pub system_conversations : List String

-- session_key LIKE 'sched:%' and its siblings; LIKE does not tell ASCII letters by case, which is a
-- function given from outside
module _ (like : String → String → Bool) where
  abbrev is_system : ConversationSession → Bool
  is_system row =
      row.origin == "system"
      || like "sched:%" row.session_key
      || like "heartbeat:%" row.session_key
      || like "system:%" row.session_key

  abbrev pub is_stale : ℕ → ℕ → ConversationSession → Bool
  is_stale clock days row =
      is_system row && ltb row.updated_at (millis (clock - max 1 days * 86_400_000_000))

  unfoldable pub delete_all : List ConversationSession → Tables → List String × Tables
  delete_all [] db = ([], db)
  delete_all (row ∷ rows) db =
      let (deleted, db₁) = delete_conversation row.conversation_id db in
      let (ids, db₂) = delete_all rows db₁ in
      (if deleted then row.conversation_id ∷ ids else ids, db₂)

  -- delete_stale_system_conversations, with its limit of 500 rows
  unfoldable pub delete_stale_system_conversations : ℕ → ℕ → Tables → List String × Tables
  delete_stale_system_conversations clock days db =
      delete_all
        (take 500
          (order_by (λ row. row.updated_at) (keep (is_stale clock days) (values db.conversations))))
        db

  unfoldable pub cleanup : ℕ → (ℕ → String) → ℕ → Tables → Result (Cleaned × Pending × Tables)
  cleanup clock ids days db = do
    let (idempotency, db₁) = cleanup_idempotency clock db
    let (outbox, db₂) = cleanup_outbox clock db₁
    let (receipts, db₃) = cleanup_receipts clock db₂
    (approvals, events, db₄) ← expire_and_broadcast clock ids db₃
    let (pending_deletes, db₅) = archive_expired_pending_deletes clock db₄
    let (deleted, db₆) = delete_stale_system_conversations clock days db₅
    let cleaned : Cleaned = record {
      idempotency = idempotency;
      outbox = outbox;
      receipts = receipts;
      approvals = approvals;
      pending_deletes = pending_deletes;
      system_conversations = deleted;
    }
    ok (cleaned, events, db₆)
