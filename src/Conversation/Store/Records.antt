-- ===== src/Conversation/Store/Records.antt =====
-- gateway/conversation/store.py: idempotency records, receipts of channel messages, tool results,
-- and the deletion of conversations.
use learn_agent.Prelude.{
  ℕ, ◌-◌, String, Option, none, some, List, [], ◌∷◌, Bool, true, false, not, ◌&&◌, ◌==◌,
  if◌then◌else◌, millis, lookup, add, keep, length, Result, ok, guard, require, is_some, ltb,
  resource_not_found, idempotency_conflict, ◌>>=◌, ◌>>◌, without, values,
}
use learn_agent.Conversation.Model.{IdempotencyRecord, Outcome, Receipt, ToolResult, Tables}

-- Seconds as microseconds.
abbrev idempotency_ttl : ℕ
idempotency_ttl = 86_400_000_000

abbrev pub receipt_ttl : ℕ
receipt_ttl = 259_200_000_000

-- check_idempotency: the outcome that the operation recorded, if it ran
unfoldable pub check_idempotency : String → String → Tables → Result (Option Outcome)
check_idempotency operation hash db = elim (lookup operation db.records) [
  | none ↦ ok none
  | some row ↦ do guard (row.request_hash == hash) idempotency_conflict; ok (some row.result)
]

unfoldable pub record_idempotency : ℕ → String → String → String → Outcome → Tables → Result Tables
record_idempotency clock operation conversation hash outcome db = do
  let row : IdempotencyRecord = record {
    conversation_id = conversation;
    request_hash = hash;
    result = outcome;
    created_at = millis clock;
  }
  records ← add operation row db.records
  ok (record db { records = records })

-- DELETE FROM a table WHERE test: the rows that stay, and the number of those that go.
abbrev pub keep_rows {ℓ} : {V : Type ℓ} → (V → Bool) → List (String × V) → List (String × V)
keep_rows test = keep (λ row. not (test row.1))

abbrev pub count_rows {ℓ} : {V : Type ℓ} → (V → Bool) → List (String × V) → ℕ
count_rows test rows = length (keep test (values rows))

abbrev old_record : ℕ → IdempotencyRecord → Bool
old_record clock row = ltb row.created_at (millis (clock - idempotency_ttl))

unfoldable pub cleanup_idempotency : ℕ → Tables → ℕ × Tables
cleanup_idempotency clock db = (
  count_rows (old_record clock) db.records,
  record db { records = keep_rows (old_record clock) db.records },
)

abbrev old_receipt : ℕ → Receipt → Bool
old_receipt clock row = ltb row.created_at (millis (clock - receipt_ttl))

unfoldable pub cleanup_receipts : ℕ → Tables → ℕ × Tables
cleanup_receipts clock db = (
  length (keep (old_receipt clock) db.receipts),
  record db { receipts = keep (λ row. not (old_receipt clock row)) db.receipts },
)

abbrev pub is_receipt : String → String → Receipt → Bool
is_receipt channel message row = row.channel == channel && row.message_id == message

-- INSERT ... ON CONFLICT(channel, message_id) DO UPDATE ... WHERE created_at < cutoff: whether a row
-- was inserted or updated, and the rows
unfoldable pub record_receipt : ℕ → Receipt → List Receipt → Bool × List Receipt
record_receipt clock new [] = (true, new ∷ [])
record_receipt clock new (row ∷ rows) =
    let (changed, rest) = record_receipt clock new rows in
    if is_receipt new.channel new.message_id row
    then (if old_receipt clock row then (true, new ∷ rows) else (false, row ∷ rows))
    else (changed, row ∷ rest)

-- check_and_record_receipt of ConversationService: is the message a repetition?
unfoldable pub check_and_record_receipt : ℕ → String → String → String → Tables → Bool × Tables
check_and_record_receipt clock conversation channel message db =
    let new : Receipt = record {
      channel = channel;
      message_id = message;
      conversation_id = conversation;
      created_at = millis clock;
    } in
    let (inserted, receipts) = record_receipt clock new db.receipts in
    if message == "" then (false, db) else (not inserted, record db { receipts = receipts })

unfoldable pub save_tool_result : String → ToolResult → Tables → Result Tables
save_tool_result ref new db = do
  rows ← add ref new db.tool_results
  ok (record db { tool_results = rows })

unfoldable pub get_tool_result : String → Tables → Result ToolResult
get_tool_result ref db = require (lookup ref db.tool_results) resource_not_found

-- clear_history without the counts: the rows of five tables go, the conversation stays
unfoldable pub clear_tables : String → Tables → Tables
clear_tables id db = record db {
  nodes = keep_rows (λ row. row.conversation_id == id) db.nodes;
  turns = keep_rows (λ row. row.conversation_id == id) db.turns;
  items = keep_rows (λ row. row.conversation_id == id) db.items;
  approvals = keep_rows (λ row. row.conversation_id == id) db.approvals;
  tool_results = keep_rows (λ row. row.conversation_id == id) db.tool_results;
}

unfoldable pub clear_history : String → Tables → List (String × ℕ) × Tables
clear_history id db = (
  ("turn_nodes", count_rows (λ row. row.conversation_id == id) db.nodes)
      ∷ ("turns", count_rows (λ row. row.conversation_id == id) db.turns)
      ∷ ("queue_items", count_rows (λ row. row.conversation_id == id) db.items)
      ∷ ("approvals", count_rows (λ row. row.conversation_id == id) db.approvals)
      ∷ ("tool_results", count_rows (λ row. row.conversation_id == id) db.tool_results)
      ∷ [],
  clear_tables id db,
)

-- delete_conversation: was there a row of the conversation?
unfoldable pub delete_conversation : String → Tables → Bool × Tables
delete_conversation id db =
    let cleared = clear_tables id db in
    (
      is_some (lookup id db.conversations),
      record cleared {
        records = keep_rows (λ row. row.conversation_id == id) db.records;
        outbox = keep_rows (λ row. row.conversation_id == id) db.outbox;
        receipts = keep (λ row. not (row.conversation_id == id)) db.receipts;
        conversations = without id db.conversations;
      },
    )
