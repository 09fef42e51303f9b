-- ===== src/Conversation/Store/Outbox.antt =====
-- gateway/conversation/store.py: the rows of the outbox.
pub mod Trim
use learn_agent.Prelude.{
  ℕ, ◌+◌, ◌-◌, String, Option, none, some, List, [], ◌∷◌, Bool, true, false, not, ◌&&◌, ◌==◌,
  if◌then◌else◌, millis, add, update, keep, length, values, Result, ok, err, ◌>>=◌, leb, ltb, any,
  order_by, take, map, is_some,
}
use learn_agent.Conversation.Model.{OutboxEvent, Payload, Tables, gen_id}
use learn_agent.Conversation.Store.Records.{keep_rows, count_rows}

abbrev outbox_ttl : ℕ
outbox_ttl = 86_400_000_000

abbrev pub new_event : ℕ → String → String → ℕ → String → Payload → OutboxEvent
new_event clock event_type scope version conversation payload = record {
  conversation_id = conversation;
  event_type = event_type;
  scope = scope;
  version = version;
  payload = payload;
  created_at = millis clock;
  published_at = none;
  claimed_by = none;
  claim_expires_at = none;
}

-- append_outbox: the id of the event
unfoldable pub append_outbox :
    ℕ → String → String → String → String → ℕ → Payload → Tables → Result (String × Tables)
append_outbox clock token conversation event_type scope version payload db = do
  let id = gen_id "obx_" token
  outbox ← add id (new_event clock event_type scope version conversation payload) db.outbox
  ok (id, record db { outbox = outbox })

-- published_at IS NULL
abbrev pub is_unpublished : OutboxEvent → Bool
is_unpublished event = not (is_some event.published_at)

abbrev published : ℕ → OutboxEvent → OutboxEvent
published clock event = record event { published_at = some (millis clock) }

unfoldable pub mark_outbox_published : ℕ → String → Tables → Tables
mark_outbox_published clock id db = record db { outbox = update id (published clock) db.outbox }

abbrev pub created : String × OutboxEvent → ℕ
created row = row.1.created_at

-- The unpublished rows, oldest first.
unfoldable pub unpublished : List (String × OutboxEvent) → List (String × OutboxEvent)
unpublished rows = order_by created (keep (λ row. is_unpublished row.1) rows)

unfoldable pub list_unpublished_outbox : ℕ → Tables → List (String × OutboxEvent)
list_unpublished_outbox limit db = take limit (unpublished db.outbox)

-- id IN (SELECT ...)
abbrev pub is_among : List (String × OutboxEvent) → String × OutboxEvent → Bool
is_among rows row = any (λ other. other.0 == row.0) rows

-- trim_outbox_backlog: the oldest unpublished rows above the limit go
unfoldable pub trim_outbox_backlog : ℕ → Tables → ℕ × Tables
trim_outbox_backlog most db =
    let count = count_rows is_unpublished db.outbox in
    let oldest = list_unpublished_outbox (count - most) db in
    if leb count most then (0, db) else (
      length (keep (is_among oldest) db.outbox),
      record db { outbox = keep (λ row. not (is_among oldest row)) db.outbox },
    )

abbrev old_event : ℕ → OutboxEvent → Bool
old_event clock event =
    is_some event.published_at && ltb event.created_at (millis (clock - outbox_ttl))

unfoldable pub cleanup_outbox : ℕ → Tables → ℕ × Tables
cleanup_outbox clock db = (
  count_rows (old_event clock) db.outbox,
  record db { outbox = keep_rows (old_event clock) db.outbox },
)
