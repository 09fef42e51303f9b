-- ===== src/Conversation/Publisher.antt =====
-- gateway/conversation/outbox.py: OutboxPublisher, which publishes again what a crash left
-- unpublished. Several instances claim rows of one outbox. A transaction of its own that fails, as on
-- a busy database, is not modelled.
pub mod Claims
use learn_agent.Prelude.{
  ℕ, suc, ◌+◌, ◌-◌, String, Option, none, some, List, [], ◌∷◌, Bool, true, false, not, ◌&&◌, ◌||◌,
  ◌==◌, if◌then◌else◌, millis, lookup, insert, without, update, map_rows, keep, length, values, leb,
  ltb, order_by, take, max,
}
use learn_agent.Conversation.Model.{OutboxEvent, Payload, Tables}
use learn_agent.Conversation.Store.Outbox.{
  is_unpublished, created, trim_outbox_backlog, mark_outbox_published,
}

abbrev pub dead_letter : String
dead_letter = "dead_letter"

-- _CLAIM_MIN_AGE_SECONDS in microseconds
abbrev pub claim_min_age : ℕ
claim_min_age = 15_000_000

-- What __init__ keeps of its arguments; times in microseconds.
pub record OutboxPublisher : Type 0 where
  pub batch_size : ℕ
  pub max_backlog : ℕ
  pub max_attempts : ℕ
  pub claimant : String
  pub claim_ttl : ℕ

abbrev pub new_publisher : ℕ → ℕ → ℕ → String → ℕ → OutboxPublisher
new_publisher batch_size max_backlog max_attempts claimant claim_ttl = record {
  batch_size = max 1 batch_size;
  max_backlog = max 100 max_backlog;
  max_attempts = max 1 max_attempts;
  claimant = claimant;
  claim_ttl = max 1_000_000 claim_ttl;
}

-- claimed_by=?
abbrev pub is_claimed_by : String → OutboxEvent → Bool
is_claimed_by who event = elim event.claimed_by [ none ↦ false | some other ↦ other == who ]

-- claimed_by IS NULL OR claim_expires_at IS NULL OR claim_expires_at < now
abbrev pub is_free : ℕ → OutboxEvent → Bool
is_free clock event = elim event.claimed_by [
  | none ↦ true
  | some who ↦ elim event.claim_expires_at [ none ↦ true | some t ↦ ltb t (millis clock) ]
]

-- The condition of the claiming UPDATE.
abbrev pub is_claimable : ℕ → OutboxEvent → Bool
is_claimable clock event =
    is_unpublished event
    && not (is_claimed_by dead_letter event)
    && leb event.created_at (millis (clock - claim_min_age))
    && is_free clock event

abbrev pub claim : OutboxPublisher → ℕ → OutboxEvent → OutboxEvent
claim self clock event =
    if is_claimable clock event
    then record event {
      claimed_by = some self.claimant;
      claim_expires_at = some (millis (clock + self.claim_ttl));
    }
    else event

-- _claim_unpublished
unfoldable pub claim_unpublished : OutboxPublisher → ℕ → Tables → ℕ × Tables
claim_unpublished self clock db = (
  length (keep (is_claimable clock) (values db.outbox)),
  record db { outbox = map_rows (claim self clock) db.outbox },
)

abbrev pub is_mine : OutboxPublisher → OutboxEvent → Bool
is_mine self event = is_unpublished event && is_claimed_by self.claimant event

-- _list_claimed: the claimant's unpublished rows, oldest first
unfoldable pub list_claimed : OutboxPublisher → Tables → List (String × OutboxEvent)
list_claimed self db =
    take (max 1 self.batch_size) (order_by created (keep (λ row. is_mine self row.1) db.outbox))

abbrev pub bury : OutboxEvent → OutboxEvent
bury event =
    if is_unpublished event
    then record event { claimed_by = some dead_letter; claim_expires_at = none }
    else event

-- _mark_dead_letter
unfoldable pub mark_dead_letter : String → Tables → Tables
mark_dead_letter id db = record db { outbox = update id bury db.outbox }

-- self._attempts, and the tables
abbrev pub Attempts : Type 0
Attempts = List (String × ℕ)

abbrev pub attempts_of : String → Attempts → ℕ
attempts_of id attempts = elim (lookup id attempts) [ none ↦ 0 | some n ↦ n ]

-- One event of the loop in _flush_once_sync; `sent` says whether `publish` returned.
unfoldable pub deliver : OutboxPublisher → ℕ → String → Bool → Attempts × Tables → Attempts × Tables
deliver self clock id true (attempts, db) = (without id attempts, mark_outbox_published clock id db)
deliver self clock id false (attempts, db) =
    let tried = attempts_of id attempts + 1 in
    if leb self.max_attempts tried
    then (without id attempts, mark_dead_letter id db)
    else (insert id tried attempts, db)

-- The loop: `publish` may answer differently each time, `n` counts its calls.
unfoldable pub deliver_all :
    OutboxPublisher
    → ℕ
    → (ℕ → String → Payload → Bool)
    → ℕ
    → List (String × OutboxEvent)
    → Attempts × Tables
    → ℕ × Attempts × Tables
deliver_all self clock publish n [] (attempts, db) = (0, attempts, db)
deliver_all self clock publish n ((id, event) ∷ events) state =
    let sent = publish n event.event_type event.payload in
    let (count, attempts, db) =
      deliver_all self clock publish (suc n) events (deliver self clock id sent state) in
    (if sent then suc count else count, attempts, db)

-- The first transaction of _flush_once_sync.
unfoldable pub trim_and_claim : OutboxPublisher → ℕ → Tables → Tables
trim_and_claim self clock db =
    let (trimmed, db₁) = trim_outbox_backlog self.max_backlog db in
    let (claimed, db₂) = claim_unpublished self clock db₁ in db₂

-- _flush_once_sync: the number of events published
unfoldable pub flush_once :
    OutboxPublisher → ℕ → (ℕ → String → Payload → Bool) → Attempts × Tables → ℕ × Attempts × Tables
flush_once self clock publish (attempts, db) =
    let db₁ = trim_and_claim self clock db in
    deliver_all self clock publish 0 (list_claimed self db₁) (attempts, db₁)
