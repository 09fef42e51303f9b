-- ===== src/Conversation/Publisher/Claims.antt =====
-- gateway/conversation/outbox.py: which instance publishes an event, and which events none does.
use learn_agent.Prelude.{
  ℕ, ◌+◌, ◌≡◌, ◌≢◌, ◌≤◌, refl, ap, ◌∙◌, sym, String, true, false, some, List, [], ◌∷◌, arith,
  lookup, lookup-update, lookup-map_rows, millis, eq_refl, eq_iff,
}
use learn_agent.Conversation.Model.{OutboxEvent, Tables}
use learn_agent.Conversation.Store.Outbox.{is_unpublished}
use learn_agent.Conversation.Publisher.{
  OutboxPublisher, is_claimable, is_claimed_by, is_free, claim, claim_unpublished, is_mine, bury,
  mark_dead_letter, dead_letter,
}

-- What a claiming pass makes of one row.
claim_unpublished-lookup :
    (self : OutboxPublisher) (clock : ℕ) (id : String) (event : OutboxEvent) (db : Tables)
    → lookup id db.outbox ≡ some event
    → lookup id (claim_unpublished self clock db).1.outbox ≡ some (claim self clock event)
unfolding claim_unpublished
claim_unpublished-lookup self clock id event db found =
    rw (lookup-map_rows (claim self clock) id db.outbox, found) refl

-- The row of an event that a publisher has claimed.
abbrev taken : OutboxPublisher → ℕ → OutboxEvent → OutboxEvent
taken self clock event = record event {
  claimed_by = some self.claimant;
  claim_expires_at = some (millis (clock + self.claim_ttl));
}

claim_lem :
    (self : OutboxPublisher) (clock : ℕ) (event : OutboxEvent)
    → is_claimable clock event ≡ true
    → claim self clock event ≡ taken self clock event
claim_lem self clock event free = rw (claim, free) refl

millis_mono : (a b : ℕ) → a ≤ b → millis a ≤ millis b
millis_mono a b h = omega arith

-- A claim is not free until its time to live has passed.
taken-not-free :
    (self : OutboxPublisher) (clock later : ℕ) (event : OutboxEvent)
    → later ≤ clock + self.claim_ttl
    → is_free later (taken self clock event) ≡ false
taken-not-free self clock later event within =
    ground (arith, millis_mono later (clock + self.claim_ttl) within)

-- An event that one publisher's claim takes stays its own, as the claim left it, through one later
-- claim of any publisher that comes within the time to live.
pub claims_apart :
    (first second : OutboxPublisher) (clock later : ℕ) (id : String) (event : OutboxEvent)
    (db : Tables)
    → lookup id db.outbox ≡ some event
    → is_claimable clock event ≡ true
    → later ≤ clock + first.claim_ttl
    → let claimed = (claim_unpublished first clock db).1 in
      (lookup id (claim_unpublished second later claimed).1.outbox ≡ some (claim first clock event))
      × (is_claimed_by first.claimant (claim first clock event) ≡ true)
claims_apart first second clock later id event db found free within =
    let mine = claim_lem first clock event free in
    let claimed = (claim_unpublished first clock db).1 in
    let at_id = claim_unpublished-lookup first clock id event db found in
    let kept : claim second later (taken first clock event) ≡ taken first clock event =
      ground (arith, taken-not-free first clock later event within) in
    (
      claim_unpublished-lookup second later id (claim first clock event) claimed at_id
          ∙ ap some (ap (claim second later) mine ∙ kept ∙ sym mine),
      ap (is_claimed_by first.claimant) mine ∙ eq_refl first.claimant,
    )

-- The claims of any publishers at any times, one after the other.
abbrev pub claim_all : List (OutboxPublisher × ℕ) → Tables → Tables
claim_all [] db = db
claim_all ((self, clock) ∷ claims) db = claim_all claims (claim_unpublished self clock db).1

buried-kept :
    (claims : List (OutboxPublisher × ℕ)) (id : String) (event : OutboxEvent) (db : Tables)
    → is_claimed_by dead_letter event ≡ true
    → lookup id db.outbox ≡ some event
    → lookup id (claim_all claims db).outbox ≡ some event
buried-kept [] id event db dead found = found
buried-kept ((self, clock) ∷ claims) id event db dead found =
    let same : claim self clock event ≡ event = ground arith in
    buried-kept claims id event (claim_unpublished self clock db).1 dead
      (claim_unpublished-lookup self clock id event db found ∙ ap some same)

-- An unpublished event that has become a dead letter is never claimed again, by any publishers and at
-- any times, and no publisher whose name is another lists it to publish it.
pub dead_letter_stays :
    (id : String) (event : OutboxEvent) (db : Tables) (claims : List (OutboxPublisher × ℕ))
    (self : OutboxPublisher)
    → lookup id db.outbox ≡ some event
    → is_unpublished event ≡ true
    → self.claimant ≢ dead_letter
    → (lookup id (claim_all claims (mark_dead_letter id db)).outbox ≡ some (bury event))
      × (is_mine self (bury event) ≡ false)
unfolding mark_dead_letter
dead_letter_stays id event db claims self found waits named =
    let dead : is_claimed_by dead_letter (bury event) ≡ true = ground arith in
    (
      buried-kept claims id (bury event) (mark_dead_letter id db) dead
          (rw (lookup-update id id bury db.outbox, eq_refl id, found) refl),
      ground (arith, eq_iff dead_letter self.claimant),
    )
