-- ===== src/Examples/Outbox.antt =====
-- Runs of the outbox and its publisher (gateway/conversation).
use learn_agent.Prelude.{
  ◌≡◌, refl, String, none, some, [], ◌∷◌, true, false, lookup, eq_iff, arith, ◌≤◌,
}
use learn_agent.Conversation.Model.{OutboxEvent, Payload, Tables}
use learn_agent.Conversation.Store.Outbox.{new_event, is_unpublished, trim_outbox_backlog}
use learn_agent.Conversation.Store.Outbox.Trim.{trim_outbox_backlog-bounded}
use learn_agent.Conversation.Store.Records.{count_rows}
use learn_agent.Conversation.Publisher.{
  OutboxPublisher, new_publisher, claim_unpublished, claim, is_claimed_by, is_mine, bury,
  mark_dead_letter,
}
use learn_agent.Conversation.Publisher.Claims.{claims_apart, claim_all, dead_letter_stays}
use learn_agent.Examples.Conversations.{one_conversation}

abbrev empty_payload : Payload
empty_payload = record {
  conversation_id = "conv_1";
  session_key = "web:1";
  origin = "webui";
  subtype = "main";
  workspace_id = none;
  scope = "session";
  version = 1;
  turn_id = none;
  data_of = [];
}

abbrev lost_event : OutboxEvent
lost_event = new_event 1_000 "queue.updated" "session" 1 "conv_1" empty_payload

abbrev one_event : Tables
one_event = record one_conversation { outbox = ("obx_1", lost_event) ∷ [] }

abbrev publisher : String → OutboxPublisher
publisher name = new_publisher 200 5_000 3 name 30_000_000

claims_apart_example :
    let claimed = (claim_unpublished (publisher "gw1") 20_000_000 one_event).1 in
    (lookup "obx_1" (claim_unpublished (publisher "gw2") 21_000_000 claimed).1.outbox
      ≡ some (claim (publisher "gw1") 20_000_000 lost_event))
    × (is_claimed_by "gw1" (claim (publisher "gw1") 20_000_000 lost_event) ≡ true)
claims_apart_example =
    claims_apart (publisher "gw1") (publisher "gw2") 20_000_000 21_000_000 "obx_1" lost_event
      one_event refl refl (omega arith)

dead_letter_stays_example :
    (lookup "obx_1"
        (claim_all ((publisher "gw2", 90_000_000) ∷ []) (mark_dead_letter "obx_1" one_event)).outbox
      ≡ some (bury lost_event))
    × (is_mine (publisher "gw1") (bury lost_event) ≡ false)
dead_letter_stays_example =
    dead_letter_stays "obx_1" lost_event one_event ((publisher "gw2", 90_000_000) ∷ [])
      (publisher "gw1") refl refl
      (λ h. absurd (let e : false ≡ true = (eq_iff "gw1" "dead_letter").1 h in cc))

trim_outbox_backlog-bounded_example :
    count_rows is_unpublished (trim_outbox_backlog 0 one_event).1.outbox ≤ 0
trim_outbox_backlog-bounded_example = trim_outbox_backlog-bounded 0 one_event
