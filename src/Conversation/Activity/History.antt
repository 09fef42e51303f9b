-- ===== src/Conversation/Activity/History.antt =====
-- gateway/conversation: sequences of calls on one database, by any instances and in any order.
use learn_agent.Prelude.{ℕ, ◌+◌, ◌≤◌, arith, ◌≡◌, String, Option, Bool, ok, Post-ok}
use native.Mathlib.Nat.{add-zero}
use learn_agent.Conversation.TurnStatus.{TurnStatus}
use learn_agent.Conversation.NodeType.{TurnNodeType}
use learn_agent.Conversation.Model.{Turn, TurnNode, Approval, Tables}
use learn_agent.Conversation.Store.Turns.{NewTurn}
use learn_agent.Conversation.Service.Events.{Pending, Request}
use learn_agent.Conversation.Service.Sending.{Send, Sent, send_next, start_turn}
use learn_agent.Conversation.Service.Images.{ImageStore}
use learn_agent.Conversation.Service.Turns.{set_turn_status, upsert_node_delta, Origin}
use learn_agent.Conversation.Service.Completion.{complete_turn}
use learn_agent.Conversation.Service.Stopping.{request_stop}
use learn_agent.Conversation.Service.Approvals.{request_approval}
use learn_agent.Conversation.Activity.{
  OneActive, Within, open_count, Calm, NoMore, More, revives, NoMore-Within, Calm-Within,
  More-Within,
}
use learn_agent.Conversation.Activity.Sending.{send_next-Within, start_turn-Within}
use learn_agent.Conversation.Activity.Changing.{
  set_turn_status-More, request_stop-More, stop_revives, request_approval-More,
  upsert_node_delta-Calm,
}
use learn_agent.Conversation.Activity.Ending.{complete_turn-NoMore}
use learn_agent.Conversation.Activity.Restart.{recover_after_restart-NoMore}
use learn_agent.Conversation.Service.Recovery.{recover_after_restart}

-- A step of the database: a call that succeeds and creates a turn or writes a status, or any other that
-- makes no conversation's active turns more. send_next, start_turn and request_stop may have read any
-- tables before their first write. The number is that of ended turns over which a status was written.
pub data Call : ℕ → Tables → Tables → Type 0 where
  sends :
      (request_hash : Request → String) (store : ImageStore) (per_scope global clock : ℕ)
      (ids : ℕ → String) (conversation : String) (args : Send) (seen db db' : Tables) (sent : Sent)
      (events : Pending)
      → send_next request_hash store per_scope global clock ids conversation args seen db
        ≡ ok (sent, events, db')
      → Call 0 db db'
  starts :
      (per_scope clock : ℕ) (ids : ℕ → String) (conversation : String) (args : NewTurn)
      (seen db db' : Tables) (made : Option Turn) (events : Pending)
      → start_turn per_scope clock ids conversation args seen db ≡ ok (made, events, db')
      → Call 0 db db'
  completes :
      (clock : ℕ) (ids : ℕ → String) (conversation id : String) (status : TurnStatus)
      (full_text code : Option String) (db db' : Tables) (turn : Turn) (events : Pending)
      → complete_turn clock ids conversation id status full_text code db ≡ ok (turn, events, db')
      → Call 0 db db'
  stages :
      (clock : ℕ) (ids : ℕ → String) (conversation id : String) (status : TurnStatus)
      (code : Option String) (db db' : Tables) (turn : Turn) (events : Pending)
      → set_turn_status clock ids conversation id status code db ≡ ok (turn, events, db')
      → Call (revives id db) db db'
  stops :
      (request_hash : Request → String) (clock : ℕ) (ids : ℕ → String) (conversation : String)
      (operation : Option String) (seen db db' : Tables) (turn : Option Turn) (events : Pending)
      → request_stop request_hash clock ids conversation operation seen db ≡ ok (turn, events, db')
      → Call (stop_revives conversation seen db) db db'
  asks :
      (clock : ℕ) (ids : ℕ → String) (conversation id tool_name params : String) (db db' : Tables)
      (approval : Approval) (events : Pending)
      → request_approval clock ids conversation id tool_name params db ≡ ok (approval, events, db')
      → Call (revives id db) db db'
  recovers :
      (clock : ℕ) (ids : ℕ → String) (db db' : Tables) (counts : ℕ × ℕ) (events : Pending)
      → recover_after_restart clock ids db ≡ ok (counts, events, db')
      → Call 0 db db'
  streams :
      (clock : ℕ) (ids : ℕ → String) (conversation id : String) (type_of : TurnNodeType)
      (delta : String) (continue_existing : Bool) (origin : Origin) (db db' : Tables)
      (written : TurnNode) (events : Pending)
      → upsert_node_delta clock ids conversation id type_of delta continue_existing origin db
        ≡ ok (written, events, db')
      → Call 0 db db'
  others : (db db' : Tables) → NoMore db db' → Call 0 db db'

-- Steps one after the other, and how many statuses were written over ended turns.
pub data Run (first : Tables) : ℕ → Tables → Type 0 where
  start : Run first 0 first
  next : {k n : ℕ} {db db' : Tables} → Run first k db → Call n db db' → Run first (k + n) db'

Call-Within : (k : ℕ) {n : ℕ} {db db' : Tables} → Call n db db' → Within k db → Within (k + n) db'
Call-Within k
      (sends request_hash store per_scope global clock ids conversation args seen db db' sent events
        h)
      within =
    rw add-zero (
      Post-ok (λ (out : Sent × Pending × Tables). Within k out.2) _ _ h
        (send_next-Within clock k request_hash store per_scope global ids conversation args seen db
          within))
Call-Within k (starts per_scope clock ids conversation args seen db db' made events h) within =
    rw add-zero (
      Post-ok (λ (out : Option Turn × Pending × Tables). Within k out.2) _ _ h
        (start_turn-Within clock k per_scope ids conversation args seen db within))
Call-Within k (completes clock ids conversation id status full_text code db db' turn events h)
      within =
    rw add-zero (
      NoMore-Within k db db'
        (Post-ok (λ (out : Turn × Pending × Tables). NoMore db out.2) _ _ h
          (complete_turn-NoMore clock ids conversation id status full_text code db))
        within)
Call-Within k (stages clock ids conversation id status code db db' turn events h) within =
    More-Within k (revives id db) db db'
      (Post-ok (λ (out : Turn × Pending × Tables). More (revives id db) db out.2) _ _ h
        (set_turn_status-More clock ids conversation id status code db))
      within
Call-Within k (stops request_hash clock ids conversation operation seen db db' turn events h)
      within =
    let n = stop_revives conversation seen db in
    More-Within k n db db'
      (Post-ok (λ (out : Option Turn × Pending × Tables). More n db out.2) _ _ h
        (request_stop-More clock request_hash ids conversation operation seen db))
      within
Call-Within k (asks clock ids conversation id tool_name params db db' approval events h) within =
    More-Within k (revives id db) db db'
      (Post-ok (λ (out : Approval × Pending × Tables). More (revives id db) db out.2) _ _ h
        (request_approval-More clock ids conversation id tool_name params db))
      within
Call-Within k (recovers clock ids db db' counts events h) within = rw add-zero (
    NoMore-Within k db db'
      (Post-ok (λ (out : (ℕ × ℕ) × Pending × Tables). NoMore db out.2) _ _ h
        (recover_after_restart-NoMore clock ids db))
      within)
Call-Within k
      (streams clock ids conversation id type_of delta continue_existing origin db db' written
        events h)
      within =
    rw add-zero (
      Calm-Within k db db'
        (Post-ok (λ (out : TurnNode × Pending × Tables). Calm db out.2) _ _ h
          (upsert_node_delta-Calm clock ids conversation id type_of delta continue_existing origin
            db))
        within)
Call-Within k (others db db' less) within = rw add-zero (NoMore-Within k db db' less within)

kept : (first : Tables) (n : ℕ) (db' : Tables) → Run first n db' → OneActive first → Within n db'
kept first _ _ start single = single
kept first _ _ (next {k} {n} {db} {db'} before call) single =
    Call-Within k call (kept first k db before single)

-- Through every sequence of steps (the calls that create a turn or write its status, where send_next,
-- start_turn and request_stop may have read any other tables before, deltas, and any steps that make
-- no conversation's active turns more), from a database in which every conversation has at most one
-- active turn, a conversation has at most one active turn more than set_turn_status, request_stop and
-- request_approval have written statuses over turns that had ended: at most one, if they never have.
pub Run-Within :
    (n : ℕ) (db db' : Tables)
    → Run db n db'
    → OneActive db
    → (conversation : String) → open_count conversation db' ≤ 1 + n
Run-Within n db db' steps single conversation =
    omega (arith, kept db n db' steps single conversation)
