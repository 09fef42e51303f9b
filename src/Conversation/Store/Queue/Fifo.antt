-- ===== src/Conversation/Store/Queue/Fifo.antt =====
-- gateway/conversation/store.py: the table of messages as the queues of the conversations.
use learn_agent.Prelude.{
  ℕ, ◌+◌, ◌≡◌, ◌≤◌, ◌<◌, refl, ap, inl, inr, String, Option, none, some, List, [], ◌∷◌, ◌++◌, Bool,
  true, false, arith, All, Bool-cases, Option-cases, ltb, if◌then◌else◌, keep, length, values,
  values-append, keep-append, order_by-append, greatest, max, lookup, add, ok, err, Result,
  length-order_by, eq_refl, count-append, count-cons, one, ◌==◌, strip, text_length,
}
use mathlib.Core.List.{append-nil}
use learn_agent.Conversation.Model.{QueueItem, Tables}
use learn_agent.Conversation.Store.Queue.{
  list_active_queue, active_queue_count, next_place, in_queue, has_place, NewItem, new_item,
  enqueue_item, max_active_queue_items, max_queue_text_length,
}

-- What an INSERT that is not refused leaves.
add-ok {ℓ} :
    {V : Type ℓ} (key : String) (new : V) (rows : List (String × V)) {rows' : List (String × V)}
    → add key new rows ≡ ok rows'
    → rows' ≡ rows ++ ((key, new) ∷ [])
add-ok key new rows h = ground arith

-- What enqueue_item leaves when it is not refused.
enqueue_item_lem :
    (clock : ℕ) (token conversation : String) (new : NewItem) (db : Tables) {item : QueueItem}
    {db' : Tables}
    → enqueue_item clock token conversation new db ≡ ok (item, db')
    → (item ≡ new_item clock token conversation new db)
      × (db'.items ≡ db.items ++ ((item.queue_item_id, item) ∷ []))
      × (active_queue_count conversation db < max_active_queue_items)
unfolding enqueue_item
enqueue_item_lem clock token conversation new db h = ground (
  arith,
  add-ok (new_item clock token conversation new db).queue_item_id
      (new_item clock token conversation new db) db.items,
)

-- The greatest key, 0 without entries.
abbrev top {ℓ} : {A : Type ℓ} → (A → ℕ) → List A → ℕ
top key xs = elim (greatest key xs) [ none ↦ 0 | some m ↦ m ]

top-cons {ℓ} :
    {A : Type ℓ} (key : A → ℕ) (x : A) (xs : List A) → top key (x ∷ xs) ≡ max (key x) (top key xs)
top-cons key x xs = elim (Option-cases (greatest key xs)) [
  | inl e ↦ rw (top, e) (omega arith)
  | inr (m, e) ↦ rw (top, e) refl
]

-- The keys of some of the entries are bounded by the greatest of more of them.
within_top {ℓ} :
    {A : Type ℓ} (key : A → ℕ) (p q : A → Bool) (n : ℕ)
    → ((x : A) → p x ≡ true → q x ≡ true)
    → (xs : List A) → top key (keep q xs) ≤ n
    → All (λ x. key x ≤ n) (keep p xs)
within_top key p q n narrower [] h = tt
within_top key p q n narrower (x ∷ xs) h = elim (Bool-cases (q x)) [
  | inl wide ↦
      let parts = top-cons key x (keep q xs) in
      let all : top key (x ∷ keep q xs) ≤ n = rw wide at h in
      let rest = within_top key p q n narrower xs (omega (arith, parts, all)) in
      elim (Bool-cases (p x)) [ inl e ↦ rw e (omega (arith, parts, all), rest) | inr e ↦ rw e rest ]
  | inr out ↦
      let rest = within_top key p q n narrower xs (rw out at h) in
      elim (Bool-cases (p x)) [ inl e ↦ absurd (cc (narrower x e)) | inr e ↦ rw e rest ]
]

active-has_place :
    (conversation : String) (item : QueueItem)
    → in_queue conversation item ≡ true
    → has_place conversation item ≡ true
active-has_place conversation item h = ground arith

-- Every active item stands before the next place.
before_next :
    (conversation : String) (db : Tables)
    → All
        (λ item. item.position ≤ next_place conversation db)
        (keep (in_queue conversation) (values db.items))
unfolding next_place
before_next conversation db =
    within_top (λ item. item.position) (in_queue conversation) (has_place conversation)
      (next_place conversation db) (active-has_place conversation) (values db.items) (ground arith)

-- The active queue after an INSERT of an item.
list_active_queue-append :
    (c : String) (item : QueueItem) (db db' : Tables)
    → db'.items ≡ db.items ++ ((item.queue_item_id, item) ∷ [])
    → All (λ x. x.position ≤ item.position) (keep (in_queue c) (values db.items))
    → list_active_queue c db'
      ≡ (if in_queue c item then list_active_queue c db ++ (item ∷ []) else list_active_queue c db)
unfolding list_active_queue
list_active_queue-append c item db db' e below =
    rw
      (
        e,
        values-append db.items ((item.queue_item_id, item) ∷ []),
        keep-append (in_queue c) (values db.items) (item ∷ []),
      )
      (elim (Bool-cases (in_queue c item)) [
        | inl yes_in ↦
            rw yes_in
              (order_by-append (λ x. x.position) (keep (in_queue c) (values db.items)) item below)
        | inr out ↦ rw (out, append-nil) refl
      ])

-- The abstract queue: at most twenty messages, first in, first out.
abbrev pub push : QueueItem → List QueueItem → Option (List QueueItem)
push item items =
    if ltb (length items) max_active_queue_items then some (items ++ (item ∷ [])) else none

-- What a caller sees of enqueue_item: the queue that it leaves, or that it refuses.
abbrev pub seen : String → Result (QueueItem × Tables) → Option (List QueueItem)
seen conversation (ok (item, db)) = some (list_active_queue conversation db)
seen conversation (err problem) = none

length-list_active_queue :
    (c : String) (db : Tables) → length (list_active_queue c db) ≡ active_queue_count c db
unfolding list_active_queue active_queue_count
length-list_active_queue c db =
    length-order_by (λ x. x.position) (keep (in_queue c) (values db.items))

-- enqueue_item is the push of the abstract queue: for a text that is not blank and has at most
-- 10,000 characters, under an id that no message has, the conversation's active queue gets the new
-- message at its end, or stays without it because twenty are in it.
pub enqueue_item-refines :
    (clock : ℕ) (token conversation : String) (new : NewItem) (db : Tables)
    → (strip new.body == "") ≡ false
    → text_length new.body ≤ max_queue_text_length
    → lookup (new_item clock token conversation new db).queue_item_id db.items ≡ none
    → seen conversation (enqueue_item clock token conversation new db)
      ≡ push (new_item clock token conversation new db) (list_active_queue conversation db)
unfolding enqueue_item
enqueue_item-refines clock token conversation new db solid short fresh =
    let item = new_item clock token conversation new db in
    let size = length-list_active_queue conversation db in
    let self = eq_refl conversation in
    let items = db.items ++ ((item.queue_item_id, item) ∷ []) in
    let grown =
      list_active_queue-append conversation item db (record db { items = items }) refl
        (before_next conversation db) in
    ground arith

-- When enqueue_item takes a message, one message more than before is active in the conversation, and
-- at most twenty are.
pub enqueue_item-bounded :
    (clock : ℕ) (token conversation : String) (new : NewItem) (db db' : Tables) (item : QueueItem)
    → enqueue_item clock token conversation new db ≡ ok (item, db')
    → (active_queue_count conversation db' ≡ active_queue_count conversation db + 1)
      × (active_queue_count conversation db' ≤ max_active_queue_items)
unfolding active_queue_count
enqueue_item-bounded clock token conversation new db db' item h =
    let (made, items, room) = enqueue_item_lem clock token conversation new db h in
    let here : in_queue conversation item ≡ true = rw (made, eq_refl conversation) refl in
    let counted = count-append (in_queue conversation) (values db.items) (item ∷ []) in
    let last = count-cons (in_queue conversation) item [] in
    let grown : active_queue_count conversation db' ≡ active_queue_count conversation db + 1 =
      rw (items, values-append db.items ((item.queue_item_id, item) ∷ []))
        (omega (arith, counted, last, ap one here)) in
    (grown, omega (arith, room, grown))
