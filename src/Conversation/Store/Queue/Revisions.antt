-- ===== src/Conversation/Store/Queue/Revisions.antt =====
-- gateway/conversation/store.py: the optimistic lock of a queue item.
use learn_agent.Prelude.{
  ℕ, ◌+◌, ◌≡◌, refl, inl, inr, String, Option, none, some, Bool, true, false, arith, Bool-cases,
  Option-cases, leb, eqb, lookup, update, lookup-update, ok, err, Error, queue_conflict, eq_refl,
  text_length, is_some, Result-cases, ◌&&◌, ◌||◌,
}
use learn_agent.Conversation.QueueStatus.{QueueItemStatus}
use learn_agent.Conversation.Model.{QueueItem, Tables}
use learn_agent.Conversation.Store.Queue.{
  update_queue_item, update_at, set_body, set_state, set_target, ItemChange, max_queue_text_length,
  revised,
}

-- An update at another revision than the item has is refused.
pub stale_revision :
    (clock : ℕ) (id : String) (revision : ℕ) (change : ItemChange) (db : Tables) (item : QueueItem)
    → lookup id db.items ≡ some item
    → eqb item.revision revision ≡ false
    → update_queue_item clock id revision change db ≡ err queue_conflict
unfolding update_queue_item
stale_revision clock id revision change db item found differ = ground arith

-- The item that one conditional update leaves.
update_at-revision :
    (clock : ℕ) (id : String) (revision : ℕ) (f : QueueItem → QueueItem) (db db' : Tables)
    → update_at clock id revision f db ≡ ok db'
    → (item : QueueItem) × (lookup id db'.items ≡ some item) × (item.revision ≡ revision + 1)
unfolding update_at
update_at-revision clock id revision f db db' h = elim (Option-cases (lookup id db.items)) [
  | inl missing ↦ absurd (ground arith)
  | inr (item, found) ↦ elim (Bool-cases (eqb item.revision revision)) [
    | inl same ↦
        let written : db'.items ≡ update id (revised clock f) db.items = ground arith in
        (
          revised clock f item,
          rw (written, lookup-update id id (revised clock f) db.items, eq_refl id, found) refl,
          ground arith,
        )
    | inr differ ↦ absurd (ground arith)
  ]
]

-- A second conditional update in one call expects the revision that the first one has passed.
update_at_twice :
    (clock later : ℕ) (id : String) (revision : ℕ) (f g : QueueItem → QueueItem) (db db' : Tables)
    → update_at clock id revision f db ≡ ok db'
    → update_at later id revision g db' ≡ err queue_conflict
unfolding update_at
update_at_twice clock later id revision f g db db' h =
    let (item, found, next) = update_at-revision clock id revision f db db' h in ground arith

-- The item has passed the revision that a call expects.
spent :
    (later : ℕ) (id : String) (revision : ℕ) (g : QueueItem → QueueItem) (db : Tables)
    (item : QueueItem)
    → lookup id db.items ≡ some item
    → item.revision ≡ revision + 1
    → update_at later id revision g db ≡ err queue_conflict
unfolding update_at
spent later id revision g db item found next = ground arith

abbrev pub change_of : Option String → Option QueueItemStatus → Option String → ItemChange
change_of body status target = record { body = body; status = status; target_turn_id = target }

-- Are at least two of the fields given?
abbrev pub is_several : ItemChange → Bool
is_several change =
    is_some change.body && is_some change.status
    || is_some change.body && is_some change.target_turn_id
    || is_some change.status && is_some change.target_turn_id

-- Is a field given?
abbrev pub is_change : ItemChange → Bool
is_change change = is_some change.body || is_some change.status || is_some change.target_turn_id

abbrev fits : Option String → Bool
fits none = true
fits (some t) = leb (text_length t) max_queue_text_length

set_body-some :
    (clock : ℕ) (id : String) (revision : ℕ) (t : String) (db db' : Tables)
    → set_body clock id revision (some t) db ≡ ok db'
    → (item : QueueItem) × (lookup id db'.items ≡ some item) × (item.revision ≡ revision + 1)
unfolding set_body
set_body-some clock id revision t db db' h =
    update_at-revision clock id revision (λ item. record item { body = t }) db db' (ground arith)

set_body-fails :
    (clock : ℕ) (id : String) (revision : ℕ) (t : String) (db : Tables) (x : Error)
    → leb (text_length t) max_queue_text_length ≡ true
    → set_body clock id revision (some t) db ≡ err x
    → x ≡ queue_conflict
unfolding set_body update_at
set_body-fails clock id revision t db x short h = ground arith

set_state-some :
    (clock : ℕ) (id : String) (revision : ℕ) (s : QueueItemStatus) (db db' : Tables)
    → set_state clock id revision (some s) db ≡ ok db'
    → (item : QueueItem) × (lookup id db'.items ≡ some item) × (item.revision ≡ revision + 1)
unfolding set_state
set_state-some clock id revision s db db' h =
    update_at-revision clock id revision (λ item. record item { status = s }) db db' h

set_state-fails :
    (clock : ℕ) (id : String) (revision : ℕ) (s : QueueItemStatus) (db : Tables) (x : Error)
    → set_state clock id revision (some s) db ≡ err x
    → x ≡ queue_conflict
unfolding set_state update_at
set_state-fails clock id revision s db x h = ground arith

-- After the text has been set, the next field that is given is refused.
module _ (clock : ℕ) (id : String) (revision : ℕ) (db : Tables) (item : QueueItem)
    (found : lookup id db.items ≡ some item) (next : item.revision ≡ revision + 1) where
  set_state-spent :
      (s : QueueItemStatus) → set_state clock id revision (some s) db ≡ err queue_conflict
  unfolding set_state
  set_state-spent s = spent clock id revision (λ i. record i { status = s }) db item found next

  set_target-spent : (t : String) → set_target clock id revision (some t) db ≡ err queue_conflict
  unfolding set_target
  set_target-spent t =
      spent clock id revision (λ i. record i { target_turn_id = some t }) db item found next

-- A call that gives two or three of the text, the status and the target of an item that exists, with
-- a text of at most 10,000 characters if it gives one, always raises QueueConflict: its first update
-- bumps the revision that its second one expects.
pub two_fields_conflict :
    (clock : ℕ) (id : String) (revision : ℕ) (body : Option String)
    (status : Option QueueItemStatus) (target : Option String) (db : Tables) (item : QueueItem)
    → lookup id db.items ≡ some item
    → fits body ≡ true
    → is_several (change_of body status target) ≡ true
    → update_queue_item clock id revision (change_of body status target) db ≡ err queue_conflict
unfolding update_queue_item
two_fields_conflict clock id revision (some t) (some s) target db item found short several =
    elim (Result-cases (set_body clock id revision (some t) db)) [
      | inl (db₁, e) ↦
          let (i, at_id, next) = set_body-some clock id revision t db db₁ e in
          ground (arith, set_state-spent clock id revision db₁ i at_id next s)
      | inr (x, e) ↦ ground (arith, set_body-fails clock id revision t db x short e)
    ]
two_fields_conflict clock id revision (some t) none (some g) db item found short several =
    elim (Result-cases (set_body clock id revision (some t) db)) [
      | inl (db₁, e) ↦
          let (i, at_id, next) = set_body-some clock id revision t db db₁ e in
          let stays : set_state clock id revision none db₁ ≡ ok db₁ = unfold set_state in refl in
          ground (arith, set_target-spent clock id revision db₁ i at_id next g)
      | inr (x, e) ↦ ground (arith, set_body-fails clock id revision t db x short e)
    ]
two_fields_conflict clock id revision none (some s) (some g) db item found short several =
    let stays : set_body clock id revision none db ≡ ok db = unfold set_body in refl in
    elim (Result-cases (set_state clock id revision (some s) db)) [
      | inl (db₁, e) ↦
          let (i, at_id, next) = set_state-some clock id revision s db db₁ e in
          ground (arith, set_target-spent clock id revision db₁ i at_id next g)
      | inr (x, e) ↦ ground (arith, set_state-fails clock id revision s db x e)
    ]
two_fields_conflict clock id revision (some t) none none db item found short several = absurd (cc)
two_fields_conflict clock id revision none (some s) none db item found short several = absurd (cc)
two_fields_conflict clock id revision none none target db item found short several = absurd (cc)

set_target-some :
    (clock : ℕ) (id : String) (revision : ℕ) (t : String) (db db' : Tables)
    → set_target clock id revision (some t) db ≡ ok db'
    → (item : QueueItem) × (lookup id db'.items ≡ some item) × (item.revision ≡ revision + 1)
unfolding set_target
set_target-some clock id revision t db db' h =
    update_at-revision clock id revision (λ item. record item { target_turn_id = some t }) db db' h

-- The calls that a successful update_queue_item goes through.
update_queue_item-parts :
    (clock : ℕ) (id : String) (revision : ℕ) (change : ItemChange) (db db' : Tables)
    (item : QueueItem)
    → update_queue_item clock id revision change db ≡ ok (item, db')
    → (db₁ : Tables) × (db₂ : Tables) × (set_body clock id revision change.body db ≡ ok db₁)
      × (set_state clock id revision change.status db₁ ≡ ok db₂)
      × (set_target clock id revision change.target_turn_id db₂ ≡ ok db')
unfolding update_queue_item
update_queue_item-parts clock id revision change db db' item h =
    elim (Result-cases (set_body clock id revision change.body db)) [
      | inr (x, e) ↦ absurd (ground arith)
      | inl (db₁, e₁) ↦ elim (Result-cases (set_state clock id revision change.status db₁)) [
        | inr (x, e) ↦ absurd (ground arith)
        | inl (db₂, e₂) ↦ (db₁, db₂, e₁, e₂, ground arith)
      ]
    ]

update_queue_item-revision :
    (clock : ℕ) (id : String) (revision : ℕ) (body : Option String)
    (status : Option QueueItemStatus) (target : Option String) (db db' : Tables) (item : QueueItem)
    → update_queue_item clock id revision (change_of body status target) db ≡ ok (item, db')
    → is_change (change_of body status target) ≡ true
    → (i : QueueItem) × (lookup id db'.items ≡ some i) × (i.revision ≡ revision + 1)
unfolding set_body set_state set_target
update_queue_item-revision clock id revision body status (some g) db db' item h given =
    let (db₁, db₂, e₁, e₂, e₃) =
      update_queue_item-parts clock id revision (change_of body status (some g)) db db' item h in
    set_target-some clock id revision g db₂ db' e₃
update_queue_item-revision clock id revision body (some s) none db db' item h given =
    let (db₁, db₂, e₁, e₂, e₃) =
      update_queue_item-parts clock id revision (change_of body (some s) none) db db' item h in
    set_state-some clock id revision s db₁ db' (ground arith)
update_queue_item-revision clock id revision (some t) none none db db' item h given =
    let (db₁, db₂, e₁, e₂, e₃) =
      update_queue_item-parts clock id revision (change_of (some t) none none) db db' item h in
    set_body-some clock id revision t db db' (ground arith)
update_queue_item-revision clock id revision none none none db db' item h given = absurd (cc)

-- Once an update of an item has succeeded that gave a field, every further update of that item at the
-- same revision raises QueueConflict, whatever it gives.
pub edit_once :
    (clock later : ℕ) (id : String) (revision : ℕ) (body : Option String)
    (status : Option QueueItemStatus) (target : Option String) (other : ItemChange)
    (db db' : Tables) (item : QueueItem)
    → update_queue_item clock id revision (change_of body status target) db ≡ ok (item, db')
    → is_change (change_of body status target) ≡ true
    → update_queue_item later id revision other db' ≡ err queue_conflict
edit_once clock later id revision body status target other db db' item h given =
    let (i, found, next) =
      update_queue_item-revision clock id revision body status target db db' item h given in
    stale_revision later id revision other db' i found (ground arith)
