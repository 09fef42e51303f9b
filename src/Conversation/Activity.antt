-- ===== src/Conversation/Activity.antt =====
-- gateway/conversation: how many turns of a conversation are active. The numbers of active turns,
-- and what the steps of the operations do to them.
pub mod Steps
pub mod Sending
pub mod Changing
pub mod Ending
pub mod Restart
pub mod History
use learn_agent.Prelude.{
  ℕ, suc, ◌+◌, ◌≡◌, ◌≤◌, refl, ap, sym, ◌∙◌, inl, inr, String, Option, none, some, List, [], ◌∷◌,
  ◌++◌, Bool, true, false, arith, Bool-cases, Option-cases, Result-cases, if◌then◌else◌, lookup,
  update, add, ok, err, Error, Result, eq_refl, eq_iff, ◌==◌, ◌&&◌, any, count, one, values,
  values-append, count-append, count-cons, count-update, update-missing, count-map_rows_none,
  map_rows, not,
}
use learn_agent.Conversation.TurnStatus.{TurnStatus, is_active}
use learn_agent.Conversation.Model.{Turn, Tables}
use learn_agent.Conversation.Store.Turns.{
  is_open, NewTurn, new_turn, create_turn_if_no_active, TurnEnd, set_status, update_turn_status,
  next_version, bump_turn_version, interrupt, interrupt_active_turns,
}

-- The number of active turns of a conversation.
abbrev pub open_count : String → Tables → ℕ
open_count conversation db = count (is_open conversation) (values db.turns)

-- No conversation has more than a number of active turns beside the first.
abbrev pub Within : ℕ → Tables → Type 0
Within k db = (conversation : String) → open_count conversation db ≤ suc k

abbrev pub OneActive : Tables → Type 0
OneActive db = (conversation : String) → open_count conversation db ≤ 1

-- No conversation has more, or fewer, active turns than before.
abbrev pub Calm : Tables → Tables → Type 0
Calm db db' = (conversation : String) → open_count conversation db' ≡ open_count conversation db

-- No conversation has more active turns than before.
abbrev pub NoMore : Tables → Tables → Type 0
NoMore db db' = (conversation : String) → open_count conversation db' ≤ open_count conversation db

pub same_turns-Calm : (db db' : Tables) → db'.turns ≡ db.turns → Calm db db'
same_turns-Calm db db' e c = ap (λ turns. count (is_open c) (values turns)) e

pub Calm-trans : (db db₁ db₂ : Tables) → Calm db db₁ → Calm db₁ db₂ → Calm db db₂
Calm-trans db db₁ db₂ first second c = second c ∙ first c

pub Calm-NoMore : (db db₁ db₂ : Tables) → NoMore db db₁ → Calm db₁ db₂ → NoMore db db₂
Calm-NoMore db db₁ db₂ less calm c = omega (arith, less c, calm c)

-- No conversation has more active turns than before, but for a number.
abbrev pub More : ℕ → Tables → Tables → Type 0
More n db db' =
    (conversation : String) → open_count conversation db' ≤ open_count conversation db + n

-- A write over a turn that has ended may make it active again.
abbrev pub ended : Option Turn → ℕ
ended none = 0
ended (some turn) = if is_active turn.status then 0 else 1

abbrev pub revives : String → Tables → ℕ
revives id db = ended (lookup id db.turns)

pub Calm-More : (n : ℕ) (db db₁ db₂ : Tables) → More n db db₁ → Calm db₁ db₂ → More n db db₂
Calm-More n db db₁ db₂ more calm c = omega (arith, more c, calm c)

pub Calm-Within : (k : ℕ) (db db' : Tables) → Calm db db' → Within k db → Within k db'
Calm-Within k db db' calm within c = omega (arith, calm c, within c)

pub NoMore-Within : (k : ℕ) (db db' : Tables) → NoMore db db' → Within k db → Within k db'
NoMore-Within k db db' less within c = omega (arith, less c, within c)

pub More-Within : (k n : ℕ) (db db' : Tables) → More n db db' → Within k db → Within (k + n) db'
More-Within k n db db' more within c = omega (arith, more c, within c)

-- An update that keeps a turn's conversation, and its activity, keeps the numbers.
update-Calm :
    (id : String) (f : Turn → Turn) (db : Tables)
    → ((c : String) (turn : Turn) → is_open c (f turn) ≡ is_open c turn)
    → Calm db (record db { turns = update id f db.turns })
update-Calm id f db keeps c = elim (Option-cases (lookup id db.turns)) [
  | inl missing ↦
      ap (λ turns. count (is_open c) (values turns)) (update-missing id f db.turns missing)
  | inr (turn, found) ↦
      omega (arith, count-update (is_open c) id f db.turns turn found, ap one (keeps c turn))
]

pub bump_turn_version-Calm :
    (id : String) (db db' : Tables) (version : ℕ)
    → bump_turn_version id db ≡ (version, db')
    → Calm db db'
unfolding bump_turn_version
bump_turn_version-Calm id db db' version h =
    let same : db'.turns ≡ update id next_version db.turns = ground arith in
    let calm = update-Calm id next_version db (λ c turn. refl) in
    λ c. ap (λ turns. count (is_open c) (values turns)) same ∙ calm c

one-le : (b : Bool) → one b ≤ 1
one-le true = omega arith
one-le false = omega arith

-- A new status for any turn.
pub update_turn_status-More :
    (id : String) (s : TurnStatus) (end : TurnEnd) (db db' : Tables) (made : Turn)
    → update_turn_status id s end db ≡ ok (made, db')
    → More (revives id db) db db'
unfolding update_turn_status
update_turn_status-More id s end db db' made h c =
    let same : db'.turns ≡ update id (set_status s end) db.turns = ground arith in
    let moved = ap (λ turns. count (is_open c) (values turns)) same in
    elim (Option-cases (lookup id db.turns)) [
      | inl missing ↦
          let rest =
            ap (λ turns. count (is_open c) (values turns))
              (update-missing id (set_status s end) db.turns missing) in
          omega (arith, moved, rest)
      | inr (turn, found) ↦
          let counted = count-update (is_open c) id (set_status s end) db.turns turn found in
          let last = one-le (is_open c (set_status s end turn)) in
          elim (Bool-cases (is_active turn.status)) [
            | inl active ↦
                let keeps : one (is_open c (set_status s end turn)) ≤ one (is_open c turn) =
                  ground arith in
                omega (arith, counted, moved, keeps)
            | inr over ↦
                let one_more : revives id db ≡ 1 = rw (found, over) refl in
                omega (arith, counted, moved, last, one_more)
          ]
    ]

-- A new status for a turn that is active.
pub update_turn_status-NoMore :
    (id : String) (s : TurnStatus) (end : TurnEnd) (db db' : Tables) (turn made : Turn)
    → lookup id db.turns ≡ some turn
    → is_active turn.status ≡ true
    → update_turn_status id s end db ≡ ok (made, db')
    → NoMore db db'
unfolding update_turn_status
update_turn_status-NoMore id s end db db' turn made found active h =
    let same : db'.turns ≡ update id (set_status s end) db.turns = ground arith in
    λ c.
      let counted = count-update (is_open c) id (set_status s end) db.turns turn found in
      let moved = ap (λ turns. count (is_open c) (values turns)) same in
      let keeps : one (is_open c (set_status s end turn)) ≤ one (is_open c turn) = ground arith in
      omega (arith, counted, moved, keeps)

any-count {ℓ} : {A : Type ℓ} (p : A → Bool) (xs : List A) → any p xs ≡ false → count p xs ≡ 0
any-count p [] h = refl
any-count p (x ∷ xs) h = ground (arith, any-count p xs)

-- The conditional insertion makes no second turn active, whatever the caller had read before.
pub create_turn_if_no_active-Within :
    (k : ℕ) (clock : ℕ) (token conversation : String) (new : NewTurn) (db db' : Tables)
    (made : Option Turn)
    → create_turn_if_no_active clock token conversation new db ≡ ok (made, db')
    → Within k db
    → Within k db'
unfolding create_turn_if_no_active
create_turn_if_no_active-Within k clock token conversation new db db' made h within c =
    elim (Bool-cases (any (is_open conversation) (values db.turns))) [
      | inl busy ↦
          let same : db' ≡ db = ground arith in omega (arith, within c, ap (open_count c) same)
      | inr free ↦
          let turn = new_turn clock token conversation new in
          let same : db'.turns ≡ db.turns ++ ((turn.turn_id, turn) ∷ []) = ground arith in
          let counted = count-append (is_open c) (values db.turns) (turn ∷ []) in
          let last = count-cons (is_open c) turn [] in
          let idle = any-count (is_open conversation) (values db.turns) free in
          let total : open_count c db'
              ≡ count (is_open c) (values db.turns) + count (is_open c) (turn ∷ []) =
            ap (λ turns. count (is_open c) (values turns)) same
            ∙ rw (values-append db.turns ((turn.turn_id, turn) ∷ [])) counted in
          elim (Bool-cases (conversation == c)) [
            | inl here ↦
                let none_before : open_count c db ≡ 0 =
                  ap (λ k. count (is_open k) (values db.turns))
                    (sym ((eq_iff conversation c).0 here))
                  ∙ idle in
                omega (arith, total, last, none_before, one-le (is_open c turn))
            | inr elsewhere ↦
                let closed : one (is_open c turn) ≡ 0 = ground arith in
                omega (arith, total, last, within c, closed)
          ]
    ]

-- A restart leaves no turn active.
pub interrupt_active_turns-none :
    (clock : ℕ) (db : Tables) (c : String) → open_count c (interrupt_active_turns clock db).1 ≡ 0
unfolding interrupt_active_turns
interrupt_active_turns-none clock db c =
    count-map_rows_none (is_open c) (interrupt clock) db.turns (closed c)
  where
    closed : (c : String) (turn : Turn) → is_open c (interrupt clock turn) ≡ false
    closed c turn = ground arith
