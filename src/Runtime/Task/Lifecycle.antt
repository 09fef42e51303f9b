-- ===== src/Runtime/Task/Lifecycle.antt =====
-- What TaskRecord.transition guarantees (core/runtime/models.py).
use learn_agent.Prelude.{
  ◌≡◌, ◌≤◌, refl, sym, ◌⊎◌, inl, inr, true, false, none, arith, ok, err, value_error, Iso,
  Bool-cases, true-ne-false, is_some,
}
use learn_agent.Runtime.Status.{
  TaskStatus, created, same, same→eq, is_in, is_terminal, is_final, allowed_transitions,
}
use learn_agent.Runtime.Task.{TaskRecord, Report, moved, transition}

-- A record in a terminal status holds no lease and has the time of its end.
pub record IsClosed (r : TaskRecord) : Type 0 where
  pub owner : is_terminal r.status ≡ true → r.lease_owner ≡ none
  pub expiry : is_terminal r.status ≡ true → r.lease_expires_at ≡ none
  pub finished : is_terminal r.status ≡ true → is_some r.finished_at ≡ true

pub moved-status :
    (r : TaskRecord) (t : TaskStatus) (now : Iso) (p : Report) → (moved r t now p).status ≡ t
unfolding moved
moved-status r created now p = refl
moved-status r _ now p = refl

pub moved-IsClosed :
    (r : TaskRecord) (t : TaskStatus) (now : Iso) (p : Report) → IsClosed (moved r t now p)
unfolding moved
moved-IsClosed r created now p = ground arith
moved-IsClosed r _ now p = ground arith

-- A transition that succeeds keeps the record, or makes an allowed move.
pub transition_cases :
    (r : TaskRecord) (t : TaskStatus) (now : Iso) (p : Report) {r' : TaskRecord}
    → transition r t now p ≡ ok r'
    → ((t ≡ r.status) × (r' ≡ r))
      ⊎ ((is_in t (allowed_transitions r.status) ≡ true) × (r' ≡ moved r t now p))
unfolding transition
transition_cases r t now p h = elim (Bool-cases (same t r.status)) [
  | inl e ↦ inl (same→eq t r.status e, ground arith)
  | inr e ↦ elim (Bool-cases (is_in t (allowed_transitions r.status))) [
    | inl a ↦ inr (a, ground arith)
    | inr b ↦ absurd (ground arith)
  ]
]

pub final-allowed : (s t : TaskStatus) → is_final s ≡ true → is_in t (allowed_transitions s) ≡ false
final-allowed s t h = ground arith

-- A transition that succeeds keeps it true that a record in a terminal status holds no lease and has
-- the time of its end.
pub transition-IsClosed :
    (r : TaskRecord) (t : TaskStatus) (now : Iso) (p : Report) {r' : TaskRecord}
    → IsClosed r
    → transition r t now p ≡ ok r'
    → IsClosed r'
transition-IsClosed r t now p v h = elim (transition_cases r t now p h) [
  | inl (s, e) ↦ rw e v
  | inr (a, e) ↦ rw e (moved-IsClosed r t now p)
]

pub transition-final :
    (r : TaskRecord) (t : TaskStatus) (now : Iso) (p : Report) {r' : TaskRecord}
    → is_final r.status ≡ true
    → transition r t now p ≡ ok r'
    → r' ≡ r
transition-final r t now p f h = elim (transition_cases r t now p h) [
  | inl (s, e) ↦ e
  | inr (a, e) ↦ true-ne-false a (final-allowed r.status t f)
]

-- What no change of a record undoes.
pub record Evolves (r r' : TaskRecord) : Type 0 where
  pub id : r'.task_id ≡ r.task_id
  pub final : is_final r.status ≡ true → r'.status ≡ r.status
  pub attempts : r.attempt ≤ r'.attempt
  pub cancel : r.cancel_requested ≡ true → r'.cancel_requested ≡ true
  pub started : is_some r.started_at ≡ true → r'.started_at ≡ r.started_at

pub Evolves-refl : (r : TaskRecord) → Evolves r r
Evolves-refl r = ground arith

pub Evolves-trans : {a b c : TaskRecord} → Evolves a b → Evolves b c → Evolves a c
Evolves-trans h k = ground arith

moved-Evolves :
    (r : TaskRecord) (t : TaskStatus) (now : Iso) (p : Report)
    → is_final r.status ≡ false
    → Evolves r (moved r t now p)
unfolding moved
moved-Evolves r created now p h = ground arith
moved-Evolves r _ now p h = ground arith

pub allowed-not-final :
    (s t : TaskStatus) → is_in t (allowed_transitions s) ≡ true → is_final s ≡ false
allowed-not-final s t h = ground arith

-- A transition that succeeds keeps the record's id, a final status, a cancel request and the first
-- start time, and does not lower the attempt count.
pub transition-Evolves :
    (r : TaskRecord) (t : TaskStatus) (now : Iso) (p : Report) {r' : TaskRecord}
    → transition r t now p ≡ ok r'
    → Evolves r r'
transition-Evolves r t now p h = elim (transition_cases r t now p h) [
  | inl (s, e) ↦ rw e (Evolves-refl r)
  | inr (a, e) ↦ rw e (moved-Evolves r t now p (allowed-not-final r.status t a))
]

-- After a transition that succeeds the record has the status asked for.
pub transition-status :
    (r : TaskRecord) (t : TaskStatus) (now : Iso) (p : Report) {r' : TaskRecord}
    → transition r t now p ≡ ok r'
    → r'.status ≡ t
transition-status r t now p h = elim (transition_cases r t now p h) [
  | inl (s, e) ↦ rw e (sym s)
  | inr (a, e) ↦ rw e (moved-status r t now p)
]

-- A legal move succeeds.
pub transition-allowed :
    (r : TaskRecord) (t : TaskStatus) (now : Iso) (p : Report)
    → is_in t (allowed_transitions r.status) ≡ true
    → transition r t now p ≡ ok (moved r t now p)
unfolding transition
transition-allowed r t now p h = rw h (ground arith)

-- Any other move is refused.
pub transition-refused :
    (r : TaskRecord) (t : TaskStatus) (now : Iso) (p : Report)
    → same t r.status ≡ false
    → is_in t (allowed_transitions r.status) ≡ false
    → transition r t now p ≡ err value_error
unfolding transition
transition-refused r t now p d h = rw (d, h) refl
