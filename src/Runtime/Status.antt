-- ===== src/Runtime/Status.antt =====
-- core/runtime/models.py: the life cycle of a task.
use learn_agent.Prelude.{ℕ, List, [], ◌∷◌, Bool, true, eqb, any, ◌≡◌, refl, arith, String}

pub data TaskStatus : Type 0 where
  created queued leased running waiting_approval waiting_dependency retry_wait : TaskStatus
  completed failed blocked cancelled timed_out interrupted : TaskStatus

abbrev pub value : TaskStatus → String
value created = "created"
value queued = "queued"
value leased = "leased"
value running = "running"
value waiting_approval = "waiting_approval"
value waiting_dependency = "waiting_dependency"
value retry_wait = "retry_wait"
value completed = "completed"
value failed = "failed"
value blocked = "blocked"
value cancelled = "cancelled"
value timed_out = "timed_out"
value interrupted = "interrupted"

-- The position in the declaration, by which two statuses are compared.
abbrev pub index : TaskStatus → ℕ
index created = 0
index queued = 1
index leased = 2
index running = 3
index waiting_approval = 4
index waiting_dependency = 5
index retry_wait = 6
index completed = 7
index failed = 8
index blocked = 9
index cancelled = 10
index timed_out = 11
index interrupted = 12

-- s == t
abbrev pub same : TaskStatus → TaskStatus → Bool
same s t = eqb (index s) (index t)

-- s in ts
abbrev pub is_in : TaskStatus → List TaskStatus → Bool
is_in s = any (same s)

abbrev pub terminal : List TaskStatus
terminal = completed ∷ failed ∷ blocked ∷ cancelled ∷ timed_out ∷ []

abbrev pub is_terminal : TaskStatus → Bool
is_terminal s = is_in s terminal

-- The table _ALLOWED_TRANSITIONS.
abbrev pub allowed_transitions : TaskStatus → List TaskStatus
allowed_transitions created = queued ∷ cancelled ∷ []
allowed_transitions queued = leased ∷ cancelled ∷ blocked ∷ []
allowed_transitions leased = running ∷ queued ∷ cancelled ∷ interrupted ∷ []
allowed_transitions running =
    waiting_approval ∷ retry_wait ∷ completed ∷ failed ∷ blocked ∷ cancelled ∷ timed_out
    ∷ interrupted ∷ []
allowed_transitions waiting_approval = queued ∷ cancelled ∷ blocked ∷ []
allowed_transitions waiting_dependency = queued ∷ cancelled ∷ blocked ∷ []
allowed_transitions retry_wait = queued ∷ cancelled ∷ failed ∷ []
allowed_transitions interrupted = queued ∷ failed ∷ cancelled ∷ []
allowed_transitions completed = []
allowed_transitions failed = []
allowed_transitions blocked = queued ∷ []
allowed_transitions cancelled = []
allowed_transitions timed_out = []

-- The statuses that nothing leaves: the terminal ones but `blocked`.
abbrev pub is_final : TaskStatus → Bool
is_final s = is_in s (completed ∷ failed ∷ cancelled ∷ timed_out ∷ [])

pub same_refl : (s : TaskStatus) → same s s ≡ true
same_refl created = refl
same_refl _ = refl

pub same→eq : (s t : TaskStatus) → same s t ≡ true → s ≡ t
same→eq s t h = ground arith
