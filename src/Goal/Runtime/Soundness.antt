-- ===== src/Goal/Runtime/Soundness.antt =====
-- The goals and the sessions that point at them: what every stored goal satisfies, and what loading
-- one gives (core/goal/runtime.py).
pub mod Saving
use learn_agent.Prelude.{
  ℕ, ◌≡◌, ◌≤◌, ◌∙◌, refl, sym, ap, subst, String, Bool, true, false, Option, none, some, List,
  arith, ok, err, lookup, insert, lookup-insert, lookup-same, lookup-differ, ◌==◌, eq_iff,
  Bool-cases, Option-cases, ◌>>=◌, ◌⊎◌, inl, inr, truthy, same_text, key_error, runtime_error,
  guard,
}
use learn_agent.Goal.Model.{Goal, disarmed, is_active, is_armed, is_named, normal, post_init}
use learn_agent.Store.Db.{Db, Session}
use learn_agent.Store.Goals.{save_goal, point_session, with_goal}
use learn_agent.Goal.Runtime.{World, save, get, is_version, require_version}

-- What holds of every goal that is stored.
pub record IsSound (g : Goal) : Type 0 where
  pub named : is_named g ≡ true
  pub version : 1 ≤ g.version
  pub room : 1 ≤ g.max_rounds
  pub rounds : g.rounds_started ≤ g.max_rounds
  pub progress : g.progress ≤ 1000
  pub inactive : is_active g.status ≡ false → g.activation ≡ disarmed
  pub running : truthy g.current_task_id ≡ true → is_armed g ≡ true

-- The row of a goal: it stands under its own id.
pub record Holds (id : String) (g : Goal) : Type 0 where
  pub sound : IsSound g
  pub key : g.goal_id ≡ id

-- A session points at an active goal of its own, or at none.
abbrev pub PointsAt : List (String × Goal) → String → Option String → Type 0
PointsAt goals sid target =
    (gid : String)
    → target ≡ some gid
    → (g : Goal) × (lookup gid goals ≡ some g) × (is_active g.status ≡ true) × (g.session_id ≡ sid)

pub record IsConsistent (db : Db) : Type 0 where
  pub goals : (id : String) (g : Goal) → lookup id db.goals ≡ some g → Holds id g
  pub sessions :
      (sid : String) (s : Session)
      → lookup sid db.sessions ≡ some s
      → PointsAt db.goals sid s.active_goal_id

pub normal-IsSound : (g : Goal) → IsSound g → IsSound (normal g)
unfolding normal
normal-IsSound g v = ground arith

-- A sound goal loads, as `normal` leaves it.
pub post_init-IsSound : (g : Goal) → IsSound g → post_init g ≡ ok (normal g)
unfolding post_init
post_init-IsSound g v = rw v.named refl

-- What require_version gives, where it gives a goal.
pub record Loaded (id : String) (expected : Option ℕ) (w : World) (g : Goal) : Type 0 where
  pub stored : Goal
  pub found : lookup id w.db.goals ≡ some stored
  pub same : g ≡ normal stored
  pub sound : IsSound g
  pub key : g.goal_id ≡ id
  pub session : g.session_id ≡ stored.session_id
  pub version : g.version ≡ stored.version
  pub status : g.status ≡ stored.status
  pub expects : is_version expected g ≡ true

pub version-normal : (g : Goal) → IsSound g → (normal g).version ≡ g.version
unfolding normal
version-normal g v = ground arith

normal-keys :
    (g : Goal)
    → ((normal g).goal_id ≡ g.goal_id)
      × ((normal g).session_id ≡ g.session_id)
      × ((normal g).status ≡ g.status)
unfolding normal
normal-keys g = (refl, refl, refl)

guarded :
    (b : Bool) (g : Goal) {g' : Goal}
    → (guard b runtime_error >>= λ _. ok g) ≡ ok g'
    → (b ≡ true) × (g' ≡ g)
guarded true g h = (refl, ground arith)
guarded false g h = absurd (cc)

loaded :
    (id : String) (expected : Option ℕ) (w : World) (g0 : Goal) {g : Goal}
    → lookup id w.db.goals ≡ some g0
    → Holds id g0
    → (guard (is_version expected (normal g0)) runtime_error >>= λ _. ok (normal g0)) ≡ ok g
    → Loaded id expected w g
loaded id expected w g0 e v k =
    let (b, same) = guarded (is_version expected (normal g0)) (normal g0) k in
    let (key, session, status) = normal-keys g0 in
    record {
      stored = g0;
      found = e;
      same = same;
      sound = rw same (normal-IsSound g0 v.sound);
      key = rw same (key ∙ v.key);
      session = rw same session;
      version = rw same (version-normal g0 v.sound);
      status = rw same status;
      expects = rw same b;
    }

pub get-found :
    (id : String) (w : World) (g0 : Goal)
    → lookup id w.db.goals ≡ some g0
    → IsSound g0
    → get id w ≡ ok (some (normal g0))
unfolding get
get-found id w g0 e v = rw e (rw (post_init-IsSound g0 v) refl)

-- A stored goal is loaded, if it has the version that is expected.
pub require_version-found :
    (id : String) (expected : Option ℕ) (w : World) (g0 : Goal)
    → lookup id w.db.goals ≡ some g0
    → IsSound g0
    → require_version id expected w
      ≡ (guard (is_version expected (normal g0)) runtime_error >>= λ _. ok (normal g0))
unfolding require_version
require_version-found id expected w g0 e v = rw (get-found id w g0 e v) refl

pub require_version-missing :
    (id : String) (expected : Option ℕ) (w : World)
    → lookup id w.db.goals ≡ none
    → require_version id expected w ≡ err key_error
unfolding require_version get
require_version-missing id expected w e = rw e refl

pub require_version-Loaded :
    (id : String) (expected : Option ℕ) (w : World) {g : Goal}
    → IsConsistent w.db
    → require_version id expected w ≡ ok g
    → Loaded id expected w g
require_version-Loaded id expected w v h = elim (Option-cases (lookup id w.db.goals)) [
  | inl e ↦ absurd (cc (require_version-missing id expected w e))
  | inr (g0, e) ↦
      loaded id expected w g0 e (v.goals id g0 e)
        (sym (require_version-found id expected w g0 e (v.goals id g0 e).sound) ∙ h)
]
