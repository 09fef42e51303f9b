-- ===== src/Store/Goals.antt =====
-- core/runtime/sqlite_store.py: the transactions on goals, artifacts and sessions that have gone stale.
use learn_agent.Prelude.{
  ℕ, String, Option, none, some, List, [], ◌∷◌, Bool, false, not, ◌&&◌, ◌==◌, if◌then◌else◌,
  utc_now, Iso, moment, unreadable, ltb, length, lookup, insert, without, keep, map_rows, same_text,
  any, is_some,
}
use learn_agent.Goal.Model.{Goal, is_active}
use learn_agent.Store.Db.{Db, Session, Artifact, Event, append_events}

-- A session row with the goal that it shows as active.
abbrev pub with_goal : ℕ → Option String → Session → Session
with_goal clock goal s = record s { active_goal_id = goal; updated_at = utc_now clock }

-- The session of a saved goal points at the goal while it is active, and no longer than that.
unfoldable pub point_session : ℕ → Goal → List (String × Session) → List (String × Session)
point_session clock g sessions = elim (lookup g.session_id sessions) [
  | none ↦ sessions
  | some s ↦
      if is_active g.status
      then insert g.session_id (with_goal clock (some g.goal_id) s) sessions
      else if same_text s.active_goal_id (some g.goal_id)
      then insert g.session_id (with_goal clock none s) sessions
      else sessions
]

-- RuntimeStore.save_goal
unfoldable pub save_goal : ℕ → Goal → Event → Db → Db
save_goal clock g event db = append_events (event ∷ []) (record db {
  goals = insert g.goal_id g db.goals;
  sessions = point_session clock g db.sessions;
})

-- RuntimeStore.get_goal
abbrev pub get_goal : String → Db → Option Goal
get_goal id db = lookup id db.goals

-- x in xs, where x may be NULL
abbrev pub is_among : Option String → List String → Bool
is_among none ids = false
is_among (some x) ids = any (λ i. x == i) ids

-- The keys of the rows that a test selects.
pub keys_where {ℓ} : {V : Type ℓ} → (V → Bool) → List (String × V) → List String
keys_where p [] = []
keys_where p ((k, v) ∷ m) = if p v then k ∷ keys_where p m else keys_where p m

-- An artifact without its references to a goal that goes, to its plans, teams and members.
unfoldable pub unlink : String → List String → List String → List String → Artifact → Artifact
unlink goal plans teams members a = record a {
  goal_id = if same_text a.goal_id (some goal) then none else a.goal_id;
  plan_id = if is_among a.plan_id plans then none else a.plan_id;
  plan_task_id = if is_among a.plan_id plans then none else a.plan_task_id;
  team_id = if is_among a.team_id teams then none else a.team_id;
  child_session_id = if is_among a.child_session_id members then none else a.child_session_id;
}

-- UPDATE sessions SET active_plan_id=NULL WHERE active_plan_id in ids
abbrev pub drop_plan : ℕ → List String → Session → Session
drop_plan clock ids s =
    if is_among s.active_plan_id ids
    then record s { active_plan_id = none; updated_at = utc_now clock }
    else s

-- UPDATE sessions SET active_goal_id=NULL WHERE active_goal_id=?
abbrev pub drop_goal : ℕ → String → Session → Session
drop_goal clock id s = if same_text s.active_goal_id (some id) then with_goal clock none s else s

-- RuntimeStore.delete_goal: the goal with its plans and teams, and every reference to them.
unfoldable pub delete_goal : ℕ → String → Db → Bool × Db
unfolding keys_where
delete_goal clock id db =
    let plan_ids = keys_where (λ p. same_text p.goal_id (some id)) db.plans in
    let team_ids = keys_where (λ g. same_text g (some id)) db.teams in
    let member_ids = keys_where (λ t. is_among (some t) team_ids) db.team_members in
    (
      is_some (lookup id db.goals),
      record db {
        artifacts = map_rows (unlink id plan_ids team_ids member_ids) db.artifacts;
        plans = keep (λ row. not (is_among (some (row.0)) plan_ids)) db.plans;
        sessions = map_rows (λ s. drop_goal clock id (drop_plan clock plan_ids s)) db.sessions;
        team_messages = keep (λ row. not (is_among (some (row.1)) team_ids)) db.team_messages;
        team_members = keep (λ row. not (is_among (some (row.1)) team_ids)) db.team_members;
        teams = keep (λ row. not (is_among (some (row.0)) team_ids)) db.teams;
        goals = without id db.goals;
      },
    )

-- RuntimeStore.delete_artifact
unfoldable pub delete_artifact : String → Db → Bool × Db
delete_artifact id db =
    (is_some (lookup id db.artifacts), record db { artifacts = without id db.artifacts })

-- The time of a row's last update is before a cutoff. A text that is no time is before none.
abbrev pub is_before : Iso → Iso → Bool
is_before (moment a) (moment b) = ltb a b
is_before (moment a) (unreadable s) = false
is_before (unreadable s) t = false

-- Is the session one that delete_stale_sessions deletes?
unfoldable pub is_stale : Iso → Db → String × Session → Bool
is_stale cutoff db (id, s) =
    is_before s.updated_at cutoff
    && not (any (λ row. row.1.envelope.session_id == id) db.tasks)
    && not (any (λ row. row.1.session_id == id) db.artifacts)

-- RuntimeStore.delete_stale_sessions, with the number of the deleted rows.
unfoldable pub delete_stale_sessions : Iso → Db → ℕ × Db
unfolding is_stale
delete_stale_sessions cutoff db = (
  length (keep (is_stale cutoff db) db.sessions),
  record db { sessions = keep (λ row. not (is_stale cutoff db row)) db.sessions },
)
