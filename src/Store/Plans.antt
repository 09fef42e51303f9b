-- ===== src/Store/Plans.antt =====
-- core/runtime/sqlite_store.py: the transactions on plans. The table of plan tasks repeats the tasks
-- of the plan's JSON, is read by nothing here, and is left out.
use learn_agent.Prelude.{
  ℕ, String, Option, none, some, [], ◌∷◌, Bool, true, if◌then◌else◌, lookup, insert, without,
  map_rows, same_text, is_some, Result, ok, integrity_error, guard, ◌>>◌, ◌||◌,
}
use learn_agent.Plan.Model.{Plan}
use learn_agent.Store.Db.{Db, Artifact, Event, append_events}
use learn_agent.Store.Goals.{drop_plan}

-- The foreign key plans.goal_id, which an INSERT checks.
abbrev pub goal_known : Option String → Db → Bool
goal_known none db = true
goal_known (some g) db = is_some (lookup g db.goals)

-- RuntimeStore.save_plan
unfoldable pub save_plan : Plan → Event → Db → Result Db
save_plan p event db = do
  guard (is_some (lookup p.plan_id db.plans) || goal_known p.goal_id db) integrity_error
  ok (append_events (event ∷ []) (record db { plans = insert p.plan_id p db.plans }))

-- RuntimeStore.get_plan
abbrev pub get_plan : String → Db → Option Plan
get_plan id db = lookup id db.plans

-- An artifact without its references to a plan that goes.
abbrev pub unlink_plan : String → Artifact → Artifact
unlink_plan id a =
    if same_text a.plan_id (some id) then record a { plan_id = none; plan_task_id = none } else a

-- RuntimeStore.delete_plan
unfoldable pub delete_plan : ℕ → String → Db → Bool × Db
delete_plan clock id db = (
  is_some (lookup id db.plans),
  record db {
    artifacts = map_rows (unlink_plan id) db.artifacts;
    plans = without id db.plans;
    sessions = map_rows (drop_plan clock (id ∷ [])) db.sessions;
  },
)
