-- ===== src/Goal/Runtime/History.antt =====
-- Histories of a GoalRuntime (core/goal/runtime.py): goals are created, changed and archived.
use learn_agent.Prelude.{
  ℕ, ◌≡◌, refl, sym, ap, subst, ◌∙◌, String, Bool, true, false, Option, none, some, List, [], ◌∷◌,
  arith, Result, ok, err, lookup, without, map_rows, lookup-without, ◌==◌, eq_iff, Bool-cases,
  Result-cases, guard-ok, inl, inr, ℤ, utc_now, Iso, value_error,
}
use learn_agent.Goal.Model.{Goal, Continuation, is_terminal, is_active, is_named, normal, post_init}
use learn_agent.Goal.Model
use learn_agent.Goal.Runtime.{World, create, archive, save, require_version}
use learn_agent.Goal.Runtime.Soundness.{IsSound, IsConsistent, PointsAt}
use learn_agent.Goal.Runtime.Soundness.Saving.{save-IsConsistent}
use learn_agent.Goal.Runtime.Calls.{GoalCall, perform}
use learn_agent.Goal.Runtime.Calls.Versions.{IsProper, perform-IsConsistent}
use learn_agent.Store.Db.{Db, Session}
use learn_agent.Store.Goals.{delete_goal, drop_goal, drop_plan}

fresh-IsSound :
    (g : Goal)
    → is_named g ≡ true
    → g.rounds_started ≡ 0
    → g.current_task_id ≡ none
    → IsSound (normal g)
unfolding normal
fresh-IsSound g named zero_rounds idle = ground arith

-- A goal that passes post_init with no round started, no task and a room for rounds is sound.
post_init-fresh :
    (g : Goal) {g' : Goal}
    → g.rounds_started ≡ 0
    → g.current_task_id ≡ none
    → post_init g ≡ ok g'
    → IsSound g' × (g'.goal_id ≡ g.goal_id)
unfolding post_init normal
post_init-fresh g {g'} zero_rounds idle h =
    let (named, last) = guard-ok (is_named g) value_error _ h in
    let same : normal g ≡ g' = cc in
    subst (λ x. IsSound x × (x.goal_id ≡ g.goal_id)) same
      (fresh-IsSound g named zero_rounds idle, refl)

create-fresh :
    (id session objective title : String) (c : Continuation) (rounds : ℤ) (is_start : Bool)
    (now : Iso) {g : Goal}
    → Model.create id session objective title c rounds is_start now ≡ ok g
    → IsSound g × (g.goal_id ≡ id)
unfolding Model.create
create-fresh id session objective title c rounds is_start now h = post_init-fresh _ refl refl h

pair_same :
    (g g' : Goal) (w w' : World)
    → ◌≡◌ {A = Result (Goal × World)} (ok (g, w)) (ok (g', w'))
    → ◌≡◌ {A = Goal × World} (g, w) (g', w')
pair_same g g' w w' h = cc

create-IsConsistent :
    (clock : ℕ) (id session objective title : String) (c : Continuation) (rounds : ℤ)
    (is_start : Bool) (w : World) {g' : Goal} {w' : World}
    → IsConsistent w.db
    → lookup id w.db.goals ≡ none
    → create clock id session objective title c rounds is_start w ≡ ok (g', w')
    → IsConsistent w'.db
unfolding create
create-IsConsistent clock id session objective title c rounds is_start w {g'} {w'} v fresh h =
    elim (Result-cases
      (Model.create id session objective title c rounds is_start (utc_now clock))) [
        | inr (x, e) ↦ absurd (cc (rw e at h))
        | inl (g, e) ↦
            let (sound, key) =
              create-fresh id session objective title c rounds is_start (utc_now clock) e in
            let saved = save-IsConsistent clock g "goal.created" w v sound (λ old found. absurd (
              let at : none ≡ some old =
                sym fresh ∙ sym (ap (λ k. lookup k w.db.goals) key) ∙ found in
              cc)) in
            let last : (g, save clock g "goal.created" w) ≡ (g', w') =
              pair_same _ _ _ _ (rw e at h) in
            subst (λ p. IsConsistent p.1.db) last saved
      ]

some_same : {V : Type 0} (a b : V) → some a ≡ some b → a ≡ b
some_same a b h = cc

lookup-map_rows :
    {V : Type 0} (f : V → V) (k : String) (m : List (String × V)) {v : V}
    → lookup k (map_rows f m) ≡ some v
    → (old : V) × (lookup k m ≡ some old) × (v ≡ f old)
lookup-map_rows {V} f k [] h = absurd (cc)
lookup-map_rows {V} f k ((j, x) ∷ m) {v} h = elim (Bool-cases (j == k)) [
  | inl e ↦ let same : f x ≡ v = some_same (f x) v (rw e at h) in rw e (x, refl, sym same)
  | inr e ↦ rw e (lookup-map_rows f k m (rw e at h))
]

kept_goal :
    (id k : String) (goals : List (String × Goal)) (g : Goal)
    → lookup k (without id goals) ≡ some g
    → (lookup k goals ≡ some g) × ((id == k) ≡ false)
kept_goal id k goals g h = ground (arith, lookup-without id k goals)

-- Where a session points when a goal has gone: not at the goal, and otherwise where it pointed.
pointed_before :
    (clock : ℕ) (id : String) (plans : List String) (s : Session) (gid : String)
    → (drop_goal clock id (drop_plan clock plans s)).active_goal_id ≡ some gid
    → (s.active_goal_id ≡ some gid) × ((id == gid) ≡ false)
pointed_before clock id plans s gid h = ground (arith, eq_iff id gid, eq_iff gid id)

unpointed :
    (clock : ℕ) (id : String) (db : Db)
    → IsConsistent db
    → (sid : String) (s : Session) → lookup sid (delete_goal clock id db).1.sessions ≡ some s
    → PointsAt (without id db.goals) sid s.active_goal_id
unfolding delete_goal
unpointed clock id db v sid s h gid e =
    let (old, found, made) = lookup-map_rows _ sid db.sessions h in
    let (at, other) =
      pointed_before clock id _ old gid (ap (λ x. x.active_goal_id) (sym made) ∙ e) in
    let (g, row, on, own) = v.sessions sid old found gid at in
    (g, rw (lookup-without id gid db.goals, other) row, on, own)

delete_goal-IsConsistent :
    (clock : ℕ) (id : String) (db : Db) → IsConsistent db → IsConsistent (delete_goal clock id db).1
unfolding delete_goal
delete_goal-IsConsistent clock id db v = record {
  goals = λ k g h. v.goals k g (kept_goal id k db.goals g h).0;
  sessions = λ sid s h gid e. unpointed clock id db v sid s h gid e;
}

archive-IsConsistent :
    (clock : ℕ) (id : String) (expected : Option ℕ) (w : World) {g' : Goal} {w' : World}
    → IsConsistent w.db
    → archive clock id expected w ≡ ok (g', w')
    → IsConsistent w'.db
unfolding archive
archive-IsConsistent clock id expected w {g'} {w'} v h =
    elim (Result-cases (require_version id expected w)) [
      | inr (x, e) ↦ absurd (cc (rw e at h))
      | inl (g, e) ↦ elim (Bool-cases (is_terminal g.status)) [
        | inl over ↦
            subst (λ p. IsConsistent p.1.db) (pair_same _ _ _ _ (rw (e, over) at h))
              (delete_goal-IsConsistent clock id w.db v)
        | inr live ↦
            subst (λ p. IsConsistent p.1.db) (pair_same _ _ _ _ (rw (e, live) at h))
              (delete_goal-IsConsistent clock id w.db v)
      ]
    ]

-- What a client does with goals. `creates` carries the id that is generated for the goal.
pub data GoalEvent : Type 0 where
  creates : String → String → String → String → Continuation → ℤ → Bool → GoalEvent
  performs : String → Option ℕ → GoalCall → GoalEvent
  archives : String → Option ℕ → GoalEvent

-- The world after a call: one that raises leaves it as it was.
abbrev pub settled : World → Result (Goal × World) → World
settled w (ok (g, w')) = w'
settled w (err x) = w

abbrev pub happen : ℕ → World → GoalEvent → World
happen clock w (creates id session objective title c rounds is_start) =
    settled w (create clock id session objective title c rounds is_start w)
happen clock w (performs id expected call) = settled w (perform clock id expected w call)
happen clock w (archives id expected) = settled w (archive clock id expected w)

abbrev pub run : List (ℕ × GoalEvent) → World → World
run [] w = w
run ((clock, e) ∷ es) w = run es (happen clock w e)

-- A generated id is that of no stored goal, and the task of a finished round has an id.
abbrev pub IsPossible : World → GoalEvent → Type 0
IsPossible w (creates id session objective title c rounds is_start) = lookup id w.db.goals ≡ none
IsPossible w (performs id expected call) = IsProper call
IsPossible w (archives id expected) = Unit

abbrev pub Possible : List (ℕ × GoalEvent) → World → Type 0
Possible [] w = Unit
Possible ((clock, e) ∷ es) w = IsPossible w e × Possible es (happen clock w e)

settled-IsConsistent :
    (w : World) (r : Result (Goal × World))
    → IsConsistent w.db
    → ((g : Goal) (w' : World) → r ≡ ok (g, w') → IsConsistent w'.db)
    → IsConsistent (settled w r).db
settled-IsConsistent w (ok (g, w')) v k = k g w' refl
settled-IsConsistent w (err x) v k = v

happen-IsConsistent :
    (clock : ℕ) (w : World) (e : GoalEvent)
    → IsConsistent w.db
    → IsPossible w e
    → IsConsistent (happen clock w e).db
happen-IsConsistent clock w (creates id session objective title c rounds is_start) v p =
    settled-IsConsistent w _ v
      (λ g w1 h. create-IsConsistent clock id session objective title c rounds is_start w v p h)
happen-IsConsistent clock w (performs id expected call) v p =
    settled-IsConsistent w _ v (λ g w1 h. perform-IsConsistent clock id expected w call v p h)
happen-IsConsistent clock w (archives id expected) v p =
    settled-IsConsistent w _ v (λ g w1 h. archive-IsConsistent clock id expected w v h)

-- A consistent database stays consistent through every history of goals that are created under new
-- ids, changed by any operation (a finished round's task has an id) and archived: every stored goal is sound, with no more rounds than it
-- may have, armed only while active and busy only while armed, and a session points only at an
-- active goal of its own.
pub run-IsConsistent :
    (es : List (ℕ × GoalEvent)) (w : World)
    → IsConsistent w.db
    → Possible es w
    → IsConsistent (run es w).db
run-IsConsistent [] w v p = v
run-IsConsistent ((clock, e) ∷ es) w v (now, later) =
    run-IsConsistent es (happen clock w e) (happen-IsConsistent clock w e v now) later
