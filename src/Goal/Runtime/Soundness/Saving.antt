-- ===== src/Goal/Runtime/Soundness/Saving.antt =====
-- GoalRuntime._save (core/goal/runtime.py): saving a sound goal keeps the database consistent.
use learn_agent.Prelude.{
  ℕ, ◌≡◌, ◌∙◌, refl, sym, ap, subst, String, true, false, Option, none, some, List, arith, lookup,
  insert, lookup-insert, lookup-same, lookup-differ, ◌==◌, eq_iff, Bool-cases, Option-cases, ◌⊎◌,
  inl, inr, same_text,
}
use learn_agent.Goal.Model.{Goal, is_active}
use learn_agent.Store.Db.{Db, Session}
use learn_agent.Store.Goals.{save_goal, point_session, with_goal}
use learn_agent.Goal.Runtime.{World, save}
use learn_agent.Goal.Runtime.Soundness.{IsSound, Holds, PointsAt, IsConsistent}

-- Where a session points after a goal is saved: at the goal, at nothing, or where it pointed, and
-- then not at the goal, or it is another session than the goal's.
data Pointed (g : Goal) (sessions : List (String × Session)) (sid : String) (s : Session)
    : Type 0 where
  at_goal :
      sid ≡ g.session_id
      → is_active g.status ≡ true
      → s.active_goal_id ≡ some g.goal_id
      → Pointed g sessions sid s
  at_none : s.active_goal_id ≡ none → Pointed g sessions sid s
  as_before :
      (old : Session)
      → lookup sid sessions ≡ some old
      → s.active_goal_id ≡ old.active_goal_id
      → (same_text s.active_goal_id (some g.goal_id) ≡ false) ⊎ ((g.session_id == sid) ≡ false)
      → Pointed g sessions sid s

module _ (clock : ℕ) (g : Goal) (sessions : List (String × Session)) (sid : String)
    (s : Session) where
  -- A write to the goal's own session.
  written :
      (goal : Option String) (old : Session)
      → lookup sid (insert g.session_id (with_goal clock goal old) sessions) ≡ some s
      → ((sid ≡ g.session_id) × (s.active_goal_id ≡ goal))
        ⊎ ((lookup sid sessions ≡ some s) × ((g.session_id == sid) ≡ false))
  written goal old h = ground (
    arith,
    lookup-insert g.session_id sid (with_goal clock goal old) sessions,
    eq_iff g.session_id sid,
  )

  -- No write at all.
  untouched :
      (old : Session)
      → lookup g.session_id sessions ≡ some old
      → same_text old.active_goal_id (some g.goal_id) ≡ false
      → lookup sid sessions ≡ some s
      → Pointed g sessions sid s
  untouched old e differ h = elim (Bool-cases (g.session_id == sid)) [
    | inl same ↦ as_before s h refl (
        inl (
          ap (λ x. same_text x.active_goal_id (some g.goal_id))
            (lookup-same g.session_id sid old s sessions same e h)
          ∙ differ))
    | inr other ↦ as_before s h refl (inr other)
  ]

  saved_pointer :
      (goal : Option String) (old : Session)
      → lookup sid (insert g.session_id (with_goal clock goal old) sessions) ≡ some s
      → (sid ≡ g.session_id → s.active_goal_id ≡ goal → Pointed g sessions sid s)
      → Pointed g sessions sid s
  saved_pointer goal old h own = elim (written goal old h) [
    | inl (key, target) ↦ own key target
    | inr (at, other) ↦ as_before s at refl (inr other)
  ]

  point_session-Pointed :
      lookup sid (point_session clock g sessions) ≡ some s → Pointed g sessions sid s
  unfolding point_session
  point_session-Pointed h = elim (Option-cases (lookup g.session_id sessions)) [
    | inl e ↦
        let here = rw (e, point_session) at h in
        as_before s here refl (inr (lookup-differ g.session_id sid s sessions e here))
    | inr (old, e) ↦ elim (Bool-cases (is_active g.status)) [
      | inl live ↦
          saved_pointer (some g.goal_id) old (rw (e, live, point_session) at h)
            (λ key target. at_goal key live target)
      | inr idle ↦ elim (Bool-cases (same_text old.active_goal_id (some g.goal_id))) [
        | inl points ↦
            saved_pointer none old (rw (e, idle, points, point_session) at h)
              (λ key target. at_none target)
        | inr differ ↦ untouched old e differ (rw (e, idle, differ, point_session) at h)
      ]
    ]
  ]

-- The saved goal belongs to the session of the goal that it replaces.
abbrev pub KeepsSession : Db → Goal → Type 0
KeepsSession db g =
    (old : Goal) → lookup g.goal_id db.goals ≡ some old → g.session_id ≡ old.session_id

module _ (clock : ℕ) (g : Goal) (db : Db) (v : IsConsistent db) (own : KeepsSession db g) where
  -- An active goal of a session is still there after the save, unless it is the goal saved.
  still_there :
      (sid gid : String) (old : Goal)
      → lookup gid db.goals ≡ some old
      → is_active old.status ≡ true
      → old.session_id ≡ sid
      → ((g.goal_id == gid) ≡ false)
      → (g' : Goal) × (lookup gid (insert g.goal_id g db.goals) ≡ some g')
        × (is_active g'.status ≡ true)
        × (g'.session_id ≡ sid)
  still_there sid gid old e live at other =
      (old, rw (lookup-insert g.goal_id gid g db.goals, other) e, live, at)

  clash :
      (sid : String) (s : Session) (gid : String)
      → s.active_goal_id ≡ some gid
      → g.goal_id ≡ gid
      → g.session_id ≡ sid
      → (same_text s.active_goal_id (some g.goal_id) ≡ false) ⊎ ((g.session_id == sid) ≡ false)
      → ⊥
  clash sid s gid e key at side = ground (arith, eq_iff gid g.goal_id, eq_iff g.session_id sid)

  saved-PointsAt :
      (sid : String) (s : Session)
      → Pointed g db.sessions sid s
      → PointsAt (insert g.goal_id g db.goals) sid s.active_goal_id
  saved-PointsAt sid s (at_goal key live target) gid e =
      let same : g.goal_id ≡ gid = ground arith in
      (
        g,
        rw (lookup-insert g.goal_id gid g db.goals, (eq_iff g.goal_id gid).1 same) refl,
        live,
        sym key,
      )
  saved-PointsAt sid s (at_none target) gid e = absurd (cc)
  saved-PointsAt sid s (as_before old found target side) gid e =
      let (g0, e0, live, at) = v.sessions sid old found gid (sym target ∙ e) in
      elim (Bool-cases (g.goal_id == gid)) [
        | inr other ↦ still_there sid gid g0 e0 live at other
        | inl same ↦
            let key : g.goal_id ≡ gid = (eq_iff g.goal_id gid).0 same in
            absurd (clash sid s gid e key (own g0 (ap (λ k. lookup k db.goals) key ∙ e0) ∙ at) side)
      ]

  goal-Holds :
      IsSound g
      → (id : String) (g' : Goal) → lookup id (insert g.goal_id g db.goals) ≡ some g'
      → Holds id g'
  goal-Holds sound id g' h = elim (Bool-cases (g.goal_id == id)) [
    | inl same ↦
        let at_id = rw (lookup-insert g.goal_id id g db.goals, same) at h in
        let goal : g ≡ g' = cc in
        record {
          sound = subst IsSound goal sound;
          key = ap (λ x. x.goal_id) (sym goal) ∙ (eq_iff g.goal_id id).0 same;
        }
    | inr other ↦ v.goals id g' (rw (lookup-insert g.goal_id id g db.goals, other) at h)
  ]

-- Saving a sound goal of the same session keeps the database consistent.
pub save-IsConsistent :
    (clock : ℕ) (g : Goal) (event : String) (w : World)
    → IsConsistent w.db
    → IsSound g
    → KeepsSession w.db g
    → IsConsistent (save clock g event w).db
unfolding save save_goal
save-IsConsistent clock g event w v sound own = record {
  goals = goal-Holds clock g w.db v own sound;
  sessions = λ sid s h.
      saved-PointsAt clock g w.db v own sid s (point_session-Pointed clock g w.db.sessions sid s h);
}
