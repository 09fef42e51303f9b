-- ===== src/Goal/Runtime/Calls/Steps.antt =====
-- What each operation of GoalRuntime (core/goal/runtime.py) makes of a goal: nothing, or a newer
-- version in a database that is still consistent.
use learn_agent.Prelude.{
  ℕ, ◌≡◌, ◌≤◌, ◌<◌, ◌∙◌, ◌+◌, refl, sym, ap, subst, String, Bool, true, false, Option, some, arith,
  Result, ok, Error, Iso, utc_now, lookup, insert, lookup-insert, eq_iff, if◌then◌else◌, Bool-cases,
  Result-cases, ◌>>=◌, ◌>>◌, inl, inr, value_error, guard, guard-ok,
}
use learn_agent.Goal.Model.{Goal, is_terminal, normal}
use learn_agent.Store.Goals.{save_goal}
use learn_agent.Goal.Runtime.{World, save, touch, require_version, edit}
use learn_agent.Goal.Runtime.Soundness.{IsSound, IsConsistent, Loaded, require_version-Loaded}
use learn_agent.Goal.Runtime.Soundness.Saving.{KeepsSession, save-IsConsistent}

-- A change of a loaded goal that may be saved.
pub record Edit (g g' : Goal) : Type 0 where
  pub key : g'.goal_id ≡ g.goal_id
  pub session : g'.session_id ≡ g.session_id
  pub version : g'.version ≡ g.version
  pub sound : IsSound g'

-- A goal that was written, with the world after it.
pub record Written (id : String) (g g' : Goal) (w' : World) : Type 0 where
  pub consistent : IsConsistent w'.db
  pub stored : lookup id w'.db.goals ≡ some g'
  pub newer : g.version < g'.version
  pub live : is_terminal g.status ≡ false
  pub key : g'.goal_id ≡ g.goal_id
  pub session : g'.session_id ≡ g.session_id

-- A call that succeeds leaves a terminal goal and the world as they are, or writes a goal.
pub data Outcome (id : String) (w : World) (g g' : Goal) (w' : World) : Type 0 where
  kept : is_terminal g.status ≡ true → g' ≡ g → w' ≡ w → Outcome id w g g' w'
  written : Written id g g' w' → Outcome id w g g' w'

pub record Step (id : String) (expected : Option ℕ) (w : World) (g' : Goal) (w' : World)
    : Type 0 where
  pub before : Goal
  pub load : Loaded id expected w before
  pub outcome : Outcome id w before g' w'

save-goals :
    (clock : ℕ) (g : Goal) (event : String) (w : World)
    → (save clock g event w).db.goals ≡ insert g.goal_id g w.db.goals
unfolding save save_goal
save-goals clock g event w = refl

bump-IsSound :
    (g : Goal) (now : Iso)
    → IsSound g
    → IsSound (record g { version = g.version + 1; updated_at = now })
bump-IsSound g now v = ground arith

-- What stands in the database where a changed goal is saved: an older one, of the same session.
pub record Replaces (id : String) (w : World) (g : Goal) : Type 0 where
  pub consistent : IsConsistent w.db
  pub old : Goal
  pub found : lookup id w.db.goals ≡ some old
  pub same : g.session_id ≡ old.session_id
  pub named : g.goal_id ≡ id

replaced-KeepsSession : (id : String) (w : World) (g : Goal) → Replaces id w g → KeepsSession w.db g
replaced-KeepsSession id w g r old found =
    let both : some r.old ≡ some old =
      sym r.found ∙ sym (ap (λ k. lookup k w.db.goals) r.named) ∙ found in
    r.same ∙ ap (λ x. x.session_id) (let e : r.old ≡ old = cc in e)

-- A change that is saved.
pub touch-Written :
    (clock : ℕ) (id : String) (event : String) (w : World) (g g1 : Goal)
    → Replaces id w g1
    → is_terminal g.status ≡ false
    → g.version ≤ g1.version
    → g1.goal_id ≡ g.goal_id
    → g1.session_id ≡ g.session_id
    → IsSound g1
    → Written id g (touch clock g1 event w).0 (touch clock g1 event w).1
unfolding touch
touch-Written clock id event w g g1 r live newer key session sound =
    let g2 : Goal = record g1 { version = g1.version + 1; updated_at = utc_now clock } in
    record {
      consistent =
          save-IsConsistent clock g2 event w r.consistent (bump-IsSound g1 (utc_now clock) sound)
            (replaced-KeepsSession id w g1 r);
      stored =
          rw
            (
              save-goals clock g2 event w,
              lookup-insert g1.goal_id id g2 w.db.goals,
              (eq_iff g1.goal_id id).1 r.named,
            )
            refl;
      newer = omega arith;
      live = live;
      key = key;
      session = session;
    }

pub changed-Written :
    (clock : ℕ) (id : String) (expected : Option ℕ) (event : String) (w : World) (g g1 : Goal)
    → IsConsistent w.db
    → Loaded id expected w g
    → is_terminal g.status ≡ false
    → Edit g g1
    → Written id g (touch clock g1 event w).0 (touch clock g1 event w).1
changed-Written clock id expected event w g g1 v l live e =
    touch-Written clock id event w g g1
      (record {
        consistent = v;
        old = l.stored;
        found = l.found;
        same = e.session ∙ l.session;
        named = e.key ∙ l.key;
      })
      live (rw e.version (omega arith)) e.key e.session e.sound

-- A written pair, where the call's answer is that pair.
pub answered :
    (id : String) (w : World) (g : Goal) (p : Goal × World) {g' : Goal} {w' : World}
    → Written id g p.0 p.1
    → ◌≡◌ {A = Result (Goal × World)} (ok p) (ok (g', w'))
    → Outcome id w g g' w'
answered id w g p {g'} {w'} d h =
    let same : p ≡ (g', w') = cc in subst (λ q. Outcome id w g q.0 q.1) same (written d)

module _ (clock : ℕ) (id : String) (expected : Option ℕ) (w : World) (v : IsConsistent w.db) where
  -- An operation that loads the goal, tests it, and saves a change.
  pub simple :
      (x : Error) (event : String) (test : Goal → Bool) (change : Goal → Goal)
      → ((g : Goal)
          → IsSound g
          → test g ≡ true
          → (is_terminal g.status ≡ false) × Edit g (change g))
      → {g' : Goal} {w' : World}
      → (require_version id expected w >>= λ g.
          guard (test g) x >> ok (touch clock (change g) event w))
        ≡ ok (g', w')
      → Step id expected w g' w'
  simple x event test change keeps {g'} {w'} h =
      elim (Result-cases (require_version id expected w)) [
        | inr (_, e) ↦ absurd (cc (rw e at h))
        | inl (g, e) ↦
            let l = require_version-Loaded id expected w v e in
            let (passed, final) = guard-ok (test g) x _ (rw e at h) in
            let (live, edit) = keeps g l.sound passed in
            record {
              before = g;
              load = l;
              outcome =
                  answered id w g _
                    (changed-Written clock id expected event w g (change g) v l live edit) final;
            }
      ]

  -- The same with two tests.
  pub simple_twice :
      (event : String) (test test' : Goal → Bool) (change : Goal → Goal)
      → ((g : Goal)
          → IsSound g
          → test g ≡ true
          → test' g ≡ true
          → (is_terminal g.status ≡ false) × Edit g (change g))
      → {g' : Goal} {w' : World}
      → (require_version id expected w >>= λ g.
          guard (test g) value_error
          >> (guard (test' g) value_error >> ok (touch clock (change g) event w)))
        ≡ ok (g', w')
      → Step id expected w g' w'
  simple_twice event test test' change keeps {g'} {w'} h =
      elim (Result-cases (require_version id expected w)) [
        | inr (_, e) ↦ absurd (cc (rw e at h))
        | inl (g, e) ↦
            let l = require_version-Loaded id expected w v e in
            let (passed, more) = guard-ok (test g) value_error _ (rw e at h) in
            let (passed', final) = guard-ok (test' g) value_error _ more in
            let (live, edit) = keeps g l.sound passed passed' in
            record {
              before = g;
              load = l;
              outcome =
                  answered id w g _
                    (changed-Written clock id expected event w g (change g) v l live edit) final;
            }
      ]

  -- An operation that does nothing to a terminal goal, and saves a change of any other.
  pub unless_terminal :
      (event : String) (change : Goal → Goal)
      → ((g : Goal) → IsSound g → is_terminal g.status ≡ false → Edit g (change g))
      → {g' : Goal} {w' : World}
      → (require_version id expected w >>= λ g.
          if is_terminal g.status then ok (g, w) else ok (touch clock (change g) event w))
        ≡ ok (g', w')
      → Step id expected w g' w'
  unless_terminal event change keeps {g'} {w'} h =
      elim (Result-cases (require_version id expected w)) [
        | inr (_, e) ↦ absurd (cc (rw e at h))
        | inl (g, e) ↦
            let l = require_version-Loaded id expected w v e in
            let after_load = rw e at h in
            record {
              before = g;
              load = l;
              outcome = elim (Bool-cases (is_terminal g.status)) [
                | inl over ↦ kept over (ground arith) (ground arith)
                | inr live ↦
                    answered id w g _
                      (changed-Written clock id expected event w g (change g) v l live
                        (keeps g l.sound live))
                      (rw live at after_load)
              ];
            }
      ]

-- The goal that a step starts from does not depend on the version expected.
pub restep :
    (id : String) (expected e : Option ℕ) (w : World) (g g' : Goal) (w' : World)
    → Loaded id expected w g
    → Step id e w g' w'
    → Step id expected w g' w'
restep id expected e w g g' w' l s =
    let both : some s.load.stored ≡ some l.stored = sym s.load.found ∙ l.found in
    let stored : s.load.stored ≡ l.stored = cc in
    let same : s.before ≡ g = s.load.same ∙ ap normal stored ∙ sym l.same in
    record { before = g; load = l; outcome = subst (λ x. Outcome id w x g' w') same s.outcome }
