-- ===== src/Store/Stale.antt =====
-- RuntimeStore.delete_stale_sessions (core/runtime/sqlite_store.py): references stay whole.
use learn_agent.Prelude.{
  ◌≡◌, sym, subst, String, Bool, true, not, ◌&&◌, some, List, [], ◌∷◌, any, keep, lookup, ◌==◌,
  eq_iff, Bool-cases, inl, inr, arith, Iso, ◌||◌,
}
use learn_agent.Store.Db.{Db, Session}
use learn_agent.Store.Goals.{delete_stale_sessions, is_stale}

found_first : (x s : Session) → some x ≡ some s → x ≡ s
found_first x s h = cc

-- A row that passes a test is found after the rows that fail it have gone.
keep-lookup :
    (p : String × Session → Bool) (id : String) (s : Session) (rows : List (String × Session))
    → lookup id rows ≡ some s
    → p (id, s) ≡ true
    → lookup id (keep p rows) ≡ some s
keep-lookup p id s [] h good = h
keep-lookup p id s ((j, x) ∷ rows) h good = elim (Bool-cases (j == id)) [
  | inl same ↦
      let row : x ≡ s = found_first x s (rw same at h) in
      let key : j ≡ id = (eq_iff j id).0 same in
      let kept : p (j, x) ≡ true =
        subst (λ k. p (k, x) ≡ true) (sym key) (subst (λ y. p (id, y) ≡ true) (sym row) good) in
      rw (kept, same) (rw same at h)
  | inr other ↦
      let rest = keep-lookup p id s rows (rw other at h) good in
      elim (Bool-cases (p (j, x))) [ inl kept ↦ rw (kept, other) rest | inr gone ↦ rw gone rest ]
]

blocked_by :
    (old tasked filed : Bool)
    → (tasked || filed) ≡ true
    → not (old && not tasked && not filed) ≡ true
blocked_by old tasked filed h = ground arith

not_stale :
    (cutoff : Iso) (db : Db) (id : String) (s : Session)
    → (any (λ row. row.1.envelope.session_id == id) db.tasks
        || any (λ row. row.1.session_id == id) db.artifacts)
      ≡ true
    → not (is_stale cutoff db (id, s)) ≡ true
unfolding is_stale
not_stale cutoff db id s used = blocked_by _ _ _ used

-- A session that a task or an artifact refers to is still there, as it was, after
-- delete_stale_sessions, however old it is.
pub referenced_kept :
    (cutoff : Iso) (db : Db) (id : String) (s : Session)
    → lookup id db.sessions ≡ some s
    → (any (λ row. row.1.envelope.session_id == id) db.tasks
        || any (λ row. row.1.session_id == id) db.artifacts)
      ≡ true
    → lookup id (delete_stale_sessions cutoff db).1.sessions ≡ some s
unfolding delete_stale_sessions
referenced_kept cutoff db id s found used =
    keep-lookup (λ row. not (is_stale cutoff db row)) id s db.sessions found
      (not_stale cutoff db id s used)
