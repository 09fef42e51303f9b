-- ===== src/Conversation/Store/History/Paging.antt =====
-- gateway/conversation/store.py: a client that follows the cursors of history_page reads the whole
-- history.
use learn_agent.Prelude.{
  ℕ, zero, suc, ◌-◌, ◌≤◌, ◌≡◌, ◌≢◌, refl, sym, ap, subst, ◌∙◌, inl, inr, String, Option, none, some,
  List, [], ◌∷◌, ◌++◌, Bool, true, false, arith, Bool-cases, Option-cases, List-cases, values, keep,
  any, All, length, map, last, reversed, reversed-append, Ordered, Apart, sort_by-Ordered,
  keep-after, take-parts, append_assoc, All-keep,
}
use learn_agent.Conversation.Model.{Turn, TurnNode, Tables}
use learn_agent.Conversation.Store.Nodes.{get_turn_nodes}
use learn_agent.Conversation.Store.History.{
  Cursor, Page, clamp, is_before, precedes, newest, page_rows, next_cursor_of, history_page,
  of_conversation, cursor_of,
}

abbrev pub turns_of : Page → List Turn
turns_of page = map (λ (item : Turn × List TurnNode). item.0) page.items

unpaired :
    {B : Type 0} (f : Turn → B) (ts : List Turn)
    → map (λ (item : Turn × B). item.0) (map (λ t. (t, f t)) ts) ≡ ts
unpaired f [] = refl
unpaired f (t ∷ ts) = ap (◌∷◌ t) (unpaired f ts)

module _ (rowid : Turn → ℕ) (conversation : String) (limit : ℕ) (db : Tables) where
  -- A client that reads backwards from a cursor, page by page, until there is no next.
  unfoldable pub read_history : ℕ → Option Cursor → Option (List Turn)
  read_history zero before = none
  read_history (suc fuel) before =
      let page = history_page rowid conversation before limit db in
      elim page.next_cursor [
        | none ↦ some (turns_of page)
        | some cursor ↦ elim (read_history fuel (some cursor)) [
          | none ↦ none
          | some older ↦ some (older ++ turns_of page)
        ]
      ]

  -- What is read with a page's turns and the cursor to the next.
  abbrev read_on : ℕ → Option Cursor → List Turn → Option (List Turn)
  read_on fuel none turns = some turns
  read_on fuel (some cursor) turns = elim (read_history fuel (some cursor)) [
    | none ↦ none
    | some older ↦ some (older ++ turns)
  ]

  read_history-step :
      (fuel : ℕ) (before : Option Cursor)
      → read_history (suc fuel) before ≡ (
          let rows = page_rows rowid conversation before limit db in
          read_on fuel (next_cursor_of rowid conversation rows db) (reversed rows))
  unfolding read_history history_page
  read_history-step fuel before =
      let rows = page_rows rowid conversation before limit db in
      let same = unpaired (λ t. get_turn_nodes t.turn_id db) (reversed rows) in
      elim (Option-cases (next_cursor_of rowid conversation rows db)) [
        | inl e ↦ rw (read_history, e) (ap some same)
        | inr (cursor, e) ↦ rw (read_history, e) (ap (read_on fuel (some cursor)) same)
      ]

  read_on-some :
      (fuel : ℕ) (cursor : Cursor) (older turns : List Turn)
      → read_history fuel (some cursor) ≡ some older
      → read_on fuel (some cursor) turns ≡ some (older ++ turns)
  read_on-some fuel cursor older turns h = rw (read_on, h) refl

-- No two rows have one rowid.
abbrev pub RowidsDiffer : (Turn → ℕ) → List Turn → Type 0
RowidsDiffer rowid [] = Unit
RowidsDiffer rowid (t ∷ ts) = All (λ u. rowid t ≢ rowid u) ts × RowidsDiffer rowid ts

module _ (rowid : Turn → ℕ) where
  precedes_trans :
      (x y z : Turn)
      → precedes rowid x y ≡ true
      → precedes rowid y z ≡ true
      → precedes rowid x z ≡ true
  precedes_trans x y z h k = ground arith

  precedes_asym : (x y : Turn) → precedes rowid x y ≡ true → precedes rowid y x ≡ false
  precedes_asym x y h = ground arith

  precedes_irrefl : (x : Turn) → precedes rowid x x ≡ false
  precedes_irrefl x = ground arith

  precedes_total :
      (x y : Turn) → rowid x ≢ rowid y → precedes rowid x y ≡ false → precedes rowid y x ≡ true
  precedes_total x y differ h = ground arith

  apart_from :
      (t : Turn) (us : List Turn)
      → All (λ u. rowid t ≢ rowid u) us
      → All (λ u. precedes rowid t u ≡ false → precedes rowid u t ≡ true) us
  apart_from t [] h = tt
  apart_from t (u ∷ us) h = (precedes_total t u h.0, apart_from t us h.1)

  apart : (ts : List Turn) → RowidsDiffer rowid ts → Apart (precedes rowid) ts
  apart [] h = tt
  apart (t ∷ ts) h = (apart_from t ts h.0, apart ts h.1)

  RowidsDiffer-keep :
      (p : Turn → Bool) (ts : List Turn) → RowidsDiffer rowid ts → RowidsDiffer rowid (keep p ts)
  RowidsDiffer-keep p [] h = tt
  RowidsDiffer-keep p (t ∷ ts) h = elim (Bool-cases (p t)) [
    | inl e ↦ rw e (All-keep (λ u. rowid t ≢ rowid u) p ts h.0, RowidsDiffer-keep p ts h.1)
    | inr e ↦ rw e (RowidsDiffer-keep p ts h.1)
  ]

  newest-Ordered :
      (conversation : String) (db : Tables)
      → RowidsDiffer rowid (values db.turns)
      → Ordered (precedes rowid) (newest rowid conversation db)
  unfolding newest
  newest-Ordered conversation db h =
      sort_by-Ordered (precedes rowid) precedes_trans
        (keep (of_conversation conversation) (values db.turns))
        (apart _ (RowidsDiffer-keep (of_conversation conversation) (values db.turns) h))

any-none : (p : Turn → Bool) (ts : List Turn) → keep p ts ≡ [] → any p ts ≡ false
any-none p [] h = refl
any-none p (t ∷ ts) h = ground (arith, any-none p ts)

any-some :
    (p : Turn → Bool) (ts : List Turn) (u : Turn) (us : List Turn)
    → keep p ts ≡ u ∷ us
    → any p ts ≡ true
any-some p [] u us h = absurd (cc)
any-some p (t ∷ ts) u us h = ground (arith, any-some p ts u us)

module _ (rowid : Turn → ℕ) (conversation : String) (limit : ℕ) (db : Tables)
    (ordered : Ordered (precedes rowid) (newest rowid conversation db)) where
  clamp-positive : (m : ℕ) × (clamp 200 limit ≡ suc m)
  clamp-positive = (clamp 200 limit - 1, ground arith)

  -- The next page begins after the last row of this one.
  next_cursor_of-after :
      (rows before : List Turn) (y : Turn) (after : List Turn)
      → last rows ≡ some y
      → newest rowid conversation db ≡ before ++ (y ∷ after)
      → (keep (precedes rowid y) (newest rowid conversation db) ≡ after)
        × (next_cursor_of rowid conversation rows db
            ≡ (elim after [ [] ↦ none | u ∷ us ↦ some (cursor_of rowid y) ]))
  unfolding next_cursor_of
  next_cursor_of-after rows before y after end whole =
      let kept =
        subst (λ ts. keep (precedes rowid y) ts ≡ after) (sym whole)
          (keep-after (precedes rowid) (precedes_asym rowid) (precedes_irrefl rowid) before y after
            (subst (Ordered (precedes rowid)) whole ordered)) in
      (
        kept,
        elim (List-cases after) [
          | inl e ↦
              rw
                (
                  next_cursor_of,
                  end,
                  e,
                  any-none (precedes rowid y) (newest rowid conversation db) (kept ∙ e),
                )
                refl
          | inr (u, us, e) ↦
              rw
                (
                  next_cursor_of,
                  end,
                  e,
                  any-some (precedes rowid y) (newest rowid conversation db) u us (kept ∙ e),
                )
                refl
        ],
      )

  no_next : next_cursor_of rowid conversation [] db ≡ none
  unfolding next_cursor_of
  no_next = refl

  -- From a cursor on, the rest of the history is read.
  read_history-rest :
      (fuel : ℕ) (before : Option Cursor) (read rest : List Turn)
      → newest rowid conversation db ≡ read ++ rest
      → keep (is_before rowid before) (newest rowid conversation db) ≡ rest
      → suc (length rest) ≤ fuel
      → read_history rowid conversation limit db fuel before ≡ some (reversed rest)
  unfolding page_rows
  read_history-rest zero before read rest whole kept enough = absurd (omega arith)
  read_history-rest (suc fuel) before read [] whole kept enough =
      read_history-step rowid conversation limit db fuel before
      ∙ rw (page_rows, kept, clamp-positive.1, no_next) refl
  read_history-rest (suc fuel) before read (x ∷ xs) whole kept enough =
      let (m, size) = clamp-positive in
      let (first, y, after, parts, page, end, less) = take-parts m x xs in
      let rows : page_rows rowid conversation before limit db ≡ first ++ (y ∷ []) =
        rw (kept, size) page in
      let bound : last (page_rows rowid conversation before limit db) ≡ some y =
        rw (kept, size) end in
      let split : newest rowid conversation db ≡ (read ++ first) ++ (y ∷ after) =
        whole ∙ ap (◌++◌ read) parts ∙ sym (append_assoc read first (y ∷ after)) in
      let (remains, next) =
        next_cursor_of-after (page_rows rowid conversation before limit db) (read ++ first) y after
          bound split in
      read_history-step rowid conversation limit db fuel before
      ∙ rw (next, rows)
          (elim (List-cases after) [
            | inl e ↦ rw e (ap some (ap reversed (sym (parts ∙ ap (λ ts. first ++ (y ∷ ts)) e))))
            | inr (u, us, e) ↦
                let older =
                  read_history-rest fuel (some (cursor_of rowid y)) ((read ++ first) ++ (y ∷ []))
                    after (split ∙ sym (append_assoc (read ++ first) (y ∷ []) after)) remains
                    (omega arith) in
                rw e (
                  read_on-some rowid conversation limit db fuel (cursor_of rowid y) (reversed after)
                    _ older
                  ∙ ap some (
                      sym (reversed-append (first ++ (y ∷ [])) after)
                      ∙ ap reversed (append_assoc first (y ∷ []) after ∙ sym parts)))
          ])

all_before : (rowid : Turn → ℕ) (ts : List Turn) → keep (is_before rowid none) ts ≡ ts
all_before rowid [] = refl
all_before rowid (t ∷ ts) = ap (◌∷◌ t) (all_before rowid ts)

-- Where no two turns have one rowid and the tables do not change meanwhile, a client that begins
-- without a cursor and follows next_cursor to the end, with pages of any limit, reads all turns of the
-- conversation, each once and oldest first, in no more requests than the conversation has turns and
-- one.
pub read_history-whole :
    (rowid : Turn → ℕ) (conversation : String) (limit : ℕ) (db : Tables)
    → RowidsDiffer rowid (values db.turns)
    → read_history rowid conversation limit db (suc (length (newest rowid conversation db))) none
      ≡ some (reversed (newest rowid conversation db))
read_history-whole rowid conversation limit db differ =
    let all = newest rowid conversation db in
    read_history-rest rowid conversation limit db (newest-Ordered rowid conversation db differ)
      (suc (length all)) none [] all refl (all_before rowid all) (omega arith)
