-- ===== src/Conversation/Store/Nodes/Streaming.antt =====
-- gateway/conversation/store.py: the text of a node that is streamed in pieces.
use learn_agent.Prelude.{
  ℕ, ◌+◌, ◌≡◌, refl, ap, sym, ◌∙◌, String, Option, none, some, List, [], ◌∷◌, arith, Result, ok,
  ◌>>=◌, lookup, update, lookup-update, eq_refl, length, concat, join, concat-empty, concat_assoc,
  map,
}
use learn_agent.Conversation.Model.{TurnNode, Tables}
use learn_agent.Conversation.Store.Nodes.{append_node_text, write_node, grow, appended}

-- append_node_text for one delta after the other, each at its reading of the clock.
unfoldable pub stream : List (ℕ × String) → String → Tables → Result Tables
stream [] id db = ok db
stream ((clock, delta) ∷ rest) id db = do
  (node, db₁) ← append_node_text clock id delta db
  stream rest id db₁

-- COALESCE(text, '')
abbrev pub text_of : Option String → String
text_of none = ""
text_of (some t) = t

abbrev pub texts : List (ℕ × String) → List String
texts = map (λ piece. piece.1)

append_node_text-lookup :
    (clock : ℕ) (id delta : String) (db : Tables) (old : TurnNode)
    → lookup id db.nodes ≡ some old
    → append_node_text clock id delta db
      ≡ ok (grow clock delta old, record db { nodes = update id (grow clock delta) db.nodes })
unfolding append_node_text write_node
append_node_text-lookup clock id delta db old found =
    rw (lookup-update id id (grow clock delta) db.nodes, eq_refl id, found) refl

appended-text :
    (body : Option String) (delta : String) → appended body delta ≡ concat (text_of body) delta
unfolding concat
appended-text none delta = refl
appended-text (some t) delta = refl

-- Streaming deltas into a node that is stored succeeds, and leaves it with the text that one write of the whole
-- would: its old text with all deltas after it, in order. text_seq has counted every delta, and the
-- node keeps its status and its kind.
pub stream_whole :
    (pieces : List (ℕ × String)) (id : String) (db : Tables) (old : TurnNode)
    → lookup id db.nodes ≡ some old
    → (db' : Tables) × (new : TurnNode) × (stream pieces id db ≡ ok db')
      × (lookup id db'.nodes ≡ some new)
      × (text_of new.body ≡ concat (text_of old.body) (join (texts pieces)))
      × (new.text_seq ≡ old.text_seq + length pieces)
      × (new.status ≡ old.status)
      × (new.node_type ≡ old.node_type)
unfolding stream
stream_whole [] id db old found =
    (db, old, refl, found, sym (concat-empty (text_of old.body)), omega arith, refl, refl)
stream_whole ((clock, delta) ∷ pieces) id db old found =
    let db₁ = record db { nodes = update id (grow clock delta) db.nodes } in
    let at_id : lookup id db₁.nodes ≡ some (grow clock delta old) =
      rw (lookup-update id id (grow clock delta) db.nodes, eq_refl id, found) refl in
    let (db', new, done, there, text, seq, status, type_of) =
      stream_whole pieces id db₁ (grow clock delta old) at_id in
    (
      db',
      new,
      rw (append_node_text-lookup clock id delta db old found) done,
      there,
      text
          ∙ ap (λ t. concat t (join (texts pieces))) (appended-text old.body delta)
          ∙ concat_assoc (text_of old.body) delta (join (texts pieces)),
      omega (arith, seq),
      status,
      type_of,
    )
