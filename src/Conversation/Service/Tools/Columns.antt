-- ===== src/Conversation/Service/Tools/Columns.antt =====
-- gateway/conversation/service.py: what the events of one tool call say, column by column of its card.
use learn_agent.Prelude.{
  ℕ, zero, suc, ◌≡◌, ◌≢◌, refl, sym, ◌++◌, ◌==◌, if◌then◌else◌, eqb, false, Bool-cases, inl, inr,
  String, Option, none, some, [], ◌∷◌, arith, ap, ◌∙◌, lookup, insert, ok, length,
}
use learn_agent.Conversation.Model.{TurnNode, Tables, Metadata, merge, Value, words, amount}
use learn_agent.Conversation.Store.Turns.{coalesce}
use learn_agent.Conversation.Service.Events.{Pending}
use learn_agent.Conversation.Service.Tools.{
  ToolEvent, fields_of, given, sized, gen_node_id_from_call, upsert_tool_node,
}
use learn_agent.Conversation.Service.Tools.Merging.{lookup-merge, upsert_tool_node-Merged}

-- The columns of a tool's card, which an event may give.
pub data Column : Type 0 where
  params result failure code note reference size name : Column

abbrev pub key_of : Column → String
key_of params = "params_summary"
key_of result = "result_summary"
key_of failure = "error"
key_of code = "error_code"
key_of note = "error_message"
key_of reference = "result_ref"
key_of size = "result_size_bytes"
key_of name = "tool"

abbrev pub worded : Option String → Option Value
worded none = none
worded (some t) = some (words t)

abbrev pub counted : ℕ → Option Value
counted zero = none
counted (suc n) = some (amount (suc n))

-- What an event gives for a column: nothing for an argument that is None, or a size of zero.
abbrev pub gives : Column → ToolEvent → Option Value
gives params e = worded e.params_summary
gives result e = worded e.result_summary
gives failure e = worded e.error
gives code e = worded e.error_code
gives note e = worded e.error_message
gives reference e = worded e.result_ref
gives size e = counted e.result_size_bytes
gives name e = worded e.tool_name

abbrev at_key : String → String → Option Value → Option Value
at_key k key o = if k == key then o else none

coalesce-none : {A : Type 0} (o : Option A) → coalesce o none ≡ o
coalesce-none none = refl
coalesce-none (some a) = refl

merge-append : (old a b : Metadata) → merge old (a ++ b) ≡ merge (merge old a) b
unfolding merge
merge-append old [] b = refl
merge-append old ((k, v) ∷ a) b = merge-append (insert k v old) a b

lookup-merge-append :
    (key : String) (a b : Metadata)
    → lookup key (merge [] (a ++ b)) ≡ coalesce (lookup key (merge [] b)) (lookup key (merge [] a))
lookup-merge-append key a b =
    ap (lookup key) (merge-append [] a b) ∙ lookup-merge key b (merge [] a)

at_key-none : (k key : String) → at_key k key none ≡ none
at_key-none k key = ground arith

lookup-given :
    (key k : String) (o : Option String)
    → lookup key (merge [] (given k o)) ≡ at_key k key (worded o)
unfolding merge
lookup-given key k none = sym (at_key-none k key)
lookup-given key k (some t) = refl

lookup-sized :
    (key : String) (n : ℕ)
    → lookup key (merge [] (sized n)) ≡ at_key "result_size_bytes" key (counted n)
unfolding merge
lookup-sized key zero = sym (at_key-none "result_size_bytes" key)
lookup-sized key (suc n) = rw (let nonzero : eqb (suc n) 0 ≡ false = ground arith in nonzero) refl

lookup_unnamed :
    (key : String) (extra : Metadata) → lookup key extra ≡ none → lookup key (merge [] extra) ≡ none
unfolding merge
lookup_unnamed key [] h = refl
lookup_unnamed key ((k, v) ∷ extra) h = elim (Bool-cases (k == key)) [
  | inl e ↦ absurd (cc (rw e at h))
  | inr e ↦
      rw (lookup-merge key extra (insert k v []), lookup_unnamed key extra (rw e at h), e) refl
]

-- Of the values under the keys of all columns the one of a column is found.
picked :
    (c : Column) (e : ToolEvent)
    → coalesce (at_key "result_size_bytes" (key_of c) (counted e.result_size_bytes)) (
        coalesce (at_key "result_ref" (key_of c) (worded e.result_ref)) (
          coalesce (at_key "error_message" (key_of c) (worded e.error_message)) (
            coalesce (at_key "error_code" (key_of c) (worded e.error_code)) (
              coalesce (at_key "error" (key_of c) (worded e.error)) (
                coalesce (at_key "result_summary" (key_of c) (worded e.result_summary)) (
                  coalesce
                    (at_key "params_summary" (key_of c) (worded e.params_summary))
                    (at_key "tool" (key_of c) (worded e.tool_name))))))))
      ≡ gives c e
picked params e = coalesce-none (worded e.params_summary)
picked result e = coalesce-none (worded e.result_summary)
picked failure e = coalesce-none (worded e.error)
picked code e = coalesce-none (worded e.error_code)
picked note e = coalesce-none (worded e.error_message)
picked reference e = coalesce-none (worded e.result_ref)
picked size e = coalesce-none (counted e.result_size_bytes)
picked name e = refl

-- What the code writes under a column's key is what the event gives.
lookup-fields_of :
    (c : Column) (e : ToolEvent)
    → lookup (key_of c) e.extra_metadata ≡ none
    → lookup (key_of c) (merge [] (fields_of e)) ≡ gives c e
unfolding fields_of
lookup-fields_of c e h =
    let key = key_of c in
    rw
      (
        lookup-merge-append key _ e.extra_metadata,
        lookup_unnamed key e.extra_metadata h,
        lookup-merge-append key _ (sized e.result_size_bytes),
        lookup-sized key e.result_size_bytes,
        lookup-merge-append key _ (given "result_ref" e.result_ref),
        lookup-given key "result_ref" e.result_ref,
        lookup-merge-append key _ (given "error_message" e.error_message),
        lookup-given key "error_message" e.error_message,
        lookup-merge-append key _ (given "error_code" e.error_code),
        lookup-given key "error_code" e.error_code,
        lookup-merge-append key _ (given "error" e.error),
        lookup-given key "error" e.error,
        lookup-merge-append key _ (given "result_summary" e.result_summary),
        lookup-given key "result_summary" e.result_summary,
        lookup-merge-append key _ (given "params_summary" e.params_summary),
        lookup-given key "params_summary" e.params_summary,
        lookup-given key "tool" e.tool_name,
      )
      (picked c e)

key_differs : (c : Column) → key_of c ≢ "call_id"
key_differs params e = cc
key_differs result e = cc
key_differs failure e = cc
key_differs code e = cc
key_differs note e = cc
key_differs reference e = cc
key_differs size e = cc
key_differs name e = cc

-- A further event of a tool call whose node is stored leaves one node for the call: it has the
-- event's status, and each column that the event's extra metadata does not name has what the event
-- gives for it, and where the event gives nothing (None, or a size of zero), what it had before.
pub upsert_tool_node-merges :
    (digest : String → String) (clock : ℕ) (ids : ℕ → String) (conversation turn call_id : String)
    (e : ToolEvent) (db db' : Tables) (old node : TurnNode) (events : Pending) (c : Column)
    → lookup (gen_node_id_from_call digest call_id conversation) db.nodes ≡ some old
    → lookup (key_of c) e.extra_metadata ≡ none
    → upsert_tool_node digest clock ids conversation turn call_id e db ≡ ok (node, events, db')
    → (lookup (gen_node_id_from_call digest call_id conversation) db'.nodes ≡ some node)
      × (length db'.nodes ≡ length db.nodes)
      × (node.status ≡ e.status)
      × (lookup (key_of c) node.metadata ≡ coalesce (gives c e) (lookup (key_of c) old.metadata))
upsert_tool_node-merges digest clock ids conversation turn call_id e db db' old node events c found
      unnamed h =
    let (row, size_kept, status, column) =
      upsert_tool_node-Merged digest clock ids conversation turn call_id e db db' old node events
        (key_of c) found (key_differs c) h in
    (
      row,
      size_kept,
      status,
      column ∙ ap (λ o. coalesce o (lookup (key_of c) old.metadata)) (lookup-fields_of c e unnamed),
    )
