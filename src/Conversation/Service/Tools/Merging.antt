-- ===== src/Conversation/Service/Tools/Merging.antt =====
-- gateway/conversation/service.py: the events of one tool call gather in one node.
use learn_agent.Prelude.{
  ℕ, ◌≡◌, ◌≢◌, refl, String, Option, none, some, List, [], ◌∷◌, arith, ◌>>=◌, Post, Post-of,
  Post-ok, Post-bind, Post-skip, ap, ◌∙◌, lookup, insert, update, lookup-insert, lookup-update, ok,
  eq_iff, eq_refl, length,
}
use learn_agent.Conversation.Model.{
  ConversationSession, Datum, TurnNode, Tables, Metadata, merge, Value, words,
}
use learn_agent.Conversation.Store.Turns.{coalesce, bump_turn_version, get_conversation}
use learn_agent.Conversation.Service.Turns.{assert_turn_owned}
use learn_agent.Conversation.Store.Nodes.{
  update_node, write_node, set_default, change_node, NodeChange,
}
use learn_agent.Conversation.Service.Events.{Pending, append_and_emit}
use learn_agent.Conversation.Service.Effects.{append_and_emit-Announced}
use learn_agent.Conversation.Service.Tools.{
  ToolEvent, tool_data, fields_of, gen_node_id_from_call, write_tool, upsert_tool_node,
}

coalesce-one :
    (key other : String) (a : Option Value) (v : Value) (rows : Metadata)
    → coalesce a (lookup other (insert key v rows))
      ≡ coalesce (coalesce a (lookup other (insert key v []))) (lookup other rows)
coalesce-one key other (some x) v rows = refl
coalesce-one key other none v rows = ground (arith, lookup-insert key other v rows)

-- A later value is found, else the earlier one.
pub lookup-merge :
    (key : String) (new old : Metadata)
    → lookup key (merge old new) ≡ coalesce (lookup key (merge [] new)) (lookup key old)
unfolding merge
lookup-merge key [] old = refl
lookup-merge key ((j, v) ∷ new) old =
    rw
      (
        lookup-merge key new (insert j v old),
        lookup-merge key new (insert j v []),
        coalesce-one j key (lookup key (merge [] new)) v old,
      )
      refl

length-update :
    (key : String) (f : TurnNode → TurnNode) (rows : List (String × TurnNode))
    → length (update key f rows) ≡ length rows
length-update key f [] = refl
length-update key f ((j, v) ∷ rows) = ground (arith, length-update key f rows)

lookup-set_default :
    (key call_id : String) (m : Metadata)
    → key ≢ "call_id"
    → lookup key (set_default "call_id" (words call_id) m) ≡ lookup key m
lookup-set_default key call_id m other =
    ground (arith, lookup-insert "call_id" key (words call_id) m, eq_iff "call_id" key)

-- What an event leaves of a node: its status, and the fields by the last event that gave them.
module _ (clock : ℕ) (conversation turn call_id id : String) (e : ToolEvent) (db : Tables)
    (old : TurnNode) (found : lookup id db.nodes ≡ some old) where
  write_tool_lem :
      (node : TurnNode) (m : Metadata) (db' : Tables)
      → write_tool clock conversation turn call_id id e db ≡ ok (node, m, db')
      → (lookup id db'.nodes ≡ some node)
        × (node.status ≡ e.status)
        × (node.metadata ≡ merge (set_default "call_id" (words call_id) old.metadata) (fields_of e))
        × (length db'.nodes ≡ length db.nodes)
  unfolding write_tool update_node write_node
  write_tool_lem node m db' h =
      let m' = merge (set_default "call_id" (words call_id) old.metadata) (fields_of e) in
      let change : NodeChange = record {
        body = none;
        status = some e.status;
        metadata = some m';
      } in
      let row : lookup id (update id (change_node clock change) db.nodes)
          ≡ some (change_node clock change old) =
        ground (arith, lookup-update id id (change_node clock change) db.nodes, eq_refl id) in
      let size = length-update id (change_node clock change) db.nodes in
      (ground arith, ground arith, ground arith, ground arith)

-- A node, and what the event left of it.
abbrev pub Merged : String → String → ToolEvent → Tables → TurnNode → TurnNode → Tables → Type 0
Merged key id e db old node db' =
    (lookup id db'.nodes ≡ some node)
    × (length db'.nodes ≡ length db.nodes)
    × (node.status ≡ e.status)
    × (lookup key node.metadata
        ≡ coalesce (lookup key (merge [] (fields_of e))) (lookup key old.metadata))

module _ (clock : ℕ) (conversation turn call_id id key : String) (e : ToolEvent) (db : Tables)
    (old : TurnNode) (found : lookup id db.nodes ≡ some old) (other : key ≢ "call_id") where
  write_tool-Merged :
      Post
        (λ (out : TurnNode × Metadata × Tables). Merged key id e db old out.0 out.2)
        (write_tool clock conversation turn call_id id e db)
  write_tool-Merged =
      Post-of (λ (out : TurnNode × Metadata × Tables). Merged key id e db old out.0 out.2) _
        (λ out h.
          let (row, status, fields, size) =
            write_tool_lem clock conversation turn call_id id e db old found out.0 out.1 out.2 h in
          let kept = set_default "call_id" (words call_id) old.metadata in
          (
            row,
            size,
            status,
            ap (lookup key) fields
                ∙ lookup-merge key (fields_of e) kept
                ∙ ap (coalesce (lookup key (merge [] (fields_of e))))
                    (lookup-set_default key call_id old.metadata other),
          ))

-- The event that is announced changes no node.
said-Merged :
    (clock : ℕ) (token : String) (conv : ConversationSession) (version : ℕ) (turn : String)
    (data_of : List (String × Datum)) (id key : String) (e : ToolEvent) (db : Tables)
    (old node : TurnNode) (db₁ db₂ : Tables)
    → db₂.nodes ≡ db₁.nodes
    → Merged key id e db old node db₁
    → Post
        (λ (out : TurnNode × Pending × Tables). Merged key id e db old out.0 out.2)
        (append_and_emit clock token conv "node.tool" "turn" version (some turn) data_of ([], db₂)
          >>= λ (said : Pending × Tables). ok (node, said.0, said.1))
said-Merged clock token conv version turn data_of id key e db old node db₁ db₂ kept merged =
    Post-bind (λ (out : TurnNode × Pending × Tables). Merged key id e db old out.0 out.2)
      (λ (said : Pending × Tables). said.1.nodes ≡ db₁.nodes)
      (append_and_emit clock token conv "node.tool" "turn" version (some turn) data_of ([], db₂))
      (λ (said : Pending × Tables). ok (node, said.0, said.1))
      (Post-of (λ (said : Pending × Tables). said.1.nodes ≡ db₁.nodes) _
        (λ said announced.
          (append_and_emit-Announced clock token conv data_of [] said.0 db₂ said.1 "node.tool"
            "turn" version (some turn) announced).0.same_nodes
          ∙ kept))
      (λ said same. (ap (lookup id) same ∙ merged.0, ap length same ∙ merged.1, merged.2, merged.3))

pub upsert_tool_node-Merged :
    (digest : String → String) (clock : ℕ) (ids : ℕ → String) (conversation turn call_id : String)
    (e : ToolEvent) (db db' : Tables) (old node : TurnNode) (events : Pending) (key : String)
    → lookup (gen_node_id_from_call digest call_id conversation) db.nodes ≡ some old
    → key ≢ "call_id"
    → upsert_tool_node digest clock ids conversation turn call_id e db ≡ ok (node, events, db')
    → Merged key (gen_node_id_from_call digest call_id conversation) e db old node db'
unfolding upsert_tool_node bump_turn_version
upsert_tool_node-Merged digest clock ids conversation turn call_id e db db' old node events key
      found other h =
    let id = gen_node_id_from_call digest call_id conversation in
    Post-ok (λ (out : TurnNode × Pending × Tables). Merged key id e db old out.0 out.2) _ _ h
      (Post-skip (λ (out : TurnNode × Pending × Tables). Merged key id e db old out.0 out.2)
        (get_conversation conversation db) _
        (λ conv.
          Post-skip (λ (out : TurnNode × Pending × Tables). Merged key id e db old out.0 out.2)
            (assert_turn_owned conversation turn db) _
            (λ v.
              Post-bind (λ (out : TurnNode × Pending × Tables). Merged key id e db old out.0 out.2)
                (λ (out : TurnNode × Metadata × Tables). Merged key id e db old out.0 out.2) _ _
                (write_tool-Merged clock conversation turn call_id id key e db old found other)
                (λ out merged.
                  said-Merged clock (ids 0) conv (bump_turn_version turn out.2).0 turn
                    (tool_data out.0 call_id e out.1) id key e db old out.0 out.2
                    (bump_turn_version turn out.2).1 refl merged))))
