-- ===== src/Conversation/Service/Images.antt =====
-- gateway/conversation/service.py: the images of a message, which send_next turns into nodes.
use learn_agent.Prelude.{
  ℕ, ◌+◌, String, Option, none, some, List, [], ◌∷◌, Result, ok, ◌>>=◌, concat, prefix,
}
use learn_agent.Conversation.NodeType.{image}
use learn_agent.Conversation.Model.{
  ConversationSession, TurnNode, Image, ImageRef, Tables, Datum, plain, words, amount, pictures,
  kind, merge,
}
use learn_agent.Conversation.Store.Turns.{bump_turn_version}
use learn_agent.Conversation.Store.Nodes.{NewNode, plain_node, create_node, update_node}
use learn_agent.Conversation.Service.Events.{Pending, append_and_emit}

-- What the image store answers to `save`: the reference, the type and the size.
pub record Saved : Type 0 where
  pub ref : String
  pub media_type : String
  pub size : ℕ

-- `self.image_store`, and what its `save` answers: nothing where it raises.
abbrev pub ImageStore : Type 0
ImageStore = Option (String → Image → Option Saved)

abbrev pub image_node : String → Saved → NewNode
image_node turn saved = record (plain_node image "done" (some turn) (some "")) {
  metadata =
      ("ref", words saved.ref)
      ∷ ("media_type", words saved.media_type)
      ∷ ("size", amount saved.size)
      ∷ ("call_id", words (concat "img-" (prefix 16 saved.ref)))
      ∷ [];
}

abbrev ref_of : String → Saved → ImageRef
ref_of node saved = record {
  ref = saved.ref;
  media_type = saved.media_type;
  node_id = node;
  size = saved.size;
}

abbrev image_data : TurnNode → Saved → List (String × Datum)
image_data node saved =
    ("node_id", plain (words node.node_id))
    ∷ ("type", kind image)
    ∷ ("status", plain (words "done"))
    ∷ ("position", elim node.position [ none ↦ Datum.absent | some p ↦ plain (amount p) ])
    ∷ ("ref", plain (words saved.ref))
    ∷ ("media_type", plain (words saved.media_type))
    ∷ ("size", plain (amount saved.size))
    ∷ []

-- One image of the envelope: its node, and the event node.image.
unfoldable pub add_image :
    ℕ
    → String
    → String
    → ConversationSession
    → String
    → Saved
    → Pending × Tables
    → Result (ImageRef × Pending × Tables)
add_image clock token event_token conv turn saved (events, db) = do
  (node, db₁) ← create_node clock token conv.conversation_id (image_node turn saved) db
  let (version, db₂) = bump_turn_version turn db₁
  (more, db₃) ←
      append_and_emit clock event_token conv "node.image" "turn" version (some turn)
        (image_data node saved) (events, db₂)
  ok (ref_of node.node_id saved, more, db₃)

-- The loop over head.images: an image that cannot be saved is left out. `n` counts the ids used.
unfoldable pub add_images :
    ℕ
    → (ℕ → String)
    → ℕ
    → (String → Image → Option Saved)
    → ConversationSession
    → String
    → List Image
    → Pending × Tables
    → Result (List ImageRef × Pending × Tables)
add_images clock ids n save conv turn [] (events, db) = ok ([], events, db)
add_images clock ids n save conv turn (img ∷ imgs) (events, db) =
    elim (save conv.conversation_id img) [
      | none ↦ add_images clock ids n save conv turn imgs (events, db)
      | some saved ↦ do
        (ref, events₁, db₁) ← add_image clock (ids n) (ids (n + 1)) conv turn saved (events, db)
        (refs, events₂, db₂) ← add_images clock ids (n + 2) save conv turn imgs (events₁, db₁)
        ok (ref ∷ refs, events₂, db₂)
    ]

-- The envelope of the head: nodes for its images, and their references on the user node.
unfoldable pub consume_images :
    ℕ
    → (ℕ → String)
    → ImageStore
    → ConversationSession
    → String
    → TurnNode
    → List Image
    → Tables
    → Result (TurnNode × Pending × Tables)
consume_images clock ids none conv turn node images db = ok (node, [], db)
consume_images clock ids (some save) conv turn node images db = do
  (refs, events, db₁) ← add_images clock ids 4 save conv turn images ([], db)
  elim refs [
    | [] ↦ ok (node, events, db₁)
    | ref ∷ more ↦ do
      let metadata = merge node.metadata (("images", pictures (ref ∷ more)) ∷ [])
      (updated, db₂) ←
          update_node clock node.node_id
            (record { body = none; status = none; metadata = some metadata }) db₁
      ok (updated, events, db₂)
  ]
