-- ===== src/Conversation/Model.antt =====
-- gateway/conversation/models.py: the records, and the tables that hold them. All times in these
-- tables are written by utc_now in one format, so that they compare as the readings they denote.
use learn_agent.Prelude.{ℕ, String, Option, List, [], ◌∷◌, Bool, insert, concat}
use learn_agent.Conversation.TurnStatus.{TurnStatus}
use learn_agent.Conversation.NodeType.{TurnNodeType}
use learn_agent.Conversation.QueueStatus.{QueueItemStatus}
use learn_agent.Conversation.ApprovalStatus.{ApprovalStatus}

pub record ImageRef : Type 0 where
  pub ref : String
  pub media_type : String
  pub node_id : String
  pub size : ℕ

-- An image of the queue's envelope: base64 data and its type.
pub record Image : Type 0 where
  pub content : String
  pub media_type : String

-- The JSON values that stand in the metadata of nodes.
pub data Value : Type 0 where
  words : String → Value
  flag : Bool → Value
  amount : ℕ → Value
  pictures : List ImageRef → Value

abbrev pub Metadata : Type 0
Metadata = List (String × Value)

-- {**old, **new}
unfoldable pub merge : Metadata → Metadata → Metadata
merge old [] = old
merge old ((key, value) ∷ rest) = merge (insert key value old) rest

pub record ConversationSession : Type 0 where
  pub conversation_id : String
  pub session_key : String
  pub origin : String
  pub subtype : String
  pub execution_scope : String
  pub workspace_id : Option String
  -- route_metadata["channel"]; its other keys are not read here
  pub channel : Option String
  pub session_version : ℕ
  pub created_at : ℕ
  pub updated_at : ℕ

pub record Turn : Type 0 where
  pub turn_id : String
  pub conversation_id : String
  pub status : TurnStatus
  pub turn_version : ℕ
  pub runtime_snapshot_id : Option String
  pub started_at : ℕ
  pub finished_at : Option ℕ
  pub final_assistant_node_id : Option String
  pub error_code : Option String
  pub parent_conversation_id : Option String
  pub parent_turn_id : Option String

pub record TurnNode : Type 0 where
  pub node_id : String
  pub conversation_id : String
  pub node_type : TurnNodeType
  pub position : Option ℕ
  pub status : String
  pub turn_id : Option String
  pub body : Option String
  pub metadata : Metadata
  pub source_channel : Option String
  pub source_message_id : Option String
  pub sender_id : Option String
  pub sender_name : Option String
  pub created_at : ℕ
  pub updated_at : ℕ
  pub text_seq : ℕ

pub record QueueItem : Type 0 where
  pub queue_item_id : String
  pub conversation_id : String
  pub position : ℕ
  pub revision : ℕ
  pub status : QueueItemStatus
  pub body : String
  pub target_turn_id : Option String
  pub created_turn_id : Option String
  pub created_node_id : Option String
  pub operation_id : Option String
  pub created_at : ℕ
  pub updated_at : ℕ
  pub images : List Image

-- What an operation recorded under its operation_id: the ids of the dictionary `result`.
pub record Outcome : Type 0 where
  pub queue_item_id : Option String
  pub turn_id : Option String
  pub node_id : Option String

pub record IdempotencyRecord : Type 0 where
  pub conversation_id : String
  pub request_hash : String
  pub result : Outcome
  pub created_at : ℕ

-- The values in the data of an event.
pub data Datum : Type 0 where
  absent : Datum
  plain : Value → Datum
  turn_state : TurnStatus → Datum
  item_state : QueueItemStatus → Datum
  approval_state : ApprovalStatus → Datum
  kind : TurnNodeType → Datum
  listed : List String → Datum
  queue : List QueueItem → Datum
  counts : List (String × ℕ) → Datum

pub record Payload : Type 0 where
  pub conversation_id : String
  pub session_key : String
  pub origin : String
  pub subtype : String
  pub workspace_id : Option String
  pub scope : String
  pub version : ℕ
  pub turn_id : Option String
  pub data_of : List (String × Datum)

-- A row of outbox_events, with the columns of the claim.
pub record OutboxEvent : Type 0 where
  pub conversation_id : String
  pub event_type : String
  pub scope : String
  pub version : ℕ
  pub payload : Payload
  pub created_at : ℕ
  pub published_at : Option ℕ
  pub claimed_by : Option String
  pub claim_expires_at : Option ℕ

pub record ToolResult : Type 0 where
  pub conversation_id : String
  pub turn_id : String
  pub node_id : Option String
  pub result_kind : String
  pub size_bytes : ℕ
  pub lines : ℕ
  pub content_type : Option String
  pub summary : Metadata
  pub truncation_reason : Option String
  pub created_at : ℕ

pub record Approval : Type 0 where
  pub approval_id : String
  pub conversation_id : String
  pub turn_id : String
  pub node_id : Option String
  pub tool_name : String
  pub params_summary : String
  pub status : ApprovalStatus
  pub created_at : ℕ
  pub resolved_at : Option ℕ
  pub resolved_by : Option String

-- Its key is the pair of channel and message.
pub record Receipt : Type 0 where
  pub channel : String
  pub message_id : String
  pub conversation_id : String
  pub created_at : ℕ

-- The tables, each under its primary key, in the order of insertion (`rowid`).
pub record Tables : Type 0 where
  pub conversations : List (String × ConversationSession)
  pub turns : List (String × Turn)
  pub nodes : List (String × TurnNode)
  pub items : List (String × QueueItem)
  pub records : List (String × IdempotencyRecord)
  pub outbox : List (String × OutboxEvent)
  pub tool_results : List (String × ToolResult)
  pub approvals : List (String × Approval)
  pub receipts : List Receipt

abbrev pub empty_tables : Tables
empty_tables = record {
  conversations = [];
  turns = [];
  nodes = [];
  items = [];
  records = [];
  outbox = [];
  tool_results = [];
  approvals = [];
  receipts = [];
}

-- _gen_id: a prefix before what `secrets.token_hex` gives.
abbrev pub gen_id : String → String → String
gen_id front token = concat front token
