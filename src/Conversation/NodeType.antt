-- ===== src/Conversation/NodeType.antt =====
-- gateway/conversation/models.py: the kinds of node in a turn.
use learn_agent.Prelude.{Bool, true, false}

pub data TurnNodeType : Type 0 where
  user reasoning tool assistant user_steering status image : TurnNodeType

-- type=?
abbrev pub same_type : TurnNodeType → TurnNodeType → Bool
same_type user user = true
same_type reasoning reasoning = true
same_type tool tool = true
same_type assistant assistant = true
same_type user_steering user_steering = true
same_type status status = true
same_type image image = true
same_type _ _ = false
