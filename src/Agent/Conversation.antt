-- ===== src/Agent/Conversation.antt =====
-- backend/src/app/services/agent_loop.py: what passes between the loop, the API, the queue and the caller,
-- and the variables of the loop. Labels and identifiers of the turn that are only copied are left out.
use factorial.Prelude.{Text, ℕ, String, Bool, Option, List}
use factorial.Pricing.{Cost}
use factorial.Model.Json.{Json, Dict}
use factorial.Agent.Interception.{RevealCounts, Stash}

pub record ToolUse : Type 0 where
  pub id : String
  pub name : String
  pub input : Dict

-- A block of a response; `other_block` is of a type that the loop passes over.
pub data Block : Type 0 where
  text : String → Block
  tool_use : ToolUse → Block
  other_block : Block

pub record Response : Type 0 where
  pub content : List Block
  pub stop_reason : String
  pub model : Text
  pub input_tokens : ℕ
  pub output_tokens : ℕ

-- The exceptions of a call, by the handler that takes them; `unavailable` is of one of the three classes
-- of errors of the connection and the server, with its name and its text.
pub data ApiError : Type 0 where
  authentication rate_limit : ApiError
  unavailable : String → String → ApiError
  unexpected : ApiError

pub data StreamEvent : Type 0 where
  text_delta : String → StreamEvent
  other_event : StreamEvent

pub data Ending : Type 0 where
  final_message : Response → Ending
  raises : ApiError → Ending

pub record ApiCall : Type 0 where
  pub events : List StreamEvent
  pub ending : Ending

pub record ResultBlock : Type 0 where
  pub tool_use_id : String
  pub content : Json
  pub is_error : Bool

-- The messages that a call is sent: those of the conversation, and those that the loop appends.
pub data Message : Type 0 where
  given : Json → Message
  assistant : List Block → Message
  user : List ResultBlock → Message

pub record Meta : Type 0 where
  pub input_tokens : ℕ
  pub output_tokens : ℕ
  pub stop_reason : String
  pub model : Text
  pub cost : Cost

pub data NewMessage : Type 0 where
  assistant_message : List Block → Meta → NewMessage
  tool_results : List ResultBlock → NewMessage

pub data Event : Type 0 where
  thinking streaming : ℕ → Event
  finalizing done : Event
  token : String → Event
  plan : String → Json → Event
  plan_update : Option String → Json → Event
  calling_tool : String → ℕ → Event
  tool_start : String → Dict → Event
  tool_result : String → Json → Event
  error_event : String → Event
  -- the message, and the text of the exception as its `detail`
  unavailable_event : String → String → Event

pub data CallStatus : Type 0 where
  success : Json → CallStatus
  failure : String → CallStatus

pub record CallRecord : Type 0 where
  pub tool_use_id : String
  pub tool_name : String
  pub tool_input : Dict
  pub agent_turn : ℕ
  pub call_order : ℕ
  pub status : CallStatus

-- What the loop's variables and the objects that it mutates hold. In the queue `none` is the sentinel;
-- `tracked` are the calls of the status tracker, `none` for a success.
pub record State : Type 0 where
  pub queue : List (Option Event)
  pub messages : List Message
  pub new_messages : List NewMessage
  pub tool_call_records : List CallRecord
  pub tracked : List (Option String)
  pub current_plan_id : Option String
  pub reveal_counts : RevealCounts
  pub stash : Stash
