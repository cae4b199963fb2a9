-- ===== src/Chat/Rows.antt =====
-- backend/src/app/models/conversation.py. What the models only measure (latency, memory, times of
-- tool calls) is left out; amounts of money are in the units of Pricing.
use factorial.Prelude.{Text, ℕ, String, Bool, Option, List}
use factorial.Model.Json.{Json, Dict}
use factorial.Agent.Conversation.{Meta}
use factorial.Database.{Database}

pub record Conversation : Type 0 where
  pub id : ℕ
  pub user_id : ℕ
  pub title : String
  pub model_key : String
  pub system_prompt : Text
  pub total_input_tokens : ℕ
  pub total_output_tokens : ℕ
  pub message_count : ℕ
  pub total_cost : ℕ
  pub total_markup_cost : ℕ

-- A row of `messages`. The database makes the id at the flush: before it, `id` is None. `metrics` are
-- the columns that a text or a tool call of the model has beside its content.
pub record MessageRow : Type 0 where
  pub id : Option ℕ
  pub conversation_id : ℕ
  pub role : String
  pub content : String
  pub sequence : ℕ
  pub tool_use_id : Option String
  pub tool_name : Option String
  pub tool_input : Option Dict
  pub is_tool_result : Bool
  pub metrics : Option Meta

pub record ToolCallRow : Type 0 where
  pub conversation_id : ℕ
  pub message_id : Option ℕ
  pub tool_use_id : String
  pub tool_name : String
  pub tool_input : Dict
  pub tool_output : Option Json
  pub status : String
  pub error_message : Option String
  pub agent_turn : ℕ
  pub call_order : ℕ

-- The tables of the chat, beside those of the other services.
pub record Store : Type 0 where
  pub db : Database
  pub conversations : List Conversation
  pub messages : List MessageRow
  pub tool_calls : List ToolCallRow
