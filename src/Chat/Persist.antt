-- ===== src/Chat/Persist.antt =====
-- `_persist_new_messages` and `_persist_tool_calls`. How json.dumps writes a value is a parameter.
pub mod Sequence
pub mod Ordered
pub mod Rebuild
pub mod Links
use factorial.Prelude.{ℕ, ◌+◌, String, true, false, Option, none, some, List, [], ◌∷◌, ◌++◌}
use factorial.Prelude.Maps
use factorial.Prelude.Maps.{Map}
use factorial.Model.Json.{Json}
use factorial.Agent.Conversation.{
  ToolUse, Block, text, tool_use, other_block, ResultBlock, Meta, NewMessage, assistant_message,
  tool_results, CallRecord, CallStatus, success, failure,
}
use factorial.Chat.Rows.{Conversation, MessageRow, ToolCallRow}

-- What the loop holds: the next sequence, the rows that it added, and the map from a tool call to the
-- id of its row, as the object has it then.
pub record Persisted : Type 0 where
  pub seq : ℕ
  pub rows : List MessageRow
  pub message_ids : Map (Option ℕ)

abbrev pub blank_row : ℕ → ℕ → MessageRow
blank_row conversation_id seq = record {
  id = none;
  conversation_id = conversation_id;
  role = "assistant";
  content = "";
  sequence = seq;
  tool_use_id = none;
  tool_name = none;
  tool_input = none;
  is_tool_result = false;
  metrics = none;
}

-- The row of the user's message.
abbrev pub user_row : ℕ → ℕ → String → MessageRow
user_row conversation_id seq message = record (blank_row conversation_id seq) {
  role = "user";
  content = message;
}

abbrev pub add_row : MessageRow → Persisted → Persisted
add_row row p = record p { seq = p.seq + 1; rows = p.rows ++ row ∷ [] }

module _ (dumps : Json → String) (conversation_id : ℕ) where
  abbrev pub result_row : ResultBlock → ℕ → MessageRow
  result_row b seq = record (blank_row conversation_id seq) {
    role = "user";
    content = dumps b.content;
    tool_use_id = some b.tool_use_id;
    is_tool_result = true;
  }

  abbrev pub use_row : Meta → ToolUse → ℕ → MessageRow
  use_row meta t seq = record (blank_row conversation_id seq) {
    tool_use_id = some t.id;
    tool_name = some t.name;
    tool_input = some t.input;
    metrics = some meta;
  }

  abbrev pub text_row : Meta → String → ℕ → MessageRow
  text_row meta s seq = record (blank_row conversation_id seq) { content = s; metrics = some meta }

  unfoldable pub persist_results : List ResultBlock → Persisted → Persisted
  persist_results [] p = p
  persist_results (b ∷ bs) p = persist_results bs (add_row (result_row b p.seq) p)

  abbrev pub persist_block : Meta → Block → Persisted → Persisted
  persist_block meta (text s) p = add_row (text_row meta s p.seq) p
  persist_block meta (tool_use t) p =
      let row = use_row meta t p.seq in
      record (add_row row p) { message_ids = Maps.insert t.id row.id p.message_ids }
  persist_block meta other_block p = p

  unfoldable pub persist_blocks : Meta → List Block → Persisted → Persisted
  persist_blocks meta [] p = p
  persist_blocks meta (b ∷ bs) p = persist_blocks meta bs (persist_block meta b p)

  unfoldable pub persist_message : NewMessage → Persisted → Persisted
  unfolding persist_results persist_blocks
  persist_message (assistant_message bs meta) p = persist_blocks meta bs p
  persist_message (tool_results rs) p = persist_results rs p

  unfoldable pub persist_new_messages : List NewMessage → Persisted → Persisted
  unfolding persist_message
  persist_new_messages [] p = p
  persist_new_messages (m ∷ ms) p = persist_new_messages ms (persist_message m p)

abbrev tool_output : CallStatus → Option Json
tool_output (success json) = some json
tool_output (failure message) = none

abbrev error_message : CallStatus → Option String
error_message (success json) = none
error_message (failure message) = some message

abbrev status_text : CallStatus → String
status_text (success json) = "success"
status_text (failure message) = "error"

abbrev pub found_id : Option (Option ℕ) → Option ℕ
found_id none = none
found_id (some id) = id

module _ (conversation_id : ℕ) where
  unfoldable pub persist_tool_calls : List CallRecord → Map (Option ℕ) → List ToolCallRow
  persist_tool_calls [] message_ids = []
  persist_tool_calls (rec ∷ records) message_ids =
      record {
        conversation_id = conversation_id;
        message_id = found_id (Maps.lookup rec.tool_use_id message_ids);
        tool_use_id = rec.tool_use_id;
        tool_name = rec.tool_name;
        tool_input = rec.tool_input;
        tool_output = tool_output rec.status;
        status = status_text rec.status;
        error_message = error_message rec.status;
        agent_turn = rec.agent_turn;
        call_order = rec.call_order;
      }
      ∷ persist_tool_calls records message_ids

-- The totals of the conversation after a message; results carry no metrics.
abbrev add_metrics : NewMessage → Conversation → Conversation
add_metrics (assistant_message bs meta) c = record c {
  total_input_tokens = c.total_input_tokens + meta.input_tokens;
  total_output_tokens = c.total_output_tokens + meta.output_tokens;
  total_cost = c.total_cost + meta.cost.raw_cost_micro_usd;
  total_markup_cost = c.total_markup_cost + meta.cost.markup_cost;
}
add_metrics (tool_results rs) c = c

unfoldable pub add_totals : List NewMessage → Conversation → Conversation
add_totals [] c = c
add_totals (m ∷ ms) c = add_totals ms (add_metrics m c)
