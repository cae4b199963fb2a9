-- ===== src/Agent/Loop.antt =====
-- backend/src/app/services/agent_loop.py: `_run_agent_loop`. The client of the Anthropic API is a
-- parameter: what a call streams and how it ends, for the messages that it is sent. Clock readings, sizes
-- and the timer's records, which only measure, are left out, and so is the snapshot of the process.
pub mod Turn
pub mod Stream
pub mod Pairing
use factorial.Prelude.{
  ℕ, zero, suc, ◌+◌, String, Bool, true, false, not, ◌||◌, Option, none, some, List, [], ◌∷◌, ◌++◌,
  str_eq, if◌then◌else◌,
}
use factorial.Config.{Settings}
use factorial.Pricing.{calculate_cost}
use factorial.Model.Json
use factorial.Model.Json.{Json, str, arr, obj, nil, end, entry}
use factorial.Agent.Interception.{RevealCounts, Stash, pre_dispatch, post_dispatch}
use factorial.Agent.Tools.{
  ProcessImprove, ToolResult, value, error, type_error_raised, is_local_tool, execute_tool_call,
}
pub use factorial.Agent.Conversation.{
  ToolUse, Block, text, tool_use, other_block, Response, ApiError, authentication, rate_limit,
  unavailable, unexpected, StreamEvent, text_delta, other_event, Ending, final_message, raises,
  ApiCall, ResultBlock, Message, given, assistant, user, Meta, NewMessage, assistant_message,
  tool_results, Event, thinking, streaming, finalizing, done, token, plan, plan_update,
  calling_tool, tool_start, tool_result, error_event, unavailable_event, CallStatus, success,
  failure, CallRecord, State,
}

abbrev pub put : Event → State → State
put e s = record s { queue = s.queue ++ some e ∷ [] }

abbrev pub put_unless : Bool → Event → State → State
put_unless hidden e s = if hidden then s else put e s

abbrev pub or_no_items : Option Json → Json
or_no_items none = arr nil
or_no_items (some json) = json

-- What is shown before a tool runs.
unfoldable pub announce : ℕ → String → ToolUse → State → State
announce turn plan_id t s =
    if is_local_tool t.name
    then if str_eq t.name "record_plan"
      then put (plan plan_id (or_no_items (Json.lookup "steps" t.input)))
          (record s { current_plan_id = some plan_id })
      else if str_eq t.name "update_plan"
      then put (plan_update s.current_plan_id (or_no_items (Json.lookup "updates" t.input))) s
      else s
    else put (tool_start t.name t.input) (put (calling_tool t.name turn) s)

abbrev pub error_json : String → Json
error_json message = obj (entry "error" (str message) end)

abbrev pub add_record : ToolUse → ℕ → ℕ → CallStatus → State → State
add_record t turn order status s = record s {
  tool_call_records =
      s.tool_call_records
      ++ record {
        tool_use_id = t.id;
        tool_name = t.name;
        tool_input = t.input;
        agent_turn = turn;
        call_order = order;
        status = status;
      }
        ∷ [];
}

-- After the tool: what is shown, recorded, and sent back to the model; none where another exception than a tool error
-- leaves the `try`.
unfoldable pub settle : ToolUse → ℕ → ℕ → ToolResult → State → Option ResultBlock × State
settle t turn order (value json) s =
    let (shown, stash') = post_dispatch t.name json s.stash in
    (
      some (record { tool_use_id = t.id; content = shown; is_error = false }),
      add_record t turn order (success shown) (
          put_unless (is_local_tool t.name) (tool_result t.name shown)
            (record s { stash = stash' })),
    )
settle t turn order (error e) s = (
  some (record { tool_use_id = t.id; content = error_json e.message; is_error = true }),
  add_record t turn order (failure e.message)
      (put_unless (is_local_tool t.name) (tool_result t.name (error_json e.message)) s),
)
settle t turn order type_error_raised s = (none, s)

abbrev pub add_result :
    ResultBlock → Option (List ResultBlock) × State → Option (List ResultBlock) × State
add_result r (none, s) = (none, s)
add_result r (some results, s) = (some (r ∷ results), s)

abbrev pub tool_uses : List Block → List ToolUse
tool_uses [] = []
tool_uses (text s ∷ blocks) = tool_uses blocks
tool_uses (tool_use t ∷ blocks) = t ∷ tool_uses blocks
tool_uses (other_block ∷ blocks) = tool_uses blocks

-- The blocks that are kept for the conversation's record.
abbrev pub content_dicts : List Block → List Block
content_dicts [] = []
content_dicts (text s ∷ blocks) = text s ∷ content_dicts blocks
content_dicts (tool_use t ∷ blocks) = tool_use t ∷ content_dicts blocks
content_dicts (other_block ∷ blocks) = content_dicts blocks

-- MAX_AGENT_TURNS
abbrev pub max_agent_turns : ℕ
max_agent_turns = 10

-- What the loop is given and does not change: the client, the tools, and the plan ids it draws.
pub record World : Type 0 where
  pub client : List Message → ApiCall
  pub settings : Settings
  pub process_improve : ProcessImprove
  pub is_space : ℕ → Bool
  pub plan_id : ℕ → ℕ → String
  pub force_reveal : Bool

pub data TurnEnd : Type 0 where
  finished again : State → TurnEnd
  failed : ApiError → State → TurnEnd

module _ (w : World) where
  unfoldable pub run_tool : ℕ → ℕ → ToolUse → State → Option ResultBlock × State
  run_tool turn order t s =
      let s1 = announce turn (w.plan_id turn order) t s in
      let (effective, counts) =
        pre_dispatch t.name t.input s1.stash.states s1.reveal_counts w.force_reveal in
      settle t turn order
        (execute_tool_call w.settings w.process_improve w.is_space t.name effective)
        (record s1 { reveal_counts = counts })

  unfoldable pub run_tools : ℕ → ℕ → List ToolUse → State → Option (List ResultBlock) × State
  run_tools turn order [] s = (some [], s)
  run_tools turn order (t ∷ ts) s =
      let (result, s1) = run_tool turn order t s in
      elim result [ none ↦ (none, s1) | some r ↦ add_result r (run_tools turn (order + 1) ts s1) ]

  -- The first text of a stream is announced.
  unfoldable pub stream : ℕ → Bool → List StreamEvent → State → State
  stream turn emitted [] s = s
  stream turn emitted (other_event ∷ events) s = stream turn emitted events s
  stream turn emitted (text_delta t ∷ events) s =
      stream turn true events (put (token t) (put_unless emitted (streaming turn) s))

  abbrev pub meta : Response → Meta
  meta r = record {
    input_tokens = r.input_tokens;
    output_tokens = r.output_tokens;
    stop_reason = r.stop_reason;
    model = r.model;
    cost = calculate_cost r.model r.input_tokens r.output_tokens;
  }

  abbrev pub append_response : Response → State → State
  append_response r s = record s {
    tracked = s.tracked ++ none ∷ [];
    messages = s.messages ++ assistant r.content ∷ [];
    new_messages = s.new_messages ++ assistant_message (content_dicts r.content) (meta r) ∷ [];
  }

  abbrev pub append_results : Option (List ResultBlock) × State → TurnEnd
  append_results (none, s) = failed unexpected s
  append_results (some results, s) = again (record s {
    messages = s.messages ++ user results ∷ [];
    new_messages = s.new_messages ++ tool_results results ∷ [];
  })

  abbrev pub no_tools : List ToolUse → Bool
  no_tools [] = true
  no_tools (t ∷ ts) = false

  unfoldable pub after_response : ℕ → Response → State → TurnEnd
  after_response turn r s =
      if not (str_eq r.stop_reason "tool_use") || no_tools (tool_uses r.content)
      then finished (put done (put finalizing s))
      else append_results (run_tools turn 1 (tool_uses r.content) s)

  unfoldable pub after_stream : ℕ → Ending → State → TurnEnd
  after_stream turn (final_message r) s = after_response turn r (append_response r s)
  after_stream turn (raises e) s = failed e s

  -- One round of the `while`.
  unfoldable pub take_turn : ℕ → State → TurnEnd
  take_turn turn s =
      let call = w.client s.messages in
      after_stream turn call.ending (stream turn false call.events (put (thinking turn) s))

  -- The `except` clauses.
  unfoldable pub handle : ApiError → State → State
  handle authentication s = put (error_event "Invalid Anthropic API key.") s
  handle rate_limit s = put (error_event "Anthropic rate limit exceeded. Please retry later.") s
  handle (unavailable name detail) s =
      put
        (unavailable_event "The AI service is currently unavailable. Please try again in a moment."
          detail)
        (record s { tracked = s.tracked ++ some name ∷ [] })
  handle unexpected s = put (error_event "Internal error in agent loop.") s

  -- The `while` with its `else`, by the number of turns that are left.
  unfoldable pub turns : ℕ → ℕ → State → State
  turns zero turn s = put (error_event "Agent loop exceeded 10 iterations.") s
  turns (suc left) turn s = elim (take_turn turn s) [
    | finished s' ↦ s'
    | again s' ↦ turns left (turn + 1) s'
    | failed e s' ↦ handle e s'
  ]

  abbrev pub start : List Message → RevealCounts → Stash → State
  start messages counts stash = record {
    queue = [];
    messages = messages;
    new_messages = [];
    tool_call_records = [];
    tracked = [];
    current_plan_id = none;
    reveal_counts = counts;
    stash = stash;
  }

  -- The `finally` clause puts the sentinel.
  unfoldable pub run_agent_loop : List Message → RevealCounts → Stash → State
  run_agent_loop messages counts stash =
      let s = turns max_agent_turns 1 (start messages counts stash) in
      record s { queue = s.queue ++ none ∷ [] }
