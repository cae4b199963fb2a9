-- ===== src/Chat/Tests.antt =====
-- A turn of a conversation at small inputs.
use factorial.Prelude.{
  Text, codes, ℕ, ◌+◌, String, ◌≡◌, refl, ap, ◌⊎◌, Bool, true, false, not, Option, none, some, List,
  [], ◌∷◌, ◌++◌, map, arith, ◌==◌, All,
}
use factorial.Prelude.Sorting.{insert_by, sort_by}
use factorial.Config.{default_settings}
use factorial.Model.Json.{null, obj, end}
use factorial.Database.{empty}
use factorial.Agent.Tools.{ProcessImprove, returned}
use factorial.Agent.Loop.{
  Block, text, tool_use, ApiCall, final_message, text_delta, Message, given, token, done,
  CallRecord, success, NewMessage, World, run_agent_loop,
}
use factorial.Chat.Rows.{Conversation, ToolCallRow, Store}
use factorial.Chat.History.{whole, group, build_messages_from_history}
use factorial.Chat.Persist.{persist_new_messages, persist_tool_calls}
use factorial.Chat.Persist.Rebuild.{turn_rows, api_of, build_messages-persist_new_messages}
use factorial.Chat.Persist.Links.{persist_tool_calls-unlinked}
use factorial.Chat.Prompt.{background_clause, detail_level_clause, with_detail, build_system_prompt}
use factorial.Chat.Prompt.Clean.{IsLabel, build_system_prompt-clean}
use factorial.Chat.Events.{
  ChatEvent, conversation_started, agent_event, experiment_created, EventRow, new_stream,
  persist_chat_event, flush_token_buffer, emit, emit_all, is_terminal_type, replayed_rows,
  replay_events,
}
use factorial.Chat.Events.Shown.{shown, shown_text, after}
use factorial.Chat.Events.Sent.{events_of, emitted}
use factorial.Chat.Events.Replay.{replayed_rows-emit_all, replay_events-emit}
use factorial.Chat.Persist.Sequence.{Numbered}
use factorial.Chat.Turn.{
  rows_in, Request, Surroundings, load_history, new_conversation, persist_user_message,
}
use factorial.Chat.Run.{run_chat}
use factorial.Chat.Run.Refusal.{run_chat-refused}
use factorial.Chat.Run.Atomic.{IsUserRow, IsGivenUp, IsSaved, for_api, run_chat-Ends}
use factorial.Chat.Run.Counts.{AreCounted}
use factorial.Chat.Run.MessageCount.{IsCounted, run_chat-IsCounted}

abbrev all_work : ℕ → Bool
all_work n = true

abbrev saying : String → ChatEvent × Bool
saying s = (agent_event (token s), false)

abbrev events : List (ChatEvent × Bool)
events = (conversation_started 1, false) ∷ saying "Use a " ∷ saying "design." ∷ []

abbrev log_of : List (ChatEvent × Bool) → List EventRow
log_of es = (flush_token_buffer all_work (emit_all all_work es new_stream)).log

-- A client that saw the first of two texts is sent both again.
texts_come_again :
    (replay_events 2 (log_of events)).0
    ≡ record { sequence = 3; event = agent_event (token "Use a design.") } ∷ []
unfolding replay_events replayed_rows flush_token_buffer emit_all emit persist_chat_event sort_by
    insert_by
texts_come_again = refl

abbrev seen : ℕ
seen = 2

replayed_rows-emit_all_example :
    let t = flush_token_buffer all_work (emit_all all_work events new_stream) in
    (events_of t.sent ≡ emitted events)
    × ((p : Text) × (shown (replayed_rows seen t.log) ≡ shown_text p ++ shown (after seen t.sent))
        × (seen ≡ 0 → p ≡ []))
replayed_rows-emit_all_example = replayed_rows-emit_all seen all_work events (λ n. refl)

-- A turn that made an experiment ends with that event, after `done`: who comes back is told that it was interrupted.
replay_events-emit_example :
    let t = flush_token_buffer all_work (
      emit all_work
        (experiment_created 9)
        (emit_all all_work ((agent_event done, false) ∷ []) new_stream)) in
    (replay_events 0 t.log).1 ≡ not (is_terminal_type (experiment_created 9))
replay_events-emit_example =
    replay_events-emit 0 all_work ((agent_event done, false) ∷ []) (experiment_created 9)
      (λ n. refl) refl

build_system_prompt-clean_example :
    (build_system_prompt (codes "You are") (some (codes "food_science")) "expert"
      ≡ build_system_prompt (codes "You are") none "expert")
    ⊎ ((label : Text) × (IsLabel label)
        × (build_system_prompt (codes "You are") (some (codes "food_science")) "expert"
            ≡ with_detail
                (detail_level_clause "expert")
                (codes "You are" ++ background_clause label)))
build_system_prompt-clean_example =
    build_system_prompt-clean (codes "You are") (codes "food_science") "expert"

abbrev pi : ProcessImprove
pi = record {
  tool_names = "fit" ∷ [];
  safe_execute = λ name input. returned (obj end);
  execute = λ name input. returned null;
}

abbrev calling : List Block → String → ApiCall
calling blocks reason = record {
  events = text_delta "Let me see" ∷ [];
  ending = final_message (record {
    content = text "Let me see" ∷ blocks;
    stop_reason = reason;
    model = codes "claude-sonnet-4-5";
    input_tokens = 100;
    output_tokens = 20;
  });
}

abbrev client : List Message → ApiCall
client (given question ∷ []) =
    calling (tool_use (record { id = "t1"; name = "fit"; input = end }) ∷ []) "tool_use"
client _ = calling [] "end_turn"

abbrev world : World
world = record {
  client = client;
  settings = default_settings;
  process_improve = pi;
  is_space = λ c. c == 32;
  plan_id = λ turn order. "plan";
  force_reveal = false;
}

abbrev env : Surroundings
env = record {
  world = λ prompt. world;
  dumps = λ json. "{}";
  format = record { title = λ s. s; show = λ json. "0" };
  available = all_work;
  system_prompt = codes "You are";
  anthropic_api_key = "key";
  anthropic_model = "claude";
  new_conversation_id = 1;
  new_experiment_id = λ n. 10 + n;
  new_simulator_id = λ n. 20 + n;
  now = 1_000;
  is_late = λ n. false;
}

abbrev request : Request
request = record {
  message = "What next?";
  conversation_id = none;
  user_id = 5;
  user_background = none;
  detail_level = "intermediate";
}

abbrev no_rows : Store
no_rows = record { db = empty; conversations = []; messages = []; tool_calls = [] }

abbrev first_conversation : Conversation
first_conversation = new_conversation env request

run_chat-Ends_example :
    let committed =
      persist_user_message request first_conversation 1
        (record no_rows { conversations = first_conversation ∷ [] }) in
    IsUserRow request first_conversation 1 no_rows committed
    × (IsGivenUp committed (run_chat env request no_rows)
        ⊎ IsSaved env request first_conversation
            (for_api request [])
            2
            committed
            (run_chat env request no_rows))
unfolding load_history
run_chat-Ends_example =
    run_chat-Ends env request no_rows (record no_rows { conversations = first_conversation ∷ [] })
      first_conversation [] 1 refl

run_chat-IsCounted_example : IsCounted (run_chat env request no_rows).store
unfolding AreCounted
run_chat-IsCounted_example = run_chat-IsCounted env request no_rows tt refl

abbrev with_conversation : Store
with_conversation = record no_rows { conversations = first_conversation ∷ [] }

abbrev owner : Option Conversation → ℕ
owner none = 0
owner (some c) = c.user_id

run_chat-refused_example :
    run_chat env (record request { conversation_id = some 1; user_id = 6 }) with_conversation
    ≡ record { store = with_conversation; stream = new_stream; not_found = some 1 }
run_chat-refused_example =
    run_chat-refused env (record request { conversation_id = some 1; user_id = 6 })
      with_conversation 1 refl (λ c found same. grind (arith, ap owner found, same))

abbrev agent_messages : List NewMessage
agent_messages =
    (run_agent_loop world (for_api request []) []
      (record { states = []; newly_created = [] })).new_messages

build_messages-persist_new_messages_example :
    let new = turn_rows env.dumps 1 1 "What next?" agent_messages in
    Numbered 1 1 new
    × (build_messages_from_history (rows_in 1 (record no_rows { messages = new }))
        ≡ record { role = "user"; content = whole "What next?" } ∷ api_of env.dumps agent_messages)
unfolding build_messages_from_history group sort_by
build_messages-persist_new_messages_example =
    build_messages-persist_new_messages env.dumps 1 "What next?" no_rows world (for_api request [])
      [] (record { states = []; newly_created = [] }) refl

abbrev fit_record : CallRecord
fit_record = record {
  tool_use_id = "t1";
  tool_name = "fit";
  tool_input = end;
  agent_turn = 1;
  call_order = 1;
  status = success (obj end);
}

persist_tool_calls-unlinked_example :
    let p =
      persist_new_messages env.dumps 1 agent_messages
        (record { seq = 2; rows = []; message_ids = [] }) in
    let calls = persist_tool_calls 1 (fit_record ∷ []) p.message_ids in
    All (λ (c : ToolCallRow). c.message_id ≡ none) calls
    × (map (λ (c : ToolCallRow). c.tool_use_id) calls ≡ "t1" ∷ [])
persist_tool_calls-unlinked_example =
    persist_tool_calls-unlinked env.dumps 1 agent_messages (fit_record ∷ []) 2
