-- ===== src/Chat/Run.antt =====
-- `run_chat` of agent_service.py as a whole: the steps in their order, with its exits.
pub mod Refusal
pub mod Atomic
pub mod Counts
pub mod MessageCount
use factorial.Prelude.{
  ℕ, ◌+◌, Bool, false, not, Option, none, some, List, [], ◌∷◌, ◌++◌, map, str_eq, if◌then◌else◌,
  length,
}
use factorial.Model.{Simulator}
use factorial.Database.{Database, Result, ok, err, Exec, pure, ◌>>=◌, ◌>>◌}
use factorial.Agent.Interception.{SimulatorStates, RevealCounts}
use factorial.Agent.Simulators.{list_simulators_for_conversation}
use factorial.Agent.Conversation.{
  Event, Message, NewMessage, assistant_message, tool_results, State,
}
use factorial.Agent.Loop.{run_agent_loop}
use factorial.Chat.Rows.{Conversation, Store}
use factorial.Chat.History.{whole, to_api}
use factorial.Chat.Persist.{Persisted, persist_new_messages, persist_tool_calls, add_totals}
use factorial.Chat.Events.{
  ChatEvent, conversation_started, agent_event, experiment_created, simulator_created, chat_error,
  Stream, new_stream, emit, emit_all, flush_token_buffer,
}
use factorial.Chat.Turn.{
  Request, Surroundings, write_conversation, Loaded, refused, loaded, prompt_of, load_history,
  persist_user_message, save_outputs, save_simulators, save_counts, reveal_counts_of, states_of,
}

-- What a turn leaves: the rows, the events with the rows of `chat_events`, and the conversation whose id was refused in an event
-- that has no id of its own.
pub record Outcome : Type 0 where
  pub store : Store
  pub stream : Stream
  pub not_found : Option ℕ

-- The number of rows of the new messages: each block is one.
abbrev pub block_count : List NewMessage → ℕ
block_count [] = 0
block_count (assistant_message blocks meta ∷ ms) = length blocks + block_count ms
block_count (tool_results results ∷ ms) = length results + block_count ms

-- `_stream_from_queue`: up to the sentinel. `n` numbers the events.
abbrev pub streamed : (ℕ → Bool) → ℕ → List (Option Event) → List (ChatEvent × Bool)
streamed is_late n [] = []
streamed is_late n (none ∷ events) = []
streamed is_late n (some event ∷ events) =
    (agent_event event, is_late n) ∷ streamed is_late (n + 1) events

abbrev pub announced : (ℕ → ChatEvent) → List ℕ → List (ChatEvent × Bool)
announced event [] = []
announced event (id ∷ ids) = (event id, false) ∷ announced event ids

module _ (env : Surroundings) where
  -- The `finally` clause flushes the tokens.
  abbrev pub ended : Store → Stream → Outcome
  ended store stream = record {
    store = store;
    stream = flush_token_buffer env.available stream;
    not_found = none;
  }

  -- The `except` clause, over what was committed. `emit` raises nothing, since `_persist_chat_event` catches and logs what
  -- it meets, so the second `except`, inside, is not reached.
  abbrev pub failed_turn : Store → Stream → Outcome
  failed_turn store stream =
      ended store (emit env.available (chat_error "Internal server error.") stream)

  -- What step 8 adds beside the messages and the calls, in its order.
  unfoldable pub save_created : ℕ → ℕ → RevealCounts → State → Exec (List ℕ × List ℕ)
  save_created user_id conversation_id before s = do
    experiments ← save_outputs env user_id conversation_id s.tool_call_records []
    simulators ← save_simulators env 0 user_id conversation_id s.stash.newly_created
    save_counts user_id before s.reveal_counts
    pure (experiments, simulators)

  abbrev pub persisted : ℕ → ℕ → State → Persisted
  persisted conversation_id seq s =
      persist_new_messages env.dumps conversation_id s.new_messages
        (record { seq = seq; rows = []; message_ids = [] })

  -- The rows at the commit of step 8.
  abbrev pub with_rows : ℕ → ℕ → State → Database → Store → Store
  with_rows conversation_id seq s db store =
      let p = persisted conversation_id seq s in
      record {
        db = db;
        conversations =
            write_conversation conversation_id
              (λ c.
                let c' = add_totals s.new_messages c in
                record c' { message_count = c'.message_count + block_count s.new_messages })
              store.conversations;
        messages = store.messages ++ p.rows;
        tool_calls =
            store.tool_calls
            ++ persist_tool_calls conversation_id s.tool_call_records p.message_ids;
      }

  abbrev after_save : ℕ → ℕ → State → Store → Stream → Result (List ℕ × List ℕ) × Database → Outcome
  after_save conversation_id seq s store stream (err e, db) = failed_turn store stream
  after_save conversation_id seq s store stream (ok (experiments, simulators), db) =
      ended (with_rows conversation_id seq s db store) (
        emit_all env.available
          (announced experiment_created experiments ++ announced simulator_created simulators)
          stream)

  -- Steps 6 to 11: the agent loop, what it streams, and what is saved.
  unfoldable pub run_agent :
      Request
      → Conversation
      → List Message
      → ℕ
      → List Simulator
      → SimulatorStates
      → Store
      → Stream
      → Outcome
  run_agent r c messages seq sims states store stream =
      let s =
        run_agent_loop (env.world (prompt_of env r)) messages (reveal_counts_of sims)
          (record { states = states; newly_created = [] }) in
      after_save c.id seq s store (emit_all env.available (streamed env.is_late 0 s.queue) stream)
        (save_created r.user_id c.id (reveal_counts_of sims) s store.db)

  -- The exits before the loop: a simulator whose state is no dict, and `get_anthropic_client` without a key.
  abbrev pub with_states :
      Request
      → Conversation
      → List Message
      → ℕ
      → List Simulator
      → Option SimulatorStates
      → Store
      → Stream
      → Outcome
  with_states r c messages seq sims none store stream = failed_turn store stream
  with_states r c messages seq sims (some states) store stream =
      if str_eq env.anthropic_api_key ""
      then ended store
          (emit env.available (chat_error "ANTHROPIC_API_KEY is not configured") stream)
      else run_agent r c messages seq sims states store stream

  abbrev pub with_simulators :
      Request
      → Conversation
      → List Message
      → ℕ
      → Result (List Simulator) × Database
      → Store
      → Stream
      → Outcome
  with_simulators r c messages seq (err e, db) store stream = failed_turn store stream
  with_simulators r c messages seq (ok sims, db) store stream =
      with_states r c messages seq sims (states_of sims) store stream

  -- Steps 2 to 5.
  unfoldable pub run_loaded : Request → Loaded → Store → Outcome
  run_loaded r (refused id) store = record {
    store = store;
    stream = new_stream;
    not_found = some id;
  }
  run_loaded r (loaded store c messages seq) _ =
      let committed = persist_user_message r c seq store in
      with_simulators r c
        (map to_api messages ++ to_api (record { role = "user"; content = whole r.message }) ∷ [])
        (seq + 1) (list_simulators_for_conversation c.id committed.db) committed
        (emit env.available (conversation_started c.id) new_stream)

  unfoldable pub run_chat : Request → Store → Outcome
  unfolding run_loaded
  run_chat r store = run_loaded r (load_history env r store) store
