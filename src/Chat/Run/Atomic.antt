-- ===== src/Chat/Run/Atomic.antt =====
-- What a turn leaves in the database, whichever way it ends.
use factorial.Prelude.{
  ℕ, ◌+◌, String, ◌≡◌, refl, ap, ◌⊎◌, inl, inr, Option, none, some, List, [], ◌∷◌, ◌++◌, map,
  length, str_eq, Bool-cases,
}
use factorial.Database.{Database, Result, ok, err}
use factorial.Model.{Simulator}
use factorial.Agent.Interception.{SimulatorStates}
use factorial.Agent.Simulators.{list_simulators_for_conversation}
use factorial.Agent.Conversation.{Message}
use factorial.Agent.Loop.{run_agent_loop}
use factorial.Prelude.Maps.{Map}
use factorial.Model.Json.{Dict}
use factorial.Agent.Conversation.{CallRecord, State}
use factorial.Agent.Loop.Pairing.{run_agent_loop-IsAnswered}
use factorial.Chat.Rows.{Conversation, MessageRow, ToolCallRow, Store}
use factorial.Chat.History.Groups.{turn_of}
use factorial.Chat.Persist.{user_row, persist_tool_calls, add_totals}
use factorial.Chat.Persist.Sequence.{Numbered, persist_new_messages-Numbered}
use factorial.Chat.Persist.Rebuild.{turns_of, Adds-messages}
use factorial.Chat.Run.Counts.{answered_AreKept, block_count-rows}
use factorial.Chat.History.{whole, to_api, ApiMessage}
use factorial.Chat.Events.{chat_error, last_event, Stream, emit, flush_token_buffer}
use factorial.Chat.Events.Sent.{last_event-emit}
use factorial.Chat.Turn.{
  Request, Surroundings, write_conversation, loaded, prompt_of, load_history, persist_user_message,
  reveal_counts_of, states_of,
}
use factorial.Chat.Run.{
  Outcome, persisted, save_created, after_save, run_agent, with_states, with_simulators, run_loaded,
  run_chat,
}

-- What the audit keeps of a call.
abbrev pub CallFacts : Type 0
CallFacts = ℕ × String × String × Dict × ℕ × ℕ

abbrev pub call_of : ToolCallRow → CallFacts
call_of c =
    (c.conversation_id, c.tool_use_id, c.tool_name, c.tool_input, c.agent_turn, c.call_order)

abbrev pub record_of : ℕ → CallRecord → CallFacts
record_of id c = (id, c.tool_use_id, c.tool_name, c.tool_input, c.agent_turn, c.call_order)

calls-records :
    (id : ℕ) (records : List CallRecord) (message_ids : Map (Option ℕ))
    → map call_of (persist_tool_calls id records message_ids) ≡ map (record_of id) records
unfolding persist_tool_calls
calls-records id [] message_ids = refl
calls-records id (c ∷ records) message_ids =
    ap (λ rest. record_of id c ∷ rest) (calls-records id records message_ids)

-- The user's message alone is stored, and the client is told of an error in the end.
pub record IsGivenUp (committed : Store) (o : Outcome) : Type 0 where
  pub kept : o.store ≡ committed
  pub message : String
  pub told : last_event o.stream.sent ≡ some (chat_error message)

module _ (env : Surroundings) (r : Request) (c : Conversation) (messages : List Message) (seq : ℕ)
    (store : Store) where
  -- All that the agent loop handed back is stored, of a run with the simulators of the conversation.
  pub record IsSaved (o : Outcome) : Type 0 where
    pub sims : List Simulator
    pub states : SimulatorStates
    pub listed : (list_simulators_for_conversation c.id store.db).0 ≡ ok sims
    pub stated : states_of sims ≡ some states
    pub made : List ℕ × List ℕ
    pub rows : List MessageRow
    pub calls : List ToolCallRow
    pub saved :
        let s =
          run_agent_loop
            (env.world (prompt_of env r))
            messages
            (reveal_counts_of sims)
            (record { states = states; newly_created = [] }) in
        (save_created env r.user_id c.id (reveal_counts_of sims) s store.db ≡ (ok made, o.store.db))
        × (o.store.messages ≡ store.messages ++ rows)
        × Numbered c.id seq rows
        × (map turn_of rows ≡ turns_of env.dumps s.new_messages)
        × (o.store.tool_calls ≡ store.tool_calls ++ calls)
        × (map call_of calls ≡ map (record_of c.id) s.tool_call_records)
        × (o.store.conversations
            ≡ write_conversation c.id
                (λ x. record (add_totals s.new_messages x) {
                  message_count = (add_totals s.new_messages x).message_count + length rows;
                })
                store.conversations)

  abbrev the_run : List Simulator → SimulatorStates → State
  the_run sims states =
      run_agent_loop (env.world (prompt_of env r)) messages (reveal_counts_of sims)
        (record { states = states; newly_created = [] })

  abbrev Ends : Outcome → Type 0
  Ends o = IsGivenUp store o ⊎ IsSaved o

  given_up :
      (message : String) (stream : Stream)
      → IsGivenUp store (record {
        store = store;
        stream = flush_token_buffer env.available (emit env.available (chat_error message) stream);
        not_found = none;
      })
  given_up message stream = record {
    kept = refl;
    message = message;
    told = last_event-emit env.available (chat_error message) stream;
  }

  after_save-Ends :
      (sims : List Simulator) (states : SimulatorStates)
      → (list_simulators_for_conversation c.id store.db).0 ≡ ok sims
      → states_of sims ≡ some states
      → (stream : Stream) (result : Result (List ℕ × List ℕ) × Database)
      → let s =
          run_agent_loop
            (env.world (prompt_of env r))
            messages
            (reveal_counts_of sims)
            (record { states = states; newly_created = [] }) in
        save_created env r.user_id c.id (reveal_counts_of sims) s store.db ≡ result
        → Ends (after_save env c.id seq s store stream result)
  after_save-Ends sims states listed stated stream (err e, db) same =
      inl (given_up "Internal server error." stream)
  after_save-Ends sims states listed stated stream (ok (exps, made), db) same = inr (record {
    sims = sims;
    states = states;
    listed = listed;
    stated = stated;
    made = (exps, made);
    rows = (persisted env c.id seq (the_run sims states)).rows;
    calls =
        persist_tool_calls c.id (the_run sims states).tool_call_records
          (persisted env c.id seq (the_run sims states)).message_ids;
    saved =
        let s = the_run sims states in
        (
          same,
          refl,
          persist_new_messages-Numbered env.dumps c.id s.new_messages seq,
          Adds-messages env.dumps c.id s.new_messages
              (record { seq = seq; rows = []; message_ids = [] }),
          refl,
          calls-records c.id s.tool_call_records (persisted env c.id seq s).message_ids,
          ap
              (λ n.
                write_conversation c.id
                  (λ x. record (add_totals s.new_messages x) {
                    message_count = (add_totals s.new_messages x).message_count + n;
                  })
                  store.conversations)
              (block_count-rows env r c.id seq s (
                answered_AreKept _ s.new_messages (
                  run_agent_loop-IsAnswered (env.world (prompt_of env r)) messages
                    (reveal_counts_of sims) (record { states = states; newly_created = [] })))),
        );
  })

  with_states-Ends :
      (sims : List Simulator) (states : Option SimulatorStates)
      → (list_simulators_for_conversation c.id store.db).0 ≡ ok sims
      → states_of sims ≡ states
      → (stream : Stream) → Ends (with_states env r c messages seq sims states store stream)
  unfolding run_agent
  with_states-Ends sims none listed stated stream = inl (given_up "Internal server error." stream)
  with_states-Ends sims (some states) listed stated stream =
      elim (Bool-cases (str_eq env.anthropic_api_key "")) [
        | inl no_key ↦ rw no_key (inl (given_up "ANTHROPIC_API_KEY is not configured" stream))
        | inr key ↦ rw key (after_save-Ends sims states listed stated _ _ refl)
      ]

  with_simulators-Ends :
      (sims : Result (List Simulator) × Database)
      → list_simulators_for_conversation c.id store.db ≡ sims
      → (stream : Stream) → Ends (with_simulators env r c messages seq sims store stream)
  with_simulators-Ends (err e, db) same stream = inl (given_up "Internal server error." stream)
  with_simulators-Ends (ok sims, db) same stream =
      with_states-Ends sims (states_of sims) (ap (λ x. x.0) same) refl stream

-- The user's message is stored last, under this number.
abbrev pub IsUserRow : Request → Conversation → ℕ → Store → Store → Type 0
IsUserRow r c seq before committed =
    (row : MessageRow) × (committed.messages ≡ before.messages ++ row ∷ [])
    × (row.conversation_id ≡ c.id)
    × (row.sequence ≡ seq)
    × (row.role ≡ "user")
    × (row.content ≡ r.message)

-- The messages that the API is sent: those of the conversation, and the user's.
abbrev pub for_api : Request → List ApiMessage → List Message
for_api r messages =
    map to_api messages ++ to_api (record { role = "user"; content = whole r.message }) ∷ []

-- A turn of a conversation stores the user's message under the next number, whatever happens then; beside it, either
-- nothing, and the last event that the client is sent is an error, or, at once, a run of the agent loop on the messages
-- of the conversation and the simulators that it has: a row for each block of its messages, with the next numbers and
-- in order, a row for each of its calls, what `save_created` makes of it, and the counters raised by its rows and costs.
pub run_chat-Ends :
    (env : Surroundings) (r : Request) (store : Store) (loaded_store : Store) (c : Conversation)
    (messages : List ApiMessage) (seq : ℕ)
    → load_history env r store ≡ loaded loaded_store c messages seq
    → let committed = persist_user_message r c seq loaded_store in
      IsUserRow r c seq loaded_store committed
      × (IsGivenUp committed (run_chat env r store)
          ⊎ IsSaved env r c (for_api r messages) (seq + 1) committed (run_chat env r store))
unfolding run_chat run_loaded persist_user_message
run_chat-Ends env r store loaded_store c messages seq found = rw found (
  (user_row c.id seq r.message, refl, refl, refl, refl, refl),
  with_simulators-Ends env r c (for_api r messages) (seq + 1)
      (persist_user_message r c seq loaded_store)
      (list_simulators_for_conversation c.id (persist_user_message r c seq loaded_store).db) refl _,
)
