-- ===== src/Chat/Turn.antt =====
-- `run_chat` of agent_service.py: a turn of a conversation. Its exceptions are those of the services that it calls;
-- that of a client which goes away is left out. The timer only measures.
use factorial.Prelude.{
  Text, ℕ, ◌+◌, String, Bool, false, not, Option, none, some, List, [], ◌∷◌, ◌++◌, str_eq, ◌==◌,
  if◌then◌else◌, length, select, update_where,
}
use factorial.Prelude.Maps
use factorial.Prelude.Sorting.{order_by_asc}
use factorial.Model.{Simulator}
use factorial.Model.Json.{Json, obj}
use factorial.Database.{Exec, type_error, pure, raise, modify, get_row, ◌>>=◌, ◌>>◌}
use factorial.Session.{take_chars}
use factorial.Design.Experiments.{write_experiment, get_latest_experiment_for_conversation}
use factorial.Design.Experiments.Create.{Format, create_experiment}
use factorial.Agent.Interception.{NewSimulator, SimulatorStates, RevealCounts}
use factorial.Agent.Simulators.{create_simulator_record, set_reveal_request_count}
use factorial.Agent.Conversation.{CallRecord, CallStatus, success, failure}
use factorial.Agent.Loop.{World}
use factorial.Chat.Rows.{Conversation, MessageRow, Store}
use factorial.Chat.History.{ApiMessage, build_messages_from_history}
use factorial.Chat.Persist.{user_row}
use factorial.Chat.Prompt.{build_system_prompt}

pub record Request : Type 0 where
  pub message : String
  pub conversation_id : Option ℕ
  pub user_id : ℕ
  pub user_background : Option Text
  pub detail_level : String

-- What a turn is given from outside: the agent loop's world for a system prompt, how values are written, which
-- inserts of events work, the settings that only this function reads, and what is drawn from the clock and the
-- UUIDs.
pub record Surroundings : Type 0 where
  pub world : Text → World
  pub dumps : Json → String
  pub format : Format
  pub available : ℕ → Bool
  pub system_prompt : Text
  pub anthropic_api_key : String
  pub anthropic_model : String
  pub new_conversation_id : ℕ
  pub new_experiment_id : ℕ → ℕ
  pub new_simulator_id : ℕ → ℕ
  pub now : ℕ
  pub is_late : ℕ → Bool

abbrev pub conversation_with : ℕ → Store → Option Conversation
conversation_with id store = get_row (select (λ c. c.id == id) store.conversations)

abbrev pub write_conversation :
    ℕ → (Conversation → Conversation) → List Conversation → List Conversation
write_conversation id f conversations = update_where (λ c. c.id == id) f conversations

pub data Loaded : Type 0 where
  -- the id that is named in the error
  refused : ℕ → Loaded
  -- the conversation, its messages for the API, and the next sequence
  loaded : Store → Conversation → List ApiMessage → ℕ → Loaded

abbrev pub next_sequence : List MessageRow → ℕ
next_sequence [] = 1
next_sequence (row ∷ []) = row.sequence + 1
next_sequence (row ∷ next ∷ rows) = next_sequence (next ∷ rows)

abbrev pub rows_in : ℕ → Store → List MessageRow
rows_in id store =
    order_by_asc (λ m. m.sequence) (select (λ m. m.conversation_id == id) store.messages)

abbrev pub if_own : ℕ → ℕ → Option Conversation → Store → Loaded
if_own id user_id none store = refused id
if_own id user_id (some c) store =
    if not (c.user_id == user_id)
    then refused id
    else loaded store c (build_messages_from_history (rows_in id store))
        (next_sequence (rows_in id store))

-- Step 2, which is committed.
unfoldable pub persist_user_message : Request → Conversation → ℕ → Store → Store
persist_user_message r c seq store = record store {
  conversations =
      write_conversation c.id (λ x. record x { message_count = x.message_count + 1 })
        store.conversations;
  messages = store.messages ++ user_row c.id seq r.message ∷ [];
}

abbrev pub last_of : List ℕ → Option ℕ
last_of [] = none
last_of (id ∷ []) = some id
last_of (id ∷ next ∷ ids) = last_of (next ∷ ids)

abbrev pub target_of : Option ℕ → ℕ → Exec (Option ℕ)
target_of (some id) conversation_id = pure (some id)
target_of none conversation_id = do
  e ← get_latest_experiment_for_conversation conversation_id
  pure (elim e [ none ↦ none | some x ↦ some x.id ])

abbrev write_evaluation : Json → Option ℕ → Exec (Unit {0})
write_evaluation json none = pure tt
write_evaluation json (some id) =
    modify (write_experiment id (λ x. record x { evaluation_data = some json }))

module _ (env : Surroundings) where
  abbrev pub prompt_of : Request → Text
  prompt_of r = build_system_prompt env.system_prompt r.user_background r.detail_level

  abbrev pub new_conversation : Request → Conversation
  new_conversation r = record {
    id = env.new_conversation_id;
    user_id = r.user_id;
    title = take_chars 100 r.message;
    model_key = env.anthropic_model;
    system_prompt = prompt_of r;
    total_input_tokens = 0;
    total_output_tokens = 0;
    message_count = 0;
    total_cost = 0;
    total_markup_cost = 0;
  }

  abbrev pub load_for : Request → Option ℕ → Store → Loaded
  load_for r none store =
      let c = new_conversation r in
      loaded (record store { conversations = store.conversations ++ c ∷ [] }) c [] 1
  load_for r (some id) store = if_own id r.user_id (conversation_with id store) store

  -- Step 1.
  unfoldable pub load_history : Request → Store → Loaded
  load_history r store = load_for r r.conversation_id store

  -- The objects that step 8 made: the ids of the experiments.
  abbrev pub save_design : ℕ → ℕ → Json → List ℕ → Exec (List ℕ)
  save_design user_id conversation_id (obj d) created = do
    e ←
        create_experiment env.format (env.new_experiment_id (length created)) env.now d user_id
          (some conversation_id) none
    pure (created ++ e.id ∷ [])
  save_design user_id conversation_id _ created = raise type_error

  abbrev pub save_output : ℕ → ℕ → String → CallStatus → List ℕ → Exec (List ℕ)
  save_output user_id conversation_id tool_name (failure message) created = pure created
  save_output user_id conversation_id tool_name (success json) created =
      if str_eq tool_name "generate_design"
      then save_design user_id conversation_id json created
      else if str_eq tool_name "evaluate_design"
      then (do
        target ← target_of (last_of created) conversation_id
        write_evaluation json target
        pure created)
      else pure created

  unfoldable pub save_outputs : ℕ → ℕ → List CallRecord → List ℕ → Exec (List ℕ)
  save_outputs user_id conversation_id [] created = pure created
  save_outputs user_id conversation_id (rec ∷ records) created = do
    created' ← save_output user_id conversation_id rec.tool_name rec.status created
    save_outputs user_id conversation_id records created'

  -- The ids of the rows.
  unfoldable pub save_simulators : ℕ → ℕ → ℕ → List NewSimulator → Exec (List ℕ)
  save_simulators n user_id conversation_id [] = pure []
  save_simulators n user_id conversation_id (sim ∷ sims) = do
    row ←
        create_simulator_record (env.new_simulator_id n) env.now sim.sim_id sim.public_summary
          sim.private_state user_id (some conversation_id)
    rows ← save_simulators (n + 1) user_id conversation_id sims
    pure (row.id ∷ rows)

abbrev count_differs : Option ℕ → ℕ → Bool
count_differs none count = false
count_differs (some before) count = not (before == count)

-- The counts of `existing_sims`, whose rows hold a count each.
abbrev pub reveal_counts_of : List Simulator → RevealCounts
reveal_counts_of [] = []
reveal_counts_of (sim ∷ sims) =
    Maps.insert sim.sim_id sim.reveal_request_count (reveal_counts_of sims)

-- The rows whose counter the turn changed.
unfoldable pub save_counts : ℕ → RevealCounts → RevealCounts → Exec (Unit {0})
save_counts user_id before [] = pure tt
save_counts user_id before ((sim_id, count) ∷ counts) =
    let rest = save_counts user_id before counts in
    if count_differs (Maps.lookup sim_id before) count
    then (do set_reveal_request_count sim_id user_id count; rest)
    else rest

-- dict(sim.private_state): none where a state is no dict, which raises
unfoldable pub states_of : List Simulator → Option SimulatorStates
states_of [] = some []
states_of (sim ∷ sims) = elim sim.private_state [
  | obj d ↦ elim (states_of sims) [
    | none ↦ none
    | some states ↦ some (Maps.insert sim.sim_id d states)
  ]
  | _ ↦ none
]
