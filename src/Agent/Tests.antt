-- ===== src/Agent/Tests.antt =====
-- The agent loop, the tools and the interception of the simulators at small inputs.
use factorial.Prelude.{
  codes, ℕ, ◌+◌, ◌*◌, ◌/◌, min, String, ◌≡◌, refl, Bool, true, false, Option, none, some, List, [],
  ◌∷◌, ◌++◌, str_eq, ◌==◌, if◌then◌else◌, length, All,
}
use factorial.Prelude.Maps
use factorial.Prelude.Int.{pos}
use factorial.Config.{default_settings}
use factorial.Model.Json
use factorial.Model.Json.{Json, Dict, null, int, str, obj, end, entry}
use factorial.Agent.Interception.{
  SimulatorStates, Stash, pre_dispatch, post_dispatch, count_of, sim_id_of, with_state,
  reveal_dispatch, strip_private,
}
use factorial.Model.{Simulator}
use factorial.Database.{Database, empty}
use factorial.Agent.Simulators.{new_simulator as new_simulator_row, create_simulator_record}
use factorial.Agent.Interception.Reveal.{Calls, asked, granted, granted-half}
use factorial.Agent.Interception.Secrecy.{post_dispatch-hides}
use factorial.Agent.Tools.{
  ProcessImprove, returned, raised, too_large, execute_tool_call, is_local_tool, translate,
}
use factorial.Agent.Tools.Errors.{IsReported, execute_tool_call-IsReported}
use factorial.Agent.Loop.{
  Block, text, tool_use, ApiCall, final_message, text_delta, other_event, Message, given, Event,
  done, error_event, State, World, run_agent_loop, max_agent_turns, turns, take_turn, after_stream,
  after_response, stream, run_tools, run_tool, announce, settle,
}
use factorial.Agent.Loop.Turn.{is_progress}
use factorial.Agent.Loop.Stream.{is_terminal, run_agent_loop-IsEnded}
use factorial.Agent.Loop.Pairing.{IsAnswered, run_agent_loop-IsAnswered}

abbrev reveal_call : String × Dict
reveal_call = ("reveal_simulator", entry "sim_id" (str "s1") end)

abbrev calls : Calls
calls =
    reveal_call
    ∷ ("simulate_process", entry "sim_id" (str "s1") end)
    ∷ reveal_call
    ∷ reveal_call
    ∷ []

abbrev state : Dict
state = entry "seed" (int (pos 7)) end

abbrev states : SimulatorStates
states = ("s1", state) ∷ []

abbrev no_stash : Stash
no_stash = record { states = []; newly_created = [] }

abbrev new_simulator : Dict
new_simulator =
    entry "sim_id" (str "s1") (entry "_private" (obj state) (entry "public" (obj end) end))

abbrev pi : ProcessImprove
pi = record {
  tool_names = "create_simulator" ∷ "fit" ∷ [];
  safe_execute = λ name input.
      if str_eq name "fit" then raised (too_large "too large") else returned (obj new_simulator);
  execute = λ name input. returned null;
}

abbrev is_blank : ℕ → Bool
is_blank c = c == 32

abbrev calling : List Block → String → ApiCall
calling blocks reason = record {
  events = other_event ∷ text_delta "Let me " ∷ text_delta "see" ∷ [];
  ending = final_message (record {
    content = text "Let me see" ∷ blocks;
    stop_reason = reason;
    model = codes "claude-sonnet-4-5";
    input_tokens = 100;
    output_tokens = 20;
  });
}

-- The model calls two tools at first, and ends after it has their results.
abbrev client : List Message → ApiCall
client (given question ∷ []) =
    calling
      (tool_use (record { id = "t1"; name = "fit"; input = end })
        ∷ tool_use (record { id = "t2"; name = "create_simulator"; input = end })
        ∷ [])
      "tool_use"
client _ = calling [] "end_turn"

abbrev world : World
world = record {
  client = client;
  settings = default_settings;
  process_improve = pi;
  is_space = is_blank;
  plan_id = λ turn order. "plan";
  force_reveal = false;
}

abbrev question : List Message
question = given (str "What next?") ∷ []

abbrev after_loop : State
after_loop = run_agent_loop world question [] no_stash

reveals_run : (asked "s1" calls ≡ 3) × (granted "s1" calls states [] ≡ 1)
unfolding pre_dispatch sim_id_of with_state reveal_dispatch Json.lookup Json.insert Maps.lookup
    Maps.insert
reveals_run = (refl, refl)

-- A model that never stops, and one whose call fails.
abbrev restless : World
restless = record world {
  client = λ messages.
      calling (tool_use (record { id = "t1"; name = "fit"; input = end }) ∷ []) "tool_use";
}

abbrev last_of : List (Option Event) → Option Event
last_of [] = none
last_of (e ∷ none ∷ []) = e
last_of (e ∷ rest) = last_of rest

restless_is_stopped :
    last_of (run_agent_loop restless question [] no_stash).queue
    ≡ some (error_event "Agent loop exceeded 10 iterations.")
unfolding run_agent_loop turns take_turn stream after_stream after_response run_tools run_tool
    announce settle pre_dispatch post_dispatch execute_tool_call is_local_tool translate
restless_is_stopped = refl

loop_runs : (length after_loop.new_messages ≡ 3) × (last_of after_loop.queue ≡ some done)
unfolding run_agent_loop turns take_turn stream after_stream after_response run_tools run_tool
    announce settle pre_dispatch sim_id_of post_dispatch strip_private execute_tool_call
    is_local_tool translate
loop_runs = (refl, refl)

run_agent_loop-IsEnded_example :
    (before : List (Option Event)) × (last : Event) × (after_loop.queue
      ≡ (before ++ some last ∷ []) ++ none ∷ [])
    × All (λ i. is_progress i ≡ true) before
    × (is_terminal last ≡ true)
run_agent_loop-IsEnded_example = run_agent_loop-IsEnded world question [] no_stash

run_agent_loop-IsAnswered_example : IsAnswered (2 * max_agent_turns) after_loop.new_messages
run_agent_loop-IsAnswered_example = run_agent_loop-IsAnswered world question [] no_stash

granted-half_example :
    granted "s1" calls states [] ≡ (asked "s1" calls + min 1 (count_of "s1" [])) / 2
granted-half_example = granted-half "s1" states calls []

post_dispatch-hides_example :
    (shown : Dict) × ((post_dispatch "create_simulator" (obj new_simulator) no_stash).0 ≡ obj shown)
    × (Json.lookup "_private" shown ≡ none)
    × ((key : String)
        → str_eq "_private" key ≡ false
        → Json.lookup key shown ≡ Json.lookup key new_simulator)
    × ((sim_id : String) (private : Dict)
        → Json.lookup "sim_id" new_simulator ≡ some (str sim_id)
        → Json.lookup "_private" new_simulator ≡ some (obj private)
        → Maps.lookup sim_id
            (post_dispatch "create_simulator" (obj new_simulator) no_stash).1.states
          ≡ some private)
post_dispatch-hides_example = post_dispatch-hides new_simulator no_stash

execute_tool_call-IsReported_example :
    IsReported "fit" end (execute_tool_call default_settings pi is_blank "fit" end)
execute_tool_call-IsReported_example =
    execute_tool_call-IsReported default_settings pi is_blank "fit" end

abbrev sim : Simulator
sim = new_simulator_row 1 10 "s1" (obj end) state 5 none

abbrev sim_db : Database
sim_db = record empty { simulators = sim ∷ [] }

created_is_stored : (create_simulator_record 1 10 "s1" (obj end) state 5 none empty).1 ≡ sim_db
unfolding create_simulator_record
created_is_stored = refl
