-- ===== src/Agent/Interception.antt =====
-- backend/src/app/services/simulator_interception.py. The dicts that the callers own and the two
-- helpers mutate are returned as new values.
pub mod Reveal
pub mod Secrecy
use factorial.Prelude.{
  ℕ, ◌+◌, String, Bool, true, false, not, ◌||◌, Option, none, some, List, [], ◌∷◌, ◌++◌, str_eq,
  leb, ◌==◌, if◌then◌else◌,
}
use factorial.Prelude.Maps
use factorial.Prelude.Maps.{Map}
use factorial.Model.Json
use factorial.Prelude.Int.{pos, negsuc}
use factorial.Model.Json.{int, float, arr, nil, cons, entry, Json, Dict, null, bool, str, obj, end}

abbrev pub SimulatorStates : Type 0
SimulatorStates = Map Dict

abbrev pub RevealCounts : Type 0
RevealCounts = Map ℕ

-- `tool_name in SIMULATOR_TOOL_NAMES`
abbrev pub is_simulator_tool : String → Bool
is_simulator_tool name =
    str_eq name "create_simulator"
    || (str_eq name "simulate_process" || str_eq name "reveal_simulator")

-- effective.get("sim_id"), if it is a text that is not empty
abbrev pub text_of : Option Json → Option String
text_of none = none
text_of (some (str s)) = if str_eq s "" then none else some s
text_of (some _) = none

unfoldable pub sim_id_of : Dict → Option String
sim_id_of input = text_of (Json.lookup "sim_id" input)

-- if state is not None: effective["simulator_state"] = state
unfoldable pub with_state : Option Dict → Dict → Dict
with_state none input = input
with_state (some state) input = Json.insert "simulator_state" (obj state) input

abbrev pub count_or_zero : Option ℕ → ℕ
count_or_zero none = 0
count_or_zero (some n) = n

-- reveal_counts.get(sim_id, 0)
abbrev pub count_of : String → RevealCounts → ℕ
count_of sim_id counts = count_or_zero (Maps.lookup sim_id counts)

abbrev pub is_confirmed : Bool → ℕ → Bool
is_confirmed force_reveal current = force_reveal || leb 1 current

unfoldable pub reveal_dispatch :
    String → Dict → SimulatorStates → RevealCounts → Bool → Dict × RevealCounts
reveal_dispatch sim_id input states counts force_reveal =
    let current = count_of sim_id counts in
    let confirmed = is_confirmed force_reveal current in
    (
      Json.insert "confirmed" (bool confirmed) (with_state (Maps.lookup sim_id states) input),
      Maps.insert sim_id (if confirmed then 0 else current + 1) counts,
    )

abbrev dispatch_by_id :
    Option String → String → Dict → SimulatorStates → RevealCounts → Bool → Dict × RevealCounts
dispatch_by_id none tool_name input states counts force_reveal = (input, counts)
dispatch_by_id (some sim_id) tool_name input states counts force_reveal =
    if str_eq tool_name "simulate_process"
    then (with_state (Maps.lookup sim_id states) input, counts)
    else if str_eq tool_name "reveal_simulator"
    then reveal_dispatch sim_id input states counts force_reveal
    else (input, counts)

unfoldable pub pre_dispatch :
    String → Dict → SimulatorStates → RevealCounts → Bool → Dict × RevealCounts
unfolding sim_id_of
pre_dispatch tool_name tool_input states counts force_reveal =
    if not (is_simulator_tool tool_name)
    then (tool_input, counts)
    else dispatch_by_id (sim_id_of tool_input) tool_name tool_input states counts force_reveal

-- What `newly_created` holds of a simulator.
pub record NewSimulator : Type 0 where
  pub sim_id : String
  pub public_summary : Json
  pub private_state : Dict

-- bool(value) is False
abbrev pub is_falsy : Json → Bool
is_falsy null = true
is_falsy (bool b) = not b
is_falsy (int (pos n)) = n == 0
is_falsy (int (negsuc n)) = false
is_falsy (float text) = str_eq text "0.0" || str_eq text "-0.0"
is_falsy (str s) = str_eq s ""
is_falsy (arr nil) = true
is_falsy (arr (cons x xs)) = false
is_falsy (obj end) = true
is_falsy (obj (entry k v rest)) = false

-- result.get("public") or {}
abbrev or_empty : Option Json → Json
or_empty none = obj end
or_empty (some json) = if is_falsy json then obj end else json

pub record Stash : Type 0 where
  pub states : SimulatorStates
  pub newly_created : List NewSimulator

abbrev stash : Option Json → Option Json → Json → Stash → Stash
stash (some (str sim_id)) (some (obj private)) summary s = record {
  states = Maps.insert sim_id private s.states;
  newly_created =
      s.newly_created
      ++ record { sim_id = sim_id; public_summary = summary; private_state = private } ∷ [];
}
stash _ _ summary s = s

unfoldable pub strip_private : Dict → Stash → Json × Stash
strip_private result s =
    let private = Json.lookup "_private" result in
    let rest = Json.erase "_private" result in
    (obj rest, stash (Json.lookup "sim_id" rest) private (or_empty (Json.lookup "public" rest)) s)

abbrev strip_dict : Json → Stash → Json × Stash
strip_dict (obj result) s = strip_private result s
strip_dict result s = (result, s)

unfoldable pub post_dispatch : String → Json → Stash → Json × Stash
unfolding strip_private
post_dispatch tool_name result s =
    if not (str_eq tool_name "create_simulator") then (result, s) else strip_dict result s
