-- ===== src/Agent/Simulators.antt =====
-- backend/src/app/services/simulator_service.py: the stored simulators, and the counters of their
-- reveals between two turns of a conversation. The new id and the clock are arguments.
pub mod Counter
use factorial.Prelude.{
  ℕ, String, Bool, false, ◌||◌, Option, none, some, List, [], ◌∷◌, ◌++◌, str_eq, ltb, ◌==◌,
  if◌then◌else◌, select, update_where, count_where,
}
use factorial.Prelude.Sorting.{order_by_asc}
use factorial.Model.{Simulator}
use factorial.Model.Json.{Json, Dict, obj}
use factorial.Database.{
  Database, Exec, integrity_error, pure, raise_if, gets, modify, scalar_one_or_none, ◌>>=◌, ◌>>◌,
}

abbrev in_conversation : ℕ → Simulator → Bool
in_conversation id sim = elim sim.conversation_id [
  | none ↦ false
  | some conversation_id ↦ conversation_id == id
]

unfoldable pub list_simulators_for_conversation : ℕ → Exec (List Simulator)
list_simulators_for_conversation conversation_id = gets (λ db.
    order_by_asc (λ s. s.created_at) (select (in_conversation conversation_id) db.simulators))

abbrev pub sim_rows : String → Database → List Simulator
sim_rows sim_id db = select (λ s. str_eq s.sim_id sim_id) db.simulators

abbrev pub if_owned : ℕ → Option Simulator → Option Simulator
if_owned user_id none = none
if_owned user_id (some sim) = if sim.user_id == user_id then some sim else none

unfoldable pub get_simulator_by_sim_id : String → ℕ → Exec (Option Simulator)
get_simulator_by_sim_id sim_id user_id = do
  rows ← gets (sim_rows sim_id)
  sim ← scalar_one_or_none rows
  pure (if_owned user_id sim)

-- The columns `id` and `sim_id` are unique.
abbrev clashes : Simulator → Simulator → Bool
clashes a b = a.id == b.id || str_eq a.sim_id b.sim_id

abbrev pub add_simulator : Simulator → Exec (Unit {0})
add_simulator sim = do
  taken ← gets (λ db. ltb 0 (count_where (clashes sim) db.simulators))
  raise_if taken integrity_error
  modify (λ db. record db { simulators = db.simulators ++ sim ∷ [] })

abbrev pub new_simulator : ℕ → ℕ → String → Json → Dict → ℕ → Option ℕ → Simulator
new_simulator id now sim_id public_summary private_state user_id conversation_id = record {
  id = id;
  sim_id = sim_id;
  user_id = user_id;
  conversation_id = conversation_id;
  public_summary = some public_summary;
  private_state = obj private_state;
  reveal_request_count = 0;
  created_at = now;
}

unfoldable pub create_simulator_record :
    ℕ → ℕ → String → Json → Dict → ℕ → Option ℕ → Exec Simulator
create_simulator_record id now sim_id public_summary private_state user_id conversation_id = do
  let sim = new_simulator id now sim_id public_summary private_state user_id conversation_id
  add_simulator sim
  pure sim

abbrev pub set_count : ℕ → Simulator → Simulator
set_count count sim = record sim { reveal_request_count = count }

abbrev pub write_simulator : ℕ → (Simulator → Simulator) → Database → Database
write_simulator id f db = record db { simulators = update_where (λ s. s.id == id) f db.simulators }

abbrev pub store_count : ℕ → Option Simulator → Exec (Option Simulator)
store_count count none = pure none
store_count count (some sim) = do
  modify (write_simulator sim.id (set_count count))
  pure (some (set_count count sim))

unfoldable pub set_reveal_request_count : String → ℕ → ℕ → Exec (Option Simulator)
set_reveal_request_count sim_id user_id count = do
  sim ← get_simulator_by_sim_id sim_id user_id
  store_count count sim
