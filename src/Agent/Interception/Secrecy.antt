-- ===== src/Agent/Interception/Secrecy.antt =====
-- Where the hidden state of a simulator goes: out of the result of the tool that makes it, and into
-- the input of the tools that need it.
use factorial.Prelude.{
  String, ◌≡◌, refl, ◌∙◌, Bool, true, false, ◌||◌, none, some, arith, str_eq, eq_iff, leb,
}
use factorial.Prelude.Maps
use factorial.Prelude.Maps.{lookup-insert}
use factorial.Model.Json
use factorial.Model.Json.{Json, Dict, bool, str, obj, lookup-erase}
use factorial.Agent.Interception.{
  SimulatorStates, RevealCounts, with_state, count_of, reveal_dispatch, pre_dispatch, Stash,
  post_dispatch, stash, or_empty,
}
use factorial.Agent.Interception.Reveal.{asks, asking_step, confirmed_of_reveal}

stash-states :
    (sim_id : String) (private : Dict) (s : Stash) (shown : Json)
    → Maps.lookup sim_id (stash (some (str sim_id)) (some (obj private)) shown s).states
      ≡ some private
stash-states sim_id private s shown = simp (lookup-insert) (ground (arith, eq_iff sim_id sim_id))

-- What the model and the audit log see of a new simulator has no key "_private" and is otherwise the
-- tool's result; where that result names the simulator, the hidden state is kept under that name.
pub post_dispatch-hides :
    (result : Dict) (s : Stash)
    → (shown : Dict) × ((post_dispatch "create_simulator" (obj result) s).0 ≡ obj shown)
      × (Json.lookup "_private" shown ≡ none)
      × ((key : String)
          → str_eq "_private" key ≡ false
          → Json.lookup key shown ≡ Json.lookup key result)
      × ((sim_id : String) (private : Dict)
          → Json.lookup "sim_id" result ≡ some (str sim_id)
          → Json.lookup "_private" result ≡ some (obj private)
          → Maps.lookup sim_id (post_dispatch "create_simulator" (obj result) s).1.states
            ≡ some private)
unfolding post_dispatch
post_dispatch-hides result s = (
  Json.erase "_private" result,
  refl,
  lookup-erase "_private" "_private" result,
  λ key other. lookup-erase "_private" key result ∙ rw other,
  λ sim_id private named hidden.
      rw (lookup-erase "_private" "sim_id" result, named, hidden)
        (stash-states sim_id private s
          (or_empty (Json.lookup "public" (Json.erase "_private" result)))),
)

state_of_reveal :
    (sim_id : String) (input state : Dict) (states : SimulatorStates) (counts : RevealCounts)
    (force : Bool)
    → Maps.lookup sim_id states ≡ some state
    → Json.lookup "simulator_state" (reveal_dispatch sim_id input states counts force).0
      ≡ some (obj state)
unfolding reveal_dispatch with_state
state_of_reveal sim_id input state states counts force known = rw (
  Json.lookup-insert "confirmed" "simulator_state",
  known,
  Json.lookup-insert "simulator_state" "simulator_state",
)

-- A request to reveal a simulator whose state is known reaches the tool with that state and with the
-- verdict of the policy as `confirmed`, whatever the model wrote under these two keys.
pub pre_dispatch-reveal :
    (sim_id name : String) (input state : Dict) (states : SimulatorStates) (counts : RevealCounts)
    (force : Bool)
    → asks sim_id name input ≡ true
    → Maps.lookup sim_id states ≡ some state
    → let (effective, counts') = pre_dispatch name input states counts force in
      (Json.lookup "confirmed" effective ≡ some (bool (force || leb 1 (count_of sim_id counts))))
      × (Json.lookup "simulator_state" effective ≡ some (obj state))
pre_dispatch-reveal sim_id name input state states counts force asking known =
    rw (asking_step sim_id states name input counts force asking) (
      confirmed_of_reveal sim_id states input counts force,
      state_of_reveal sim_id input state states counts force known,
    )
