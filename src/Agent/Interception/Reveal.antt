-- ===== src/Agent/Interception/Reveal.antt =====
-- The double confirmation: what has to happen before a simulator is revealed.
use factorial.Prelude.{
  ℕ, ◌+◌, ◌/◌, min, String, ◌≡◌, refl, ap, inl, inr, Bool, true, false, ◌&&◌, Option, none, some,
  List, [], ◌∷◌, arith, str_eq, eq_iff, leb, if◌then◌else◌, Bool-cases,
}
use factorial.Prelude.Maps.{lookup-insert}
use factorial.Model.Json
use factorial.Model.Json.{Json, Dict, bool}
use factorial.Agent.Interception.{
  SimulatorStates, RevealCounts, sim_id_of, count_of, is_confirmed, reveal_dispatch, pre_dispatch,
  dispatch_by_id,
}

-- Calls of tools, in the order in which the loop dispatches them.
abbrev pub Calls : Type 0
Calls = List (String × Dict)

abbrev names_sim : String → Option String → Bool
names_sim sim_id none = false
names_sim sim_id (some other) = str_eq other sim_id

-- Whether a call asks to reveal this simulator.
abbrev pub asks : String → String → Dict → Bool
asks sim_id tool_name input =
    str_eq tool_name "reveal_simulator" && names_sim sim_id (sim_id_of input)

abbrev is_true : Option Json → Bool
is_true (some (bool b)) = b
is_true _ = false

-- The requests to reveal a simulator in a list of calls, and those that go to the tool with `confirmed`.
abbrev pub asked : String → Calls → ℕ
asked sim_id [] = 0
asked sim_id ((name, input) ∷ calls) =
    (if asks sim_id name input then 1 else 0) + asked sim_id calls

abbrev pub granted : String → Calls → SimulatorStates → RevealCounts → ℕ
granted sim_id [] states counts = 0
granted sim_id ((name, input) ∷ calls) states counts =
    let (effective, counts') = pre_dispatch name input states counts false in
    (if asks sim_id name input && is_true (Json.lookup "confirmed" effective) then 1 else 0)
    + granted sim_id calls states counts'

asked_id :
    {sim_id : String} (found : Option String) → names_sim sim_id found ≡ true → found ≡ some sim_id
asked_id none h = cc
asked_id {sim_id} (some other) h = ap some ((eq_iff other sim_id).0 h)

module _ (sim_id : String) (states : SimulatorStates) where
  reveal_step :
      (input : Dict) (counts : RevealCounts) (force : Bool)
      → sim_id_of input ≡ some sim_id
      → pre_dispatch "reveal_simulator" input states counts force
        ≡ reveal_dispatch sim_id input states counts force
  unfolding pre_dispatch
  reveal_step input counts force named = rw (named, pre_dispatch)

  pub confirmed_of_reveal :
      (input : Dict) (counts : RevealCounts) (force : Bool)
      → Json.lookup "confirmed" (reveal_dispatch sim_id input states counts force).0
        ≡ some (bool (is_confirmed force (count_of sim_id counts)))
  unfolding reveal_dispatch
  confirmed_of_reveal input counts force = rw (Json.lookup-insert "confirmed" "confirmed")

  count_of_reveal :
      (input : Dict) (counts : RevealCounts)
      → count_of sim_id (reveal_dispatch sim_id input states counts false).1
        ≡ (if leb 1 (count_of sim_id counts) then 0 else count_of sim_id counts + 1)
  unfolding reveal_dispatch
  count_of_reveal input counts =
      let current = count_of sim_id counts in
      ground (
        arith,
        lookup-insert sim_id sim_id (if leb 1 current then 0 else current + 1) counts,
        eq_iff sim_id sim_id,
      )

  other_by_id :
      (found : Option String) (name : String) (input : Dict) (counts : RevealCounts)
      → (str_eq name "reveal_simulator" && names_sim sim_id found) ≡ false
      → count_of sim_id (dispatch_by_id found name input states counts false).1
        ≡ count_of sim_id counts
  unfolding reveal_dispatch
  other_by_id none name input counts other = refl
  other_by_id (some j) name input counts other =
      let current = count_of j counts in
      ground (
        arith,
        lookup-insert j sim_id (if leb 1 current then 0 else current + 1) counts,
        eq_iff j sim_id,
      )

  other_step :
      (name : String) (input : Dict) (counts : RevealCounts)
      → asks sim_id name input ≡ false
      → count_of sim_id (pre_dispatch name input states counts false).1 ≡ count_of sim_id counts
  unfolding pre_dispatch
  other_step name input counts other =
      ground (arith, other_by_id (sim_id_of input) name input counts other)

  -- A call that asks, by name.
  pub asking_step :
      (name : String) (input : Dict) (counts : RevealCounts) (force : Bool)
      → asks sim_id name input ≡ true
      → pre_dispatch name input states counts force
        ≡ reveal_dispatch sim_id input states counts force
  asking_step name input counts force asking =
      let named : name ≡ "reveal_simulator" = (eq_iff name "reveal_simulator").0 (ground arith) in
      rw named (reveal_step input counts force (asked_id (sim_id_of input) (ground arith)))

  -- Without the debugging switch, of the requests to reveal a simulator every second one is confirmed,
  -- and the first only if one was already pending when the calls began: whatever other calls come
  -- between, and whatever the model writes into them.
  pub granted-half :
      (calls : Calls) (counts : RevealCounts)
      → granted sim_id calls states counts
        ≡ (asked sim_id calls + min 1 (count_of sim_id counts)) / 2
  granted-half [] counts = omega arith
  granted-half ((name, input) ∷ calls) counts = elim (Bool-cases (asks sim_id name input)) [
    | inl asking ↦
        rw
          (
            asking,
            asking_step name input counts false asking,
            confirmed_of_reveal input counts false,
          )
          (ground (
            arith,
            granted-half calls (reveal_dispatch sim_id input states counts false).1,
            count_of_reveal input counts,
          ))
    | inr other ↦ rw other (
        omega (
          arith,
          granted-half calls (pre_dispatch name input states counts false).1,
          other_step name input counts other,
        ))
  ]
