-- ===== src/Agent/Tools/Errors.antt =====
-- What a caller of `execute_tool_call` can rely on, whatever the package does.
use factorial.Prelude.{
  ℕ, ◌≤◌, ◌<◌, String, ◌≡◌, refl, ◌≢◌, ◌↔◌, ◌⊎◌, inl, inr, Bool, true, false, ◌||◌, Option, none,
  some, arith, if◌then◌else◌, str_eq, Bool-cases,
}
use factorial.Config.{Settings}
use factorial.Model.Json
use factorial.Model.Json.{
  Json, Dict, Items, null, int, float, str, bool, arr, obj, nil, cons, end, entry,
}
use factorial.Agent.Tools.{
  PiError, Outcome, returned, raised, ProcessImprove, ToolResult, value, error, http_status, Check,
  valid, unhashable, fault, status_check, type_error_raised, is_local_tool, is_allowed, mem,
  first_fault, plan_fault, acknowledge, execute_tool_call, execute_local_tool, translate, settle,
  updates_fault, update_fault, is_index, is_plan_status,
}

-- An update that passes the test on its index, and whose status is a list or a dict.
abbrev pub HasListStatus : Json → Type 0
HasListStatus (obj upd) =
    (is_index (Json.lookup "step_index" upd) ≡ true)
    × (status_check (Json.lookup "status" upd) ≡ unhashable)
HasListStatus _ = ⊥

abbrev pub SomeListStatus : Items → Type 0
SomeListStatus nil = ⊥
SomeListStatus (cons upd rest) = HasListStatus upd ⊎ SomeListStatus rest

abbrev pub ListStatusIn : Option Json → Type 0
ListStatusIn (some (arr xs)) = SomeListStatus xs
ListStatusIn _ = ⊥

-- The result is a value, or a tool error that carries the tool's own name and a status of 4xx or 5xx; a TypeError only
-- comes of `update_plan` with a status that is a list or a dict.
abbrev pub IsReported : String → Dict → ToolResult → Type 0
IsReported name input (value json) = Unit
IsReported name input (error e) =
    (e.tool_name ≡ name) × (400 ≤ http_status e.error_class) × (http_status e.error_class < 600)
IsReported name input type_error_raised =
    (str_eq name "update_plan" ≡ true) × ListStatusIn (Json.lookup "updates" input)

translate-IsReported :
    (name : String) (input : Dict) (e : PiError) → IsReported name input (translate name e)
unfolding translate
translate-IsReported name input e = ground arith

settle-IsReported :
    (name : String) (input : Dict) (o : Outcome) → IsReported name input (settle name o)
settle-IsReported name input (returned json) = tt
settle-IsReported name input (raised e) = translate-IsReported name input e

update_fault-unhashable : (upd : Json) → update_fault upd ≡ unhashable → HasListStatus upd
unfolding update_fault
update_fault-unhashable (obj upd) h = (ground (arith, h), ground (arith, h))
update_fault-unhashable _ h = cc

first_fault-unhashable :
    (a b : Check) → first_fault a b ≡ unhashable → (a ≡ unhashable) ⊎ (b ≡ unhashable)
first_fault-unhashable valid b h = inr h
first_fault-unhashable unhashable b h = inl refl
first_fault-unhashable (fault message) b h = cc

updates_fault-unhashable : (xs : Items) → updates_fault xs ≡ unhashable → SomeListStatus xs
unfolding updates_fault
updates_fault-unhashable nil h = cc
updates_fault-unhashable (cons upd rest) h =
    elim (first_fault-unhashable (update_fault upd) (updates_fault rest) h) [
      | inl here ↦ inl (update_fault-unhashable upd here)
      | inr later ↦ inr (updates_fault-unhashable rest later)
    ]

plan_fault-unhashable :
    (updates : Option Json) → plan_fault updates ≡ unhashable → ListStatusIn updates
unfolding plan_fault
plan_fault-unhashable (some (arr (cons upd rest))) h = updates_fault-unhashable (cons upd rest) h
plan_fault-unhashable _ h = cc

acknowledge-IsReported :
    (name : String) (input : Dict) (check : Check)
    → (check ≡ unhashable
        → (str_eq name "update_plan" ≡ true) × ListStatusIn (Json.lookup "updates" input))
    → IsReported name input (acknowledge name check)
acknowledge-IsReported name input valid h = tt
acknowledge-IsReported name input unhashable h = h refl
acknowledge-IsReported name input (fault message) h = (refl, omega arith, omega arith)

steps_hashable :
    (b : Bool) (message : String) → (if b then valid else fault message) ≡ unhashable → ⊥
steps_hashable true message h = cc
steps_hashable false message h = cc

local-IsReported :
    (is_space : ℕ → Bool) (name : String) (input : Dict)
    → IsReported name input (execute_local_tool is_space name input)
unfolding execute_local_tool
local-IsReported is_space name input = elim (Bool-cases (str_eq name "record_plan")) [
  | inl plan ↦ rw plan (acknowledge-IsReported name input _ (λ h. absurd (steps_hashable _ _ h)))
  | inr no_plan ↦ elim (Bool-cases (str_eq name "update_plan")) [
    | inl update ↦
        rw (no_plan, update)
          (acknowledge-IsReported name input _ (λ h. (update, plan_fault-unhashable _ h)))
    | inr neither ↦ rw (no_plan, neither) (acknowledge-IsReported name input valid (λ h. cc))
  ]
]

-- A call gives a value or a tool error, whatever process_improve raises: the error carries the tool's own name, and a
-- status from 400 to 599; a TypeError comes only of `update_plan`, with a status that is a list or a dict behind a valid
-- index.
pub execute_tool_call-IsReported :
    (settings : Settings) (pi : ProcessImprove) (is_space : ℕ → Bool) (name : String) (input : Dict)
    → IsReported name input (execute_tool_call settings pi is_space name input)
unfolding execute_tool_call
execute_tool_call-IsReported settings pi is_space name input =
    elim (Bool-cases (is_allowed pi name)) [
      | inr unknown ↦ rw unknown (refl, omega arith, omega arith)
      | inl known ↦ elim (Bool-cases (is_local_tool name)) [
        | inl plan ↦ rw (known, plan) (local-IsReported is_space name input)
        | inr remote ↦ elim (Bool-cases settings.tool_safe_mode) [
          | inl safe ↦
              rw (known, remote, safe) (settle-IsReported name input (pi.safe_execute name input))
          | inr fast ↦
              rw (known, remote, fast) (settle-IsReported name input (pi.execute name input))
        ]
      ]
    ]

-- An update of the plan, as its schema has it: an index that is a whole number from 0 (or a bool, which
-- Python counts as one) and one of the four statuses.
abbrev pub IsUpdate : Json → Type 0
IsUpdate (obj upd) =
    (is_index (Json.lookup "step_index" upd) ≡ true)
    × (is_plan_status (Json.lookup "status" upd) ≡ true)
IsUpdate _ = ⊥

abbrev pub AllUpdates : Items → Type 0
AllUpdates nil = Unit
AllUpdates (cons upd rest) = IsUpdate upd × AllUpdates rest

status_valid : (o : Option Json) → status_check o ≡ valid → is_plan_status o ≡ true
status_valid none h = cc
status_valid (some (str s)) h = ground (arith, h)
status_valid (some (arr xs)) h = cc
status_valid (some (obj d)) h = cc
status_valid (some null) h = cc
status_valid (some (bool b)) h = cc
status_valid (some (int i)) h = cc
status_valid (some (float x)) h = cc

valid_status : (o : Option Json) → is_plan_status o ≡ true → status_check o ≡ valid
valid_status (some (str s)) h = ground (arith, h)
valid_status _ h = cc

update_fault-none : (upd : Json) → update_fault upd ≡ valid → IsUpdate upd
unfolding update_fault
update_fault-none (obj upd) h =
    (ground (arith, h), status_valid (Json.lookup "status" upd) (ground (arith, h)))
update_fault-none _ h = cc

update_fault_of : (upd : Json) → IsUpdate upd → update_fault upd ≡ valid
unfolding update_fault
update_fault_of (obj upd) h = rw h.0 (valid_status (Json.lookup "status" upd) h.1)
update_fault_of _ h = absurd h

first_fault-none : (a b : Check) → first_fault a b ≡ valid → (a ≡ valid) × (b ≡ valid)
first_fault-none valid b h = (refl, h)
first_fault-none unhashable b h = cc
first_fault-none (fault message) b h = cc

updates_fault_iff : (xs : Items) → (updates_fault xs ≡ valid) ↔ AllUpdates xs
unfolding updates_fault
updates_fault_iff nil = (λ h. tt, λ h. refl)
updates_fault_iff (cons upd rest) = (
  λ h.
      let parts = first_fault-none (update_fault upd) (updates_fault rest) h in
      (update_fault-none upd parts.0, (updates_fault_iff rest).0 parts.1),
  λ h. rw (update_fault_of upd h.0, (updates_fault_iff rest).1 h.1),
)

abbrev pub IsUpdateList : Option Json → Type 0
IsUpdateList (some (arr xs)) = (xs ≢ nil) × AllUpdates xs
IsUpdateList _ = ⊥

plan_fault_iff : (updates : Option Json) → (plan_fault updates ≡ valid) ↔ IsUpdateList updates
unfolding plan_fault
plan_fault_iff (some (arr (cons upd rest))) = (
  λ h. (λ e. cc, (updates_fault_iff (cons upd rest)).0 h),
  λ h. (updates_fault_iff (cons upd rest)).1 h.1,
)
plan_fault_iff (some (arr nil)) = (λ h. cc, λ h. absurd (h.0 refl))
plan_fault_iff _ = (λ h. cc, λ h. absurd h)

or_true : (b : Bool) → (b || true) ≡ true
or_true true = refl
or_true false = refl

acknowledge_iff :
    (name : String) (check : Check)
    → (acknowledge name check ≡ value (obj (entry "acknowledged" (bool true) end)))
      ↔ (check ≡ valid)
acknowledge_iff name valid = (λ h. refl, λ h. refl)
acknowledge_iff name unhashable = (λ h. cc, λ h. cc)
acknowledge_iff name (fault message) = (λ h. cc, λ h. cc)

-- `update_plan` is acknowledged exactly when its input has under "updates" a list that is not empty, each item of it
-- an object with a valid index and status. Any other input gives an error.
pub update_plan_iff :
    (settings : Settings) (pi : ProcessImprove) (is_space : ℕ → Bool) (input : Dict)
    → (execute_tool_call settings pi is_space "update_plan" input
        ≡ value (obj (entry "acknowledged" (bool true) end)))
      ↔ IsUpdateList (Json.lookup "updates" input)
unfolding execute_tool_call is_local_tool execute_local_tool
update_plan_iff settings pi is_space input =
    let updates = Json.lookup "updates" input in
    let ack = acknowledge_iff "update_plan" (plan_fault updates) in
    let found = plan_fault_iff updates in
    rw (or_true (mem "update_plan" pi.tool_names)) (λ h. found.0 (ack.0 h), λ h. ack.1 (found.1 h))
