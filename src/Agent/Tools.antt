-- ===== src/Agent/Tools.antt =====
-- backend/src/app/services/tools.py. The package process_improve is a parameter: the names of its
-- tools, and what a call of one gives back or raises, in a worker process and in this one.
pub mod Errors
use factorial.Prelude.{
  Text, codes, ℕ, String, Bool, true, false, not, ◌&&◌, ◌||◌, Option, none, some, List, [], ◌∷◌,
  str_eq, if◌then◌else◌,
}
use Prim.Native.String.{◌++◌ as append}
use factorial.Prelude.Int.{pos}
use factorial.Config.{Settings}
use factorial.Model.Json
use factorial.Model.Json.{Json, Dict, Items, bool, int, str, arr, obj, nil, cons, end, entry}

-- The exceptions that a call of process_improve raises, by the handler that takes them.
pub data PiError : Type 0 where
  too_large input_invalid timeout memory_exceeded other_safety : String → PiError
  value_error type_error : String → PiError
  other : String → PiError

pub data Outcome : Type 0 where
  returned : Json → Outcome
  raised : PiError → Outcome

pub record ProcessImprove : Type 0 where
  pub tool_names : List String
  pub safe_execute : String → Dict → Outcome
  pub execute : String → Dict → Outcome

-- services/exceptions.py: the class of a tool error, with its message and the tool's name.
pub data ErrorClass : Type 0 where
  execution_error input_too_large_error timeout_error memory_exceeded_error : ErrorClass

pub record ToolError : Type 0 where
  pub error_class : ErrorClass
  pub message : String
  pub tool_name : String

abbrev pub http_status : ErrorClass → ℕ
http_status execution_error = 422
http_status input_too_large_error = 413
http_status timeout_error = 408
http_status memory_exceeded_error = 507

pub data ToolResult : Type 0 where
  value : Json → ToolResult
  error : ToolError → ToolResult
  -- a TypeError, which `execute_tool_call` does not catch
  type_error_raised : ToolResult

abbrev pub fail : ErrorClass → String → String → ToolResult
fail error_class tool_name message =
    error (record { error_class = error_class; message = message; tool_name = tool_name })

-- `tool_name in _LOCAL_TOOL_NAMES`
unfoldable pub is_local_tool : String → Bool
is_local_tool name = str_eq name "record_plan" || str_eq name "update_plan"

abbrev pub mem : String → List String → Bool
mem name [] = false
mem name (known ∷ names) = str_eq known name || mem name names

-- s.strip() is not empty; which characters are white space is the interpreter's table.
abbrev pub has_ink : (ℕ → Bool) → Text → Bool
has_ink is_space [] = false
has_ink is_space (c ∷ text) = not (is_space c) || has_ink is_space text

unfoldable pub is_step : (ℕ → Bool) → Json → Bool
is_step is_space (str s) = has_ink is_space (codes s)
is_step is_space _ = false

unfoldable pub all_steps : (ℕ → Bool) → Items → Bool
unfolding is_step
all_steps is_space nil = true
all_steps is_space (cons s rest) = is_step is_space s && all_steps is_space rest

unfoldable pub valid_steps : (ℕ → Bool) → Option Json → Bool
unfolding all_steps
valid_steps is_space (some (arr (cons s rest))) = all_steps is_space (cons s rest)
valid_steps is_space _ = false

-- isinstance(i, int) and i >= 0; a bool is an int too
abbrev pub is_index : Option Json → Bool
is_index (some (int (pos n))) = true
is_index (some (bool b)) = true
is_index _ = false

abbrev pub is_plan_status : Option Json → Bool
is_plan_status (some (str s)) =
    str_eq s "pending" || (str_eq s "in_progress" || (str_eq s "completed" || str_eq s "skipped"))
is_plan_status _ = false

-- What the tests on an input find: nothing, a fault with its message, or a TypeError that a test itself raises.
pub data Check : Type 0 where
  valid unhashable : Check
  fault : String → Check

-- `status not in {...}`: a set takes neither a list nor a dict.
abbrev pub status_check : Option Json → Check
status_check (some (arr xs)) = unhashable
status_check (some (obj d)) = unhashable
status_check status =
    if is_plan_status status
    then valid
    else fault "update_plan: status must be pending|in_progress|completed|skipped."

unfoldable pub update_fault : Json → Check
update_fault (obj upd) =
    if not (is_index (Json.lookup "step_index" upd))
    then fault "update_plan: step_index must be a non-negative integer."
    else status_check (Json.lookup "status" upd)
update_fault _ = fault "update_plan update must be an object."

abbrev pub first_fault : Check → Check → Check
first_fault valid rest = rest
first_fault unhashable rest = unhashable
first_fault (fault message) rest = fault message

-- The first update that is not valid decides.
unfoldable pub updates_fault : Items → Check
unfolding update_fault
updates_fault nil = valid
updates_fault (cons upd rest) = first_fault (update_fault upd) (updates_fault rest)

unfoldable pub plan_fault : Option Json → Check
unfolding updates_fault
plan_fault (some (arr (cons upd rest))) = updates_fault (cons upd rest)
plan_fault _ = fault "update_plan requires a non-empty list of update objects."

abbrev pub acknowledge : String → Check → ToolResult
acknowledge tool_name valid = value (obj (entry "acknowledged" (bool true) end))
acknowledge tool_name unhashable = type_error_raised
acknowledge tool_name (fault message) = fail execution_error tool_name message

unfoldable pub execute_local_tool : (ℕ → Bool) → String → Dict → ToolResult
unfolding valid_steps plan_fault
execute_local_tool is_space tool_name input =
    if str_eq tool_name "record_plan"
    then acknowledge tool_name (
        if valid_steps is_space (Json.lookup "steps" input)
        then valid
        else fault "record_plan requires a non-empty list of non-empty string steps.")
    else if str_eq tool_name "update_plan"
    then acknowledge tool_name (plan_fault (Json.lookup "updates" input))
    else acknowledge tool_name valid

-- The handlers of `execute_tool_call`, `_translate_safety_error` included.
unfoldable pub translate : String → PiError → ToolResult
translate name (too_large s) = fail input_too_large_error name s
translate name (input_invalid s) = fail input_too_large_error name s
translate name (timeout s) = fail timeout_error name s
translate name (memory_exceeded s) = fail memory_exceeded_error name s
translate name (other_safety s) = fail execution_error name s
translate name (value_error s) = fail execution_error name s
translate name (type_error s) = fail execution_error name s
translate name (other s) = fail execution_error name (append "Internal error executing tool " name)

abbrev pub settle : String → Outcome → ToolResult
settle name (returned json) = value json
settle name (raised e) = translate name e

-- `_ALLOWED_TOOL_NAMES`
abbrev pub is_allowed : ProcessImprove → String → Bool
is_allowed pi name = mem name pi.tool_names || is_local_tool name

-- The input of a tool call is an object, so the test on its type has passed. The message of the
-- first error leaves out the names that the source prints into it.
unfoldable pub execute_tool_call :
    Settings → ProcessImprove → (ℕ → Bool) → String → Dict → ToolResult
execute_tool_call settings pi is_space name input =
    if not (is_allowed pi name)
    then fail execution_error name "Unknown tool"
    else if is_local_tool name
    then execute_local_tool is_space name input
    else if settings.tool_safe_mode
    then settle name (pi.safe_execute name input)
    else settle name (pi.execute name input)
