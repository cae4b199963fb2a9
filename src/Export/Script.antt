-- ===== src/Export/Script.antt =====
-- backend/src/app/services/reproducible_export_service.py: the recorded calls of tools as code that makes them again.
-- A text is the list of its code points. How Python writes a number, an id and a dict, the version of the package,
-- the time, the Jinja templates, and the column `output_truncated`, which no service writes, are parameters.
pub mod Docstring
pub mod Calls
pub mod SameCode
pub mod Warnings
use factorial.Prelude.{
  Text, codes, ℕ, ◌+◌, ◌-◌, ◌/◌, String, Bool, ◌&&◌, ◌||◌, Option, none, some, List, [], ◌∷◌, ◌++◌,
  str_eq, ltb, leb, ◌==◌, if◌then◌else◌, length, select,
}
use factorial.Prelude.Sorting.{sort_by}
use factorial.Model.{Experiment}
use factorial.Model.Json
use factorial.Model.Json.{Json, Dict}
use factorial.Chat.Rows.{ToolCallRow, Store}

-- `json` is json.dumps(value, indent=4, sort_keys=True), `uuid` is str(id).
pub record Python : Type 0 where
  pub show : ℕ → Text
  pub uuid : ℕ → Text
  pub json : Dict → Text

-- ANALYSIS_TOOLS
abbrev pub is_analysis_tool : String → Bool
is_analysis_tool name =
    str_eq name "generate_design"
    || (str_eq name "evaluate_design" || str_eq name "analyze_results")

abbrev pub is_step : ℕ → ToolCallRow → Bool
is_step conversation_id call =
    call.conversation_id == conversation_id
    && (is_analysis_tool call.tool_name && str_eq call.status "success")

-- ORDER BY agent_turn, call_order
abbrev pub runs_before : ToolCallRow → ToolCallRow → Bool
runs_before a b =
    ltb a.agent_turn b.agent_turn || (a.agent_turn == b.agent_turn && leb a.call_order b.call_order)

abbrev pub calls_of : List ToolCallRow → Option ℕ → List ToolCallRow
calls_of rows none = []
calls_of rows (some conversation_id) = sort_by runs_before (select (is_step conversation_id) rows)

unfoldable pub fetch_analysis_tool_calls : Store → Experiment → List ToolCallRow
fetch_analysis_tool_calls store experiment = calls_of store.tool_calls experiment.conversation_id

-- None is the HTTPException with status 400.
abbrev pub some_calls : List ToolCallRow → Option (List ToolCallRow)
some_calls [] = none
some_calls (call ∷ calls) = some (call ∷ calls)

unfoldable pub fetch_or_400 : Store → Experiment → Option (List ToolCallRow)
unfolding fetch_analysis_tool_calls
fetch_or_400 store experiment = some_calls (fetch_analysis_tool_calls store experiment)

-- text.replace('"""', "'''") where no double quote, one, or two stand before the text.
abbrev pub replaced_after : Text → Text × Text × Text
replaced_after [] = ([], b'"' ∷ [], b'"' ∷ b'"' ∷ [])
replaced_after (c ∷ t) =
    let rest = replaced_after t in
    if c == b'"'
    then (rest.1, rest.2, 39 ∷ 39 ∷ 39 ∷ rest.0)
    else (c ∷ rest.0, b'"' ∷ c ∷ rest.0, b'"' ∷ b'"' ∷ c ∷ rest.0)

unfoldable pub sanitise_for_docstring : Text → Text
sanitise_for_docstring t = (replaced_after t).0

-- The parts that follow the first one in "\n".join(parts).
abbrev pub joined_rest : List Text → Text
joined_rest [] = []
joined_rest (line ∷ lines) = (10 ∷ line) ++ joined_rest lines

abbrev pub join_lines : List Text → Text
join_lines [] = []
join_lines (line ∷ lines) = line ++ joined_rest lines

abbrev pub name_or_untitled : Text → Text
name_or_untitled [] = codes "Untitled Experiment"
name_or_untitled (c ∷ name) = c ∷ name

module _ (python : Python) where
  abbrev pub step_var : ℕ → ToolCallRow → Text
  step_var i call = codes "step_" ++ (python.show i ++ (codes "_" ++ codes call.tool_name))

  abbrev pub input_line : ℕ → ToolCallRow → Text
  input_line i call = step_var i call ++ (codes "_input = " ++ python.json call.tool_input)

  abbrev pub call_line : ℕ → ToolCallRow → Text
  call_line i call =
      step_var i call
      ++ (codes " = execute_tool_call(\""
          ++ (codes call.tool_name ++ (codes "\", " ++ (step_var i call ++ codes "_input)"))))

  abbrev pub step_comment : ℕ → ToolCallRow → Text
  step_comment i call =
      codes "# Step "
      ++ (python.show i
          ++ (codes ": "
              ++ (codes call.tool_name
                  ++ (codes " (agent_turn="
                      ++ (python.show call.agent_turn
                          ++ (codes ", call_order="
                              ++ (python.show call.call_order ++ codes ")")))))))

  -- The loop over enumerate(calls, start=1).
  abbrev pub step_lines : ℕ → List ToolCallRow → List Text
  step_lines i [] = []
  step_lines i (call ∷ calls) =
      step_comment i call ∷ input_line i call ∷ call_line i call ∷ [] ∷ step_lines (i + 1) calls

  abbrev pub print_lines : ℕ → List ToolCallRow → List Text
  print_lines i [] = []
  print_lines i (call ∷ calls) =
      (codes "    print(\"  - "
        ++ (step_var i call ++ (codes ":\", type(" ++ (step_var i call ++ codes ").__name__)"))))
      ∷ print_lines (i + 1) calls

  abbrev pub header_rest : Experiment → Text → Text → List Text
  header_rest experiment version generated_at =
      []
      ∷ (codes "Experiment ID  : " ++ python.uuid experiment.id)
      ∷ (codes "Generated (UTC): " ++ generated_at)
      ∷ (codes "process-improve: " ++ version)
      ∷ []
      ∷ codes "Re-run locally:"
      ∷ (codes "    pip install \"process-improve==" ++ (version ++ codes "\""))
      ∷ codes "    python analysis.py"
      ∷ []
      ∷ codes "Reproducibility scope: numeric tool outputs (coefficients, p-values,"
      ∷ codes "design matrix, etc.) will be identical to what the factorial agent"
      ∷ codes "showed. Plot images may differ in rendering (font / renderer drift)."
      ∷ codes "\"\"\""
      ∷ []
      ∷ codes "from __future__ import annotations"
      ∷ []
      ∷ codes "from process_improve.tool_spec import execute_tool_call"
      ∷ []
      ∷ []
      ∷ []

  abbrev pub header_first : Experiment → Text
  header_first experiment =
      codes "\"\"\"Reproducible analysis for experiment: "
      ++ sanitise_for_docstring (name_or_untitled (codes experiment.name))

  abbrev pub footer : List ToolCallRow → List Text
  footer calls =
      []
      ∷ codes "if __name__ == \"__main__\":"
      ∷ (codes "    print(\"Reproduced "
          ++ (python.show (length calls) ++ codes " analysis step(s).\")"))
      ∷ (print_lines 1 calls ++ ([] ∷ []))

  -- None is the ValueError for no calls.
  unfoldable pub render_python_script : Experiment → List ToolCallRow → Text → Text → Option Text
  unfolding sanitise_for_docstring
  render_python_script experiment [] version generated_at = none
  render_python_script experiment (call ∷ calls) version generated_at = some (
      join_lines (
        header_first experiment
        ∷ (header_rest experiment version generated_at
            ++ (step_lines 1 (call ∷ calls) ++ footer (call ∷ calls)))))
