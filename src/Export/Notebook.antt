-- ===== src/Export/Notebook.antt =====
-- The notebook, the warnings and the bundle of backend/src/app/services/reproducible_export_service.py. A notebook is
-- its cells, before nbformat writes them, and a bundle its entries, before zipfile packs them.
use factorial.Prelude.{
  Text, codes, ℕ, ◌+◌, String, Bool, not, ◌&&◌, ◌||◌, Option, none, some, List, [], ◌∷◌, ◌++◌,
  str_eq, if◌then◌else◌, is_some, length,
}
use factorial.Model.{Experiment}
use factorial.Model.Json
use factorial.Model.Json.{Json, Dict}
use factorial.Chat.Rows.{ToolCallRow, Store}
use factorial.Export.Script.{
  Python, step_var, input_line, call_line, join_lines, name_or_untitled, render_python_script,
  fetch_or_400,
}

pub record StepBlock : Type 0 where
  pub index : ℕ
  pub tool_name : String
  pub agent_turn : ℕ
  pub call_order : ℕ
  pub var_name : Text
  pub input_literal : Text
  pub code : Text

pub data CellOfNotebook : Type 0 where
  markdown_cell code_cell : Text → CellOfNotebook

module _ (python : Python) where
  abbrev pub step_block : ℕ → ToolCallRow → StepBlock
  step_block i call = record {
    index = i;
    tool_name = call.tool_name;
    agent_turn = call.agent_turn;
    call_order = call.call_order;
    var_name = step_var python i call;
    input_literal = python.json call.tool_input;
    code = input_line python i call ++ (10 ∷ call_line python i call);
  }

  -- enumerate(calls, start=i)
  abbrev pub blocks_from : ℕ → List ToolCallRow → List StepBlock
  blocks_from i [] = []
  blocks_from i (call ∷ calls) = step_block i call ∷ blocks_from (i + 1) calls

  abbrev pub step_blocks : List ToolCallRow → List StepBlock
  step_blocks calls = blocks_from 1 calls

  abbrev pub header_cell : Experiment → Text → Text → Text
  header_cell experiment version generated_at = join_lines (
      (codes "# Reproducible analysis: " ++ name_or_untitled (codes experiment.name))
      ∷ []
      ∷ (codes "- **Experiment ID**: `" ++ (python.uuid experiment.id ++ codes "`"))
      ∷ (codes "- **Generated (UTC)**: `" ++ (generated_at ++ codes "`"))
      ∷ (codes "- **process-improve**: `" ++ (version ++ codes "`"))
      ∷ []
      ∷ codes "Install the pinned dependency and run the cells below to"
      ∷ codes "reproduce the exact numeric outputs the factorial agent"
      ∷ codes "computed. Plot images may differ from the web UI because"
      ∷ codes "they are re-rendered locally (font / renderer drift)."
      ∷ []
      ∷ (codes "```bash\npip install \"process-improve==" ++ (version ++ codes "\"\n```"))
      ∷ [])

  abbrev pub step_title : StepBlock → Text
  step_title block =
      codes "## Step "
      ++ (python.show block.index
          ++ (codes " — `"
              ++ (codes block.tool_name
                  ++ (codes "`\n\nCaptured from agent turn "
                      ++ (python.show block.agent_turn
                          ++ (codes ", call order "
                              ++ (python.show block.call_order ++ codes ".")))))))

  abbrev pub step_cells : List StepBlock → List CellOfNotebook
  step_cells [] = []
  step_cells (block ∷ blocks) =
      markdown_cell (step_title block) ∷ code_cell block.code ∷ step_cells blocks

  abbrev pub import_line : Text
  import_line = codes "from process_improve.tool_spec import execute_tool_call"

  abbrev pub footer_cell : List ToolCallRow → Text
  footer_cell calls =
      codes "---\n\nReproduced "
      ++ (python.show (length calls)
          ++ codes
              " analysis step(s). See `data.xlsx` in the bundle for the design matrix and recorded responses.")

  -- None is the ValueError for no calls.
  unfoldable pub render_notebook :
      Experiment → List ToolCallRow → Text → Text → Option (List CellOfNotebook)
  render_notebook experiment [] version generated_at = none
  render_notebook experiment (call ∷ calls) version generated_at = some (
      (markdown_cell (header_cell experiment version generated_at)
        ∷ code_cell import_line
        ∷ step_cells (step_blocks (call ∷ calls)))
      ++ markdown_cell (footer_cell (call ∷ calls)) ∷ [])

  abbrev pub turn_and_order : ToolCallRow → Text
  turn_and_order call =
      codes "Step " ++ (python.show call.agent_turn ++ (codes "." ++ python.show call.call_order))

  abbrev pub seed_warning : ToolCallRow → Text
  seed_warning call =
      turn_and_order call
      ++ codes
          " (generate_design): no seed / random_state captured — any randomised run-order is expected to differ on re-run. Tracked in TODO.md."

  abbrev pub truncation_warning : ToolCallRow → Text
  truncation_warning call =
      turn_and_order call
      ++ (codes " ("
          ++ (codes call.tool_name
              ++ codes
                  "): tool_output was truncated server-side; reproducibility of this step is not guaranteed."))

  abbrev pub has_key : String → Dict → Bool
  has_key key d = is_some (Json.lookup key d)

  -- _DESIGN_SEED_KEYS & set(tool_input)
  abbrev pub has_seed : Dict → Bool
  has_seed tool_input =
      has_key "seed" tool_input
      || (has_key "random_state" tool_input || has_key "random_seed" tool_input)

  abbrev pub lacks_seed : ToolCallRow → Bool
  lacks_seed call = str_eq call.tool_name "generate_design" && not (has_seed call.tool_input)

  abbrev pub warnings_of : (ToolCallRow → Bool) → ToolCallRow → List Text
  warnings_of output_truncated call =
      (if lacks_seed call then seed_warning call ∷ [] else [])
      ++ (if output_truncated call then truncation_warning call ∷ [] else [])

  unfoldable pub collect_warnings : (ToolCallRow → Bool) → List ToolCallRow → List Text
  collect_warnings output_truncated [] = []
  collect_warnings output_truncated (call ∷ calls) =
      warnings_of output_truncated call ++ collect_warnings output_truncated calls

  abbrev pub requirements_txt : Text → Text
  requirements_txt version = codes "process-improve==" ++ (version ++ 10 ∷ [])

-- The other renderers: the templates, with the warnings, and the workbook of the experiment.
pub record Renderers : Type 0 where
  pub literate_markdown : Experiment → List StepBlock → Text → Text → List Text → Text
  pub data_file : Experiment → Text
  pub readme : Experiment → Text → Text → List Text → Text

pub data Entry : Type 0 where
  text_entry : Text → Entry
  notebook_entry : List CellOfNotebook → Entry

module _ (python : Python) (renderers : Renderers) (output_truncated : ToolCallRow → Bool) where
  abbrev pub entries :
      Experiment
      → List ToolCallRow
      → Text
      → Text
      → Option Text
      → Option (List CellOfNotebook)
      → Option (List (String × Entry))
  entries experiment calls version now (some script) (some notebook) =
      let warnings = collect_warnings python output_truncated calls in
      some (
        ("analysis.py", text_entry script)
        ∷ ("analysis.ipynb", notebook_entry notebook)
        ∷ (
          "analysis.md",
          text_entry (
              renderers.literate_markdown experiment (step_blocks python calls) version now
                warnings),
        )
        ∷ ("data.xlsx", text_entry (renderers.data_file experiment))
        ∷ ("README.md", text_entry (renderers.readme experiment version now warnings))
        ∷ ("requirements.txt", text_entry (requirements_txt python version))
        ∷ [])
  entries experiment calls version now _ _ = none

  abbrev pub bundle_of :
      Experiment → Text → Text → Option (List ToolCallRow) → Option (List (String × Entry))
  bundle_of experiment version now none = none
  bundle_of experiment version now (some calls) =
      entries experiment calls version now
        (render_python_script python experiment calls version now)
        (render_notebook python experiment calls version now)

  unfoldable pub build_reproducible_bundle :
      Store → Experiment → Text → Text → Option (List (String × Entry))
  build_reproducible_bundle store experiment version now =
      bundle_of experiment version now (fetch_or_400 store experiment)
