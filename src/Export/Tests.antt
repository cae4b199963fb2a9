-- ===== src/Export/Tests.antt =====
-- Exports at small inputs.
use factorial.Prelude.{
  codes, ℕ, ◌+◌, String, ◌≡◌, refl, true, false, none, some, List, [], ◌∷◌, ◌++◌, map, arith,
}
use factorial.Prelude.Int.{pos}
use factorial.Model.{Experiment, ExperimentShare}
use factorial.Model.Json
use factorial.Model.Json.{Json, Dict, int, str, arr, obj, nil, cons, end, entry}
use factorial.Database.{Database, ok, empty}
use factorial.Access.{rejected}
use factorial.Design.Shares.{resolve_public_share}
use factorial.Chat.Rows.{ToolCallRow, Store}
use factorial.Prelude.Sorting.{sort_by, insert_by}
use factorial.Upload.Drafts.{build_design_data}
use factorial.Export.{design_rows, matrix_of}
use factorial.Export.Rows.{IsTable, design_rows-IsTable}
use factorial.Export.Evaluation.{Showing}
use factorial.Export.Sheets.{build_csv, build_xlsx, report_context}
use factorial.Export.Sheets.Secrecy.{exports_keep_results}
use factorial.Export.Script.{
  fetch_or_400, Python, header_first, header_rest, footer, join_lines, render_python_script,
  sanitise_for_docstring,
}
use factorial.Export.Script.Calls.{IsRecipe, fetch_or_400-IsRecipe}
use factorial.Export.Notebook.{CellOfNotebook, import_line, step_blocks, render_notebook}
use factorial.Export.Script.SameCode.{code_cells, commented, same_code}
use factorial.Export.Public.{
  csv, md, zip, Builders, bytes, request, export_public_experiment, slugify,
}
use factorial.Export.Public.Guard.{IsBlind, IsServed, export_public_experiment-IsServed}

abbrev run : String → Dict
run level = entry "T" (str level) end

abbrev design : Dict
design = entry "design_actual" (arr (cons (obj (run "low")) (cons (obj (run "high")) nil))) end

abbrev recorded : List Dict
recorded = entry "run_index" (int (pos 1)) (entry "yield" (int (pos 80)) end) ∷ []

abbrev experiment : Experiment
experiment = record {
  id = 1;
  user_id = 5;
  name = "My \"\"\"plan\"\"\" ";
  status = "active";
  design_type = none;
  factors = none;
  design_data = some (obj design);
  results_data = some recorded;
  evaluation_data = none;
  conversation_id = some 9;
  created_at = 10;
}

table_test :
    design_rows experiment true
    ≡ some (
      "run_index" ∷ "T" ∷ "yield" ∷ [],
      entry "run_index" (int (pos 0)) (entry "T" (str "low") end)
          ∷ entry "run_index"
              (int (pos 1))
              (entry "T" (str "high") (entry "yield" (int (pos 80)) end))
          ∷ [],
    )
unfolding design_rows Json.lookup Json.merge Json.erase
table_test = refl

slug_test : slugify (codes " My plan, v2!") ≡ codes "my-plan-v2"
unfolding slugify
slug_test = refl

docstring_test : sanitise_for_docstring (codes "a\"\"\"\"b") ≡ codes "a'''\"b"
unfolding sanitise_for_docstring
docstring_test = refl

-- The design of an upload holds its responses, so its table without results shows them.
uploaded_results_are_shown :
    design_rows
      (record experiment {
        design_data = some (
            obj (
              build_design_data end (
                some (record {
                  orientation = "rows";
                  factors = [];
                  responses = [];
                  design_actual = entry "T" (int (pos 50)) (entry "yield" (int (pos 72)) end) ∷ [];
                  results_data = [];
                }))));
      })
      false
    ≡ some (
      "run_index" ∷ "T" ∷ "yield" ∷ [],
      entry "run_index" (int (pos 0)) (entry "T" (int (pos 50)) (entry "yield" (int (pos 72)) end))
          ∷ [],
    )
unfolding design_rows build_design_data Json.lookup Json.merge Json.erase
uploaded_results_are_shown = refl

design_rows-IsTable_example :
    (columns : List String) × (rows : List Dict) × (design_rows experiment true
      ≡ some (columns, rows))
    × IsTable true recorded (run "low" ∷ run "high" ∷ []) columns rows
unfolding matrix_of Json.lookup
design_rows-IsTable_example =
    design_rows-IsTable experiment true design (run "low" ∷ run "high" ∷ []) refl refl (tt, tt)

abbrev showing : Showing
showing = record { label = λ k. k; set_order = λ keys. keys }

exports_keep_results_example :
    (build_csv (record experiment { results_data = none }) false ≡ build_csv experiment false)
    × (build_xlsx showing (λ t. "1970-01-01") (record experiment { results_data = none }) false
        ≡ build_xlsx showing (λ t. "1970-01-01") experiment false)
    × (report_context showing (record experiment { results_data = none }) false none true
        ≡ report_context showing experiment false none true)
exports_keep_results_example =
    exports_keep_results showing (λ t. "1970-01-01") none true experiment none

-- One digit is enough here.
abbrev python : Python
python = record { show = λ n. (b'0' + n) ∷ []; uuid = λ n. codes "id"; json = λ d. codes "{}" }

abbrev call : ToolCallRow
call = record {
  conversation_id = 9;
  message_id = none;
  tool_use_id = "t";
  tool_name = "generate_design";
  tool_input = end;
  tool_output = none;
  status = "success";
  error_message = none;
  agent_turn = 1;
  call_order = 0;
}

abbrev store : Store
store = record {
  db = empty;
  conversations = [];
  messages = [];
  tool_calls = record call { agent_turn = 2; tool_name = "analyze_results" } ∷ call ∷ [];
}

fetch_or_400-IsRecipe_example :
    ((conversation_id : ℕ)
      → experiment.conversation_id ≡ some conversation_id
      → IsRecipe store.tool_calls conversation_id (fetch_or_400 store experiment))
    × (experiment.conversation_id ≡ none → fetch_or_400 store experiment ≡ none)
fetch_or_400-IsRecipe_example = fetch_or_400-IsRecipe store experiment

-- The turns of each run count from 1 on, so the second run's design comes before the first run's analysis.
two_runs :
    fetch_or_400
      (record store {
        tool_calls =
            call
            ∷ record call { agent_turn = 2; tool_name = "analyze_results" }
            ∷ record call { tool_use_id = "second run" }
            ∷ [];
      })
      experiment
    ≡ some (
        call
        ∷ record call { tool_use_id = "second run" }
        ∷ record call { agent_turn = 2; tool_name = "analyze_results" }
        ∷ [])
unfolding fetch_or_400 sort_by insert_by
two_runs = refl

same_code_example :
    (cells : List CellOfNotebook) × (render_notebook python experiment
        (call ∷ [])
        (codes "1")
        (codes "now")
      ≡ some cells)
    × (code_cells cells ≡ import_line python ∷ map (λ b. b.code) (step_blocks python (call ∷ [])))
    × (render_python_script python experiment (call ∷ []) (codes "1") (codes "now")
        ≡ some (
            join_lines (
              header_first python experiment
              ∷ (header_rest python experiment (codes "1") (codes "now")
                  ++ (commented python 1 (call ∷ []) (step_blocks python (call ∷ []))
                      ++ footer python (call ∷ []))))))
same_code_example =
    same_code python experiment (call ∷ []) (codes "1") (codes "now") (λ same. grind (arith, same))

abbrev builders : Builders
builders = record {
  Rows = Unit;
  build_csv = λ e include_results. bytes (1 ∷ []);
  build_xlsx = λ e include_results. bytes (2 ∷ []);
  build_markdown = λ e include_results share_url. bytes (3 ∷ []);
  build_pdf = λ e include_results share_url. bytes (4 ∷ []);
  build_code = λ format rows e. bytes (5 ∷ []);
}

abbrev blind : IsBlind builders
blind = (λ e results share_url. refl, λ e results share_url. refl)

abbrev share : ExperimentShare
share = record {
  id = 3;
  experiment_id = 1;
  token = "t";
  created_by = some 5;
  allow_results = false;
  expires_at = none;
  revoked_at = none;
  view_count = 0;
  created_at = 20;
}

abbrev db : Database
db = record empty { experiments = experiment ∷ []; shares = share ∷ [] }

-- A link without results gives no data file and no code, and the refused visit is not counted.
refusals :
    (request (export_public_experiment builders 50 [] "t" csv) db
      ≡ (ok (rejected 403 "Results sharing disabled for this link"), db))
    × (request (export_public_experiment builders 50 [] "t" zip) db
        ≡ (ok (rejected 403 "Reproducible code export is not available on public share links"), db))
unfolding export_public_experiment resolve_public_share
refusals = (refl, refl)

export_public_experiment-IsServed_example :
    IsServed builders [] md blind 50 "t" db
      (request (export_public_experiment builders 50 [] "t" md) db)
export_public_experiment-IsServed_example =
    export_public_experiment-IsServed builders [] md blind 50 "t" db
