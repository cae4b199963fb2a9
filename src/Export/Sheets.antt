-- ===== src/Export/Sheets.antt =====
-- `build_csv`, `build_xlsx` and `_report_context` of backend/src/app/services/export_service.py. A file is what csv and
-- openpyxl are told to write, and a report what its Jinja template is told; None is an exception. The plots of a PDF
-- are rendered from `iter_echarts_options` alone.
pub mod Secrecy
use factorial.Prelude.{
  Text, ℕ, String, Bool, true, false, Option, none, some, List, [], ◌∷◌, ◌++◌, map, if◌then◌else◌,
}
use factorial.Model.{Experiment}
use factorial.Model.Json
use factorial.Model.Json.{Json, Dict, null, str, arr, nil}
use factorial.Export.{dict_or_empty, or_null, or_json, design_rows}
use factorial.Export.Evaluation.{Showing, Table, Summary, evaluation_summary, iter_echarts_options}

-- The rows that are written, of cells.
abbrev pub Grid : Type 0
Grid = List (List Json)

abbrev pub get_or : Json → Dict → String → Json
get_or missing row c = elim (Json.lookup c row) [ none ↦ missing | some json ↦ json ]

abbrev pub header_of : List String → List Json
header_of columns = map str columns

-- A header and the rows under it; `missing` is the cell of a row without the key.
abbrev pub grid : Json → List String × List Dict → Grid
grid missing (columns, rows) =
    header_of columns ∷ map (λ row. map (get_or missing row) columns) rows

-- csv.DictWriter writes "" for a missing key.
unfoldable pub build_csv : Experiment → Bool → Option Grid
build_csv experiment include_results = elim (design_rows experiment include_results) [
  | none ↦ none
  | some table ↦ some (grid (str "") table)
]

abbrev pub or_blank : Option String → Json
or_blank none = str ""
or_blank (some s) = str s

-- design_data.get(key, "")
abbrev pub get_or_blank : String → Dict → Json
get_or_blank key d = get_or (str "") d key

abbrev pub meta_grid : (ℕ → String) → Experiment → Dict → Grid
meta_grid isoformat e d =
    (str "Field" ∷ str "Value" ∷ [])
    ∷ (str "name" ∷ str e.name ∷ [])
    ∷ (str "design_type" ∷ or_blank e.design_type ∷ [])
    ∷ (str "status" ∷ str e.status ∷ [])
    ∷ (str "n_factors" ∷ get_or_blank "n_factors" d ∷ [])
    ∷ (str "n_runs" ∷ get_or_blank "n_runs" d ∷ [])
    ∷ (str "created_at" ∷ str (isoformat e.created_at) ∷ [])
    ∷ []

abbrev pub blank_if_null : Json → Json
blank_if_null null = str ""
blank_if_null json = json

abbrev pub pair_rows : List (String × Json) → Grid
pair_rows [] = []
pair_rows ((label, value) ∷ pairs) = (str label ∷ blank_if_null value ∷ []) ∷ pair_rows pairs

abbrev pub table_rows : List Table → Grid
table_rows [] = []
table_rows (t ∷ tables) =
    ([] ∷ (str t.title ∷ []) ∷ grid (str "") (t.columns, t.rows)) ++ table_rows tables

abbrev pub evaluation_sheets : Summary → List (String × Grid)
evaluation_sheets s =
    if s.present
    then (
      "Evaluation",
      (str "Metric" ∷ str "Value" ∷ []) ∷ (pair_rows s.summary ++ table_rows s.tables),
    )
      ∷ []
    else []

abbrev pub response_sheets : Bool → Option (List String × List Dict) → Option (List (String × Grid))
response_sheets false table = some []
response_sheets true none = none
response_sheets true (some table) = some (("Responses", grid null table) ∷ [])

abbrev pub sheets_of :
    (Dict → Grid)
    → Option (List String × List Dict)
    → Option (List (String × Grid))
    → Option Dict
    → Option Summary
    → Option (List (String × Grid))
sheets_of metadata (some table) (some responses) (some d) (some s) =
    some (
      (("Design", grid null table) ∷ responses) ++ (("Metadata", metadata d) ∷ evaluation_sheets s))
sheets_of metadata _ _ _ _ = none

-- The sheets of the workbook in order. `isoformat` writes a time.
unfoldable pub build_xlsx :
    Showing → (ℕ → String) → Experiment → Bool → Option (List (String × Grid))
build_xlsx showing isoformat e include_results =
    sheets_of (meta_grid isoformat e) (design_rows e false)
      (response_sheets include_results (design_rows e true)) (dict_or_empty e.design_data)
      (evaluation_summary showing e.evaluation_data)

-- What the templates of reports are told.
pub record ReportContext : Type 0 where
  pub id : ℕ
  pub name : String
  pub status : String
  pub design_type : Option String
  pub n_factors : Option Json
  pub n_runs : Option Json
  pub factors : Json
  pub created_at : ℕ
  pub columns : List String
  pub rows : List Dict
  pub include_results : Bool
  pub share_url : Option Text
  pub plots : List Dict
  pub evaluation : Summary

abbrev pub context_of :
    Experiment
    → Bool
    → Option Text
    → List Dict
    → List String × List Dict
    → Dict
    → Summary
    → ReportContext
context_of e include_results share_url plots table d s = record {
  id = e.id;
  name = e.name;
  status = e.status;
  design_type = e.design_type;
  n_factors = Json.lookup "n_factors" d;
  n_runs = Json.lookup "n_runs" d;
  factors = or_json (or_null e.factors) (arr nil);
  created_at = e.created_at;
  columns = table.0;
  rows = table.1;
  include_results = include_results;
  share_url = share_url;
  plots = plots;
  evaluation = s;
}

abbrev pub if_all :
    (List Dict → List String × List Dict → Dict → Summary → ReportContext)
    → Option (List Dict)
    → Option (List String × List Dict)
    → Option Dict
    → Option Summary
    → Option ReportContext
if_all make (some plots) (some table) (some d) (some s) = some (make plots table d s)
if_all make _ _ _ _ = none

abbrev pub plots_if : Bool → Option (List Dict) → Option (List Dict)
plots_if false plots = some []
plots_if true plots = plots

-- With the options of the plots that are rendered, where they are.
unfoldable pub report_context :
    Showing → Experiment → Bool → Option Text → Bool → Option ReportContext
report_context showing e include_results share_url render_plots =
    if_all (context_of e include_results share_url) (plots_if render_plots (iter_echarts_options e))
      (design_rows e include_results) (dict_or_empty e.design_data)
      (evaluation_summary showing e.evaluation_data)
