-- ===== src/Export/Sheets/Secrecy.antt =====
-- What a file without results depends on.
use factorial.Prelude.{
  Text, ℕ, ◌+◌, String, ◌≡◌, refl, ap, inl, inr, Bool, false, Option, none, some, List, [], ◌∷◌,
  ◌++◌, Option-cases,
}
use factorial.Model.{Experiment}
use factorial.Model.Json.{Dict, str}
use factorial.Design.Experiments.{or_no_rows}
use factorial.Export.{dict_or_empty, matrix_of, factor_cols, merged_row, merged_rows, design_rows}
use factorial.Export.Evaluation.{Showing, evaluation_summary, iter_echarts_options}
use factorial.Export.Sheets.{
  grid, meta_grid, sheets_of, context_of, if_all, plots_if, build_csv, build_xlsx, report_context,
}

merged_rows-same :
    (r r' : List Dict) (idx : ℕ) (matrix : List Dict)
    → merged_rows false r idx matrix ≡ merged_rows false r' idx matrix
merged_rows-same r r' idx [] = refl
merged_rows-same r r' idx (row ∷ matrix) =
    ap (λ rows. merged_row false r idx row ∷ rows) (merged_rows-same r r' (idx + 1) matrix)

design_rows-same :
    (e : Experiment) (results : Option (List Dict))
    → design_rows (record e { results_data = results }) false ≡ design_rows e false
unfolding design_rows
design_rows-same e results = elim (Option-cases (dict_or_empty e.design_data)) [
  | inl missing ↦ rw (design_rows, missing) refl
  | inr (d, there) ↦ elim (Option-cases (matrix_of d)) [
    | inl no_list ↦ rw (design_rows, there, no_list) refl
    | inr (matrix, rows) ↦
        rw (design_rows, there, rows)
          (ap (λ shown. some (("run_index" ∷ factor_cols matrix) ++ [], shown))
            (merged_rows-same (or_no_rows results) (or_no_rows e.results_data) 0 matrix))
  ]
]

-- Without results, the CSV file, the workbook and the report of an experiment are the same whatever results are
-- stored.
pub exports_keep_results :
    (showing : Showing) (isoformat : ℕ → String) (share_url : Option Text) (render_plots : Bool)
    (e : Experiment) (results : Option (List Dict))
    → (build_csv (record e { results_data = results }) false ≡ build_csv e false)
      × (build_xlsx showing isoformat (record e { results_data = results }) false
          ≡ build_xlsx showing isoformat e false)
      × (report_context showing (record e { results_data = results }) false share_url render_plots
          ≡ report_context showing e false share_url render_plots)
unfolding build_csv build_xlsx report_context iter_echarts_options
exports_keep_results showing isoformat share_url render_plots e results =
    let same = design_rows-same e results in
    (
      ap (λ t. elim t [ none ↦ none | some table ↦ some (grid (str "") table) ]) same,
      ap
          (λ t.
            sheets_of (meta_grid isoformat e) t (some []) (dict_or_empty e.design_data)
              (evaluation_summary showing e.evaluation_data))
          same,
      ap
          (λ t.
            if_all (context_of e false share_url) (plots_if render_plots (iter_echarts_options e)) t
              (dict_or_empty e.design_data) (evaluation_summary showing e.evaluation_data))
          same,
    )
