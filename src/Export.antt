-- ===== src/Export.antt =====
-- `_design_rows` of backend/src/app/services/export_service.py: the table that each report and data file shows. The
-- column `design_data` is declared a dict or None; another value of it, and a matrix that is no list of dicts, raise.
pub mod Columns
pub mod Shown
pub mod Rows
pub mod Evaluation
pub mod Sheets
pub mod Script
pub mod Notebook
pub mod Public
pub mod View
mod Tests
use factorial.Prelude.{
  ℕ, ◌+◌, String, Bool, false, ◌||◌, Option, none, some, List, [], ◌∷◌, ◌++◌, str_eq, if◌then◌else◌,
}
use factorial.Prelude.Int.{ℤ, pos}
use factorial.Model.{Experiment}
use factorial.Model.Json
use factorial.Model.Json.{Json, Items, Dict, null, int, arr, obj, nil, cons, end, entry}
use factorial.Agent.Interception.{is_falsy}
use factorial.Design.Experiments.{has_index, or_no_rows}

-- design_data or {}
abbrev pub dict_or_empty : Option Json → Option Dict
dict_or_empty none = some end
dict_or_empty (some null) = some end
dict_or_empty (some (obj d)) = some d
dict_or_empty (some _) = none

abbrev pub or_null : Option Json → Json
or_null none = null
or_null (some json) = json

-- x or y
abbrev pub or_json : Json → Json → Json
or_json x y = if is_falsy x then y else x

abbrev pub dicts : Items → Option (List Dict)
dicts nil = some []
dicts (cons (obj d) items) = elim (dicts items) [ none ↦ none | some rows ↦ some (d ∷ rows) ]
dicts (cons _ items) = none

abbrev pub dict_list : Json → Option (List Dict)
dict_list (arr items) = dicts items
dict_list _ = none

unfoldable pub matrix_of : Dict → Option (List Dict)
matrix_of design_data = dict_list (
    or_json
      (or_json (or_null (Json.lookup "design_actual" design_data))
        (or_null (Json.lookup "design_coded" design_data)))
      (arr nil))

-- k in columns
abbrev pub mem : String → List String → Bool
mem k [] = false
mem k (c ∷ columns) = str_eq c k || mem k columns

-- The keys of a row that are not there yet, but for the ones to skip.
abbrev pub add_columns : (String → Bool) → Dict → List String → List String
add_columns skip end columns = columns
add_columns skip (entry k v row) columns =
    add_columns skip row (if skip k || mem k columns then columns else columns ++ k ∷ [])

abbrev pub columns_of : (String → Bool) → List Dict → List String → List String
columns_of skip [] columns = columns
columns_of skip (row ∷ rows) columns = columns_of skip rows (add_columns skip row columns)

abbrev pub factor_cols : List Dict → List String
factor_cols matrix = columns_of (λ k. false) matrix []

abbrev pub response_cols : List String → List Dict → List String
response_cols factors results = columns_of (λ k. str_eq k "run_index" || mem k factors) results []

-- results_by_idx.get(idx, {}): the last of the rows with this index. Rows whose index is a float, which Python compares by
-- value, or a list or a dict, which raises a TypeError, are outside of the model.
abbrev pub last_row : ℤ → List Dict → Dict → Dict
last_row i [] row = row
last_row i (r ∷ rows) row = last_row i rows (if has_index i r then r else row)

-- {"run_index": idx, **row}
abbrev pub indexed : ℕ → Dict → Dict
indexed idx row = Json.merge (entry "run_index" (int (pos idx)) end) row

abbrev pub merged_row : Bool → List Dict → ℕ → Dict → Dict
merged_row include_results results idx row =
    if include_results
    then Json.merge (indexed idx row) (Json.erase "run_index" (last_row (pos idx) results end))
    else indexed idx row

-- The loop over enumerate(matrix).
abbrev pub merged_rows : Bool → List Dict → ℕ → List Dict → List Dict
merged_rows include_results results idx [] = []
merged_rows include_results results idx (row ∷ matrix) =
    merged_row include_results results idx row
    ∷ merged_rows include_results results (idx + 1) matrix

abbrev pub table_of : Bool → List Dict → List Dict → List String × List Dict
table_of include_results results matrix =
    let factors = factor_cols matrix in
    (
      ("run_index" ∷ factors) ++ (if include_results then response_cols factors results else []),
      merged_rows include_results results 0 matrix,
    )

-- The columns and the rows, none where it raises.
unfoldable pub design_rows : Experiment → Bool → Option (List String × List Dict)
unfolding matrix_of
design_rows experiment include_results = elim (dict_or_empty experiment.design_data) [
  | none ↦ none
  | some design_data ↦ elim (matrix_of design_data) [
    | none ↦ none
    | some matrix ↦ some (table_of include_results (or_no_rows experiment.results_data) matrix)
  ]
]
