-- ===== src/Export/Evaluation.antt =====
-- `_evaluation_summary` and `_iter_echarts_options` of backend/src/app/services/export_service.py. How a key is shown
-- (`str.title` after "_" became " ") and the order of a Python set are parameters. A list of the evaluation that
-- begins with a dict is taken to have dicts only; with anything else in it, it is taken to raise.
use factorial.Prelude.{
  String, Bool, true, false, ◌&&◌, Option, none, some, List, [], ◌∷◌, ◌++◌, str_eq, if◌then◌else◌,
  is_some,
}
use factorial.Model.{Experiment}
use factorial.Model.Json
use factorial.Model.Json.{Json, Items, Dict, str, arr, obj, nil, cons, end, entry}
use factorial.Export.{mem, dict_or_empty, dicts}

pub record Showing : Type 0 where
  pub label : String → String
  pub set_order : List String → List String

pub record Table : Type 0 where
  pub title : String
  pub columns : List String
  pub rows : List Dict

pub record Summary : Type 0 where
  pub present : Bool
  pub summary : List (String × Json)
  pub tables : List Table

abbrev pub absent : Summary
absent = record { present = false; summary = []; tables = [] }

abbrev pub is_scalar : Json → Bool
is_scalar (arr items) = false
is_scalar (obj d) = false
is_scalar _ = true

abbrev pub all_scalar : Dict → Bool
all_scalar end = true
all_scalar (entry k v d) = is_scalar v && all_scalar d

abbrev pub add_keys : Dict → List String → List String
add_keys end keys = keys
add_keys (entry k v d) keys = add_keys d (if mem k keys then keys else keys ++ k ∷ [])

-- {k for row in value for k in row}
abbrev pub key_set : List Dict → List String → List String
key_set [] keys = keys
key_set (row ∷ rows) keys = key_set rows (add_keys row keys)

-- {"name": k, "value": v} for each item
abbrev pub name_values : Dict → List Dict
name_values end = []
name_values (entry k v d) = entry "name" (str k) (entry "value" v end) ∷ name_values d

module _ (showing : Showing) where
  abbrev pub with_pair : String → Json → Option Summary → Option Summary
  with_pair k v none = none
  with_pair k v (some s) = some (record s { summary = (showing.label k, v) ∷ s.summary })

  abbrev pub with_table :
      String → List String → Option (List Dict) → Option Summary → Option Summary
  with_table k columns none s = none
  with_table k columns (some rows) none = none
  with_table k columns (some rows) (some s) = some (record s {
    tables = record { title = showing.label k; columns = columns; rows = rows } ∷ s.tables;
  })

  abbrev pub columns_if : Option (List Dict) → List String
  columns_if none = []
  columns_if (some rows) = showing.set_order (key_set rows [])

  -- One turn of the loop, before the rest of it.
  abbrev pub with_value : String → Json → Option Summary → Option Summary
  with_value k (arr (cons (obj d) items)) rest =
      let rows = dicts (cons (obj d) items) in with_table k (columns_if rows) rows rest
  with_value k (arr items) rest = rest
  with_value k (obj d) rest =
      if all_scalar d
      then with_table k ("name" ∷ "value" ∷ []) (some (name_values d)) rest
      else rest
  with_value k scalar rest = with_pair k scalar rest

  abbrev pub summary_of : Dict → Option Summary
  summary_of end = some (record absent { present = true })
  summary_of (entry k v d) =
      let rest = summary_of d in if str_eq k "error" then rest else with_value k v rest

  unfoldable pub evaluation_summary : Option Json → Option Summary
  evaluation_summary (some (obj (entry k v d))) = summary_of (entry k v d)
  evaluation_summary _ = some absent

abbrev pub has_key : String → Dict → Bool
has_key key d = is_some (Json.lookup key d)

abbrev pub as_dict : Option Json → Option Dict
as_dict (some (obj d)) = some d
as_dict _ = none

abbrev pub plot_option : Dict → Option Dict → List Dict
plot_option p (some option) = option ∷ []
plot_option p none = if has_key "xAxis" p then p ∷ [] else []

abbrev pub plot_options : Items → List Dict
plot_options nil = []
plot_options (cons (obj p) plots) =
    plot_option p (as_dict (Json.lookup "echarts" p)) ++ plot_options plots
plot_options (cons _ plots) = plot_options plots

abbrev pub listed_plots : Option Json → List Dict
listed_plots (some (arr plots)) = plot_options plots
listed_plots _ = []

abbrev pub single_plot : Option Dict → List Dict
single_plot none = []
single_plot (some option) = option ∷ []

abbrev pub options_or : List Dict → Option Dict → List Dict
options_or [] single = single_plot single
options_or (option ∷ options) single = option ∷ options

unfoldable pub iter_echarts_options : Experiment → Option (List Dict)
iter_echarts_options experiment = elim (dict_or_empty experiment.design_data) [
  | none ↦ none
  | some d ↦
      some (options_or (listed_plots (Json.lookup "plots" d)) (as_dict (Json.lookup "echarts" d)))
]
