-- ===== src/Design/Experiments.antt =====
-- backend/src/app/services/experiment_service.py. A row of results is a dict with an integer (or a bool, which
-- Python counts as one) under "run_index", as the request's documentation has it, or without that key. Rows whose index is
-- of another type, for which Python compares floats by value and raises a TypeError for a list or a mixed sort, are outside
-- of the model, and the theorems say so by a hypothesis.
pub mod Filing
pub mod Results
pub mod Ownership
pub mod Create
use factorial.Prelude.{
  ℕ, ◌-◌, ◌*◌, String, Bool, true, false, not, ◌&&◌, ◌||◌, Option, none, some, List, [], ◌∷◌,
  str_eq, ◌==◌, if◌then◌else◌, length, take, drop, select, update_where, count_where,
}
use factorial.Prelude.Int.{ℤ, pos, leb_ℤ, eqb_ℤ}
use factorial.Prelude.Sorting.{sort_by, order_by_desc}
use factorial.Model.{Experiment}
use factorial.Model.Json
use factorial.Model.Json.{bool, Json, Dict, int, end}
use factorial.Database.{Database, Exec, key_error, pure, raise, gets, modify, get_row, ◌>>=◌, ◌>>◌}

abbrev pub experiment_rows : ℕ → Database → List Experiment
experiment_rows id db = select (λ e. e.id == id) db.experiments

abbrev pub if_owned : ℕ → Option Experiment → Option Experiment
if_owned user_id none = none
if_owned user_id (some e) = if e.user_id == user_id then some e else none

-- `_get_owned_experiment`, which `get_experiment` passes on
unfoldable pub get_experiment : ℕ → ℕ → Exec (Option Experiment)
get_experiment experiment_id user_id =
    gets (λ db. if_owned user_id (get_row (experiment_rows experiment_id db)))

abbrev has_status : Option String → Experiment → Bool
has_status none e = true
has_status (some status) e = str_eq status "" || str_eq e.status status

-- The page, and the number of experiments on all pages.
unfoldable pub list_experiments : ℕ → Option String → ℕ → ℕ → Exec (List Experiment × ℕ)
list_experiments user_id status page page_size = do
  let mine : Experiment → Bool = λ e. e.user_id == user_id && has_status status e
  total ← gets (λ db. count_where mine db.experiments)
  rows ← gets (λ db. order_by_desc (λ e. e.created_at) (select mine db.experiments))
  pure (take page_size (drop ((page - 1) * page_size) rows), total)

-- A write to the object is a write to the row with its primary key.
abbrev pub write_experiment : ℕ → (Experiment → Experiment) → Database → Database
write_experiment id f db = record db {
  experiments = update_where (λ e. e.id == id) f db.experiments;
}

-- The column `experiment_id` of the shares is declared ondelete="CASCADE".
abbrev pub remove_experiment : ℕ → Database → Database
remove_experiment id db = record db {
  experiments = select (λ e. not (e.id == id)) db.experiments;
  shares = select (λ s. not (s.experiment_id == id)) db.shares;
}

-- What a service does with an experiment that it found, or else gives back.
abbrev pub with_experiment : {A : Type 0} → Option Experiment → A → (Experiment → Exec A) → Exec A
with_experiment none otherwise f = pure otherwise
with_experiment (some e) otherwise f = f e

-- What the endpoint of PATCH passes on: the fields that the body gives.
pub record Updates : Type 0 where
  pub name : Option String
  pub status : Option String

abbrev pub set_name : Option String → Experiment → Experiment
set_name none e = e
set_name (some name) e = record e { name = name }

abbrev pub set_status : Option String → Experiment → Experiment
set_status none e = e
set_status (some status) e = record e { status = status }

-- setattr for each value that is not None
abbrev pub updated : Updates → Experiment → Experiment
updated updates e = set_status updates.status (set_name updates.name e)

unfoldable pub update_experiment : ℕ → Updates → ℕ → Exec (Option Experiment)
update_experiment experiment_id updates user_id = do
  experiment ← get_experiment experiment_id user_id
  with_experiment experiment none
      (λ e. do modify (write_experiment e.id (updated updates)); pure (some (updated updates e)))

unfoldable pub delete_experiment : ℕ → ℕ → Exec Bool
delete_experiment experiment_id user_id = do
  experiment ← get_experiment experiment_id user_id
  with_experiment experiment false (λ e. do modify (remove_experiment e.id); pure true)

-- An index as Python compares keys, where a bool is an int.
abbrev pub as_index : Option Json → Option ℤ
as_index (some (int i)) = some i
as_index (some (bool true)) = some (pos 1)
as_index (some (bool false)) = some (pos 0)
as_index _ = none

-- row["run_index"]
abbrev pub run_index : Dict → Option ℤ
run_index row = as_index (Json.lookup "run_index" row)

abbrev pub index_is : ℤ → Option ℤ → Bool
index_is i none = false
index_is i (some j) = eqb_ℤ j i

abbrev pub has_index : ℤ → Dict → Bool
has_index i row = index_is i (run_index row)

-- existing_by_idx.get(idx, {}), where the rows of the dict hold their keys
unfoldable pub find_row : ℤ → List Dict → Dict
find_row i [] = end
find_row i (row ∷ rows) = if has_index i row then row else find_row i rows

-- existing_by_idx[idx] = row
unfoldable pub file_row : ℤ → Dict → List Dict → List Dict
file_row i row [] = row ∷ []
file_row i row (r ∷ rows) = if has_index i r then row ∷ rows else r ∷ file_row i row rows

-- {r["run_index"]: r for r in existing}, after the rows in `by_idx`
unfoldable pub index_rows : List Dict → List Dict → Option (List Dict)
index_rows [] by_idx = some by_idx
index_rows (row ∷ rows) by_idx = elim (run_index row) [
  | none ↦ none
  | some i ↦ index_rows rows (file_row i row by_idx)
]

-- The loop over the new results.
unfoldable pub merge_rows : List Dict → List Dict → Option (List Dict)
merge_rows [] by_idx = some by_idx
merge_rows (row ∷ rows) by_idx = elim (run_index row) [
  | none ↦ none
  | some i ↦ merge_rows rows (file_row i (Json.merge (find_row i by_idx) row) by_idx)
]

abbrev pub index_or_zero : Option ℤ → ℤ
index_or_zero none = pos 0
index_or_zero (some i) = i

abbrev pub index_before : Dict → Dict → Bool
index_before a b = leb_ℤ (index_or_zero (run_index a)) (index_or_zero (run_index b))

abbrev pub or_no_rows : Option (List Dict) → List Dict
or_no_rows none = []
or_no_rows (some rows) = rows

-- What becomes of the stored rows; none where a row has no index.
unfoldable pub merged_results : List Dict → List Dict → Option (List Dict)
merged_results existing results = elim (index_rows existing []) [
  | none ↦ none
  | some by_idx ↦ elim (merge_rows results by_idx) [
    | none ↦ none
    | some rows ↦ some (sort_by index_before rows)
  ]
]

abbrev pub store_results : Experiment → Option (List Dict) → Exec (Option Experiment)
store_results e none = raise key_error
store_results e (some rows) = do
  modify (write_experiment e.id (λ x. record x { results_data = some rows }))
  pure (some (record e { results_data = some rows }))

unfoldable pub add_results : ℕ → List Dict → ℕ → Exec (Option Experiment)
add_results experiment_id results user_id = do
  experiment ← get_experiment experiment_id user_id
  with_experiment experiment none
      (λ e. store_results e (merged_results (or_no_rows e.results_data) results))

unfoldable pub attach_evaluation : ℕ → Json → ℕ → Exec (Option Experiment)
attach_evaluation experiment_id evaluation user_id = do
  experiment ← get_experiment experiment_id user_id
  with_experiment experiment none (λ e. do
    modify (write_experiment e.id (λ x. record x { evaluation_data = some evaluation }))
    pure (some (record e { evaluation_data = some evaluation })))

abbrev in_conversation : ℕ → Option ℕ → Bool
in_conversation id none = false
in_conversation id (some conversation_id) = conversation_id == id

unfoldable pub get_latest_experiment_for_conversation : ℕ → Exec (Option Experiment)
get_latest_experiment_for_conversation conversation_id = gets (λ db. get_row (
    order_by_desc (λ e. e.created_at)
      (select (λ e. in_conversation conversation_id e.conversation_id) db.experiments)))

unfoldable pub get_results : ℕ → ℕ → Exec (Option (List Dict) × ℕ)
get_results experiment_id user_id = do
  experiment ← get_experiment experiment_id user_id
  with_experiment experiment (none, 0)
      (λ e. let data_rows = or_no_rows e.results_data in pure (some data_rows, length data_rows))
