-- ===== src/Design/Tests.antt =====
-- Experiments, their results and their links at small inputs.
use factorial.Prelude.{ℕ, String, ◌≡◌, refl, true, false, none, some, List, [], ◌∷◌, arith}
use factorial.Prelude.Int.{ℤ, pos}
use factorial.Prelude.Sorting.{IsSorted, sort_by}
use factorial.Model.{Experiment, ExperimentShare}
use factorial.Model.Json
use factorial.Model.Json.{Json, Dict, null, int, str, end, entry}
use factorial.Database.{Database, ok, err, empty, key_error}
use factorial.Design.Experiments.{
  index_before, find_row, add_results, update_experiment, write_experiment, get_experiment,
  get_results, attach_evaluation, delete_experiment, merged_results, index_rows, merge_rows,
  file_row,
}
use factorial.Design.Experiments.Filing.{IsDistinct}
use factorial.Design.Experiments.Results.{merged, latest, add_results_lem}
use factorial.Design.Experiments.Ownership.{not_owned}

abbrev row : ℕ → String → Dict
row i note = entry "run_index" (int (pos i)) (entry "notes" (str note) end)

abbrev experiment : Experiment
experiment = record {
  id = 1;
  user_id = 5;
  name = "Screening (3 factors, 8 runs)";
  status = "active";
  design_type = none;
  factors = none;
  design_data = none;
  results_data = some (row 2 "late" ∷ []);
  evaluation_data = none;
  conversation_id = none;
  created_at = 10;
}

abbrev share : ExperimentShare
share = record {
  id = 3;
  experiment_id = 1;
  token = "t";
  created_by = some 5;
  allow_results = true;
  expires_at = some 100;
  revoked_at = none;
  view_count = 0;
  created_at = 20;
}

abbrev db : Database
db = record empty { experiments = experiment ∷ []; shares = share ∷ [] }

abbrev new_rows : List Dict
new_rows = row 1 "first" ∷ entry "run_index" (int (pos 2)) (entry "yield" (int (pos 80)) end) ∷ []

-- The note of run 2 stays.
merge_runs :
    merged_results (row 2 "late" ∷ []) new_rows
    ≡ some (
        row 1 "first"
        ∷ entry "run_index"
            (int (pos 2))
            (entry "notes" (str "late") (entry "yield" (int (pos 80)) end))
        ∷ [])
unfolding merged_results index_rows Json.lookup merge_rows sort_by file_row Json.merge find_row
    Json.erase
merge_runs = refl

no_index : (add_results 1 (end ∷ []) 5 db).0 ≡ err key_error
unfolding add_results get_experiment merged_results index_rows Json.lookup merge_rows
no_index = refl

add_results_example :
    (rows : List Dict) × (add_results 1 new_rows 5 db ≡ (
      ok (some (record experiment { results_data = some rows })),
      write_experiment 1 (λ x. record x { results_data = some rows }) db,
    ))
    × IsSorted index_before rows
    × IsDistinct rows
    × ((i : ℤ) → find_row i rows ≡ merged i new_rows (latest i (row 2 "late" ∷ []) end))
unfolding Json.lookup
add_results_example = add_results_lem 1 5 new_rows experiment db refl (refl, tt) (refl, (refl, tt))

not_owned_example :
    (get_experiment 1 6 db ≡ (ok none, db))
    × (get_results 1 6 db ≡ (ok (none, 0), db))
    × (update_experiment 1 (record { name = some "mine"; status = none }) 6 db ≡ (ok none, db))
    × (add_results 1 new_rows 6 db ≡ (ok none, db))
    × (attach_evaluation 1 null 6 db ≡ (ok none, db))
    × (delete_experiment 1 6 db ≡ (ok false, db))
not_owned_example =
    not_owned 1 6 new_rows null (record { name = some "mine"; status = none }) db
      ((λ same mine. omega (arith, mine)), tt)
