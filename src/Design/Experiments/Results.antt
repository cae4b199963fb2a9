-- ===== src/Design/Experiments/Results.antt =====
-- The merge of results into those that are stored.
use factorial.Prelude.{
  ℕ, ◌≡◌, refl, ap, ◌∙◌, inl, inr, true, false, Option, none, some, List, [], ◌∷◌, arith,
  if◌then◌else◌, Bool-cases, Option-cases, is_some, All,
}
use factorial.Prelude.Int.{ℤ, eqb_ℤ}
use factorial.Prelude.Sorting.{sort_by, IsSorted, sort_by-IsSorted, count_where-sort_by}
use factorial.Model.{Experiment}
use factorial.Model.Json
use factorial.Model.Json.{Json, Dict, end}
use factorial.Database.{get_row, Database, ok}
use factorial.Design.Experiments.{
  run_index, has_index, find_row, file_row, index_rows, merge_rows, index_before, merged_results,
  or_no_rows, add_results, experiment_rows, get_experiment, write_experiment, if_owned,
  store_results,
}
use factorial.Design.Experiments.Filing.{
  index_of, run_index-merge, find-file, find-sort, IsDistinct, file-IsDistinct, eqb→eq,
}

-- The last of the rows that has this index, or what was there.
abbrev pub latest : ℤ → List Dict → Dict → Dict
latest i [] row = row
latest i (r ∷ rows) row = latest i rows (if has_index i r then r else row)

-- All the rows that have this index, merged into what was there, in order.
abbrev pub merged : ℤ → List Dict → Dict → Dict
merged i [] row = row
merged i (r ∷ rows) row = merged i rows (if has_index i r then Json.merge row r else row)

abbrev pub IsIndexed : List Dict → Type 0
IsIndexed rows = All (λ row. is_some (run_index row) ≡ true) rows

not_missing : (o : Option ℤ) → is_some o ≡ true → o ≡ none → ⊥
not_missing none h k = cc
not_missing (some j) h k = cc

step-latest :
    (i j : ℤ) (row : Dict) (acc : List Dict)
    → run_index row ≡ some j
    → find_row i (file_row j row acc) ≡ (if has_index i row then row else find_row i acc)
step-latest i j row acc h = find-file i j row acc h ∙ rw (index_of i row h) refl

-- The row found at its index, merged.
step-merged :
    (i j : ℤ) (row : Dict) (acc : List Dict)
    → run_index row ≡ some j
    → find_row i (file_row j (Json.merge (find_row j acc) row) acc)
      ≡ (if has_index i row then Json.merge (find_row i acc) row else find_row i acc)
step-merged i j row acc h =
    find-file i j (Json.merge (find_row j acc) row) acc (run_index-merge (find_row j acc) row h)
    ∙ rw (index_of i row h) (elim (Bool-cases (eqb_ℤ j i)) [
      | inl same ↦ rw (same, eqb→eq j i same) refl
      | inr other ↦ rw other refl
    ])

-- What a pass over rows leaves: one row for each index, and at each index what `f` says.
abbrev Filed : Option (List Dict) → List Dict → (ℤ → Dict) → Type 0
Filed result acc f =
    (out : List Dict) × (result ≡ some out)
    × (IsDistinct acc → IsDistinct out)
    × ((i : ℤ) → find_row i out ≡ f i)

index_rows-Filed :
    (rows acc : List Dict)
    → IsIndexed rows
    → Filed (index_rows rows acc) acc (λ i. latest i rows (find_row i acc))
unfolding index_rows
index_rows-Filed [] acc h = (acc, refl, λ d. d, λ i. refl)
index_rows-Filed (row ∷ rows) acc h = elim (Option-cases (run_index row)) [
  | inl missing ↦ absurd (not_missing (run_index row) h.0 missing)
  | inr (j, e) ↦
      let (out, eq, d, f) = index_rows-Filed rows (file_row j row acc) h.1 in
      (
        out,
        rw (e, index_rows) eq,
        λ d0. d (file-IsDistinct j row acc e d0),
        λ i. f i ∙ ap (latest i rows) (step-latest i j row acc e),
      )
]

merge_rows-Filed :
    (rows acc : List Dict)
    → IsIndexed rows
    → Filed (merge_rows rows acc) acc (λ i. merged i rows (find_row i acc))
unfolding merge_rows
merge_rows-Filed [] acc h = (acc, refl, λ d. d, λ i. refl)
merge_rows-Filed (row ∷ rows) acc h = elim (Option-cases (run_index row)) [
  | inl missing ↦ absurd (not_missing (run_index row) h.0 missing)
  | inr (j, e) ↦
      let new = Json.merge (find_row j acc) row in
      let (out, eq, d, f) = merge_rows-Filed rows (file_row j new acc) h.1 in
      (
        out,
        rw (e, merge_rows) eq,
        λ d0. d (file-IsDistinct j new acc (run_index-merge (find_row j acc) row e) d0),
        λ i. f i ∙ ap (merged i rows) (step-merged i j row acc e),
      )
]

before_total : (a b : Dict) → index_before a b ≡ false → index_before b a ≡ true
before_total a b h = ground arith

before_trans :
    (a b c : Dict) → index_before a b ≡ true → index_before b c ≡ true → index_before a c ≡ true
before_trans a b c h k = ground arith

assembled :
    (existing results by_idx rows : List Dict)
    → index_rows existing [] ≡ some by_idx
    → merge_rows results by_idx ≡ some rows
    → merged_results existing results ≡ some (sort_by index_before rows)
unfolding merged_results
assembled existing results by_idx rows e1 e2 = rw (e1, e2, merged_results) refl

-- The rows that `merged_results` gives for rows that all have an index.
pub merged_results_lem :
    (existing results : List Dict)
    → IsIndexed existing
    → IsIndexed results
    → (rows : List Dict) × (merged_results existing results ≡ some rows)
      × IsSorted index_before rows
      × IsDistinct rows
      × ((i : ℤ) → find_row i rows ≡ merged i results (latest i existing end))
unfolding find_row
merged_results_lem existing results h k =
    let (by_idx, e1, d1, f1) = index_rows-Filed existing [] h in
    let (rows, e2, d2, f2) = merge_rows-Filed results by_idx k in
    (
      sort_by index_before rows,
      assembled existing results by_idx rows e1 e2,
      sort_by-IsSorted index_before before_total before_trans rows,
      λ i. rw (count_where-sort_by index_before (has_index i) rows) (d2 (d1 (λ j. omega arith)) i),
      λ i. find-sort i rows ∙ f2 i ∙ ap (merged i results) (f1 i),
    )

stored :
    (e : Experiment) (existing results rows : List Dict) (db : Database)
    → merged_results existing results ≡ some rows
    → store_results e (merged_results existing results) db ≡ (
      ok (some (record e { results_data = some rows })),
      write_experiment e.id (λ x. record x { results_data = some rows }) db,
    )
stored e existing results rows db eq = rw eq refl

-- The owner of an experiment, whose stored and new rows all have an index, gets it back, and stored, with rows
-- in ascending order of their index, one for each index. The row at an index is the last stored one, or the
-- empty one, with all the new rows of that index merged into it in order.
pub add_results_lem :
    (experiment_id user_id : ℕ) (results : List Dict) (e : Experiment) (db : Database)
    → if_owned user_id (get_row (experiment_rows experiment_id db)) ≡ some e
    → IsIndexed (or_no_rows e.results_data)
    → IsIndexed results
    → (rows : List Dict) × (add_results experiment_id results user_id db ≡ (
      ok (some (record e { results_data = some rows })),
      write_experiment e.id (λ x. record x { results_data = some rows }) db,
    ))
      × IsSorted index_before rows
      × IsDistinct rows
      × ((i : ℤ) → find_row i rows ≡ merged i results (latest i (or_no_rows e.results_data) end))
unfolding add_results get_experiment
add_results_lem experiment_id user_id results e db owned h k =
    let (rows, eq, sorted, distinct, found) =
      merged_results_lem (or_no_rows e.results_data) results h k in
    (
      rows,
      rw owned (stored e (or_no_rows e.results_data) results rows db eq),
      sorted,
      distinct,
      found,
    )
