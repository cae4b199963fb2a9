-- ===== src/Upload/Drafts/Unindexed.antt =====
-- Finalizing an upload, and then adding results to it by `add_results` of experiment_service.py.
use factorial.Prelude.{
  ℕ, String, ◌≡◌, refl, sym, ap, ◌∙◌, inl, inr, Bool, true, Option, none, some, List, [], ◌∷◌, ◌++◌,
  arith, ◌==◌, ==_iff, ==_self, Option-cases, update_where, select-update_where, is_some, All,
}
use factorial.Model.{Experiment}
use factorial.Model.Json.{Dict}
use factorial.Model.Json
use factorial.Database.{Database, ok, err, key_error, get_row}
use factorial.Design.Experiments.{
  experiment_rows, if_owned, get_experiment, write_experiment, run_index, as_index, index_rows,
  file_row, merged_results, or_no_rows, add_results,
}
use factorial.Upload.Discover.{ParsedDesignPayload}
use factorial.Upload.Drafts.{replied}
use factorial.Upload.Drafts.Updates.{
  found, read_upload_source, finalized, rows_or_none, finalize_upload,
}

index_rows-none :
    (before : List Dict) (row : Dict) (after acc : List Dict)
    → run_index row ≡ none
    → index_rows (before ++ row ∷ after) acc ≡ none
unfolding index_rows
index_rows-none [] row after acc h = rw (h, index_rows) refl
index_rows-none (r ∷ before) row after acc h = elim (Option-cases (run_index r)) [
  | inl missing ↦ rw (missing, index_rows) refl
  | inr (i, e) ↦ rw (e, index_rows) (index_rows-none before row after (file_row i r acc) h)
]

no_index : (row : Dict) → Json.lookup "run_index" row ≡ none → run_index row ≡ none
no_index row h = ap as_index h

stored_rows : (rows : List Dict) → or_no_rows (rows_or_none rows) ≡ rows
stored_rows [] = refl
stored_rows (row ∷ rows) = refl

owned-inv :
    (user_id : ℕ) (o : Option Experiment) (e : Experiment)
    → if_owned user_id o ≡ some e
    → (o ≡ some e) × (e.user_id ≡ user_id)
owned-inv user_id none e h = absurd (grind (arith, h))
owned-inv user_id (some x) e h =
    let same : x ≡ e = ground (arith, h) in
    (ap some same, sym (ap (λ y. y.user_id) same) ∙ ground (arith, h))

-- Of the first row that was found before a write.
first_updated :
    (q : Experiment → Bool) (f : Experiment → Experiment) (rows : List Experiment) (e : Experiment)
    → get_row rows ≡ some e
    → q e ≡ true
    → get_row (update_where q f rows) ≡ some (f e)
first_updated q f [] e h hit = absurd (grind (arith, h))
first_updated q f (x ∷ rows) e h hit = let same : x ≡ e = grind (arith, h) in rw (same, hit) refl

merged_results-none :
    (existing results : List Dict)
    → index_rows existing [] ≡ none
    → merged_results existing results ≡ none
unfolding merged_results
merged_results-none existing results h = rw (merged_results, h) refl

-- The database that finalizing leaves.
abbrev pub after : Option String → ParsedDesignPayload → Experiment → Dict → Database → Database
after name p e source db = write_experiment e.id (finalized name source p) db

module _ (upload_id user_id : ℕ) (name : Option String) (p : ParsedDesignPayload) (e : Experiment)
    (source : Dict) (db : Database)
    (owned : if_owned user_id (get_row (experiment_rows upload_id db)) ≡ some e)
    (read : read_upload_source e.design_data ≡ found source) where
  finalize_upload_lem :
      finalize_upload upload_id user_id name p db
      ≡ (ok (replied (finalized name source p e)), (after name p e source db))
  unfolding finalize_upload get_experiment
  finalize_upload_lem = rw (owned, read) refl

  owned_after :
      if_owned user_id (get_row (experiment_rows upload_id (after name p e source db)))
      ≡ some (finalized name source p e)
  owned_after =
      let (seen, mine) = owned-inv user_id (get_row (experiment_rows upload_id db)) e owned in
      let kept =
        select-update_where (λ x. x.id == upload_id) (λ x. x.id == e.id) (finalized name source p)
          db.experiments (λ x. refl) in
      let row =
        first_updated (λ x. x.id == e.id) (finalized name source p) (experiment_rows upload_id db) e
          seen (==_self e.id) in
      rw (kept, row, (==_iff e.user_id user_id).1 mine) refl

  -- The owner of an upload finalizes it with results of which one has no "run_index", and all before it have an integer
  -- there: it is stored, and from then on whatever results the owner adds, the request raises a KeyError.
  pub add_results-finalize_upload :
      (before : List Dict) (row : Dict) (after_row : List Dict) (results : List Dict)
      → p.results_data ≡ before ++ row ∷ after_row
      → All (λ r. is_some (run_index r) ≡ true) before
      → Json.lookup "run_index" row ≡ none
      → (finalize_upload upload_id user_id name p db
          ≡ (ok (replied (finalized name source p e)), (after name p e source db)))
        × (add_results upload_id results user_id (after name p e source db)
            ≡ (err key_error, (after name p e source db)))
  unfolding add_results get_experiment
  add_results-finalize_upload before row after_row results split indexed missing =
      let lost : index_rows (or_no_rows (rows_or_none p.results_data)) [] ≡ none =
        rw (stored_rows p.results_data, split)
          (index_rows-none before row after_row [] (no_index row missing)) in
      (
        finalize_upload_lem,
        rw
            (
              owned_after,
              merged_results-none (or_no_rows (rows_or_none p.results_data)) results lost,
            )
            refl,
      )
