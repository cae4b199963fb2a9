-- ===== src/Upload/Drafts/Counted.antt =====
-- How many rows an upload has, as the later requests leave it.
use factorial.Prelude.{
  ℕ, String, ◌≡◌, refl, ◌∙◌, Bool, Option, none, some, List, [], ◌∷◌, arith, ◌==◌, count_where,
  update_where,
}
use factorial.Prelude.Maps.{Map}
use factorial.Model.{Experiment}
use factorial.Model.Json
use factorial.Model.Json.{Dict}
use factorial.Database.{Database, get_row}
use factorial.Design.Experiments.{experiment_rows, if_owned, get_experiment, write_experiment}
use factorial.Upload.Discover.{
  ClarifyingQuestion, ParsedDesignPayload, Claude, Discovery, design, questions, failed, api_error,
  discover_structure,
}
use factorial.Upload.Drafts.Updates.{
  Source, found, no_upload, no_dict, read_upload_source, answered, commit, answer_with,
  answer_prior, answer_source, answer_found, submit_answers, finalized, finalize_source,
  finalize_found, finalize_upload, questions_in, or_empty,
}
use factorial.Upload.Drafts.Origin.{Request, answer, finalize, serve, serve_all}

count-update :
    (p q : Experiment → Bool) (f : Experiment → Experiment)
    → ((x : Experiment) → p (f x) ≡ p x)
    → (xs : List Experiment) → count_where p (update_where q f xs) ≡ count_where p xs
count-update p q f keep [] = refl
count-update p q f keep (x ∷ xs) = ground (arith, keep x, count-update p q f keep xs)

-- A write of a row that leaves its id leaves the number of rows of each id.
count-write :
    (id e_id : ℕ) (f : Experiment → Experiment)
    → ((x : Experiment) → (f x).id ≡ x.id)
    → (db : Database)
    → count_where (λ x. x.id == id) (write_experiment e_id f db).experiments
      ≡ count_where (λ x. x.id == id) db.experiments
count-write id e_id f keeps db =
    count-update (λ x. x.id == id) (λ x. x.id == e_id) f (λ x. rw (keeps x) refl) db.experiments

module _ (id : ℕ) where
  abbrev SameCount : Database → Database → Type 0
  SameCount out db =
      count_where (λ x. x.id == id) out.experiments ≡ count_where (λ x. x.id == id) db.experiments

  answer_with-count :
      (e : Experiment) (source : Dict) (answers : Map String) (result : Discovery) (db : Database)
      → SameCount (answer_with e source answers result db).1 db
  answer_with-count e source answers (failed fault) db = refl
  answer_with-count e source answers api_error db = refl
  answer_with-count e source answers (questions qs) db = refl
  answer_with-count e source answers (design p) db =
      count-write id e.id (commit (answered answers source) p) (λ x. refl) db

  answer_prior-count :
      (claude : Claude) (e : Experiment) (source : Dict) (answers : Map String)
      (prior : Option (List ClarifyingQuestion)) (db : Database)
      → SameCount (answer_prior claude e source answers prior db).1 db
  answer_prior-count claude e source answers none db = refl
  answer_prior-count claude e source answers (some prior) db =
      answer_with-count e source answers
        (discover_structure claude (or_empty (Json.lookup "raw_preview" source)) prior answers) db

  answer_source-count :
      (claude : Claude) (e : Experiment) (answers : Map String) (s : Source) (db : Database)
      → SameCount (answer_source claude e answers s db).1 db
  answer_source-count claude e answers no_upload db = refl
  answer_source-count claude e answers no_dict db = refl
  answer_source-count claude e answers (found source) db =
      answer_prior-count claude e source answers
        (questions_in claude.validate_question (or_empty (Json.lookup "questions" source))) db

  answer_found-count :
      (claude : Claude) (answers : Map String) (o : Option Experiment) (db : Database)
      → SameCount (answer_found claude answers o db).1 db
  answer_found-count claude answers none db = refl
  answer_found-count claude answers (some e) db =
      answer_source-count claude e answers (read_upload_source e.design_data) db

  finalize_source-count :
      (e : Experiment) (name : Option String) (p : ParsedDesignPayload) (s : Source) (db : Database)
      → SameCount (finalize_source e name p s db).1 db
  finalize_source-count e name p no_upload db = refl
  finalize_source-count e name p no_dict db = refl
  finalize_source-count e name p (found source) db =
      count-write id e.id (finalized name source p) (λ x. refl) db

  finalize_found-count :
      (name : Option String) (p : ParsedDesignPayload) (o : Option Experiment) (db : Database)
      → SameCount (finalize_found name p o db).1 db
  finalize_found-count name p none db = refl
  finalize_found-count name p (some e) db =
      finalize_source-count e name p (read_upload_source e.design_data) db

  serve-count :
      (claude : Claude) (request : Request) (db : Database) → SameCount (serve claude request db) db
  unfolding get_experiment submit_answers finalize_upload
  serve-count claude (answer upload_id user_id answers) db =
      answer_found-count claude answers (if_owned user_id (get_row (experiment_rows upload_id db)))
        db
  serve-count claude (finalize upload_id user_id name p) db =
      finalize_found-count name p (if_owned user_id (get_row (experiment_rows upload_id db))) db

  -- The later requests of uploads neither add nor remove a row.
  pub serve_all-count :
      (claude : Claude) (requests : List Request) (db : Database)
      → SameCount (serve_all claude requests db) db
  serve_all-count claude [] db = refl
  serve_all-count claude (request ∷ requests) db =
      serve_all-count claude requests (serve claude request db) ∙ serve-count claude request db
