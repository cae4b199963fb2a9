-- ===== src/Upload/Drafts/Created.antt =====
-- From the file to the stored upload.
use factorial.Prelude.{
  Text, ℕ, String, ◌≡◌, refl, sym, ◌∙◌, Bool, true, false, Option, none, some, List, [], ◌∷◌, ◌++◌,
  arith, ltb, ◌==◌, ==_iff, ==_self, length, select, count_where, count_where-append, All-imp,
  All_of_count_zero, All-append, length-select,
}
use factorial.Model.{Experiment}
use factorial.Model.Json
use factorial.Model.Json.{Json, Items, Dict, str, arr, obj}
use factorial.Database.{
  Database, Result, ok, err, integrity_error, raise_if, modify, pure, ◌>>=◌, ◌>>◌,
}
use factorial.Design.Experiments.Create.{add_experiment}
use factorial.Upload.{
  Parse, parsed, refused, csv_error, read_error, ParsedUpload, Readers, parse_upload,
}
use factorial.Upload.Discover.{
  ClarifyingQuestion, ParsedDesignPayload, Claude, Discovery, design, questions, failed, api_error,
  rows_json, discover_structure,
}
use factorial.Upload.Drafts.{
  Reply, replied, http_error, crashed, Outcome, structure, needs_clarification, UploadParseResponse,
  dump_question, dump_all, build_design_data, first_source, draft, persist_initial_draft,
  reply_with, create_from, create_parsed, create_upload,
}
use factorial.Upload.Drafts.Origin.{
  Request, serve_all, Facts, Says, HasFacts, Keeps, read-build, serve_all-Keeps,
}
use factorial.Upload.Drafts.Counted.{serve_all-count}

abbrev asked_in : Outcome → List ClarifyingQuestion
asked_in (structure p) = []
asked_in (needs_clarification qs) = qs

-- The facts that a reply tells the user.
abbrev pub told : String → UploadParseResponse → Facts
told filename r = record {
  filename = str filename;
  raw_preview = r.raw_preview;
  questions = arr (dump_all dump_question (asked_in r.outcome));
}

-- There is one row with this id, and it keeps these facts.
abbrev pub OneKept : Facts → ℕ → Database → Type 0
OneKept facts id db = (count_where (λ e. e.id == id) db.experiments ≡ 1) × Keeps facts id db

-- Where there is a reply, the upload that it names keeps what the reply tells through all later requests;
-- where there is none, no row was written.
abbrev pub IsKept :
    Claude → String → Database → Result (Reply UploadParseResponse) × Database → Type 0
IsKept claude filename db (ok (replied r), db') =
    (requests : List Request)
    → OneKept (told filename r) r.upload_id (serve_all claude requests db')
IsKept claude filename db (ok (http_error status detail), db') = db' ≡ db
IsKept claude filename db (ok crashed, db') = db' ≡ db
IsKept claude filename db (err e, db') = db' ≡ db

draft-HasFacts :
    (facts : Facts) (source : Dict) (p : Option ParsedDesignPayload)
    → Says facts source
    → HasFacts facts (some (obj (build_design_data source p)))
draft-HasFacts facts source p says = (source, read-build source p, says)

module _ (claude : Claude) (id now user_id : ℕ) (filename : Text) where
  abbrev file_name : String
  file_name = claude.string_of filename

  -- The rows with a new draft after them.
  added-Keeps :
      (raw_preview : Items) (qs : List ClarifyingQuestion) (p : Option ParsedDesignPayload)
      (facts : Facts) (db : Database)
      → length (select (λ x. x.id == id) db.experiments) ≡ 0
      → Says facts (first_source filename claude.string_of raw_preview qs)
      → Keeps facts id (record db {
        experiments =
            db.experiments ++ draft id now user_id filename claude.string_of raw_preview qs p ∷ [];
      })
  added-Keeps raw_preview qs p facts db free says =
      let Row : Experiment → Type 0 = λ e. e.id ≡ id → HasFacts facts e.design_data in
      All-append Row db.experiments
        (draft id now user_id filename claude.string_of raw_preview qs p ∷ [])
        (All-imp db.experiments
          (λ x other same. absurd (grind (arith, other, same, ==_iff x.id id)))
          (All_of_count_zero (λ x. x.id == id) db.experiments
            (sym (length-select (λ x. x.id == id) db.experiments) ∙ free)))
        (
          (λ same.
              draft-HasFacts facts (first_source filename claude.string_of raw_preview qs) p says),
          tt,
        )

  added-count :
      (new : Experiment) (db : Database)
      → new.id ≡ id
      → length (select (λ x. x.id == id) db.experiments) ≡ 0
      → count_where (λ x. x.id == id) (db.experiments ++ new ∷ []) ≡ 1
  added-count new db same free =
      let one : count_where (λ (x : Experiment). x.id == id) (new ∷ []) ≡ 1 =
        rw (same, ==_self id) refl in
      omega (
        arith,
        free,
        one,
        length-select (λ x. x.id == id) db.experiments,
        count_where-append (λ x. x.id == id) db.experiments (new ∷ []),
      )

  raised-IsKept :
      (raw_preview : Items) (qs : List ClarifyingQuestion) (p : Option ParsedDesignPayload)
      (outcome : Outcome) (db : Database) (taken : Bool)
      → asked_in outcome ≡ qs
      → (taken ≡ false → length (select (λ x. x.id == id) db.experiments) ≡ 0)
      → IsKept claude file_name db (
          (((raise_if taken integrity_error
                  >> modify (λ db. record db {
                    experiments =
                        db.experiments
                        ++ draft id now user_id filename claude.string_of raw_preview qs p ∷ [];
                  }))
                >> pure (draft id now user_id filename claude.string_of raw_preview qs p))
              >>= λ e. reply_with outcome raw_preview e)
            db)
  unfolding Json.lookup
  raised-IsKept raw_preview qs p outcome db true same free = refl
  raised-IsKept raw_preview qs p outcome db false same free = λ requests.
      let facts =
        told file_name
          (record { upload_id = id; outcome = outcome; raw_preview = arr raw_preview }) in
      let new = draft id now user_id filename claude.string_of raw_preview qs p in
      let added = record db { experiments = db.experiments ++ new ∷ [] } in
      (
        serve_all-count id claude requests added ∙ added-count new db refl (free refl),
        serve_all-Keeps facts id claude requests added
            (added-Keeps raw_preview qs p facts db (free refl) (refl, refl, rw same refl)),
      )

  persist-IsKept :
      (raw_preview : Items) (qs : List ClarifyingQuestion) (p : Option ParsedDesignPayload)
      (outcome : Outcome) (db : Database)
      → asked_in outcome ≡ qs
      → IsKept claude file_name db (
          (do
            e ← persist_initial_draft id now user_id filename claude.string_of raw_preview qs p
            reply_with outcome raw_preview e)
            db)
  unfolding persist_initial_draft add_experiment
  persist-IsKept raw_preview qs p outcome db same =
      let n = length (select (λ x. x.id == id) db.experiments) in
      raised-IsKept raw_preview qs p outcome db (ltb 0 n) same (λ free. ground (arith, free))

  create_from-IsKept :
      (raw_preview : Items) (result : Discovery) (db : Database)
      → IsKept claude file_name db
          (create_from id now user_id filename claude.string_of raw_preview result db)
  create_from-IsKept raw_preview (failed fault) db = refl
  create_from-IsKept raw_preview api_error db = refl
  create_from-IsKept raw_preview (design p) db =
      persist-IsKept raw_preview [] (some p) (structure p) db refl
  create_from-IsKept raw_preview (questions qs) db =
      persist-IsKept raw_preview qs none (needs_clarification qs) db refl

  create_parsed-IsKept :
      (file : Parse ParsedUpload) (db : Database)
      → IsKept claude file_name db (create_parsed claude id now user_id filename file db)
  create_parsed-IsKept (refused fault) db = refl
  create_parsed-IsKept csv_error db = refl
  create_parsed-IsKept read_error db = refl
  create_parsed-IsKept (parsed file) db =
      let raw_preview = rows_json claude.string_of file.rows in
      create_from-IsKept raw_preview (discover_structure claude (arr raw_preview) [] []) db

-- An upload that is answered with a reply is stored in one row, which stays one and keeps its file's name and rows and
-- the questions that were asked through every sequence of later answers and finalizations of uploads, of any users; and
-- one that is refused, or fails, writes no row.
pub create_upload-IsKept :
    (readers : Readers) (claude : Claude) (max_bytes max_cells id now user_id : ℕ) (filename : Text)
    (raw : List ℕ) (db : Database)
    → IsKept claude
        (claude.string_of filename)
        db
        (create_upload readers claude max_bytes max_cells id now user_id filename raw db)
unfolding create_upload
create_upload-IsKept readers claude max_bytes max_cells id now user_id filename raw db =
    create_parsed-IsKept claude id now user_id filename
      (parse_upload readers max_bytes max_cells filename raw) db
