-- ===== src/Upload/Drafts/Origin.antt =====
-- Where an upload comes from: its file and its questions, as the later requests find them.
use factorial.Prelude.{
  ℕ, String, ◌≡◌, refl, sym, ap, ◌∙◌, inl, inr, Option, none, some, List, [], ◌∷◌, ◌==◌, ==_iff,
  Bool-cases, All, All-update_where, All-select,
}
use factorial.Prelude.Maps.{Map}
use mathlib.Core.Path.{subst}
use factorial.Model.{Experiment}
use factorial.Model.Json
use factorial.Model.Json.{Json, Dict, obj, lookup-insert}
use factorial.Database.{Database, get_row}
use factorial.Design.Experiments.{experiment_rows, if_owned, get_experiment, write_experiment}
use factorial.Upload.Discover.{
  ClarifyingQuestion, ParsedDesignPayload, Claude, Discovery, design, questions, failed, api_error,
  discover_structure,
}
use factorial.Upload.Drafts.{build_design_data}
use factorial.Upload.Drafts.Updates.{
  Source, found, no_upload, no_dict, read_upload_source, answers_json, answered, commit,
  answer_with, answer_prior, answer_source, answer_found, submit_answers, finalized,
  finalize_source, finalize_found, finalize_upload, questions_in, or_empty,
}

-- The later requests of an upload, by any user.
pub data Request : Type 0 where
  answer : ℕ → ℕ → Map String → Request
  finalize : ℕ → ℕ → Option String → ParsedDesignPayload → Request

abbrev pub serve : Claude → Request → Database → Database
serve claude (answer upload_id user_id answers) db =
    (submit_answers claude upload_id user_id answers db).1
serve claude (finalize upload_id user_id name p) db =
    (finalize_upload upload_id user_id name p db).1

abbrev pub serve_all : Claude → List Request → Database → Database
serve_all claude [] db = db
serve_all claude (request ∷ requests) db = serve_all claude requests (serve claude request db)

pub record Facts : Type 0 where
  pub filename : Json
  pub raw_preview : Json
  pub questions : Json

module _ (facts : Facts) where
  abbrev pub Says : Dict → Type 0
  Says source =
      (Json.lookup "filename" source ≡ some facts.filename)
      × (Json.lookup "raw_preview" source ≡ some facts.raw_preview)
      × (Json.lookup "questions" source ≡ some facts.questions)

  -- The stored data of an upload has these facts.
  abbrev pub HasFacts : Option Json → Type 0
  HasFacts design_data =
      (source : Dict) × (read_upload_source design_data ≡ found source) × Says source

  abbrev pub Keeps : ℕ → Database → Type 0
  Keeps id db = All (λ e. e.id ≡ id → HasFacts e.design_data) db.experiments

pub read-build :
    (source : Dict) (p : Option ParsedDesignPayload)
    → read_upload_source (some (obj (build_design_data source p))) ≡ found source
unfolding read_upload_source build_design_data Json.lookup Json.merge Json.erase
read-build source none = refl
read-build source (some p) = refl

dict_or : Source → Dict → Dict
dict_or (found source) d = source
dict_or _ d = d

found_injective : (a b : Dict) → found a ≡ found b → a ≡ b
unfolding dict_or
found_injective a b h = ap (λ s. dict_or s a) h

module _ (facts : Facts) (id : ℕ) where
  answered-Says :
      (answers : Map String) (source : Dict)
      → Says facts source
      → Says facts (answered answers source)
  answered-Says answers source h =
      let new = obj (answers_json answers) in
      (
        lookup-insert "answers" "filename" new source ∙ h.0,
        lookup-insert "answers" "raw_preview" new source ∙ h.1,
        lookup-insert "answers" "questions" new source ∙ h.2,
      )

  abbrev Row : Experiment → Type 0
  Row e = e.id ≡ id → HasFacts facts e.design_data

  abbrev OnRow : Option Experiment → Type 0
  OnRow none = Unit
  OnRow (some e) = Row e

  owned-OnRow : (user_id : ℕ) (o : Option Experiment) → OnRow o → OnRow (if_owned user_id o)
  owned-OnRow user_id none h = tt
  owned-OnRow user_id (some e) h = elim (Bool-cases (e.user_id == user_id)) [
    | inl mine ↦ rw mine h
    | inr other ↦ rw other tt
  ]

  first-OnRow : (rows : List Experiment) → All Row rows → OnRow (get_row rows)
  first-OnRow [] h = tt
  first-OnRow (e ∷ rows) h = h.0

  found-OnRow :
      (upload_id user_id : ℕ) (db : Database)
      → Keeps facts id db
      → OnRow (if_owned user_id (get_row (experiment_rows upload_id db)))
  found-OnRow upload_id user_id db h =
      owned-OnRow user_id (get_row (experiment_rows upload_id db)) (
        first-OnRow (experiment_rows upload_id db)
          (All-select Row (λ e. e.id == upload_id) db.experiments h))

  -- A write of an upload that read its source there.
  write-Keeps :
      (e : Experiment) (source : Dict) (p : ParsedDesignPayload) (f : Experiment → Experiment)
      (db : Database)
      → Keeps facts id db
      → (e.id ≡ id → Says facts source)
      → ((x : Experiment)
          → ((f x).id ≡ x.id)
            × ((f x).design_data ≡ some (obj (build_design_data source (some p)))))
      → Keeps facts id (write_experiment e.id f db)
  write-Keeps e source p f db h says writes =
      All-update_where Row Row (λ x. x.id == e.id) f db.experiments
        (λ x hit row same.
          let here : e.id ≡ id = sym ((==_iff x.id e.id).0 hit) ∙ sym (writes x).0 ∙ same in
          subst (HasFacts facts) (sym (writes x).1) (source, read-build source (some p), says here))
        (λ x miss row. row) h

  answer_with-Keeps :
      (e : Experiment) (source : Dict) (answers : Map String) (result : Discovery) (db : Database)
      → Keeps facts id db
      → (e.id ≡ id → Says facts source)
      → Keeps facts id (answer_with e source answers result db).1
  answer_with-Keeps e source answers (failed fault) db h says = h
  answer_with-Keeps e source answers api_error db h says = h
  answer_with-Keeps e source answers (questions qs) db h says = h
  answer_with-Keeps e source answers (design p) db h says =
      write-Keeps e (answered answers source) p (commit (answered answers source) p) db h
        (λ same. answered-Says answers source (says same)) (λ x. (refl, refl))

  answer_prior-Keeps :
      (claude : Claude) (e : Experiment) (source : Dict) (answers : Map String)
      (prior : Option (List ClarifyingQuestion)) (db : Database)
      → Keeps facts id db
      → (e.id ≡ id → Says facts source)
      → Keeps facts id (answer_prior claude e source answers prior db).1
  answer_prior-Keeps claude e source answers none db h says = h
  answer_prior-Keeps claude e source answers (some prior) db h says =
      answer_with-Keeps e source answers
        (discover_structure claude (or_empty (Json.lookup "raw_preview" source)) prior answers) db h
        says

  read-Says :
      (e : Experiment) (source : Dict)
      → Row e
      → read_upload_source e.design_data ≡ found source
      → e.id ≡ id
      → Says facts source
  read-Says e source row read same =
      let (kept, eq, says) = row same in
      subst (Says facts) (found_injective kept source (sym eq ∙ read)) says

  answer_source-Keeps :
      (claude : Claude) (e : Experiment) (answers : Map String) (s : Source) (db : Database)
      → Keeps facts id db
      → ((source : Dict) → s ≡ found source → e.id ≡ id → Says facts source)
      → Keeps facts id (answer_source claude e answers s db).1
  answer_source-Keeps claude e answers no_upload db h says = h
  answer_source-Keeps claude e answers no_dict db h says = h
  answer_source-Keeps claude e answers (found source) db h says =
      answer_prior-Keeps claude e source answers
        (questions_in claude.validate_question (or_empty (Json.lookup "questions" source))) db h
        (says source refl)

  answer_found-Keeps :
      (claude : Claude) (answers : Map String) (o : Option Experiment) (db : Database)
      → Keeps facts id db
      → OnRow o
      → Keeps facts id (answer_found claude answers o db).1
  answer_found-Keeps claude answers none db h row = h
  answer_found-Keeps claude answers (some e) db h row =
      answer_source-Keeps claude e answers (read_upload_source e.design_data) db h
        (λ source. read-Says e source row)

  finalize_source-Keeps :
      (e : Experiment) (name : Option String) (p : ParsedDesignPayload) (s : Source) (db : Database)
      → Keeps facts id db
      → ((source : Dict) → s ≡ found source → e.id ≡ id → Says facts source)
      → Keeps facts id (finalize_source e name p s db).1
  finalize_source-Keeps e name p no_upload db h says = h
  finalize_source-Keeps e name p no_dict db h says = h
  finalize_source-Keeps e name p (found source) db h says =
      write-Keeps e source p (finalized name source p) db h (says source refl) (λ x. (refl, refl))

  finalize_found-Keeps :
      (name : Option String) (p : ParsedDesignPayload) (o : Option Experiment) (db : Database)
      → Keeps facts id db
      → OnRow o
      → Keeps facts id (finalize_found name p o db).1
  finalize_found-Keeps name p none db h row = h
  finalize_found-Keeps name p (some e) db h row =
      finalize_source-Keeps e name p (read_upload_source e.design_data) db h
        (λ source. read-Says e source row)

  serve-Keeps :
      (claude : Claude) (request : Request) (db : Database)
      → Keeps facts id db
      → Keeps facts id (serve claude request db)
  unfolding get_experiment submit_answers finalize_upload
  serve-Keeps claude (answer upload_id user_id answers) db h =
      answer_found-Keeps claude answers (if_owned user_id (get_row (experiment_rows upload_id db)))
        db h (found-OnRow upload_id user_id db h)
  serve-Keeps claude (finalize upload_id user_id name p) db h =
      finalize_found-Keeps name p (if_owned user_id (get_row (experiment_rows upload_id db))) db h
        (found-OnRow upload_id user_id db h)

  -- No later request, of any user, changes the facts.
  pub serve_all-Keeps :
      (claude : Claude) (requests : List Request) (db : Database)
      → Keeps facts id db
      → Keeps facts id (serve_all claude requests db)
  serve_all-Keeps claude [] db h = h
  serve_all-Keeps claude (request ∷ requests) db h =
      serve_all-Keeps claude requests (serve claude request db) (serve-Keeps claude request db h)
