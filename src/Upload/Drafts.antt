-- ===== src/Upload/Drafts.antt =====
-- backend/src/app/api/v1/endpoints/uploads.py: what the endpoints of uploads keep and answer, and `create_upload`, after FastAPI has validated the
-- request and found the user. An HTTPException is an answer: none is raised after a write. The column `design_data`
-- is declared a dict or None; any other value of it is taken for one that raises.
pub mod Updates
pub mod Origin
pub mod Counted
pub mod Created
pub mod Unindexed
use factorial.Prelude.{Text, ℕ, String, Option, none, some, List, [], ◌∷◌, length}
use factorial.Prelude.Int.{pos}
use factorial.Model.{Experiment}
use factorial.Model.Json
use factorial.Model.Json.{Json, Items, Dict, null, int, str, float, arr, obj, nil, cons, end, entry}
use factorial.Database.{Exec, pure, ◌>>=◌, ◌>>◌}
use factorial.Design.Experiments.Create.{add_experiment}
use factorial.Upload.{
  Fault, ParsedUpload, Parse, parsed, refused, csv_error, read_error, Readers, parse_upload,
}
use factorial.Upload.Discover.{
  UploadFactor, UploadResponse, ClarifyingQuestion, ParsedDesignPayload, Claude, ClaudeFault,
  Discovery, design, questions, failed, api_error, rows_json, discover_structure,
}

-- The texts of the HTTPExceptions.
pub data Detail : Type 0 where
  bad_file : Fault → Detail
  bad_answer : ClaudeFault → Detail
  undecided not_found not_uploaded : Detail

-- `crashed` is any other exception, which the server answers with 500.
pub data Reply (A : Type 0) : Type 0 where
  replied : A → Reply A
  http_error : ℕ → Detail → Reply A
  crashed : Reply A

-- UploadParseResponse: with a structure its status is "parsed", with questions "needs_clarification".
pub data Outcome : Type 0 where
  structure : ParsedDesignPayload → Outcome
  needs_clarification : List ClarifyingQuestion → Outcome

pub record UploadParseResponse : Type 0 where
  pub upload_id : ℕ
  pub outcome : Outcome
  pub raw_preview : Json

abbrev pub text_or_null : Option String → Json
text_or_null none = null
text_or_null (some s) = str s

abbrev pub number_or_null : Option String → Json
number_or_null none = null
number_or_null (some s) = float s

abbrev pub items_or_null : Option Items → Json
items_or_null none = null
items_or_null (some items) = arr items

-- model_dump()
abbrev pub dump_factor : UploadFactor → Json
dump_factor f = obj (
    entry "name" (str f.name) (
      entry "type" (str f.factor_type) (
        entry "low" (number_or_null f.low) (
          entry "high" (number_or_null f.high)
            (entry "levels" (items_or_null f.levels) (entry "units" (text_or_null f.units) end))))))

abbrev pub dump_response : UploadResponse → Json
dump_response r = obj (
    entry "name" (str r.name)
      (entry "goal" (text_or_null r.goal) (entry "units" (text_or_null r.units) end)))

abbrev pub dump_question : ClarifyingQuestion → Json
dump_question q = obj (
    entry "id" (str q.id) (
      entry "question" (str q.question) (
        entry "options" (items_or_null q.options)
          (entry "column_ref" (text_or_null q.column_ref) end))))

abbrev pub dump_all : {A : Type 0} → (A → Json) → List A → Items
dump_all dump [] = nil
dump_all dump (a ∷ rest) = cons (dump a) (dump_all dump rest)

abbrev pub factors_of : ParsedDesignPayload → Json
factors_of p = arr (dump_all dump_factor p.factors)

abbrev pub parsed_fields : Option ParsedDesignPayload → Dict
parsed_fields none = end
parsed_fields (some p) = entry "orientation" (str p.orientation) (
    entry "design_actual" (arr (dump_all obj p.design_actual)) (
      entry "responses" (arr (dump_all dump_response p.responses)) (
        entry "n_runs" (int (pos (length p.design_actual)))
          (entry "n_factors" (int (pos (length p.factors))) end))))

unfoldable pub build_design_data : Dict → Option ParsedDesignPayload → Dict
build_design_data upload_source payload =
    Json.merge
      (entry "design_type" (str "uploaded") (entry "upload_source" (obj upload_source) end))
      (parsed_fields payload)

abbrev pub first_source : Text → (Text → String) → Items → List ClarifyingQuestion → Dict
first_source filename string_of raw_preview qs = entry "filename" (str (string_of filename)) (
    entry "raw_preview" (arr raw_preview)
      (entry "questions" (arr (dump_all dump_question qs)) (entry "answers" (obj end) end)))

abbrev pub factors_if : Option ParsedDesignPayload → Option Json
factors_if none = none
factors_if (some p) = some (factors_of p)

abbrev pub name_of : Text → (Text → String) → String
name_of [] string_of = "Imported design"
name_of (c ∷ filename) string_of = string_of (c ∷ filename)

-- The row, with the id and the time that the database draws.
abbrev pub draft :
    ℕ
    → ℕ
    → ℕ
    → Text
    → (Text → String)
    → Items
    → List ClarifyingQuestion
    → Option ParsedDesignPayload
    → Experiment
draft id now user_id filename string_of raw_preview qs payload = record {
  id = id;
  user_id = user_id;
  name = name_of filename string_of;
  status = "draft";
  design_type = some "uploaded";
  factors = factors_if payload;
  design_data =
      some (obj (build_design_data (first_source filename string_of raw_preview qs) payload));
  results_data = none;
  evaluation_data = none;
  conversation_id = none;
  created_at = now;
}

-- `_persist_initial_draft`, whose callers give the questions or the structure
unfoldable pub persist_initial_draft :
    ℕ
    → ℕ
    → ℕ
    → Text
    → (Text → String)
    → Items
    → List ClarifyingQuestion
    → Option ParsedDesignPayload
    → Exec Experiment
unfolding build_design_data
persist_initial_draft id now user_id filename string_of raw_preview qs payload = do
  let e = draft id now user_id filename string_of raw_preview qs payload
  add_experiment e
  pure e

abbrev pub reply_with : Outcome → Items → Experiment → Exec (Reply UploadParseResponse)
reply_with outcome raw_preview e =
    pure (replied (record { upload_id = e.id; outcome = outcome; raw_preview = arr raw_preview }))

abbrev pub create_from :
    ℕ → ℕ → ℕ → Text → (Text → String) → Items → Discovery → Exec (Reply UploadParseResponse)
create_from id now user_id filename string_of raw_preview (failed fault) =
    pure (http_error 502 (bad_answer fault))
create_from id now user_id filename string_of raw_preview api_error = pure crashed
create_from id now user_id filename string_of raw_preview (design p) = do
  e ← persist_initial_draft id now user_id filename string_of raw_preview [] (some p)
  reply_with (structure p) raw_preview e
create_from id now user_id filename string_of raw_preview (questions qs) = do
  e ← persist_initial_draft id now user_id filename string_of raw_preview qs none
  reply_with (needs_clarification qs) raw_preview e

abbrev pub create_parsed :
    Claude → ℕ → ℕ → ℕ → Text → Parse ParsedUpload → Exec (Reply UploadParseResponse)
create_parsed claude id now user_id filename (refused fault) =
    pure (http_error 400 (bad_file fault))
create_parsed claude id now user_id filename csv_error = pure crashed
create_parsed claude id now user_id filename read_error = pure crashed
create_parsed claude id now user_id filename (parsed file) =
    let raw_preview = rows_json claude.string_of file.rows in
    create_from id now user_id filename claude.string_of raw_preview
      (discover_structure claude (arr raw_preview) [] [])

unfoldable pub create_upload :
    Readers → Claude → ℕ → ℕ → ℕ → ℕ → ℕ → Text → List ℕ → Exec (Reply UploadParseResponse)
unfolding persist_initial_draft
create_upload readers claude max_bytes max_cells id now user_id filename raw =
    create_parsed claude id now user_id filename
      (parse_upload readers max_bytes max_cells filename raw)
