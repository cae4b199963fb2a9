-- ===== src/Upload/Drafts/Updates.antt =====
-- `submit_answers` and `finalize_upload` of backend/src/app/api/v1/endpoints/uploads.py, the requests of an upload that is there.
use factorial.Prelude.{ℕ, Option, none, some, String, List, [], ◌∷◌, str_eq, if◌then◌else◌}
use factorial.Prelude.Maps.{Map}
use factorial.Model.{Experiment}
use factorial.Model.Json
use factorial.Model.Json.{Json, Dict, null, str, arr, obj, nil, end, entry}
use factorial.Database.{Exec, pure, modify, ◌>>=◌, ◌>>◌}
use factorial.Agent.Interception.{is_falsy}
use factorial.Design.Experiments.{get_experiment, write_experiment}
use factorial.Upload.Discover.{
  ClarifyingQuestion, ParsedDesignPayload, Claude, Discovery, design, questions, failed, api_error,
  validate_all, discover_structure,
}
use factorial.Upload.Drafts.{
  Reply, replied, http_error, crashed, bad_answer, undecided, not_found, not_uploaded, structure,
  UploadParseResponse, factors_of, build_design_data,
}

-- What `_read_upload_source` gives: the dict, the HTTPException 409, or another exception.
pub data Source : Type 0 where
  found : Dict → Source
  no_upload no_dict : Source

abbrev pub source_in : Option Json → Source
source_in (some (obj d)) = found d
source_in _ = no_upload

unfoldable pub read_upload_source : Option Json → Source
read_upload_source none = no_upload
read_upload_source (some null) = no_upload
read_upload_source (some (obj data')) = source_in (Json.lookup "upload_source" data')
read_upload_source (some _) = no_dict

-- x or []
abbrev pub or_empty : Option Json → Json
or_empty none = arr nil
or_empty (some json) = if is_falsy json then arr nil else json

-- The questions of the list, none where one does not pass or there is no list.
abbrev pub questions_in :
    (Json → Option ClarifyingQuestion) → Json → Option (List ClarifyingQuestion)
questions_in validate (arr items) = validate_all validate items
questions_in validate _ = none

abbrev pub answers_json : Map String → Dict
answers_json [] = end
answers_json ((k, v) ∷ answers) = entry k (str v) (answers_json answers)

-- upload_source["answers"] = answers
abbrev pub answered : Map String → Dict → Dict
answered answers source = Json.insert "answers" (obj (answers_json answers)) source

abbrev pub commit : Dict → ParsedDesignPayload → Experiment → Experiment
commit source p e = record e {
  factors = some (factors_of p);
  design_data = some (obj (build_design_data source (some p)));
}

abbrev pub answer_with :
    Experiment → Dict → Map String → Discovery → Exec (Reply UploadParseResponse)
answer_with e source answers (failed fault) = pure (http_error 502 (bad_answer fault))
answer_with e source answers api_error = pure crashed
answer_with e source answers (questions qs) = pure (http_error 502 undecided)
answer_with e source answers (design p) = do
  modify (write_experiment e.id (commit (answered answers source) p))
  pure (
      replied (record {
        upload_id = e.id;
        outcome = structure p;
        raw_preview = or_empty (Json.lookup "raw_preview" source);
      }))

abbrev pub answer_prior :
    Claude
    → Experiment
    → Dict
    → Map String
    → Option (List ClarifyingQuestion)
    → Exec (Reply UploadParseResponse)
answer_prior claude e source answers none = pure crashed
answer_prior claude e source answers (some prior) =
    answer_with e source answers
      (discover_structure claude (or_empty (Json.lookup "raw_preview" source)) prior answers)

abbrev pub answer_source :
    Claude → Experiment → Map String → Source → Exec (Reply UploadParseResponse)
answer_source claude e answers no_upload = pure (http_error 409 not_uploaded)
answer_source claude e answers no_dict = pure crashed
answer_source claude e answers (found source) =
    answer_prior claude e source answers
      (questions_in claude.validate_question (or_empty (Json.lookup "questions" source)))

abbrev pub answer_found : Claude → Map String → Option Experiment → Exec (Reply UploadParseResponse)
answer_found claude answers none = pure (http_error 404 not_found)
answer_found claude answers (some e) =
    answer_source claude e answers (read_upload_source e.design_data)

unfoldable pub submit_answers : Claude → ℕ → ℕ → Map String → Exec (Reply UploadParseResponse)
unfolding read_upload_source build_design_data
submit_answers claude upload_id user_id answers = do
  experiment ← get_experiment upload_id user_id
  answer_found claude answers experiment

abbrev pub rename : Option String → String → String
rename none old = old
rename (some name) old = if str_eq name "" then old else name

-- list(rows) or None
abbrev pub rows_or_none : List Dict → Option (List Dict)
rows_or_none [] = none
rows_or_none (row ∷ rows) = some (row ∷ rows)

abbrev pub status_after : List Dict → String → String
status_after [] status = status
status_after (row ∷ rows) status = "active"

abbrev pub finalized : Option String → Dict → ParsedDesignPayload → Experiment → Experiment
finalized name source p e = record (commit source p e) {
  name = rename name e.name;
  results_data = rows_or_none p.results_data;
  status = status_after p.results_data e.status;
}

abbrev pub finalize_source :
    Experiment → Option String → ParsedDesignPayload → Source → Exec (Reply Experiment)
finalize_source e name p no_upload = pure (http_error 409 not_uploaded)
finalize_source e name p no_dict = pure crashed
finalize_source e name p (found source) = do
  modify (write_experiment e.id (finalized name source p))
  pure (replied (finalized name source p e))

abbrev pub finalize_found :
    Option String → ParsedDesignPayload → Option Experiment → Exec (Reply Experiment)
finalize_found name p none = pure (http_error 404 not_found)
finalize_found name p (some e) = finalize_source e name p (read_upload_source e.design_data)

-- The answer is the experiment as it is stored.
unfoldable pub finalize_upload :
    ℕ → ℕ → Option String → ParsedDesignPayload → Exec (Reply Experiment)
unfolding read_upload_source build_design_data
finalize_upload upload_id user_id name p = do
  experiment ← get_experiment upload_id user_id
  finalize_found name p experiment
