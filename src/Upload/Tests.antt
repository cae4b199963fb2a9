-- ===== src/Upload/Tests.antt =====
-- Uploads at small inputs.
use factorial.Prelude.{
  Text, codes, ℕ, ◌+◌, String, ◌≡◌, refl, ◌&&◌, ◌||◌, Option, none, some, List, [], ◌∷◌, map, leb,
  ◌==◌, if◌then◌else◌,
}
use factorial.Prelude.Int.{pos}
use factorial.Model.{Experiment}
use factorial.Model.Json
use factorial.Model.Json.{Json, Dict, null, int, str, arr, obj, nil, cons, end, entry}
use factorial.Database.{Database, ok, err, empty, key_error}
use factorial.Agent.Conversation.{tool_use}
use factorial.Account.Roles.{Unicode, lower_text}
use factorial.Design.Experiments.{add_results}
use factorial.Upload.{
  Cell, blank, text, scalar, Readers, csv, parsed, refused, too_many_cells, legacy_xls,
  parse_upload, normalise, pop_blank, blank_to_none, check_rows,
}
use factorial.Upload.Table.{cell_at, normalise-cell_at}
use factorial.Upload.Outcome.{IsSound, parse_upload-IsSound}
use factorial.Upload.Discover.{ClarifyingQuestion, ParsedDesignPayload, Claude}
use factorial.Upload.Drafts.{create_upload, build_design_data, replied, first_source, draft}
use factorial.Upload.Drafts.Updates.{finalize_upload, finalized, read_upload_source}
use factorial.Upload.Drafts.Created.{IsKept, create_upload-IsKept}
use factorial.Upload.Drafts.Unindexed.{after, add_results-finalize_upload}

abbrev ascii : Unicode
ascii = record {
  lower = λ c. (if leb b'A' c && leb c b'Z' then c + 32 else c) ∷ [];
  is_space = λ c. c == 32 || c == 10;
}

abbrev onto_first : ℕ → List Text → List Text
onto_first c [] = (c ∷ []) ∷ []
onto_first c (word ∷ words) = (c ∷ word) ∷ words

abbrev split : ℕ → Text → List Text
split sep [] = [] ∷ []
split sep (c ∷ t) = let rest = split sep t in if c == sep then [] ∷ rest else onto_first c rest

-- A reader of tables without quotes, and one that opens no workbook.
abbrev readers : Readers
readers = record {
  load_workbook = λ content. none;
  csv_rows = λ t. some (map (split b',') (split 10 t));
  decode_utf8_sig = λ content. some content;
  unicode = ascii;
}

abbrev table : List ℕ
table = codes "T,yield\n50\n ,\n"

abbrev cells : List (List Cell)
cells = (text (codes "T") ∷ text (codes "yield") ∷ []) ∷ (text (codes "50") ∷ blank ∷ []) ∷ []

-- The short row is filled up, and the two blank rows at the end are gone.
parse_test :
    parse_upload readers 100 10 (codes "Runs.CSV") table
    ≡ parsed (record { rows = cells; detected_format = csv })
unfolding parse_upload check_rows normalise pop_blank lower_text
parse_test = refl

refusals :
    (parse_upload readers 100 3 (codes "a.csv") table ≡ refused (too_many_cells 4 3))
    × (parse_upload readers 100 10 (codes "a.xls") table ≡ refused legacy_xls)
unfolding parse_upload check_rows normalise pop_blank lower_text
refusals = (refl, refl)

normalise-cell_at_example :
    cell_at 1 1
      (normalise ascii ((text (codes "T") ∷ text (codes " ") ∷ []) ∷ (scalar null ∷ []) ∷ []))
    ≡ blank_to_none ascii
        (cell_at 1 1 ((text (codes "T") ∷ text (codes " ") ∷ []) ∷ (scalar null ∷ []) ∷ []))
normalise-cell_at_example =
    normalise-cell_at ascii 1 1
      ((text (codes "T") ∷ text (codes " ") ∷ []) ∷ (scalar null ∷ []) ∷ [])

parse_upload-IsSound_example :
    IsSound readers 100 10 (codes "a.csv") table (parse_upload readers 100 10 (codes "a.csv") table)
parse_upload-IsSound_example = parse_upload-IsSound readers 100 10 (codes "a.csv") table

abbrev question : ClarifyingQuestion
question = record { id = "q1"; question = "Is T a factor?"; options = none; column_ref = none }

abbrev asked_json : Json
asked_json = obj (entry "id" (str "q1") (entry "question" (str "Is T a factor?") end))

abbrev text_at : String → Dict → Option String
text_at key d = elim (Json.lookup key d) [ some (str s) ↦ some s | _ ↦ none ]

abbrev read_question : Option String → Option String → Option ClarifyingQuestion
read_question (some id) (some question) =
    some (record { id = id; question = question; options = none; column_ref = none })
read_question _ _ = none

abbrev validate_question : Json → Option ClarifyingQuestion
validate_question (obj d) = read_question (text_at "id" d) (text_at "question" d)
validate_question _ = none

-- A model that asks one question.
abbrev claude : Claude
claude = record {
  validate_design = λ d. none;
  validate_question = validate_question;
  dumps = λ json. "[]";
  create = λ message. some (record {
    content =
        tool_use (record {
          id = "t";
          name = "ask_clarifying_questions";
          input = entry "questions" (arr (cons asked_json nil)) end;
        })
        ∷ [];
    stop_reason = "tool_use";
    model = [];
    input_tokens = 0;
    output_tokens = 0;
  });
  string_of = λ t. "runs.csv";
}

create_upload-IsKept_example :
    IsKept claude "runs.csv" empty
      (create_upload readers claude 100 10 1 0 5 (codes "runs.csv") table empty)
create_upload-IsKept_example =
    create_upload-IsKept readers claude 100 10 1 0 5 (codes "runs.csv") table empty

abbrev payload : ParsedDesignPayload
payload = record {
  orientation = "rows";
  factors = [];
  responses = [];
  design_actual = entry "T" (int (pos 50)) (entry "yield" (int (pos 72)) end) ∷ [];
  results_data = entry "T" (int (pos 50)) (entry "yield" (int (pos 72)) end) ∷ [];
}

abbrev source : Dict
source = first_source (codes "runs.csv") claude.string_of nil []

abbrev upload : Experiment
upload = draft 1 0 5 (codes "runs.csv") claude.string_of nil [] none

abbrev db : Database
db = record empty { experiments = upload ∷ [] }

add_results-finalize_upload_example :
    (finalize_upload 1 5 none payload db
      ≡ (ok (replied (finalized none source payload upload)), after none payload upload source db))
    × (add_results 1 [] 5 (after none payload upload source db)
        ≡ (err key_error, after none payload upload source db))
unfolding read_upload_source build_design_data Json.lookup Json.merge Json.erase
add_results-finalize_upload_example =
    add_results-finalize_upload 1 5 none payload upload source db refl refl []
      (entry "T" (int (pos 50)) (entry "yield" (int (pos 72)) end)) [] [] refl tt refl
