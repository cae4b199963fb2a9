-- ===== src/Upload/Discover.antt =====
-- backend/src/app/services/upload_claude_service.py, and the shapes of backend/src/app/schemas/uploads.py. The
-- Anthropic client, json.dumps and the validation by pydantic are parameters. A float is kept as its text.
pub mod Answers
use factorial.Prelude.{
  Text, ℕ, zero, suc, String, Option, none, some, List, [], ◌∷◌, ◌++◌, map, str_eq, if◌then◌else◌,
}
use Prim.Native.String.{◌++◌ as append}
use factorial.Prelude.Maps
use factorial.Prelude.Maps.{Map}
use factorial.Model.Json
use factorial.Model.Json.{Json, Items, Dict, null, str, arr, nil, cons}
use factorial.Agent.Conversation.{Response, Block, tool_use}
use factorial.Upload.{Cell, blank, text, scalar}

-- MAX_CLARIFYING_QUESTIONS
abbrev pub max_clarifying_questions : ℕ
max_clarifying_questions = 5

pub record UploadFactor : Type 0 where
  pub name : String
  pub factor_type : String
  pub low : Option String
  pub high : Option String
  pub levels : Option Items
  pub units : Option String

pub record UploadResponse : Type 0 where
  pub name : String
  pub goal : Option String
  pub units : Option String

pub record ClarifyingQuestion : Type 0 where
  pub id : String
  pub question : String
  pub options : Option Items
  pub column_ref : Option String

pub record ParsedDesignPayload : Type 0 where
  pub orientation : String
  pub factors : List UploadFactor
  pub responses : List UploadResponse
  pub design_actual : List Dict
  pub results_data : List Dict

-- `model_validate` of the two models, none for a ValidationError; json.dumps; `messages.create` with the user's
-- message, none where it raises; and the text with these code points.
pub record Claude : Type 0 where
  pub validate_design : Dict → Option ParsedDesignPayload
  pub validate_question : Json → Option ClarifyingQuestion
  pub dumps : Json → String
  pub create : String → Option Response
  pub string_of : Text → String

-- The texts of UploadClaudeError.
pub data ClaudeFault : Type 0 where
  no_tool_use : String → ClaudeFault
  no_known_tool malformed_structure malformed_questions : ClaudeFault

-- What `discover_structure` returns or raises; `api_error` is an exception of the client, which passes through.
pub data Discovery : Type 0 where
  design : ParsedDesignPayload → Discovery
  questions : List ClarifyingQuestion → Discovery
  failed : ClaudeFault → Discovery
  api_error : Discovery

abbrev pub cell_json : (Text → String) → Cell → Json
cell_json string_of blank = null
cell_json string_of (text t) = str (string_of t)
cell_json string_of (scalar json) = json

abbrev pub row_json : (Text → String) → List Cell → Items
row_json string_of [] = nil
row_json string_of (c ∷ row) = cons (cell_json string_of c) (row_json string_of row)

-- The rows as JSON has them.
abbrev pub rows_json : (Text → String) → List (List Cell) → Items
rows_json string_of [] = nil
rows_json string_of (row ∷ rows) = cons (arr (row_json string_of row)) (rows_json string_of rows)

-- "\n".join(parts)
abbrev pub join_lines : List String → String
join_lines [] = ""
join_lines (part ∷ []) = part
join_lines (part ∷ next ∷ parts) = append part (append "\n" (join_lines (next ∷ parts)))

abbrev pub answer_to : Map String → String → String
answer_to answers id = elim (Maps.lookup id answers) [ none ↦ "(no answer)" | some answer ↦ answer ]

abbrev pub question_line : Map String → ClarifyingQuestion → String
question_line answers q = append "- **" (
    append q.id
      (append "**: " (append q.question (append " → `" (append (answer_to answers q.id) "`")))))

abbrev pub previous_parts : List ClarifyingQuestion → Map String → List String
previous_parts [] answers = []
previous_parts (q ∷ qs) [] = []
previous_parts (q ∷ qs) (answer ∷ answers) =
    ""
    ∷ "## Previous Q&A"
    ∷ ""
    ∷ "I already asked the user these clarifying questions and they answered."
    ∷ "Use these answers to commit to a final structure now — do NOT ask again."
    ∷ ""
    ∷ (map (question_line (answer ∷ answers)) (q ∷ qs)
        ++ ("" ∷ "Now call `report_design_structure` with the resolved structure." ∷ []))

-- No questions and None are alike, and so are the answers.
unfoldable pub build_user_message :
    (Json → String) → Json → List ClarifyingQuestion → Map String → String
build_user_message dumps raw_rows prior_questions prior_answers = join_lines (
    ("Here is the 2D matrix extracted from the user's file (JSON-encoded, with `null` for empty cells):"
      ∷ ""
      ∷ "```json"
      ∷ dumps raw_rows
      ∷ "```"
      ∷ [])
    ++ previous_parts prior_questions prior_answers)

abbrev pub validate_report : Option ParsedDesignPayload → Discovery
validate_report none = failed malformed_structure
validate_report (some parsed) = design parsed

abbrev pub first_items : ℕ → Items → Items
first_items zero items = nil
first_items (suc n) nil = nil
first_items (suc n) (cons q items) = cons q (first_items n items)

abbrev pub prepend : {A : Type 0} → Option A → Option (List A) → Option (List A)
prepend none rest = none
prepend (some a) none = none
prepend (some a) (some rest) = some (a ∷ rest)

abbrev pub validate_all :
    (Json → Option ClarifyingQuestion) → Items → Option (List ClarifyingQuestion)
validate_all validate nil = some []
validate_all validate (cons q items) = prepend (validate q) (validate_all validate items)

abbrev pub asked : Option (List ClarifyingQuestion) → Discovery
asked none = failed malformed_questions
asked (some qs) = questions qs

abbrev pub questions_raw : (Json → Option ClarifyingQuestion) → Option Json → Discovery
questions_raw validate (some (arr (cons q items))) =
    asked (validate_all validate (first_items max_clarifying_questions (cons q items)))
questions_raw validate _ = failed malformed_questions

unfoldable pub validate_questions : (Json → Option ClarifyingQuestion) → Dict → Discovery
validate_questions validate payload = questions_raw validate (Json.lookup "questions" payload)

-- The loop over the blocks.
unfoldable pub interpret_blocks : Claude → List Block → Discovery
interpret_blocks claude [] = failed no_known_tool
interpret_blocks claude (tool_use called ∷ blocks) =
    let later = interpret_blocks claude blocks in
    if str_eq called.name "report_design_structure"
    then validate_report (claude.validate_design called.input)
    else if str_eq called.name "ask_clarifying_questions"
    then validate_questions claude.validate_question called.input
    else later
interpret_blocks claude (_ ∷ blocks) = interpret_blocks claude blocks

unfoldable pub interpret_response : Claude → Response → Discovery
interpret_response claude response =
    if str_eq response.stop_reason "tool_use"
    then interpret_blocks claude response.content
    else failed (no_tool_use response.stop_reason)

abbrev pub interpret_call : Claude → Option Response → Discovery
interpret_call claude none = api_error
interpret_call claude (some response) = interpret_response claude response

unfoldable pub discover_structure : Claude → Json → List ClarifyingQuestion → Map String → Discovery
discover_structure claude raw_rows prior_questions prior_answers =
    interpret_call claude
      (claude.create (build_user_message claude.dumps raw_rows prior_questions prior_answers))
