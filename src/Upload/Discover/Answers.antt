-- ===== src/Upload/Discover/Answers.antt =====
-- What is known of the questions that Claude's answer is read as.
use factorial.Prelude.{
  ℕ, zero, suc, ◌≤◌, ◌<◌, String, ◌≡◌, refl, inl, inr, Option, none, some, List, [], ◌∷◌, arith,
  str_eq, Bool-cases, length, All,
}
use factorial.Prelude.Maps.{Map}
use factorial.Model.Json
use factorial.Model.Json.{Json, Items, null, bool, int, float, str, arr, obj, nil, cons}
use factorial.Agent.Conversation.{Response, Block, text, tool_use, other_block}
use factorial.Upload.Discover.{
  ClarifyingQuestion, ParsedDesignPayload, Claude, Discovery, questions, max_clarifying_questions,
  first_items, prepend, validate_all, asked, questions_raw, validate_report, validate_questions,
  interpret_blocks, interpret_response, interpret_call, build_user_message, discover_structure,
}

abbrev IsValid : (Json → Option ClarifyingQuestion) → ClarifyingQuestion → Type 0
IsValid validate q = (json : Json) × (validate json ≡ some q)

-- Questions, where there are any, are at least one and at most five, and each has passed the validation.
abbrev pub IsAskable : (Json → Option ClarifyingQuestion) → Discovery → Type 0
IsAskable validate (questions qs) =
    (0 < length qs) × (length qs ≤ max_clarifying_questions) × All (IsValid validate) qs
IsAskable validate _ = Unit

module _ (validate : Json → Option ClarifyingQuestion) where
  abbrev item_count : Items → ℕ
  item_count nil = 0
  item_count (cons q items) = suc (item_count items)

  -- A list of questions from this many texts.
  abbrev IsFrom : ℕ → Option (List ClarifyingQuestion) → Type 0
  IsFrom n none = Unit
  IsFrom n (some qs) = (length qs ≡ n) × All (IsValid validate) qs

  prepend-IsFrom :
      (n : ℕ) (json : Json) (a : Option ClarifyingQuestion)
      (rest : Option (List ClarifyingQuestion))
      → validate json ≡ a
      → IsFrom n rest
      → IsFrom (suc n) (prepend a rest)
  prepend-IsFrom n json none rest h k = tt
  prepend-IsFrom n json (some a) none h k = tt
  prepend-IsFrom n json (some a) (some rest) h k = (omega (arith, k.0), ((json, h), k.1))

  validate_all-IsFrom : (items : Items) → IsFrom (item_count items) (validate_all validate items)
  validate_all-IsFrom nil = (refl, tt)
  validate_all-IsFrom (cons q items) =
      prepend-IsFrom (item_count items) q (validate q) (validate_all validate items) refl
        (validate_all-IsFrom items)

  item_count-first_items : (n : ℕ) (items : Items) → item_count (first_items n items) ≤ n
  item_count-first_items zero items = omega arith
  item_count-first_items (suc n) nil = omega arith
  item_count-first_items (suc n) (cons q items) = omega (arith, item_count-first_items n items)

  asked-IsAskable :
      (n : ℕ) (o : Option (List ClarifyingQuestion))
      → 0 < n
      → n ≤ max_clarifying_questions
      → IsFrom n o
      → IsAskable validate (asked o)
  asked-IsAskable n none some_left few h = tt
  asked-IsAskable n (some qs) some_left few h =
      (omega (arith, h.0, some_left), omega (arith, h.0, few), h.1)

  questions_raw-IsAskable : (raw : Option Json) → IsAskable validate (questions_raw validate raw)
  questions_raw-IsAskable (some (arr (cons q items))) =
      let asked_items = first_items max_clarifying_questions (cons q items) in
      asked-IsAskable (item_count asked_items) (validate_all validate asked_items) (omega arith)
        (item_count-first_items max_clarifying_questions (cons q items))
        (validate_all-IsFrom asked_items)
  questions_raw-IsAskable none = tt
  questions_raw-IsAskable (some null) = tt
  questions_raw-IsAskable (some (bool b)) = tt
  questions_raw-IsAskable (some (int i)) = tt
  questions_raw-IsAskable (some (float t)) = tt
  questions_raw-IsAskable (some (str s)) = tt
  questions_raw-IsAskable (some (arr nil)) = tt
  questions_raw-IsAskable (some (obj d)) = tt

validate_report-IsAskable :
    (validate : Json → Option ClarifyingQuestion) (o : Option ParsedDesignPayload)
    → IsAskable validate (validate_report o)
validate_report-IsAskable validate none = tt
validate_report-IsAskable validate (some parsed) = tt

module _ (claude : Claude) where
  interpret_blocks-IsAskable :
      (blocks : List Block) → IsAskable claude.validate_question (interpret_blocks claude blocks)
  unfolding interpret_blocks validate_questions
  interpret_blocks-IsAskable [] = tt
  interpret_blocks-IsAskable (text t ∷ blocks) = interpret_blocks-IsAskable blocks
  interpret_blocks-IsAskable (other_block ∷ blocks) = interpret_blocks-IsAskable blocks
  interpret_blocks-IsAskable (tool_use called ∷ blocks) =
      let later = interpret_blocks-IsAskable blocks in
      elim (Bool-cases (str_eq called.name "report_design_structure")) [
        | inl report ↦ rw report (
            validate_report-IsAskable claude.validate_question
              (claude.validate_design called.input))
        | inr other ↦ rw other elim (Bool-cases (str_eq called.name "ask_clarifying_questions")) [
          | inl ask ↦ rw ask (
              questions_raw-IsAskable claude.validate_question
                (Json.lookup "questions" called.input))
          | inr unknown ↦ rw unknown later
        ]
      ]

  interpret_call-IsAskable :
      (response : Option Response)
      → IsAskable claude.validate_question (interpret_call claude response)
  unfolding interpret_response
  interpret_call-IsAskable none = tt
  interpret_call-IsAskable (some response) =
      elim (Bool-cases (str_eq response.stop_reason "tool_use")) [
        | inl used ↦ rw used (interpret_blocks-IsAskable response.content)
        | inr unused ↦ rw unused tt
      ]

  -- Whatever Claude answers, the user is asked between one and five questions or none, each of which has passed
  -- the validation.
  pub discover_structure-IsAskable :
      (raw_rows : Json) (prior_questions : List ClarifyingQuestion) (prior_answers : Map String)
      → IsAskable claude.validate_question
          (discover_structure claude raw_rows prior_questions prior_answers)
  unfolding discover_structure
  discover_structure-IsAskable raw_rows prior_questions prior_answers =
      interpret_call-IsAskable
        (claude.create (build_user_message claude.dumps raw_rows prior_questions prior_answers))
