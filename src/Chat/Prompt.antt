-- ===== src/Chat/Prompt.antt =====
-- `_build_system_prompt` of agent_service.py. A text is the list of its code points; the general part,
-- SYSTEM_PROMPT, is an argument.
pub mod Clean
use factorial.Prelude.{
  Text, codes, String, Bool, ◌&&◌, Option, none, some, [], ◌∷◌, ◌++◌, map, str_eq, leb, ◌==◌,
  if◌then◌else◌, length,
}
use factorial.Account.Roles.{slug_re_match}

-- re.compile(r"^[a-z0-9_]{1,50}$"), tested by `match`: as the pattern of a role's slug, of at most 50 characters
-- beside a newline at the end.
abbrev pub without_newline : Text → Text
without_newline [] = []
without_newline (c ∷ []) = if c == 10 then [] else c ∷ []
without_newline (c ∷ d ∷ text) = c ∷ without_newline (d ∷ text)

unfoldable pub background_re_match : Text → Bool
background_re_match text = slug_re_match text && leb (length (without_newline text)) 50

-- .replace("_", " ")
abbrev pub spaced : Text → Text
spaced = map (λ c. if c == b'_' then b' ' else c)

abbrev pub paragraph : Text
paragraph = 10 ∷ 10 ∷ []

abbrev pub background_clause : Text → Text
background_clause label =
    paragraph
    ++ (codes "The user's background: "
        ++ (label ++ codes ". Tailor your explanations, terminology, and examples to this domain."))

-- `_DETAIL_LEVEL_CLAUSES`, with "" for an unknown level
abbrev pub detail_level_clause : String → String
detail_level_clause level =
    if str_eq level "beginner"
    then "Response style: the user is new to Design of Experiments. Explain concepts in plain language, define technical terms the first time you use them, walk through your reasoning step by step, and prefer worked examples over abstract rules."
    else if str_eq level "expert"
    then "Response style: the user is a DOE expert. Be concise. Skip basic definitions and reasoning the user can reconstruct. Focus on the result, non-obvious caveats, and any assumptions you had to make. No preamble, no recap."
    else ""

abbrev pub with_background : Option Text → Text → Text
with_background none prompt = prompt
with_background (some background) prompt =
    if background_re_match background
    then prompt ++ background_clause (spaced background)
    else prompt

abbrev pub with_detail : String → Text → Text
with_detail clause prompt =
    if str_eq clause "" then prompt else prompt ++ (paragraph ++ codes clause)

-- No background and an empty one are alike: neither matches.
unfoldable pub build_system_prompt : Text → Option Text → String → Text
unfolding background_re_match
build_system_prompt system_prompt user_background detail_level =
    with_detail (detail_level_clause detail_level) (with_background user_background system_prompt)
