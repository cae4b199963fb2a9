-- ===== src/Export/Script/Calls.antt =====
-- Which recorded calls become steps.
use factorial.Prelude.{
  ℕ, ◌<◌, ◌≤◌, ◌≡◌, refl, sym, ◌∙◌, ◌⊎◌, inl, inr, ltb, ltb→lt, Bool-cases, All-imp, Bool, true,
  false, ◌&&◌, Option, none, some, List, [], ◌∷◌, arith, length, select, count_where, All,
  count_where-select, select_meets,
}
use factorial.Prelude.Sorting.{
  sort_by, IsSorted, sort_by-IsSorted, All-sort_by, count_where-sort_by,
}
use factorial.Model.{Experiment}
use factorial.Chat.Rows.{ToolCallRow, Store}
use factorial.Export.Script.{is_step, runs_before, some_calls, fetch_or_400}

before_total : (a b : ToolCallRow) → runs_before a b ≡ false → runs_before b a ≡ true
before_total a b h = ground arith

before_trans :
    (a b c : ToolCallRow) → runs_before a b ≡ true → runs_before b c ≡ true → runs_before a c ≡ true
before_trans a b c h k = ground arith

-- A call does not come after another: its turn has a lower number, or the turn has the same number and the call has not
-- a higher one. The agent numbers the turns of each of its runs from 1 on.
abbrev pub IsBefore : ToolCallRow → ToolCallRow → Type 0
IsBefore a b =
    (a.agent_turn < b.agent_turn) ⊎ ((a.agent_turn ≡ b.agent_turn) × (a.call_order ≤ b.call_order))

abbrev pub InOrder : List ToolCallRow → Type 0
InOrder [] = Unit
InOrder (c ∷ calls) = All (IsBefore c) calls × InOrder calls

runs_before-IsBefore : (a b : ToolCallRow) → runs_before a b ≡ true → IsBefore a b
runs_before-IsBefore a b h = elim (Bool-cases (ltb a.agent_turn b.agent_turn)) [
  | inl earlier ↦ inl (ltb→lt a.agent_turn b.agent_turn earlier)
  | inr same ↦ inr (ground (arith, h, same), ground (arith, h, same))
]

sorted-InOrder : (calls : List ToolCallRow) → IsSorted runs_before calls → InOrder calls
sorted-InOrder [] h = tt
sorted-InOrder (c ∷ calls) h =
    (All-imp calls (runs_before-IsBefore c) h.0, sorted-InOrder calls h.1)

-- An answer with the steps of a conversation: they are in the order of turns and calls, each is a successful call
-- of an analysis tool in it, and all such calls are there, as often as they are recorded; none is the answer where
-- there is no such call.
abbrev pub IsRecipe : List ToolCallRow → ℕ → Option (List ToolCallRow) → Type 0
IsRecipe rows conversation_id none = count_where (is_step conversation_id) rows ≡ 0
IsRecipe rows conversation_id (some calls) =
    (0 < length calls)
    × InOrder calls
    × All (λ c. is_step conversation_id c ≡ true) calls
    × ((p : ToolCallRow → Bool)
        → count_where p calls ≡ count_where (λ c. p c && is_step conversation_id c) rows)

count_all : (xs : List ToolCallRow) → count_where (λ c. true) xs ≡ length xs
count_all [] = refl
count_all (x ∷ xs) = omega (arith, count_all xs)

some_calls-IsRecipe :
    (rows : List ToolCallRow) (conversation_id : ℕ) (calls : List ToolCallRow)
    → IsSorted runs_before calls
    → All (λ c. is_step conversation_id c ≡ true) calls
    → ((p : ToolCallRow → Bool)
        → count_where p calls ≡ count_where (λ c. p c && is_step conversation_id c) rows)
    → IsRecipe rows conversation_id (some_calls calls)
some_calls-IsRecipe rows conversation_id [] sorted steps same = sym (same (λ c. true))
some_calls-IsRecipe rows conversation_id (call ∷ calls) sorted steps same =
    (omega arith, sorted-InOrder (call ∷ calls) sorted, steps, same)

-- An experiment whose conversation has steps, which are its successful calls of analysis tools, is exported with exactly
-- those, by the number of the turn within its run of the agent, and then of the call within the turn; one with no
-- conversation, or whose conversation has no step, is refused.
pub fetch_or_400-IsRecipe :
    (store : Store) (e : Experiment)
    → ((conversation_id : ℕ)
        → e.conversation_id ≡ some conversation_id
        → IsRecipe store.tool_calls conversation_id (fetch_or_400 store e))
      × (e.conversation_id ≡ none → fetch_or_400 store e ≡ none)
unfolding fetch_or_400
fetch_or_400-IsRecipe store e = (
  λ conversation_id linked.
      let found = select (is_step conversation_id) store.tool_calls in
      rw linked (
        some_calls-IsRecipe store.tool_calls conversation_id (sort_by runs_before found)
          (sort_by-IsSorted runs_before before_total before_trans found)
          (All-sort_by runs_before (λ c. is_step conversation_id c ≡ true) found
            (select_meets (is_step conversation_id) store.tool_calls))
          (λ p.
            count_where-sort_by runs_before p found
            ∙ count_where-select p (is_step conversation_id) store.tool_calls)),
  λ unlinked. rw unlinked refl,
)
