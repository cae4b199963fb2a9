-- ===== src/Chat/Persist/Links.antt =====
-- Which row of `messages` an audit row of a tool call names.
use factorial.Prelude.{
  ℕ, String, ◌≡◌, refl, ap, inl, inr, Option, none, List, [], ◌∷◌, map, str_eq, Bool-cases, All,
}
use factorial.Prelude.Maps
use factorial.Prelude.Maps.{Map}
use factorial.Model.Json.{Json}
use factorial.Agent.Conversation.{
  Block, text, tool_use, other_block, ResultBlock, Meta, NewMessage, assistant_message,
  tool_results, CallRecord,
}
use factorial.Chat.Rows.{ToolCallRow}
use factorial.Chat.Persist.{
  Persisted, add_row, result_row, persist_results, persist_block, persist_blocks, persist_message,
  persist_new_messages, persist_tool_calls, found_id,
}

-- No call is mapped to an id.
abbrev IsUnlinked : Map (Option ℕ) → Type 0
IsUnlinked m = All (λ e. e.1 ≡ none) m

insert-IsUnlinked :
    (key : String) (m : Map (Option ℕ)) → IsUnlinked m → IsUnlinked (Maps.insert key none m)
unfolding Maps.insert
insert-IsUnlinked key [] h = (refl, tt)
insert-IsUnlinked key ((k, v) ∷ m) h = elim (Bool-cases (str_eq k key)) [
  | inl same ↦ rw same (refl, h.1)
  | inr other ↦ rw other (h.0, insert-IsUnlinked key m h.1)
]

lookup-IsUnlinked :
    (key : String) (m : Map (Option ℕ)) → IsUnlinked m → found_id (Maps.lookup key m) ≡ none
unfolding Maps.lookup
lookup-IsUnlinked key [] h = refl
lookup-IsUnlinked key ((k, v) ∷ m) h = elim (Bool-cases (str_eq k key)) [
  | inl same ↦ rw same h.0
  | inr other ↦ rw other (lookup-IsUnlinked key m h.1)
]

module _ (dumps : Json → String) (conversation_id : ℕ) where
  results-IsUnlinked :
      (rs : List ResultBlock) (p : Persisted)
      → IsUnlinked p.message_ids
      → IsUnlinked (persist_results dumps conversation_id rs p).message_ids
  unfolding persist_results
  results-IsUnlinked [] p h = h
  results-IsUnlinked (r ∷ rs) p h =
      results-IsUnlinked rs (add_row (result_row dumps conversation_id r p.seq) p) h

  block-IsUnlinked :
      (meta : Meta) (b : Block) (p : Persisted)
      → IsUnlinked p.message_ids
      → IsUnlinked (persist_block dumps conversation_id meta b p).message_ids
  block-IsUnlinked meta (text s) p h = h
  block-IsUnlinked meta (tool_use t) p h = insert-IsUnlinked t.id p.message_ids h
  block-IsUnlinked meta other_block p h = h

  blocks-IsUnlinked :
      (meta : Meta) (bs : List Block) (p : Persisted)
      → IsUnlinked p.message_ids
      → IsUnlinked (persist_blocks dumps conversation_id meta bs p).message_ids
  unfolding persist_blocks
  blocks-IsUnlinked meta [] p h = h
  blocks-IsUnlinked meta (b ∷ bs) p h =
      blocks-IsUnlinked meta bs (persist_block dumps conversation_id meta b p)
        (block-IsUnlinked meta b p h)

  messages-IsUnlinked :
      (ms : List NewMessage) (p : Persisted)
      → IsUnlinked p.message_ids
      → IsUnlinked (persist_new_messages dumps conversation_id ms p).message_ids
  unfolding persist_new_messages persist_message
  messages-IsUnlinked [] p h = h
  messages-IsUnlinked (assistant_message bs meta ∷ ms) p h =
      messages-IsUnlinked ms (persist_blocks dumps conversation_id meta bs p)
        (blocks-IsUnlinked meta bs p h)
  messages-IsUnlinked (tool_results rs ∷ ms) p h =
      messages-IsUnlinked ms (persist_results dumps conversation_id rs p)
        (results-IsUnlinked rs p h)

  calls-IsUnlinked :
      (records : List CallRecord) (m : Map (Option ℕ))
      → IsUnlinked m
      → All
          (λ (c : ToolCallRow). c.message_id ≡ none)
          (persist_tool_calls conversation_id records m)
  unfolding persist_tool_calls
  calls-IsUnlinked [] m h = tt
  calls-IsUnlinked (rec ∷ records) m h =
      (lookup-IsUnlinked rec.tool_use_id m h, calls-IsUnlinked records m h)

  call_ids :
      (rs : List CallRecord) (m : Map (Option ℕ))
      → map (λ (c : ToolCallRow). c.tool_use_id) (persist_tool_calls conversation_id rs m)
        ≡ map (λ (r : CallRecord). r.tool_use_id) rs
  unfolding persist_tool_calls
  call_ids [] m = refl
  call_ids (r ∷ rs) m = ap (λ x. r.tool_use_id ∷ x) (call_ids rs m)

  -- Whatever a turn called, each of its audit rows is stored, in the order of the calls, and none names a row of
  -- `messages`: the ids are read before the flush that makes them.
  pub persist_tool_calls-unlinked :
      (ms : List NewMessage) (records : List CallRecord) (seq : ℕ)
      → let p =
          persist_new_messages dumps conversation_id ms
            (record { seq = seq; rows = []; message_ids = [] }) in
        let calls = persist_tool_calls conversation_id records p.message_ids in
        All (λ (c : ToolCallRow). c.message_id ≡ none) calls
        × (map (λ (c : ToolCallRow). c.tool_use_id) calls
            ≡ map (λ (r : CallRecord). r.tool_use_id) records)
  persist_tool_calls-unlinked ms records seq =
      let p =
        persist_new_messages dumps conversation_id ms
          (record { seq = seq; rows = []; message_ids = [] }) in
      (
        calls-IsUnlinked records p.message_ids
            (messages-IsUnlinked ms (record { seq = seq; rows = []; message_ids = [] }) tt),
        call_ids records p.message_ids,
      )
