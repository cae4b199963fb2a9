-- ===== src/Chat/Persist/Rebuild.antt =====
-- What the next turn reads of the messages that a turn stored.
use factorial.Prelude.{
  ℕ, ◌+◌, ◌*◌, ◌<◌, String, ◌≡◌, refl, sym, ap, ◌∙◌, inl, inr, false, List, [], ◌∷◌, ◌++◌, map,
  arith, str_eq, if◌then◌else◌, Bool-cases, length,
}
use mathlib.Core.List.{append_assoc, append-nil, map-append}
use factorial.Model.Json.{Json}
use factorial.Agent.Interception.{RevealCounts, Stash}
use factorial.Agent.Conversation.{
  ToolUse, Block, text, tool_use, other_block, ResultBlock, Meta, Message, NewMessage,
  assistant_message, tool_results,
}
use factorial.Agent.Loop.{World, run_agent_loop, tool_uses, max_agent_turns}
use factorial.Agent.Loop.Turn.{ids}
use factorial.Agent.Loop.Pairing.{IsPaired, IsLast, IsReply, IsAnswered, run_agent_loop-IsAnswered}
use factorial.Chat.Rows.{MessageRow, Store}
use factorial.Chat.Turn.{rows_in, next_sequence}
use factorial.Chat.Persist.Sequence.{Numbered, persist_new_messages-Numbered}
use factorial.Chat.Persist.Ordered.{rows_in-append}
use factorial.Chat.History.{
  whole, HistoryBlock, plain, use_block, result_block, ApiMessage, flush, group,
  build_messages_from_history,
}
use factorial.Chat.History.Groups.{
  Turn, turn_of, group_turns, group-turns, said, group-switch, last_role, group-append,
}
use factorial.Chat.Persist.{
  Persisted, add_row, result_row, use_row, text_row, persist_results, persist_block, persist_blocks,
  persist_message, persist_new_messages, user_row,
}

-- The blocks that the API is sent for a message of the model; a call without a name reads as a text.
abbrev pub spoken : List Block → List HistoryBlock
spoken [] = []
spoken (text s ∷ bs) = plain s ∷ spoken bs
spoken (tool_use t ∷ bs) =
    (if str_eq t.name "" then plain "" else use_block t.id t.name t.input) ∷ spoken bs
spoken (other_block ∷ bs) = spoken bs

module _ (dumps : Json → String) where
  abbrev pub answers : List ResultBlock → List HistoryBlock
  answers [] = []
  answers (r ∷ rs) = result_block r.tool_use_id (dumps r.content) ∷ answers rs

  -- The messages that the API is sent for those that the loop handed back.
  abbrev pub api_of : List NewMessage → List ApiMessage
  api_of [] = []
  api_of (assistant_message bs meta ∷ ms) = flush "assistant" (spoken bs) ++ api_of ms
  api_of (tool_results rs ∷ ms) = flush "user" (answers rs) ++ api_of ms

  abbrev pub turns_of : List NewMessage → List Turn
  turns_of [] = []
  turns_of (assistant_message bs meta ∷ ms) = said "assistant" (spoken bs) ++ turns_of ms
  turns_of (tool_results rs ∷ ms) = said "user" (answers rs) ++ turns_of ms

  module _ (conversation_id : ℕ) where
    -- The turns of the rows that are added to those that were there.
    abbrev pub Adds : List MessageRow → List MessageRow → List Turn → Type 0
    Adds before after turns = map turn_of after ≡ map turn_of before ++ turns

    Adds-trans :
        (before middle after : List MessageRow) (a b : List Turn)
        → Adds before middle a
        → Adds middle after b
        → Adds before after (a ++ b)
    Adds-trans before middle after a b h k = k ∙ rw h (append_assoc (map turn_of before) a b)

    Adds-row :
        (row : MessageRow) (p : Persisted) → Adds p.rows (add_row row p).rows (turn_of row ∷ [])
    Adds-row row p = map-append turn_of p.rows (row ∷ [])

    Adds-results :
        (rs : List ResultBlock) (p : Persisted)
        → Adds p.rows (persist_results dumps conversation_id rs p).rows (said "user" (answers rs))
    unfolding persist_results
    Adds-results [] p = sym (append-nil (map turn_of p.rows))
    Adds-results (r ∷ rs) p =
        let row = result_row dumps conversation_id r p.seq in
        Adds-trans p.rows (add_row row p).rows
          (persist_results dumps conversation_id rs (add_row row p)).rows (turn_of row ∷ [])
          (said "user" (answers rs)) (Adds-row row p) (Adds-results rs (add_row row p))

    Adds-block :
        (meta : Meta) (b : Block) (p : Persisted)
        → Adds p.rows
            (persist_block dumps conversation_id meta b p).rows
            (said "assistant" (spoken (b ∷ [])))
    Adds-block meta (text s) p = Adds-row (text_row dumps conversation_id meta s p.seq) p
    Adds-block meta (tool_use t) p = elim (Bool-cases (str_eq t.name "")) [
      | inl unnamed ↦ Adds-row (use_row dumps conversation_id meta t p.seq) p ∙ rw unnamed refl
      | inr named ↦ Adds-row (use_row dumps conversation_id meta t p.seq) p ∙ rw named refl
    ]
    Adds-block meta other_block p = sym (append-nil (map turn_of p.rows))

    spoken-cons : (b : Block) (bs : List Block) → spoken (b ∷ bs) ≡ spoken (b ∷ []) ++ spoken bs
    spoken-cons (text s) bs = refl
    spoken-cons (tool_use t) bs = refl
    spoken-cons other_block bs = refl

    Adds-blocks :
        (meta : Meta) (bs : List Block) (p : Persisted)
        → Adds p.rows
            (persist_blocks dumps conversation_id meta bs p).rows
            (said "assistant" (spoken bs))
    unfolding persist_blocks
    Adds-blocks meta [] p = sym (append-nil (map turn_of p.rows))
    Adds-blocks meta (b ∷ bs) p =
        let q = persist_block dumps conversation_id meta b p in
        Adds-trans p.rows q.rows (persist_blocks dumps conversation_id meta bs q).rows
          (said "assistant" (spoken (b ∷ []))) (said "assistant" (spoken bs)) (Adds-block meta b p)
          (Adds-blocks meta bs q)
        ∙ ap (λ x. map turn_of p.rows ++ x)
            (sym (map-append (λ h. ("assistant", h)) (spoken (b ∷ [])) (spoken bs))
              ∙ ap (said "assistant") (sym (spoken-cons b bs)))

    pub Adds-messages :
        (ms : List NewMessage) (p : Persisted)
        → Adds p.rows (persist_new_messages dumps conversation_id ms p).rows (turns_of ms)
    unfolding persist_new_messages persist_message
    Adds-messages [] p = sym (append-nil (map turn_of p.rows))
    Adds-messages (assistant_message bs meta ∷ ms) p =
        let q = persist_blocks dumps conversation_id meta bs p in
        Adds-trans p.rows q.rows (persist_new_messages dumps conversation_id ms q).rows
          (said "assistant" (spoken bs)) (turns_of ms) (Adds-blocks meta bs p) (Adds-messages ms q)
    Adds-messages (tool_results rs ∷ ms) p =
        let q = persist_results dumps conversation_id rs p in
        Adds-trans p.rows q.rows (persist_new_messages dumps conversation_id ms q).rows
          (said "user" (answers rs)) (turns_of ms) (Adds-results rs p) (Adds-messages ms q)

  spoken_some : (bs : List Block) → 0 < length (tool_uses bs) → 0 < length (spoken bs)
  spoken_some [] h = absurd (omega arith)
  spoken_some (text s ∷ bs) h = omega arith
  spoken_some (tool_use t ∷ bs) h = omega arith
  spoken_some (other_block ∷ bs) h = spoken_some bs h

  answers_some : (bs : List Block) (rs : List ResultBlock) → IsReply bs rs → 0 < length (answers rs)
  answers_some bs (r ∷ rs) h = omega arith
  answers_some bs [] h = absurd (no_reply (tool_uses bs) h.0 h.1.0)
    where
      no_reply : (ts : List ToolUse) → [] ≡ ids ts → 0 < length ts → ⊥
      no_reply [] e k = omega arith
      no_reply (t ∷ ts) e k = cc

  turns_of-append : (xs ys : List NewMessage) → turns_of (xs ++ ys) ≡ turns_of xs ++ turns_of ys
  turns_of-append [] ys = refl
  turns_of-append (assistant_message bs meta ∷ xs) ys =
      rw (turns_of-append xs ys)
        (sym (append_assoc (said "assistant" (spoken bs)) (turns_of xs) (turns_of ys)))
  turns_of-append (tool_results rs ∷ xs) ys =
      rw (turns_of-append xs ys)
        (sym (append_assoc (said "user" (answers rs)) (turns_of xs) (turns_of ys)))

  group-last :
      (bs : List HistoryBlock) (last : List NewMessage)
      → IsLast last
      → group_turns "user" bs (turns_of last) ≡ flush "user" bs ++ api_of last
  group-last bs [] h = sym (append-nil (flush "user" bs))
  group-last bs (assistant_message blocks meta ∷ []) h = by_content (spoken blocks)
    where
      by_content :
          (more : List HistoryBlock)
          → group_turns "user" bs (said "assistant" more ++ [])
            ≡ flush "user" bs ++ (flush "assistant" more ++ [])
      by_content [] = sym (append-nil (flush "user" bs))
      by_content (b ∷ more) =
          group-switch "user" "assistant" bs (b ∷ more) [] refl (omega arith)
          ∙ ap (λ x. flush "user" bs ++ x) (sym (append-nil (flush "assistant" (b ∷ more))))
  group-last bs (assistant_message blocks meta ∷ m ∷ ms) h = absurd h
  group-last bs (tool_results rs ∷ ms) h = absurd h

  group-pairs :
      (bs : List HistoryBlock) (pairs last : List NewMessage)
      → IsPaired pairs
      → IsLast last
      → group_turns "user" bs (turns_of (pairs ++ last)) ≡ flush "user" bs ++ api_of (pairs ++ last)
  group-pairs bs [] last h k = group-last bs last k
  group-pairs bs (assistant_message blocks meta ∷ tool_results rs ∷ rest) last h k =
      rw
        (
          group-switch "user" "assistant" bs (spoken blocks)
              (said "user" (answers rs) ++ turns_of (rest ++ last)) refl
              (spoken_some blocks h.0.1.0),
          group-switch "assistant" "user" (spoken blocks) (answers rs) (turns_of (rest ++ last))
              refl (answers_some blocks rs h.0),
          group-pairs (answers rs) rest last h.1 k,
        )
        refl
  group-pairs bs (assistant_message blocks meta ∷ []) last h k = absurd h
  group-pairs bs (assistant_message blocks meta ∷ assistant_message b m ∷ rest) last h k = absurd h
  group-pairs bs (tool_results rs ∷ rest) last h k = absurd h

  module _ (conversation_id seq : ℕ) (message : String) (old : List MessageRow) where
    abbrev rows_of_turn : List NewMessage → List MessageRow
    rows_of_turn ms =
        (persist_new_messages dumps conversation_id ms
          (record { seq = seq + 1; rows = []; message_ids = [] })).rows

    rebuild :
        (ms : List NewMessage)
        → IsAnswered (2 * max_agent_turns) ms
        → str_eq "user" (last_role "" (map turn_of old)) ≡ false
        → build_messages_from_history
            (old ++ user_row conversation_id seq message ∷ rows_of_turn ms)
          ≡ build_messages_from_history old
            ++ record { role = "user"; content = whole message } ∷ api_of ms
    unfolding build_messages_from_history
    rebuild ms h switch =
        let p =
          persist_new_messages dumps conversation_id ms
            (record { seq = seq + 1; rows = []; message_ids = [] }) in
        let turns : map turn_of (old ++ user_row conversation_id seq message ∷ p.rows)
            ≡ map turn_of old ++ (said "user" (plain message ∷ []) ++ turns_of ms) =
          map-append turn_of old (user_row conversation_id seq message ∷ p.rows)
          ∙ ap (λ x. map turn_of old ++ turn_of (user_row conversation_id seq message) ∷ x)
              (Adds-messages conversation_id ms
                (record { seq = seq + 1; rows = []; message_ids = [] })) in
        let pairs : group_turns "user" (plain message ∷ []) (turns_of ms)
            ≡ record { role = "user"; content = whole message } ∷ api_of ms =
          rw h.split (group-pairs (plain message ∷ []) h.pairs h.last h.paired h.at_end) in
        group-turns "" [] (old ++ user_row conversation_id seq message ∷ p.rows)
        ∙ ap (group_turns "" []) turns
        ∙ group-append "" "user" [] (plain message ∷ []) (map turn_of old) (turns_of ms) switch
            (omega arith)
        ∙ rw (sym (group-turns "" [] old)) (ap (λ x. group "" [] old ++ x) pairs)

  -- The rows of a turn: the user's message, and those of the messages that the loop handed back.
  abbrev pub turn_rows : ℕ → ℕ → String → List NewMessage → List MessageRow
  turn_rows conversation_id seq message ms =
      user_row conversation_id seq message
      ∷ (persist_new_messages dumps conversation_id ms
          (record { seq = seq + 1; rows = []; message_ids = [] })).rows

  -- A turn is stored with the next numbers of its conversation, each once and without a gap; and the conversation, which
  -- is read in the order of the numbers, reads back as it did before the turn, then the user's message, then the
  -- messages that the agent loop handed back, each with its blocks in order; provided that the conversation did not end
  -- with the user.
  pub build_messages-persist_new_messages :
      (conversation_id : ℕ) (message : String) (store : Store) (w : World) (messages : List Message)
      (counts : RevealCounts) (stash : Stash)
      → str_eq "user" (last_role "" (map turn_of (rows_in conversation_id store))) ≡ false
      → let old = rows_in conversation_id store in
        let ms = (run_agent_loop w messages counts stash).new_messages in
        let new = turn_rows conversation_id (next_sequence old) message ms in
        Numbered conversation_id (next_sequence old) new
        × (build_messages_from_history
              (rows_in conversation_id (record store { messages = store.messages ++ new }))
            ≡ build_messages_from_history old
              ++ record { role = "user"; content = whole message } ∷ api_of ms)
  build_messages-persist_new_messages conversation_id message store w messages counts stash switch =
      let old = rows_in conversation_id store in
      let seq = next_sequence old in
      let ms = (run_agent_loop w messages counts stash).new_messages in
      let numbered : Numbered conversation_id seq (turn_rows conversation_id seq message ms) =
        (refl, refl, persist_new_messages-Numbered dumps conversation_id ms (seq + 1)) in
      (
        numbered,
        ap build_messages_from_history (
              rows_in-append conversation_id store (turn_rows conversation_id seq message ms)
                numbered)
            ∙ rebuild conversation_id seq message old ms
                (run_agent_loop-IsAnswered w messages counts stash) switch,
      )
