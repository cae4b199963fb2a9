-- ===== src/Chat/Persist/Sequence.antt =====
-- The numbers of the messages that a turn stores.
use factorial.Prelude.{
  ℕ, ◌+◌, String, ◌≡◌, refl, sym, ◌∙◌, List, [], ◌∷◌, ◌++◌, arith, length, length-append,
}
use mathlib.Core.List.{append_assoc, append-nil}
use factorial.Model.Json.{Json}
use factorial.Agent.Conversation.{
  Block, text, tool_use, other_block, ResultBlock, Meta, NewMessage, assistant_message,
  tool_results,
}
use factorial.Chat.Rows.{MessageRow}
use factorial.Chat.Persist.{
  Persisted, add_row, result_row, use_row, text_row, persist_results, persist_block, persist_blocks,
  persist_message, persist_new_messages,
}

-- The rows are of a conversation, and numbered from `n` on without a gap.
abbrev pub Numbered : ℕ → ℕ → List MessageRow → Type 0
Numbered conversation_id n [] = Unit
Numbered conversation_id n (m ∷ rows) =
    (m.conversation_id ≡ conversation_id) × (m.sequence ≡ n) × Numbered conversation_id (n + 1) rows

Numbered-append :
    (id n : ℕ) (xs ys : List MessageRow)
    → Numbered id n xs
    → Numbered id (n + length xs) ys
    → Numbered id n (xs ++ ys)
Numbered-append id n [] ys h k = rw (← start) k
  where
    start : n + 0 ≡ n
    start = omega arith
Numbered-append id n (x ∷ xs) ys h k =
    (h.0, h.1, Numbered-append id (n + 1) xs ys h.2 (rw (← next) k))
  where
    next : n + length (x ∷ xs) ≡ n + 1 + length xs
    next = omega arith

module _ (dumps : Json → String) (id : ℕ) where
  -- Rows are added, with the next numbers.
  record Continues (p q : Persisted) : Type 0 where
    added : List MessageRow
    split : q.rows ≡ p.rows ++ added
    numbered : Numbered id p.seq added
    next : q.seq ≡ p.seq + length added

  Continues-same : (p : Persisted) → Continues p p
  Continues-same p = record {
    added = [];
    split = sym (append-nil p.rows);
    numbered = tt;
    next = omega arith;
  }

  Continues-trans : (p q r : Persisted) → Continues p q → Continues q r → Continues p r
  Continues-trans p q r h k = record {
    added = h.added ++ k.added;
    split = k.split ∙ rw h.split (append_assoc p.rows h.added k.added);
    numbered = Numbered-append id p.seq h.added k.added h.numbered (rw (← h.next) k.numbered);
    next = omega (arith, h.next, k.next, length-append h.added k.added);
  }

  Continues-row :
      (row : MessageRow) (p : Persisted)
      → row.conversation_id ≡ id
      → row.sequence ≡ p.seq
      → Continues p (add_row row p)
  Continues-row row p own number = record {
    added = row ∷ [];
    split = refl;
    numbered = (own, number, tt);
    next = omega arith;
  }

  Continues-results :
      (rs : List ResultBlock) (p : Persisted) → Continues p (persist_results dumps id rs p)
  unfolding persist_results
  Continues-results [] p = Continues-same p
  Continues-results (r ∷ rs) p =
      let q = add_row (result_row dumps id r p.seq) p in
      Continues-trans p q (persist_results dumps id rs q)
        (Continues-row (result_row dumps id r p.seq) p refl refl) (Continues-results rs q)

  Continues-block :
      (meta : Meta) (b : Block) (p : Persisted) → Continues p (persist_block dumps id meta b p)
  Continues-block meta (text s) p = Continues-row (text_row dumps id meta s p.seq) p refl refl
  Continues-block meta (tool_use t) p =
      let row = use_row dumps id meta t p.seq in
      let added = Continues-row row p refl refl in
      record {
        added = added.added;
        split = added.split;
        numbered = added.numbered;
        next = added.next;
      }
  Continues-block meta other_block p = Continues-same p

  Continues-blocks :
      (meta : Meta) (bs : List Block) (p : Persisted)
      → Continues p (persist_blocks dumps id meta bs p)
  unfolding persist_blocks
  Continues-blocks meta [] p = Continues-same p
  Continues-blocks meta (b ∷ bs) p =
      let q = persist_block dumps id meta b p in
      Continues-trans p q (persist_blocks dumps id meta bs q) (Continues-block meta b p)
        (Continues-blocks meta bs q)

  Continues-messages :
      (ms : List NewMessage) (p : Persisted) → Continues p (persist_new_messages dumps id ms p)
  unfolding persist_new_messages persist_message
  Continues-messages [] p = Continues-same p
  Continues-messages (assistant_message bs meta ∷ ms) p =
      let q = persist_blocks dumps id meta bs p in
      Continues-trans p q (persist_new_messages dumps id ms q) (Continues-blocks meta bs p)
        (Continues-messages ms q)
  Continues-messages (tool_results rs ∷ ms) p =
      let q = persist_results dumps id rs p in
      Continues-trans p q (persist_new_messages dumps id ms q) (Continues-results rs p)
        (Continues-messages ms q)

  -- The rows of a turn's messages have the numbers from `seq` on.
  pub persist_new_messages-Numbered :
      (ms : List NewMessage) (seq : ℕ)
      → Numbered id seq
          (persist_new_messages dumps id ms
            (record { seq = seq; rows = []; message_ids = [] })).rows
  persist_new_messages-Numbered ms seq =
      let c = Continues-messages ms (record { seq = seq; rows = []; message_ids = [] }) in
      rw c.split c.numbered
