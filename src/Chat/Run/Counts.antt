-- ===== src/Chat/Run/Counts.antt =====
-- The number of messages that a conversation holds.
use factorial.Prelude.{
  ℕ, suc, ◌+◌, String, ◌≡◌, refl, sym, ap, ◌∙◌, Bool, true, false, List, [], ◌∷◌, ◌++◌, arith, ◌==◌,
  ==_iff, ==_self, length, length-append, count_where, All, All-update_where, All-append,
  count_where-append,
}
use mathlib.Core.Path.{subst}
use factorial.Model.Json.{Json}
use factorial.Agent.Conversation.{
  Block, text, tool_use, other_block, ResultBlock, Meta, NewMessage, assistant_message,
  tool_results,
}
use factorial.Agent.Loop.{content_dicts}
use factorial.Agent.Loop.Pairing.{IsPaired, IsLast, IsAnswered}
use factorial.Chat.Rows.{Conversation, MessageRow, Store}
use factorial.Chat.Persist.{
  Persisted, user_row, add_row, result_row, use_row, text_row, add_totals, persist_results,
  persist_block, persist_blocks, persist_message, persist_new_messages,
}
use factorial.Chat.Persist.Sequence.{Numbered}
use factorial.Agent.Conversation.{State}
use factorial.Chat.Turn.{Request, Surroundings, write_conversation, persist_user_message}
use factorial.Chat.Run.{block_count, persisted}

abbrev pub is_in : ℕ → MessageRow → Bool
is_in id m = m.conversation_id == id

-- Each conversation's counter is the number of its messages.
unfoldable pub AreCounted : List Conversation → List MessageRow → Type 0
AreCounted conversations messages =
    All (λ c. c.message_count ≡ count_where (is_in c.id) messages) conversations

-- All rows are of one conversation.
abbrev pub AreIn : ℕ → List MessageRow → Type 0
AreIn id rows = All (λ m. is_in id m ≡ true) rows

Numbered-AreIn : (id n : ℕ) (rows : List MessageRow) → Numbered id n rows → AreIn id rows
Numbered-AreIn id n [] h = tt
Numbered-AreIn id n (m ∷ rows) h =
    ((==_iff m.conversation_id id).1 h.0, Numbered-AreIn id (n + 1) rows h.2)

count_own :
    (id : ℕ) (rows : List MessageRow) → AreIn id rows → count_where (is_in id) rows ≡ length rows
count_own id [] h = refl
count_own id (m ∷ rows) h = rw (h.0, count_own id rows h.1) (omega arith)

count_other :
    (id other : ℕ) (rows : List MessageRow)
    → (other == id) ≡ false
    → AreIn id rows
    → count_where (is_in other) rows ≡ 0
count_other id other [] apart h = refl
count_other id other (m ∷ rows) apart h = ground (arith, h.0, count_other id other rows apart h.1)

-- Rows of one conversation are added, and its counter grows by their number.
pub adds-AreCounted :
    (id : ℕ) (f : Conversation → Conversation) (rows : List MessageRow)
    → ((c : Conversation) → (f c).id ≡ c.id)
    → ((c : Conversation) → (f c).message_count ≡ c.message_count + length rows)
    → AreIn id rows
    → (conversations : List Conversation) (messages : List MessageRow)
    → AreCounted conversations messages
    → AreCounted (write_conversation id f conversations) (messages ++ rows)
unfolding AreCounted
adds-AreCounted id f rows same_id grows own conversations messages h =
    All-update_where _ _ (λ c. c.id == id) f conversations
      (λ c hit before.
        let mine = subst (λ x. AreIn x rows) (sym ((==_iff c.id id).0 hit)) own in
        grows c
        ∙ omega
            (arith, before, count_where-append (is_in c.id) messages rows, count_own c.id rows mine)
        ∙ ap (λ x. count_where (is_in x) (messages ++ rows)) (sym (same_id c)))
      (λ c miss before. omega (
        arith,
        before,
        count_where-append (is_in c.id) messages rows,
        count_other id c.id rows miss own,
      ))
      h

-- The blocks of the model's messages are of the two types that are saved.
abbrev pub AreKept : List NewMessage → Type 0
AreKept [] = Unit
AreKept (assistant_message bs meta ∷ ms) = (content_dicts bs ≡ bs) × AreKept ms
AreKept (tool_results rs ∷ ms) = AreKept ms

kept : (pairs last : List NewMessage) → IsPaired pairs → IsLast last → AreKept (pairs ++ last)
kept [] [] h k = tt
kept [] (assistant_message bs meta ∷ []) h k = (k, tt)
kept [] (assistant_message bs meta ∷ m ∷ ms) h k = absurd k
kept [] (tool_results rs ∷ ms) h k = absurd k
kept (assistant_message bs meta ∷ tool_results rs ∷ rest) last h k = (h.0.1.1, kept rest last h.1 k)
kept (assistant_message bs meta ∷ []) last h k = absurd h
kept (assistant_message bs meta ∷ assistant_message b m ∷ rest) last h k = absurd h
kept (tool_results rs ∷ rest) last h k = absurd h

pub answered_AreKept : (bound : ℕ) (ms : List NewMessage) → IsAnswered bound ms → AreKept ms
answered_AreKept bound ms h = rw h.split (kept h.pairs h.last h.paired h.at_end)

-- What a step of the saving adds: rows of the conversation, of a number.
record Adds (id n : ℕ) (rows rows' : List MessageRow) : Type 0 where
  own : AreIn id rows → AreIn id rows'
  number : length rows' ≡ length rows + n

module _ (id : ℕ) where
  then_Adds :
      {m n : ℕ} {rows rows' rows'' : List MessageRow}
      → Adds id m rows rows'
      → Adds id n rows' rows''
      → Adds id (m + n) rows rows''
  then_Adds a b = record { own = λ h. b.own (a.own h); number = omega (arith, a.number, b.number) }

  none-Adds : (rows : List MessageRow) → Adds id 0 rows rows
  none-Adds rows = record { own = λ h. h; number = omega arith }

  row-Adds :
      {n : ℕ} (row : MessageRow) (rows rows' : List MessageRow)
      → row.conversation_id ≡ id
      → Adds id n (rows ++ row ∷ []) rows'
      → Adds id (suc n) rows rows'
  row-Adds row rows rows' same rest = record {
    own = λ h. rest.own (
        All-append (λ m. is_in id m ≡ true) rows (row ∷ []) h
          ((==_iff row.conversation_id id).1 same, tt));
    number = omega (arith, rest.number, length-append rows (row ∷ []));
  }

  module _ (dumps : Json → String) where
    results-Adds :
        (rs : List ResultBlock) (p : Persisted)
        → Adds id (length rs) p.rows (persist_results dumps id rs p).rows
    unfolding persist_results
    results-Adds [] p = none-Adds p.rows
    results-Adds (r ∷ rs) p =
        row-Adds (result_row dumps id r p.seq) p.rows _ refl
          (results-Adds rs (add_row (result_row dumps id r p.seq) p))

    blocks-Adds :
        (meta : Meta) (bs : List Block) (p : Persisted)
        → Adds id (length (content_dicts bs)) p.rows (persist_blocks dumps id meta bs p).rows
    unfolding persist_blocks
    blocks-Adds meta [] p = none-Adds p.rows
    blocks-Adds meta (text s ∷ bs) p =
        row-Adds (text_row dumps id meta s p.seq) p.rows _ refl
          (blocks-Adds meta bs (persist_block dumps id meta (text s) p))
    blocks-Adds meta (tool_use t ∷ bs) p =
        row-Adds (use_row dumps id meta t p.seq) p.rows _ refl
          (blocks-Adds meta bs (persist_block dumps id meta (tool_use t) p))
    blocks-Adds meta (other_block ∷ bs) p = blocks-Adds meta bs p

    messages-Adds :
        (ms : List NewMessage) (p : Persisted)
        → AreKept ms
        → Adds id (block_count ms) p.rows (persist_new_messages dumps id ms p).rows
    unfolding persist_new_messages persist_message
    messages-Adds [] p h = none-Adds p.rows
    messages-Adds (assistant_message bs meta ∷ ms) p h =
        then_Adds
          (subst (λ x. Adds id (length x) p.rows (persist_blocks dumps id meta bs p).rows) h.0
            (blocks-Adds meta bs p))
          (messages-Adds ms (persist_blocks dumps id meta bs p) h.1)
    messages-Adds (tool_results rs ∷ ms) p h =
        then_Adds (results-Adds rs p) (messages-Adds ms (persist_results dumps id rs p) h)

module _ (env : Surroundings) (r : Request) where
  pub user-AreCounted :
      (c : Conversation) (seq : ℕ) (store : Store)
      → AreCounted store.conversations store.messages
      → let committed = persist_user_message r c seq store in
        AreCounted committed.conversations committed.messages
  unfolding persist_user_message
  user-AreCounted c seq store h =
      adds-AreCounted c.id (λ x. record x { message_count = x.message_count + 1 })
        (user_row c.id seq r.message ∷ []) (λ x. refl) (λ x. refl) (==_self c.id, tt)
        store.conversations store.messages h

  totals_keep :
      (ms : List NewMessage) (c : Conversation)
      → ((add_totals ms c).id ≡ c.id) × ((add_totals ms c).message_count ≡ c.message_count)
  unfolding add_totals
  totals_keep [] c = (refl, refl)
  totals_keep (assistant_message bs meta ∷ ms) c = totals_keep ms _
  totals_keep (tool_results rs ∷ ms) c = totals_keep ms c

  pub rows-AreCounted :
      (id n : ℕ) (ms : List NewMessage) (rows : List MessageRow)
      → Numbered id n rows
      → (conversations : List Conversation) (messages : List MessageRow)
      → AreCounted conversations messages
      → AreCounted
          (write_conversation id
            (λ x. record (add_totals ms x) {
              message_count = (add_totals ms x).message_count + length rows;
            })
            conversations)
          (messages ++ rows)
  rows-AreCounted id n ms rows numbered conversations messages h =
      adds-AreCounted id _ rows (λ c. (totals_keep ms c).0)
        (λ c. omega (arith, (totals_keep ms c).1)) (Numbered-AreIn id n rows numbered) conversations
        messages h

  -- Each block of the messages of the agent loop is one row.
  pub block_count-rows :
      (id seq : ℕ) (s : State)
      → AreKept s.new_messages
      → block_count s.new_messages ≡ length (persisted env id seq s).rows
  block_count-rows id seq s k =
      let adds =
        messages-Adds id env.dumps s.new_messages
          (record { seq = seq; rows = []; message_ids = [] }) k in
      omega (arith, adds.number)
