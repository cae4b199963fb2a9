-- ===== src/Chat/Run/MessageCount.antt =====
-- The counter `message_count` over a whole turn.
use factorial.Prelude.{
  ℕ, ◌+◌, ◌≡◌, refl, sym, inl, inr, Option, none, some, [], ◌∷◌, ◌==◌, Bool-cases, count_where,
  All-append,
}
use factorial.Chat.Rows.{Conversation, Store}
use factorial.Chat.Turn.{
  Request, Surroundings, Loaded, refused, loaded, if_own, load_for, load_history, new_conversation,
  conversation_with, persist_user_message,
}
use factorial.Chat.Run.{run_chat, run_loaded}
use factorial.Chat.Run.Atomic.{run_chat-Ends}
use factorial.Chat.Run.Counts.{AreCounted, is_in, user-AreCounted, rows-AreCounted}

abbrev pub IsCounted : Store → Type 0
IsCounted store = AreCounted store.conversations store.messages

abbrev LoadedCounted : Loaded → Type 0
LoadedCounted (refused id) = Unit
LoadedCounted (loaded store c messages seq) = IsCounted store

module _ (env : Surroundings) (r : Request) (store : Store) (counted : IsCounted store)
    (fresh : count_where (is_in env.new_conversation_id) store.messages ≡ 0) where
  own_counted : (id : ℕ) (c : Option Conversation) → LoadedCounted (if_own id r.user_id c store)
  own_counted id none = tt
  own_counted id (some c) = elim (Bool-cases (c.user_id == r.user_id)) [
    | inl own ↦ rw own counted
    | inr other ↦ rw other tt
  ]

  load_counted : (id : Option ℕ) → LoadedCounted (load_for env r id store)
  unfolding AreCounted
  load_counted none =
      All-append _ store.conversations (new_conversation env r ∷ []) counted (sym fresh, tt)
  load_counted (some id) = own_counted id (conversation_with id store)

  finish :
      (found : Loaded)
      → load_history env r store ≡ found
      → LoadedCounted found
      → IsCounted (run_chat env r store).store
  unfolding run_chat run_loaded
  finish (refused id) same h = rw same counted
  finish (loaded s c messages seq) same h =
      let committed = user-AreCounted env r c seq s h in
      elim (run_chat-Ends env r store s c messages seq same).1 [
        | inl given_up ↦ rw given_up.kept committed
        | inr saved ↦
            let (made, messages_eq, numbered, turns, calls, facts, conversations) = saved.saved in
            rw (conversations, messages_eq)
              (rows-AreCounted env r c.id (seq + 1) _ saved.rows numbered
                (persist_user_message r c seq s).conversations
                (persist_user_message r c seq s).messages committed)
      ]

-- A turn, whichever way it ends, keeps the counter of each conversation equal to the number of its messages;
-- provided that no message bears the id that a new conversation would get.
pub run_chat-IsCounted :
    (env : Surroundings) (r : Request) (store : Store)
    → IsCounted store
    → count_where (is_in env.new_conversation_id) store.messages ≡ 0
    → IsCounted (run_chat env r store).store
unfolding load_history
run_chat-IsCounted env r store counted fresh =
    finish env r store counted fresh (load_history env r store) refl
      (load_counted env r store counted fresh r.conversation_id)
