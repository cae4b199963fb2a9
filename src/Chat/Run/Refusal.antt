-- ===== src/Chat/Run/Refusal.antt =====
-- A conversation that is not the caller's.
use factorial.Prelude.{ℕ, ◌≡◌, refl, ◌≢◌, inl, inr, Option, none, some, ◌==◌, ==_iff, Bool-cases}
use factorial.Chat.Rows.{Conversation, Store}
use factorial.Chat.Events.{new_stream}
use factorial.Chat.Turn.{Request, Surroundings, refused, if_own, conversation_with, load_history}
use factorial.Chat.Run.{run_loaded, run_chat}

not_own :
    (id user_id : ℕ) (c : Option Conversation) (store : Store)
    → ((x : Conversation) → c ≡ some x → x.user_id ≢ user_id)
    → if_own id user_id c store ≡ refused id
not_own id user_id none store others = refl
not_own id user_id (some c) store others = elim (Bool-cases (c.user_id == user_id)) [
  | inl own ↦ absurd (others c refl ((==_iff c.user_id user_id).0 own))
  | inr other ↦ rw other refl
]

-- A request that names a conversation that is missing, or that is another user's, changes no row, writes no event, and is
-- answered alike in the two cases: with one error that names the id.
pub run_chat-refused :
    (env : Surroundings) (r : Request) (store : Store) (id : ℕ)
    → r.conversation_id ≡ some id
    → ((c : Conversation) → conversation_with id store ≡ some c → c.user_id ≢ r.user_id)
    → run_chat env r store ≡ record { store = store; stream = new_stream; not_found = some id }
unfolding run_chat run_loaded load_history
run_chat-refused env r store id named others =
    rw named (rw (not_own id r.user_id (conversation_with id store) store others) refl)
