-- ===== src/Chat/Events.antt =====
-- The events of a turn: `emit`, `flush_token_buffer` and `_persist_chat_event` of agent_service.py, and
-- `_replay_events` of the endpoint chat.py. A turn has an id of its own, so the rows of
-- `chat_events` that bear it are those that it wrote; the model has these rows only.
pub mod Shown
pub mod Follows
pub mod Steps
pub mod Replay
pub mod Sent
use factorial.Prelude.{
  ℕ, ◌+◌, String, Bool, true, false, not, Option, none, some, List, [], ◌∷◌, ◌++◌, ltb,
  if◌then◌else◌, select,
}
use Prim.Native.String.{◌++◌ as append}
use factorial.Prelude.Sorting.{order_by_asc}
use factorial.Agent.Conversation.{Event, token, done, error_event, unavailable_event}

-- An event of the stream: one of the agent loop, or one of `run_chat` itself.
pub data ChatEvent : Type 0 where
  conversation_started : ℕ → ChatEvent
  agent_event : Event → ChatEvent
  experiment_created : ℕ → ChatEvent
  simulator_created : ℕ → ChatEvent
  chat_error : String → ChatEvent

pub record EventRow : Type 0 where
  pub sequence : ℕ
  pub event : ChatEvent

-- What the closures of `run_chat` share, with the rows that were written and the events that the client was
-- sent, each with the sequence in its id.
pub record Stream : Type 0 where
  pub event_seq : ℕ
  pub token_buf : List String
  pub token_buf_last_seq : Option ℕ
  pub log : List EventRow
  pub sent : List EventRow

abbrev pub new_stream : Stream
new_stream = record {
  event_seq = 0;
  token_buf = [];
  token_buf_last_seq = none;
  log = [];
  sent = [];
}

-- "".join(parts)
abbrev pub join : List String → String
join [] = ""
join (part ∷ parts) = append part (join parts)

abbrev pub text_of_token : ChatEvent → Option String
text_of_token (agent_event (token text)) = some text
text_of_token _ = none

module _ (available : ℕ → Bool) where
  -- An insert that fails is swallowed; `available` says for which sequences it works.
  unfoldable pub persist_chat_event : ℕ → ChatEvent → Stream → Stream
  persist_chat_event sequence event s =
      if available sequence
      then record s { log = s.log ++ record { sequence = sequence; event = event } ∷ [] }
      else s

  abbrev pub flush_batch : List String → Option ℕ → Stream → Stream
  flush_batch [] last_seq s = s
  flush_batch (part ∷ parts) none s = s
  flush_batch (part ∷ parts) (some last_seq) s =
      record (persist_chat_event last_seq (agent_event (token (join (part ∷ parts)))) s) {
        token_buf = [];
        token_buf_last_seq = none;
      }

  unfoldable pub flush_token_buffer : Stream → Stream
  flush_token_buffer s = flush_batch s.token_buf s.token_buf_last_seq s

  abbrev send : ℕ → ChatEvent → Stream → Stream
  send sequence event s = record s {
    sent = s.sent ++ record { sequence = sequence; event = event } ∷ [];
  }

  abbrev pub buffer : ℕ → String → Stream → Stream
  buffer seq text s = record s {
    event_seq = seq;
    token_buf = s.token_buf ++ text ∷ [];
    token_buf_last_seq = some seq;
  }

  unfoldable pub emit : ChatEvent → Stream → Stream
  emit event s =
      let seq = s.event_seq + 1 in
      send seq event (elim (text_of_token event) [
        | some text ↦ buffer seq text s
        | none ↦ persist_chat_event seq event (record (flush_token_buffer s) { event_seq = seq })
      ])

  -- The loop over the queue: after an event the buffer is flushed if it is older than the interval, which
  -- the clock decides.
  unfoldable pub emit_all : List (ChatEvent × Bool) → Stream → Stream
  emit_all [] s = s
  emit_all ((event, late) ∷ events) s =
      let s1 = emit event s in emit_all events (if late then flush_token_buffer s1 else s1)

-- `_TERMINAL_EVENT_TYPES`
abbrev pub is_terminal_type : ChatEvent → Bool
is_terminal_type (agent_event done) = true
is_terminal_type (agent_event (error_event message)) = true
is_terminal_type (agent_event (unavailable_event message detail)) = true
is_terminal_type (chat_error message) = true
is_terminal_type _ = false

abbrev pub last_event : List EventRow → Option ChatEvent
last_event [] = none
last_event (row ∷ []) = some row.event
last_event (row ∷ next ∷ rows) = last_event (next ∷ rows)

abbrev pub is_over : Option ChatEvent → Bool
is_over none = false
is_over (some event) = is_terminal_type event

unfoldable pub replayed_rows : ℕ → List EventRow → List EventRow
replayed_rows after_sequence log =
    order_by_asc (λ r. r.sequence) (select (λ r. ltb after_sequence r.sequence) log)

-- The event type that decides: of the last row that is replayed, or of the last row of the turn.
abbrev pub last_type : List EventRow → List EventRow → Option ChatEvent
last_type [] log = last_event (order_by_asc (λ r. r.sequence) log)
last_type (row ∷ rows) log = last_event (row ∷ rows)

-- The rows that are replayed, and whether an `interrupted` event follows them.
unfoldable pub replay_events : ℕ → List EventRow → List EventRow × Bool
unfolding replayed_rows
replay_events after_sequence log =
    let rows = replayed_rows after_sequence log in (rows, not (is_over (last_type rows log)))
