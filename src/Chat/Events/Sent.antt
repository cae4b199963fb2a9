-- ===== src/Chat/Events/Sent.antt =====
-- What is streamed does not depend on what could be written.
use factorial.Prelude.{
  ℕ, ◌+◌, String, ◌≡◌, refl, sym, ap, ◌∙◌, inl, inr, Bool, true, false, Option, none, some, List,
  [], ◌∷◌, ◌++◌, map, if◌then◌else◌, Bool-cases, Option-cases,
}
use mathlib.Core.List.{append_assoc, append-nil, map-append}
use factorial.Chat.Events.{
  ChatEvent, EventRow, Stream, text_of_token, last_event, persist_chat_event, flush_batch,
  flush_token_buffer, emit, emit_all,
}

-- The part of a stream that a client sees.
abbrev pub live : Stream → ℕ × List EventRow
live s = (s.event_seq, s.sent)

-- The stream after an event, as far as a client sees it.
abbrev pub next_live : ChatEvent → ℕ × List EventRow → ℕ × List EventRow
next_live e (n, sent) = (n + 1, sent ++ record { sequence = n + 1; event = e } ∷ [])

abbrev pub all_live : List (ChatEvent × Bool) → ℕ × List EventRow → ℕ × List EventRow
all_live [] x = x
all_live ((e, late) ∷ events) x = all_live events (next_live e x)

module _ (available : ℕ → Bool) where
  persist-live :
      (n : ℕ) (e : ChatEvent) (s : Stream) → live (persist_chat_event available n e s) ≡ live s
  unfolding persist_chat_event
  persist-live n e s = elim (Bool-cases (available n)) [
    | inl works ↦ rw works refl
    | inr fails ↦ rw fails refl
  ]

  flush_batch-live :
      (buf : List String) (last : Option ℕ) (s : Stream)
      → live (flush_batch available buf last s) ≡ live s
  flush_batch-live [] last s = refl
  flush_batch-live (part ∷ parts) none s = refl
  flush_batch-live (part ∷ parts) (some n) s = persist-live n _ s

  pub flush-live : (s : Stream) → live (flush_token_buffer available s) ≡ live s
  unfolding flush_token_buffer
  flush-live s = flush_batch-live s.token_buf s.token_buf_last_seq s

  pub emit-live : (e : ChatEvent) (s : Stream) → live (emit available e s) ≡ next_live e (live s)
  unfolding emit
  emit-live e s =
      let f = record (flush_token_buffer available s) { event_seq = s.event_seq + 1 } in
      elim (Option-cases (text_of_token e)) [
        | inl plain ↦ rw plain (
            ap (next_event (s.event_seq + 1)) (persist-live (s.event_seq + 1) e f)
            ∙ ap
                (λ x.
                  (s.event_seq + 1, x.1 ++ record { sequence = s.event_seq + 1; event = e } ∷ []))
                (flush-live s))
        | inr (t, found) ↦ rw found refl
      ]
    where
      next_event : ℕ → ℕ × List EventRow → ℕ × List EventRow
      next_event n x = (x.0, x.1 ++ record { sequence = n; event = e } ∷ [])

  flush_if-live :
      (late : Bool) (s : Stream)
      → live (if late then flush_token_buffer available s else s) ≡ live s
  flush_if-live false s = refl
  flush_if-live true s = flush-live s

  pub emit_all-live :
      (events : List (ChatEvent × Bool)) (s : Stream)
      → live (emit_all available events s) ≡ all_live events (live s)
  unfolding emit_all
  emit_all-live [] s = refl
  emit_all-live ((e, late) ∷ events) s =
      emit_all-live events
        (if late then flush_token_buffer available (emit available e s) else emit available e s)
      ∙ ap (all_live events) (flush_if-live late (emit available e s) ∙ emit-live e s)

abbrev pub events_of : List EventRow → List ChatEvent
events_of rows = map (λ r. r.event) rows

abbrev pub emitted : List (ChatEvent × Bool) → List ChatEvent
emitted events = map (λ x. x.0) events

all_live-events :
    (events : List (ChatEvent × Bool)) (n : ℕ) (sent : List EventRow)
    → events_of (all_live events (n, sent)).1 ≡ events_of sent ++ emitted events
all_live-events [] n sent = sym (append-nil (events_of sent))
all_live-events ((e, late) ∷ events) n sent =
    all_live-events events (n + 1) (sent ++ record { sequence = n + 1; event = e } ∷ [])
    ∙ rw (map-append (λ r. r.event) sent (record { sequence = n + 1; event = e } ∷ []))
        (append_assoc (events_of sent) (e ∷ []) (emitted events))

-- A client is sent the events that are emitted, all of them and in their order.
pub emit_all-events :
    (available : ℕ → Bool) (events : List (ChatEvent × Bool)) (s : Stream)
    → events_of (emit_all available events s).sent ≡ events_of s.sent ++ emitted events
emit_all-events available events s =
    ap (λ x. events_of x.1) (emit_all-live available events s)
    ∙ all_live-events events s.event_seq s.sent

pub last_event-add :
    (rows : List EventRow) (r : EventRow) → last_event (rows ++ r ∷ []) ≡ some r.event
last_event-add [] r = refl
last_event-add (x ∷ []) r = refl
last_event-add (x ∷ y ∷ rows) r = last_event-add (y ∷ rows) r

-- The last event that a client is sent, after the flush at the end.
pub last_event-emit :
    (available : ℕ → Bool) (e : ChatEvent) (s : Stream)
    → last_event (flush_token_buffer available (emit available e s)).sent ≡ some e
last_event-emit available e s =
    ap (λ x. last_event x.1) (flush-live available (emit available e s) ∙ emit-live available e s)
    ∙ last_event-add s.sent (record { sequence = s.event_seq + 1; event = e })
