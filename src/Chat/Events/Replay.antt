-- ===== src/Chat/Events/Replay.antt =====
-- What a client that reconnects is shown, against what was streamed.
use factorial.Prelude.{
  Text, ℕ, ◌+◌, ◌≡◌, refl, sym, ap, ◌∙◌, inl, inr, Bool, true, not, none, some, List, [], ◌∷◌, ◌++◌,
  arith, ltb, ltb→lt, Bool-cases,
}
use mathlib.Core.Path.{subst}
use mathlib.Core.List.{append-nil}
use factorial.Prelude.Sorting.{IsSorted, sort_by_id, select-IsSorted}
use factorial.Chat.Events.Sent.{events_of, emitted, emit_all-events, last_event-add, emit-live}
use factorial.Chat.Events.{
  last_type, is_over, is_terminal_type, replay_events, ChatEvent, EventRow, new_stream,
  text_of_token, flush_token_buffer, emit, emit_all, replayed_rows,
}
use factorial.Chat.Events.Shown.{
  shown_text, shown, after, IsBelow, after_none, after-add, by_sequence,
}
use factorial.Chat.Events.Follows.{Says, Says-before}
use factorial.Chat.Events.Steps.{
  start-Follows, flush-Flushed, emit-Follows, emit_all-Follows, emit-log,
}

last_type-add :
    (rows log : List EventRow) (r : EventRow)
    → last_type (rows ++ r ∷ []) (log ++ r ∷ []) ≡ some r.event
last_type-add [] log r = refl
last_type-add (x ∷ rows) log r = last_event-add (x ∷ rows) r

module _ (k : ℕ) where
  replayed_id : (log : List EventRow) → IsSorted by_sequence log → replayed_rows k log ≡ after k log
  unfolding replayed_rows
  replayed_id log h =
      sort_by_id by_sequence (after k log)
        (select-IsSorted by_sequence (λ r. ltb k r.sequence) log h)

  -- A turn whose rows are all written, the last flush included: a client was streamed all its events, in
  -- order; and one that reconnects after the sequence k is shown all that was streamed after k, in order, with
  -- at most a text before it that was streamed up to k, and none when it has seen nothing.
  pub replayed_rows-emit_all :
      (available : ℕ → Bool) (events : List (ChatEvent × Bool))
      → ((n : ℕ) → available n ≡ true)
      → let t = flush_token_buffer available (emit_all available events new_stream) in
        (events_of t.sent ≡ emitted events)
        × ((p : Text) × (shown (replayed_rows k t.log) ≡ shown_text p ++ shown (after k t.sent))
            × (k ≡ 0 → p ≡ []))
  replayed_rows-emit_all available events all_available =
      let flushed =
        flush-Flushed k available all_available _
          (emit_all-Follows k available all_available events new_stream (start-Follows k)) in
      let t = flush_token_buffer available (emit_all available events new_stream) in
      let (p, eq, z) =
        subst (λ x. Says k t.log x t.sent) flushed.empty (Says-before k t flushed.follows) in
      (
        ap events_of flushed.sent ∙ emit_all-events available events new_stream,
        (
          p,
          ap shown (replayed_id t.log flushed.follows.in_order)
              ∙ sym (append-nil (shown (after k t.log)))
              ∙ eq,
          z,
        ),
      )

  -- Whatever is replayed, the last row of the turn decides.
  last_row :
      (log : List EventRow) (r : EventRow)
      → IsSorted by_sequence (log ++ r ∷ [])
      → IsBelow r.sequence (log ++ r ∷ [])
      → last_type (replayed_rows k (log ++ r ∷ [])) (log ++ r ∷ []) ≡ some r.event
  last_row log r h below =
      rw (replayed_id (log ++ r ∷ []) h) (elim (Bool-cases (ltb k r.sequence)) [
        | inl later ↦
            rw (after-add k log r (ltb→lt k r.sequence later)) (last_type-add (after k log) log r)
        | inr seen ↦
            rw
              (
                after_none k r.sequence (log ++ r ∷ []) (ground arith) below,
                sort_by_id by_sequence (log ++ r ∷ []) h,
              )
              (last_event-add log r)
      ])

  -- A turn whose rows are all written and that ends with an event other than a text: a client that
  -- reconnects, wherever it lost the connection, is told that the turn was interrupted exactly when that last
  -- event is neither `done` nor an error.
  pub replay_events-emit :
      (available : ℕ → Bool) (events : List (ChatEvent × Bool)) (e : ChatEvent)
      → ((n : ℕ) → available n ≡ true)
      → text_of_token e ≡ none
      → let t =
          flush_token_buffer available (emit available e (emit_all available events new_stream)) in
        (replay_events k t.log).1 ≡ not (is_terminal_type e)
  unfolding replay_events
  replay_events-emit available events e all_available plain =
      let s = emit_all available events new_stream in
      let follows =
        emit_all-Follows k available all_available events new_stream (start-Follows k) in
      let log = emit-log k available all_available e s follows plain in
      let flushed =
        flush-Flushed k available all_available _
          (emit-Follows k available all_available e s follows) in
      let seq = flushed.event_seq ∙ ap (λ x. x.0) (emit-live available e s) in
      let below =
        subst (λ rows. IsBelow (s.event_seq + 1) rows) log
          (subst (λ n. IsBelow n (flush_token_buffer available (emit available e s)).log) seq
            flushed.follows.log_below) in
      ap (λ rows. not (is_over (last_type (replayed_rows k rows) rows))) log
      ∙ ap (λ x. not (is_over x))
          (last_row (flush_token_buffer available s).log
            (record { sequence = s.event_seq + 1; event = e })
            (subst (IsSorted by_sequence) log flushed.follows.in_order) below)
