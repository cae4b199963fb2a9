-- ===== src/Chat/Events/Steps.antt =====
-- Each step of a turn keeps the invariant of its stream.
use factorial.Prelude.{
  ℕ, ◌+◌, String, ◌≡◌, refl, sym, inl, inr, Bool, true, Option, none, some, List, [], ◌∷◌, ◌++◌,
  arith, Bool-cases,
}
use mathlib.Core.Path.{subst}
use factorial.Agent.Conversation.{
  thinking, streaming, finalizing, done, token, plan, plan_update, calling_tool, tool_start,
  tool_result, error_event, unavailable_event,
}
use factorial.Chat.Events.{
  ChatEvent, conversation_started, agent_event, experiment_created, simulator_created, chat_error,
  Stream, new_stream, join, text_of_token, persist_chat_event, flush_batch, flush_token_buffer,
  buffer, emit, emit_all,
}
use factorial.Chat.Events.Shown.{IsBelow, IsBelow-grows, IsBelow-add}
use factorial.Chat.Events.Follows.{
  Says, Follows, Flushed, Says-token, Says-event, Says-before, emptied, emptied-Flushed,
  adds_in_order,
}

module _ (k : ℕ) where
  module _ (available : ℕ → Bool) (all_available : (n : ℕ) → available n ≡ true) where
    persist_some :
        (n : ℕ) (e : ChatEvent) (s : Stream)
        → persist_chat_event available n e s
          ≡ record s { log = s.log ++ record { sequence = n; event = e } ∷ [] }
    unfolding persist_chat_event
    persist_some n e s = rw (all_available n) refl

    flush_batch-Flushed :
        (buf : List String) (last : Option ℕ) (s : Stream)
        → s.token_buf ≡ buf
        → s.token_buf_last_seq ≡ last
        → Follows k s
        → Flushed k s (flush_batch available buf last s)
    unfolding emptied
    flush_batch-Flushed [] last s b l h = record {
      follows = h;
      empty = b;
      event_seq = refl;
      sent = refl;
    }
    flush_batch-Flushed (part ∷ parts) none s b l h = elim h.at_end [
      | inl nothing ↦ absurd (grind (arith, b, nothing))
      | inr last ↦ absurd (grind (arith, l, last))
    ]
    flush_batch-Flushed (part ∷ parts) (some n) s b l h =
        let n_is : n ≡ s.event_seq = elim h.at_end [
          | inl nothing ↦ absurd (grind (arith, b, nothing))
          | inr last ↦ grind (arith, l, last)
        ] in
        subst (λ m. Flushed k s (flush_batch available (part ∷ parts) (some m) s)) (sym n_is)
          (rw (persist_some s.event_seq (agent_event (token (join (part ∷ parts)))) s)
            (emptied-Flushed k (part ∷ parts) s b h))

    pub flush-Flushed : (s : Stream) → Follows k s → Flushed k s (flush_token_buffer available s)
    unfolding flush_token_buffer
    flush-Flushed s h = flush_batch-Flushed s.token_buf s.token_buf_last_seq s refl refl h

    nothing_buffered :
        (t : Stream) → t.token_buf ≡ [] → (flush_token_buffer available t).log ≡ t.log
    unfolding flush_token_buffer
    nothing_buffered t empty = rw empty refl

    -- An event that is no text closes the buffer and is written at once.
    pub emit-log :
        (e : ChatEvent) (s : Stream)
        → Follows k s
        → text_of_token e ≡ none
        → (flush_token_buffer available (emit available e s)).log
          ≡ (flush_token_buffer available s).log
            ++ record { sequence = s.event_seq + 1; event = e } ∷ []
    unfolding emit
    emit-log e s h plain =
        let f = flush_token_buffer available s in
        rw (plain, persist_some (s.event_seq + 1) e (record f { event_seq = s.event_seq + 1 }))
          (nothing_buffered
            (record f {
              event_seq = s.event_seq + 1;
              log = f.log ++ record { sequence = s.event_seq + 1; event = e } ∷ [];
              sent = f.sent ++ record { sequence = s.event_seq + 1; event = e } ∷ [];
            })
            (flush-Flushed s h).empty)

    emit_token-Follows :
        (s : Stream) (t : String)
        → Follows k s
        → Follows k (record (buffer available (s.event_seq + 1) t s) {
          sent =
              s.sent ++ record { sequence = s.event_seq + 1; event = agent_event (token t) } ∷ [];
        })
    emit_token-Follows s t h = record {
      log_below = IsBelow-grows s.event_seq s.log h.log_below;
      sent_below = IsBelow-add s.event_seq s.sent (agent_event (token t)) h.sent_below;
      in_order = h.in_order;
      at_end = inr refl;
      at_start = λ e. absurd (omega (arith, e));
      same = λ lt. Says-token k s.log s.token_buf s.sent (s.event_seq + 1) t lt (Says-before k s h);
    }

    emit_event-Follows :
        (s : Stream) (e : ChatEvent)
        → s.token_buf ≡ []
        → Follows k s
        → Follows k (record s {
          event_seq = s.event_seq + 1;
          log = s.log ++ record { sequence = s.event_seq + 1; event = e } ∷ [];
          sent = s.sent ++ record { sequence = s.event_seq + 1; event = e } ∷ [];
        })
    emit_event-Follows s e empty h = record {
      log_below = IsBelow-add s.event_seq s.log e h.log_below;
      sent_below = IsBelow-add s.event_seq s.sent e h.sent_below;
      in_order =
          adds_in_order k (s.event_seq + 1) s.log e h.in_order
            (IsBelow-grows s.event_seq s.log h.log_below);
      at_end = inl empty;
      at_start = λ z. empty;
      same = λ lt.
          subst
            (λ x.
              Says k (s.log ++ record { sequence = s.event_seq + 1; event = e } ∷ []) x
                (s.sent ++ record { sequence = s.event_seq + 1; event = e } ∷ []))
            (sym empty)
            (Says-event k s.log s.sent (s.event_seq + 1) e lt
              (subst (λ x. Says k s.log x s.sent) empty (Says-before k s h)));
    }

    plain-Follows :
        (e : ChatEvent) (s : Stream)
        → Follows k s
        → let t =
            persist_chat_event available
              (s.event_seq + 1)
              e
              (record (flush_token_buffer available s) { event_seq = s.event_seq + 1 }) in
          Follows k
            (record t { sent = t.sent ++ record { sequence = s.event_seq + 1; event = e } ∷ [] })
    plain-Follows e s h =
        let f = flush_token_buffer available s in
        let flushed = flush-Flushed s h in
        rw (persist_some (s.event_seq + 1) e (record f { event_seq = s.event_seq + 1 })) (
          subst
            (λ m. Follows k (record f {
              event_seq = m + 1;
              log = f.log ++ record { sequence = m + 1; event = e } ∷ [];
              sent = f.sent ++ record { sequence = m + 1; event = e } ∷ [];
            }))
            flushed.event_seq (emit_event-Follows f e flushed.empty flushed.follows))

    pub emit-Follows : (e : ChatEvent) (s : Stream) → Follows k s → Follows k (emit available e s)
    unfolding emit
    emit-Follows (agent_event (token t)) s h = emit_token-Follows s t h
    emit-Follows (conversation_started c) s h = plain-Follows (conversation_started c) s h
    emit-Follows (experiment_created x) s h = plain-Follows (experiment_created x) s h
    emit-Follows (simulator_created x) s h = plain-Follows (simulator_created x) s h
    emit-Follows (chat_error m) s h = plain-Follows (chat_error m) s h
    emit-Follows (agent_event (thinking n)) s h = plain-Follows (agent_event (thinking n)) s h
    emit-Follows (agent_event (streaming n)) s h = plain-Follows (agent_event (streaming n)) s h
    emit-Follows (agent_event finalizing) s h = plain-Follows (agent_event finalizing) s h
    emit-Follows (agent_event done) s h = plain-Follows (agent_event done) s h
    emit-Follows (agent_event (plan p j)) s h = plain-Follows (agent_event (plan p j)) s h
    emit-Follows (agent_event (plan_update p j)) s h =
        plain-Follows (agent_event (plan_update p j)) s h
    emit-Follows (agent_event (calling_tool t n)) s h =
        plain-Follows (agent_event (calling_tool t n)) s h
    emit-Follows (agent_event (tool_start t d)) s h =
        plain-Follows (agent_event (tool_start t d)) s h
    emit-Follows (agent_event (tool_result t j)) s h =
        plain-Follows (agent_event (tool_result t j)) s h
    emit-Follows (agent_event (error_event m)) s h = plain-Follows (agent_event (error_event m)) s h
    emit-Follows (agent_event (unavailable_event m d)) s h =
        plain-Follows (agent_event (unavailable_event m d)) s h

    pub emit_all-Follows :
        (events : List (ChatEvent × Bool)) (s : Stream)
        → Follows k s
        → Follows k (emit_all available events s)
    unfolding emit_all
    emit_all-Follows [] s h = h
    emit_all-Follows ((event, late) ∷ events) s h =
        emit_all-Follows events _ (elim (Bool-cases late) [
          | inl is_late ↦
              rw is_late (flush-Flushed (emit available event s) (emit-Follows event s h)).follows
          | inr on_time ↦ rw on_time (emit-Follows event s h)
        ])

  pub start-Follows : Follows k new_stream
  unfolding IsBelow
  start-Follows = record {
    log_below = tt;
    sent_below = tt;
    in_order = tt;
    at_end = inl refl;
    at_start = λ e. refl;
    same = λ lt. absurd (omega (arith, lt));
  }
