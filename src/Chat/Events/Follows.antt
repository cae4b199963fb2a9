-- ===== src/Chat/Events/Follows.antt =====
-- The invariant of a stream: what is written and what is buffered follow what is sent.
use factorial.Prelude.{
  Text, codes, ℕ, ◌≤◌, ◌<◌, String, ◌≡◌, refl, sym, ap, ◌∙◌, ◌⊎◌, inl, inr, true, none, some, List,
  [], ◌∷◌, ◌++◌, arith, ltb, leb, ltb→lt, Bool-cases, All-append,
}
use mathlib.Core.Path.{subst}
use mathlib.Core.List.{append_assoc, append-nil}
use factorial.Prelude.Sorting.{IsSorted, append-IsSorted}
use factorial.Agent.Conversation.{token}
use factorial.Chat.Events.{ChatEvent, agent_event, EventRow, Stream, join}
use factorial.Chat.Events.Shown.{
  shown_text, shown_event, shown, after, codes_of, codes-join, IsBelow, after_none, by_sequence,
  shown-after-add, shown_codes-add, extend,
}

module _ (k : ℕ) where
  -- The rows after k and the buffer say what was sent after k; a text that was sent up to k may stand
  -- before it.
  abbrev pub Says : List EventRow → List String → List EventRow → Type 0
  Says log buf sent =
      (p : Text) × (shown (after k log) ++ shown_text (codes_of buf)
        ≡ shown_text p ++ shown (after k sent))
      × (k ≡ 0 → p ≡ [])

  -- What holds between events.
  pub record Follows (s : Stream) : Type 0 where
    pub log_below : IsBelow s.event_seq s.log
    pub sent_below : IsBelow s.event_seq s.sent
    pub in_order : IsSorted by_sequence s.log
    pub at_end : (s.token_buf ≡ []) ⊎ (s.token_buf_last_seq ≡ some s.event_seq)
    pub at_start : s.event_seq ≡ 0 → s.token_buf ≡ []
    pub same : k < s.event_seq → Says s.log s.token_buf s.sent

  pub record Flushed (s t : Stream) : Type 0 where
    pub follows : Follows t
    pub empty : t.token_buf ≡ []
    pub event_seq : t.event_seq ≡ s.event_seq
    pub sent : t.sent ≡ s.sent

  Says-flushed :
      (log : List EventRow) (buf : List String) (sent : List EventRow) (n : ℕ)
      → k < n
      → Says log buf sent
      → Says (log ++ record { sequence = n; event = agent_event (token (join buf)) } ∷ []) [] sent
  Says-flushed log buf sent n lt (p, eq, z) =
      let row : EventRow = record { sequence = n; event = agent_event (token (join buf)) } in
      (
        p,
        append-nil (shown (after k (log ++ row ∷ [])))
            ∙ shown-after-add k log row lt
            ∙ ap (λ x. shown (after k log) ++ shown_text x) (codes-join buf)
            ∙ eq,
        z,
      )

  pub Says-token :
      (log : List EventRow) (buf : List String) (sent : List EventRow) (n : ℕ) (t : String)
      → k < n
      → Says log buf sent
      → Says log
          (buf ++ t ∷ [])
          (sent ++ record { sequence = n; event = agent_event (token t) } ∷ [])
  Says-token log buf sent n t lt (p, eq, z) =
      let row : EventRow = record { sequence = n; event = agent_event (token t) } in
      (
        p,
        ap (λ x. shown (after k log) ++ x) (shown_codes-add buf t)
            ∙ extend (shown (after k log)) (shown_text (codes_of buf)) (shown_text p)
                (shown (after k sent)) (shown_text (codes t)) eq
            ∙ ap (λ x. shown_text p ++ x) (sym (shown-after-add k sent row lt)),
        z,
      )

  pub Says-event :
      (log sent : List EventRow) (n : ℕ) (e : ChatEvent)
      → k < n
      → Says log [] sent
      → Says
          (log ++ record { sequence = n; event = e } ∷ [])
          []
          (sent ++ record { sequence = n; event = e } ∷ [])
  Says-event log sent n e lt (p, eq, z) =
      let row : EventRow = record { sequence = n; event = e } in
      (
        p,
        append-nil (shown (after k (log ++ row ∷ [])))
            ∙ shown-after-add k log row lt
            ∙ ap (λ x. x ++ shown_event e) (sym (append-nil (shown (after k log))) ∙ eq)
            ∙ append_assoc (shown_text p) (shown (after k sent)) (shown_event e)
            ∙ ap (λ x. shown_text p ++ x) (sym (shown-after-add k sent row lt)),
        z,
      )

  -- Up to k nothing is kept and nothing counts: only the buffer may be shown again.
  Says-first : (s : Stream) → s.event_seq ≤ k → Follows s → Says s.log s.token_buf s.sent
  Says-first s le h = (
    codes_of s.token_buf,
    rw
        (
          after_none k s.event_seq s.log le h.log_below,
          after_none k s.event_seq s.sent le h.sent_below,
        )
        (sym (append-nil (shown_text (codes_of s.token_buf)))),
    λ zero. ap codes_of (h.at_start (omega arith)),
  )

  pub Says-before : (s : Stream) → Follows s → Says s.log s.token_buf s.sent
  Says-before s h = elim (Bool-cases (ltb k s.event_seq)) [
    | inl past ↦ h.same (ltb→lt k s.event_seq past)
    | inr not_yet ↦ Says-first s (ground arith) h
  ]

  unfoldable pub emptied : List String → Stream → Stream
  emptied buf s = record s {
    token_buf = [];
    token_buf_last_seq = none;
    log = s.log ++ record { sequence = s.event_seq; event = agent_event (token (join buf)) } ∷ [];
  }

  IsBelow-refl :
      (n : ℕ) (rows : List EventRow) (e : ChatEvent)
      → IsBelow n rows
      → IsBelow n (rows ++ record { sequence = n; event = e } ∷ [])
  unfolding IsBelow
  IsBelow-refl n rows e h = All-append (λ r. leb r.sequence n ≡ true) rows _ h (ground arith, tt)

  pub adds_in_order :
      (n : ℕ) (rows : List EventRow) (e : ChatEvent)
      → IsSorted by_sequence rows
      → IsBelow n rows
      → IsSorted by_sequence (rows ++ record { sequence = n; event = e } ∷ [])
  unfolding IsBelow
  adds_in_order n rows e h below = append-IsSorted by_sequence rows _ h below

  pub emptied-Flushed :
      (buf : List String) (s : Stream) → s.token_buf ≡ buf → Follows s → Flushed s (emptied buf s)
  unfolding emptied
  emptied-Flushed buf s b h = record {
    follows = record {
      log_below = IsBelow-refl s.event_seq s.log (agent_event (token (join buf))) h.log_below;
      sent_below = h.sent_below;
      in_order =
          adds_in_order s.event_seq s.log (agent_event (token (join buf))) h.in_order h.log_below;
      at_end = inl refl;
      at_start = λ e. refl;
      same = λ lt.
          Says-flushed s.log buf s.sent s.event_seq lt
            (subst (λ x. Says s.log x s.sent) b (h.same lt));
    };
    empty = refl;
    event_seq = refl;
    sent = refl;
  }
