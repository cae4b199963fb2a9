-- ===== src/Agent/Loop/Stream.antt =====
-- The shape of the event stream that a client of the chat reads.
use factorial.Prelude.{
  ℕ, zero, suc, ◌+◌, ◌≡◌, refl, ap, inl, inr, Bool, true, false, not, ◌||◌, Option, none, some,
  List, [], ◌∷◌, ◌++◌, str_eq, Bool-cases, All,
}
use factorial.Agent.Interception.{RevealCounts, Stash}
use factorial.Agent.Loop.{
  ApiError, authentication, rate_limit, unavailable, unexpected, Response, Ending, final_message,
  raises, Message, Event, thinking, finalizing, done, error_event, unavailable_event, State, put,
  World, TurnEnd, finished, again, failed, append_response, after_response, after_stream, take_turn,
  handle, turns, ResultBlock, run_tools, append_results, run_agent_loop, start, max_agent_turns,
  tool_uses, stream, no_tools,
}
use factorial.Agent.Loop.Turn.{
  is_progress, InProgress, put-InProgress, run_tools-InProgress, stream-InProgress,
}

-- `done` or an error.
abbrev pub is_terminal : Event → Bool
is_terminal done = true
is_terminal (error_event message) = true
is_terminal (unavailable_event message detail) = true
is_terminal _ = false

-- Events of progress, then one that ends the stream.
pub record IsEnded (s : State) : Type 0 where
  pub before : List (Option Event)
  pub last : Event
  pub split : s.queue ≡ before ++ some last ∷ []
  pub progress : All (λ i. is_progress i ≡ true) before
  pub terminal : is_terminal last ≡ true

abbrev TurnShows : TurnEnd → Type 0
TurnShows (finished s) = IsEnded s
TurnShows (again s) = InProgress s
TurnShows (failed e s) = InProgress s

module _ (w : World) where
  results-show :
      (out : Option (List ResultBlock) × State)
      → InProgress out.1
      → TurnShows (append_results w out)
  results-show (none, s) h = h
  results-show (some results, s) h = h

  after_response-shows :
      (turn : ℕ) (r : Response) (s : State) → InProgress s → TurnShows (after_response w turn r s)
  unfolding after_response
  after_response-shows turn r s h =
      elim (Bool-cases
        (not (str_eq r.stop_reason "tool_use") || no_tools w (tool_uses r.content))) [
          | inl over ↦ rw over (record {
            before = (put finalizing s).queue;
            last = done;
            split = refl;
            progress = put-InProgress finalizing s refl h;
            terminal = refl;
          })
          | inr on ↦ rw on (
              results-show (run_tools w turn 1 (tool_uses r.content) s)
                (run_tools-InProgress w turn 1 (tool_uses r.content) s h))
        ]

  ending-shows :
      (turn : ℕ) (ending : Ending) (s : State)
      → InProgress s
      → TurnShows (after_stream w turn ending s)
  unfolding after_stream
  ending-shows turn (final_message r) s h = after_response-shows turn r (append_response w r s) h
  ending-shows turn (raises e) s h = h

  take_turn-shows : (turn : ℕ) (s : State) → InProgress s → TurnShows (take_turn w turn s)
  unfolding take_turn
  take_turn-shows turn s h =
      let call = w.client s.messages in
      ending-shows turn call.ending (stream w turn false call.events (put (thinking turn) s)) (
        stream-InProgress w turn false call.events (put (thinking turn) s)
          (put-InProgress (thinking turn) s refl h))

  IsEnded-by : (m : Event) (s : State) → is_terminal m ≡ true → InProgress s → IsEnded (put m s)
  IsEnded-by m s t h = record {
    before = s.queue;
    last = m;
    split = refl;
    progress = h;
    terminal = t;
  }

  handle-IsEnded : (e : ApiError) (s : State) → InProgress s → IsEnded (handle w e s)
  unfolding handle
  handle-IsEnded authentication s h = IsEnded-by _ s refl h
  handle-IsEnded rate_limit s h = IsEnded-by _ s refl h
  handle-IsEnded (unavailable name detail) s h =
      IsEnded-by _ (record s { tracked = s.tracked ++ some name ∷ [] }) refl h
  handle-IsEnded unexpected s h = IsEnded-by _ s refl h

  turns-IsEnded : (left turn : ℕ) (s : State) → InProgress s → IsEnded (turns w left turn s)
  unfolding turns
  turns-IsEnded zero turn s h = IsEnded-by _ s refl h
  turns-IsEnded (suc left) turn s h =
      (elim (take_turn w turn s)
          as (λ e.
            TurnShows e
            → IsEnded (elim e [
              | finished s' ↦ s'
              | again s' ↦ turns w left (turn + 1) s'
              | failed x s' ↦ handle w x s'
            ])) [
              | finished s' ↦ λ shown. shown
              | again s' ↦ λ shown. turns-IsEnded left (turn + 1) s' shown
              | failed x s' ↦ λ shown. handle-IsEnded x s' shown
            ])
        (take_turn-shows turn s h)

  -- Whatever the API does, and whatever JSON the tools return or exception they raise, the loop returns, and the stream that it leaves in the queue is
  -- events of progress, then exactly one that ends it, `done` or an error, then the sentinel, and nothing more.
  pub run_agent_loop-IsEnded :
      (messages : List Message) (counts : RevealCounts) (stash : Stash)
      → (before : List (Option Event)) × (last : Event) × ((run_agent_loop w messages counts
            stash).queue
          ≡ (before ++ some last ∷ []) ++ none ∷ [])
        × All (λ i. is_progress i ≡ true) before
        × (is_terminal last ≡ true)
  unfolding run_agent_loop
  run_agent_loop-IsEnded messages counts stash =
      let ended = turns-IsEnded max_agent_turns 1 (start w messages counts stash) tt in
      (
        ended.before,
        ended.last,
        ap (λ q. q ++ none ∷ []) ended.split,
        ended.progress,
        ended.terminal,
      )
