-- ===== src/AdminEvents/Closing.antt =====
-- An event that is started, and then finished.
use factorial.Prelude.{
  ℕ, String, ◌≡◌, refl, sym, ap, ◌∙◌, true, Option, List, [], ◌∷◌, ◌++◌, arith, ==_self, length,
  select, update_where, count_where, length-select, select-append, select-update_one,
}
use factorial.Model.Json
use factorial.Model.Json.{Json, Dict, or_else, lookup-merge}
use factorial.AdminEvents.{
  AdminEvent, done, Events, has_id, started, start_event, is_terminal, closed, finish_event,
}

no_rows : {A : Type 0} (xs : List A) → length xs ≡ 0 → xs ≡ []
no_rows [] h = refl
no_rows (x ∷ xs) h = absurd (omega (arith, h))

module _ (id now later : ℕ) (event_type source status : String)
    (actor message last_message error_message : Option String) (payload payload_merge : Dict)
    (events : Events) (fresh : count_where (has_id id) events ≡ 0)
    (terminal : is_terminal status ≡ true) where
  abbrev event : AdminEvent
  event = started id now event_type source actor message payload

  abbrev finished : AdminEvent
  finished = closed later status last_message error_message payload_merge event

  started_last :
      start_event id now event_type source actor message payload events
      ≡ (done id, events ++ event ∷ [])
  unfolding start_event
  started_last = rw fresh refl

  one_event : select (has_id id) (events ++ event ∷ []) ≡ event ∷ []
  one_event = rw (
    select-append (has_id id) events (event ∷ []),
    no_rows (select (has_id id) events) (length-select (has_id id) events ∙ fresh),
    ==_self id,
  )

  -- A started event is finished: it is the one row of its id, closed, with the payload of both, where the later one
  -- wins.
  finish_event-start_event :
      (out : Events) × (finish_event later id status last_message error_message payload_merge
          (events ++ event ∷ [])
        ≡ (done tt, out))
      × (select (has_id id) out ≡ finished ∷ [])
      × ((k : String)
          → Json.lookup k finished.payload
            ≡ or_else (Json.lookup k payload_merge) (Json.lookup k payload))
  unfolding finish_event
  finish_event-start_event =
      let one : count_where (has_id id) (events ++ event ∷ []) ≡ 1 =
        sym (length-select (has_id id) (events ++ event ∷ [])) ∙ ap length one_event in
      (
        update_where (has_id id) (closed later status last_message error_message payload_merge)
            (events ++ event ∷ []),
        rw (terminal, one) refl,
        select-update_one (has_id id) (closed later status last_message error_message payload_merge)
            (events ++ event ∷ []) (λ y. refl) (==_self id) one_event,
        λ k. lookup-merge k payload payload_merge,
      )
