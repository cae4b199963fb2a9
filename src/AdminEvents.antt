-- ===== src/AdminEvents.antt =====
-- backend/src/app/services/admin_event_service.py and backend/src/app/models/admin_event.py: the log of operations. It
-- is a table of its own, and no other service reads it. A time is in microseconds; the product of the float
-- `total_seconds()` and 1000 is taken as exact, and the clocks of the service and of the database as one. `updated_at` is
-- left out.
pub mod Closing
use factorial.Prelude.{
  ℕ, zero, suc, ◌-◌, ◌*◌, ◌/◌, String, Bool, true, not, ◌&&◌, ◌||◌, Option, none, some, List, [],
  ◌∷◌, ◌++◌, str_eq, ltb, leb, ◌==◌, if◌then◌else◌, take, drop, select, update_where, count_where,
}
use factorial.Prelude.Int.{ℤ, pos, negsuc}
use factorial.Prelude.Sorting.{order_by_desc}
use factorial.Model.Json
use factorial.Model.Json.{Dict}

pub record AdminEvent : Type 0 where
  pub id : ℕ
  pub event_type : String
  pub status : String
  pub source : String
  pub actor : Option String
  pub message : Option String
  pub error_message : Option String
  pub payload : Dict
  pub started_at : Option ℕ
  pub completed_at : Option ℕ
  pub duration_ms : Option ℤ
  pub created_at : ℕ

-- What a service gives, with the rows as it leaves them: its two ValueErrors, and the error of a taken primary key.
pub data Outcome (A : Type 0) : Type 0 where
  done : A → Outcome A
  bad_status not_found integrity_error : Outcome A

abbrev pub Events : Type 0
Events = List AdminEvent

abbrev pub has_id : ℕ → AdminEvent → Bool
has_id id e = e.id == id

abbrev pub add_event : AdminEvent → Events → Outcome ℕ × Events
add_event e events =
    if ltb 0 (count_where (has_id e.id) events)
    then (integrity_error, events)
    else (done e.id, events ++ e ∷ [])

abbrev pub started : ℕ → ℕ → String → String → Option String → Option String → Dict → AdminEvent
started id now event_type source actor message payload = record {
  id = id;
  event_type = event_type;
  status = "in_progress";
  source = source;
  actor = actor;
  message = message;
  error_message = none;
  payload = payload;
  started_at = some now;
  completed_at = none;
  duration_ms = none;
  created_at = now;
}

-- No payload and an empty one are alike.
unfoldable pub start_event :
    ℕ → ℕ → String → String → Option String → Option String → Dict → Events → Outcome ℕ × Events
start_event id now event_type source actor message payload events =
    add_event (started id now event_type source actor message payload) events

-- _TERMINAL_STATUSES
abbrev pub is_terminal : String → Bool
is_terminal status = str_eq status "success" || str_eq status "failed"

abbrev pub or_old : Option String → Option String → Option String
or_old none old = old
or_old (some new) old = some new

-- int(seconds * 1000), of a time that may be before the start
abbrev pub minus_ms : ℕ → ℤ
minus_ms zero = pos 0
minus_ms (suc n) = negsuc n

abbrev pub elapsed_ms : ℕ → ℕ → ℤ
elapsed_ms start now =
    if leb start now then pos ((now - start) / 1000) else minus_ms ((start - now) / 1000)

abbrev pub duration : Option ℕ → ℕ → Option ℤ → Option ℤ
duration none now old = old
duration (some start) now old = some (elapsed_ms start now)

abbrev pub closed : ℕ → String → Option String → Option String → Dict → AdminEvent → AdminEvent
closed now status message error_message payload_merge e = record e {
  status = status;
  message = or_old message e.message;
  error_message = or_old error_message e.error_message;
  payload = Json.merge e.payload payload_merge;
  completed_at = some now;
  duration_ms = duration e.started_at now e.duration_ms;
}

-- An empty `payload_merge` leaves the payload as it is.
unfoldable pub finish_event :
    ℕ → ℕ → String → Option String → Option String → Dict → Events → Outcome (Unit {0}) × Events
finish_event now event_id status message error_message payload_merge events =
    if not (is_terminal status)
    then (bad_status, events)
    else if count_where (has_id event_id) events == 0
    then (not_found, events)
    else (
      done tt,
      update_where (has_id event_id) (closed now status message error_message payload_merge) events,
    )

-- if event_type: the condition
abbrev pub fits : Option String → String → Bool
fits none value = true
fits (some wanted) value = str_eq wanted "" || str_eq value wanted

abbrev pub is_wanted : Option String → Option String → AdminEvent → Bool
is_wanted event_type status e = fits event_type e.event_type && fits status e.status

-- The page, which the endpoint takes to be 1 or more, and the number of events on all pages.
unfoldable pub list_events : ℕ → ℕ → Option String → Option String → Events → Events × ℕ
list_events page page_size event_type status events =
    let wanted = is_wanted event_type status in
    (
      take page_size (
          drop ((page - 1) * page_size) (order_by_desc (λ e. e.created_at) (select wanted events))),
      count_where wanted events,
    )

unfoldable pub log_snapshot :
    ℕ → ℕ → String → String → Dict → Option String → Events → Outcome ℕ × Events
log_snapshot id now event_type source payload message events =
    add_event
      (record (started id now event_type source none message payload) {
        status = "info";
        started_at = none;
      })
      events
