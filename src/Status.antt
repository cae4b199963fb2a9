-- ===== src/Status.antt =====
-- backend/src/app/services/anthropic_status.py: the tracker of the calls to the API. Readings of the
-- clock are arguments, in microseconds; the lock makes each method one step. The rounding of the rates
-- for display is left out: a rate stands as its two counts.
pub mod Deque
pub mod Percentile
mod Tests
use factorial.Prelude.{
  ℕ, ◌+◌, ◌-◌, ◌*◌, ◌/◌, min, max, String, Bool, true, false, not, ◌&&◌, Option, none, some, List,
  [], ◌∷◌, ◌++◌, ltb, leb, ◌==◌, if◌then◌else◌, length, get_elem?, drop, select, count_where,
}
use factorial.Prelude.Sorting.{sort_by}

-- The outcome is "ok" with the latency, or "error" with the type.
pub data Outcome : Type 0 where
  succeeded : ℕ → Outcome
  errored : String → Outcome

pub record Sample : Type 0 where
  pub at : ℕ
  pub outcome : Outcome

pub record Tracker : Type 0 where
  pub samples : List Sample
  pub last_error : Option String
  pub last_error_at : Option ℕ

abbrev pub new_tracker : Tracker
new_tracker = record { samples = []; last_error = none; last_error_at = none }

-- deque(maxlen=max_samples).append: the oldest samples make room.
unfoldable pub append_sample : ℕ → Sample → List Sample → List Sample
append_sample max_samples s samples =
    let all = samples ++ s ∷ [] in drop (length all - max_samples) all

unfoldable pub record_success : ℕ → ℕ → ℕ → Tracker → Tracker
record_success max_samples now latency_ms t = record t {
  samples =
      append_sample max_samples (record { at = now; outcome = succeeded latency_ms }) t.samples;
}

unfoldable pub record_error : ℕ → ℕ → String → Tracker → Tracker
record_error max_samples now error_type t = record {
  samples = append_sample max_samples (record { at = now; outcome = errored error_type }) t.samples;
  last_error = some error_type;
  last_error_at = some now;
}

unfoldable pub reset : Tracker → Tracker
reset t = new_tracker

abbrev pub is_error : Sample → Bool
is_error s = elim s.outcome [ succeeded latency_ms ↦ false | errored error_type ↦ true ]

abbrev latency_of : Outcome → List ℕ → List ℕ
latency_of (succeeded latency_ms) rest = latency_ms ∷ rest
latency_of (errored error_type) rest = rest

abbrev pub latencies_of : List Sample → List ℕ
latencies_of [] = []
latencies_of (s ∷ samples) = latency_of s.outcome (latencies_of samples)

abbrev pub sorted : List ℕ → List ℕ
sorted = sort_by leb

-- `_percentile`: none is the ValueError of the empty list.
unfoldable pub percentile : List ℕ → ℕ → Option ℕ
percentile [] pct = none
percentile (x ∷ xs) pct =
    let n = length (x ∷ xs) in get_elem? (x ∷ xs) (max 0 (min (n - 1) ((pct * n) / 100)))

pub data Status : Type 0 where
  down slow up : Status

-- recent[-2:]
abbrev last_two : List Sample → List Sample
last_two samples = drop (length samples - 2) samples

abbrev above : ℕ → Option ℕ → Bool
above bound none = false
above bound (some p95) = ltb bound p95

-- error_count / sample_count >= 0.5 stands without the quotient; `up` is "ok".
unfoldable pub classify : List Sample → ℕ → ℕ → Option ℕ → Status
classify recent error_count sample_count p95 =
    if leb 3 sample_count && leb sample_count (2 * error_count)
    then down
    else if length (select is_error (last_two recent)) == 2
    then down
    else if leb 5 sample_count && above 15_000 p95
    then slow
    else up

pub record Snapshot : Type 0 where
  pub status : Status
  pub sample_count : ℕ
  pub error_count : ℕ
  pub p95_latency_ms : Option ℕ
  pub last_error : Option String
  pub last_error_at : Option ℕ
  pub updated_at : ℕ

-- The samples from `seconds` ago on.
abbrev pub window : ℕ → ℕ → List Sample → List Sample
window now seconds samples = select (λ s. leb (now - seconds * 1_000_000) s.at) samples

unfoldable pub snapshot : ℕ → Tracker → Snapshot
unfolding percentile classify
snapshot now t =
    let recent = window now 300 t.samples in
    let sample_count = length recent in
    let error_count = count_where is_error recent in
    let p95 = percentile (sorted (latencies_of recent)) 95 in
    record {
      status = classify recent error_count sample_count p95;
      sample_count = sample_count;
      error_count = error_count;
      p95_latency_ms = p95;
      last_error = t.last_error;
      last_error_at = t.last_error_at;
      updated_at = now;
    }

abbrev sum : List ℕ → ℕ
sum [] = 0
sum (x ∷ xs) = x + sum xs

abbrev last_of : List ℕ → Option ℕ
last_of [] = none
last_of (x ∷ []) = some x
last_of (x ∷ y ∷ xs) = last_of (y ∷ xs)

abbrev average : List ℕ → Option ℕ
average [] = none
average (x ∷ xs) = some (sum (x ∷ xs) / length (x ∷ xs))

-- The counts of each type of error are left out.
pub record Rollup : Type 0 where
  pub sample_count : ℕ
  pub success_count : ℕ
  pub error_count : ℕ
  pub latency_ms_p50 : Option ℕ
  pub latency_ms_p95 : Option ℕ
  pub latency_ms_max : Option ℕ
  pub latency_ms_avg : Option ℕ

unfoldable pub hourly_rollup : ℕ → ℕ → Tracker → Rollup
unfolding percentile
hourly_rollup now window_seconds t =
    let in_window = window now window_seconds t.samples in
    let latencies = sorted (latencies_of in_window) in
    let success_count = count_where (λ s. not (is_error s)) in_window in
    record {
      sample_count = length in_window;
      success_count = success_count;
      error_count = length in_window - success_count;
      latency_ms_p50 = percentile latencies 50;
      latency_ms_p95 = percentile latencies 95;
      latency_ms_max = last_of latencies;
      latency_ms_avg = average latencies;
    }
