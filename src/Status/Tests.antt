-- ===== src/Status/Tests.antt =====
-- The status tracker at small inputs.
use factorial.Prelude.{ℕ, ◌≤◌, ◌≡◌, refl, some, List, [], ◌∷◌, length}
use factorial.Prelude.Sorting.{sort_by}
use factorial.Status.{
  succeeded, errored, Sample, new_tracker, reset, percentile, sorted, down, snapshot,
  record_success, record_error, append_sample, classify,
}
use factorial.Status.Deque.{report_all, last_n, report_all-last_n}

abbrev latencies : List ℕ
latencies = 900 ∷ 100 ∷ 500 ∷ 300 ∷ []

abbrev log : List Sample
log =
    record { at = 1; outcome = succeeded 900 }
    ∷ record { at = 2; outcome = errored "APITimeoutError" }
    ∷ record { at = 3; outcome = errored "APITimeoutError" }
    ∷ []

status_runs :
    ((snapshot 10 (report_all 5_000 log new_tracker)).status ≡ down)
    × ((snapshot 400_000_000 (report_all 5_000 log new_tracker)).sample_count ≡ 0)
unfolding snapshot percentile classify append_sample record_success record_error
status_runs = (refl, refl)

percentile_runs : percentile (sorted latencies) 50 ≡ some 500
unfolding percentile sort_by
percentile_runs = refl

report_all-last_n_example :
    let samples = (report_all 2 log (reset new_tracker)).samples in
    (samples ≡ last_n 2 log) × (length samples ≤ 2)
report_all-last_n_example = report_all-last_n 2 log new_tracker
