-- ===== src/Status/Deque.antt =====
-- The bounded buffer of the tracker against the log of all calls.
use factorial.Prelude.{
  ℕ, zero, suc, ◌+◌, ◌-◌, ◌≤◌, ◌≡◌, refl, sym, ap, ◌∙◌, List, [], ◌∷◌, ◌++◌, arith, length, drop,
  length-append,
}
use mathlib.Core.List.{append_assoc, append-nil}
use factorial.Status.{
  Outcome, succeeded, errored, Sample, Tracker, new_tracker, append_sample, record_success,
  record_error, reset,
}

abbrev report_outcome : ℕ → ℕ → Outcome → Tracker → Tracker
report_outcome max_samples at (succeeded latency_ms) = record_success max_samples at latency_ms
report_outcome max_samples at (errored error_type) = record_error max_samples at error_type

-- What the agent loop reports: a call that ended at a time.
abbrev pub report : ℕ → Sample → Tracker → Tracker
report max_samples s = report_outcome max_samples s.at s.outcome

abbrev pub report_all : ℕ → List Sample → Tracker → Tracker
report_all max_samples [] t = t
report_all max_samples (s ∷ log) t = report_all max_samples log (report max_samples s t)

-- The last `n` of a list.
abbrev pub last_n : ℕ → List Sample → List Sample
last_n n xs = drop (length xs - n) xs

drop_nil : (a : ℕ) → drop {A = Sample} a [] ≡ []
drop_nil zero = refl
drop_nil (suc a) = refl

drop-drop : (a b : ℕ) (xs : List Sample) → drop a (drop b xs) ≡ drop (a + b) xs
drop-drop a zero xs = ap (λ n. drop n xs) (omega arith)
drop-drop a (suc b) [] = drop_nil a ∙ sym (drop_nil (a + suc b))
drop-drop a (suc b) (x ∷ xs) =
    let shifted : suc (a + b) ≡ a + suc b = omega arith in
    drop-drop a b xs ∙ ap (λ n. drop n (x ∷ xs)) shifted

length-drop : (n : ℕ) (xs : List Sample) → length (drop n xs) ≡ length xs - n
length-drop zero xs = omega arith
length-drop (suc n) [] = omega arith
length-drop (suc n) (x ∷ xs) = omega (arith, length-drop n xs)

drop-append : (n : ℕ) (xs ys : List Sample) → n ≤ length xs → drop n (xs ++ ys) ≡ drop n xs ++ ys
drop-append zero xs ys h = refl
drop-append (suc n) [] ys h = absurd (omega arith)
drop-append (suc n) (x ∷ xs) ys h = drop-append n xs ys (omega arith)

append-last_n :
    (n : ℕ) (s : Sample) (xs : List Sample)
    → append_sample n s (last_n n xs) ≡ last_n n (xs ++ s ∷ [])
unfolding append_sample
append-last_n n s xs =
    let cut = length xs - n in
    rw
      (
        sym (drop-append cut xs (s ∷ []) (omega arith)),
        drop-drop (length (drop cut (xs ++ s ∷ [])) - n) cut (xs ++ s ∷ []),
      )
      (ap (λ k. drop k (xs ++ s ∷ []))
        (omega (arith, length-drop cut (xs ++ s ∷ []), length-append xs (s ∷ []))))

outcome-samples :
    (n at : ℕ) (o : Outcome) (t : Tracker)
    → (report_outcome n at o t).samples
      ≡ append_sample n (record { at = at; outcome = o }) t.samples
unfolding record_success record_error
outcome-samples n at (succeeded latency_ms) t = refl
outcome-samples n at (errored error_type) t = refl

report-samples :
    (n : ℕ) (s : Sample) (t : Tracker) → (report n s t).samples ≡ append_sample n s t.samples
report-samples n s t = outcome-samples n s.at s.outcome t

from_log :
    (n : ℕ) (past log : List Sample) (t : Tracker)
    → t.samples ≡ last_n n past
    → (report_all n log t).samples ≡ last_n n (past ++ log)
from_log n past [] t h = h ∙ ap (last_n n) (sym (append-nil past))
from_log n past (s ∷ log) t h =
    from_log n (past ++ s ∷ []) log (report n s t)
      (report-samples n s t ∙ ap (append_sample n s) h ∙ append-last_n n s past)
    ∙ ap (last_n n) (append_assoc past (s ∷ []) log)

-- After any reports to a fresh tracker its samples are the last ones of all that were reported, in order, as many
-- as the buffer holds, and so never more.
pub report_all-last_n :
    (max_samples : ℕ) (log : List Sample) (before : Tracker)
    → let samples = (report_all max_samples log (reset before)).samples in
      (samples ≡ last_n max_samples log) × (length samples ≤ max_samples)
unfolding reset
report_all-last_n n log before =
    let same = from_log n [] log new_tracker (sym (drop_nil (0 - n))) in
    (same, rw same (omega (arith, length-drop (length log - n) log)))
