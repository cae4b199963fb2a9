-- ===== src/Design/Experiments/Ownership.antt =====
-- The services of an experiment, for a user who does not own it.
use factorial.Prelude.{
  ℕ, ◌≡◌, refl, ◌≢◌, inl, inr, false, none, some, List, [], ◌∷◌, ◌==◌, ==_iff, Bool-cases, select,
  All,
}
use factorial.Model.{Experiment}
use factorial.Model.Json.{Json, Dict}
use factorial.Database.{Database, ok, get_row}
use factorial.Design.Experiments.{
  if_owned, get_experiment, Updates, update_experiment, delete_experiment, add_results,
  attach_evaluation, get_results,
}

-- No row with this id belongs to the user.
abbrev pub IsForeign : ℕ → ℕ → Database → Type 0
IsForeign id user_id db = All (λ e. (e.id ≡ id) → e.user_id ≢ user_id) db.experiments

not_yours : (user_id : ℕ) (e : Experiment) → e.user_id ≢ user_id → if_owned user_id (some e) ≡ none
not_yours user_id e h = elim (Bool-cases (e.user_id == user_id)) [
  | inl mine ↦ absurd (h ((==_iff e.user_id user_id).0 mine))
  | inr other ↦ rw other refl
]

pub foreign_none :
    (id user_id : ℕ) (rows : List Experiment)
    → All (λ e. (e.id ≡ id) → e.user_id ≢ user_id) rows
    → if_owned user_id (get_row (select (λ e. e.id == id) rows)) ≡ none
foreign_none id user_id [] h = refl
foreign_none id user_id (e ∷ rows) h = elim (Bool-cases (e.id == id)) [
  | inl here ↦ rw here (not_yours user_id e (h.0 ((==_iff e.id id).0 here)))
  | inr there ↦ rw there (foreign_none id user_id rows h.1)
]

-- For a user who does not own the experiment, reading it or its results, changing it, adding results or an evaluation,
-- and deleting it answer as if it did not exist, and write nothing.
pub not_owned :
    (id user_id : ℕ) (results : List Dict) (evaluation : Json) (updates : Updates) (db : Database)
    → IsForeign id user_id db
    → (get_experiment id user_id db ≡ (ok none, db))
      × (get_results id user_id db ≡ (ok (none, 0), db))
      × (update_experiment id updates user_id db ≡ (ok none, db))
      × (add_results id results user_id db ≡ (ok none, db))
      × (attach_evaluation id evaluation user_id db ≡ (ok none, db))
      × (delete_experiment id user_id db ≡ (ok false, db))
unfolding get_experiment get_results update_experiment add_results attach_evaluation
    delete_experiment
not_owned id user_id results evaluation updates db foreign =
    let unseen = foreign_none id user_id db.experiments foreign in
    (rw unseen refl, rw unseen refl, rw unseen refl, rw unseen refl, rw unseen refl, rw unseen refl)
