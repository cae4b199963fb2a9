-- ===== src/Agent/Simulators/Counter.antt =====
-- The counter of a simulator's reveals, from one turn of the conversation to the next.
use factorial.Prelude.{
  ℕ, String, ◌≡◌, refl, ap, ◌≢◌, inl, inr, true, Option, none, some, [], ◌∷◌, str_eq, ◌==◌, ==_iff,
  ==_self, Bool-cases, select-update_where,
}
use factorial.Model.{Simulator}
use factorial.Database.{Database, Result, ok, err}
use factorial.Agent.Simulators.{
  sim_rows, if_owned, get_simulator_by_sim_id, set_reveal_request_count, set_count, write_simulator,
  store_count,
}

rows_of_write :
    (sim_id : String) (count : ℕ) (sim : Simulator) (db : Database)
    → sim_rows sim_id db ≡ sim ∷ []
    → sim_rows sim_id (write_simulator sim.id (set_count count) db) ≡ set_count count sim ∷ []
rows_of_write sim_id count sim db found =
    rw
      (
        select-update_where (λ s. str_eq s.sim_id sim_id) (λ s. s.id == sim.id) (set_count count)
            db.simulators (λ s. refl),
        found,
        ==_self sim.id,
      )
      refl

got :
    (sim_id : String) (user_id : ℕ) (sim : Simulator) (db : Database)
    → sim_rows sim_id db ≡ sim ∷ []
    → get_simulator_by_sim_id sim_id user_id db ≡ (ok (if_owned user_id (some sim)), db)
unfolding get_simulator_by_sim_id
got sim_id user_id sim db found = rw found refl

stored :
    (sim_id : String) (user_id count : ℕ) (sim : Simulator) (db : Database)
    → sim_rows sim_id db ≡ sim ∷ []
    → set_reveal_request_count sim_id user_id count db
      ≡ store_count count (if_owned user_id (some sim)) db
unfolding set_reveal_request_count
stored sim_id user_id count sim db found =
    ap
      (λ p. elim p.0 as (λ r. Result (Option Simulator) × Database) [
        | ok a ↦ store_count count a p.1
        | err e ↦ (err e, p.1)
      ])
      (got sim_id user_id sim db found)

-- The owner of a simulator who stores a count reads that count back, with the rest of the simulator as it was;
-- any other user gets nothing and writes nothing.
pub set_reveal_request_count_lem :
    (sim_id : String) (user_id count : ℕ) (sim : Simulator) (db : Database)
    → sim_rows sim_id db ≡ sim ∷ []
    → (sim.user_id ≡ user_id
        → (get_simulator_by_sim_id sim_id user_id
            (set_reveal_request_count sim_id user_id count db).1).0
          ≡ ok (some (set_count count sim)))
      × (sim.user_id ≢ user_id → set_reveal_request_count sim_id user_id count db ≡ (ok none, db))
set_reveal_request_count_lem sim_id user_id count sim db found = (
  λ mine.
      let same : (sim.user_id == user_id) ≡ true = (==_iff sim.user_id user_id).1 mine in
      rw (stored sim_id user_id count sim db found, same)
        (rw
          (
            got sim_id user_id (set_count count sim) (write_simulator sim.id (set_count count) db)
                (rows_of_write sim_id count sim db found),
            same,
          )
          refl),
  λ other. elim (Bool-cases (sim.user_id == user_id)) [
    | inl same ↦ absurd (other ((==_iff sim.user_id user_id).0 same))
    | inr differs ↦ rw (stored sim_id user_id count sim db found, differs) refl
  ],
)
