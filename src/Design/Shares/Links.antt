-- ===== src/Design/Shares/Links.antt =====
-- Which links open, and what a visit or a revocation leaves.
use factorial.Prelude.{
  ℕ, String, ◌≡◌, refl, inl, inr, true, false, none, some, [], ◌∷◌, str_eq, ◌==◌, ==_self,
  Option-cases, select-update_where,
}
use factorial.Model.{Experiment, ExperimentShare}
use factorial.Database.{Database, ok, get_row}
use factorial.Design.Experiments.{experiment_rows, get_experiment, if_owned}
use factorial.Design.Shares.{
  share_rows, write_share, revoke_at, has_expired, revoke_share, resolve_public_share,
}

-- The link is not revoked and has not expired.
abbrev pub IsOpen : ℕ → ExperimentShare → Type 0
IsOpen now s = (s.revoked_at ≡ none) × (has_expired now s.expires_at ≡ false)

rows_of_write :
    (token : String) (f : ExperimentShare → ExperimentShare) (s : ExperimentShare) (db : Database)
    → ((x : ExperimentShare) → str_eq (f x).token token ≡ str_eq x.token token)
    → share_rows token db ≡ s ∷ []
    → share_rows token (write_share s.id f db) ≡ f s ∷ []
rows_of_write token f s db keep found =
    rw
      (
        select-update_where (λ x. str_eq x.token token) (λ x. x.id == s.id) f db.shares keep,
        found,
        ==_self s.id,
      )
      refl

-- A link that its owner revokes is refused from then on, at any time, also when it was revoked before.
pub resolve-revoke_share :
    (now later : ℕ) (token : String) (user_id : ℕ) (s : ExperimentShare) (e : Experiment)
    (db : Database)
    → share_rows token db ≡ s ∷ []
    → if_owned user_id (get_row (experiment_rows s.experiment_id db)) ≡ some e
    → ((revoke_share now token user_id db).0 ≡ ok true)
      × ((resolve_public_share later token (revoke_share now token user_id db).1).0 ≡ ok none)
unfolding revoke_share resolve_public_share get_experiment
resolve-revoke_share now later token user_id s e db found owned = elim (Option-cases s.revoked_at) [
  | inr (at, revoked) ↦ rw (found, owned, revoked) (refl, rw (found, revoked) refl)
  | inl fresh ↦
      rw (found, owned, fresh)
        (refl, rw (rows_of_write token (revoke_at now) s db (λ x. refl) found) refl)
]
