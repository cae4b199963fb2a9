-- ===== src/Design/Shares.antt =====
-- backend/src/app/services/share_service.py. The drawn token, the new id and the clock are arguments.
pub mod Links
use factorial.Prelude.{
  ℕ, ◌+◌, String, Bool, true, false, ◌||◌, Option, none, some, List, [], ◌∷◌, ◌++◌, str_eq, ltb,
  leb, ◌==◌, if◌then◌else◌, is_none, is_some, select, update_where, count_where,
}
use factorial.Prelude.Sorting.{order_by_desc}
use factorial.Config.{Settings, days}
use factorial.Model.{Experiment, ExperimentShare}
use factorial.Database.{
  Database, Exec, integrity_error, pure, raise_if, gets, modify, get_row, scalar_one_or_none, ◌>>=◌,
  ◌>>◌,
}
use factorial.Design.Experiments.{get_experiment, experiment_rows}

-- The columns `id` and `token` are unique.
abbrev clashes : ExperimentShare → ExperimentShare → Bool
clashes a b = a.id == b.id || str_eq a.token b.token

abbrev pub add_share : ExperimentShare → Exec (Unit {0})
add_share share = do
  taken ← gets (λ db. ltb 0 (count_where (clashes share) db.shares))
  raise_if taken integrity_error
  modify (λ db. record db { shares = db.shares ++ share ∷ [] })

-- What a call of `create_share` draws, and the body of the request.
pub record ShareDraws : Type 0 where
  pub id : ℕ
  pub token : String
  pub now : ℕ

abbrev expiry_or : Option ℕ → ℕ → ℕ
expiry_or none default_expiry = default_expiry
expiry_or (some expires_at) default_expiry = expires_at

abbrev pub resolved_expiry : Settings → ℕ → Option ℕ → Bool → Option ℕ
resolved_expiry settings now expires_at never_expire =
    if never_expire
    then none
    else some (expiry_or expires_at (now + days settings.share_token_expire_days))

abbrev pub new_share : Settings → ShareDraws → ℕ → ℕ → Option ℕ → Bool → Bool → ExperimentShare
new_share settings d experiment_id user_id expires_at never_expire allow_results = record {
  id = d.id;
  experiment_id = experiment_id;
  token = d.token;
  created_by = some user_id;
  allow_results = allow_results;
  expires_at = resolved_expiry settings d.now expires_at never_expire;
  revoked_at = none;
  view_count = 0;
  created_at = d.now;
}

abbrev share_of :
    Settings
    → ShareDraws
    → ℕ
    → Option ℕ
    → Bool
    → Bool
    → Option Experiment
    → Exec (Option ExperimentShare)
share_of settings d user_id expires_at never_expire allow_results none = pure none
share_of settings d user_id expires_at never_expire allow_results (some e) = do
  let share = new_share settings d e.id user_id expires_at never_expire allow_results
  add_share share
  pure (some share)

unfoldable pub create_share :
    Settings → ShareDraws → ℕ → ℕ → Option ℕ → Bool → Bool → Exec (Option ExperimentShare)
create_share settings d experiment_id user_id expires_at never_expire allow_results = do
  experiment ← get_experiment experiment_id user_id
  share_of settings d user_id expires_at never_expire allow_results experiment

abbrev shares_of : Option Experiment → Exec (Option (List ExperimentShare))
shares_of none = pure none
shares_of (some e) = gets (λ db.
    some (order_by_desc (λ s. s.created_at) (select (λ s. s.experiment_id == e.id) db.shares)))

unfoldable pub list_shares : ℕ → ℕ → Exec (Option (List ExperimentShare))
list_shares experiment_id user_id = do
  experiment ← get_experiment experiment_id user_id
  shares_of experiment

abbrev pub share_rows : String → Database → List ExperimentShare
share_rows token db = select (λ s. str_eq s.token token) db.shares

-- A write to the object is a write to the row with its primary key.
abbrev pub write_share : ℕ → (ExperimentShare → ExperimentShare) → Database → Database
write_share id f db = record db { shares = update_where (λ s. s.id == id) f db.shares }

abbrev pub revoke_at : ℕ → ExperimentShare → ExperimentShare
revoke_at now s = record s { revoked_at = some now }

abbrev revoke_owned : ℕ → ExperimentShare → Option Experiment → Exec Bool
revoke_owned now share none = pure false
revoke_owned now share (some e) = do
  modify (λ db. if is_none share.revoked_at then write_share share.id (revoke_at now) db else db)
  pure true

abbrev revoke_found : ℕ → ℕ → Option ExperimentShare → Exec Bool
revoke_found now user_id none = pure false
revoke_found now user_id (some share) = do
  experiment ← get_experiment share.experiment_id user_id
  revoke_owned now share experiment

unfoldable pub revoke_share : ℕ → String → ℕ → Exec Bool
revoke_share now token user_id = do
  rows ← gets (share_rows token)
  share ← scalar_one_or_none rows
  revoke_found now user_id share

-- expiry <= now
abbrev pub has_expired : ℕ → Option ℕ → Bool
has_expired now none = false
has_expired now (some expiry) = leb expiry now

abbrev pub add_view : ExperimentShare → ExperimentShare
add_view s = record s { view_count = s.view_count + 1 }

abbrev pub count_view :
    ExperimentShare → Option Experiment → Exec (Option (ExperimentShare × Experiment))
count_view share none = pure none
count_view share (some e) = do
  modify (write_share share.id add_view)
  pure (some (add_view share, e))

abbrev pub resolve_found : ℕ → Option ExperimentShare → Exec (Option (ExperimentShare × Experiment))
resolve_found now none = pure none
resolve_found now (some share) =
    if is_some share.revoked_at
    then pure none
    else if has_expired now share.expires_at
    then pure none
    else do
      experiment ← gets (λ db. get_row (experiment_rows share.experiment_id db))
      count_view share experiment

-- The refreshed share is the row with the view counted.
unfoldable pub resolve_public_share : ℕ → String → Exec (Option (ExperimentShare × Experiment))
resolve_public_share now token = do
  rows ← gets (share_rows token)
  share ← scalar_one_or_none rows
  resolve_found now share
