-- ===== src/Export/View.antt =====
-- `get_public_experiment` of backend/src/app/api/v1/endpoints/shares_public.py, and the snapshot that it answers with.
use factorial.Prelude.{
  ◌≡◌, refl, ℕ, String, Bool, false, Option, none, some, List, ◌==◌, if◌then◌else◌, select,
}
use factorial.Model.{User, Experiment, ExperimentShare}
use factorial.Model.Json
use factorial.Model.Json.{Json, Dict}
use factorial.Database.{Exec, pure, gets, get_row, ◌>>=◌}
use factorial.Design.Shares.{resolve_public_share}
use factorial.Access.{Answer, granted, rejected, crashed}
use factorial.Export.{dict_or_empty}

pub record PublicExperimentView : Type 0 where
  pub id : ℕ
  pub name : String
  pub design_type : Option String
  pub n_runs : Option Json
  pub n_factors : Option Json
  pub factors : Option Json
  pub design_data : Option Json
  pub results_data : Option (List Dict)
  pub evaluation_data : Option Json
  pub owner_display_name : Option String
  pub view_count : ℕ
  pub expires_at : Option ℕ
  pub created_at : ℕ
  pub allow_results : Bool
  pub token : String

abbrev pub display_name_of : Option User → Option String
display_name_of none = none
display_name_of (some user) = user.display_name

abbrev pub owner_display_name : ℕ → Exec (Option String)
owner_display_name user_id =
    gets (λ db. display_name_of (get_row (select (λ u. u.id == user_id) db.users)))

abbrev pub view_with :
    ExperimentShare → Experiment → Option String → Option Dict → Answer PublicExperimentView
view_with share e owner none = crashed
view_with share e owner (some design_data) = granted (record {
  id = e.id;
  name = e.name;
  design_type = e.design_type;
  n_runs = Json.lookup "n_runs" design_data;
  n_factors = Json.lookup "n_factors" design_data;
  factors = e.factors;
  design_data = e.design_data;
  results_data = if share.allow_results then e.results_data else none;
  evaluation_data = e.evaluation_data;
  owner_display_name = owner;
  view_count = share.view_count;
  expires_at = share.expires_at;
  created_at = e.created_at;
  allow_results = share.allow_results;
  token = share.token;
})

unfoldable pub public_view :
    ExperimentShare → Experiment → Option String → Answer PublicExperimentView
public_view share e owner = view_with share e owner (dict_or_empty e.design_data)

abbrev pub view_of : Option (ExperimentShare × Experiment) → Exec (Answer PublicExperimentView)
view_of none = pure (rejected 404 "Share not found")
view_of (some (share, e)) = do
  owner ← owner_display_name e.user_id
  pure (public_view share e owner)

unfoldable pub get_public_experiment : ℕ → String → Exec (Answer PublicExperimentView)
unfolding public_view
get_public_experiment now token = do resolved ← resolve_public_share now token; view_of resolved

view_with-hides :
    (share : ExperimentShare) (e : Experiment) (owner : Option String)
    (results : Option (List Dict)) (d : Option Dict)
    → share.allow_results ≡ false
    → view_with share (record e { results_data = results }) owner d ≡ view_with share e owner d
view_with-hides share e owner results none hidden = refl
view_with-hides share e owner results (some d) hidden = rw hidden refl

-- A link without results shows the same snapshot whatever results are stored.
public_view-hides :
    (share : ExperimentShare) (e : Experiment) (owner : Option String)
    (results : Option (List Dict))
    → share.allow_results ≡ false
    → public_view share (record e { results_data = results }) owner ≡ public_view share e owner
unfolding public_view
public_view-hides share e owner results hidden =
    view_with-hides share e owner results (dict_or_empty e.design_data) hidden
