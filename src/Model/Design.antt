-- ===== src/Model/Design.antt =====
-- backend/src/app/models: experiment.py, experiment_share.py, simulator.py
use factorial.Prelude.{ℕ, Bool, Option, List, String}
use factorial.Model.Json.{Json, Dict}

pub record Experiment : Type 0 where
  pub id : ℕ
  pub user_id : ℕ
  pub name : String
  pub status : String
  pub design_type : Option String
  pub factors : Option Json
  pub design_data : Option Json
  pub results_data : Option (List Dict)
  pub evaluation_data : Option Json
  pub conversation_id : Option ℕ
  pub created_at : ℕ

pub record ExperimentShare : Type 0 where
  pub id : ℕ
  pub experiment_id : ℕ
  pub token : String
  pub created_by : Option ℕ
  pub allow_results : Bool
  pub expires_at : Option ℕ
  pub revoked_at : Option ℕ
  pub view_count : ℕ
  pub created_at : ℕ

pub record Simulator : Type 0 where
  pub id : ℕ
  pub sim_id : String
  pub user_id : ℕ
  pub conversation_id : Option ℕ
  pub public_summary : Option Json
  pub private_state : Json
  pub reveal_request_count : ℕ
  pub created_at : ℕ
