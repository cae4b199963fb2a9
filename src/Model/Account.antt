-- ===== src/Model/Account.antt =====
-- backend/src/app/models: user.py, role.py, signup_request.py, setup_token.py, session.py
use factorial.Prelude.{ℕ, Bool, Option, List, String, Text}

pub record User : Type 0 where
  pub id : ℕ
  pub email : Text
  pub password_hash : String
  pub display_name : Option String
  pub role_id : Option ℕ
  pub is_admin : Bool
  pub is_active : Bool
  pub last_login_at : Option ℕ
  pub last_login_ip : Option String
  pub country : Option String
  pub timezone : Option String
  pub created_at : ℕ

pub record Role : Type 0 where
  pub id : ℕ
  pub name : Text
  pub description : Option String
  pub is_builtin : Bool

-- The texts that the column `status` holds.
pub data SignupStatus : Type 0 where
  pending approved rejected registered : SignupStatus

pub record SignupRequest : Type 0 where
  pub id : ℕ
  pub email : Text
  pub use_case : String
  pub status : SignupStatus
  pub requested_role : Option String
  pub role_id : Option ℕ
  pub invite_token : Option String
  pub invite_expires_at : Option ℕ
  pub admin_note : Option String
  pub accepted_disclaimers : Bool
  pub disclaimers_accepted_at : Option ℕ
  pub created_at : ℕ

-- `purpose` is the text SETUP or RESET; the service refuses any other.
pub record SetupToken : Type 0 where
  pub id : ℕ
  pub user_id : ℕ
  pub token : String
  pub purpose : String
  pub expires_at : ℕ
  pub used_at : Option ℕ

-- `id` is the list of the 32 bytes of the credential.
pub record Session : Type 0 where
  pub id : List ℕ
  pub public_id : ℕ
  pub user_id : ℕ
  pub family_id : ℕ
  pub created_at : ℕ
  pub last_used_at : ℕ
  pub idle_expires_at : ℕ
  pub absolute_expires_at : ℕ
  pub revoked_at : Option ℕ
  pub user_agent : Option String
  pub ip : Option String
