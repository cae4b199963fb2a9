-- ===== src/Access/Login.antt =====
-- `login` and `logout` of backend/src/app/api/v1/endpoints/auth.py, once their dependencies have passed, with the cookies of backend/src/app/api/auth_cookies.py.
-- The address of the caller, which `_client_ip` reads off the request, and the header user-agent are arguments.
pub mod Opens
use factorial.Prelude.{Text, codes, ℕ, String, Bool, true, false, Option, none, some, List}
use factorial.Config.{Settings, cookie_secure, days}
use factorial.Model.{User}
use factorial.Database.{Exec, pure, gets, ◌>>=◌, ◌>>◌}
use factorial.Account.Auth.{Bcrypt, authenticate_user, record_login_activity}
use factorial.Session.{Draws, NewSession, create_session, revoke_session}
use factorial.Access.{AuthUser, Answer, granted, rejected, role_slug}

-- Both cookies have the path "/" and samesite="lax"; a lifetime is in microseconds.
pub record Cookie : Type 0 where
  pub value : List ℕ
  pub max_age : ℕ
  pub httponly : Bool
  pub secure : Bool

pub record UserResponse : Type 0 where
  pub id : ℕ
  pub email : Text
  pub display_name : Option String
  pub background : Option Text
  pub is_admin : Bool

pub record LoginReply : Type 0 where
  pub user : UserResponse
  pub session_cookie : Cookie
  pub csrf_cookie : Cookie

abbrev pub session_cookies : Settings → NewSession → UserResponse → LoginReply
session_cookies settings new user = record {
  user = user;
  session_cookie = record {
    value = new.cookie_value;
    max_age = days settings.cookie_session_absolute_days;
    httponly = true;
    secure = cookie_secure settings;
  };
  csrf_cookie = record {
    value = codes new.csrf_token;
    max_age = days settings.cookie_session_absolute_days;
    httponly = false;
    secure = cookie_secure settings;
  };
}

abbrev pub user_response : User → Option Text → UserResponse
user_response user background = record {
  id = user.id;
  email = user.email;
  display_name = user.display_name;
  background = background;
  is_admin = user.is_admin;
}

abbrev pub log_in :
    Settings
    → Draws
    → Option String
    → Option String
    → Option String
    → Option User
    → Exec (Answer LoginReply)
log_in settings d ip user_agent timezone none = pure (rejected 401 "Invalid email or password")
log_in settings d ip user_agent timezone (some user) = do
  record_login_activity d.now user ip timezone
  new ← create_session settings d user.id user_agent ip none
  background ← gets (λ db. role_slug db user.role_id)
  pure (granted (session_cookies settings new (user_response user background)))

unfoldable pub login :
    Settings
    → Bcrypt
    → Draws
    → Option String
    → Option String
    → Text
    → Text
    → Option String
    → Exec (Answer LoginReply)
login settings bcrypt d ip user_agent email password timezone = do
  user ← authenticate_user bcrypt email password
  log_in settings d ip user_agent timezone user

-- The service account has no session.
abbrev pub revoke_own : ℕ → Option (List ℕ) → Exec (Unit {0})
revoke_own now none = pure tt
revoke_own now (some session_id) = revoke_session now session_id

-- Status 204, with both cookies cleared.
unfoldable pub logout : ℕ → AuthUser → Exec (Answer (Unit {0}))
logout now current_user = do revoke_own now current_user.session_id; pure (granted tt)
