-- ===== src/Access.antt =====
-- backend/src/app/api/deps.py and csrf.py: who may call an endpoint. The headers and cookies of a request are arguments; a dependency
-- that raises answers with the status and the text of its HTTPException.
pub mod Found
pub mod Grants
pub mod Admin
pub mod Csrf
pub mod Login
mod Tests
use factorial.Prelude.{
  Text, codes, ℕ, String, Bool, true, false, not, ◌||◌, Option, none, some, List, [], ◌∷◌, str_eq,
  ◌==◌, if◌then◌else◌, select,
}
use factorial.Config.{Settings}
use factorial.Model.{User, Session}
use factorial.Database.{Database, Exec, pure, gets, get_row, ◌>>=◌, ◌>>◌}
use factorial.Account.Auth.{get_user_by_id}
use factorial.Session.{lookup_session_by_cookie, csrf_tokens_match, compare_digest}

pub record AuthUser : Type 0 where
  pub id : ℕ
  pub email : Text
  pub display_name : Option String
  pub background : Option Text
  pub is_active : Bool
  pub is_admin : Bool
  pub session_id : Option (List ℕ)
  pub family_id : Option ℕ

pub data Answer (A : Type 0) : Type 0 where
  granted : A → Answer A
  rejected : ℕ → String → Answer A
  -- a TypeError, which the server answers with 500
  crashed : Answer A

-- SERVICE_USER_ID
abbrev pub service_user_id : ℕ
service_user_id = 0

-- `_service_user`
abbrev pub service_user : AuthUser
service_user = record {
  id = service_user_id;
  email = codes "service@internal";
  display_name = some "Service Account";
  background = none;
  is_active = true;
  is_admin = false;
  session_id = none;
  family_id = none;
}

abbrev pub given : Option String → String
given none = ""
given (some s) = s

abbrev pub if_equal : {A : Type 0} → Option Bool → A → Answer A → Answer A
if_equal none a otherwise = crashed
if_equal (some equal) a otherwise = if equal then granted a else otherwise

-- A missing header and an empty one are alike.
unfoldable pub require_api_key : Settings → Option String → Answer String
require_api_key settings api_key =
    if str_eq settings.api_secret_key ""
    then rejected 500 "API key not configured on server"
    else if str_eq (given api_key) ""
    then rejected 401 "Invalid or missing API key"
    else if_equal (compare_digest (given api_key) settings.api_secret_key) (given api_key)
        (rejected 401 "Invalid or missing API key")

-- The role that the column names; `name` of it is the slug.
abbrev pub role_slug : Database → Option ℕ → Option Text
role_slug db none = none
role_slug db (some role_id) = elim (get_row (select (λ r. r.id == role_id) db.roles)) [
  | none ↦ none
  | some role ↦ some role.name
]

abbrev pub auth_user : Session → User → Option Text → AuthUser
auth_user session user slug = record {
  id = user.id;
  email = user.email;
  display_name = user.display_name;
  background = slug;
  is_active = user.is_active;
  is_admin = user.is_admin;
  session_id = some session.id;
  family_id = some session.family_id;
}

abbrev pub user_of : Session → Option User → Exec (Option AuthUser)
user_of session none = pure none
user_of session (some user) =
    if not user.is_active
    then pure none
    else gets (λ db. some (auth_user session user (role_slug db user.role_id)))

abbrev pub with_session : Option Session → Exec (Option AuthUser)
with_session none = pure none
with_session (some session) = do user ← get_user_by_id session.user_id; user_of session user

unfoldable pub get_current_user : Settings → ℕ → Option (List ℕ) → Exec (Option AuthUser)
get_current_user settings now none = pure none
get_current_user settings now (some []) = pure none
get_current_user settings now (some (c ∷ cookie)) = do
  session ← lookup_session_by_cookie settings now (c ∷ cookie)
  with_session session

unfoldable pub require_auth : Settings → Option AuthUser → Option String → Answer AuthUser
require_auth settings (some user) api_key = granted user
require_auth settings none api_key =
    if str_eq (given api_key) "" || str_eq settings.api_secret_key ""
    then rejected 401 "Not authenticated"
    else if_equal (compare_digest (given api_key) settings.api_secret_key) service_user
        (rejected 401 "Not authenticated")

abbrev pub admin_only : Answer AuthUser → Answer AuthUser
admin_only (granted user) =
    if user.is_admin then granted user else rejected 403 "Admin access required"
admin_only answer = answer

-- The dependencies as FastAPI chains them.
unfoldable pub authenticate :
    Settings → ℕ → Option (List ℕ) → Option String → Exec (Answer AuthUser)
authenticate settings now cookie api_key = do
  user ← get_current_user settings now cookie
  pure (require_auth settings user api_key)

unfoldable pub require_admin :
    Settings → ℕ → Option (List ℕ) → Option String → Exec (Answer AuthUser)
require_admin settings now cookie api_key = do
  answer ← authenticate settings now cookie api_key
  pure (admin_only answer)

-- `_PROTECTED_METHODS`
abbrev pub is_protected : String → Bool
is_protected method =
    str_eq method "POST"
    || (str_eq method "PUT" || (str_eq method "PATCH" || str_eq method "DELETE"))

unfoldable pub require_csrf :
    String → Option String → Option String → Option String → Answer (Unit {0})
require_csrf method api_key header_value cookie_value =
    if not (is_protected method)
    then granted tt
    else if not (str_eq (given api_key) "")
    then granted tt
    else if_equal (csrf_tokens_match header_value cookie_value) tt
        (rejected 403 "CSRF token missing or invalid")
