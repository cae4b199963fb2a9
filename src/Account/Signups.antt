-- ===== src/Account/Signups.antt =====
-- backend/src/app/services/signup_service.py. The token that a call draws, the UUIDs and the clock
-- are arguments.
pub mod Flow
use factorial.Prelude.{
  Text, ℕ, ◌+◌, ◌-◌, ◌*◌, String, Bool, true, false, not, ◌&&◌, ◌||◌, Option, none, some, List, [],
  ◌∷◌, ◌++◌, str_eq, ltb, ◌==◌, if◌then◌else◌, is_none, is_some, list_eq, length, take, drop,
  select, update_where,
}
use factorial.Prelude.Sorting.{order_by_desc}
use factorial.Config.{Settings, hours}
use factorial.Model.{
  User, Role, SignupRequest, SignupStatus, pending, approved, rejected, registered,
}
use factorial.Database.{
  Database, Exec, ok, value_error, integrity_error, pure, raise, gets, get_row, scalar_one_or_none,
  ◌>>=◌, ◌>>◌, raise_if, modify, signup_pending_or_approved, email_registered, both_roles, no_role,
  signup_not_found, signup_already, invalid_invite, invite_used, invite_expired, role_not_found,
}
use factorial.Account.Auth.{Bcrypt, hash_password, user_by_email, add_user, new_user, if_given}
use factorial.Account.Roles.{Unicode, create_role, get_role}

abbrev pub is_status : SignupStatus → SignupStatus → Bool
is_status pending pending = true
is_status approved approved = true
is_status rejected rejected = true
is_status registered registered = true
is_status _ _ = false

abbrev pub has_token : String → SignupRequest → Bool
has_token token s = elim s.invite_token [ none ↦ false | some t ↦ str_eq t token ]

abbrev pub signup_rows : ℕ → Database → List SignupRequest
signup_rows id db = select (λ s. s.id == id) db.signup_requests

abbrev pub write_signup : ℕ → (SignupRequest → SignupRequest) → Database → Database
write_signup id f db = record db {
  signup_requests = update_where (λ s. s.id == id) f db.signup_requests;
}

-- `id` is the primary key, and `email` is declared unique; a new row has no token.
unfoldable pub add_signup : SignupRequest → Exec (Unit {0})
add_signup signup = do
  rows ←
      gets
        (λ db. select (λ s. s.id == signup.id || list_eq s.email signup.email) db.signup_requests)
  raise_if (ltb 0 (length rows)) integrity_error
  modify (λ db. record db { signup_requests = db.signup_requests ++ signup ∷ [] })

abbrev pub new_signup : ℕ → ℕ → Text → String → Option String → Bool → SignupRequest
new_signup id now email use_case requested_role accepted_disclaimers = record {
  id = id;
  email = email;
  use_case = use_case;
  status = pending;
  requested_role = requested_role;
  role_id = none;
  invite_token = none;
  invite_expires_at = none;
  admin_note = none;
  accepted_disclaimers = accepted_disclaimers;
  disclaimers_accepted_at = if accepted_disclaimers then some now else none;
  created_at = now;
}

-- The condition of the first query of `create_signup`.
abbrev pub is_open : Text → SignupRequest → Bool
is_open email s =
    list_eq s.email email && (is_status s.status pending || is_status s.status approved)

unfoldable pub create_signup : ℕ → ℕ → Text → String → Option String → Bool → Exec SignupRequest
create_signup id now email use_case requested_role accepted_disclaimers = do
  rows ← gets (λ db. select (is_open email) db.signup_requests)
  open_request ← scalar_one_or_none rows
  raise_if (is_some open_request) (value_error signup_pending_or_approved)
  user ← user_by_email email
  raise_if (is_some user) (value_error email_registered)
  let signup = new_signup id now email use_case requested_role accepted_disclaimers
  add_signup signup
  pure signup

abbrev matches_filter : Option SignupStatus → SignupRequest → Bool
matches_filter none s = true
matches_filter (some status) s = is_status s.status status

-- The page that starts at `(page - 1) * page_size`, and the number of all that match.
unfoldable pub list_signups : Option SignupStatus → ℕ → ℕ → Exec (List SignupRequest × ℕ)
list_signups status_filter page page_size = do
  rows ← gets (λ db. select (matches_filter status_filter) db.signup_requests)
  let ordered = order_by_desc (λ s. s.created_at) rows
  pure (take page_size (drop ((page - 1) * page_size) ordered), length rows)

-- await db.get(SignupRequest, signup_id), which must be pending
unfoldable pub get_pending : ℕ → Exec SignupRequest
get_pending signup_id db = elim (get_row (signup_rows signup_id db)) [
  | none ↦ raise (value_error signup_not_found) db
  | some signup ↦
      if is_status signup.status pending
      then (ok signup, db)
      else raise (value_error signup_already) db
]

abbrev or_role_not_found : Option Role → Exec Role
or_role_not_found none = raise (value_error role_not_found)
or_role_not_found (some role) = pure role

-- The two arguments that name a role: exactly one is given.
abbrev resolve_role : Unicode → ℕ → Option ℕ → Option Text → Option String → Exec Role
resolve_role unicode new_id role_id (some name) description =
    create_role unicode new_id name description
resolve_role unicode new_id (some role_id) none description = do
  existing ← get_role role_id
  or_role_not_found existing
resolve_role unicode new_id none none description = raise (value_error no_role)

abbrev pub approve_row : Settings → ℕ → String → ℕ → SignupRequest → SignupRequest
approve_row settings now token role_id s = record s {
  status = approved;
  invite_token = some token;
  invite_expires_at = some (now + hours settings.invite_token_expire_hours);
  role_id = some role_id;
}

-- `invite_token` is declared unique.
unfoldable pub write_token : ℕ → String → (SignupRequest → SignupRequest) → Exec (Unit {0})
write_token id token f = do
  rows ← gets (λ db. select (λ s. not (s.id == id) && has_token token s) db.signup_requests)
  raise_if (ltb 0 (length rows)) integrity_error
  modify (write_signup id f)

unfoldable pub approve_signup :
    Settings
    → Unicode
    → ℕ
    → String
    → ℕ
    → ℕ
    → Option ℕ
    → Option Text
    → Option String
    → Exec SignupRequest
approve_signup settings unicode now token new_id signup_id role_id new_role_name description = do
  raise_if (is_some role_id && is_some new_role_name) (value_error both_roles)
  raise_if (is_none role_id && is_none new_role_name) (value_error no_role)
  signup ← get_pending signup_id
  role ← resolve_role unicode new_id role_id new_role_name description
  write_token signup_id token (approve_row settings now token role.id)
  pure (approve_row settings now token role.id signup)

-- if note: signup.admin_note = note
abbrev pub reject_row : Option String → SignupRequest → SignupRequest
reject_row note s = record s { status = rejected; admin_note = if_given note s.admin_note }

unfoldable pub reject_signup : ℕ → Option String → Exec SignupRequest
reject_signup signup_id note = do
  signup ← get_pending signup_id
  modify (write_signup signup_id (reject_row note))
  pure (reject_row note signup)

abbrev pub is_past : ℕ → Option ℕ → Bool
is_past now none = false
is_past now (some expires_at) = ltb expires_at now

unfoldable pub check_invite : ℕ → Option SignupRequest → Exec SignupRequest
check_invite now none = raise (value_error invalid_invite)
check_invite now (some signup) =
    if not (is_status signup.status approved)
    then raise (value_error invite_used)
    else if is_past now signup.invite_expires_at
    then raise (value_error invite_expired)
    else pure signup

unfoldable pub validate_invite_token : ℕ → String → Exec SignupRequest
validate_invite_token now token = do
  rows ← gets (λ db. select (has_token token) db.signup_requests)
  signup ← scalar_one_or_none rows
  check_invite now signup

abbrev pub registered_user : Bcrypt → ℕ → ℕ → SignupRequest → Text → Option String → User
registered_user bcrypt id now signup password display_name =
    record (new_user id now signup.email (hash_password bcrypt password) display_name) {
      role_id = signup.role_id;
    }

abbrev pub register_row : SignupRequest → SignupRequest
register_row s = record s { status = registered }

unfoldable pub complete_registration : Bcrypt → ℕ → ℕ → String → Text → Option String → Exec User
complete_registration bcrypt id now token password display_name = do
  signup ← validate_invite_token now token
  found ← user_by_email signup.email
  raise_if (is_some found) (value_error email_registered)
  let user = registered_user bcrypt id now signup password display_name
  add_user user
  modify (write_signup signup.id register_row)
  pure user
