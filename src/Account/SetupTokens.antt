-- ===== src/Account/SetupTokens.antt =====
-- backend/src/app/services/setup_token_service.py
pub mod SingleUse
use factorial.Prelude.{
  Text, ℕ, ◌+◌, String, not, ◌&&◌, ◌||◌, Option, none, some, List, [], ◌∷◌, ◌++◌, str_eq, ltb, ◌==◌,
  if◌then◌else◌, is_some, list_eq, length, select, update_where,
}
use factorial.Config.{Settings, hours}
use factorial.Model.{User, SetupToken}
use factorial.Database.{
  Database, Exec, value_error, integrity_error, pure, raise, gets, get_row, scalar_one_or_none,
  ◌>>=◌, ◌>>◌, raise_if, modify, invalid_purpose, link_used, link_expired, invalid_link,
  user_not_found,
}
use Prim.Native.String.{◌++◌ as append}
use factorial.Account.Auth.{Bcrypt, hash_password, user_rows, write_user}

-- SETUP and RESET
abbrev pub setup_purpose : String
setup_purpose = "setup"

abbrev pub reset_purpose : String
reset_purpose = "reset"

-- `id` is the primary key, and `token` is declared unique.
unfoldable pub add_token : SetupToken → Exec (Unit {0})
add_token token = do
  rows ← gets (λ db. select (λ t. t.id == token.id || str_eq t.token token.token) db.setup_tokens)
  raise_if (ltb 0 (length rows)) integrity_error
  modify (λ db. record db { setup_tokens = db.setup_tokens ++ token ∷ [] })

abbrev pub new_token : Settings → ℕ → ℕ → String → User → String → SetupToken
new_token settings id now token user purpose = record {
  id = id;
  user_id = user.id;
  token = token;
  purpose = purpose;
  expires_at = now + hours settings.invite_token_expire_hours;
  used_at = none;
}

unfoldable pub issue_token : Settings → ℕ → ℕ → String → User → String → Exec SetupToken
issue_token settings id now token user purpose = do
  raise_if (not (str_eq purpose setup_purpose || str_eq purpose reset_purpose))
      (value_error invalid_purpose)
  let row = new_token settings id now token user purpose
  add_token row
  pure row

unfoldable pub ensure_usable : ℕ → SetupToken → Exec (Unit {0})
ensure_usable now token = do
  raise_if (is_some token.used_at) (value_error link_used)
  raise_if (ltb token.expires_at now) (value_error link_expired)

abbrev or_invalid : {A : Type 0} → Option A → Exec A
or_invalid none = raise (value_error invalid_link)
or_invalid (some a) = pure a

abbrev if_active : Option User → Option User
if_active none = none
if_active (some user) = if user.is_active then some user else none

abbrev pub token_rows : String → Database → List SetupToken
token_rows raw_token db = select (λ t. str_eq t.token raw_token) db.setup_tokens

unfoldable pub validate_token : ℕ → String → Exec (SetupToken × User)
unfolding ensure_usable
validate_token now raw_token = do
  rows ← gets (token_rows raw_token)
  found ← scalar_one_or_none rows
  token ← or_invalid found
  ensure_usable now token
  user ← gets (λ db. get_row (user_rows token.user_id db))
  user ← or_invalid (if_active user)
  pure (token, user)

abbrev pub write_setup_token : ℕ → (SetupToken → SetupToken) → Database → Database
write_setup_token id f db = record db {
  setup_tokens = update_where (λ t. t.id == id) f db.setup_tokens;
}

-- After a valid token: the new hash, and the mark that the token is used.
abbrev pub redeem : Bcrypt → ℕ → Text → SetupToken × User → Exec User
redeem bcrypt now new_password (token, user) = do
  modify (write_user user.id (λ u. record u { password_hash = hash_password bcrypt new_password }))
  modify (write_setup_token token.id (λ t. record t { used_at = some now }))
  pure (record user { password_hash = hash_password bcrypt new_password })

unfoldable pub consume_token : Bcrypt → ℕ → String → Text → Exec User
consume_token bcrypt now raw_token new_password = do
  found ← validate_token now raw_token
  redeem bcrypt now new_password found

unfoldable pub find_active_user_by_email : Text → Exec (Option User)
find_active_user_by_email email = do
  rows ← gets (λ db. select (λ u. list_eq u.email email && u.is_active) db.users)
  scalar_one_or_none rows

unfoldable pub build_setup_url : Settings → SetupToken → String
build_setup_url settings token =
    let path = if str_eq token.purpose setup_purpose then "/auth/setup" else "/auth/reset" in
    append settings.frontend_url (append path (append "?token=" token.token))

unfoldable pub issue_token_by_user_id : Settings → ℕ → ℕ → String → ℕ → String → Exec SetupToken
issue_token_by_user_id settings id now token user_id purpose db =
    elim (get_row (user_rows user_id db)) [
      | none ↦ raise (value_error user_not_found) db
      | some user ↦ issue_token settings id now token user purpose db
    ]
