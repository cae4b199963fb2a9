-- ===== src/Account/Auth.antt =====
-- backend/src/app/services/auth_service.py. bcrypt is a parameter: `hashpw` with a fresh salt, and
-- `checkpw`. A hash is a text; `decode` and `encode` of it are inverse and left out.
pub mod Login
use factorial.Prelude.{
  Text, ℕ, ◌+◌, ◌/◌, ◌%◌, String, Bool, true, false, not, ◌||◌, Option, none, some, List, [], ◌∷◌,
  ◌++◌, str_eq, ltb, ◌==◌, if◌then◌else◌, is_some, list_eq, length, take, select, update_where,
}
use factorial.Model.{User}
use factorial.Database.{
  Database, Exec, value_error, integrity_error, email_registered, pure, gets, get_row,
  scalar_one_or_none, ◌>>=◌, ◌>>◌, raise_if, modify,
}

pub record Bcrypt : Type 0 where
  pub hashpw : List ℕ → String
  pub checkpw : List ℕ → String → Bool

-- _BCRYPT_MAX_BYTES
abbrev pub bcrypt_max_bytes : ℕ
bcrypt_max_bytes = 72

-- .encode("utf-8"), of one code point
abbrev utf8_char : ℕ → List ℕ
utf8_char c =
    if ltb c 0x80
    then c ∷ []
    else if ltb c 0x800
    then (0xc0 + c / 64) ∷ (0x80 + c % 64) ∷ []
    else if ltb c 0x1_0000
    then (0xe0 + c / 4096) ∷ (0x80 + c / 64 % 64) ∷ (0x80 + c % 64) ∷ []
    else (0xf0 + c / 0x4_0000)
      ∷ (0x80 + c / 4096 % 64)
      ∷ (0x80 + c / 64 % 64)
      ∷ (0x80 + c % 64)
      ∷ []

unfoldable pub utf8 : Text → List ℕ
utf8 [] = []
utf8 (c ∷ text) = utf8_char c ++ utf8 text

unfoldable pub pw_bytes : Text → List ℕ
unfolding utf8
pw_bytes password = take bcrypt_max_bytes (utf8 password)

-- A row by its primary key, and a write to it through the object that holds it.
abbrev pub user_rows : ℕ → Database → List User
user_rows id db = select (λ u. u.id == id) db.users

abbrev pub write_user : ℕ → (User → User) → Database → Database
write_user id f db = record db { users = update_where (λ u. u.id == id) f db.users }

-- `id` is the primary key, and `email` is declared unique.
unfoldable pub add_user : User → Exec (Unit {0})
add_user user = do
  rows ← gets (λ db. select (λ u. u.id == user.id || list_eq u.email user.email) db.users)
  raise_if (ltb 0 (length rows)) integrity_error
  modify (λ db. record db { users = db.users ++ user ∷ [] })

-- `User(...)` with the columns that a service names; the others take their defaults.
abbrev pub new_user : ℕ → ℕ → Text → String → Option String → User
new_user id now email password_hash display_name = record {
  id = id;
  email = email;
  password_hash = password_hash;
  display_name = display_name;
  role_id = none;
  is_admin = false;
  is_active = true;
  last_login_at = none;
  last_login_ip = none;
  country = none;
  timezone = none;
  created_at = now;
}

-- if value: field = value
abbrev pub if_given : Option String → Option String → Option String
if_given none old = old
if_given (some value) old = if str_eq value "" then old else some value

-- select(User).where(User.email == email), of at most one row
unfoldable pub user_by_email : Text → Exec (Option User)
user_by_email email = do
  rows ← gets (λ db. select (λ u. list_eq u.email email) db.users)
  scalar_one_or_none rows

unfoldable pub get_user_by_id : ℕ → Exec (Option User)
get_user_by_id user_id = gets (λ db. get_row (user_rows user_id db))

unfoldable pub record_login_activity : ℕ → User → Option String → Option String → Exec (Unit {0})
record_login_activity now user ip timezone = modify (
    write_user user.id (λ u. record u {
      last_login_at = some now;
      last_login_ip = if_given ip u.last_login_ip;
      timezone = if_given timezone u.timezone;
    }))

module _ (bcrypt : Bcrypt) where
  unfoldable pub hash_password : Text → String
  unfolding pw_bytes
  hash_password password = bcrypt.hashpw (pw_bytes password)

  unfoldable pub verify_password : Text → String → Bool
  unfolding pw_bytes
  verify_password plain_password hashed_password =
      bcrypt.checkpw (pw_bytes plain_password) hashed_password

  unfoldable pub register_user : ℕ → ℕ → Text → Text → Option String → Exec User
  register_user id now email password display_name = do
    found ← user_by_email email
    raise_if (is_some found) (value_error email_registered)
    let user = new_user id now email (hash_password password) display_name
    add_user user
    pure user

  -- The tests on the row that the email finds.
  unfoldable pub check_user : Text → Option User → Option User
  check_user password none = none
  check_user password (some user) =
      if str_eq user.password_hash ""
      then none
      else if not (verify_password password user.password_hash)
      then none
      else if not user.is_active
      then none
      else some user

  unfoldable pub authenticate_user : Text → Text → Exec (Option User)
  authenticate_user email password = do user ← user_by_email email; pure (check_user password user)
