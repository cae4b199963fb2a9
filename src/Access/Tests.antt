-- ===== src/Access/Tests.antt =====
-- Access at small inputs.
use factorial.Prelude.{
  str_eq, All, ◌+◌, ◌<◌, Option, String, codes, ℕ, zero, suc, ◌≡◌, refl, ◌↔◌, ◌⊎◌, true, false,
  none, some, List, [], ◌∷◌, arith,
}
use factorial.Config.{Settings, default_settings}
use factorial.Model.{User, Session}
use factorial.Database.{Database, ok, empty}
use factorial.Account.Auth.{new_user, get_user_by_id}
use factorial.Session.{
  compare_digest, csrf_tokens_match, lookup_session_by_cookie, lookup_by_id, check_session, touch,
  new_row,
}
use factorial.Session.Cookie.{decode_id}
use factorial.Access.{
  auth_user, AuthUser, granted, rejected, crashed, service_user, is_protected, get_current_user,
  require_auth, authenticate, require_admin, require_csrf,
}
use factorial.Account.Auth.{Bcrypt, authenticate_user, check_user, verify_password, user_by_email}
use factorial.Session.{Draws}
use factorial.Session.Cookie.{IsByte}
use factorial.Session.Lookup.{rows_of}
use factorial.Config.{days}
use factorial.Access.Login.{login, logout}
use factorial.Access.Login.Opens.{reply, opened, login-authenticate}
use factorial.Access.Grants.{IsLoggedIn, IsService, authenticate-grants}
use factorial.Access.Admin.{require_admin-grants}
use factorial.Access.Csrf.{HaveKey, HaveToken, require_csrf_iff}

abbrev settings : Settings
settings = record default_settings { api_secret_key = "secret" }

-- A key opens the endpoints of users, and not those of administrators.
service_example :
    ((authenticate settings 0 none (some "secret") empty).0 ≡ ok (granted service_user))
    × ((require_admin settings 0 none (some "secret") empty).0
        ≡ ok (rejected 403 "Admin access required"))
unfolding require_admin authenticate get_current_user require_auth compare_digest
service_example = (refl, refl)

-- A header that is not ASCII is no wrong key: comparing it raises.
crash_example : require_auth settings none (some "é") ≡ crashed
unfolding require_auth compare_digest
crash_example = refl

-- A wrong key in the header is enough to leave out the token.
skipped_example : require_csrf "POST" (some "wrong") none none ≡ granted tt
unfolding require_csrf
skipped_example = refl

authenticate-grants_example :
    IsLoggedIn 0 none service_user empty ⊎ IsService settings 0 (some "secret") service_user
unfolding authenticate get_current_user require_auth compare_digest
authenticate-grants_example =
    authenticate-grants settings 0 none (some "secret") service_user empty refl

require_csrf_iff_example :
    (require_csrf "POST" none (some "t") (some "t") ≡ granted tt)
    ↔ ((is_protected "POST" ≡ false) ⊎ (HaveKey none ⊎ HaveToken (some "t") (some "t")))
require_csrf_iff_example = require_csrf_iff "POST" none (some "t") (some "t")

abbrev zeros : ℕ → List ℕ
zeros zero = []
zeros (suc n) = 0 ∷ zeros n

abbrev raw_id : List ℕ
raw_id = 251 ∷ 255 ∷ zeros 30

abbrev row : Session
row =
    new_row settings
      (record { now = 1_000; raw_id = raw_id; csrf_token = "csrf"; public_id = 7; family_id = 70 })
      5 none none none

abbrev admin : User
admin = record (new_user 5 10 (codes "aomega arithb.c") "hash" none) { is_admin = true }

abbrev db : Database
db = record empty { users = admin ∷ []; sessions = row ∷ [] }

abbrev rest : List ℕ
rest = codes "_8AAAAAAAAAAAAAAAAAAAAAAAAAAAAAAAAAAAAAAAA"

read_back : decode_id (b'-' ∷ rest) ≡ some raw_id
unfolding decode_id
read_back = refl

abbrev seen : AuthUser
seen = auth_user row admin none

require_admin-grants_example :
    ((require_admin settings 2_000 (some (b'-' ∷ rest)) none db).0 ≡ ok (granted seen))
    ↔ (IsLoggedIn 2_000 (some (b'-' ∷ rest)) seen db × (seen.is_admin ≡ true))
require_admin-grants_example = require_admin-grants settings 2_000 (some (b'-' ∷ rest)) none seen db

-- The admin of this database is let pass.
admin_passes : (require_admin settings 2_000 (some (b'-' ∷ rest)) none db).0 ≡ ok (granted seen)
unfolding require_admin authenticate get_current_user require_auth get_user_by_id
    lookup_session_by_cookie lookup_by_id check_session touch decode_id
admin_passes = refl

-- A token that is not ASCII is no wrong token: comparing it raises.
csrf_crash_example : require_csrf "POST" none (some "é") (some "é") ≡ crashed
unfolding require_csrf csrf_tokens_match compare_digest
csrf_crash_example = refl

-- A bcrypt that hashes by a constant, and takes every password for it.
abbrev bcrypt : Bcrypt
bcrypt = record { hashpw = λ password. "hash"; checkpw = λ password hash. str_eq hash "hash" }

abbrev ann_db : Database
ann_db = record empty { users = admin ∷ [] }

abbrev draws : Draws
draws = record { now = 1_000; raw_id = raw_id; csrf_token = "csrf"; public_id = 7; family_id = 70 }

abbrev raw_bytes : All IsByte raw_id
raw_bytes = omega arith

login-authenticate_example :
    (login settings bcrypt draws none none (codes "aomega arithb.c") (codes "pw") none ann_db ≡ (
      ok (granted (reply settings draws none none admin ann_db)),
      opened settings draws none none none admin ann_db,
    ))
    × ((later : ℕ) (api_key : Option String)
        → later < 1_000 + days 30
        → later < 1_000 + days 180
        → (u : AuthUser) × ((authenticate settings later
              (some (reply settings draws none none admin ann_db).session_cookie.value)
              api_key
              (opened settings draws none none none admin ann_db)).0
            ≡ ok (granted u))
          × ((u.id ≡ 5) × (u.is_admin ≡ true)))
    × ((seen now later : ℕ) (u : AuthUser) (then_db at_logout : Database) (s : Session)
        → (authenticate settings seen
            (some (reply settings draws none none admin ann_db).session_cookie.value)
            none
            then_db).0
          ≡ ok (granted u)
        → rows_of raw_id at_logout ≡ s ∷ []
        → (authenticate settings later
            (some (reply settings draws none none admin ann_db).session_cookie.value)
            none
            (logout now u at_logout).1).0
          ≡ ok (rejected 401 "Not authenticated"))
unfolding authenticate_user check_user verify_password user_by_email
login-authenticate_example =
    login-authenticate settings bcrypt draws none none none (codes "aomega arithb.c") (codes "pw")
      admin ann_db refl refl refl raw_bytes refl refl
