-- ===== src/Account/Tests.antt =====
-- The account services at small inputs.
use factorial.Prelude.{
  codes, ℕ, ◌+◌, ◌≤◌, ◌≡◌, refl, true, false, ◌&&◌, ◌||◌, none, some, [], ◌∷◌, ◌++◌, arith, leb,
  ◌==◌, if◌then◌else◌, list_eq, length, select, All,
}
use factorial.Config.{default_settings}
use factorial.Model.{User, Role, SignupRequest, rejected, SetupToken}
use factorial.Database.{
  Database, ok, err, empty, last_admin_demoted, value_error, integrity_error, invite_used,
  invite_expired, link_used,
}
use factorial.Account.Auth.{Bcrypt, new_user, hash_password, authenticate_user}
use factorial.Account.Auth.Login.{BcryptLaws}
use factorial.Account.Roles.{
  Unicode, is_slug_char, create_role, normalize_slug, validate_slug, get_role_by_name, add_role,
  lower_text, lstrip, rstrip, slug_re_match,
}
use factorial.Account.Roles.Slug.{UnicodeLaws, create_role-IsSlug}
use factorial.Account.Admins.{set_admin, set_active}
use factorial.Account.Admins.LastAdmin.{
  IsGiven, admins, active_admins, set_admin-keeps_admin, set_active-strands,
}
use factorial.Account.Signups.{
  new_signup, approve_row, create_signup, complete_registration, validate_invite_token, is_past,
  registered_user,
}
use factorial.Account.Signups.Flow.{
  create_signup-rejected, complete_registration_lem, registered_db,
}
use factorial.Account.SetupTokens.{validate_token, consume_token}
use factorial.Account.SetupTokens.SingleUse.{consume_token_lem, redeemed}

-- A stand-in for bcrypt that accepts every password for every hash.
abbrev open_door : Bcrypt
open_door = record { hashpw = λ password. "hash"; checkpw = λ password hash. true }

open_door_laws : BcryptLaws open_door
open_door_laws = record { check_self = λ password. refl; hash_nonempty = λ password. refl }

-- The ASCII part of the interpreter's table.
abbrev ascii_lower : ℕ → ℕ
ascii_lower c = if leb b'A' c && leb c b'Z' then c + 32 else c

abbrev ascii : Unicode
ascii = record {
  lower = λ c. ascii_lower c ∷ [];
  is_space = λ c. c == b' ' || (leb 9 c && leb c 13);
}

ascii_laws : UnicodeLaws ascii
ascii_laws = record {
  lower_nonempty = λ c e. cc;
  lower_not_newline = λ c solid. (λ e. ground arith, tt);
}

abbrev ann : User
ann = record (new_user 1 10 (codes "ann@x.org") "hash" none) { is_admin = true }

abbrev bob : User
bob = record (new_user 2 20 (codes "bob@x.org") "hash" none) { is_admin = true; is_active = false }

abbrev engineer : Role
engineer = record { id = 4; name = codes "engineer"; description = none; is_builtin = true }

abbrev request : SignupRequest
request = new_signup 9 30 (codes "eve@x.org") "testing" none true

abbrev link : SetupToken
link = record {
  id = 3;
  user_id = 1;
  token = "t0k3n";
  purpose = "reset";
  expires_at = 1_000;
  used_at = none;
}

abbrev db : Database
db = record empty {
  users = ann ∷ bob ∷ [];
  roles = engineer ∷ [];
  signup_requests = request ∷ [];
  setup_tokens = link ∷ [];
}

abbrev approved_request : SignupRequest
approved_request = approve_row default_settings 40 "invite" 4 request

abbrev approved_db : Database
approved_db = record db { signup_requests = approved_request ∷ [] }

abbrev rejected_request : SignupRequest
rejected_request = record request { status = rejected }

abbrev rejected_db : Database
rejected_db = record db { signup_requests = rejected_request ∷ [] }

slug_test : normalize_slug ascii (codes " Chemical-Engineer II\n") ≡ codes "chemical_engineer_ii"
unfolding normalize_slug lstrip rstrip lower_text
slug_test = refl

-- `$` accepts a newline at the end, which `normalize_slug` has stripped.
slug_newline : (slug_re_match (codes "abc\n") ≡ true) × (slug_re_match (codes "a c") ≡ false)
unfolding slug_re_match
slug_newline = (refl, refl)

abbrev new_role : Role
new_role = record { id = 8; name = codes "qa_2"; description = none; is_builtin = false }

create_role-IsSlug_example :
    All (λ c. is_slug_char c ≡ true) new_role.name
    × (1 ≤ length new_role.name)
    × (length new_role.name ≤ 50)
    × ((create_role ascii 8 (codes "QA 2") none db).1.roles ≡ db.roles ++ new_role ∷ [])
unfolding create_role validate_slug get_role_by_name add_role normalize_slug lstrip rstrip
    lower_text slug_re_match
create_role-IsSlug_example =
    create_role-IsSlug ascii 8 (codes "QA 2") none new_role db ascii_laws refl

set_admin-keeps_admin_example :
    (ann.is_admin ≡ true
      → admins db ≤ 1
      → set_admin ann false db ≡ (err (value_error last_admin_demoted), db))
    × (2 ≤ admins db → IsGiven ann db refl false (set_admin ann false db))
    × (ann.is_admin ≡ false → IsGiven ann db refl false (set_admin ann false db))
    × IsGiven ann db refl true (set_admin ann true db)
    × (1 ≤ admins db → 1 ≤ admins (set_admin ann false db).1)
set_admin-keeps_admin_example = set_admin-keeps_admin ann db refl false

set_active-strands_example :
    ((set_active ann false db).0 ≡ ok (record ann { is_active = false }))
    × (active_admins (set_active ann false db).1 ≡ 0)
set_active-strands_example = set_active-strands ann db refl refl refl refl (omega arith)

create_signup-rejected_example :
    create_signup 12 60 (codes "eve@x.org") "please" none true rejected_db
    ≡ (err integrity_error, rejected_db)
create_signup-rejected_example =
    create_signup-rejected 12 60 "please" none true rejected_request rejected_db refl refl refl

complete_registration_example :
    let account = registered_user open_door 21 70 approved_request (codes "pw") none in
    let after =
      registered_db open_door open_door_laws 21 70 "invite"
        (codes "pw")
        none
        approved_request
        approved_db
        refl
        refl in
    (is_past 70 approved_request.invite_expires_at ≡ true
      → complete_registration open_door 21 70 "invite" (codes "pw") none approved_db
        ≡ (err (value_error invite_expired), approved_db))
    × (is_past 70 approved_request.invite_expires_at ≡ false
        → select (λ u. u.id == 21 || list_eq u.email approved_request.email) approved_db.users ≡ []
        → (complete_registration open_door 21 70 "invite" (codes "pw") none approved_db
            ≡ (ok account, after))
          × (account.role_id ≡ approved_request.role_id)
          × (authenticate_user open_door approved_request.email (codes "pw") after
              ≡ (ok (some account), after))
          × (validate_invite_token 80 "invite" after ≡ (err (value_error invite_used), after)))
complete_registration_example =
    complete_registration_lem open_door open_door_laws 21 70 "invite" (codes "pw") none
      approved_request approved_db refl refl 80

consume_token_example :
    let after =
      redeemed open_door open_door_laws 500 "t0k3n" (codes "pw") link ann db refl refl refl in
    let ann' = record ann { password_hash = hash_password open_door (codes "pw") } in
    (consume_token open_door 500 "t0k3n" (codes "pw") db ≡ (ok ann', after))
    × (validate_token 600 "t0k3n" after ≡ (err (value_error link_used), after))
    × (authenticate_user open_door (codes "ann@x.org") (codes "pw") after ≡ (ok (some ann'), after))
consume_token_example =
    consume_token_lem open_door open_door_laws 500 "t0k3n" (codes "pw") link ann db refl refl refl
      600 refl (omega arith) refl
