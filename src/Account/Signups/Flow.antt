-- ===== src/Account/Signups/Flow.antt =====
-- The way of a signup: pending, then approved or rejected; approved, then registered.
use factorial.Prelude.{
  Text, ℕ, ◌<◌, String, ◌≡◌, refl, sym, ap, ◌∙◌, Bool, true, false, not, ◌&&◌, ◌||◌, Option, none,
  some, [], ◌∷◌, ◌++◌, arith, ◌==◌, ==_self, list_eq, list_eq_self, length, select, select-append,
  select_none_of, select-update_where, select-update_apart, select-select, length-select-or,
  select-update_one,
}
use factorial.Config.{Settings}
use factorial.Model.{User, Role, SignupRequest, pending, approved, rejected}
use factorial.Database.{
  Database, Result, ok, err, value_error, integrity_error, signup_already, invite_used,
  invite_expired,
}
use factorial.Account.Auth.{Bcrypt, add_user, authenticate_user}
use factorial.Account.Auth.Login.{
  BcryptLaws, users_of, authenticate-hash_password, user_by_email-none,
}
use factorial.Account.Roles.{Unicode, role_rows, get_role}
use factorial.Account.Signups.{
  is_status, has_token, signup_rows, write_signup, is_open, add_signup, new_signup, create_signup,
  get_pending, approve_row, approve_signup, reject_signup, check_invite, validate_invite_token,
  registered_user, register_row, complete_registration, write_token, is_past,
}

-- A request that is no longer pending is neither approved nor rejected again, and nothing is written.
pub decided_once :
    (settings : Settings) (unicode : Unicode) (now : ℕ) (token : String)
    (new_id signup_id role_id : ℕ) (remark : Option String) (signup : SignupRequest) (db : Database)
    → signup_rows signup_id db ≡ signup ∷ []
    → is_status signup.status pending ≡ false
    → (approve_signup settings unicode now token new_id signup_id (some role_id) none none db
        ≡ (err (value_error signup_already), db))
      × (reject_signup signup_id remark db ≡ (err (value_error signup_already), db))
unfolding approve_signup reject_signup get_pending
decided_once settings unicode now token new_id signup_id role_id remark signup db row decided =
    (ground arith, ground arith)

module _ (id now : ℕ) (use_case : String) (requested_role : Option String) (accepted : Bool)
    (old : SignupRequest) (db : Database)
    (row : select (λ s. list_eq s.email old.email) db.signup_requests ≡ old ∷ []) where
  none_open : old.status ≡ rejected → select (is_open old.email) db.signup_requests ≡ []
  none_open status =
      sym (
        select-select (λ s. list_eq s.email old.email)
          (λ s. is_status s.status pending || is_status s.status approved) db.signup_requests)
      ∙ rw (row, status)

  email_taken :
      0 < length (select (λ s. s.id == id || list_eq s.email old.email) db.signup_requests)
  email_taken = omega (
    arith,
    length-select-or (λ (s : SignupRequest). s.id == id) (λ s. list_eq s.email old.email)
        db.signup_requests,
    ap length row,
  )

  add_clashes :
      add_signup (new_signup id now old.email use_case requested_role accepted) db
      ≡ (err integrity_error, db)
  unfolding add_signup
  add_clashes = ground (arith, email_taken)

  -- A request that was rejected stands in the way of a new one for its email: the check for an open
  -- request passes, and the flush meets the unique column, so what the caller gets is no ValueError.
  pub create_signup-rejected :
      old.status ≡ rejected
      → users_of old.email db ≡ []
      → create_signup id now old.email use_case requested_role accepted db
        ≡ (err integrity_error, db)
  unfolding create_signup
  create_signup-rejected status no_user =
      ground (arith, none_open status, user_by_email-none old.email db no_user, add_clashes)

module _ (bcrypt : Bcrypt) (laws : BcryptLaws bcrypt) (id now : ℕ) (token : String)
    (password : Text) (display_name : Option String) (signup : SignupRequest) (db : Database)
    (row : select (has_token token) db.signup_requests ≡ signup ∷ [])
    (is_approved : signup.status ≡ approved) where
  invite_good :
      is_past now signup.invite_expires_at ≡ false
      → validate_invite_token now token db ≡ (ok signup, db)
  unfolding validate_invite_token check_invite
  invite_good in_time = ground arith

  invite_late :
      is_past now signup.invite_expires_at ≡ true
      → validate_invite_token now token db ≡ (err (value_error invite_expired), db)
  unfolding validate_invite_token check_invite
  invite_late late = ground arith

  abbrev pub account : User
  account = registered_user bcrypt id now signup password display_name

  abbrev pub registered_db : Database
  registered_db =
      write_signup signup.id register_row (record db { users = db.users ++ account ∷ [] })

  add_account :
      select (λ u. u.id == id || list_eq u.email signup.email) db.users ≡ []
      → add_user account db ≡ (ok tt, record db { users = db.users ++ account ∷ [] })
  unfolding add_user
  add_account fresh = ground arith

  no_user_yet :
      select (λ u. u.id == id || list_eq u.email signup.email) db.users ≡ []
      → users_of signup.email db ≡ []
  no_user_yet fresh =
      select_none_of (λ u. u.id == id || list_eq u.email signup.email)
        (λ u. list_eq u.email signup.email) db.users (λ u h. ground arith) fresh

  register_good :
      is_past now signup.invite_expires_at ≡ false
      → select (λ u. u.id == id || list_eq u.email signup.email) db.users ≡ []
      → complete_registration bcrypt id now token password display_name db
        ≡ (ok account, registered_db)
  unfolding complete_registration
  register_good in_time fresh = ground (
    arith,
    invite_good in_time,
    user_by_email-none signup.email db (no_user_yet fresh),
    add_account fresh,
  )

  token_row_after :
      select (has_token token) registered_db.signup_requests ≡ register_row signup ∷ []
  token_row_after =
      select-update_where (has_token token) (λ s. s.id == signup.id) register_row db.signup_requests
        (λ s. refl)
      ∙ rw (row, ==_self signup.id)

  user_row_after :
      select (λ u. u.id == id || list_eq u.email signup.email) db.users ≡ []
      → users_of signup.email registered_db ≡ account ∷ []
  user_row_after fresh =
      select-append (λ u. list_eq u.email signup.email) db.users (account ∷ [])
      ∙ rw (no_user_yet fresh, list_eq_self signup.email)

  used_after :
      (later : ℕ)
      → validate_invite_token later token registered_db
        ≡ (err (value_error invite_used), registered_db)
  unfolding validate_invite_token check_invite
  used_after later = ground (arith, token_row_after)

  -- An invite that is past its time is refused. One that is not, for an email with no account, makes the
  -- account, with the role that was approved; its password logs in, and the invite is refused
  -- as used at any later time.
  pub complete_registration_lem :
      (later : ℕ)
      → (is_past now signup.invite_expires_at ≡ true
          → complete_registration bcrypt id now token password display_name db
            ≡ (err (value_error invite_expired), db))
        × (is_past now signup.invite_expires_at ≡ false
            → select (λ u. u.id == id || list_eq u.email signup.email) db.users ≡ []
            → (complete_registration bcrypt id now token password display_name db
                ≡ (ok account, registered_db))
              × (account.role_id ≡ signup.role_id)
              × (authenticate_user bcrypt signup.email password registered_db
                  ≡ (ok (some account), registered_db))
              × (validate_invite_token later token registered_db
                  ≡ (err (value_error invite_used), registered_db)))
  unfolding complete_registration
  complete_registration_lem later = (
    λ late. ground (arith, invite_late late),
    λ in_time fresh. (
      register_good in_time fresh,
      refl,
      authenticate-hash_password bcrypt signup.email password password account registered_db laws
          (user_row_after fresh) refl refl refl,
      used_after later,
    ),
  )

module _ (settings : Settings) (unicode : Unicode) (now : ℕ) (token : String) (new_id role_id : ℕ)
    (signup : SignupRequest) (role : Role) (db : Database)
    (row : signup_rows signup.id db ≡ signup ∷ [])
    (role_row : role_rows role_id db ≡ role ∷ []) where
  abbrev approval : Result SignupRequest × Database
  approval = approve_signup settings unicode now token new_id signup.id (some role_id) none none db

  abbrev decision : SignupRequest → SignupRequest
  decision = approve_row settings now token role.id

  approve_good :
      signup.status ≡ pending
      → select (λ s. not (s.id == signup.id) && has_token token s) db.signup_requests ≡ []
      → approval ≡ (ok (decision signup), write_signup signup.id decision db)
  unfolding approve_signup get_pending get_role write_token
  approve_good status unused = ground arith

  -- Approving a pending request with a role that exists gives it the role, the token and 72 hours (by
  -- the default settings), in one write; the requests of other ids are as they were.
  pub approve_signup_lem :
      signup.status ≡ pending
      → select (λ s. not (s.id == signup.id) && has_token token s) db.signup_requests ≡ []
      → (approval.0 ≡ ok (decision signup))
        × (signup_rows signup.id approval.1 ≡ decision signup ∷ [])
        × (select (λ s. not (s.id == signup.id)) approval.1.signup_requests
            ≡ select (λ s. not (s.id == signup.id)) db.signup_requests)
  approve_signup_lem status unused =
      let done = approve_good status unused in
      (
        ap (λ r. r.0) done,
        ap (λ r. signup_rows signup.id r.1) done
            ∙ select-update_one (λ s. s.id == signup.id) decision db.signup_requests (λ s. refl)
                (==_self signup.id) row,
        ap (λ r. select (λ s. not (s.id == signup.id)) r.1.signup_requests) done
            ∙ select-update_apart (λ s. not (s.id == signup.id)) (λ s. s.id == signup.id) decision
                db.signup_requests (λ s hit. (rw hit, rw hit)),
      )
