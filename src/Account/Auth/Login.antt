-- ===== src/Account/Auth/Login.antt =====
-- Who can log in with which password.
use factorial.Prelude.{
  Text, ℕ, ◌≡◌, ◌⊎◌, true, false, none, some, List, [], ◌∷◌, arith, str_eq, list_eq, select,
}
use factorial.Model.{User}
use factorial.Database.{Database, ok}
use factorial.Account.Auth.{
  Bcrypt, pw_bytes, hash_password, verify_password, check_user, user_by_email, authenticate_user,
}

-- What bcrypt documents: a password fits its own hash, and no hash is the empty text.
pub record BcryptLaws (bcrypt : Bcrypt) : Type 0 where
  pub check_self : (password : List ℕ) → bcrypt.checkpw password (bcrypt.hashpw password) ≡ true
  pub hash_nonempty : (password : List ℕ) → str_eq (bcrypt.hashpw password) "" ≡ false

abbrev pub users_of : Text → Database → List User
users_of email db = select (λ u. list_eq u.email email) db.users

pub user_by_email-one :
    (email : Text) (user : User) (db : Database)
    → users_of email db ≡ user ∷ []
    → user_by_email email db ≡ (ok (some user), db)
unfolding user_by_email
user_by_email-one email user db row = ground arith

pub user_by_email-none :
    (email : Text) (db : Database) → users_of email db ≡ [] → user_by_email email db ≡ (ok none, db)
unfolding user_by_email
user_by_email-none email db row = ground arith

module _ (bcrypt : Bcrypt) (email password : Text) (user : User) (db : Database)
    (row : users_of email db ≡ user ∷ []) where
  authenticate-check :
      authenticate_user bcrypt email password db ≡ (ok (check_user bcrypt password (some user)), db)
  unfolding authenticate_user
  authenticate-check = ground (arith, user_by_email-one email user db row)

  -- Who gets in by an email that one row has: the user of that row, if it is active, has a
  -- password set, and bcrypt accepts the first 72 bytes of the password for it; nobody else. A login
  -- attempt writes nothing.
  pub authenticate_user_lem :
      (str_eq user.password_hash "" ≡ false
        → bcrypt.checkpw (pw_bytes password) user.password_hash ≡ true
        → user.is_active ≡ true
        → authenticate_user bcrypt email password db ≡ (ok (some user), db))
      × ((str_eq user.password_hash "" ≡ true)
            ⊎ (bcrypt.checkpw (pw_bytes password) user.password_hash ≡ false)
            ⊎ (user.is_active ≡ false)
          → authenticate_user bcrypt email password db ≡ (ok none, db))
  unfolding check_user verify_password
  authenticate_user_lem = (
    λ set fits active. ground (arith, authenticate-check),
    λ out. ground (arith, authenticate-check),
  )

pub authenticate-hash_password :
    (bcrypt : Bcrypt) (email password other : Text) (user : User) (db : Database)
    → BcryptLaws bcrypt
    → users_of email db ≡ user ∷ []
    → user.password_hash ≡ hash_password bcrypt password
    → user.is_active ≡ true
    → pw_bytes other ≡ pw_bytes password
    → authenticate_user bcrypt email other db ≡ (ok (some user), db)
unfolding hash_password
authenticate-hash_password bcrypt email password other user db laws row hash active same =
    (authenticate_user_lem bcrypt email other user db row).0
      (rw hash (laws.hash_nonempty (pw_bytes password)))
      (rw (hash, same) (laws.check_self (pw_bytes password))) active
