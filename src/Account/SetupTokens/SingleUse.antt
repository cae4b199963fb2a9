-- ===== src/Account/SetupTokens/SingleUse.antt =====
-- A setup link works once, for an active user, until it expires.
use factorial.Prelude.{
  Text, ℕ, ◌≤◌, ◌<◌, String, ◌≡◌, refl, ◌∙◌, true, false, none, some, [], ◌∷◌, arith, str_eq, ◌==◌,
  ==_self, is_some, list_eq, select-update_where,
}
use factorial.Model.{User, SetupToken}
use factorial.Database.{Database, ok, err, value_error, invalid_link, link_used, link_expired}
use factorial.Account.Auth.{Bcrypt, hash_password, user_rows, write_user, authenticate_user}
use factorial.Account.Auth.Login.{BcryptLaws, users_of, authenticate-hash_password}
use factorial.Account.SetupTokens.{token_rows, validate_token, consume_token, write_setup_token}

module _ (now : ℕ) (raw : String) (token : SetupToken) (db : Database)
    (row : token_rows raw db ≡ token ∷ []) where
  validate_used :
      is_some token.used_at ≡ true → validate_token now raw db ≡ (err (value_error link_used), db)
  unfolding validate_token
  validate_used used = ground arith

  validate_expired :
      token.used_at ≡ none
      → token.expires_at < now
      → validate_token now raw db ≡ (err (value_error link_expired), db)
  unfolding validate_token
  validate_expired unused late = ground arith

  validate_orphan :
      token.used_at ≡ none
      → now ≤ token.expires_at
      → user_rows token.user_id db ≡ []
      → validate_token now raw db ≡ (err (value_error invalid_link), db)
  unfolding validate_token
  validate_orphan unused in_time gone = ground arith

  module _ (user : User) (owner : user_rows token.user_id db ≡ user ∷ []) where
    validate_inactive :
        token.used_at ≡ none
        → now ≤ token.expires_at
        → user.is_active ≡ false
        → validate_token now raw db ≡ (err (value_error invalid_link), db)
    unfolding validate_token
    validate_inactive unused in_time inactive = ground arith

    validate_good :
        token.used_at ≡ none
        → now ≤ token.expires_at
        → user.is_active ≡ true
        → validate_token now raw db ≡ (ok (token, user), db)
    unfolding validate_token
    validate_good unused in_time active = ground arith

    -- A link with one row and one owner is good for that owner exactly when it is not used, not
    -- expired, and the owner is active; each refusal has its own message, the first that
    -- applies in this order, and writes nothing.
    pub validate_token_lem :
        (is_some token.used_at ≡ true
          → validate_token now raw db ≡ (err (value_error link_used), db))
        × (token.used_at ≡ none
            → token.expires_at < now
            → validate_token now raw db ≡ (err (value_error link_expired), db))
        × (token.used_at ≡ none
            → now ≤ token.expires_at
            → user.is_active ≡ false
            → validate_token now raw db ≡ (err (value_error invalid_link), db))
        × (token.used_at ≡ none
            → now ≤ token.expires_at
            → user.is_active ≡ true
            → validate_token now raw db ≡ (ok (token, user), db))
    validate_token_lem = (validate_used, validate_expired, validate_inactive, validate_good)

module _ (bcrypt : Bcrypt) (laws : BcryptLaws bcrypt) (now : ℕ) (raw : String) (new_password : Text)
    (token : SetupToken) (user : User) (db : Database) (row : token_rows raw db ≡ token ∷ [])
    (owner : user_rows token.user_id db ≡ user ∷ [])
    (email_row : users_of user.email db ≡ user ∷ []) where
  abbrev pub set_hash : User → User
  set_hash u = record u { password_hash = hash_password bcrypt new_password }

  abbrev pub mark_used : SetupToken → SetupToken
  mark_used t = record t { used_at = some now }

  abbrev pub redeemed : Database
  redeemed = write_setup_token token.id mark_used (write_user user.id set_hash db)

  token_row_after : token_rows raw redeemed ≡ mark_used token ∷ []
  token_row_after =
      select-update_where (λ t. str_eq t.token raw) (λ t. t.id == token.id) mark_used
        db.setup_tokens (λ t. refl)
      ∙ rw (row, ==_self token.id)

  user_row_after : users_of user.email redeemed ≡ set_hash user ∷ []
  user_row_after =
      select-update_where (λ u. list_eq u.email user.email) (λ u. u.id == user.id) set_hash db.users
        (λ u. refl)
      ∙ rw (email_row, ==_self user.id)

  -- Redeeming a good link sets the password: the user logs in with it. The link then is used, and is
  -- refused at any later time.
  pub consume_token_lem :
      (later : ℕ)
      → token.used_at ≡ none
      → now ≤ token.expires_at
      → user.is_active ≡ true
      → (consume_token bcrypt now raw new_password db ≡ (ok (set_hash user), redeemed))
        × (validate_token later raw redeemed ≡ (err (value_error link_used), redeemed))
        × (authenticate_user bcrypt user.email new_password redeemed
            ≡ (ok (some (set_hash user)), redeemed))
  unfolding consume_token
  consume_token_lem later unused in_time active = (
    ground (arith, validate_good now raw token db row user owner unused in_time active),
    validate_used later raw (mark_used token) redeemed token_row_after refl,
    authenticate-hash_password bcrypt user.email new_password new_password (set_hash user) redeemed
        laws user_row_after refl active refl,
  )
