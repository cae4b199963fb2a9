-- ===== src/Access/Login/Opens.antt =====
-- A login, the requests with its cookie, and the logout.
use factorial.Prelude.{
  Text, ℕ, ◌+◌, ◌<◌, String, ◌≡◌, refl, sym, ap, ◌∙◌, inl, inr, true, Option, none, some, List, [],
  ◌∷◌, ◌++◌, arith, ◌==◌, if◌then◌else◌, ==_self, list_eq, list_eq→eq, length, select, update_where,
  All, select_meets, select-update_one,
}
use factorial.Config.{Settings, days}
use factorial.Model.{User, Session}
use factorial.Database.{Database, Result, ok, err, pure, gets, get_row, ◌>>=◌}
use factorial.Account.Auth.{
  Bcrypt, authenticate_user, record_login_activity, write_user, user_rows, if_given,
}
use factorial.Session.{
  Draws, new_row, clashes, revoke_session, revoke_where, revoke_at, lookup_session_by_cookie,
}
use factorial.Session.Cookie.{IsByte, session_id_bytes, encode_id, decode_id, b64decode, a2b_base64}
use factorial.Session.Cookie.Roundtrip.{decode_id-encode_id}
use factorial.Session.Lookup.{rows_of, create_appends, one_row, lookup_session_by_cookie_lem}
use factorial.Session.Revoke.{is_hit, rows_of-revoke_where, revoked_dead}
use mathlib.Core.Path.{subst}
use factorial.Access.{
  AuthUser, granted, rejected, role_slug, with_session, get_current_user, require_auth,
  authenticate,
}
use factorial.Access.Grants.{authenticate-grants}
use factorial.Access.Admin.{authenticate-passes}
use factorial.Access.Login.{LoginReply, session_cookies, user_response, log_in, login, logout}

-- The row of the user after a login.
abbrev pub logged : ℕ → Option String → Option String → User → User
logged now ip timezone u = record u {
  last_login_at = some now;
  last_login_ip = if_given ip u.last_login_ip;
  timezone = if_given timezone u.timezone;
}

cookie_shape :
    (cookie raw : List ℕ)
    → decode_id cookie ≡ some raw
    → length raw ≡ session_id_bytes
    → (c : ℕ) × (rest : List ℕ) × (cookie ≡ c ∷ rest)
unfolding decode_id b64decode a2b_base64
cookie_shape [] raw h width = absurd (grind (arith, h))
cookie_shape (c ∷ rest) raw h width = (c, rest, refl)

own_row :
    (raw : List ℕ) (s : Session) (db : Database) → rows_of raw db ≡ s ∷ [] → list_eq s.id raw ≡ true
own_row raw s db row =
    (subst (All (λ r. list_eq r.id raw ≡ true)) row
      (select_meets (λ r. list_eq r.id raw) db.sessions)).0

-- A request whose cookie found no session, and which has no key.
nobody :
    (settings : Settings) (out : Result (Option Session) × Database) (db : Database)
    → out.0 ≡ ok none
    → ((((λ (d : Database). out) >>= with_session) >>= λ user.
          pure (require_auth settings user none))
        db).0
      ≡ ok (rejected 401 "Not authenticated")
unfolding require_auth
nobody settings (ok none, d) db h = refl
nobody settings (ok (some s), d) db h = absurd (grind (arith, h))
nobody settings (err e, d) db h = absurd (grind (arith, h))

-- Whoever a cookie lets pass bears the id of the session that it names.
own_session_id :
    (settings : Settings) (now : ℕ) (cookie raw : List ℕ) (u : AuthUser) (db : Database)
    → decode_id cookie ≡ some raw
    → (authenticate settings now (some cookie) none db).0 ≡ ok (granted u)
    → u.session_id ≡ some raw
own_session_id settings now cookie raw u db decoded passed =
    elim (authenticate-grants settings now (some cookie) none u db passed) [
      | inr service ↦ absurd (grind (arith, service.key))
      | inl l ↦
          let value : l.first ∷ l.rest ≡ cookie = sym (grind (arith, l.sent)) in
          let same : l.raw ≡ raw = grind (arith, sym l.decoded ∙ ap decode_id value ∙ decoded) in
          let id : l.session.id ≡ l.raw =
            list_eq→eq l.session.id l.raw (own_row l.raw l.session db l.row) in
          ap (λ v. v.session_id) l.sees ∙ ap some (id ∙ same)
    ]

-- A session that is revoked lets nobody in.
rejected_after_logout :
    (settings : Settings) (now later : ℕ) (c : ℕ) (rest raw : List ℕ) (s : Session) (u : AuthUser)
    (db : Database)
    → decode_id (c ∷ rest) ≡ some raw
    → rows_of raw db ≡ s ∷ []
    → u.session_id ≡ some raw
    → (authenticate settings later (some (c ∷ rest)) none (logout now u db).1).0
      ≡ ok (rejected 401 "Not authenticated")
unfolding authenticate get_current_user require_auth logout revoke_session revoke_where
rejected_after_logout settings now later c rest raw s u db decoded row own =
    let p = λ (t : Session). list_eq t.id raw in
    let s' = if is_hit p s then revoke_at now s else s in
    let db' = (revoke_where now p db).1 in
    let row' : rows_of raw db' ≡ s' ∷ [] =
      rows_of-revoke_where now p raw db ∙ ap (update_where (is_hit p) (revoke_at now)) row in
    let unseen =
      (lookup_session_by_cookie_lem settings later (c ∷ rest) raw s' db' decoded row').1
        (revoked_dead later now p s (own_row raw s db row)) in
    rw own (
      nobody settings (lookup_session_by_cookie settings later (c ∷ rest) db') db'
        (ap (λ out. out.0) unseen))

-- The new session, the database with the login recorded and with the session, and the answer.
abbrev pub session : Settings → Draws → Option String → Option String → User → Session
session settings d ip user_agent user = new_row settings d user.id user_agent ip none

abbrev pub recorded : Draws → Option String → Option String → User → Database → Database
recorded d ip timezone user db = write_user user.id (logged d.now ip timezone) db

abbrev pub opened :
    Settings → Draws → Option String → Option String → Option String → User → Database → Database
opened settings d ip user_agent timezone user db = record (recorded d ip timezone user db) {
  sessions = db.sessions ++ session settings d ip user_agent user ∷ [];
}

abbrev pub reply : Settings → Draws → Option String → Option String → User → Database → LoginReply
reply settings d ip user_agent user db =
    session_cookies settings
      (record {
        cookie_value = encode_id d.raw_id;
        csrf_token = d.csrf_token;
        session = session settings d ip user_agent user;
      })
      (user_response user (role_slug db user.role_id))

module _ (settings : Settings) (bcrypt : Bcrypt) (d : Draws)
    (ip user_agent timezone : Option String) (email password : Text) (user : User) (db : Database)
    (passes : authenticate_user bcrypt email password db ≡ (ok (some user), db))
    (one_user : user_rows user.id db ≡ user ∷ [])
    (fresh : select (clashes (new_row settings d user.id user_agent ip none)) db.sessions ≡ [])
    (bytes : All IsByte d.raw_id) (width : length d.raw_id ≡ session_id_bytes) where
  login_lem : login settings bcrypt d ip user_agent email password timezone db ≡ (
    ok (granted (reply settings d ip user_agent user db)),
    (opened settings d ip user_agent timezone user db),
  )
  unfolding login record_login_activity
  login_lem =
      ap (λ out. ((λ (x : Database). out) >>= log_in settings d ip user_agent timezone) db) passes
      ∙ ap
          (λ out.
            ((λ (x : Database). out) >>= λ new. do
              background ← gets (λ x. role_slug x user.role_id)
              pure (granted (session_cookies settings new (user_response user background))))
              (recorded d ip timezone user db))
          (create_appends settings d user.id user_agent ip none (recorded d ip timezone user db)
            fresh)

  user_after :
      get_row (user_rows user.id (opened settings d ip user_agent timezone user db))
      ≡ some (logged d.now ip timezone user)
  user_after = ap get_row (
      select-update_one (λ u. u.id == user.id) (logged d.now ip timezone) db.users (λ y. refl)
        (==_self user.id) one_user)

  -- A user whose password is accepted and whose session id is fresh logs in: the answer sets a cookie that is let pass as
  -- this user, on the database that the login leaves, at every time before the deadlines of the new session, whatever
  -- key comes with it. And once a caller who was let pass by this cookie alone, at whatever time and on whatever database,
  -- logs out, on any database with the session, the cookie alone is refused at every time.
  pub login-authenticate :
      user.is_active ≡ true
      → (login settings bcrypt d ip user_agent email password timezone db ≡ (
        ok (granted (reply settings d ip user_agent user db)),
        (opened settings d ip user_agent timezone user db),
      ))
        × ((later : ℕ) (api_key : Option String)
            → later < d.now + days settings.cookie_session_idle_days
            → later < d.now + days settings.cookie_session_absolute_days
            → (u : AuthUser) × ((authenticate settings later
                  (some (reply settings d ip user_agent user db).session_cookie.value)
                  api_key
                  (opened settings d ip user_agent timezone user db)).0
                ≡ ok (granted u))
              × ((u.id ≡ user.id) × (u.is_admin ≡ user.is_admin)))
        × ((seen now later : ℕ) (u : AuthUser) (then_db at_logout : Database) (s : Session)
            → (authenticate settings seen
                (some (reply settings d ip user_agent user db).session_cookie.value)
                none
                then_db).0
              ≡ ok (granted u)
            → rows_of d.raw_id at_logout ≡ s ∷ []
            → (authenticate settings later
                (some (reply settings d ip user_agent user db).session_cookie.value)
                none
                (logout now u at_logout).1).0
              ≡ ok (rejected 401 "Not authenticated"))
  login-authenticate active =
      let decoded = decode_id-encode_id d.raw_id bytes width in
      let (c, rest, shape) = cookie_shape (encode_id d.raw_id) d.raw_id decoded width in
      let decoded' : decode_id (c ∷ rest) ≡ some d.raw_id =
        subst (λ v. decode_id v ≡ some d.raw_id) shape decoded in
      let row =
        one_row settings d user.id user_agent ip none (recorded d ip timezone user db) fresh in
      (
        login_lem,
        λ later api_key idle absolute.
            subst
              (λ v.
                (u : AuthUser) × ((authenticate settings later (some v) api_key
                    (opened settings d ip user_agent timezone user db)).0
                  ≡ ok (granted u))
                × ((u.id ≡ user.id) × (u.is_admin ≡ user.is_admin)))
              (sym shape)
              (
                _,
                authenticate-passes settings later c rest d.raw_id
                    (session settings d ip user_agent user) (logged d.now ip timezone user)
                    (opened settings d ip user_agent timezone user db) decoded' row
                    (refl, idle, absolute) user_after active api_key,
                (refl, refl),
              ),
        λ seen now later u then_db at_logout s passed own_session.
            subst
              (λ v.
                (authenticate settings later (some v) none (logout now u at_logout).1).0
                ≡ ok (rejected 401 "Not authenticated"))
              (sym shape)
              (rejected_after_logout settings now later c rest d.raw_id s u at_logout decoded'
                own_session
                (own_session_id settings seen (encode_id d.raw_id) d.raw_id u then_db decoded
                  passed)),
      )
