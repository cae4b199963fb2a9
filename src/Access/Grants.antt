-- ===== src/Access/Grants.antt =====
-- Whom `require_auth` and `require_admin` let pass.
use factorial.Prelude.{
  Text, ℕ, String, ◌≡◌, refl, sym, ap, ◌∙◌, ◌≢◌, ◌⊎◌, inl, inr, true, not, Option, none, some, List,
  [], ◌∷◌, arith, eq_iff, if◌then◌else◌, Bool-cases,
}
use factorial.Config.{Settings}
use factorial.Model.{User, Session}
use factorial.Database.{Database, Result, ok, err, get_row, pure, gets, raise}
use factorial.Account.Auth.{get_user_by_id, user_rows}
use factorial.Session.{lookup_session_by_cookie, compare_digest}
use factorial.Session.Cookie.{decode_id}
use factorial.Session.Lookup.{IsAlive, rows_of}
use factorial.Access.{
  AuthUser, Answer, granted, crashed, service_user, role_slug, auth_user, user_of, with_session,
  get_current_user, require_auth, authenticate,
}
use factorial.Access.Found.{lookup-IsFound, lookup_keeps, after_use_same}

-- The cookie names a session that is alive, of an active user, who is the one that the endpoint sees.
pub record IsLoggedIn (now : ℕ) (cookie : Option (List ℕ)) (u : AuthUser) (db : Database)
    : Type 0 where
  pub first : ℕ
  pub rest : List ℕ
  pub raw : List ℕ
  pub session : Session
  pub user : User
  pub sent : cookie ≡ some (first ∷ rest)
  pub decoded : decode_id (first ∷ rest) ≡ some raw
  pub row : rows_of raw db ≡ session ∷ []
  pub alive : IsAlive now session
  pub found : get_row (user_rows session.user_id db) ≡ some user
  pub active : user.is_active ≡ true
  pub sees : u ≡ auth_user session user (role_slug db user.role_id)

-- The view of a user does not depend on the times of the session.
pub same_view :
    (s t : Session) (x : User) (slug : Option Text)
    → s.id ≡ t.id
    → s.family_id ≡ t.family_id
    → auth_user s x slug ≡ auth_user t x slug
same_view s t x slug h k = rw (h, k) refl

module _ (settings : Settings) (now : ℕ) where
  abbrev user_in : Result (Option AuthUser) → AuthUser
  user_in (ok (some u)) = u
  user_in _ = service_user

  record IsUser (t : Session) (u : AuthUser) (db : Database) : Type 0 where
    user : User
    found : get_row (user_rows t.user_id db) ≡ some user
    active : user.is_active ≡ true
    sees : u ≡ auth_user t user (role_slug db user.role_id)

  user_found :
      (t : Session) (found : Option User) (u : AuthUser) (db : Database)
      → get_row (user_rows t.user_id db) ≡ found
      → (user_of t found db).0 ≡ ok (some u)
      → IsUser t u db
  user_found t none u db row h = absurd (ground (arith, h))
  user_found t (some x) u db row h = elim (Bool-cases x.is_active) [
    | inl active ↦
        let same : ok (some (auth_user t x (role_slug db x.role_id))) ≡ ok (some u) =
          ap
            (λ b.
              ((if not b
                  then pure none
                  else gets (λ d. some (auth_user t x (role_slug d x.role_id))))
                db).0)
            (sym active)
          ∙ h in
        record { user = x; found = row; active = active; sees = sym (ap user_in same) }
    | inr gone ↦ absurd (ground (arith, gone, h))
  ]

  unfoldable pub after_lookup :
      Result (Option Session) × Database → Result (Option AuthUser) × Database
  after_lookup (ok s, db) = with_session s db
  after_lookup (err e, db) = (err e, db)

  pub then_user :
      (out : Result (Option Session) × Database)
      → (let (r, db') = out in elim r [ ok a ↦ with_session a db' | err e ↦ raise e db' ])
        ≡ after_lookup out
  unfolding after_lookup
  then_user (ok s, db) = refl
  then_user (err e, db) = refl

  logged_in :
      (first : ℕ) (rest : List ℕ) (out : Result (Option Session) × Database) (u : AuthUser)
      (db : Database)
      → lookup_session_by_cookie settings now (first ∷ rest) db ≡ out
      → (after_lookup out).0 ≡ ok (some u)
      → IsLoggedIn now (some (first ∷ rest)) u db
  unfolding after_lookup get_user_by_id
  logged_in first rest (err e, db') u db same h = absurd (grind (arith, h))
  logged_in first rest (ok none, db') u db same h = absurd (grind (arith, h))
  logged_in first rest (ok (some t), db') u db same h =
      let found = lookup-IsFound settings now (first ∷ rest) t db (ap (λ x. x.0) same) in
      let user = user_found t (get_row (user_rows t.user_id db')) u db' refl h in
      let kept = lookup_keeps settings now (first ∷ rest) db in
      let users : db'.users ≡ db.users = sym (ap (λ x. x.1.users) same) ∙ kept.0 in
      let roles : db'.roles ≡ db.roles = sym (ap (λ x. x.1.roles) same) ∙ kept.1 in
      let (_, id, family) = after_use_same settings now found.session in
      let owner : t.user_id ≡ found.session.user_id =
        ap (λ x. x.user_id) found.used ∙ (after_use_same settings now found.session).0 in
      record {
        first = first;
        rest = rest;
        raw = found.raw;
        session = found.session;
        user = user.user;
        sent = refl;
        decoded = found.decoded;
        row = found.row;
        alive = found.alive;
        found = rw⁻¹ (owner, users) user.found;
        active = user.active;
        sees =
            user.sees
            ∙ same_view t found.session user.user (role_slug db' user.user.role_id)
                (ap (λ x. x.id) found.used ∙ id) (ap (λ x. x.family_id) found.used ∙ family)
            ∙ rw roles refl;
      }

  current_IsLoggedIn :
      (cookie : Option (List ℕ)) (u : AuthUser) (db : Database)
      → (get_current_user settings now cookie db).0 ≡ ok (some u)
      → IsLoggedIn now cookie u db
  unfolding get_current_user
  current_IsLoggedIn none u db h = absurd (grind (arith, h))
  current_IsLoggedIn (some []) u db h = absurd (grind (arith, h))
  current_IsLoggedIn (some (c ∷ cookie)) u db h =
      let out = lookup_session_by_cookie settings now (c ∷ cookie) db in
      logged_in c cookie out u db refl (ap (λ x. x.0) (sym (then_user out)) ∙ h)

  -- The caller has the configured key, which is not empty, and the endpoint sees the service account.
  pub record IsService (api_key : Option String) (u : AuthUser) : Type 0 where
    pub sees : u ≡ service_user
    pub key : api_key ≡ some settings.api_secret_key
    pub configured : settings.api_secret_key ≢ ""

  abbrev granted_user : Answer AuthUser → AuthUser → AuthUser
  granted_user (granted u) otherwise = u
  granted_user _ otherwise = otherwise

  abbrev pub answer_of : Result (Answer AuthUser) → Answer AuthUser
  answer_of (ok a) = a
  answer_of (err e) = crashed

  require_auth-IsService :
      (api_key : Option String) (u : AuthUser)
      → require_auth settings none api_key ≡ granted u
      → IsService api_key u
  unfolding require_auth compare_digest
  require_auth-IsService none u h = absurd (ground (arith, h))
  require_auth-IsService (some key) u h = record {
    sees = ap (λ a. granted_user a service_user) (sym h) ∙ ground arith;
    key = ground (arith, h, eq_iff key settings.api_secret_key);
    configured = ground (arith, h, eq_iff settings.api_secret_key "");
  }

  unfoldable pub after_auth :
      Option String → Result (Option AuthUser) × Database → Result (Answer AuthUser) × Database
  after_auth api_key (ok u, db) = (ok (require_auth settings u api_key), db)
  after_auth api_key (err e, db) = (err e, db)

  pub then_auth :
      (api_key : Option String) (out : Result (Option AuthUser) × Database)
      → (let (r, db') = out in
          elim r [ ok a ↦ pure (require_auth settings a api_key) db' | err e ↦ raise e db' ])
        ≡ after_auth api_key out
  unfolding after_auth
  then_auth api_key (ok u, db) = refl
  then_auth api_key (err e, db) = refl

  answered :
      (cookie : Option (List ℕ)) (api_key : Option String)
      (out : Result (Option AuthUser) × Database) (u : AuthUser) (db : Database)
      → get_current_user settings now cookie db ≡ out
      → (after_auth api_key out).0 ≡ ok (granted u)
      → IsLoggedIn now cookie u db ⊎ IsService api_key u
  unfolding after_auth require_auth
  answered cookie api_key (err e, db') u db same h = absurd (grind (arith, h))
  answered cookie api_key (ok none, db') u db same h =
      inr (require_auth-IsService api_key u (ap answer_of h))
  answered cookie api_key (ok (some v), db') u db same h = inl (
      current_IsLoggedIn cookie u db
        (ap (λ x. x.0) same ∙ ap (λ x. ok (some (granted_user x v))) (ap answer_of h)))

  -- Of every endpoint that asks for a user: it sees the active user of an alive session, or else the service
  -- account, by the configured key.
  pub authenticate-grants :
      (cookie : Option (List ℕ)) (api_key : Option String) (u : AuthUser) (db : Database)
      → (authenticate settings now cookie api_key db).0 ≡ ok (granted u)
      → IsLoggedIn now cookie u db ⊎ IsService api_key u
  unfolding authenticate
  authenticate-grants cookie api_key u db h =
      let out = get_current_user settings now cookie db in
      answered cookie api_key out u db refl (ap (λ x. x.0) (sym (then_auth api_key out)) ∙ h)
