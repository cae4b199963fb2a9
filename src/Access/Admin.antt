-- ===== src/Access/Admin.antt =====
-- The endpoints of administrators, and what a caller who is logged in may rely on.
use factorial.Prelude.{
  ℕ, String, ◌≡◌, refl, sym, ap, ◌∙◌, ◌↔◌, inl, inr, Bool, true, false, not, Option, none, some,
  List, [], ◌∷◌, arith, if◌then◌else◌, Bool-cases,
}
use factorial.Config.{Settings}
use factorial.Model.{User, Session}
use factorial.Database.{Database, Result, ok, err, get_row, pure, gets, raise}
use factorial.Account.Auth.{get_user_by_id, user_rows}
use factorial.Session.{lookup_session_by_cookie}
use factorial.Session.Cookie.{decode_id}
use factorial.Session.Lookup.{IsAlive, rows_of, after_use, lookup_session_by_cookie_lem}
use factorial.Access.{
  AuthUser, Answer, granted, rejected, crashed, role_slug, auth_user, user_of, get_current_user,
  require_auth, admin_only, authenticate, require_admin,
}
use factorial.Access.Found.{lookup_keeps, after_use_same}
use factorial.Access.Grants.{
  IsLoggedIn, same_view, authenticate-grants, after_lookup, then_user, after_auth, then_auth,
  answer_of,
}

admin_only-granted :
    (a : Answer AuthUser) (u : AuthUser)
    → admin_only a ≡ granted u
    → (a ≡ granted u) × (u.is_admin ≡ true)
admin_only-granted (granted v) u h = elim (Bool-cases v.is_admin) [
  | inl admin ↦
      let same : granted v ≡ granted u =
        ap (λ b. if b then granted v else rejected 403 "Admin access required") (sym admin) ∙ h in
      (same, sym (ap rights same) ∙ admin)
  | inr other ↦ absurd (ground (arith, other, h))
]
  where
    rights : Answer AuthUser → Bool
    rights (granted w) = w.is_admin
    rights _ = false
admin_only-granted (rejected status detail) u h = absurd (grind (arith, h))
admin_only-granted crashed u h = absurd (grind (arith, h))

after_admin : Result (Answer AuthUser) × Database → Result (Answer AuthUser) × Database
after_admin (ok a, db) = (ok (admin_only a), db)
after_admin (err e, db) = (err e, db)

then_admin :
    (out : Result (Answer AuthUser) × Database)
    → (let (r, db') = out in elim r [ ok a ↦ pure (admin_only a) db' | err e ↦ raise e db' ])
      ≡ after_admin out
unfolding after_admin
then_admin (ok a, db) = refl
then_admin (err e, db) = refl

abbrev session_of : Session → Result (Option Session) → Session
session_of s (ok (some t)) = t
session_of s _ = s

abbrev asked : Result (Option AuthUser) → Result (Answer AuthUser)
asked (ok (some v)) = ok (granted v)
asked _ = ok crashed

module _ (settings : Settings) (now : ℕ) where
  admin_answered :
      (cookie : Option (List ℕ)) (api_key : Option String)
      (out : Result (Answer AuthUser) × Database) (u : AuthUser) (db : Database)
      → authenticate settings now cookie api_key db ≡ out
      → (after_admin out).0 ≡ ok (granted u)
      → IsLoggedIn now cookie u db × (u.is_admin ≡ true)
  unfolding after_admin
  admin_answered cookie api_key (err e, db') u db same h = absurd (grind (arith, h))
  admin_answered cookie api_key (ok a, db') u db same h =
      let admin = admin_only-granted a u (ap (answer_of settings now) h) in
      elim (authenticate-grants settings now cookie api_key u db
        (ap (λ x. x.0) same ∙ ap ok admin.0)) [
          | inl logged_in ↦ (logged_in, admin.1)
          | inr service ↦
              absurd (grind (arith, ap (λ (v : AuthUser). v.is_admin) service.sees, admin.1))
        ]

  admin_passes :
      (out : Result (Answer AuthUser) × Database) (u : AuthUser)
      → out.0 ≡ ok (granted u)
      → u.is_admin ≡ true
      → (after_admin out).0 ≡ ok (granted u)
  unfolding after_admin
  admin_passes (err e, db) u same admin = absurd (grind (arith, same))
  admin_passes (ok a, db) u same admin =
      ap (λ b. ok (admin_only b)) (ap (answer_of settings now) same)
      ∙ ap (λ b. ok (if b then granted u else rejected 403 "Admin access required")) admin

  module _ (c : ℕ) (rest raw : List ℕ) (s : Session) (x : User) (db : Database)
      (decoded : decode_id (c ∷ rest) ≡ some raw) (row : rows_of raw db ≡ s ∷ [])
      (alive : IsAlive now s) (found : get_row (user_rows s.user_id db) ≡ some x)
      (active : x.is_active ≡ true) where
    with_row :
        (out : Result (Option Session) × Database)
        → out.0 ≡ ok (some (after_use settings now s))
        → out.1.users ≡ db.users
        → (after_lookup settings now out).0
          ≡ ok (some (auth_user (after_use settings now s) x (role_slug out.1 x.role_id)))
    unfolding after_lookup get_user_by_id
    with_row (err e, db') same users = absurd (grind (arith, same))
    with_row (ok none, db') same users = absurd (grind (arith, same))
    with_row (ok (some t), db') same users =
        let same_row : t ≡ after_use settings now s = ap (session_of s) same in
        let owner : t.user_id ≡ s.user_id =
          ap (λ y. y.user_id) same_row ∙ (after_use_same settings now s).0 in
        let looked : get_row (user_rows t.user_id db') ≡ some x = rw (owner, users) found in
        ap (λ o. (user_of t o db').0) looked
        ∙ ap
            (λ b.
              ((if not b
                  then pure none
                  else gets (λ d. some (auth_user t x (role_slug d x.role_id))))
                db').0)
            active
        ∙ ap (λ y. ok (some (auth_user y x (role_slug db' x.role_id)))) same_row

    same_roles :
        (out : Database) (role_id : Option ℕ)
        → out.roles ≡ db.roles
        → role_slug out role_id ≡ role_slug db role_id
    same_roles out none h = refl
    same_roles out (some role_id) h = rw h refl

    passes :
        (api_key : Option String) (out : Result (Option AuthUser) × Database) (u : AuthUser)
        → out.0 ≡ ok (some u)
        → (after_auth settings now api_key out).0 ≡ ok (granted u)
    unfolding after_auth require_auth
    passes api_key (err e, db') u same = absurd (grind (arith, same))
    passes api_key (ok none, db') u same = absurd (grind (arith, same))
    passes api_key (ok (some v), db') u same = ap asked same

    -- A cookie that names the one row of an alive session of an active user is let pass as that user, whatever
    -- key it comes with.
    pub authenticate-passes :
        (api_key : Option String)
        → (authenticate settings now (some (c ∷ rest)) api_key db).0
          ≡ ok (granted (auth_user s x (role_slug db x.role_id)))
    unfolding authenticate get_current_user
    authenticate-passes api_key =
        let out = lookup_session_by_cookie settings now (c ∷ rest) db in
        let user =
          with_row out
            ((lookup_session_by_cookie_lem settings now (c ∷ rest) raw s db decoded row).0 alive)
            (lookup_keeps settings now (c ∷ rest) db).0 in
        let kept = lookup_keeps settings now (c ∷ rest) db in
        let u = auth_user (after_use settings now s) x (role_slug out.1 x.role_id) in
        let current = get_current_user settings now (some (c ∷ rest)) db in
        let (_, id, family) = after_use_same settings now s in
        ap (λ y. y.0) (then_auth settings now api_key current)
        ∙ passes api_key current u (ap (λ y. y.0) (then_user settings now out) ∙ user)
        ∙ ap (λ v. ok (granted v))
            (same_view (after_use settings now s) s x (role_slug out.1 x.role_id) id family
              ∙ ap (auth_user s x) (same_roles out.1 x.role_id kept.1))

  -- An endpoint of administrators is open to a caller whose cookie names an alive session of an active user with
  -- the right, as whom it then sees the caller, and to nobody else: a key does not give it.
  pub require_admin-grants :
      (cookie : Option (List ℕ)) (api_key : Option String) (u : AuthUser) (db : Database)
      → ((require_admin settings now cookie api_key db).0 ≡ ok (granted u))
        ↔ (IsLoggedIn now cookie u db × (u.is_admin ≡ true))
  unfolding require_admin
  require_admin-grants cookie api_key u db =
      let out = authenticate settings now cookie api_key db in
      (
        λ h. admin_answered cookie api_key out u db refl (ap (λ x. x.0) (sym (then_admin out)) ∙ h),
        λ (l, admin).
            ap (λ x. x.0) (then_admin out)
            ∙ admin_passes out u
                (ap (λ v. (authenticate settings now v api_key db).0) l.sent
                  ∙ authenticate-passes l.first l.rest l.raw l.session l.user db l.decoded l.row
                      l.alive l.found l.active api_key
                  ∙ ap (λ v. ok (granted v)) (sym l.sees))
                admin,
      )
