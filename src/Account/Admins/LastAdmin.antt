-- ===== src/Account/Admins/LastAdmin.antt =====
-- What the guards of `set_admin` and `set_active` keep, and what they do not keep.
use factorial.Prelude.{
  ℕ, ◌+◌, ◌≤◌, ◌≡◌, refl, Bool, true, false, not, ◌&&◌, [], ◌∷◌, arith, ◌==◌, ==_self,
  if◌then◌else◌, select, select-update_one, select-update_apart, count_where,
  count_where-update_one,
}
use factorial.Model.{User}
use factorial.Database.{
  Database, Result, ok, err, value_error, last_admin_demoted, last_admin_deactivated,
}
use factorial.Account.Auth.{user_rows, write_user}
use factorial.Account.Admins.{guard_last, count_admins, set_admin, set_active}

abbrev pub admins : Database → ℕ
admins db = count_where (λ u. u.is_admin) db.users

abbrev pub active_admins : Database → ℕ
active_admins db = count_where (λ u. u.is_admin && u.is_active) db.users

module _ (user : User) (db : Database) (row : user_rows user.id db ≡ user ∷ []) where
  -- The count of a kind of users, after a write to the row of `user`.
  count-write_user :
      (p : User → Bool) (f : User → User)
      → count_where p (write_user user.id f db).users + (if p user then 1 else 0)
        ≡ count_where p db.users + (if p (f user) then 1 else 0)
  count-write_user p f = count_where-update_one p (λ u. u.id == user.id) f db.users row

  -- The user with the flag as it is set, in the answer and in the one row of the user, and the rows of the others.
  abbrev pub IsGiven : Bool → Result User × Database → Type 0
  IsGiven flag (r, out) =
      (r ≡ ok (record user { is_admin = flag }))
      × (user_rows user.id out ≡ record user { is_admin = flag } ∷ [])
      × (select (λ u. not (u.id == user.id)) out.users
          ≡ select (λ u. not (u.id == user.id)) db.users)

  is_given :
      (flag : Bool)
      → guard_last (user.is_admin && not flag) (admins db) ≡ false
      → IsGiven flag (set_admin user flag db)
  unfolding set_admin count_admins
  is_given flag unguarded = rw unguarded (
    refl,
    select-update_one (λ u. u.id == user.id) (λ u. record u { is_admin = flag }) db.users
        (λ y. refl) (==_self user.id) row,
    select-update_apart (λ u. not (u.id == user.id)) (λ u. u.id == user.id)
        (λ u. record u { is_admin = flag }) db.users (λ u hit. (rw hit refl, rw hit refl)),
  )

  -- A change of the admin flag that would take it from the only admin is refused, and nothing is written; every other
  -- change is made, of this user only; and where there was an admin there is one afterwards, in either case.
  pub set_admin-keeps_admin :
      (flag : Bool)
      → (user.is_admin ≡ true
          → admins db ≤ 1
          → set_admin user false db ≡ (err (value_error last_admin_demoted), db))
        × (2 ≤ admins db → IsGiven flag (set_admin user flag db))
        × (user.is_admin ≡ false → IsGiven flag (set_admin user flag db))
        × IsGiven true (set_admin user true db)
        × (1 ≤ admins db → 1 ≤ admins (set_admin user flag db).1)
  unfolding set_admin count_admins
  set_admin-keeps_admin flag = (
    λ is_admin one. ground arith,
    λ two. is_given flag (ground arith),
    λ no_admin. is_given flag (ground arith),
    is_given true (ground arith),
    λ h. ground (arith, count-write_user (λ u. u.is_admin) (λ u. record u { is_admin = flag })),
  )

  -- An admin is deactivated exactly when another user has the admin flag, active or not.
  pub set_active-guard :
      user.is_admin ≡ true
      → (2 ≤ admins db → (set_active user false db).0 ≡ ok (record user { is_active = false }))
        × (admins db ≤ 1
            → set_active user false db ≡ (err (value_error last_admin_deactivated), db))
  unfolding set_active count_admins
  set_active-guard h = (λ two. ground arith, λ one. ground arith)

  -- The guard counts admins that are not active: where `user` is the only active admin and another
  -- admin is inactive, `user` can be deactivated, and no active admin is left.
  pub set_active-strands :
      user.is_admin ≡ true
      → user.is_active ≡ true
      → active_admins db ≡ 1
      → 2 ≤ admins db
      → ((set_active user false db).0 ≡ ok (record user { is_active = false }))
        × (active_admins (set_active user false db).1 ≡ 0)
  unfolding set_active count_admins
  set_active-strands is_admin is_active one two = ground (
    arith,
    count-write_user (λ u. u.is_admin && u.is_active) (λ u. record u { is_active = false }),
  )
