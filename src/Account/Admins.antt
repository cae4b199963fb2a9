-- ===== src/Account/Admins.antt =====
-- backend/src/app/services/admin_service.py, without the rollups of the user list. A `User` that is
-- passed in is the row of its primary key: a write to the object is a write to that row.
pub mod LastAdmin
use factorial.Prelude.{
  Text, ℕ, String, Bool, true, not, ◌&&◌, Option, List, map, leb, is_some, select, count_where,
}
use factorial.Model.{User}
use factorial.Database.{
  Exec, value_error, pure, gets, ◌>>=◌, ◌>>◌, raise_if, modify, user_exists, last_admin_demoted,
  last_admin_deactivated,
}
use factorial.Account.Auth.{user_by_email, add_user, new_user, write_user}
use factorial.Account.Roles.{Unicode, lstrip, rstrip, lower_text}

unfoldable pub count_admins : Exec ℕ
count_admins = gets (λ db. count_where (λ u. u.is_admin) db.users)

unfoldable pub list_admin_emails : Exec (List Text)
list_admin_emails =
    gets (λ db. map (λ u. u.email) (select (λ u. u.is_admin && u.is_active) db.users))

-- email.strip().lower()
unfoldable pub normalize_email : Unicode → Text → Text
normalize_email unicode email = lower_text unicode (rstrip unicode (lstrip unicode email))

unfoldable pub create_admin_shell : Unicode → ℕ → ℕ → Text → Option String → Exec User
create_admin_shell unicode id now email display_name = do
  let normalized = normalize_email unicode email
  existing ← user_by_email normalized
  raise_if (is_some existing) (value_error user_exists)
  let user = record (new_user id now normalized "" display_name) { is_admin = true }
  add_user user
  pure user

-- The guard of `set_admin` and `set_active`: whether the call takes the last admin away.
abbrev pub guard_last : Bool → ℕ → Bool
guard_last takes_away remaining = takes_away && leb remaining 1

unfoldable pub set_admin : User → Bool → Exec User
set_admin user is_admin = do
  remaining ← count_admins
  raise_if (guard_last (user.is_admin && not is_admin) remaining) (value_error last_admin_demoted)
  modify (write_user user.id (λ u. record u { is_admin = is_admin }))
  pure (record user { is_admin = is_admin })

unfoldable pub set_active : User → Bool → Exec User
set_active user is_active = do
  remaining ← count_admins
  raise_if (guard_last (user.is_admin && not is_active) remaining)
      (value_error last_admin_deactivated)
  modify (write_user user.id (λ u. record u { is_active = is_active }))
  pure (record user { is_active = is_active })

unfoldable pub set_role : User → Option ℕ → Exec User
set_role user role_id = do
  modify (write_user user.id (λ u. record u { role_id = role_id }))
  pure (record user { role_id = role_id })
