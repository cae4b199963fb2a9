-- ===== src/Account/Roles.antt =====
-- backend/src/app/services/role_service.py. What a code point becomes under `str.lower`, and which
-- ones `str.strip` takes off, is the Unicode table of the interpreter, a parameter.
pub mod Slug
use factorial.Prelude.{
  Text, ℕ, String, Bool, true, false, not, ◌&&◌, ◌||◌, Option, none, some, List, [], ◌∷◌, ◌++◌, map,
  ltb, leb, ◌==◌, if◌then◌else◌, is_some, list_eq, length, select, update_where, count_where,
}
use factorial.Prelude.Sorting.{sort_by}
use factorial.Model.{Role}
use factorial.Database.{
  Database, Exec, value_error, integrity_error, pure, gets, get_row, scalar_one_or_none, ◌>>=◌,
  ◌>>◌, raise_if, modify, role_name_required, role_name_too_long, role_name_malformed, role_exists,
  role_builtin, role_in_use,
}

pub record Unicode : Type 0 where
  pub lower : ℕ → List ℕ
  pub is_space : ℕ → Bool

-- re.compile(r"^[a-z0-9_]+$"), tested by `match`: `$` also fits before a newline at the end.
abbrev pub is_slug_char : ℕ → Bool
is_slug_char c = (leb b'a' c && leb c b'z') || ((leb b'0' c && leb c b'9') || c == b'_')

abbrev pub is_end : Text → Bool
is_end [] = true
is_end (c ∷ []) = c == 10
is_end (c ∷ d ∷ rest) = false

abbrev pub slug_tail : Text → Bool
slug_tail [] = true
slug_tail (c ∷ rest) = is_end (c ∷ rest) || (is_slug_char c && slug_tail rest)

unfoldable pub slug_re_match : Text → Bool
slug_re_match [] = false
slug_re_match (c ∷ rest) = is_slug_char c && slug_tail rest

abbrev pub is_empty_text : Text → Bool
is_empty_text [] = true
is_empty_text (c ∷ rest) = false

unfoldable pub validate_slug : Text → Exec (Unit {0})
validate_slug slug = do
  raise_if (is_empty_text slug) (value_error role_name_required)
  raise_if (ltb 50 (length slug)) (value_error role_name_too_long)
  raise_if (not (slug_re_match slug)) (value_error role_name_malformed)

unfoldable pub get_role_by_name : Text → Exec (Option Role)
get_role_by_name name = do
  rows ← gets (λ db. select (λ r. list_eq r.name name) db.roles)
  scalar_one_or_none rows

-- `id` is the primary key, and `name` is declared unique.
unfoldable pub add_role : Role → Exec (Unit {0})
add_role role = do
  rows ← gets (λ db. select (λ r. r.id == role.id || list_eq r.name role.name) db.roles)
  raise_if (ltb 0 (length rows)) integrity_error
  modify (λ db. record db { roles = db.roles ++ role ∷ [] })

-- .replace(" ", "_").replace("-", "_")
abbrev pub underscored : ℕ → ℕ
underscored c = if c == b' ' then b'_' else if c == b'-' then b'_' else c

module _ (unicode : Unicode) where
  unfoldable pub lstrip : Text → Text
  lstrip [] = []
  lstrip (c ∷ rest) = if unicode.is_space c then lstrip rest else c ∷ rest

  unfoldable pub rstrip : Text → Text
  rstrip [] = []
  rstrip (c ∷ rest) =
      let rest' = rstrip rest in if unicode.is_space c && is_empty_text rest' then [] else c ∷ rest'

  unfoldable pub lower_text : Text → Text
  lower_text [] = []
  lower_text (c ∷ rest) = unicode.lower c ++ lower_text rest

  unfoldable pub normalize_slug : Text → Text
  normalize_slug raw = map underscored (lower_text (rstrip (lstrip raw)))

  unfoldable pub create_role : ℕ → Text → Option String → Exec Role
  create_role id name description = do
    let slug = normalize_slug name
    validate_slug slug
    existing ← get_role_by_name slug
    raise_if (is_some existing) (value_error role_exists)
    let role : Role = record { id = id; name = slug; description = description; is_builtin = false }
    add_role role
    pure role

-- is_builtin DESC, name ASC; how the database collates two names is a parameter.
abbrev pub role_before : (Text → Text → Bool) → Role → Role → Bool
role_before collates a b =
    (a.is_builtin && not b.is_builtin)
    || ((a.is_builtin || not b.is_builtin) && collates a.name b.name)

unfoldable pub list_roles : (Text → Text → Bool) → Exec (List Role)
list_roles collates = gets (λ db. sort_by (role_before collates) db.roles)

abbrev pub role_rows : ℕ → Database → List Role
role_rows id db = select (λ r. r.id == id) db.roles

unfoldable pub get_role : ℕ → Exec (Option Role)
get_role role_id = gets (λ db. get_row (role_rows role_id db))

unfoldable pub update_role : Role → Option String → Exec Role
update_role role description = do
  modify (λ db. record db {
    roles =
        update_where (λ r. r.id == role.id) (λ r. record r { description = description }) db.roles;
  })
  pure (record role { description = description })

abbrev pub holds : ℕ → Option ℕ → Bool
holds id none = false
holds id (some role_id) = role_id == id

-- The columns `role_id` of users and of signup requests are declared ondelete="SET NULL".
unfoldable pub remove_role : ℕ → Database → Database
remove_role id db = record db {
  roles = select (λ r. not (r.id == id)) db.roles;
  users = update_where (λ u. holds id u.role_id) (λ u. record u { role_id = none }) db.users;
  signup_requests =
      update_where (λ s. holds id s.role_id) (λ s. record s { role_id = none }) db.signup_requests;
}

unfoldable pub delete_role : Role → Exec (Unit {0})
delete_role role = do
  raise_if role.is_builtin (value_error role_builtin)
  user_count ← gets (λ db. count_where (λ u. holds role.id u.role_id) db.users)
  raise_if (ltb 0 user_count) (value_error role_in_use)
  modify (remove_role role.id)
