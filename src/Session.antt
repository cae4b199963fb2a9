-- ===== src/Session.antt =====
-- backend/src/app/services/session_service.py. The clock, the random bytes and the UUIDs that a
-- call draws are arguments; a condition of a SELECT or an UPDATE is a test on a row.
mod Tests
pub mod Cookie
pub mod Lookup
pub mod Revoke
pub mod Invariant
use factorial.Prelude.{
  codes, ℕ, zero, suc, ◌+◌, ◌-◌, String, Bool, false, not, ◌&&◌, ◌||◌, Option, none, some, List, [],
  ◌∷◌, ◌++◌, ltb, leb, ◌==◌, str_eq, list_eq, if◌then◌else◌, is_none, is_some, select, update_where,
  count_where, length,
}
use factorial.Prelude.Sorting.{order_by_desc}
use factorial.Config.{Settings, minutes, days}
use factorial.Model.{Session}
use factorial.Database.{
  Exec, integrity_error, pure, gets, scalar_one_or_none, ◌>>=◌, ◌>>◌, raise_if, modify,
}
use factorial.Session.Cookie.{encode_id, decode_id}

pub record NewSession : Type 0 where
  pub cookie_value : List ℕ
  pub csrf_token : String
  pub session : Session

-- s[:n], of the code points
abbrev pub take_chars : ℕ → String → String
take_chars zero s = ""
take_chars (suc n) String.[] = ""
take_chars (suc n) (String.◌∷◌ c s) = String.◌∷◌ c (take_chars n s)

-- (user_agent or "")[:256] or None
abbrev pub short_user_agent : Option String → Option String
short_user_agent none = none
short_user_agent (some s) =
    let short = take_chars 256 s in if str_eq short "" then none else some short

-- `id` is the primary key, and `public_id` is declared unique.
abbrev pub clashes : Session → Session → Bool
clashes s row = list_eq row.id s.id || row.public_id == s.public_id

unfoldable pub add_session : Session → Exec (Unit {0})
add_session s = do
  rows ← gets (λ db. select (clashes s) db.sessions)
  raise_if (ltb 0 (length rows)) integrity_error
  modify (λ db. record db { sessions = db.sessions ++ s ∷ [] })

-- What a call draws from the clock and from the sources of randomness.
pub record Draws : Type 0 where
  pub now : ℕ
  pub raw_id : List ℕ
  pub csrf_token : String
  pub public_id : ℕ
  pub family_id : ℕ

abbrev pub or_fresh : Option ℕ → ℕ → ℕ
or_fresh none fresh = fresh
or_fresh (some given) fresh = given

abbrev pub new_row : Settings → Draws → ℕ → Option String → Option String → Option ℕ → Session
new_row settings d user_id user_agent ip family_id = record {
  id = d.raw_id;
  public_id = d.public_id;
  user_id = user_id;
  family_id = or_fresh family_id d.family_id;
  created_at = d.now;
  last_used_at = d.now;
  idle_expires_at = d.now + days settings.cookie_session_idle_days;
  absolute_expires_at = d.now + days settings.cookie_session_absolute_days;
  revoked_at = none;
  user_agent = short_user_agent user_agent;
  ip = ip;
}

unfoldable pub create_session :
    Settings → Draws → ℕ → Option String → Option String → Option ℕ → Exec NewSession
create_session settings d user_id user_agent ip family_id = do
  let session = new_row settings d user_id user_agent ip family_id
  add_session session
  pure (record { cookie_value = encode_id d.raw_id; csrf_token = d.csrf_token; session = session })

-- _LAST_USED_THROTTLE
abbrev pub last_used_throttle : ℕ
last_used_throttle = minutes 1

abbrev pub touched : Settings → ℕ → Session → Session
touched settings now s = record s {
  last_used_at = now;
  idle_expires_at = now + days settings.cookie_session_idle_days;
}

-- A write to the object is a write to the row with its primary key.
unfoldable pub touch : Settings → ℕ → Session → Exec Session
touch settings now s =
    if ltb last_used_throttle (now - s.last_used_at)
    then (do
      modify (λ db. record db {
        sessions = update_where (λ row. list_eq row.id s.id) (touched settings now) db.sessions;
      })
      pure (touched settings now s))
    else pure s

unfoldable pub check_session : Settings → ℕ → Option Session → Exec (Option Session)
check_session settings now none = pure none
check_session settings now (some s) =
    if is_some s.revoked_at
    then pure none
    else if leb s.absolute_expires_at now
    then pure none
    else if leb s.idle_expires_at now
    then pure none
    else do s' ← touch settings now s; pure (some s')

unfoldable pub lookup_by_id : Settings → ℕ → Option (List ℕ) → Exec (Option Session)
lookup_by_id settings now none = pure none
lookup_by_id settings now (some raw_id) = do
  rows ← gets (λ db. select (λ row. list_eq row.id raw_id) db.sessions)
  session ← scalar_one_or_none rows
  check_session settings now session

unfoldable pub lookup_session_by_cookie : Settings → ℕ → List ℕ → Exec (Option Session)
lookup_session_by_cookie settings now cookie_value =
    lookup_by_id settings now (decode_id cookie_value)

abbrev pub revoke_at : ℕ → Session → Session
revoke_at now s = record s { revoked_at = some now }

-- UPDATE ... WHERE p AND revoked_at IS NULL, with the number of rows that it changed.
unfoldable pub revoke_where : ℕ → (Session → Bool) → Exec ℕ
revoke_where now p = do
  count ← gets (λ db. count_where (λ s. p s && is_none s.revoked_at) db.sessions)
  modify (λ db. record db {
    sessions = update_where (λ s. p s && is_none s.revoked_at) (revoke_at now) db.sessions;
  })
  pure count

unfoldable pub revoke_session : ℕ → List ℕ → Exec (Unit {0})
revoke_session now session_id = do revoke_where now (λ s. list_eq s.id session_id); pure tt

unfoldable pub revoke_by_public_id : ℕ → ℕ → ℕ → Exec Bool
revoke_by_public_id now user_id public_id = do
  count ← revoke_where now (λ s. s.public_id == public_id && s.user_id == user_id)
  pure (ltb 0 count)

unfoldable pub revoke_family : ℕ → ℕ → Exec ℕ
revoke_family now family_id = revoke_where now (λ s. s.family_id == family_id)

-- The condition of `list_user_sessions`.
abbrev pub is_listed : ℕ → ℕ → Session → Bool
is_listed now user_id s =
    s.user_id == user_id
    && (is_none s.revoked_at && (ltb now s.idle_expires_at && ltb now s.absolute_expires_at))

unfoldable pub list_user_sessions : ℕ → ℕ → Exec (List Session)
list_user_sessions now user_id =
    gets (λ db. order_by_desc (λ s. s.last_used_at) (select (is_listed now user_id) db.sessions))

abbrev pub is_ascii : String → Bool
is_ascii s = count_where (λ c. leb 128 c) (codes s) == 0

-- `hmac.compare_digest` of two texts: it raises a TypeError, here none, where one has a character that is not ASCII.
unfoldable pub compare_digest : String → String → Option Bool
compare_digest a b = if is_ascii a && is_ascii b then some (str_eq a b) else none

-- A missing token and an empty one are alike.
unfoldable pub csrf_tokens_match : Option String → Option String → Option Bool
csrf_tokens_match none cookie = some false
csrf_tokens_match (some header) none = some false
csrf_tokens_match (some header) (some cookie) =
    if str_eq header "" || str_eq cookie "" then some false else compare_digest header cookie

-- The loop of `logout_all` in backend/src/app/api/v1/endpoints/auth.py
unfoldable pub revoke_each : ℕ → List Session → Exec (Unit {0})
revoke_each now [] = pure tt
revoke_each now (s ∷ rest) = let more = revoke_each now rest in revoke_session now s.id >> more

abbrev revoke_own_family : ℕ → Option ℕ → Exec (Unit {0})
revoke_own_family now none = pure tt
revoke_own_family now (some family_id) = do revoke_family now family_id; pure tt

-- `logout_all`, for the user and the family of the caller; the clock is read once.
unfoldable pub logout_all : ℕ → ℕ → Option ℕ → Exec (Unit {0})
logout_all now user_id family_id = do
  revoke_own_family now family_id
  sessions ← list_user_sessions now user_id
  revoke_each now sessions
