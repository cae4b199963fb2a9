-- ===== src/Session/Lookup.antt =====
-- When the cookie of a request finds its session.
use factorial.Prelude.{
  ℕ, ◌+◌, ◌-◌, ◌≤◌, ◌<◌, String, ◌≡◌, refl, ap, ◌∙◌, ◌⊎◌, inl, inr, Option, none, some, List, [],
  ◌∷◌, ◌++◌, arith, ltb, if◌then◌else◌, list_eq, list_eq_self, length, select, All, select-append,
  select_none_of,
}
use factorial.Config.{Settings, days}
use factorial.Model.{Session}
use factorial.Database.{Database, Result, ok}
use factorial.Session.{
  touch, lookup_by_id, NewSession, Draws, new_row, create_session, add_session,
  lookup_session_by_cookie, touched, check_session, last_used_throttle, clashes,
}
use factorial.Session.Cookie.Roundtrip.{decode_id-encode_id}
use factorial.Session.Cookie.{IsByte, session_id_bytes, encode_id, decode_id}

-- Not revoked, and neither deadline reached.
abbrev pub IsAlive : ℕ → Session → Type 0
IsAlive now s = (s.revoked_at ≡ none) × (now < s.idle_expires_at) × (now < s.absolute_expires_at)

-- The row as a lookup leaves it: touched if the last use is more than a minute ago.
abbrev pub after_use : Settings → ℕ → Session → Session
after_use settings now s =
    if ltb last_used_throttle (now - s.last_used_at) then touched settings now s else s

abbrev pub rows_of : List ℕ → Database → List Session
rows_of raw db = select (λ row. list_eq row.id raw) db.sessions

module _ (settings : Settings) (now : ℕ) where
  check_alive :
      (s : Session) (db : Database)
      → IsAlive now s
      → (check_session settings now (some s) db).0 ≡ ok (some (after_use settings now s))
  unfolding check_session touch
  check_alive s db h = ground arith

  check_dead :
      (s : Session) (db : Database)
      → ¬ IsAlive now s
      → check_session settings now (some s) db ≡ (ok none, db)
  unfolding check_session touch
  check_dead s db h =
      let h' =
        λ (a : s.revoked_at ≡ none) (b : now < s.idle_expires_at) (c : now < s.absolute_expires_at).
          h (a, b, c) in
      ground (arith, h')

  module _ (cookie raw : List ℕ) (s : Session) (db : Database)
      (decoded : decode_id cookie ≡ some raw) (row : rows_of raw db ≡ s ∷ []) where
    -- Of a cookie whose id has one row: an alive session is found, touched if it is due; of any
    -- other the lookup returns None and writes nothing.
    pub lookup_session_by_cookie_lem :
        (IsAlive now s
          → (lookup_session_by_cookie settings now cookie db).0
            ≡ ok (some (after_use settings now s)))
        × (¬ IsAlive now s → lookup_session_by_cookie settings now cookie db ≡ (ok none, db))
    unfolding lookup_session_by_cookie lookup_by_id
    lookup_session_by_cookie_lem =
        (λ h. rw (decoded, row) (check_alive s db h), λ h. rw (decoded, row) (check_dead s db h))

module _ (settings : Settings) (d : Draws) (user_id : ℕ) (user_agent ip : Option String)
    (family_id : Option ℕ) (db : Database)
    (fresh : select (clashes (new_row settings d user_id user_agent ip family_id)) db.sessions
      ≡ []) where
  abbrev pub row : Session
  row = new_row settings d user_id user_agent ip family_id

  abbrev pub created : Result NewSession × Database
  created = create_session settings d user_id user_agent ip family_id db

  pub create_appends : created ≡ (
    ok (record { cookie_value = encode_id d.raw_id; csrf_token = d.csrf_token; session = row }),
    record db { sessions = db.sessions ++ row ∷ [] },
  )
  unfolding create_session add_session
  create_appends = ground arith

  no_other_row : rows_of d.raw_id db ≡ []
  no_other_row = select_none_of _ (λ r. list_eq r.id d.raw_id) db.sessions (λ x h. rw h) fresh

  pub one_row : rows_of d.raw_id (record db { sessions = db.sessions ++ row ∷ [] }) ≡ row ∷ []
  one_row = rw (
    select-append (λ r. list_eq r.id d.raw_id) db.sessions (row ∷ []),
    no_other_row,
    list_eq_self d.raw_id,
  )

  dead :
      (later : ℕ)
      → (d.now + days settings.cookie_session_idle_days ≤ later)
        ⊎ (d.now + days settings.cookie_session_absolute_days ≤ later)
      → ¬ IsAlive later row
  dead later (inl idle) alive = omega arith
  dead later (inr absolute) alive = omega arith

  module _ (bytes : All IsByte d.raw_id) (width : length d.raw_id ≡ session_id_bytes)
      (later : ℕ) where
    after_create :
        (lookup_session_by_cookie settings later (encode_id d.raw_id) created.1).0
        ≡ (check_session settings later (some row) created.1).0
    unfolding lookup_session_by_cookie lookup_by_id
    after_create = rw (create_appends, decode_id-encode_id d.raw_id bytes width, one_row)

    -- A login draws 32 bytes that no row has. It succeeds, and until the idle and the absolute
    -- deadline its cookie finds the new session; from the earlier of the two on it finds none.
    pub lookup-create_session :
        (ns : NewSession) × (created.0 ≡ ok ns)
        × (ns.session ≡ row)
        × (later < d.now + days settings.cookie_session_idle_days
            → later < d.now + days settings.cookie_session_absolute_days
            → (lookup_session_by_cookie settings later ns.cookie_value created.1).0
              ≡ ok (some (after_use settings later row)))
        × ((d.now + days settings.cookie_session_idle_days ≤ later)
              ⊎ (d.now + days settings.cookie_session_absolute_days ≤ later)
            → (lookup_session_by_cookie settings later ns.cookie_value created.1).0 ≡ ok none)
    lookup-create_session = (
      record { cookie_value = encode_id d.raw_id; csrf_token = d.csrf_token; session = row },
      ap (λ r. r.0) create_appends,
      refl,
      λ idle absolute.
          after_create ∙ check_alive settings later row created.1 (refl, idle, absolute),
      λ over.
          after_create ∙ ap (λ r. r.0) (check_dead settings later row created.1 (dead later over)),
    )

check_found :
    (settings : Settings) (now : ℕ) (s found : Session) (db : Database)
    → (check_session settings now (some s) db).0 ≡ ok (some found)
    → IsAlive now s
unfolding check_session
check_found settings now s found db hit = ground arith

-- What a lookup finds is alive.
pub found-IsAlive :
    (settings : Settings) (now : ℕ) (cookie raw : List ℕ) (s found : Session) (db : Database)
    → decode_id cookie ≡ some raw
    → rows_of raw db ≡ s ∷ []
    → (lookup_session_by_cookie settings now cookie db).0 ≡ ok (some found)
    → IsAlive now s
unfolding lookup_session_by_cookie lookup_by_id
found-IsAlive settings now cookie raw s found db decoded row hit =
    check_found settings now s found db (rw (decoded, row) at hit)
