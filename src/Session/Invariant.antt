-- ===== src/Session/Invariant.antt =====
-- What holds of every row of `sessions`, whatever calls were made: the deadlines are counted from
-- the creation and from the last recorded use.
use factorial.Prelude.{
  ◌<◌, All-select, ℕ, ◌+◌, ◌-◌, String, ◌≡◌, refl, inl, inr, Bool, ◌&&◌, Option, none, some, List,
  [], ◌∷◌, arith, ltb, ◌==◌, Bool-cases, is_none, list_eq, select, All, All-update_where,
  All-append,
}
use factorial.Config.{Settings, days}
use factorial.Model.{Session}
use factorial.Database.{ok, Database, empty, ◌>>=◌, scalar_one_or_none}
use factorial.Session.{
  Draws, new_row, create_session, add_session, touch, touched, check_session, lookup_by_id,
  lookup_session_by_cookie, revoke_where, revoke_at, revoke_session, revoke_by_public_id,
  revoke_family, last_used_throttle,
}
use factorial.Session.Cookie.{decode_id}
use factorial.Session.Lookup.{IsAlive, rows_of, found-IsAlive}

pub record IsDated (settings : Settings) (s : Session) : Type 0 where
  pub idle : s.idle_expires_at ≡ s.last_used_at + days settings.cookie_session_idle_days
  pub absolute : s.absolute_expires_at ≡ s.created_at + days settings.cookie_session_absolute_days

-- The calls of the service that write, in any order and with any arguments.
pub data Step (settings : Settings) : Database → Database → Type 0 where
  created :
      (d : Draws) (user_id : ℕ) (user_agent ip : Option String) (family_id : Option ℕ)
      (db : Database)
      → Step settings db (create_session settings d user_id user_agent ip family_id db).1
  looked_up :
      (now : ℕ) (cookie : List ℕ) (db : Database)
      → Step settings db (lookup_session_by_cookie settings now cookie db).1
  revoked :
      (now : ℕ) (session_id : List ℕ) (db : Database)
      → Step settings db (revoke_session now session_id db).1
  revoked_public :
      (now user_id public_id : ℕ) (db : Database)
      → Step settings db (revoke_by_public_id now user_id public_id db).1
  revoked_family :
      (now family_id : ℕ) (db : Database) → Step settings db (revoke_family now family_id db).1

pub data Reach (settings : Settings) : Database → Type 0 where
  here : Reach settings empty
  next : {a b : Database} → Reach settings a → Step settings a b → Reach settings b

module _ (settings : Settings) where
  abbrev AllDated : Database → Type 0
  AllDated db = All (IsDated settings) db.sessions

  add-AllDated :
      (s : Session) (db : Database)
      → IsDated settings s
      → AllDated db
      → AllDated (add_session s db).1
  unfolding add_session
  add-AllDated s db h all =
      ground (arith, All-append (IsDated settings) db.sessions (s ∷ []) all (h, tt))

  created-AllDated :
      (d : Draws) (user_id : ℕ) (user_agent ip : Option String) (family_id : Option ℕ)
      (db : Database)
      → AllDated db
      → AllDated (create_session settings d user_id user_agent ip family_id db).1
  unfolding create_session
  created-AllDated d user_id user_agent ip family_id db all =
      let row = new_row settings d user_id user_agent ip family_id in
      ground (arith, add-AllDated row db (record { idle = refl; absolute = refl }) all)

  touch-AllDated :
      (now : ℕ) (s : Session) (db : Database) → AllDated db → AllDated (touch settings now s db).1
  unfolding touch
  touch-AllDated now s db all = elim (Bool-cases (ltb last_used_throttle (now - s.last_used_at))) [
    | inl due ↦ rw due (
        All-update_where (IsDated settings) (IsDated settings) (λ row. list_eq row.id s.id)
          (touched settings now) db.sessions
          (λ x hit h. record { idle = refl; absolute = h.absolute }) (λ x miss h. h) all)
    | inr early ↦ rw early all
  ]

  revoke_where-AllDated :
      (now : ℕ) (p : Session → Bool) (db : Database)
      → AllDated db
      → AllDated (revoke_where now p db).1
  unfolding revoke_where
  revoke_where-AllDated now p db all =
      All-update_where (IsDated settings) (IsDated settings) (λ s. p s && is_none s.revoked_at)
        (revoke_at now) db.sessions (λ x hit h. record { idle = h.idle; absolute = h.absolute })
        (λ x miss h. h) all

  check-AllDated :
      (now : ℕ) (found : Option Session) (db : Database)
      → AllDated db
      → AllDated (check_session settings now found db).1
  unfolding check_session
  check-AllDated now none db all = all
  check-AllDated now (some s) db all = ground (arith, touch-AllDated now s db all)

  then_check :
      (now : ℕ) (rows : List Session) (db : Database)
      → AllDated db
      → AllDated ((scalar_one_or_none rows >>= check_session settings now) db).1
  then_check now [] db all = check-AllDated now none db all
  then_check now (s ∷ []) db all = check-AllDated now (some s) db all
  then_check now (s ∷ t ∷ rest) db all = all

  lookup_by_id-AllDated :
      (now : ℕ) (raw : Option (List ℕ)) (db : Database)
      → AllDated db
      → AllDated (lookup_by_id settings now raw db).1
  unfolding lookup_by_id
  lookup_by_id-AllDated now none db all = all
  lookup_by_id-AllDated now (some raw) db all =
      then_check now (select (λ row. list_eq row.id raw) db.sessions) db all

  Step-AllDated : {a b : Database} → Step settings a b → AllDated a → AllDated b
  unfolding lookup_session_by_cookie revoke_session revoke_by_public_id revoke_family revoke_where
  Step-AllDated (created d user_id user_agent ip family_id db) all =
      created-AllDated d user_id user_agent ip family_id db all
  Step-AllDated (looked_up now cookie db) all = lookup_by_id-AllDated now (decode_id cookie) db all
  Step-AllDated (revoked now session_id db) all =
      revoke_where-AllDated now (λ s. list_eq s.id session_id) db all
  Step-AllDated (revoked_public now user_id public_id db) all =
      revoke_where-AllDated now (λ s. s.public_id == public_id && s.user_id == user_id) db all
  Step-AllDated (revoked_family now family_id db) all =
      revoke_where-AllDated now (λ s. s.family_id == family_id) db all

  -- In a database that calls of the service made from an empty one, every session's deadlines are
  -- counted from its creation and from its last recorded use.
  pub Reach-AllDated : {db : Database} → Reach settings db → AllDated db
  Reach-AllDated here = tt
  Reach-AllDated (next r st) = Step-AllDated st (Reach-AllDated r)

-- A cookie that finds a session in such a database does so within 180 days of its creation and within
-- 30 days of its last recorded use (by the default settings), and before it was revoked.
pub session_lifetime :
    (settings : Settings) (now : ℕ) (cookie raw : List ℕ) (s found : Session) (db : Database)
    → Reach settings db
    → decode_id cookie ≡ some raw
    → rows_of raw db ≡ s ∷ []
    → (lookup_session_by_cookie settings now cookie db).0 ≡ ok (some found)
    → (now < s.created_at + days settings.cookie_session_absolute_days)
      × (now < s.last_used_at + days settings.cookie_session_idle_days)
      × (s.revoked_at ≡ none)
session_lifetime settings now cookie raw s found db reach decoded row hit =
    let dated : IsDated settings s =
      (rw row at (
        All-select (IsDated settings) (λ r. list_eq r.id raw) db.sessions
          (Reach-AllDated settings reach))).0 in
    let alive : IsAlive now s = found-IsAlive settings now cookie raw s found db decoded row hit in
    (omega (arith, dated.absolute, alive.2), omega (arith, dated.idle, alive.1), alive.0)
