-- ===== src/Access/Found.antt =====
-- The session that the cookie of a request finds.
use factorial.Prelude.{
  ℕ, ◌≡◌, refl, inl, inr, Option, none, some, List, [], ◌∷◌, arith, Option-cases,
}
use mathlib.Core.Path.{subst}
use factorial.Config.{Settings}
use factorial.Model.{Session}
use factorial.Database.{Database, Result, ok, scalar_one_or_none, ◌>>=◌}
use factorial.Session.{lookup_session_by_cookie, lookup_by_id, check_session, touch}
use factorial.Session.Cookie.{decode_id}
use factorial.Session.Lookup.{IsAlive, rows_of, after_use}

module _ (settings : Settings) (now : ℕ) where
  -- A session that a lookup of a row gives back is alive, and that of the row but for its times.
  check-IsAlive_only :
      (s t : Session) (db : Database)
      → (check_session settings now (some s) db).0 ≡ ok (some t)
      → IsAlive now s × (t ≡ after_use settings now s)
  unfolding check_session touch
  check-IsAlive_only s t db h = ground (arith, h)

  abbrev SameAccounts : Database → Database → Type 0
  SameAccounts out db = (out.users ≡ db.users) × (out.roles ≡ db.roles)

  check_keeps :
      (s : Option Session) (db : Database) → SameAccounts (check_session settings now s db).1 db
  unfolding check_session touch
  check_keeps none db = (refl, refl)
  check_keeps (some s) db = (ground arith, ground arith)

  pub record IsFound (cookie : List ℕ) (t : Session) (db : Database) : Type 0 where
    pub raw : List ℕ
    pub session : Session
    pub decoded : decode_id cookie ≡ some raw
    pub row : rows_of raw db ≡ session ∷ []
    pub alive : IsAlive now session
    pub used : t ≡ after_use settings now session

  -- The lookup, by the rows that its SELECT gives.
  abbrev of_rows : List Session → Database → Result (Option Session) × Database
  of_rows rows = scalar_one_or_none rows >>= check_session settings now

  rows-IsFound :
      (cookie raw : List ℕ) (rows : List Session) (t : Session) (db : Database)
      → decode_id cookie ≡ some raw
      → rows_of raw db ≡ rows
      → (of_rows rows db).0 ≡ ok (some t)
      → IsFound cookie t db
  unfolding check_session
  rows-IsFound cookie raw [] t db decoded rows h = absurd (grind (arith, h))
  rows-IsFound cookie raw (s ∷ []) t db decoded rows h =
      let only = check-IsAlive_only s t db h in
      record {
        raw = raw;
        session = s;
        decoded = decoded;
        row = rows;
        alive = only.0;
        used = only.1;
      }
  rows-IsFound cookie raw (s ∷ s' ∷ more) t db decoded rows h = absurd (grind (arith, h))

  pub lookup-IsFound :
      (cookie : List ℕ) (t : Session) (db : Database)
      → (lookup_session_by_cookie settings now cookie db).0 ≡ ok (some t)
      → IsFound cookie t db
  unfolding lookup_session_by_cookie lookup_by_id
  lookup-IsFound cookie t db h = elim (Option-cases (decode_id cookie)) [
    | inl bad ↦
        absurd (grind (arith, subst (λ o. (lookup_by_id settings now o db).0 ≡ ok (some t)) bad h))
    | inr (raw, decoded) ↦
        rows-IsFound cookie raw (rows_of raw db) t db decoded refl
          (subst (λ o. (lookup_by_id settings now o db).0 ≡ ok (some t)) decoded h)
  ]

  rows_keep : (rows : List Session) (db : Database) → SameAccounts (of_rows rows db).1 db
  rows_keep [] db = check_keeps none db
  rows_keep (s ∷ []) db = check_keeps (some s) db
  rows_keep (s ∷ s' ∷ more) db = (refl, refl)

  pub lookup_keeps :
      (cookie : List ℕ) (db : Database)
      → SameAccounts (lookup_session_by_cookie settings now cookie db).1 db
  unfolding lookup_session_by_cookie lookup_by_id
  lookup_keeps cookie db = elim (Option-cases (decode_id cookie)) [
    | inl bad ↦ rw bad (refl, refl)
    | inr (raw, decoded) ↦ rw decoded (rows_keep (rows_of raw db) db)
  ]

  pub after_use_same :
      (s : Session)
      → ((after_use settings now s).user_id ≡ s.user_id)
        × ((after_use settings now s).id ≡ s.id)
        × ((after_use settings now s).family_id ≡ s.family_id)
  after_use_same s = (ground arith, ground arith, ground arith)
