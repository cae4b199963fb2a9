-- ===== src/Session/Revoke.antt =====
-- What revoking does: to the sessions that it names, to all the others, and to a later lookup.
use factorial.Prelude.{
  select-update_apart, ℕ, ◌<◌, ◌≡◌, refl, ap, ◌∙◌, inl, inr, Bool, true, false, not, ◌&&◌, Option,
  none, some, List, [], ◌∷◌, arith, ltb, leb, ◌==◌, if◌then◌else◌, Bool-cases, is_none, list_eq,
  list_eq_self, list_eq_comm, select, update_where, count_where, All, All-imp, count_where-select,
  All-update_where, select_meets, select-update_where,
}
use factorial.Prelude.Sorting.{
  order_by_desc, IsDescending, order_by_desc-IsDescending, All-sort_by, count_where-sort_by,
}
use factorial.Config.{Settings}
use factorial.Model.{Session}
use factorial.Database.{Database, ok, ◌>>=◌}
use factorial.Session.{
  revoke_at, revoke_where, revoke_session, revoke_by_public_id, revoke_family, list_user_sessions,
  is_listed, lookup_session_by_cookie, revoke_each, logout_all,
}
use factorial.Session.Cookie.{decode_id}
use factorial.Session.Lookup.{IsAlive, rows_of, lookup_session_by_cookie_lem}

-- Whether a call that revokes the rows of p changes this one.
abbrev pub is_hit : (Session → Bool) → Session → Bool
is_hit p s = p s && is_none s.revoked_at

module _ (now : ℕ) (p : Session → Bool) where
  -- The rows that p does not name are as they were.
  kept :
      (q : Session → Bool) (xs : List Session)
      → ((s : Session) → p s ≡ true → (q s ≡ false) × (q (revoke_at now s) ≡ false))
      → select q (update_where (is_hit p) (revoke_at now) xs) ≡ select q xs
  kept q xs apart =
      select-update_apart q (is_hit p) (revoke_at now) xs (λ s hit. apart s (ground arith))

  -- Of the rows that p names, none is left that is not revoked.
  none_left :
      (xs : List Session)
      → ((s : Session) → p (revoke_at now s) ≡ p s)
      → count_where (is_hit p) (update_where (is_hit p) (revoke_at now) xs) ≡ 0
  none_left [] same = refl
  none_left (s ∷ xs) same = ground (arith, same s, none_left xs same)

-- Revoking a family returns the number of its sessions that were not revoked, leaves none of them,
-- and leaves the rows of every other family as they were.
pub revoke_family_lem :
    (now family_id : ℕ) (db : Database)
    → let (r, db') = revoke_family now family_id db in
      (r ≡ ok (count_where (is_hit (λ s. s.family_id == family_id)) db.sessions))
      × (count_where (is_hit (λ s. s.family_id == family_id)) db'.sessions ≡ 0)
      × (select (λ s. not (s.family_id == family_id)) db'.sessions
          ≡ select (λ s. not (s.family_id == family_id)) db.sessions)
unfolding revoke_family revoke_where
revoke_family_lem now family_id db = (
  refl,
  none_left now (λ s. s.family_id == family_id) db.sessions (λ s. refl),
  kept now (λ s. s.family_id == family_id) (λ s. not (s.family_id == family_id)) db.sessions
      (λ s h. (ground arith, ground arith)),
)

-- Revoking by a public id answers True exactly when the caller has a session of that id that is not
-- revoked, leaves none, and changes no session of another user.
pub revoke_by_public_id_lem :
    (now user_id public_id : ℕ) (db : Database)
    → let mine = λ (s : Session). s.public_id == public_id && s.user_id == user_id in
      let (r, db') = revoke_by_public_id now user_id public_id db in
      (r ≡ ok (ltb 0 (count_where (is_hit mine) db.sessions)))
      × (count_where (is_hit mine) db'.sessions ≡ 0)
      × (select (λ s. not (s.user_id == user_id)) db'.sessions
          ≡ select (λ s. not (s.user_id == user_id)) db.sessions)
unfolding revoke_by_public_id revoke_where
revoke_by_public_id_lem now user_id public_id db =
    let mine = λ (s : Session). s.public_id == public_id && s.user_id == user_id in
    (
      refl,
      none_left now mine db.sessions (λ s. refl),
      kept now mine (λ s. not (s.user_id == user_id)) db.sessions
          (λ s h. (ground arith, ground arith)),
    )

-- The row of a cookie, after every row of p was revoked.
pub rows_of-revoke_where :
    (now : ℕ) (p : Session → Bool) (raw : List ℕ) (db : Database)
    → rows_of raw (revoke_where now p db).1
      ≡ update_where (is_hit p) (revoke_at now) (rows_of raw db)
unfolding revoke_where
rows_of-revoke_where now p raw db =
    select-update_where (λ row. list_eq row.id raw) (is_hit p) (revoke_at now) db.sessions
      (λ s. refl)

pub revoked_dead :
    (later now : ℕ) (p : Session → Bool) (s : Session)
    → p s ≡ true
    → ¬ IsAlive later (if is_hit p s then revoke_at now s else s)
revoked_dead later now p s h alive = ground arith

-- After a session's family is revoked its cookie finds nothing, at any time.
pub lookup-revoke_family :
    (settings : Settings) (now later family_id : ℕ) (cookie raw : List ℕ) (s : Session)
    (db : Database)
    → decode_id cookie ≡ some raw
    → rows_of raw db ≡ s ∷ []
    → s.family_id ≡ family_id
    → (lookup_session_by_cookie settings later cookie (revoke_family now family_id db).1).0
      ≡ ok none
unfolding revoke_family
lookup-revoke_family settings now later family_id cookie raw s db decoded row same =
    let p = λ (t : Session). t.family_id == family_id in
    let s' = if is_hit p s then revoke_at now s else s in
    let db' = (revoke_where now p db).1 in
    let row' : rows_of raw db' ≡ s' ∷ [] =
      rows_of-revoke_where now p raw db ∙ ap (update_where (is_hit p) (revoke_at now)) row in
    ap (λ r. r.0)
      ((lookup_session_by_cookie_lem settings later cookie raw s' db' decoded row').1
        (revoked_dead later now p s (ground arith)))

listed-IsAlive :
    (now user_id : ℕ) (s : Session)
    → is_listed now user_id s ≡ true
    → (s.user_id ≡ user_id) × IsAlive now s
listed-IsAlive now user_id s h = ground arith

-- The sessions that a user is shown: each is the user's own and alive, none that is alive is left
-- out, and the one used last comes first.
pub list_user_sessions_lem :
    (now user_id : ℕ) (db : Database)
    → (shown : List Session) × (list_user_sessions now user_id db ≡ (ok shown, db))
      × All (λ s. (s.user_id ≡ user_id) × IsAlive now s) shown
      × ((q : Session → Bool)
          → count_where q shown ≡ count_where (λ s. q s && is_listed now user_id s) db.sessions)
      × IsDescending (λ s. s.last_used_at) shown
unfolding list_user_sessions
list_user_sessions_lem now user_id db = (
  order_by_desc (λ s. s.last_used_at) (select (is_listed now user_id) db.sessions),
  refl,
  All-sort_by _ _ _ (
      All-imp (select (is_listed now user_id) db.sessions) (listed-IsAlive now user_id)
        (select_meets (is_listed now user_id) db.sessions)),
  λ q.
      count_where-sort_by _ q (select (is_listed now user_id) db.sessions)
      ∙ count_where-select q (is_listed now user_id) db.sessions,
  order_by_desc-IsDescending (λ s. s.last_used_at) (select (is_listed now user_id) db.sessions),
)

-- `logout_all`: the ids that the loop has still to revoke cover the sessions that are alive.
module _ (now user_id : ℕ) where
  abbrev has_id : List ℕ → List Session → ℕ
  has_id raw = count_where (λ t. list_eq t.id raw)

  abbrev IsCovered : List Session → Session → Type 0
  IsCovered pending s = is_listed now user_id s ≡ true → 0 < has_id s.id pending

  revoke_covers :
      (t : Session) (pending : List Session) (db : Database)
      → All (IsCovered (t ∷ pending)) db.sessions
      → All (IsCovered pending) (revoke_session now t.id db).1.sessions
  unfolding revoke_session revoke_where
  revoke_covers t pending db h =
      All-update_where (IsCovered (t ∷ pending)) (IsCovered pending)
        (is_hit (λ s. list_eq s.id t.id)) (revoke_at now) db.sessions
        (λ s hit c listed. ground arith)
        (λ s miss c listed. ground (arith, c listed, list_eq_comm s.id t.id)) h

  revoke_each-lem :
      (pending : List Session) (db : Database)
      → All (IsCovered pending) db.sessions
      → All (IsCovered []) (revoke_each now pending db).1.sessions
  unfolding revoke_each revoke_session revoke_where
  revoke_each-lem [] db h = h
  revoke_each-lem (t ∷ pending) db h =
      revoke_each-lem pending (revoke_session now t.id db).1 (revoke_covers t pending db h)

  all-IsCovered : (xs : List Session) → All (IsCovered (select (is_listed now user_id) xs)) xs
  all-IsCovered [] = tt
  all-IsCovered (x ∷ xs) = (
    λ listed. rw listed (ground (arith, list_eq_self x.id)),
    All-imp xs (λ s c listed. ground (arith, c listed)) (all-IsCovered xs),
  )

  -- What is pending covers as much after sorting.
  pending_covers :
      (db : Database)
      → All
          (IsCovered
            (order_by_desc (λ s. s.last_used_at) (select (is_listed now user_id) db.sessions)))
          db.sessions
  pending_covers db =
      All-imp db.sessions
        (λ s c listed. omega (
          arith,
          c listed,
          count_where-sort_by (λ a b. leb b.last_used_at a.last_used_at) (λ t. list_eq t.id s.id)
              (select (is_listed now user_id) db.sessions),
        ))
        (all-IsCovered db.sessions)

  none_listed :
      (xs : List Session) → All (IsCovered []) xs → count_where (is_listed now user_id) xs ≡ 0
  none_listed [] h = refl
  none_listed (x ∷ xs) h = elim (Bool-cases (is_listed now user_id x)) [
    | inl listed ↦ absurd (omega (arith, h.0 listed))
    | inr not_listed ↦ rw not_listed (omega (arith, none_listed xs h.1))
  ]

  revoke_each_returns :
      (pending : List Session) (db : Database) → (revoke_each now pending db).0 ≡ ok tt
  unfolding revoke_each revoke_session revoke_where
  revoke_each_returns [] db = refl
  revoke_each_returns (t ∷ pending) db = revoke_each_returns pending (revoke_session now t.id db).1

  revoke_listed :
      (db : Database)
      → let (r, db') = (list_user_sessions now user_id >>= revoke_each now) db in
        (r ≡ ok tt) × (count_where (is_listed now user_id) db'.sessions ≡ 0)
  unfolding list_user_sessions
  revoke_listed db =
      let pending =
        order_by_desc (λ (s : Session). s.last_used_at)
          (select (is_listed now user_id) db.sessions) in
      (
        revoke_each_returns pending db,
        none_listed (revoke_each now pending db).1.sessions
            (revoke_each-lem pending db (pending_covers db)),
      )

  -- "Sign out everywhere" returns, and leaves the user no session that is alive, in any family.
  pub logout_all_lem :
      (family_id : Option ℕ) (db : Database)
      → let (r, db') = logout_all now user_id family_id db in
        (r ≡ ok tt) × (count_where (is_listed now user_id) db'.sessions ≡ 0)
  unfolding logout_all revoke_family revoke_where
  logout_all_lem none db = revoke_listed db
  logout_all_lem (some family_id) db = revoke_listed (revoke_family now family_id db).1
