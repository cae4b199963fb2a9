-- ===== src/Session/Tests.antt =====
-- The session service at small inputs.
use factorial.Prelude.{
  codes, ℕ, zero, suc, ◌+◌, ◌<◌, ◌≡◌, refl, true, false, none, some, List, [], ◌∷◌, arith,
  count_where, All,
}
use factorial.Config.{default_settings, days}
use factorial.Model.{Session}
use factorial.Database.{Database, Result, ok, empty}
use factorial.Session.{
  NewSession, Draws, new_row, create_session, add_session, lookup_session_by_cookie, lookup_by_id,
  check_session, touch, logout_all, is_listed, compare_digest, csrf_tokens_match,
}
use factorial.Session.Cookie.{encode_id, decode_id, IsByte}
use factorial.Session.Revoke.{logout_all_lem}
use factorial.Session.Invariant.{here, next, created, session_lifetime}

abbrev zeros : ℕ → List ℕ
zeros zero = []
zeros (suc n) = 0 ∷ zeros n

abbrev raw_id : List ℕ
raw_id = 251 ∷ 255 ∷ zeros 30

abbrev raw_bytes : All IsByte raw_id
raw_bytes = omega arith

abbrev draws : Draws
draws = record { now = 1_000; raw_id = raw_id; csrf_token = "csrf"; public_id = 7; family_id = 70 }

abbrev login : Result NewSession × Database
login = create_session default_settings draws 5 (some "curl") none none empty

abbrev first_row : Session
first_row = new_row default_settings draws 5 (some "curl") none none

abbrev first_db : Database
first_db = record empty { sessions = first_row ∷ [] }

abbrev cookie : List ℕ
cookie = encode_id raw_id

cookie_text : encode_id raw_id ≡ codes "-_8AAAAAAAAAAAAAAAAAAAAAAAAAAAAAAAAAAAAAAAA"
unfolding encode_id
cookie_text = refl

-- A character that is no digit is skipped, and a text of another length is refused.
decode_lenient :
    (decode_id (codes "-_8A!AAA AAAAAAAAAAAAAAAAAAAAAAAAAAAAAAAAAAAAA") ≡ none)
    × (decode_id (codes "AAAA") ≡ none)
unfolding decode_id
decode_lenient = (refl, refl)

csrf_cases :
    (csrf_tokens_match (some "a") (some "a") ≡ some true)
    × (csrf_tokens_match (some "") (some "") ≡ some false)
    × (csrf_tokens_match none none ≡ some false)
    × (csrf_tokens_match (some "é") (some "é") ≡ none)
unfolding csrf_tokens_match compare_digest
csrf_cases = (refl, refl, refl, refl)

login_runs : login.1 ≡ first_db
unfolding create_session add_session
login_runs = refl

-- The same, for the tests that follow.
read_back : decode_id cookie ≡ some raw_id
unfolding encode_id decode_id
read_back = refl

session_lifetime_example :
    (2_000 < 1_000 + days 180) × (2_000 < 1_000 + days 30) × (first_row.revoked_at ≡ none)
unfolding create_session add_session lookup_session_by_cookie lookup_by_id check_session touch
    encode_id decode_id
session_lifetime_example =
    session_lifetime default_settings 2_000 cookie raw_id first_row first_row first_db
      (next here (created draws 5 (some "curl") none none empty)) refl refl refl

logout_all_example :
    let (r, db') = logout_all 2_000 5 (some 70) first_db in
    (r ≡ ok tt) × (count_where (is_listed 2_000 5) db'.sessions ≡ 0)
logout_all_example = logout_all_lem 2_000 5 (some 70) first_db
