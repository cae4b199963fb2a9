-- ===== src/Database.antt =====
-- What a service works on: the session of the database, as the rows of each table, with Python's
-- exceptions. A flush is refused where it would break a column that the models declare unique.
use factorial.Prelude.{Bool, Option, none, some, List, [], ◌∷◌, if◌then◌else◌}
use factorial.Model.{
  User, Role, SignupRequest, SetupToken, Session, Experiment, ExperimentShare, Simulator,
}

pub record Database : Type 0 where
  pub users : List User
  pub roles : List Role
  pub signup_requests : List SignupRequest
  pub setup_tokens : List SetupToken
  pub sessions : List Session
  pub experiments : List Experiment
  pub shares : List ExperimentShare
  pub simulators : List Simulator

abbrev pub empty : Database
empty = record {
  users = [];
  roles = [];
  signup_requests = [];
  setup_tokens = [];
  sessions = [];
  experiments = [];
  shares = [];
  simulators = [];
}

-- The texts of the `ValueError`s that the services raise.
pub data Message : Type 0 where
  -- session and setup tokens
  invalid_purpose link_used link_expired invalid_link user_not_found : Message
  -- signups
  signup_pending_or_approved email_registered both_roles no_role signup_not_found : Message
  signup_already invalid_invite invite_used invite_expired : Message
  -- roles
  role_not_found role_name_required role_name_too_long role_name_malformed role_exists : Message
  role_builtin role_in_use : Message
  -- admins
  user_exists last_admin_demoted last_admin_deactivated : Message

pub data Error : Type 0 where
  value_error : Message → Error
  integrity_error : Error
  key_error : Error
  multiple_results_found : Error
  -- TypeError and AttributeError
  type_error : Error

pub data Result (A : Type 0) : Type 0 where
  ok : A → Result A
  err : Error → Result A

-- What was written before a raise stays written until the endpoint rolls back, so the rows come
-- back beside the error too.
abbrev pub Exec : Type 0 → Type 0
Exec A = Database → Result A × Database

module _ {A : Type 0} where
  abbrev pub pure : A → Exec A
  pure a db = (ok a, db)

  abbrev pub raise : Error → Exec A
  raise e db = (err e, db)

  abbrev pub gets : (Database → A) → Exec A
  gets f db = (ok (f db), db)

module _ {A : Type 0} where
  -- result.scalar_one_or_none()
  abbrev pub scalar_one_or_none : List A → Exec (Option A)
  scalar_one_or_none [] = pure none
  scalar_one_or_none (x ∷ []) = pure (some x)
  scalar_one_or_none (x ∷ y ∷ rest) = raise multiple_results_found

  -- await db.get(Table, id), of the rows with that primary key
  abbrev pub get_row : List A → Option A
  get_row [] = none
  get_row (x ∷ xs) = some x

infixl 5 ◌>>=◌ ◌>>◌
abbrev pub ◌>>=◌ : {A B : Type 0} → Exec A → (A → Exec B) → Exec B
◌>>=◌ m f db = let (r, db') = m db in elim r [ ok a ↦ f a db' | err e ↦ raise e db' ]

abbrev pub ◌>>◌ : {A B : Type 0} → Exec A → Exec B → Exec B
m >> k = m >>= λ _. k

abbrev pub raise_if : Bool → Error → Exec (Unit {0})
raise_if c e db = (if c then err e else ok tt, db)

abbrev pub modify : (Database → Database) → Exec (Unit {0})
modify f db = (ok tt, f db)

-- get_db_session: a request commits what it wrote if it returns, and rolls back if it raises.
abbrev pub transaction : {A : Type 0} → Exec A → Exec A
transaction m db = let (r, db') = m db in elim r [ ok a ↦ (ok a, db') | err e ↦ (err e, db) ]
