-- ===== src/Auth.antt =====
-- internal/auth/service.go: the admin password and the console sessions.
-- The database may refuse any statement: `Faults` says which. bcrypt, sha256 and the random source
-- are not part of this repository: `Crypto` and `Draws` hold what they return. A time is in
-- nanoseconds, and the readings of the clock within one critical section are one.
pub mod Limit
pub mod Sessions
mod Tests
use elastic_fruit_runner.Base.{
  ℕ, zero, suc, ◌+◌, ◌-◌, ◌*◌, ◌/◌, Bool, true, false, not, String, Option, none, some, List, [],
  ◌∷◌, ◌++◌, ltb, leb, eqb, ◌==◌, if◌then◌else◌, length, keep_if, ◌⊎◌, inl, inr,
}
use elastic_fruit_runner.Storage.Console.{
  ConsoleTables, ConsoleSession, count_admin, get_admin_password_hash, upsert_admin_password,
  delete_admin, delete_all_sessions, delete_expired_sessions, delete_session, get_session,
  insert_session,
}

pub data AuthError : Type 0 where
  already_setup invalid_credentials invalid_password login_blocked session_not_found : AuthError
  database_failed hash_failed token_failed : AuthError

pub data Statement : Type 0 where
  counts_admin upserts_password reads_password gets_session deletes_session sweeps_sessions
        inserts_session begins deletes_sessions deletes_admin commits :
      Statement

abbrev pub Faults : Type 0
Faults = Statement → Bool

pub record Session : Type 0 where
  pub token : String
  pub csrf_token : String
  pub expires_at : ℕ

pub record Service : Type 0 where
  pub db : ConsoleTables
  pub failed_attempts : List ℕ
  pub blocked_until : ℕ

-- A password is its bytes. `generate` and `compare` are bcrypt's functions on a hash and a password,
-- `hash_token` is the hex text of a SHA-256.
pub record Crypto : Type 0 where
  pub generate : List ℕ → Option String
  pub compare : String → List ℕ → Bool
  pub hash_token : String → String

-- The two texts that `randomToken` returns to `createSession`, and the time of the call.
pub record Draws : Type 0 where
  pub token : Option String
  pub csrf_token : Option String
  pub now : ℕ

abbrev pub second : ℕ
second = 1000000000

abbrev pub session_lifetime : ℕ
session_lifetime = 86400 * second

abbrev pub unix : ℕ → ℕ
unix t = t / second

abbrev pub Answer : Type 0
Answer = AuthError ⊎ Session

unfoldable pub validate_password : List ℕ → Bool
validate_password password = leb (length password) 72

-- `none` is an error of the database.
unfoldable pub setup_required : Faults → Service → Option Bool
setup_required fails s = if fails counts_admin then none else some (eqb (count_admin s.db) 0)

-- `none` when the login is blocked.
unfoldable pub check_login_limit : ℕ → Service → Option Service
check_login_limit now s =
    if ltb now s.blocked_until
    then none
    else some (record s {
      failed_attempts = keep_if (λ attempt. ltb now (attempt + 300 * second)) s.failed_attempts;
    })

unfoldable pub record_login_failure : ℕ → Service → Service
record_login_failure now s =
    let attempts = s.failed_attempts ++ (now ∷ []) in
    if leb 5 (length attempts)
    then record s { blocked_until = now + 60 * second; failed_attempts = [] }
    else record s { failed_attempts = attempts }

unfoldable pub clear_login_failures : Service → Service
clear_login_failures s = record s { failed_attempts = []; blocked_until = 0 }

-- A transaction that does not commit is rolled back.
unfoldable pub reset : Faults → Service → Service × Bool
reset fails s =
    if fails begins
    then (s, false)
    else if fails deletes_sessions
    then (s, false)
    else if fails deletes_admin
    then (s, false)
    else if fails commits
    then (s, false)
    else (record s { db = delete_admin (delete_all_sessions s.db) }, true)

module _ (crypto : Crypto) (fails : Faults) where
  -- Both random texts are drawn.
  unfoldable pub store_session : String → String → ℕ → Service → Service × Answer
  store_session token csrf_token now s =
      let expires_at = now + session_lifetime in
      let swept : Service = record s { db = delete_expired_sessions s.db (unix now) } in
      if fails sweeps_sessions
      then (s, inl database_failed)
      else if fails inserts_session
      then (swept, inl database_failed)
      else elim (insert_session swept.db record {
        token_hash = crypto.hash_token token;
        csrf_token = csrf_token;
        expires_at = unix expires_at;
        created_at = unix now;
      }) [
        | none ↦ (swept, inl database_failed)
        | some db ↦ (
          record swept { db = db },
          inr (record { token = token; csrf_token = csrf_token; expires_at = expires_at }),
        )
      ]

  unfoldable pub create_session : Draws → Service → Service × Answer
  unfolding store_session
  create_session d s = elim d.token [
    | none ↦ (s, inl token_failed)
    | some token ↦ elim d.csrf_token [
      | none ↦ (s, inl token_failed)
      | some csrf_token ↦ store_session token csrf_token d.now s
    ]
  ]

  -- From `validatePassword` on.
  unfoldable pub save_password : Draws → List ℕ → Service → Service × Answer
  unfolding validate_password create_session
  save_password d password s =
      if not (validate_password password)
      then (s, inl invalid_password)
      else elim (crypto.generate password) [
        | none ↦ (s, inl hash_failed)
        | some hash ↦
            if fails upserts_password
            then (s, inl database_failed)
            else create_session d (record s { db = upsert_admin_password s.db hash (unix d.now) })
      ]

  unfoldable pub setup : Draws → List ℕ → Service → Service × Answer
  unfolding setup_required save_password
  setup d password s = elim (setup_required fails s) [
    | none ↦ (s, inl database_failed)
    | some false ↦ (s, inl already_setup)
    | some true ↦ save_password d password s
  ]

  -- From the read of the hash on.
  unfoldable pub verify_login : Draws → List ℕ → Service → Service × Answer
  unfolding record_login_failure clear_login_failures create_session
  verify_login d password s =
      if fails reads_password
      then (s, inl database_failed)
      else elim (get_admin_password_hash s.db) [
        | none ↦ (s, inl invalid_credentials)
        | some hash ↦
            if crypto.compare hash password
            then create_session d (clear_login_failures s)
            else (record_login_failure d.now s, inl invalid_credentials)
      ]

  unfoldable pub login : Draws → List ℕ → Service → Service × Answer
  unfolding check_login_limit verify_login
  login d password s = elim (check_login_limit d.now s) [
    | none ↦ (s, inl login_blocked)
    | some s' ↦ verify_login d password s'
  ]

  unfoldable pub find_session : ℕ → String → Service → Service × Answer
  find_session now token s =
      let hash = crypto.hash_token token in
      if token == ""
      then (s, inl session_not_found)
      else if fails gets_session
      then (s, inl database_failed)
      else elim (get_session s.db hash) [
        | none ↦ (s, inl session_not_found)
        | some row ↦
            if leb (row.expires_at * second) now
            then (
              (if fails deletes_session then s else record s { db = delete_session s.db hash }),
              inl session_not_found,
            )
            else (
              s,
              inr (record {
                token = token;
                csrf_token = row.csrf_token;
                expires_at = row.expires_at * second;
              }),
            )
      ]

  -- The answer is whether there was no error.
  unfoldable pub logout : String → Service → Service × Bool
  logout token s =
      if token == ""
      then (s, true)
      else if fails deletes_session
      then (s, false)
      else (record s { db = delete_session s.db (crypto.hash_token token) }, true)
