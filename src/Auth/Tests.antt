-- ===== src/Auth/Tests.antt =====
-- The theorems about the admin password at a service with a password.
use elastic_fruit_runner.Base.{
  ℕ, ◌+◌, ◌≤◌, ◌≡◌, ◌≢◌, refl, true, false, String, none, some, List, [], ◌∷◌, arith, eq_iff, eqb,
  length, if◌then◌else◌, inl, keep_if,
}
use elastic_fruit_runner.Storage.Console.{
  get_admin_password_hash, insert_session, delete_expired_sessions, count_admin,
  upsert_admin_password,
}
use elastic_fruit_runner.Auth.{
  Service, Session, Crypto, Faults, Draws, session_lifetime, login_blocked, session_not_found,
  already_setup, create_session, setup, setup_required, login, find_session, logout, reset,
  clear_login_failures,
}
use elastic_fruit_runner.Auth.Limit.{logins, wrong_passwords_block, login_checks}
use elastic_fruit_runner.Auth.Sessions.{found_at, login-find_session, reset_revokes, setup-login}

-- A bcrypt that accepts the passwords of one length.
abbrev crypto : Crypto
crypto = record {
  generate = λ password. some (if eqb (length password) 3 then "three" else "other");
  compare = λ hash password. eqb (length password) 3;
  hash_token = λ token. token;
}

abbrev no_faults : Faults
no_faults statement = false

abbrev draws : ℕ → Draws
draws now = record { token = some "t"; csrf_token = some "c"; now = now }

abbrev fresh : Service
fresh = record {
  db = record { admin = none; sessions = [] };
  failed_attempts = [];
  blocked_until = 0;
}

abbrev service : Service
service = record fresh {
  db = record { admin = some (record { password_hash = "three"; created_at = 0 }); sessions = [] };
}

abbrev right : List ℕ
right = 1 ∷ 2 ∷ 3 ∷ []

abbrev wrong : List ℕ
wrong = 1 ∷ []

abbrev session : ℕ → Session
session now = record { token = "t"; csrf_token = "c"; expires_at = now + session_lifetime }

program : Unit {0}
unfolding upsert_admin_password login setup logout reset insert_session delete_expired_sessions
    get_admin_password_hash count_admin keep_if
program = tt

session-named : (session 60).token ≢ ""
session-named e = ground (arith, eq_iff "t" "")

wrong_passwords_block_example :
    let s' =
      (login crypto no_faults
        (draws 50)
        wrong
        (logins crypto no_faults (draws 0) wrong (10 ∷ 20 ∷ 30 ∷ 40 ∷ []) service)).0 in
    login crypto no_faults (draws 60) right s' ≡ (s', inl login_blocked)
unfolding program
wrong_passwords_block_example =
    wrong_passwords_block crypto no_faults (draws 0) wrong 5 "three" refl refl
      (10 ∷ 20 ∷ 30 ∷ 40 ∷ []) 50 service (draws 60) right refl refl (omega arith) refl
      (
        omega arith,
        omega arith,
        (omega arith, omega arith, (omega arith, omega arith, (omega arith, omega arith, tt))),
      )
      (omega arith) (omega arith) (omega arith)

login_checks_example :
    (0 ≤ 60)
    × ((hash : String) × (get_admin_password_hash service.db ≡ some hash)
        × (crypto.compare hash right ≡ true))
    × (login crypto no_faults (draws 60) right service
        ≡ create_session crypto no_faults (draws 60) (clear_login_failures service))
unfolding program
login_checks_example = login_checks crypto no_faults (draws 60) right service (session 60) refl

login-find_session_example :
    (find_session crypto no_faults 70 "t" (login crypto no_faults (draws 60) right service).0).1
    ≡ found_at 70 (session 60)
unfolding program
login-find_session_example =
    login-find_session crypto no_faults (draws 60) right service (session 60) 70 refl session-named
      refl

reset_revokes_example :
    ((reset no_faults service).0 ≡ (reset no_faults service).0)
    × ((find_session crypto no_faults 70 "t" (reset no_faults service).0).1 ≡ inl session_not_found)
    × (setup_required no_faults (reset no_faults service).0 ≡ some true)
unfolding program
reset_revokes_example = reset_revokes crypto no_faults service "t" 70 refl refl

setup-login_example :
    let s' = (setup crypto no_faults (draws 60) right fresh).0 in
    (login crypto no_faults (draws 90) right s'
      ≡ create_session crypto no_faults (draws 90) (clear_login_failures s'))
    × (setup crypto no_faults (draws 90) wrong s' ≡ (s', inl already_setup))
unfolding program
setup-login_example =
    setup-login crypto no_faults (draws 60) right fresh (session 60) (draws 90) wrong
      (λ hash e. refl) refl (omega arith) refl
