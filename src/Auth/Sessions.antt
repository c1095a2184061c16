-- ===== src/Auth/Sessions.antt =====
-- service.go: how long a session is found, and what ends it.
use elastic_fruit_runner.Base.{
  ℕ, ◌*◌, ◌≤◌, ◌≡◌, ◌≢◌, refl, sym, ap, ◌∙◌, true, false, String, some, List, arith, eq_iff, leb,
  if◌then◌else◌, inl, inr, Option-cases,
}
use elastic_fruit_runner.Storage.Console.{
  Admin, get_admin_password_hash, get_session, find_row, insert_session, delete_session,
  delete_all_sessions, delete_admin, count_admin, upsert_admin_password, delete_expired_sessions,
  find_row-delete,
}
use elastic_fruit_runner.Auth.{
  Service, Session, Crypto, Faults, Draws, Answer, gets_session, reads_password, session_not_found,
  second, unix, create_session, store_session, setup, setup_required, save_password, login,
  verify_login, check_login_limit, clear_login_failures, find_session, logout, reset, counts_admin,
  already_setup,
}
use elastic_fruit_runner.Auth.Limit.{login_checks}

-- What is found of a session at a time: the session with its end in whole seconds, before that end.
abbrev pub found_at : ℕ → Session → Answer
found_at now x =
    if leb (unix x.expires_at * second) now
    then inl session_not_found
    else inr (record {
      token = x.token;
      csrf_token = x.csrf_token;
      expires_at = unix x.expires_at * second;
    })

module _ (crypto : Crypto) (fails : Faults) where
  stored_row :
      (token csrf_token : String) (now : ℕ) (s : Service) (x : Session)
      → (store_session crypto fails token csrf_token now s).1 ≡ inr x
      → get_session
          (store_session crypto fails token csrf_token now s).0.db
          (crypto.hash_token x.token)
        ≡ some (record {
          token_hash = crypto.hash_token x.token;
          csrf_token = x.csrf_token;
          expires_at = unix x.expires_at;
          created_at = unix now;
        })
  unfolding store_session insert_session get_session find_row
  stored_row token csrf_token now s x h =
      ground (arith, eq_iff (crypto.hash_token token) (crypto.hash_token token))

  created_row :
      (d : Draws) (s : Service) (x : Session)
      → (create_session crypto fails d s).1 ≡ inr x
      → get_session (create_session crypto fails d s).0.db (crypto.hash_token x.token)
        ≡ some (record {
          token_hash = crypto.hash_token x.token;
          csrf_token = x.csrf_token;
          expires_at = unix x.expires_at;
          created_at = unix d.now;
        })
  unfolding create_session
  created_row d s x h = elim (Option-cases d.token) [
    | inl e ↦ absurd (ground arith)
    | inr (token, e) ↦ elim (Option-cases d.csrf_token) [
      | inl e' ↦ absurd (ground arith)
      | inr (csrf_token, e') ↦
          let same : create_session crypto fails d s
              ≡ store_session crypto fails token csrf_token d.now s =
            rw (e, e') refl in
          rw same (stored_row token csrf_token d.now s x (ap (λ p. p.1) (sym same) ∙ h))
    ]
  ]

  -- As long as the database answers, the session of a login, with a token that is not empty, is found
  -- under its token until its end in whole seconds, and not from then on.
  pub login-find_session :
      (d : Draws) (password : List ℕ) (s : Service) (x : Session) (now : ℕ)
      → fails gets_session ≡ false
      → x.token ≢ ""
      → (login crypto fails d password s).1 ≡ inr x
      → (find_session crypto fails now x.token (login crypto fails d password s).0).1
        ≡ found_at now x
  unfolding find_session
  login-find_session d password s x now reads named h =
      let opens = (login_checks crypto fails d password s x h).2 in
      rw opens (
        rw (created_row d (clear_login_failures s) x (ap (λ p. p.1) (sym opens) ∙ h))
          (ground (arith, eq_iff x.token "")))

  -- After a logout without an error, and as long as the database answers, the token is not found at any time.
  pub logout-find_session :
      (token : String) (s : Service) (now : ℕ)
      → fails gets_session ≡ false
      → (logout crypto fails token s).1 ≡ true
      → (find_session crypto fails now token (logout crypto fails token s).0).1
        ≡ inl session_not_found
  unfolding logout find_session delete_session get_session
  logout-find_session token s now reads h =
      ground (arith, find_row-delete (crypto.hash_token token) s.db.sessions)

  -- A reset that fails changes nothing; after one that succeeds, no token is found and a setup is
  -- required, as long as the database answers.
  pub reset_revokes :
      (s : Service) (token : String) (now : ℕ)
      → fails gets_session ≡ false
      → fails counts_admin ≡ false
      → ((reset fails s).0 ≡ (if (reset fails s).1 then (reset fails s).0 else s))
        × ((find_session crypto fails now token (reset fails s).0).1 ≡ (
            if (reset fails s).1
            then inl session_not_found
            else (find_session crypto fails now token s).1))
        × (setup_required fails (reset fails s).0
            ≡ (if (reset fails s).1 then some true else setup_required fails s))
  unfolding reset delete_admin delete_all_sessions find_session get_session find_row setup_required
      count_admin
  reset_revokes s token now reads counts = (ground arith, ground arith, ground arith)

  create_session_keeps :
      (d : Draws) (s : Service)
      → ((create_session crypto fails d s).0.db.admin ≡ s.db.admin)
        × ((create_session crypto fails d s).0.blocked_until ≡ s.blocked_until)
  unfolding create_session store_session insert_session delete_expired_sessions
  create_session_keeps d s = (ground arith, ground arith)

  setup_opens :
      (d : Draws) (password : List ℕ) (s : Service) (x : Session)
      → (setup crypto fails d password s).1 ≡ inr x
      → (fails counts_admin ≡ false)
        × ((hash : String) × (crypto.generate password ≡ some hash)
            × (setup crypto fails d password s
                ≡ create_session crypto fails d
                    (record s { db = upsert_admin_password s.db hash (unix d.now) })))
  setup_opens d password s x h = elim (Option-cases (crypto.generate password)) [
    | inl e ↦ absurd (unfold setup save_password setup_required in ground arith)
    | inr (hash, e) ↦
        unfold setup save_password setup_required in (ground arith, (hash, e, ground arith))
  ]

  -- What a login and a setup do on a service with a password.
  password_set :
      (d : Draws) (password other : List ℕ) (s : Service) (a : Admin)
      → s.db.admin ≡ some a
      → crypto.compare a.password_hash password ≡ true
      → s.blocked_until ≤ d.now
      → fails reads_password ≡ false
      → fails counts_admin ≡ false
      → (login crypto fails d password s ≡ create_session crypto fails d (clear_login_failures s))
        × (setup crypto fails d other s ≡ (s, inl already_setup))
  unfolding login check_login_limit verify_login setup setup_required count_admin
      get_admin_password_hash
  password_set d password other s a found right free reads counts = (ground arith, ground arith)

  -- After a setup that answers with a session, with a bcrypt that accepts the password that it hashed
  -- and a database that answers, a login with the same password that is not blocked creates a session
  -- and forgets the failed logins, and a second setup is refused.
  pub setup-login :
      (d : Draws) (password : List ℕ) (s : Service) (x : Session) (d' : Draws) (other : List ℕ)
      → ((hash : String)
          → crypto.generate password ≡ some hash
          → crypto.compare hash password ≡ true)
      → fails reads_password ≡ false
      → s.blocked_until ≤ d'.now
      → (setup crypto fails d password s).1 ≡ inr x
      → let s' = (setup crypto fails d password s).0 in
        (login crypto fails d' password s'
          ≡ create_session crypto fails d' (clear_login_failures s'))
        × (setup crypto fails d' other s' ≡ (s', inl already_setup))
  setup-login d password s x d' other law reads free h =
      let (counts, found) = setup_opens d password s x h in
      let (hash, hashed, opens) = found in
      let saved : Service = record s { db = upsert_admin_password s.db hash (unix d.now) } in
      let kept = create_session_keeps d saved in
      rw opens (
        password_set d' password other (create_session crypto fails d saved).0
          (record { password_hash = hash; created_at = unix d.now })
          (unfold upsert_admin_password in kept.0) (law hash hashed) (rw kept.1 free) reads counts)
