-- ===== src/Auth/Limit.antt =====
-- service.go, Login: the limit on failed logins, and what a login with a session has checked.
use elastic_fruit_runner.Base.{
  ℕ, ◌+◌, ◌*◌, ◌≤◌, ◌<◌, ◌≡◌, refl, ap, ◌∙◌, true, false, String, some, List, [], ◌∷◌, ◌++◌, arith,
  ltb, length, keep_if, inl, inr, sym, length-append, Option-cases,
}
use mathlib.Core.List.{append_assoc, append-nil}
use elastic_fruit_runner.Storage.Console.{get_admin_password_hash}
use elastic_fruit_runner.Auth.{
  Service, Session, Crypto, Faults, Draws, reads_password, login_blocked, second, login,
  verify_login, check_login_limit, record_login_failure, clear_login_failures, create_session,
}

-- The five minutes from `start` on.
abbrev pub AllWithin : ℕ → List ℕ → Type 0
AllWithin start [] = Unit {0}
AllWithin start (t ∷ ts) = (start ≤ t) × (t < start + 300 * second) × AllWithin start ts

keep_recent :
    (start now : ℕ) (ts : List ℕ)
    → now < start + 300 * second
    → AllWithin start ts
    → keep_if (λ attempt. ltb now (attempt + 300 * second)) ts ≡ ts
unfolding keep_if
keep_recent start now [] h w = refl
keep_recent start now (t ∷ ts) h w = ground (arith, keep_recent start now ts h w.2)

AllWithin-append :
    (start t : ℕ) (ts : List ℕ)
    → AllWithin start ts
    → start ≤ t
    → t < start + 300 * second
    → AllWithin start (ts ++ (t ∷ []))
AllWithin-append start t [] w h g = (h, g, tt)
AllWithin-append start t (u ∷ ts) w h g = (w.0, w.1, AllWithin-append start t ts w.2 h g)

module _ (crypto : Crypto) (fails : Faults) (d : Draws) (wrong : List ℕ) where
  -- Logins with one password, one at each time.
  pub logins : List ℕ → Service → Service
  logins [] s = s
  logins (t ∷ ts) s = logins ts (login crypto fails (record d { now = t }) wrong s).0

  module _ (start : ℕ) (hash : String) (reads : fails reads_password ≡ false)
      (bad : crypto.compare hash wrong ≡ false) where
    wrong_password_fails :
        (t : ℕ) (s : Service)
        → get_admin_password_hash s.db ≡ some hash
        → s.blocked_until ≤ start
        → AllWithin start s.failed_attempts
        → start ≤ t
        → t < start + 300 * second
        → (login crypto fails (record d { now = t }) wrong s).0 ≡ record_login_failure t s
    unfolding login verify_login check_login_limit
    wrong_password_fails t s found free recent after before =
        ground (arith, keep_recent start t s.failed_attempts before recent)

    pub wrong_passwords_add :
        (ts : List ℕ) (s : Service)
        → get_admin_password_hash s.db ≡ some hash
        → s.blocked_until ≤ start
        → AllWithin start s.failed_attempts
        → AllWithin start ts
        → length s.failed_attempts + length ts < 5
        → logins ts s ≡ record s { failed_attempts = s.failed_attempts ++ ts }
    unfolding logins record_login_failure get_admin_password_hash
    wrong_passwords_add [] s found free recent within few =
        ap (λ (a : List ℕ). record s { failed_attempts = a }) (sym (append-nil s.failed_attempts))
    wrong_passwords_add (t ∷ ts) s found free recent within few =
        let s' : Service = record s { failed_attempts = s.failed_attempts ++ (t ∷ []) } in
        let size = length-append s.failed_attempts (t ∷ []) in
        let failed : (login crypto fails (record d { now = t }) wrong s).0 ≡ s' =
          wrong_password_fails t s found free recent within.0 within.1 ∙ ground (arith, size) in
        rw failed (
          wrong_passwords_add ts s' found free
            (AllWithin-append start t s.failed_attempts recent within.0 within.1) within.2
            (omega (arith, size))
          ∙ ap (λ (a : List ℕ). record s { failed_attempts = a })
              (append_assoc s.failed_attempts (t ∷ []) ts))

    -- After four logins with a wrong password and a fifth, all within five minutes and on a service
    -- without earlier failures, no login is answered in the minute after the fifth, not even with the
    -- right password, and it changes nothing.
    pub wrong_passwords_block :
        (ts : List ℕ) (last : ℕ) (s : Service) (d' : Draws) (password : List ℕ)
        → get_admin_password_hash s.db ≡ some hash
        → s.failed_attempts ≡ []
        → s.blocked_until ≤ start
        → length ts ≡ 4
        → AllWithin start ts
        → start ≤ last
        → last < start + 300 * second
        → d'.now < last + 60 * second
        → let s' = (login crypto fails (record d { now = last }) wrong (logins ts s)).0 in
          login crypto fails d' password s' ≡ (s', inl login_blocked)
    wrong_passwords_block ts last s d' password found none_yet free four within after before early =
        let s₄ : Service = record s { failed_attempts = ts } in
        let opened : logins ts s ≡ s₄ =
          wrong_passwords_add ts s found free (rw none_yet tt) within (rw none_yet (omega arith))
          ∙ ap (λ (a : List ℕ). record s { failed_attempts = a ++ ts }) none_yet in
        let blocked : (login crypto fails (record d { now = last }) wrong s₄).0
            ≡ record s { blocked_until = last + 60 * second; failed_attempts = [] } =
          wrong_password_fails last s₄ found free within after before
          ∙ (unfold record_login_failure in ground (arith, length-append ts (last ∷ []))) in
        rw (opened, blocked) (unfold login check_login_limit in ground arith)

-- A login that answers with a session was not blocked, and its password matched the stored hash; it
-- has forgotten the failed logins and created the session.
pub login_checks :
    (crypto : Crypto) (fails : Faults) (d : Draws) (password : List ℕ) (s : Service) (x : Session)
    → (login crypto fails d password s).1 ≡ inr x
    → (s.blocked_until ≤ d.now)
      × ((hash : String) × (get_admin_password_hash s.db ≡ some hash)
          × (crypto.compare hash password ≡ true))
      × (login crypto fails d password s ≡ create_session crypto fails d (clear_login_failures s))
login_checks crypto fails d password s x h = elim (Option-cases (get_admin_password_hash s.db)) [
  | inl missing ↦ absurd (unfold login verify_login check_login_limit in ground arith)
  | inr (hash, found) ↦
      unfold login verify_login check_login_limit in
      (ground arith, (hash, found, ground arith), ground arith)
]
