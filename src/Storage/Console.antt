-- ===== src/Storage/Console.antt =====
-- The tables console_admin and console_sessions (internal/storage/sqlc and the migrations), and the
-- statements on them (queries.sql.go, which holds the SQL text). The key of console_admin is always
-- 1, so the table is an optional row. Times are in seconds here.
use elastic_fruit_runner.Base.{
  ℕ, ◌≡◌, refl, arith, Bool, String, Option, none, some, List, [], ◌∷◌, leb, not, ◌==◌,
  if◌then◌else◌, keep_if, is_some,
}

pub record Admin : Type 0 where
  pub password_hash : String
  pub created_at : ℕ

pub record ConsoleSession : Type 0 where
  pub token_hash : String
  pub csrf_token : String
  pub expires_at : ℕ
  pub created_at : ℕ

pub record ConsoleTables : Type 0 where
  pub admin : Option Admin
  pub sessions : List ConsoleSession

unfoldable pub count_admin : ConsoleTables → ℕ
count_admin db = if is_some db.admin then 1 else 0

unfoldable pub get_admin_password_hash : ConsoleTables → Option String
get_admin_password_hash db = elim db.admin [ none ↦ none | some a ↦ some a.password_hash ]

unfoldable pub upsert_admin_password : ConsoleTables → String → ℕ → ConsoleTables
upsert_admin_password db hash at = record db {
  admin = some (record { password_hash = hash; created_at = at });
}

unfoldable pub delete_admin : ConsoleTables → ConsoleTables
delete_admin db = record db { admin = none }

unfoldable pub delete_all_sessions : ConsoleTables → ConsoleTables
delete_all_sessions db = record db { sessions = [] }

-- WHERE expires_at <= ?
unfoldable pub delete_expired_sessions : ConsoleTables → ℕ → ConsoleTables
delete_expired_sessions db at = record db {
  sessions = keep_if (λ x. not (leb x.expires_at at)) db.sessions;
}

unfoldable pub delete_session : ConsoleTables → String → ConsoleTables
delete_session db hash = record db {
  sessions = keep_if (λ x. not (x.token_hash == hash)) db.sessions;
}

unfoldable pub find_row : String → List ConsoleSession → Option ConsoleSession
find_row hash [] = none
find_row hash (x ∷ xs) = if x.token_hash == hash then some x else find_row hash xs

unfoldable pub get_session : ConsoleTables → String → Option ConsoleSession
unfolding find_row keep_if
get_session db hash = find_row hash db.sessions

-- `none` when the key is taken.
unfoldable pub insert_session : ConsoleTables → ConsoleSession → Option ConsoleTables
unfolding get_session
insert_session db x =
    if is_some (get_session db x.token_hash)
    then none
    else some (record db { sessions = x ∷ db.sessions })

pub find_row-keep_if :
    (keep : ConsoleSession → Bool) (hash : String) (xs : List ConsoleSession)
    → find_row hash xs ≡ none
    → find_row hash (keep_if keep xs) ≡ none
unfolding find_row keep_if
find_row-keep_if keep hash [] h = refl
find_row-keep_if keep hash (x ∷ xs) h = ground (arith, find_row-keep_if keep hash xs)

pub find_row-delete :
    (hash : String) (xs : List ConsoleSession)
    → find_row hash (keep_if (λ x. not (x.token_hash == hash)) xs) ≡ none
unfolding find_row keep_if
find_row-delete hash [] = refl
find_row-delete hash (x ∷ xs) = ground (arith, find_row-delete hash xs)
