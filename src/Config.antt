-- ===== src/Config.antt =====
-- config/config.go: the configuration of the daemon, its blocks, and the accessors that other
-- packages call. A pointer that may be nil is an option. A `time.Duration` is a whole number of
-- nanoseconds, below zero too, and an `int` is a whole number.
pub mod Text
pub mod Cloud
pub mod Node
pub mod CloudBlock
pub mod Startup
pub mod Targets
pub mod Settings
pub mod Yaml
pub mod Accepted
pub mod Tests
use elastic_fruit_runner.Base.{
  ℕ, ℤ, pos, negsuc, Bool, true, false, ltb, leb, String, append_text, Option, none, some, List,
  ◌==◌, if◌then◌else◌, is_some, ◌||◌,
}
use elastic_fruit_runner.Config.Text.{to_lower}

pub record RunnerSetConfig : Type 0 where
  pub name : String
  pub backend : String
  pub image : String
  pub labels : List String
  pub max_runners : ℤ
  pub platform : String
  pub runtime : String

pub record GitHubAppConfig : Type 0 where
  pub client_id : String
  pub installation_id : ℤ
  pub private_key_path : String

pub record AuthConfig : Type 0 where
  pub github_app : Option GitHubAppConfig
  pub pat_token : Option String

pub record OrgConfig : Type 0 where
  pub org : String
  pub auth : AuthConfig
  pub runner_group : String
  pub runner_sets : List RunnerSetConfig

pub record RepoConfig : Type 0 where
  pub repo : String
  pub auth : AuthConfig
  pub runner_sets : List RunnerSetConfig

pub record CorsConfig : Type 0 where
  pub allow_origin : String
  pub allow_methods : String
  pub allow_headers : String
  pub expose_headers : String
  pub allow_credentials : Bool
  pub max_age : ℤ

pub record CloudConfig : Type 0 where
  pub server_url : String
  pub max_runners : ℤ

pub record Config : Type 0 where
  pub orgs : List OrgConfig
  pub repos : List RepoConfig
  pub cloud : Option CloudConfig
  pub idle_timeout : ℤ
  pub log_level : String
  pub api_addr : String
  pub cors : CorsConfig
  pub db_path : String
  pub log_path : String
  pub file_path : String
  pub loaded_hash : String
  pub loaded_yaml : String

pub data RunMode : Type 0 where
  standalone cloud_mode : RunMode

unfoldable pub mode : Config → RunMode
mode c = if is_some c.cloud then cloud_mode else standalone

pub data AuthMode : Type 0 where
  app_mode pat_mode : AuthMode

unfoldable pub auth_mode : AuthConfig → AuthMode
auth_mode a = elim a.github_app [
  | none ↦ pat_mode
  | some app ↦ if app.client_id == "" then pat_mode else app_mode
]

-- `slog.Level`
pub data Level : Type 0 where
  level_debug level_info level_warn level_error : Level

-- `none` is the error, with which the code returns `slog.LevelInfo`.
unfoldable pub parsed_log_level : Config → Option Level
parsed_log_level c =
    let level = to_lower c.log_level in
    if level == "debug"
    then some level_debug
    else if level == "info" || level == ""
    then some level_info
    else if level == "warn"
    then some level_warn
    else if level == "error"
    then some level_error
    else none

abbrev pub org_config_url : OrgConfig → String
org_config_url o = append_text "https://github.com/" o.org

abbrev pub repo_config_url : RepoConfig → String
repo_config_url r = append_text "https://github.com/" r.repo

-- `os.UserHomeDir` and `filepath.Join` are parameters: a home directory if there is one, and the
-- join of two paths.
unfoldable pub default_data_dir : Option String → (String → String → String) → Option String
default_data_dir none join = none
default_data_dir (some home_dir) join = some (join home_dir ".elastic-fruit-runner")

unfoldable pub default_database_path : Option String → (String → String → String) → Option String
default_database_path home join = elim (default_data_dir home join) [
  | none ↦ none
  | some data_dir ↦ some (join data_dir "jobs.db")
]

unfoldable pub database_path : Option String → (String → String → String) → Config → Option String
database_path home join c =
    if c.db_path == "" then default_database_path home join else some c.db_path
