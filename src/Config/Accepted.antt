-- ===== src/Config/Accepted.antt =====
-- config/config.go: which configurations Config.Validate accepts, said without its order of checks.
mod Names
mod RunnerSets
mod Targets
pub mod Equivalence
mod Agreement
pub mod Strictness
pub mod Loading
use elastic_fruit_runner.Base.{
  ℕ, ◌+◌, ℤ, pos, negsuc, ◌≡◌, ◌≢◌, ◌↔◌, ◌⊎◌, inl, inr, refl, Bool, true, false, String,
  append_text, Option, none, some, List, [], ◌∷◌, ◌++◌, map, ◌==◌, eq_iff, arith, contains, length,
  AllDifferent, if◌then◌else◌, is_some, Bool-cases, Option-cases, ap, sym, ◌∙◌,
}
use elastic_fruit_runner.Config.{
  Config, OrgConfig, RepoConfig, AuthConfig, GitHubAppConfig, RunnerSetConfig, CorsConfig,
  CloudConfig,
}
use elastic_fruit_runner.Config.Text.{
  split, split_n, two_words, two_words-split_n, two_words-nothing, itoa, to_lower,
}
use elastic_fruit_runner.Config.Cloud.{Url, Platform, below, validate_cloud}
use elastic_fruit_runner.Config.Startup.{
  is_single_word, is_zero, auth_error, validate_auth, runner_set_error, validate_runner_set,
  validate_runner_sets, with_default_group, validate_org, validate_repo, validate_orgs,
  validate_repos, has_targets, validate_mode, cors_error, is_log_level, validate,
}

-- A backend that exists, a limit of at least one, and a runtime only for docker, of one word.
abbrev pub IsRunnerSet : RunnerSetConfig → Type 0
IsRunnerSet rs =
    (rs.name ≢ "")
    × ((rs.backend ≡ "docker") ⊎ ((rs.backend ≡ "tart") × (rs.runtime ≡ "")))
    × (below rs.max_runners 1 ≡ false)
    × (is_single_word rs.runtime ≡ true)

-- A token that is not empty, or a complete app, never both.
abbrev pub IsCredential : Option String → Option GitHubAppConfig → Type 0
IsCredential (some token) none = token ≢ ""
IsCredential none (some app) =
    (app.client_id ≢ "") × (app.installation_id ≢ pos 0) × (app.private_key_path ≢ "")
IsCredential (some token) (some app) = ⊥
IsCredential none none = ⊥

module _ {ℓ} {A : Type ℓ} (P : A → Type 0) where
  abbrev pub All : List A → Type 0
  All [] = Unit {0}
  All (x ∷ xs) = P x × All xs

abbrev pub name_of : RunnerSetConfig → String
name_of rs = rs.name

-- Names of the runner sets, in order.
abbrev pub org_names : List OrgConfig → List String
org_names [] = []
org_names (org ∷ orgs) = map name_of org.runner_sets ++ org_names orgs

abbrev pub repo_names : List RepoConfig → List String
repo_names [] = []
repo_names (repo ∷ repos) = map name_of repo.runner_sets ++ repo_names repos

abbrev pub IsTarget : AuthConfig → List RunnerSetConfig → Type 0
IsTarget auth sets =
    IsCredential auth.pat_token auth.github_app × (sets ≢ []) × All IsRunnerSet sets

abbrev pub IsOrg : OrgConfig → Type 0
IsOrg org = (org.org ≢ "") × IsTarget org.auth org.runner_sets

-- The name has two parts around one slash.
abbrev pub IsRepo : RepoConfig → Type 0
IsRepo repo = (two_words (split 47 repo.repo) ≡ true) × IsTarget repo.auth repo.runner_sets

-- An https URL, or an http URL of this machine.
abbrev pub IsEndpoint : Option Url → Type 0
IsEndpoint none = ⊥
IsEndpoint (some url) =
    (url.host ≢ "")
    × ((url.scheme ≡ "https")
        ⊎ ((url.scheme ≡ "http") × ((url.hostname ≡ "localhost") ⊎ (url.hostname ≡ "127.0.0.1"))))

-- Jobs come from GitHub or from a cloud server, never from both.
abbrev pub IsSource : Platform → Option CloudConfig → List OrgConfig → List RepoConfig → Type 0
IsSource p none orgs repos = (orgs ≢ []) ⊎ (repos ≢ [])
IsSource p (some cloud) orgs repos =
    (orgs ≡ [])
    × (repos ≡ [])
    × (cloud.server_url ≢ "")
    × IsEndpoint (p.parse_url cloud.server_url)
    × (below cloud.max_runners 1 ≡ false)

abbrev pub IsAccepted : Platform → Config → Type 0
IsAccepted p c =
    IsSource p c.cloud c.orgs c.repos
    × (below c.idle_timeout 1 ≡ false)
    × (is_log_level (to_lower c.log_level) ≡ true)
    × (cors_error c.cors ≡ false)
    × All IsOrg c.orgs
    × All IsRepo c.repos
    × AllDifferent (org_names c.orgs ++ repo_names c.repos)
