-- ===== src/Config/Startup.antt =====
-- config/config.go: the check before the daemon starts. It stops at the first problem, and fills
-- the default runner group in on its way. A nil error is `none`. The map of the runner set names
-- that were seen is a list of names.
use Prim.Native.String.{◌++◌}
use elastic_fruit_runner.Base.{
  ℕ, ◌+◌, ℤ, length, pos, negsuc, Bool, false, String, Option, none, some, List, [], ◌∷◌, eqb, ltb,
  ◌==◌, not, ◌&&◌, ◌||◌, is_some, contains, if◌then◌else◌,
}
use elastic_fruit_runner.Config.{
  Config, OrgConfig, RepoConfig, AuthConfig, GitHubAppConfig, RunnerSetConfig, CorsConfig,
}
use elastic_fruit_runner.Config.Text.{contains_any, split_n, two_words, to_lower, itoa}
use elastic_fruit_runner.Config.Cloud.{Platform, below, validate_cloud}

unfoldable pub is_single_word : String → Bool
is_single_word value = not (contains_any (32 ∷ 9 ∷ 10 ∷ []) value)

-- installation_id == 0
abbrev pub is_zero : ℤ → Bool
is_zero (pos n) = eqb n 0
is_zero (negsuc n) = false

-- The two pointers of an AuthConfig: the token, and the app.
unfoldable pub auth_error : String → Option String → Option GitHubAppConfig → Option String
auth_error prefix none none =
    some (prefix ++ ".auth: one of pat_token or github_app must be configured")
auth_error prefix (some token) (some app) =
    some (prefix ++ ".auth: pat_token and github_app are mutually exclusive")
auth_error prefix (some token) none =
    if token == "" then some (prefix ++ ".auth.pat_token must not be empty") else none
auth_error prefix none (some app) =
    if app.client_id == ""
    then some (prefix ++ ".auth.github_app.client_id is required")
    else if is_zero app.installation_id
    then some (prefix ++ ".auth.github_app.installation_id is required")
    else if app.private_key_path == ""
    then some (prefix ++ ".auth.github_app.private_key_path is required")
    else none

abbrev pub validate_auth : String → AuthConfig → Option String
validate_auth prefix auth = auth_error prefix auth.pat_token auth.github_app

-- What is checked of a runner set once its name is accepted.
unfoldable pub runner_set_error : Platform → String → RunnerSetConfig → Option String
runner_set_error p prefix rs =
    if rs.backend == ""
    then some (prefix ++ ".backend is required")
    else if not (rs.backend == "tart") && not (rs.backend == "docker")
    then some (prefix ++ ".backend must be 'tart' or 'docker', got " ++ p.quoted rs.backend)
    else if below rs.max_runners 1
    then some (prefix ++ ".max_runners must be > 0")
    else if not (rs.runtime == "") && rs.backend == "tart"
    then some (prefix ++ ".runtime must be empty for the tart backend, got " ++ p.quoted rs.runtime)
    else if not (is_single_word rs.runtime)
    then some
        (prefix ++ ".runtime must be a single word such as runsc, got " ++ p.quoted rs.runtime)
    else none

-- The names seen, with this one, and the error.
unfoldable pub validate_runner_set :
    Platform → String → List String → RunnerSetConfig → List String × Option String
validate_runner_set p prefix seen rs =
    if rs.name == ""
    then (seen, some (prefix ++ ".name is required"))
    else if contains rs.name seen
    then (seen, some ("runner set name " ++ p.quoted rs.name ++ " is not unique"))
    else (rs.name ∷ seen, runner_set_error p prefix rs)

-- The loop over the runner sets of one org or repo, from the j-th on.
unfoldable pub validate_runner_sets :
    Platform → String → ℕ → List String → List RunnerSetConfig → List String × Option String
validate_runner_sets p prefix j seen [] = (seen, none)
validate_runner_sets p prefix j seen (rs ∷ sets) =
    let (seen', error) =
      validate_runner_set p (prefix ++ ".runner_sets[" ++ itoa j ++ "]") seen rs in
    let rest = validate_runner_sets p prefix (j + 1) seen' sets in
    if is_some error then (seen', error) else rest

unfoldable pub with_default_group : OrgConfig → OrgConfig
with_default_group org =
    if org.runner_group == "" then record org { runner_group = "Default" } else org

-- The org, with its default, the names seen and the error.
unfoldable pub validate_org :
    Platform → ℕ → List String → OrgConfig → OrgConfig × List String × Option String
validate_org p i seen org =
    let prefix = "orgs[" ++ itoa i ++ "]" in
    let (seen', error) = validate_runner_sets p prefix 0 seen org.runner_sets in
    if org.org == ""
    then (org, seen, some (prefix ++ ".org is required"))
    else if is_some (validate_auth prefix org.auth)
    then (org, seen, validate_auth prefix org.auth)
    else elim org.runner_sets [
      | [] ↦ (
        with_default_group org,
        seen,
        some (prefix ++ ".runner_sets must have at least one entry"),
      )
      | rs ∷ sets ↦ (with_default_group org, seen', error)
    ]

unfoldable pub validate_repo : Platform → ℕ → List String → RepoConfig → List String × Option String
validate_repo p i seen repo =
    let prefix = "repos[" ++ itoa i ++ "]" in
    let sets = validate_runner_sets p prefix 0 seen repo.runner_sets in
    if repo.repo == ""
    then (seen, some (prefix ++ ".repo is required"))
    else if not (two_words (split_n 47 3 repo.repo))
    then (
      seen,
      some (prefix ++ ".repo must be in \"owner/repo\" format, got " ++ p.quoted repo.repo),
    )
    else if is_some (validate_auth prefix repo.auth)
    then (seen, validate_auth prefix repo.auth)
    else elim repo.runner_sets [
      | [] ↦ (seen, some (prefix ++ ".runner_sets must have at least one entry"))
      | rs ∷ more ↦ sets
    ]

-- The loop over the orgs, from the i-th on. An error leaves the later orgs as they are.
unfoldable pub validate_orgs :
    Platform → ℕ → List String → List OrgConfig → List OrgConfig × List String × Option String
validate_orgs p i seen [] = ([], seen, none)
validate_orgs p i seen (org ∷ orgs) =
    let (org', seen', error) = validate_org p i seen org in
    let (orgs', seen'', error') = validate_orgs p (i + 1) seen' orgs in
    if is_some error then (org' ∷ orgs, seen', error) else (org' ∷ orgs', seen'', error')

unfoldable pub validate_repos :
    Platform → ℕ → List String → List RepoConfig → List String × Option String
validate_repos p i seen [] = (seen, none)
validate_repos p i seen (repo ∷ repos) =
    let (seen', error) = validate_repo p i seen repo in
    let rest = validate_repos p (i + 1) seen' repos in
    if is_some error then (seen', error) else rest

-- len(c.Orgs) > 0 || len(c.Repos) > 0
unfoldable pub has_targets : Config → Bool
has_targets c = ltb 0 (length c.orgs) || ltb 0 (length c.repos)

abbrev pub cloud_and_targets : String
cloud_and_targets =
    "cloud and orgs/repos are mutually exclusive, keep only cloud or only orgs/repos"

-- The three cases of validateMode, by whether there are orgs or repos.
unfoldable pub validate_mode : Platform → Config → Option String
validate_mode p c =
    let targets = has_targets c in
    elim c.cloud [
      | none ↦ if targets then none else some "at least one org or repo must be configured"
      | some cloud ↦ if targets then some cloud_and_targets else validate_cloud p cloud
    ]

unfoldable pub cors_error : CorsConfig → Bool
cors_error cors = cors.allow_credentials && (cors.allow_origin == "" || cors.allow_origin == "*")

unfoldable pub is_log_level : String → Bool
is_log_level level =
    level == "debug" || level == "info" || level == "warn" || level == "error" || level == ""

-- Config.Validate: the configuration with the defaults that were filled in, and the error.
unfoldable pub validate : Platform → Config → Config × Option String
validate p c =
    let (orgs', seen, error) = validate_orgs p 0 [] c.orgs in
    let after = record c { orgs = orgs' } in
    let repos_error = (validate_repos p 0 seen c.repos).1 in
    if is_some (validate_mode p c)
    then (c, validate_mode p c)
    else if below c.idle_timeout 1
    then (c, some "idle_timeout must be greater than 0")
    else if not (is_log_level (to_lower c.log_level))
    then (
      c,
      some (
          "log_level "
          ++ p.quoted c.log_level
          ++ " is invalid; must be one of: debug, info, warn, error"),
    )
    else if cors_error c.cors
    then (
      c,
      some
          "cors: allow_credentials requires a specific allow_origin, wildcard \"*\" is not valid per the CORS spec",
    )
    else if is_some error
    then (after, error)
    else (after, repos_error)
