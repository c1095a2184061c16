-- ===== src/Config/Targets.antt =====
-- config/validation.go: what ValidateConfig checks of the orgs and repos. The functions that call
-- addError return the issues they add, in order.
use Prim.Native.String.{◌++◌}
use mathlib.Core.List.{◌++◌ as append}
use elastic_fruit_runner.Base.{
  ℕ, ◌+◌, Bool, false, String, Option, none, some, List, [], ◌∷◌, ◌==◌, not, ◌&&◌, ◌||◌, inl, inr,
  Map, lookup, insert, if◌then◌else◌,
}
use elastic_fruit_runner.Config.{
  OrgConfig, RepoConfig, AuthConfig, GitHubAppConfig, RunnerSetConfig,
}
use elastic_fruit_runner.Config.Text.{
  split, trim_space, itoa, has_double_dash, github_owner_pattern, github_repository_pattern,
  has_prefix,
}
use elastic_fruit_runner.Config.Cloud.{Platform, ValidationIssue, problem, problem_if, below, above}
use elastic_fruit_runner.Config.Startup.{is_single_word, with_default_group}

unfoldable pub valid_github_owner : String → Bool
valid_github_owner value = github_owner_pattern value && not (has_double_dash value)

unfoldable pub valid_github_repository : String → Bool
valid_github_repository value = github_repository_pattern value

-- The key file: it is read, and its first PEM block is a private key.
unfoldable pub private_key_issues : Platform → String → String → List ValidationIssue
private_key_issues p field key_path =
    if key_path == "" then problem field "is required" else elim (p.read_file key_path) [
      | inl error ↦ problem field ("cannot be read: " ++ error)
      | inr content ↦ elim (p.pem_type content) [
        | none ↦ problem field "must contain a valid PEM private key"
        | some type ↦
            problem_if (not (p.is_private_key type)) field "must contain a valid PEM private key"
      ]
    ]

-- validateAuthAll on the two pointers of an AuthConfig
unfoldable pub auth_issues :
    Platform → String → Option String → Option GitHubAppConfig → List ValidationIssue
auth_issues p path none none = problem path "configure exactly one of pat_token or github_app"
auth_issues p path (some token) (some app) =
    problem path "configure exactly one of pat_token or github_app"
auth_issues p path (some token) none =
    problem_if (trim_space token == "") (path ++ ".pat_token") "must not be empty"
auth_issues p path none (some app) =
    append (problem_if (app.client_id == "") (path ++ ".github_app.client_id") "is required") (
      append
        (problem_if (below app.installation_id 1) (path ++ ".github_app.installation_id")
          "must be greater than 0")
        (private_key_issues p (path ++ ".github_app.private_key_path") app.private_key_path))

abbrev pub validate_auth_all : Platform → String → AuthConfig → List ValidationIssue
validate_auth_all p path auth = auth_issues p path auth.pat_token auth.github_app

unfoldable pub backend_option_issues : String → RunnerSetConfig → List ValidationIssue
backend_option_issues path rs =
    append
      (problem_if (rs.backend == "tart" && not (rs.platform == "")) (path ++ ".platform")
        "must be empty for the tart backend")
      (append
        (problem_if
          (rs.backend == "docker"
            && not (rs.platform == "")
            && not (has_prefix "linux/" rs.platform))
          (path ++ ".platform") "must use linux/architecture format")
        (append
          (problem_if (rs.backend == "tart" && not (rs.runtime == "")) (path ++ ".runtime")
            "must be empty for the tart backend")
          (problem_if (not (is_single_word rs.runtime)) (path ++ ".runtime")
            "must be a single word such as runsc")))

-- The name of a runner set against the names that were seen, each with the place of its first use.
unfoldable pub name_issues : String → Map String → String → Map String × List ValidationIssue
name_issues path names name =
    if trim_space name == ""
    then (names, problem (path ++ ".name") "is required")
    else elim (lookup name names) [
      | some previous ↦
          (names, problem (path ++ ".name") ("must be unique and is already used at " ++ previous))
      | none ↦ (insert name (path ++ ".name") names, [])
    ]

unfoldable pub validate_runner_set_all :
    String → Map String → RunnerSetConfig → Map String × List ValidationIssue
validate_runner_set_all path names rs =
    let (names', named) = name_issues path names rs.name in
    (
      names',
      append named (
          append
            (problem_if (not (rs.backend == "docker") && not (rs.backend == "tart"))
              (path ++ ".backend") "must be docker or tart")
            (append (problem_if (trim_space rs.image == "") (path ++ ".image") "is required") (
              append
                (problem_if (below rs.max_runners 1 || above rs.max_runners 1000)
                  (path ++ ".max_runners") "must be between 1 and 1000")
                (backend_option_issues path rs)))),
    )

-- The loop over the runner sets of one org or repo, from the j-th on.
unfoldable pub runner_sets_issues :
    String → ℕ → Map String → List RunnerSetConfig → Map String × List ValidationIssue
runner_sets_issues path j names [] = (names, [])
runner_sets_issues path j names (rs ∷ sets) =
    let (names', found) =
      validate_runner_set_all (path ++ ".runner_sets[" ++ itoa j ++ "]") names rs in
    let (names'', more) = runner_sets_issues path (j + 1) names' sets in
    (names'', append found more)

abbrev pub no_runner_sets : String → List RunnerSetConfig → List ValidationIssue
no_runner_sets path [] = problem (path ++ ".runner_sets") "must contain at least one runner set"
no_runner_sets path (rs ∷ sets) = []

unfoldable pub orgs_issues :
    Platform → ℕ → Map String → List OrgConfig → List OrgConfig × Map String × List ValidationIssue
orgs_issues p i names [] = ([], names, [])
orgs_issues p i names (org ∷ orgs) =
    let path = "orgs[" ++ itoa i ++ "]" in
    let (names', found) = runner_sets_issues path 0 names org.runner_sets in
    let (orgs', names'', more) = orgs_issues p (i + 1) names' orgs in
    (
      with_default_group org ∷ orgs',
      names'',
      append
          (problem_if (not (valid_github_owner org.org)) (path ++ ".org")
            "must be a valid GitHub organization name")
          (append (validate_auth_all p (path ++ ".auth") org.auth)
            (append (no_runner_sets path org.runner_sets) (append found more))),
    )

-- len(parts) != 2 || !validGitHubOwner(parts[0]) || !validGitHubRepository(parts[1]), negated
unfoldable pub valid_repo_parts : List String → Bool
valid_repo_parts (owner ∷ name ∷ []) = valid_github_owner owner && valid_github_repository name
valid_repo_parts parts = false

unfoldable pub repos_issues :
    Platform → ℕ → Map String → List RepoConfig → Map String × List ValidationIssue
repos_issues p i names [] = (names, [])
repos_issues p i names (repo ∷ repos) =
    let path = "repos[" ++ itoa i ++ "]" in
    let (names', found) = runner_sets_issues path 0 names repo.runner_sets in
    let (names'', more) = repos_issues p (i + 1) names' repos in
    (
      names'',
      append
          (problem_if (not (valid_repo_parts (split 47 repo.repo))) (path ++ ".repo")
            "must use owner/repo format")
          (append (validate_auth_all p (path ++ ".auth") repo.auth)
            (append (no_runner_sets path repo.runner_sets) (append found more))),
    )
