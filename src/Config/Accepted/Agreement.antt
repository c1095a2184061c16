-- ===== src/Config/Accepted/Agreement.antt =====
-- config/config.go and config/validation.go: the check that collects problems is at least as strict
-- as the check before the daemon starts.
use mathlib.Core.List.{◌++◌ as append}
use elastic_fruit_runner.Base.{
  ℕ, ◌+◌, ◌≡◌, ◌≢◌, refl, Bool, true, false, String, append_text, Option, none, some, List, [], ◌∷◌,
  map, ◌==◌, eq_iff, arith, contains, is_some, not, ap, sym, subst, Map, lookup, insert,
  lookup-insert,
}
use elastic_fruit_runner.Config.{
  OrgConfig, RepoConfig, AuthConfig, GitHubAppConfig, RunnerSetConfig,
}
use elastic_fruit_runner.Config.Text.{
  split, two_words, trim_space, trim_left, trim_right, github_owner_pattern,
  github_repository_pattern, starts_in, itoa,
}
use elastic_fruit_runner.Config.Cloud.{Platform, ValidationIssue, problem_if}
use elastic_fruit_runner.Config.Startup.{with_default_group}
use elastic_fruit_runner.Config.Targets.{
  valid_github_owner, valid_github_repository, private_key_issues, auth_issues, validate_auth_all,
  backend_option_issues, name_issues, validate_runner_set_all, runner_sets_issues, no_runner_sets,
  orgs_issues, valid_repo_parts, repos_issues,
}
use elastic_fruit_runner.Config.Accepted.{
  IsRunnerSet, IsCredential, IsOrg, IsRepo, All, name_of, org_names, repo_names,
}
use elastic_fruit_runner.Config.Accepted.Names.{IsFresh, after, IsFresh-append, after-append}

-- No issues in all are none in each part.
pub parts_none {ℓ} : {A : Type ℓ} (xs ys : List A) → append xs ys ≡ [] → (xs ≡ []) × (ys ≡ [])
parts_none [] ys h = (refl, h)
parts_none (x ∷ xs) ys h = ground arith

trim_space-nonempty : (s : String) → (trim_space s == "") ≡ false → s ≢ ""
unfolding trim_left trim_right
trim_space-nonempty s h e = ground (arith, h, ap (λ t. trim_space t == "") e)

auth_issues-IsCredential :
    (p : Platform) (path : String) (token : Option String) (app : Option GitHubAppConfig)
    → auth_issues p path token app ≡ []
    → IsCredential token app
unfolding auth_issues private_key_issues
auth_issues-IsCredential p path none none h = ground arith
auth_issues-IsCredential p path (some token) (some app) h = ground arith
auth_issues-IsCredential p path (some token) none h = trim_space-nonempty token (ground arith)
auth_issues-IsCredential p path none (some app) h =
    ground (arith, eq_iff app.client_id "", eq_iff app.private_key_path "")

-- A map of places holds the names that a list holds.
abbrev pub Agree : Map String → List String → Type 0
Agree names seen = (k : String) → contains k seen ≡ is_some (lookup k names)

Agree-insert :
    (names : Map String) (seen : List String) (name place : String)
    → Agree names seen
    → Agree (insert name place names) (name ∷ seen)
unfolding contains
Agree-insert names seen name place same k =
    ground (arith, lookup-insert name k place names, same k, eq_iff name k)

validate_runner_set_all-IsRunnerSet :
    (path : String) (names : Map String) (rs : RunnerSetConfig)
    → (validate_runner_set_all path names rs).1 ≡ []
    → IsRunnerSet rs
      × (lookup rs.name names ≡ none)
      × ((validate_runner_set_all path names rs).0
          ≡ insert rs.name (append_text path ".name") names)
unfolding validate_runner_set_all name_issues backend_option_issues
validate_runner_set_all-IsRunnerSet path names rs h =
    let full = trim_space-nonempty rs.name in
    ground (
      arith,
      full,
      eq_iff rs.backend "docker",
      eq_iff rs.backend "tart",
      eq_iff "docker" "tart",
      eq_iff rs.runtime "",
    )

runner_sets_issues-IsFresh :
    (path : String) (j : ℕ) (names : Map String) (seen : List String) (sets : List RunnerSetConfig)
    → Agree names seen
    → (runner_sets_issues path j names sets).1 ≡ []
    → All IsRunnerSet sets
      × IsFresh seen (map name_of sets)
      × Agree (runner_sets_issues path j names sets).0 (after seen (map name_of sets))
unfolding runner_sets_issues
runner_sets_issues-IsFresh path j names seen [] same h = (tt, tt, same)
runner_sets_issues-IsFresh path j names seen (rs ∷ sets) same h =
    let place = append_text path (append_text ".runner_sets[" (append_text (itoa j) "]")) in
    let this = validate_runner_set_all place names rs in
    let none_found = parts_none this.1 (runner_sets_issues path (j + 1) this.0 sets).1 h in
    let (fine, unseen, stored) = validate_runner_set_all-IsRunnerSet place names rs none_found.0 in
    let agreed =
      subst (λ m. Agree m (rs.name ∷ seen)) (sym stored)
        (Agree-insert names seen rs.name (append_text place ".name") same) in
    let (later, fresh, after_all) =
      runner_sets_issues-IsFresh path (j + 1) this.0 (rs.name ∷ seen) sets agreed none_found.1 in
    ((fine, later), (ground (arith, same rs.name), fresh), after_all)

valid_github_owner-nonempty : (owner : String) → valid_github_owner owner ≡ true → owner ≢ ""
unfolding valid_github_owner github_owner_pattern starts_in
valid_github_owner-nonempty owner h e = ground (arith, h, ap valid_github_owner e)

valid_github_repository-nonempty : (name : String) → valid_github_repository name ≡ true → name ≢ ""
unfolding valid_github_repository github_repository_pattern
valid_github_repository-nonempty name h e = ground (arith, h, ap valid_github_repository e)

valid_repo_parts-two_words :
    (parts : List String) → valid_repo_parts parts ≡ true → two_words parts ≡ true
unfolding valid_repo_parts two_words
valid_repo_parts-two_words [] h = h
valid_repo_parts-two_words (x ∷ []) h = h
valid_repo_parts-two_words (owner ∷ name ∷ []) h = ground (
  arith,
  valid_github_owner-nonempty owner,
  valid_github_repository-nonempty name,
  eq_iff owner "",
  eq_iff name "",
)
valid_repo_parts-two_words (x ∷ y ∷ z ∷ parts) h = ground arith

no_runner_sets-nonempty :
    (path : String) (sets : List RunnerSetConfig) → no_runner_sets path sets ≡ [] → sets ≢ []
no_runner_sets-nonempty path [] h = ground arith
no_runner_sets-nonempty path (rs ∷ sets) h = ground arith

-- What is added for one org or repo, and for what comes after it.
target_none :
    (p : Platform) (test : Bool) (field message path : String) (auth : AuthConfig)
    (sets : List RunnerSetConfig) (found more : List ValidationIssue)
    → append (problem_if test field message) (
        append
          (validate_auth_all p (append_text path ".auth") auth)
          (append (no_runner_sets path sets) (append found more)))
      ≡ []
    → (test ≡ false)
      × IsCredential auth.pat_token auth.github_app
      × (sets ≢ [])
      × (found ≡ [])
      × (more ≡ [])
target_none p test field message path auth sets found more h =
    let rejected = validate_auth_all p (append_text path ".auth") auth in
    let missing = no_runner_sets path sets in
    let (a, b) =
      parts_none (problem_if test field message)
        (append rejected (append missing (append found more))) h in
    let (c, d) = parts_none rejected (append missing (append found more)) b in
    let (e, f) = parts_none missing (append found more) d in
    let (g, k) = parts_none found more f in
    (
      ground (arith, a),
      auth_issues-IsCredential p (append_text path ".auth") auth.pat_token auth.github_app c,
      no_runner_sets-nonempty path sets e,
      g,
      k,
    )

pub orgs_issues-IsFresh :
    (p : Platform) (i : ℕ) (names : Map String) (seen : List String) (orgs : List OrgConfig)
    → Agree names seen
    → (orgs_issues p i names orgs).2 ≡ []
    → All IsOrg orgs
      × IsFresh seen (org_names orgs)
      × Agree (orgs_issues p i names orgs).1 (after seen (org_names orgs))
unfolding orgs_issues
orgs_issues-IsFresh p i names seen [] same h = (tt, tt, same)
orgs_issues-IsFresh p i names seen (org ∷ orgs) same h =
    let path = append_text "orgs[" (append_text (itoa i) "]") in
    let sets = runner_sets_issues path 0 names org.runner_sets in
    let (owner, credential, nonempty, none_here, none_later) =
      target_none p (not (valid_github_owner org.org)) (append_text path ".org")
        "must be a valid GitHub organization name" path org.auth org.runner_sets sets.1
        (orgs_issues p (i + 1) sets.0 orgs).2 h in
    let own = map name_of org.runner_sets in
    let (fine, fresh, agreed) =
      runner_sets_issues-IsFresh path 0 names seen org.runner_sets same none_here in
    let (later, fresh_later, agreed_later) =
      orgs_issues-IsFresh p (i + 1) sets.0 (after seen own) orgs agreed none_later in
    (
      (
        (valid_github_owner-nonempty org.org (ground (arith, owner)), (credential, nonempty, fine)),
        later,
      ),
      (IsFresh-append seen own (org_names orgs)).1 (fresh, fresh_later),
      subst (Agree (orgs_issues p (i + 1) sets.0 orgs).1)
          (sym (after-append seen own (org_names orgs))) agreed_later,
    )

pub repos_issues-IsFresh :
    (p : Platform) (i : ℕ) (names : Map String) (seen : List String) (repos : List RepoConfig)
    → Agree names seen
    → (repos_issues p i names repos).1 ≡ []
    → All IsRepo repos × IsFresh seen (repo_names repos)
unfolding repos_issues
repos_issues-IsFresh p i names seen [] same h = (tt, tt)
repos_issues-IsFresh p i names seen (repo ∷ repos) same h =
    let path = append_text "repos[" (append_text (itoa i) "]") in
    let sets = runner_sets_issues path 0 names repo.runner_sets in
    let (valid, credential, nonempty, none_here, none_later) =
      target_none p (not (valid_repo_parts (split 47 repo.repo))) (append_text path ".repo")
        "must use owner/repo format" path repo.auth repo.runner_sets sets.1
        (repos_issues p (i + 1) sets.0 repos).1 h in
    let own = map name_of repo.runner_sets in
    let (fine, fresh, agreed) =
      runner_sets_issues-IsFresh path 0 names seen repo.runner_sets same none_here in
    let (later, fresh_later) =
      repos_issues-IsFresh p (i + 1) sets.0 (after seen own) repos agreed none_later in
    (
      (
        (
          valid_repo_parts-two_words (split 47 repo.repo) (ground (arith, valid)),
          (credential, nonempty, fine),
        ),
        later,
      ),
      (IsFresh-append seen own (repo_names repos)).1 (fresh, fresh_later),
    )

pub orgs_issues-orgs :
    (p : Platform) (i : ℕ) (names : Map String) (orgs : List OrgConfig)
    → (orgs_issues p i names orgs).0 ≡ map with_default_group orgs
unfolding orgs_issues
orgs_issues-orgs p i names [] = refl
orgs_issues-orgs p i names (org ∷ orgs) =
    let path = append_text "orgs[" (append_text (itoa i) "]") in
    ap (λ os. with_default_group org ∷ os)
      (orgs_issues-orgs p (i + 1) (runner_sets_issues path 0 names org.runner_sets).0 orgs)
