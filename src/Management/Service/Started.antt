-- ===== src/Management/Service/Started.antt =====
-- management/service.go, New, on a configuration that the daemon starts with: what its outcome is.
use elastic_fruit_runner.Base.{
  ℤ, ◌≡◌, ◌≢◌, inl, inr, refl, ap, ◌∙◌, String, append_text, Option, none, some, List, [], ◌∷◌,
  ◌++◌, map, ◌==◌, eq_iff, arith, Bool-cases, outcome,
}
use elastic_fruit_runner.Config.{
  Config, OrgConfig, RepoConfig, AuthConfig, GitHubAppConfig, RunnerSetConfig, auth_mode,
  org_config_url, repo_config_url, database_path,
}
use elastic_fruit_runner.Config.Cloud.{Platform}
use elastic_fruit_runner.Config.Startup.{with_default_group, validate}
use elastic_fruit_runner.Config.Accepted.{All, IsRunnerSet, IsCredential, IsOrg, IsRepo}
use elastic_fruit_runner.Config.Accepted.Equivalence.{validate_iff}
use elastic_fruit_runner.CloudAgent.Agent.{new_backend}
use elastic_fruit_runner.Management.Service.{
  create_client, Built, done, failed, panicked, and_then, wrapped, client_result, Surroundings,
  NewController, spec_of, create_backend, client_for, new_client, new_controller,
  runner_set_controllers, org_controllers, repo_controllers, service_at, new_management,
}
use elastic_fruit_runner.Management.Service.Wanted.{
  Setting, setting, setting_of, org_settings, repo_settings, IsMade,
}

create_backend_lem : (rs : RunnerSetConfig) → IsRunnerSet rs → create_backend rs ≡ done (spec_of rs)
unfolding create_backend new_backend
create_backend_lem rs v = elim v.1 [
  | inl docker ↦
      ground (arith, eq_iff rs.backend "tart", eq_iff rs.backend "docker", eq_iff "docker" "tart")
  | inr (tart, plain) ↦ ground (arith, eq_iff rs.backend "tart", eq_iff rs.runtime "")
]

module _ {Client : Type 0} where
  map-setting-append :
      (xs ys : List (NewController Client))
      → map setting (xs ++ ys) ≡ map setting xs ++ map setting ys
  map-setting-append [] ys = refl
  map-setting-append (x ∷ xs) ys = ap (λ zs. setting x ∷ zs) (map-setting-append xs ys)

  client_result-done : (o : Option Client) → client_result o ≢ panicked
  client_result-done none h = absurd (ground arith)
  client_result-done (some client) h = absurd (ground arith)

module _ {Client : Type 0} (p : Platform) (env : Surroundings Client) where
  client_for-IsCredential :
      (url : String) (token : Option String) (app : Option GitHubAppConfig)
      → IsCredential token app
      → client_for p env url (auth_mode (record { github_app = app; pat_token = token })) token app
        ≢ panicked
  unfolding client_for auth_mode
  client_for-IsCredential url none none v = absurd v
  client_for-IsCredential url (some token) (some app) v = absurd v
  client_for-IsCredential url (some token) none v = client_result-done (env.with_token url token)
  client_for-IsCredential url none (some app) v = elim (Bool-cases (app.client_id == "")) [
    | inl e ↦ absurd (v.0 ((eq_iff app.client_id "").0 e))
    | inr e ↦ rw e (elim (outcome (p.read_file app.private_key_path)) [
      | inl (error, q) ↦ rw q (λ h. absurd (ground arith))
      | inr (pem, q) ↦ rw q (client_result-done (env.with_github_app url app pem))
    ])
  ]

  IsMade-append :
      (c : Config) (ws vs : List (Setting Client)) (a b : Built (List (NewController Client)))
      → IsMade p env c ws a
      → IsMade p env c vs b
      → IsMade p env c (ws ++ vs) (and_then a (λ xs. and_then b (λ ys. done (xs ++ ys))))
  IsMade-append c ws vs (done xs) (done ys) h k = map-setting-append xs ys ∙ cc
  IsMade-append c ws vs (done xs) (failed e) h k = k
  IsMade-append c ws vs (done xs) panicked h k = k
  IsMade-append c ws vs (failed e) b h k = h
  IsMade-append c ws vs panicked b h k = h

  IsMade-cons :
      (c : Config) (d : NewController Client) (ws : List (Setting Client))
      (o : Built (List (NewController Client)))
      → IsMade p env c ws o
      → IsMade p env c (setting d ∷ ws) (and_then o (λ more. done (d ∷ more)))
  IsMade-cons c d ws (done ds) h = ap (λ vs. setting d ∷ vs) h
  IsMade-cons c d ws (failed e) h = h
  IsMade-cons c d ws panicked h = h

  runner_set_controllers-IsMade :
      (c : Config) (group scope : String) (idle_timeout : ℤ) (client : Client)
      (sets : List RunnerSetConfig)
      → All IsRunnerSet sets
      → IsMade p env c
          (map (setting_of group idle_timeout scope (done client)) sets)
          (runner_set_controllers group idle_timeout client scope sets)
  unfolding runner_set_controllers
  runner_set_controllers-IsMade c group scope idle_timeout client [] v = refl
  runner_set_controllers-IsMade c group scope idle_timeout client (rs ∷ sets) v =
      let rest = runner_set_controllers-IsMade c group scope idle_timeout client sets v.1 in
      rw (create_backend_lem rs v.0) (
        IsMade-cons c (new_controller rs group idle_timeout client (spec_of rs) scope)
          (map (setting_of group idle_timeout scope (done client)) sets)
          (runner_set_controllers group idle_timeout client scope sets) rest)

  -- The part of an org or repo, whatever comes of its client.
  target-IsMade :
      (c : Config) (name group scope : String) (idle_timeout : ℤ) (auth : AuthConfig)
      (sets : List RunnerSetConfig) (ws : List (Setting Client))
      (rest : Built (List (NewController Client))) (o : Built Client)
      → new_client p env (append_text "https://github.com/" name) auth ≡ o
      → o ≢ panicked
      → All IsRunnerSet sets
      → IsMade p env c ws rest
      → IsMade p env c (map (setting_of group idle_timeout scope o) sets ++ ws) (
          and_then (wrapped (create_client name) o) (λ client.
            and_then
              (runner_set_controllers group idle_timeout client scope sets)
              (λ here. and_then rest (λ more. done (here ++ more)))))
  target-IsMade c name group scope idle_timeout auth sets ws rest (done client) q n v h =
      IsMade-append c (map (setting_of group idle_timeout scope (done client)) sets) ws
        (runner_set_controllers group idle_timeout client scope sets) rest
        (runner_set_controllers-IsMade c group scope idle_timeout client sets v) h
  target-IsMade c name group scope idle_timeout auth sets ws rest (failed e) q n v h = (auth, q)
  target-IsMade c name group scope idle_timeout auth sets ws rest panicked q n v h = absurd (n refl)

  org_controllers-IsMade :
      (c : Config) (idle_timeout : ℤ) (orgs : List OrgConfig)
      → All IsOrg orgs
      → IsMade p env c
          (org_settings p env idle_timeout orgs)
          (org_controllers p env idle_timeout orgs)
  unfolding org_controllers
  org_controllers-IsMade c idle_timeout [] v = refl
  org_controllers-IsMade c idle_timeout (org ∷ orgs) v =
      let client = new_client p env (org_config_url org) org.auth in
      target-IsMade c org.org org.runner_group (append_text "org: " org.org) idle_timeout org.auth
        org.runner_sets (org_settings p env idle_timeout orgs)
        (org_controllers p env idle_timeout orgs) client refl
        (client_for-IsCredential (org_config_url org) org.auth.pat_token org.auth.github_app
          v.0.1.0)
        v.0.1.2 (org_controllers-IsMade c idle_timeout orgs v.1)

  repo_controllers-IsMade :
      (c : Config) (idle_timeout : ℤ) (repos : List RepoConfig)
      → All IsRepo repos
      → IsMade p env c
          (repo_settings p env idle_timeout repos)
          (repo_controllers p env idle_timeout repos)
  unfolding repo_controllers
  repo_controllers-IsMade c idle_timeout [] v = refl
  repo_controllers-IsMade c idle_timeout (repo ∷ repos) v =
      let client = new_client p env (repo_config_url repo) repo.auth in
      target-IsMade c repo.repo "Default" (append_text "repo: " repo.repo) idle_timeout repo.auth
        repo.runner_sets (repo_settings p env idle_timeout repos)
        (repo_controllers p env idle_timeout repos) client refl
        (client_for-IsCredential (repo_config_url repo) repo.auth.pat_token repo.auth.github_app
          v.0.1.0)
        v.0.1.2 (repo_controllers-IsMade c idle_timeout repos v.1)

  service_at-IsMade :
      (c : Config) (path : Option String)
      → database_path env.home env.join c ≡ path
      → All IsOrg c.orgs
      → All IsRepo c.repos
      → IsMade p env c
          (org_settings p env c.idle_timeout c.orgs ++ repo_settings p env c.idle_timeout c.repos)
          (service_at p env c path)
  unfolding service_at
  service_at-IsMade c none missing orgs repos = missing
  service_at-IsMade c (some path) found orgs repos =
      IsMade-append c (org_settings p env c.idle_timeout c.orgs)
        (repo_settings p env c.idle_timeout c.repos) (org_controllers p env c.idle_timeout c.orgs)
        (repo_controllers p env c.idle_timeout c.repos)
        (org_controllers-IsMade c c.idle_timeout c.orgs orgs)
        (repo_controllers-IsMade c c.idle_timeout c.repos repos)

  with_default_group-IsOrg :
      (orgs : List OrgConfig) → All IsOrg orgs → All IsOrg (map with_default_group orgs)
  unfolding with_default_group
  with_default_group-IsOrg [] v = tt
  with_default_group-IsOrg (org ∷ orgs) v =
      let rest = with_default_group-IsOrg orgs v.1 in
      elim (Bool-cases (org.runner_group == "")) [
        | inl e ↦ rw e (v.0, rest)
        | inr e ↦ rw e (v.0, rest)
      ]

  -- What management.New makes of a configuration that Config.Validate accepts and completes: a
  -- controller for each runner set of the orgs and then of the repos, in order, each with its own
  -- settings, the group, the name and the client of its target and the backend it asks for, or the
  -- error of a missing database path or of the client of an org or repo. It neither refuses a
  -- backend nor dereferences a nil pointer.
  pub new_management-validate :
      (c : Config)
      → (validate p c).1 ≡ none
      → let c' = (validate p c).0 in
        IsMade p env c'
          (org_settings p env c.idle_timeout (map with_default_group c.orgs)
            ++ repo_settings p env c.idle_timeout c.repos)
          (new_management p env c')
  new_management-validate c h =
      let (accepted, completed) = validate_iff p c in
      let v = accepted.0 h in
      rw (completed h) (
        service_at-IsMade (record c { orgs = map with_default_group c.orgs })
          (database_path env.home env.join (record c { orgs = map with_default_group c.orgs })) refl
          (with_default_group-IsOrg c.orgs v.4) v.5)
