-- ===== src/Management/Service.antt =====
-- management/service.go and githubclient/client.go: how the daemon in standalone mode makes a
-- controller of each runner set of its configuration. The two constructors of the `scaleset`
-- package, the home directory and the join of two paths are parameters. A dereference of a nil
-- pointer is the outcome `panicked`. An error is its wrappings around its first cause, without the
-- texts.
mod Tests
mod Wanted
pub mod Started
use elastic_fruit_runner.Base.{
  ℤ, Bool, false, String, append_text, Option, none, some, List, [], ◌∷◌, ◌++◌, inl, inr,
}
use elastic_fruit_runner.Config.{
  Config, OrgConfig, RepoConfig, AuthConfig, GitHubAppConfig, RunnerSetConfig, AuthMode, app_mode,
  pat_mode, auth_mode, org_config_url, repo_config_url, database_path,
}
use elastic_fruit_runner.Config.Cloud.{Platform}
use elastic_fruit_runner.Controller.Tracker.{
  RunnerSnapshot, RunnerTracker, new_runner_tracker, snapshot,
}
use elastic_fruit_runner.CloudAgent.Agent.{BackendKey, new_backend}

pub data NewError : Type 0 where
  path_error key_error client_error backend_error : NewError
  create_client create_backend_of in_runner_set : String → NewError → NewError

pub data Built (A : Type 0) : Type 0 where
  done : A → Built A
  failed : NewError → Built A
  panicked : Built A

module _ {A : Type 0} where
  -- The rest of a function, unless a call has failed.
  abbrev pub and_then : {B : Type 0} → Built A → (A → Built B) → Built B
  and_then (done a) rest = rest a
  and_then (failed e) rest = failed e
  and_then panicked rest = panicked

  -- fmt.Errorf with %w
  abbrev pub wrapped : (NewError → NewError) → Built A → Built A
  wrapped wrap (done a) = done a
  wrapped wrap (failed e) = failed (wrap e)
  wrapped wrap panicked = panicked

-- What the code calls outside of the repository.
pub record Surroundings (Client : Type 0) : Type 0 where
  pub home : Option String
  pub join : String → String → String
  pub with_github_app : String → GitHubAppConfig → String → Option Client
  pub with_token : String → String → Option Client

-- controller.ScaleSetController, as its `New` makes it; the backend is the one of its spec.
pub record NewController (Client : Type 0) : Type 0 where
  pub rs_cfg : RunnerSetConfig
  pub runner_group : String
  pub idle_timeout : ℤ
  pub client : Client
  pub backend : BackendKey
  pub scope : String
  pub connected : Bool
  pub runners : RunnerTracker

pub record RunnerSetView : Type 0 where
  pub name : String
  pub backend : String
  pub image : String
  pub labels : List String
  pub max_runners : ℤ
  pub scope : String
  pub connected : Bool
  pub runners : List RunnerSnapshot

abbrev pub spec_of : RunnerSetConfig → BackendKey
spec_of rs = record {
  backend = rs.backend;
  image = rs.image;
  platform = rs.platform;
  runtime = rs.runtime;
}

unfoldable pub create_backend : RunnerSetConfig → Built BackendKey
create_backend rs = elim (new_backend (spec_of rs)) [
  | none ↦ failed (in_runner_set rs.name backend_error)
  | some b ↦ done b
]

module _ {Client : Type 0} where
  abbrev pub client_result : Option Client → Built Client
  client_result none = failed client_error
  client_result (some client) = done client

  -- The two modes of githubclient.New, with the pointers of the AuthConfig.
  unfoldable pub client_for :
      Platform
      → Surroundings Client
      → String
      → AuthMode
      → Option String
      → Option GitHubAppConfig
      → Built Client
  client_for p env url app_mode token none = panicked
  client_for p env url app_mode token (some app) = elim (p.read_file app.private_key_path) [
    | inl error ↦ failed key_error
    | inr pem ↦ client_result (env.with_github_app url app pem)
  ]
  client_for p env url pat_mode none app = panicked
  client_for p env url pat_mode (some token) app = client_result (env.with_token url token)

  -- githubclient.New
  abbrev pub new_client : Platform → Surroundings Client → String → AuthConfig → Built Client
  new_client p env url auth = client_for p env url (auth_mode auth) auth.pat_token auth.github_app

  -- controller.New
  abbrev pub new_controller :
      RunnerSetConfig → String → ℤ → Client → BackendKey → String → NewController Client
  new_controller rs group idle_timeout client backend scope = record {
    rs_cfg = rs;
    runner_group = group;
    idle_timeout = idle_timeout;
    client = client;
    backend = backend;
    scope = scope;
    connected = false;
    runners = new_runner_tracker;
  }

  -- The loop over the runner sets of one org or repo.
  unfoldable pub runner_set_controllers :
      String → ℤ → Client → String → List RunnerSetConfig → Built (List (NewController Client))
  runner_set_controllers group idle_timeout client scope [] = done []
  runner_set_controllers group idle_timeout client scope (rs ∷ sets) =
      let rest = runner_set_controllers group idle_timeout client scope sets in
      and_then (wrapped (create_backend_of rs.name) (create_backend rs)) (λ b.
        and_then rest (λ more. done (new_controller rs group idle_timeout client b scope ∷ more)))

  unfoldable pub org_controllers :
      Platform → Surroundings Client → ℤ → List OrgConfig → Built (List (NewController Client))
  org_controllers p env idle_timeout [] = done []
  org_controllers p env idle_timeout (org ∷ orgs) =
      let rest = org_controllers p env idle_timeout orgs in
      let scope = append_text "org: " org.org in
      and_then (wrapped (create_client org.org) (new_client p env (org_config_url org) org.auth))
        (λ client.
          and_then
            (runner_set_controllers org.runner_group idle_timeout client scope org.runner_sets)
            (λ here. and_then rest (λ more. done (here ++ more))))

  unfoldable pub repo_controllers :
      Platform → Surroundings Client → ℤ → List RepoConfig → Built (List (NewController Client))
  repo_controllers p env idle_timeout [] = done []
  repo_controllers p env idle_timeout (repo ∷ repos) =
      let rest = repo_controllers p env idle_timeout repos in
      let scope = append_text "repo: " repo.repo in
      and_then
        (wrapped (create_client repo.repo) (new_client p env (repo_config_url repo) repo.auth))
        (λ client.
          and_then (runner_set_controllers "Default" idle_timeout client scope repo.runner_sets)
            (λ here. and_then rest (λ more. done (here ++ more))))

  -- The controllers of management.New once the path of the database is known: the loop over the
  -- repos goes on where that over the orgs has ended.
  unfoldable pub service_at :
      Platform → Surroundings Client → Config → Option String → Built (List (NewController Client))
  service_at p env c none = failed path_error
  service_at p env c (some path) = and_then (org_controllers p env c.idle_timeout c.orgs) (λ orgs.
      and_then (repo_controllers p env c.idle_timeout c.repos) (λ repos. done (orgs ++ repos)))

  abbrev pub new_management :
      Platform → Surroundings Client → Config → Built (List (NewController Client))
  new_management p env c = service_at p env c (database_path env.home env.join c)

  -- GetRunnerSetInfo, GetScope, IsConnected and GetRunners of one controller
  abbrev runner_set_view : NewController Client → RunnerSetView
  runner_set_view d = record {
    name = d.rs_cfg.name;
    backend = d.rs_cfg.backend;
    image = d.rs_cfg.image;
    labels = d.rs_cfg.labels;
    max_runners = d.rs_cfg.max_runners;
    scope = d.scope;
    connected = d.connected;
    runners = snapshot d.runners;
  }

  unfoldable pub list_runner_sets : List (NewController Client) → List RunnerSetView
  list_runner_sets [] = []
  list_runner_sets (d ∷ controllers) = runner_set_view d ∷ list_runner_sets controllers
