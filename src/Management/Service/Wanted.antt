-- ===== src/Management/Service/Wanted.antt =====
-- management/service.go: what the controllers of a configuration are to be, and the two reasons why
-- there may be none.
use elastic_fruit_runner.Base.{ℤ, ◌≡◌, String, append_text, none, List, [], ◌∷◌, ◌++◌, map}
use elastic_fruit_runner.Config.{
  Config, OrgConfig, RepoConfig, AuthConfig, RunnerSetConfig, org_config_url, repo_config_url,
  database_path,
}
use elastic_fruit_runner.Config.Cloud.{Platform}
use elastic_fruit_runner.CloudAgent.Agent.{BackendKey}
use elastic_fruit_runner.Management.Service.{
  NewError, path_error, create_client, Built, done, failed, panicked, Surroundings, NewController,
  spec_of, new_client,
}

-- What a controller is made of.
pub record Setting (Client : Type 0) : Type 0 where
  pub rs_cfg : RunnerSetConfig
  pub backend : BackendKey
  pub runner_group : String
  pub idle_timeout : ℤ
  pub scope : String
  pub client : Built Client

module _ {Client : Type 0} where
  abbrev pub setting : NewController Client → Setting Client
  setting d = record {
    rs_cfg = d.rs_cfg;
    backend = d.backend;
    runner_group = d.runner_group;
    idle_timeout = d.idle_timeout;
    scope = d.scope;
    client = done d.client;
  }

  abbrev pub setting_of : String → ℤ → String → Built Client → RunnerSetConfig → Setting Client
  setting_of group idle_timeout scope client rs = record {
    rs_cfg = rs;
    backend = spec_of rs;
    runner_group = group;
    idle_timeout = idle_timeout;
    scope = scope;
    client = client;
  }

module _ {Client : Type 0} (p : Platform) (env : Surroundings Client) where
  -- One for each runner set of the orgs and of the repos, in order, with the client of its target.
  abbrev pub org_settings : ℤ → List OrgConfig → List (Setting Client)
  org_settings idle_timeout [] = []
  org_settings idle_timeout (org ∷ orgs) =
      map
        (setting_of org.runner_group idle_timeout (append_text "org: " org.org)
          (new_client p env (org_config_url org) org.auth))
        org.runner_sets
      ++ org_settings idle_timeout orgs

  abbrev pub repo_settings : ℤ → List RepoConfig → List (Setting Client)
  repo_settings idle_timeout [] = []
  repo_settings idle_timeout (repo ∷ repos) =
      map
        (setting_of "Default" idle_timeout (append_text "repo: " repo.repo)
          (new_client p env (repo_config_url repo) repo.auth))
        repo.runner_sets
      ++ repo_settings idle_timeout repos

  -- No database path, or no client for the org or repo of that name.
  abbrev pub IsRefusal : Config → NewError → Type 0
  IsRefusal c path_error = database_path env.home env.join c ≡ none
  IsRefusal c (create_client name e) =
      (auth : AuthConfig) × (new_client p env (append_text "https://github.com/" name) auth
        ≡ failed e)
  IsRefusal c e = ⊥

  abbrev pub IsMade : Config → List (Setting Client) → Built (List (NewController Client)) → Type 0
  IsMade c wanted (done controllers) = map setting controllers ≡ wanted
  IsMade c wanted (failed e) = IsRefusal c e
  IsMade c wanted panicked = ⊥
