-- ===== src/Management/Service/Tests.antt =====
-- The theorem about management.New at a configuration with one org of one runner set.
use elastic_fruit_runner.Base.{
  ◌≡◌, refl, String, false, none, some, [], ◌∷◌, pos, append_text, contains, map,
}
use elastic_fruit_runner.Config.{
  Config, auth_mode, database_path, default_database_path, default_data_dir,
}
use elastic_fruit_runner.Config.Startup.{
  auth_error, runner_set_error, validate_runner_set, validate_runner_sets, with_default_group,
  validate_org, validate_repo, validate_orgs, validate_repos, has_targets, validate_mode,
  cors_error, is_log_level, is_single_word, validate,
}
use elastic_fruit_runner.Config.Text.{to_lower, one_of, contains_any, digits}
use elastic_fruit_runner.Config.Yaml.{config_of}
use elastic_fruit_runner.Config.Tests.{platform, config, org, runner_set}
use elastic_fruit_runner.CloudAgent.Agent.{new_backend}
use elastic_fruit_runner.Controller.Tracker.{snapshot}
use elastic_fruit_runner.Management.Service.{
  done, failed, panicked, path_error, Surroundings, NewController, spec_of, create_backend,
  client_for, runner_set_controllers, org_controllers, repo_controllers, service_at, new_management,
  list_runner_sets,
}
use elastic_fruit_runner.Management.Service.Wanted.{setting, setting_of}
use elastic_fruit_runner.Management.Service.Started.{new_management-validate}

program : Unit {0}
unfolding auth_error runner_set_error validate_runner_set validate_runner_sets with_default_group
    validate_org validate_repo validate_orgs validate_repos has_targets validate_mode cors_error
    is_log_level is_single_word validate to_lower one_of contains_any digits config_of contains
    auth_mode database_path default_database_path default_data_dir new_backend snapshot
    create_backend client_for runner_set_controllers org_controllers repo_controllers service_at
    list_runner_sets
program = tt

-- A client is the text of its token.
abbrev env : Surroundings String
env = record {
  home = some "/home/runner";
  join = λ a b. append_text a b;
  with_github_app = λ url app pem. none;
  with_token = λ url token. some token;
}

abbrev completed : Config
completed = record config { orgs = record org { runner_group = "Default" } ∷ [] }

abbrev controller : NewController String
controller = record {
  rs_cfg = runner_set;
  runner_group = "Default";
  idle_timeout = config.idle_timeout;
  client = "token";
  backend = spec_of runner_set;
  scope = "org: my-org";
  connected = false;
  runners = record { runner_ctx = none; preparing = []; idle = []; busy = [] };
}

made : new_management platform env completed ≡ done (controller ∷ [])
unfolding program
made = refl

homeless : new_management platform (record env { home = none }) completed ≡ failed path_error
unfolding program
homeless = refl

-- A configuration that Config.Validate does not see: no token, and no app.
tokenless :
    new_management platform env (record completed {
      orgs = record org { auth = record { github_app = none; pat_token = none } } ∷ [];
    })
    ≡ panicked
unfolding program
tokenless = refl

viewed :
    list_runner_sets (controller ∷ [])
    ≡ record {
      name = "linux";
      backend = "docker";
      image = "ubuntu";
      labels = [];
      max_runners = pos 2;
      scope = "org: my-org";
      connected = false;
      runners = [];
    }
      ∷ []
unfolding program
viewed = refl

new_management-validate_example :
    map setting (controller ∷ [])
    ≡ setting_of "Default" config.idle_timeout "org: my-org" (done "token") runner_set ∷ []
unfolding program
new_management-validate_example = new_management-validate platform env config refl
