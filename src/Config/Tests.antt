-- ===== src/Config/Tests.antt =====
-- The theorems about the configuration at a file with one org of one runner set.
use elastic_fruit_runner.Base.{
  ◌≡◌, ◌↔◌, refl, true, false, none, some, [], ◌∷◌, arith, eq_iff, inl, inr, pos, contains, lookup,
  insert,
}
use elastic_fruit_runner.Config.{
  Config, OrgConfig, RunnerSetConfig, CorsConfig, parsed_log_level, mode,
}
use elastic_fruit_runner.Config.Text.{
  two_words, split, split_n, trim_left, trim_right, one_of, to_lower, digits, github_owner_pattern,
  starts_in, ends_with, all_chars, contains_any, has_double_dash, begins_with, has_prefix,
}
use elastic_fruit_runner.Config.Cloud.{Platform, cloud_issues, server_url_issues, validate_cloud}
use elastic_fruit_runner.Config.Startup.{
  is_single_word, auth_error, runner_set_error, validate_runner_set, validate_runner_sets,
  with_default_group, validate_org, validate_repo, validate_orgs, validate_repos, has_targets,
  validate_mode, cors_error, is_log_level, validate,
}
use elastic_fruit_runner.Config.Settings.{
  only_known_methods, cors_issues, directory_issues, validate_writable_path, mode_issues, is_origin,
  field_issues, settings_issues,
}
use elastic_fruit_runner.Config.Targets.{
  valid_github_owner, private_key_issues, auth_issues, backend_option_issues, name_issues,
  validate_runner_set_all, runner_sets_issues, orgs_issues, repos_issues,
}
use elastic_fruit_runner.Config.Yaml.{
  mode_warnings, validate_config, Yaml, end_of_file, RawConfig, config_of, raw_of, normalized_text,
  validate_document, document_result, validate_yaml, Loader, loaded_config, load_text, load_file,
  load,
}
use elastic_fruit_runner.Config.Accepted.{IsAccepted}
use elastic_fruit_runner.Config.Accepted.Equivalence.{validate_iff}
use elastic_fruit_runner.Config.Accepted.Strictness.{validate_config-validate}
use elastic_fruit_runner.Config.Accepted.Loading.{load-validate}

program : Unit {0}
unfolding parsed_log_level mode split split_n trim_left trim_right one_of to_lower digits
    github_owner_pattern starts_in ends_with all_chars contains_any has_double_dash begins_with
    has_prefix contains lookup insert two_words cloud_issues server_url_issues validate_cloud
    is_single_word auth_error runner_set_error validate_runner_set validate_runner_sets
    with_default_group validate_org validate_repo validate_orgs validate_repos has_targets
    validate_mode cors_error is_log_level validate only_known_methods cors_issues directory_issues
    validate_writable_path mode_issues is_origin field_issues settings_issues valid_github_owner
    private_key_issues auth_issues backend_option_issues name_issues validate_runner_set_all
    runner_sets_issues orgs_issues repos_issues mode_warnings validate_config config_of raw_of
    normalized_text validate_document document_result validate_yaml loaded_config load_text
    load_file load
program = tt

abbrev pub platform : Platform
platform = record {
  parse_url = λ url. none;
  splits_host_port = λ address. true;
  quoted = λ text. text;
  read_file = λ path. inl "no such file";
  pem_type = λ content. none;
  is_private_key = λ type. false;
  dir = λ path. "/";
  stat = λ path. none;
  open_error = λ path. none;
  create_error = λ dir. none;
}

abbrev pub runner_set : RunnerSetConfig
runner_set = record {
  name = "linux";
  backend = "docker";
  image = "ubuntu";
  labels = [];
  max_runners = pos 2;
  platform = "";
  runtime = "";
}

abbrev pub org : OrgConfig
org = record {
  org = "my-org";
  auth = record { github_app = none; pat_token = some "token" };
  runner_group = "";
  runner_sets = runner_set ∷ [];
}

abbrev cors : CorsConfig
cors = record {
  allow_origin = "";
  allow_methods = "";
  allow_headers = "";
  expose_headers = "";
  allow_credentials = false;
  max_age = pos 0;
}

abbrev pub raw : RawConfig
raw = record {
  orgs = org ∷ [];
  repos = [];
  cloud = none;
  idle_timeout = pos 0;
  log_level = "";
  api_addr = "";
  cors = cors;
  db_path = "";
  log_path = "";
}

abbrev pub config : Config
config = config_of raw

validate_iff_example :
    (((validate platform config).1 ≡ none) ↔ IsAccepted platform config)
    × ((validate platform config).1 ≡ none
        → (validate platform config).0
          ≡ record config { orgs = record org { runner_group = "Default" } ∷ [] })
unfolding program
validate_iff_example = validate_iff platform config

validate_config-validate_example :
    validate platform config
    ≡ (record config { orgs = record org { runner_group = "Default" } ∷ [] }, none)
unfolding program
validate_config-validate_example = validate_config-validate platform config refl

abbrev yaml : Yaml
yaml = record {
  decode = λ text. inr raw;
  next_document = λ text. end_of_file;
  marshal = λ raw. some "orgs: []";
}

abbrev loader : Loader
loader = record {
  read_in_error = none;
  bind_env_error = none;
  unmarshal = inr (record config { log_level = "debug" });
  file_used = "config.yaml";
  absolute = λ path. inr "/config.yaml";
  read = λ path. inr "orgs:";
  hash = λ text. "3a";
}

abbrev loaded : Config
loaded = record config {
  orgs = record org { runner_group = "Default" } ∷ [];
  log_level = "debug";
  file_path = "/config.yaml";
  loaded_hash = "3a";
  loaded_yaml = "orgs:";
}

load-validate_example : validate platform loaded ≡ (loaded, none)
unfolding program
load-validate_example =
    load-validate platform yaml loader loaded refl
      (λ e. ground (arith, eq_iff "/config.yaml" "", e)) refl

-- A second runner set of the same name, in a repo, is refused.
twice :
    (validate platform (record config {
      repos = record { repo = "o/r"; auth = org.auth; runner_sets = runner_set ∷ [] } ∷ [];
    })).1
    ≡ some "runner set name linux is not unique"
unfolding program
twice = refl
