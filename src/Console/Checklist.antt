-- ===== src/Console/Checklist.antt =====
-- internal/api/checklist.go: the steps that the console shows of how far the setup is, from the
-- results of the last probes, which are arguments. The file of the configuration is the empty text
-- without a config state, and the day of a time is a parameter.
mod Steps
pub mod Ready
mod Tests
use Prim.Native.String.{◌++◌}
use mathlib.Core.List.{◌++◌ as append}
use elastic_fruit_runner.Base.{
  ℕ, Bool, true, false, String, Option, none, some, List, [], ◌∷◌, ◌==◌, ltb, if◌then◌else◌,
}
use elastic_fruit_runner.Config.{Config, OrgConfig, RepoConfig, RunnerSetConfig}
use elastic_fruit_runner.Controller.Tracker.{Duration}
use elastic_fruit_runner.Management.History.{JobRecord}
use elastic_fruit_runner.Management.Service.{RunnerSetView}
use elastic_fruit_runner.Console.{
  StepStatus, step_pass, step_fail, step_pending, step_skipped, SetupStep, CheckStatus, check_pass,
  check_fail, check_skipped, Check, GithubTarget, GithubProbe, BackendResult, CloudInfo, Listed,
  Server, connect_grace_period,
}

unfoldable pub config_step : String → Option Config → SetupStep
config_step path none = record {
  id = "config";
  title = "Config file";
  status = step_fail;
  message = "No valid config file at " ++ path ++ ". Use the setup wizard.";
  page = "setup";
}
config_step path (some c) = record {
  id = "config";
  title = "Config file";
  status = step_pass;
  message = path;
  page = "config";
}

abbrev cloud_status : StepStatus → String → SetupStep
cloud_status status message = record {
  id = "cloud";
  title = "Cloud connected";
  status = status;
  message = message;
  page = "config";
}

unfoldable pub cloud_step : Duration → CloudInfo → SetupStep
cloud_step uptime cloud =
    if cloud.connected
    then cloud_status step_pass ("command stream to " ++ cloud.server_url ++ " is up")
    else if ltb uptime connect_grace_period
    then cloud_status step_pending ("connecting to " ++ cloud.server_url)
    else cloud_status step_fail (cloud.server_url ++ " is not connected, check the daemon log")

unfoldable pub target_name : GithubTarget → String
target_name t = if t.org == "" then "repo " ++ t.repo else "org " ++ t.org

-- probe.FirstFailure, with an empty text where nothing failed
unfoldable pub first_failure_of : List Check → String
first_failure_of [] = ""
first_failure_of (check ∷ checks) =
    let rest = first_failure_of checks in
    elim check.status [
      | check_fail ↦ check.name ++ ": " ++ check.message
      | check_pass ↦ rest
      | check_skipped ↦ rest
    ]

unfoldable pub github_step : GithubProbe → SetupStep
github_step result =
    let failure = first_failure_of result.checks in
    record {
      id = "github_auth";
      title = "GitHub access: " ++ target_name result.target;
      status = if failure == "" then step_pass else step_fail;
      message = if failure == "" then "credentials and runner permission confirmed" else failure;
      page = "config";
    }

unfoldable pub each_target : List GithubProbe → List SetupStep
each_target [] = []
each_target (result ∷ results) = github_step result ∷ each_target results

abbrev github_access : StepStatus → String → String → List SetupStep
github_access status message page =
    record {
      id = "github_auth";
      title = "GitHub access";
      status = status;
      message = message;
      page = page;
    }
    ∷ []

unfoldable pub github_steps : Option Config → List GithubProbe → List SetupStep
github_steps none results = github_access step_skipped "Checked after the config is saved" "setup"
github_steps (some c) [] = github_access step_pending "checking" "config"
github_steps (some c) (result ∷ results) = each_target (result ∷ results)

abbrev page_of : Option Config → String
page_of none = "setup"
page_of (some c) = "config"

unfoldable pub backend_step : String → BackendResult → SetupStep
backend_step page result = record {
  id = "backend";
  title = "Runner backend: " ++ result.backend;
  status = if result.available then step_pass else step_fail;
  message = if result.available then result.version else result.error;
  page = page;
}

unfoldable pub each_backend : String → List BackendResult → List SetupStep
each_backend page [] = []
each_backend page (result ∷ results) = backend_step page result ∷ each_backend page results

unfoldable pub backend_steps : Option Config → List BackendResult → List SetupStep
backend_steps config [] =
    record {
      id = "backend";
      title = "Runner backend";
      status = step_pending;
      message = "checking";
      page = page_of config;
    }
    ∷ []
backend_steps config (result ∷ results) = each_backend (page_of config) (result ∷ results)

abbrev sets_step : StepStatus → String → SetupStep
sets_step status message = record {
  id = "runner_sets";
  title = "Runner sets connected";
  status = status;
  message = message;
  page = "runner-sets";
}

-- The loop over the runner sets.
unfoldable pub sets_status : Duration → List RunnerSetView → SetupStep
sets_status uptime [] = sets_step step_pass "all runner sets are connected"
sets_status uptime (view ∷ views) =
    let rest = sets_status uptime views in
    if view.connected
    then rest
    else if ltb uptime connect_grace_period
    then sets_step step_pending "connecting"
    else sets_step step_fail (view.name ++ " is not connected, check the daemon log")

unfoldable pub runner_set_step : Duration → Option Config → Option Listed → SetupStep
runner_set_step uptime (some c) (some listed) = sets_status uptime listed.runner_sets
runner_set_step uptime (some c) none = sets_step step_skipped "Checked after the config is saved"
runner_set_step uptime none listed = sets_step step_skipped "Checked after the config is saved"

-- The labels of the first of the runner sets, if there is one.
abbrev labels_or : List String → List RunnerSetConfig → List String
labels_or labels [] = labels
labels_or labels (rs ∷ sets) = rs.labels

abbrev repo_labels : List RepoConfig → List String
repo_labels [] = []
repo_labels (repo ∷ repos) = labels_or [] repo.runner_sets

-- The switch looks at the first org, and then at the first repo.
abbrev first_labels : List OrgConfig → List RepoConfig → List String
first_labels [] repos = repo_labels repos
first_labels (org ∷ orgs) repos = labels_or (repo_labels repos) org.runner_sets

-- strings.Join with a comma and a space
unfoldable pub comma_separated : List String → String
comma_separated [] = ""
comma_separated (label ∷ []) = label
comma_separated (label ∷ next ∷ labels) = label ++ ", " ++ comma_separated (next ∷ labels)

unfoldable pub first_runner_set_labels : Config → String
first_runner_set_labels c = elim (first_labels c.orgs c.repos) [
  | [] ↦ "self-hosted"
  | label ∷ labels ↦ comma_separated (label ∷ labels)
]

abbrev job_step : StepStatus → String → SetupStep
job_step status message = record {
  id = "first_job";
  title = "First job";
  status = status;
  message = message;
  page = "jobs";
}

unfoldable pub latest_job : (ℕ → String) → Option CloudInfo → Config → List JobRecord → SetupStep
latest_job day cloud c (job ∷ jobs) =
    let name = if job.display_name == "" then job.id else job.display_name in
    job_step step_pass ("latest job: " ++ name ++ " on " ++ day job.started_at)
latest_job day (some cloud) c [] =
    job_step step_pending "waiting for the first job from Elastic Fruit Cloud"
latest_job day none c [] =
    job_step step_pending ("push a workflow with runs-on: [" ++ first_runner_set_labels c ++ "]")

unfoldable pub first_job_step :
    (ℕ → String) → Option CloudInfo → Option Config → Option Listed → SetupStep
first_job_step day cloud (some c) (some listed) = latest_job day cloud c listed.job_records
first_job_step day cloud (some c) none = job_step step_skipped "Checked after the config is saved"
first_job_step day cloud none listed = job_step step_skipped "Checked after the config is saved"

-- The steps of GetSetupChecklist, by whether there is a cloud.
unfoldable pub steps_after :
    (ℕ → String)
    → Server
    → Option CloudInfo
    → List GithubProbe
    → List BackendResult
    → List SetupStep
steps_after day s (some cloud) github backends =
    cloud_step s.uptime cloud
    ∷ append (backend_steps s.active_config backends)
        (first_job_step day s.cloud s.active_config s.management ∷ [])
steps_after day s none github backends = append (github_steps s.active_config github) (
    append (backend_steps s.active_config backends) (
      runner_set_step s.uptime s.active_config s.management
      ∷ first_job_step day s.cloud s.active_config s.management
      ∷ []))

abbrev pub get_setup_checklist :
    (ℕ → String) → Server → List GithubProbe → List BackendResult → List SetupStep
get_setup_checklist day s github backends =
    config_step s.config_path s.active_config ∷ steps_after day s s.cloud github backends
