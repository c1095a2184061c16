-- ===== src/Console/Checklist/Tests.antt =====
-- The checklist of a server with one org, whose controller is connected and has run a job.
use elastic_fruit_runner.Base.{◌≡◌, ◌↔◌, ℕ, refl, String, true, some, none, [], ◌∷◌, pos, List}
use elastic_fruit_runner.Config.Tests.{config}
use elastic_fruit_runner.Config.Yaml.{config_of}
use elastic_fruit_runner.Management.History.{JobRecord}
use elastic_fruit_runner.Console.{
  step_pass, step_pending, check_pass, check_fail, GithubProbe, BackendResult, Server, SetupStep,
  StepStatus,
}
use elastic_fruit_runner.Console.Checklist.{
  config_step, cloud_step, target_name, first_failure_of, github_step, each_target, github_steps,
  backend_step, each_backend, backend_steps, sets_status, runner_set_step, comma_separated,
  first_runner_set_labels, latest_job, first_job_step, steps_after, get_setup_checklist,
}
use elastic_fruit_runner.Console.Checklist.Steps.{all_pass}
use elastic_fruit_runner.Console.Checklist.Ready.{IsReady, get_setup_checklist_iff}

program : Unit {0}
unfolding config_step cloud_step target_name first_failure_of github_step each_target github_steps
    backend_step each_backend backend_steps sets_status runner_set_step comma_separated
    first_runner_set_labels latest_job first_job_step steps_after config_of
program = tt

abbrev day : ℕ → String
day time = "2026-01-02"

abbrev job : JobRecord
job = record {
  id = "7";
  runner_name = "linux-1";
  runner_set_name = "linux";
  result = "succeeded";
  started_at = 5;
  completed_at = none;
  owner = "my-org";
  repository = "r";
  workflow_ref = "";
  display_name = "";
  workflow_run_id = 1;
  event_name = "push";
  labels = [];
  queued_at = none;
  scale_set_assigned_at = none;
  runner_assigned_at = none;
  backend = "docker";
}

abbrev server : Server
server = record {
  active_config = some config;
  config_path = "/config.yaml";
  cloud = none;
  management = some (record {
    runner_sets =
        record {
          name = "linux";
          backend = "docker";
          image = "ubuntu";
          labels = [];
          max_runners = pos 2;
          scope = "org: my-org";
          connected = true;
          runners = [];
        }
        ∷ [];
    job_records = job ∷ [];
  });
  uptime = 300000000000;
}

abbrev github : List GithubProbe
github =
    record {
      target = record { org = "my-org"; repo = "" };
      checks = record { name = "token"; status = check_pass; message = "" } ∷ [];
    }
    ∷ []

abbrev backends : List BackendResult
backends = record { backend = "docker"; available = true; version = "27"; error = "" } ∷ []

ready : all_pass (get_setup_checklist day server github backends) ≡ true
unfolding program
ready = refl

status_of : List SetupStep → List StepStatus
status_of [] = []
status_of (step ∷ steps) = step.status ∷ status_of steps

unprobed :
    status_of (get_setup_checklist day server [] [])
    ≡ step_pass ∷ step_pending ∷ step_pending ∷ step_pass ∷ step_pass ∷ []
unfolding program status_of
unprobed = refl

refused :
    (github_step (record {
      target = record { org = ""; repo = "o/r" };
      checks = record { name = "token"; status = check_fail; message = "expired" } ∷ [];
    })).message
    ≡ "token: expired"
unfolding program
refused = refl

get_setup_checklist_iff_example :
    (all_pass (get_setup_checklist day server github backends) ≡ true)
    ↔ IsReady (some config) none server.management github backends
get_setup_checklist_iff_example = get_setup_checklist_iff day server github backends
