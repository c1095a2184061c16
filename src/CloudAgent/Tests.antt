-- ===== src/CloudAgent/Tests.antt =====
-- The theorems about the cloud agent at an agent that starts one runner and cleans it up.
use elastic_fruit_runner.Base.{
  is_some, ◌≡◌, ◌-◌, ◌*◌, ◌^◌, min, ◌≤◌, ◌<◌, refl, true, false, String, none, some, List, [], ◌∷◌,
  arith, contains, lookup, insert, delete, erase,
}
use elastic_fruit_runner.Controller.Tracker.{new_runner_tracker}
use elastic_fruit_runner.Storage.Jobs.{Job, get_job}
use elastic_fruit_runner.Management.JobStore.{Faults, FinalReads}
use elastic_fruit_runner.CloudAgent.Agent.{
  Agent, BackendKey, backend_for, has_key, new_backend, track_runner, forget_runner,
  confirm_runner_started,
}
use elastic_fruit_runner.CloudAgent.Commands.{
  StartRunner, JobFinished, result_failed, handle_job_finished, job_result_string, JobMetadata,
  JobAssigned, to_job_started, handle_start_runner, handle_cleanup_runner, finish_start_runner,
  handle_job_assigned,
}
use elastic_fruit_runner.CloudAgent.Starts.Ownership
use elastic_fruit_runner.CloudAgent.Starts.{
  System, start_requested, run_returned, cleanup_requested, fire, perform, perform_all, settle,
}
use elastic_fruit_runner.CloudAgent.Starts.Ownership.{IsOwned, Reach, Reach-IsOwned}
use elastic_fruit_runner.CloudAgent.Sets.{forget_runner_set}
use elastic_fruit_runner.CloudAgent.Sets.Forgotten.{is_given, forget_runner_set_lem}
use elastic_fruit_runner.Controller.Tracker.Phases.{phases, unknown}
use elastic_fruit_runner.CloudAgent.Backoff.{
  initial_reconnect_delay, delay_after, with_jitter, delay_after_doubles,
}
use elastic_fruit_runner.CloudAgent.Records.{
  IsRow, handle_job_assigned_records, handle_job_finished_records,
}

abbrev docker : BackendKey
docker = record { backend = "docker"; image = ""; platform = ""; runtime = "" }

abbrev home : String → BackendKey
home name = docker

abbrev to_json : List String → String
to_json labels = "[]"

abbrev no_faults : Faults
no_faults statement = false

abbrev reads : FinalReads
reads = record { text = none; sample = none }

abbrev agent : Agent
agent = record {
  jobs = record {
    db = record { jobs = []; job_logs = []; next_sequence = 1; samples = [] };
    captures = [];
    heap = λ at. none;
    next_capture = 0;
  };
  tracker = new_runner_tracker;
  available = "docker" ∷ [];
  backends = [];
  runner_sets = [];
  runners = [];
  job_runners = [];
}

abbrev begin : System
begin = record { agent = agent; in_flight = []; up = []; cleaning = [] }

abbrev command : StartRunner
command = record { runner_name = "r1"; runner_set_name = "set"; spec = docker; jit_config = "jit" }

program : Unit {0}
unfolding fire settle perform perform_all handle_start_runner handle_cleanup_runner
    finish_start_runner has_key new_backend backend_for track_runner forget_runner
    confirm_runner_started contains erase lookup insert delete
program = tt

-- The cleanup overtakes the start.
abbrev requested : System
requested = fire home to_json no_faults begin (start_requested "c1" command 10)

abbrev overtaken : System
overtaken = fire home to_json no_faults requested (cleanup_requested "c2" "r1" reads 20)

abbrev returned : System
returned = fire home to_json no_faults overtaken (run_returned "c1" command true 30)

begin-IsOwned : IsOwned home begin
unfolding program
begin-IsOwned = record { at_home = λ name info h. ground arith; covered = λ name h. ground arith }

Reach-IsOwned_example : IsOwned home returned
unfolding program
Reach-IsOwned_example = Reach-IsOwned home to_json no_faults begin-IsOwned (
    Ownership.next (run_returned "c1" command true 30)
      (Ownership.next (cleanup_requested "c2" "r1" reads 20)
        (Ownership.next (start_requested "c1" command 10) Ownership.here refl) tt)
      (refl, refl))

abbrev job : JobMetadata
job = record {
  job_id = "j1";
  workflow_run_id = 5;
  workflow_ref = "w";
  display_name = "build";
  owner = "o";
  repository = "r";
  event_name = "push";
  labels = "arm64" ∷ [];
  queued_at = some 10;
  scale_set_assigned_at = none;
  runner_assigned_at = none;
}

abbrev assigned : JobAssigned
assigned = record {
  runner_name = "r1";
  runner_set_name = "set";
  backend = "docker";
  job = some job;
}

handle_job_assigned_records_example :
    IsRow to_json
      (to_job_started "r1" job)
      (get_job (handle_job_assigned to_json no_faults assigned 50 agent).jobs.db "j1")
handle_job_assigned_records_example =
    handle_job_assigned_records to_json no_faults 50 assigned job agent tt refl refl

delay_after_doubles_example :
    let wait = with_jitter (λ n. n - 1) 8000000000 in
    (8000000000 ≡ min (initial_reconnect_delay * 2 ^ 3) 30000000000)
    × (0 < 4000000000)
    × (initial_reconnect_delay ≤ 8000000000)
    × (8000000000 ≤ wait)
    × (2 * wait < 3 * 8000000000)
    × (wait < 45 * initial_reconnect_delay)
unfolding delay_after
delay_after_doubles_example = delay_after_doubles (λ n. n - 1) (λ n p. omega arith) 3

-- A job of which the agent has not heard before.
abbrev finished : JobFinished
finished = record {
  runner_name = "r1";
  job_id = "j1";
  result = result_failed;
  finished_at = some 90;
}

handle_job_finished_records_example :
    (row : Job) × (get_job
        (handle_job_finished to_json no_faults finished reads 95 agent).jobs.db
        "j1"
      ≡ some row)
    × (row.result ≡ "failed")
    × (is_some row.completed_at ≡ true)
unfolding job_result_string
handle_job_finished_records_example =
    handle_job_finished_records to_json no_faults 95 finished reads agent tt refl refl refl

-- Two runners, of two sets.
abbrev two_sets : Agent
two_sets = record agent {
  runners =
      ("r1", record { set_name = "set"; backend = docker })
      ∷ ("r2", record { set_name = "other"; backend = docker })
      ∷ [];
}

forget_runner_set_lem_example :
    let (a', removed, backends) = forget_runner_set "set" two_sets in
    (lookup "r1" a'.runners ≡ none)
    × (phases a'.tracker "r1" ≡ unknown)
    × (contains "r1" removed ≡ true)
    × (is_given "set" backends (some (record { set_name = "set"; backend = docker })) ≡ true)
unfolding program
forget_runner_set_lem_example = forget_runner_set_lem "set" "r1" two_sets (refl, (refl, tt))
