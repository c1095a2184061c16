-- ===== src/Management/Host/Tests.antt =====
-- The theorems about the retention at a database with one completed and one running job, and about
-- the rollup at a minute with two samples.
use elastic_fruit_runner.Base.{
  ℕ, ◌*◌, ◌≤◌, ◌⊎◌, ◌≡◌, refl, true, false, String, Option, none, some, [], ◌∷◌, arith, length,
  if◌then◌else◌, eqb, keep_if,
}
use elastic_fruit_runner.Storage.Jobs.{Job}
use elastic_fruit_runner.Storage.Samples.{
  InsertRawHostSampleParams, raw_row, sum_of, HostSample, list_host_samples,
}
use elastic_fruit_runner.Storage.Retention.{
  ended_at, is_expired_job, belongs_to_expired, delete_expired_job_logs,
  delete_expired_job_resource_samples, delete_expired_jobs, oldest_completed, log_characters,
  estimated_bytes, get_oldest_completed_job_size, delete_job_logs, delete_job_resource_samples,
  delete_completed_job,
}
use elastic_fruit_runner.Management.Host.{
  World, HostStore, free_jobs, shrink, delete_oldest, delete_expired, clean_history,
  rollup_host_minute_at, read_host_samples, second, max_history_bytes,
}
use elastic_fruit_runner.Management.Host.Running.{running_jobs}
use elastic_fruit_runner.Management.Host.Ending.{IsDone, clean_history_ends}
use elastic_fruit_runner.Management.Host.Owners.{IsOwned, has_job, clean_history-IsOwned}
use elastic_fruit_runner.Management.Host.Averages.{rollup_hides_history}

program : Unit {0}
unfolding keep_if sum_of has_job ended_at is_expired_job belongs_to_expired delete_expired_job_logs
    delete_expired_job_resource_samples delete_expired_jobs oldest_completed log_characters
    estimated_bytes get_oldest_completed_job_size delete_job_logs delete_job_resource_samples
    delete_completed_job free_jobs shrink delete_oldest delete_expired clean_history
program = tt

abbrev world : World
world = record {
  fails = λ statement n k. false;
  file_size = λ n. if eqb n 0 then 11811160064 else 8589934592;
  compacts = λ n. true;
  characters = length;
  average_real = λ values. 0;
}

abbrev job : String → String → Option ℕ → Job
job id result completed_at = record {
  id = id;
  runner_name = "r";
  runner_set_name = "set";
  result = result;
  started_at = 90 * 86400 * second;
  completed_at = completed_at;
  owner = "";
  repository = "";
  workflow_ref = "";
  display_name = "";
  workflow_run_id = 0;
  event_name = "";
  labels_json = "[]";
  queued_at = none;
  scale_set_assigned_at = none;
  runner_assigned_at = none;
  backend = "docker";
}

abbrev store : HostStore
store = record {
  db = record {
    jobs = job "old" "succeeded" (some (91 * 86400 * second)) ∷ job "busy" "running" none ∷ [];
    job_logs =
        record {
          sequence = 1;
          job_id = "busy";
          recorded_at = 91 * 86400 * second;
          text = 104 ∷ 105 ∷ [];
        }
        ∷ [];
    next_sequence = 2;
    samples = [];
  };
  host_samples = [];
  host_sample_count = 0;
}

abbrev now : ℕ
now = 100 * 86400 * second

clean_history_ends_example :
    (s' : HostStore) × (clean_history world 2 now store ≡ some s')
    × (running_jobs s'.db.jobs ≡ running_jobs store.db.jobs)
    × (((world.file_size 0 ≤ max_history_bytes) × (s' ≡ delete_expired world now store))
        ⊎ IsDone world s'.db)
unfolding program
clean_history_ends_example = clean_history_ends world (λ n k. refl) now 2 store (omega arith)

clean_history-IsOwned_example :
    (s' : HostStore) × (clean_history world 2 now store ≡ some s') × IsOwned s'.db
unfolding program
clean_history-IsOwned_example =
    clean_history-IsOwned world (λ statement n k. refl) now 2 store (omega arith) ((refl, tt), tt)

-- The database was too large, so the job that had ended is gone.
cleaned :
    clean_history world 2 now store
    ≡ some (record store { db = record store.db { jobs = job "busy" "running" none ∷ [] } })
unfolding program elastic_fruit_runner.Storage.Samples.delete_expired_host_samples
cleaned = refl

abbrev sample : ℕ → ℕ → InsertRawHostSampleParams
sample at used = record {
  recorded_at = at;
  cpu_percent = 0;
  memory_used_bytes = used;
  memory_available_bytes = 0;
  disk_used_bytes = 0;
  disk_available_bytes = 0;
  disk_read_bytes = 0;
  disk_write_bytes = 0;
  load_one = 0;
  temperature_celsius = 0;
}

abbrev sampled : HostStore
sampled = record store {
  host_samples = raw_row (sample (65 * second) 7) ∷ raw_row (sample (60 * second) 8) ∷ [];
}

rollup_hides_history_example :
    read_host_samples false false
      (90000 * second)
      (60 * second)
      (600 * second)
      (rollup_host_minute_at world (120 * second) sampled)
    ≡ ([], none)
unfolding program
rollup_hides_history_example =
    rollup_hides_history world (120 * second) (60 * second) (600 * second) sampled (90000 * second)
      refl (omega arith) (omega arith) (omega arith) (omega arith) (omega arith)
