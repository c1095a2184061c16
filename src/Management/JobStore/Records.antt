-- ===== src/Management/JobStore/Records.antt =====
-- jobs.go and provisional.go: what the recording methods do to the rows of the jobs table.
use elastic_fruit_runner.Base.{
  ℕ, ◌≡◌, ◌≢◌, refl, sym, subst, ◌∙◌, Bool, true, false, String, some, List, arith, ◌==◌,
  if◌then◌else◌, lookup, delete, not, ◌&&◌, Bool-cases, inl, inr,
}
use elastic_fruit_runner.Messages.{JobStarted, JobCompleted}
use elastic_fruit_runner.Storage.Jobs.{get_job, upsert_started_job}
use elastic_fruit_runner.Storage.Jobs.Rows.{IsKeyed, upserted, find_job-upsert_row}
use elastic_fruit_runner.Storage.Jobs.Completion.{completed_row, complete_rows}
use elastic_fruit_runner.Management.JobStore.{
  Faults, JobStore, FinalReads, stop_capture, is_known_result, started_job_params,
  record_job_message_started, record_job_message_completed, complete_row, completion_time,
  upserts_started, updates_completed, counts_completed, inserts_completed,
}
use elastic_fruit_runner.Management.JobStore.Restart.{
  IsAddressed, second_start_leaks, stop_capture_at_keeps,
}

pub started_rows :
    (to_json : List String → String) (fails : Faults) (now : ℕ) (set_name backend_name : String)
    (diagnostics : Bool) (job : JobStarted) (s : JobStore) (j : String)
    → let p = started_job_params to_json now set_name backend_name job in
      let s' =
        record_job_message_started to_json fails now set_name backend_name diagnostics job s in
      get_job s'.db j ≡ (
        if not (fails upserts_started) && job.job_id == j
        then some (upserted p (get_job s.db job.job_id))
        else get_job s.db j)
unfolding record_job_message_started get_job upsert_started_job
started_rows to_json fails now set_name backend_name diagnostics job s j =
    let p = started_job_params to_json now set_name backend_name job in
    ground (arith, find_job-upsert_row p j s.db.jobs)

jobs-stop_capture :
    (fails : Faults) (now : ℕ) (reads : FinalReads) (id : String) (s : JobStore)
    → (stop_capture fails now reads id s).db.jobs ≡ s.db.jobs
unfolding stop_capture
jobs-stop_capture fails now reads id s =
    (stop_capture_at_keeps fails now reads (lookup id s.captures)
      (record s { captures = delete id s.captures })).1

-- If ids are distinct and the database accepts the statements, recording a completion with one of the three known results
-- writes the row of the job and no other: the row has the result and the time of the message, or the
-- present time if it has none; without a row a new one is made of these. A result that is not known
-- changes no row.
pub completed_rows :
    (fails : Faults) (now : ℕ) (reads : FinalReads) (job : JobCompleted) (s : JobStore) (j : String)
    → IsKeyed s.db.jobs
    → fails updates_completed ≡ false
    → fails counts_completed ≡ false
    → fails inserts_completed ≡ false
    → get_job (record_job_message_completed fails now reads job s).db j ≡ (
        if is_known_result job.result && job.job_id == j
        then some (
            completed_row job.job_id job.result (completion_time now job) (get_job s.db job.job_id))
        else get_job s.db j)
unfolding record_job_message_completed get_job
completed_rows fails now reads job s j keyed u c i =
    let stopped = stop_capture fails now reads job.job_id s in
    let same : stopped.db.jobs ≡ s.db.jobs = jobs-stop_capture fails now reads job.job_id s in
    elim (Bool-cases (is_known_result job.result)) [
      | inl known ↦
          rw (known, u, complete_row)
            (rw (c, i)
              (complete_rows stopped.db j job.job_id job.result (completion_time now job)
                  (subst IsKeyed (sym same) keyed)
                ∙ rw same refl))
      | inr unknown ↦ rw unknown refl
    ]

-- When the start of a job is recorded twice, by statements that the database accepts and on a
-- backend with diagnostics, and then its completion with a known result, the capture of the first
-- start is still live, and no entry of the map of captures leads to it.
pub restart_leaks_capture :
    (to_json : List String → String) (fails : Faults) (t₁ t₂ t₃ : ℕ)
    (set_name backend_name : String) (job : JobStarted) (reads : FinalReads) (done : JobCompleted)
    (s : JobStore)
    → IsAddressed s
    → fails upserts_started ≡ false
    → is_known_result done.result ≡ true
    → done.job_id ≡ job.job_id
    → let twice =
        record_job_message_started to_json fails t₂ set_name backend_name true job
          (record_job_message_started to_json fails t₁ set_name backend_name true job s) in
      let s' = record_job_message_completed fails t₃ reads done twice in
      (s'.heap s.next_capture
        ≡ some (record {
          job_id = job.job_id;
          runner_name = job.runner_name;
          log_size = 0;
          live = true;
        }))
      × ((j : String) → lookup j s'.captures ≢ some s.next_capture)
restart_leaks_capture to_json fails t₁ t₂ t₃ set_name backend_name job reads done s addressed ok
      known same =
    let p₁ = started_job_params to_json t₁ set_name backend_name job in
    let p₂ = started_job_params to_json t₂ set_name backend_name job in
    let s₂ : JobStore = record s { db = upsert_started_job (upsert_started_job s.db p₁) p₂ } in
    unfold record_job_message_completed record_job_message_started in
    rw (ok, known, same)
      (second_start_leaks fails t₃ reads job.job_id job.runner_name job.runner_name s₂ addressed)
