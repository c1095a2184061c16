-- ===== src/CloudAgent/Records.antt =====
-- commands.go, handleJobAssigned and handleJobFinished: the rows of the jobs table.
use elastic_fruit_runner.Base.{
  is_some, ℕ, ◌≡◌, refl, ◌∙◌, Bool, true, false, String, Option, none, some, List, eq_iff, arith,
  Bool-cases, inl, inr,
}
use elastic_fruit_runner.Messages.{JobStarted}
use elastic_fruit_runner.Controller.Tracker.{Time}
use elastic_fruit_runner.Storage.Jobs.{Job, get_job, is_running, restarted_row, started_row}
use elastic_fruit_runner.Storage.Jobs.Rows.{IsKeyed, upserted, renamed}
use elastic_fruit_runner.Management.JobStore.{
  Faults, JobStore, FinalReads, updates_completed, counts_completed, inserts_completed,
  is_known_result, completion_time, upserts_started, started_job_params,
}
use elastic_fruit_runner.Storage.Jobs.Completion.{completed_row}
use elastic_fruit_runner.Management.JobStore.Records.{completed_rows, started_rows}
use elastic_fruit_runner.Management.Provisional.{attach_job_metadata, merge_job}
use elastic_fruit_runner.Management.Provisional.Attach.{
  IsMoved, attached_params, attach_unchanged, attach_moves, attach-IsKeyed,
}
use elastic_fruit_runner.CloudAgent.Agent.{Agent, diagnostics_for, remember_runner_set}
use elastic_fruit_runner.CloudAgent.Commands.{
  JobAssigned, JobMetadata, JobFinished, JobResult, result_succeeded, result_failed,
  result_canceled, result_other, handle_job_finished, job_result_string, to_job_completed,
  undelivered_job, placeholder_job_id, to_job_started, record_assigned, handle_job_assigned,
}

-- What a row says of its job.
pub record IsRow (to_json : List String → String) (started : JobStarted) (found : Option Job)
    : Type 0 where
  pub row : Job
  pub stored : found ≡ some row
  pub running : is_running row ≡ true
  pub event_name : row.event_name ≡ started.event_name
  pub labels : row.labels_json ≡ to_json started.request_labels

upserted-IsRow :
    (to_json : List String → String) (now : ℕ) (set_name backend : String) (started : JobStarted)
    (old : Option Job)
    → IsRow to_json started
        (some (upserted (started_job_params to_json now set_name backend started) old))
unfolding started_job_params started_row restarted_row
upserted-IsRow to_json now set_name backend started none = record {
  row = _;
  stored = refl;
  running = refl;
  event_name = refl;
  labels = refl;
}
upserted-IsRow to_json now set_name backend started (some old) = record {
  row = _;
  stored = refl;
  running = refl;
  event_name = refl;
  labels = refl;
}

module _ (to_json : List String → String) (fails : Faults) (now : Time) (placeholder : String)
    (c : JobAssigned) (started : JobStarted) (diagnostics : Bool) (s : JobStore) where
  attached-IsRow :
      (old : Job)
      → IsMoved s.db
          (attach_job_metadata to_json fails now placeholder c.runner_set_name c.backend diagnostics
            started s).0.db
          placeholder
          old
          (attached_params to_json fails now placeholder c.runner_set_name c.backend diagnostics
            started s old)
      → IsRow to_json started (
          get_job
            (attach_job_metadata to_json fails now placeholder c.runner_set_name c.backend
              diagnostics started s).0.db
            started.job_id)
  unfolding merge_job started_job_params started_row restarted_row
  attached-IsRow old moved = record {
    row =
        restarted_row
          (attached_params to_json fails now placeholder c.runner_set_name c.backend diagnostics
            started s old)
          (renamed started.job_id old);
    stored = moved.rows started.job_id ∙ ground (arith, eq_iff started.job_id started.job_id);
    running = refl;
    event_name = refl;
    labels = refl;
  }

  record_assigned-IsRow :
      IsKeyed s.db.jobs
      → fails upserts_started ≡ false
      → IsRow to_json started (
          get_job
            (record_assigned to_json fails placeholder c started diagnostics now s).db
            started.job_id)
  unfolding record_assigned
  record_assigned-IsRow keyed ok =
      let tried =
        attach_job_metadata to_json fails now placeholder c.runner_set_name c.backend diagnostics
          started s in
      elim (Bool-cases tried.1) [
        | inl attached ↦
            let (old, found, runs, moved) =
              attach_moves to_json fails now placeholder c.runner_set_name c.backend diagnostics
                started s keyed attached in
            rw attached (attached-IsRow old moved)
        | inr refused ↦
            let same =
              attach_unchanged to_json fails now placeholder c.runner_set_name c.backend diagnostics
                started s refused in
            let rows =
              started_rows to_json fails now c.runner_set_name c.backend diagnostics started s
                started.job_id in
            let stored : get_job
                  (record_assigned to_json fails placeholder c started diagnostics now s).db
                  started.job_id
                ≡ some (
                    upserted (started_job_params to_json now c.runner_set_name c.backend started)
                      (get_job s.db started.job_id)) =
              rw (refused, same) (rows ∙ ground (arith, eq_iff started.job_id started.job_id)) in
            rw stored (
              upserted-IsRow to_json now c.runner_set_name c.backend started
                (get_job s.db started.job_id))
      ]

completed_row_says :
    (id result : String) (at : ℕ) (old : Option Job)
    → ((completed_row id result at old).result ≡ result)
      × (is_some (completed_row id result at old).completed_at ≡ true)
completed_row_says id result at none = (refl, refl)
completed_row_says id result at (some row) = (refl, refl)

result_is_known : (r : JobResult) → is_known_result (job_result_string r) ≡ true
unfolding is_known_result job_result_string
result_is_known result_succeeded = refl
result_is_known result_failed = refl
result_is_known result_canceled = refl
result_is_known result_other = refl

module _ (to_json : List String → String) (fails : Faults) (now : Time) where
  -- If job ids are distinct and the database accepts the row of the start, a JobAssigned with job
  -- details leaves a running row for the job, with the event and the labels of the message, whether
  -- or not a provisional row could be moved to it.
  pub handle_job_assigned_records :
      (c : JobAssigned) (job : JobMetadata) (a : Agent)
      → IsKeyed a.jobs.db.jobs
      → fails upserts_started ≡ false
      → c.job ≡ some job
      → IsRow to_json
          (to_job_started c.runner_name job)
          (get_job (handle_job_assigned to_json fails c now a).jobs.db job.job_id)
  unfolding handle_job_assigned to_job_started
  handle_job_assigned_records c job a keyed ok given = rw given (
      record_assigned-IsRow to_json fails now (placeholder_job_id c.runner_name) c
        (to_job_started c.runner_name job)
        (diagnostics_for c.runner_name c.backend
          (remember_runner_set c.runner_set_name c.backend "" "" a))
        a.jobs keyed ok)

  -- If job ids are distinct and the database accepts the statements of the completion, a JobFinished
  -- leaves a row for the job with the result of the message, failed for one that is not known, and a
  -- time of completion, whether the job was assigned before, still provisional, or not known at all.
  pub handle_job_finished_records :
      (c : JobFinished) (reads : FinalReads) (a : Agent)
      → IsKeyed a.jobs.db.jobs
      → fails updates_completed ≡ false
      → fails counts_completed ≡ false
      → fails inserts_completed ≡ false
      → (row : Job) × (get_job (handle_job_finished to_json fails c reads now a).jobs.db c.job_id
          ≡ some row)
        × (row.result ≡ job_result_string c.result)
        × (is_some row.completed_at ≡ true)
  unfolding handle_job_finished to_job_completed
  handle_job_finished_records c reads a keyed u n i =
      let tried =
        attach_job_metadata to_json fails now (placeholder_job_id c.runner_name) "" "" false
          (undelivered_job to_json fails c) a.jobs in
      let done = to_job_completed c in
      let kept : IsKeyed tried.0.db.jobs =
        attach-IsKeyed to_json fails now (placeholder_job_id c.runner_name) "" "" false
          (undelivered_job to_json fails c) a.jobs keyed in
      let found = completed_rows fails now reads done tried.0 c.job_id kept u n i in
      let known = result_is_known c.result in
      let row =
        completed_row c.job_id (job_result_string c.result) (completion_time now done)
          (get_job tried.0.db c.job_id) in
      let says =
        completed_row_says c.job_id (job_result_string c.result) (completion_time now done)
          (get_job tried.0.db c.job_id) in
      (row, found ∙ ground (arith, eq_iff c.job_id c.job_id), says.0, says.1)
