-- ===== src/Messages.antt =====
-- The job messages of the scale set API (github.com/actions/scaleset), with the fields that
-- internal/controller/scaler.go and internal/management/jobs.go read. A time is in nanoseconds
-- from Go's zero time, so 0 is the time for which `IsZero` holds.
use elastic_fruit_runner.Base.{ℕ, String, List}

pub record JobStarted : Type 0 where
  pub job_id : String
  pub runner_name : String
  pub owner_name : String
  pub repository_name : String
  pub job_workflow_ref : String
  pub job_display_name : String
  pub workflow_run_id : ℕ
  pub event_name : String
  pub request_labels : List String
  pub queue_time : ℕ
  pub scale_set_assign_time : ℕ
  pub runner_assign_time : ℕ

pub record JobCompleted : Type 0 where
  pub job_id : String
  pub runner_name : String
  pub result : String
  pub finish_time : ℕ
