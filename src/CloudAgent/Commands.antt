-- ===== src/CloudAgent/Commands.antt =====
-- internal/cloudagent/commands.go, samples.go, convert.go, provisional.go: the handlers of the
-- commands. StartRunner and CleanupRunner run in goroutines of their own: `handle_start_runner` goes
-- as far as the call of `backend.Run`, `finish_start_runner` from its return on. What a handler
-- asks of a backend or reports to the cloud is the list of actions that it returns, in order.
-- The protocol is not part of this repository; the records hold the fields that the code reads.
use elastic_fruit_runner.Base.{
  ℕ, Bool, true, false, String, append_text, Option, none, some, List, [], ◌∷◌, ◌++◌, ◌*◌, map, min,
  if◌then◌else◌, insert, delete,
}
use elastic_fruit_runner.Messages.{JobStarted, JobCompleted}
use elastic_fruit_runner.Controller.Tracker.{
  Time, RunnerState, state_preparing, state_idle, state_busy, mark_busy, mark_idle,
}
use elastic_fruit_runner.Management.JobStore.{
  Faults, FinalReads, JobStore, record_job_message_started, record_job_message_completed,
}
use elastic_fruit_runner.Management.Provisional.{
  attach_job_metadata, open_provisional_job, close_provisional_job,
}
use elastic_fruit_runner.CloudAgent.Agent.{
  Agent, BackendKey, backend_for, remember_runner_set, track_runner, confirm_runner_started,
  forget_runner, runner_state, capable_backends, diagnostics_for,
}

pub record StartRunner : Type 0 where
  pub runner_name : String
  pub runner_set_name : String
  pub spec : BackendKey
  pub jit_config : String

pub record JobMetadata : Type 0 where
  pub job_id : String
  pub workflow_run_id : ℕ
  pub workflow_ref : String
  pub display_name : String
  pub owner : String
  pub repository : String
  pub event_name : String
  pub labels : List String
  pub queued_at : Option ℕ
  pub scale_set_assigned_at : Option ℕ
  pub runner_assigned_at : Option ℕ

pub record JobAssigned : Type 0 where
  pub runner_name : String
  pub runner_set_name : String
  pub backend : String
  pub job : Option JobMetadata

pub data JobResult : Type 0 where
  result_succeeded result_failed result_canceled result_other : JobResult

pub record JobFinished : Type 0 where
  pub runner_name : String
  pub job_id : String
  pub result : JobResult
  pub finished_at : Option ℕ

pub data Action : Type 0 where
  -- `backend.Run`, by a goroutine that then finishes the start
  launches : String → StartRunner → BackendKey → Action
  -- `backend.Cleanup`
  cleans : BackendKey → String → Action
  -- the events of the command that are reported to the cloud
  reports_started reports_start_failed reports_cleaned : String → String → Action

unfoldable pub placeholder_job_id : String → String
placeholder_job_id runner_name = append_text "pending-" runner_name

unfoldable pub time_or_zero : Option ℕ → ℕ
time_or_zero none = 0
time_or_zero (some t) = t

unfoldable pub to_job_started : String → JobMetadata → JobStarted
unfolding time_or_zero
to_job_started runner_name job = record {
  job_id = job.job_id;
  runner_name = runner_name;
  owner_name = job.owner;
  repository_name = job.repository;
  job_workflow_ref = job.workflow_ref;
  job_display_name = job.display_name;
  workflow_run_id = job.workflow_run_id;
  event_name = job.event_name;
  request_labels = job.labels;
  queue_time = time_or_zero job.queued_at;
  scale_set_assign_time = time_or_zero job.scale_set_assigned_at;
  runner_assign_time = time_or_zero job.runner_assigned_at;
}

-- The result that is recorded: an unknown one is recorded as failed.
unfoldable pub job_result_string : JobResult → String
job_result_string result_succeeded = "succeeded"
job_result_string result_failed = "failed"
job_result_string result_canceled = "canceled"
job_result_string result_other = "failed"

unfoldable pub to_job_completed : JobFinished → JobCompleted
unfolding time_or_zero job_result_string
to_job_completed finished = record {
  job_id = finished.job_id;
  runner_name = finished.runner_name;
  result = job_result_string finished.result;
  finish_time = time_or_zero finished.finished_at;
}

-- A runner that the tracker does not have counts as preparing, the zero of the type.
abbrev is_preparing : Option RunnerState → Bool
is_preparing none = true
is_preparing (some state_preparing) = true
is_preparing (some state_idle) = false
is_preparing (some state_busy) = false

unfoldable pub handle_start_runner : String → StartRunner → Time → Agent → Agent × List Action
unfolding backend_for remember_runner_set track_runner
handle_start_runner id c now a =
    let (a₁, found) = backend_for c.spec a in
    elim found [
      | none ↦ (a₁, reports_start_failed id c.runner_name ∷ [])
      | some b ↦
          let a₂ =
            remember_runner_set c.runner_set_name c.spec.backend c.spec.image c.spec.platform a₁ in
          let (a₃, fresh) = track_runner c.runner_name c.runner_set_name b now a₂ in
          if fresh
          then (a₃, launches id c b ∷ [])
          else if is_preparing (runner_state c.runner_name a₃)
          then (a₃, [])
          else (a₃, reports_started id c.runner_name ∷ [])
    ]

abbrev pub with_jobs : Agent → JobStore → Agent
with_jobs a jobs = record a { jobs = jobs }

module _ (to_json : List String → String) (fails : Faults) where
  -- `ok` is whether `backend.Run` succeeded.
  unfoldable pub finish_start_runner :
      String → StartRunner → BackendKey → Bool → Time → Agent → Agent × List Action
  unfolding forget_runner confirm_runner_started placeholder_job_id
  finish_start_runner id c b false now a = (
    (forget_runner c.runner_name a).0,
    cleans b c.runner_name ∷ reports_start_failed id c.runner_name ∷ [],
  )
  finish_start_runner id c b true now a =
      let (a', confirmed) = confirm_runner_started c.runner_name now a in
      if confirmed
      then (
        with_jobs a' (
            open_provisional_job to_json fails now (placeholder_job_id c.runner_name)
              c.runner_set_name c.spec.backend c.runner_name
              (diagnostics_for c.runner_name c.spec.backend a') a'.jobs),
        reports_started id c.runner_name ∷ [],
      )
      else (a', cleans b c.runner_name ∷ reports_start_failed id c.runner_name ∷ [])

  unfoldable pub handle_cleanup_runner :
      String → String → FinalReads → Time → Agent → Agent × List Action
  unfolding forget_runner placeholder_job_id
  handle_cleanup_runner id name reads now a =
      let (a₁, info) = forget_runner name a in
      let a₂ =
        with_jobs a₁ (close_provisional_job fails now reads (placeholder_job_id name) a₁.jobs) in
      elim info [
        | some known ↦ (a₂, cleans known.backend name ∷ reports_cleaned id name ∷ [])
        | none ↦
            let (a₃, bs) = capable_backends a₂ in
            (a₃, map (λ b. cleans b name) bs ++ (reports_cleaned id name ∷ []))
      ]

  -- The job's record, from the provisional one if there is one.
  unfoldable pub record_assigned :
      String → JobAssigned → JobStarted → Bool → Time → JobStore → JobStore
  record_assigned placeholder c started diagnostics now s =
      let (s', attached) =
        attach_job_metadata to_json fails now placeholder c.runner_set_name c.backend diagnostics
          started s in
      if attached
      then s'
      else record_job_message_started to_json fails now c.runner_set_name c.backend diagnostics
          started s'

  unfoldable pub handle_job_assigned : JobAssigned → Time → Agent → Agent
  unfolding record_assigned placeholder_job_id to_job_started remember_runner_set
  handle_job_assigned c now a = elim c.job [
    | none ↦ a
    | some job ↦
        let a₁ = remember_runner_set c.runner_set_name c.backend "" "" a in
        let diagnostics = diagnostics_for c.runner_name c.backend a₁ in
        record a₁ {
          tracker = mark_busy c.runner_name now a.tracker;
          job_runners = insert job.job_id c.runner_name a.job_runners;
          jobs =
              record_assigned (placeholder_job_id c.runner_name) c
                (to_job_started c.runner_name job) diagnostics now a.jobs;
        }
  ]

  abbrev pub undelivered_job : JobFinished → JobStarted
  undelivered_job c = record {
    job_id = c.job_id;
    runner_name = c.runner_name;
    owner_name = "";
    repository_name = "";
    job_workflow_ref = "";
    job_display_name = "job details were not delivered by the control plane";
    workflow_run_id = 0;
    event_name = "";
    request_labels = [];
    queue_time = 0;
    scale_set_assign_time = 0;
    runner_assign_time = 0;
  }

  unfoldable pub handle_job_finished : JobFinished → FinalReads → Time → Agent → Agent
  unfolding to_job_completed placeholder_job_id
  handle_job_finished c reads now a =
      let (s, attached) =
        attach_job_metadata to_json fails now (placeholder_job_id c.runner_name) "" "" false
          (undelivered_job c) a.jobs in
      record a {
        tracker = mark_idle c.runner_name now a.tracker;
        jobs = record_job_message_completed fails now reads (to_job_completed c) s;
        job_runners = delete c.job_id a.job_runners;
      }

-- The delays of the reconnect loop, in nanoseconds.
abbrev pub max_reconnect_delay : ℕ
max_reconnect_delay = 30000000000

unfoldable pub next_reconnect_delay : ℕ → ℕ
next_reconnect_delay current = min (current * 2) max_reconnect_delay
