-- ===== src/Management/Provisional.antt =====
-- internal/management/provisional.go: a job record that is opened under a placeholder id before the
-- job is known, and is later moved to the job's id or closed.
pub mod Attach
use elastic_fruit_runner.Base.{
  ℕ, zero, suc, Bool, true, false, String, Option, none, some, List, [], ◌∷◌, map, ◌==◌,
  if◌then◌else◌, lookup, insert, delete, eqb,
}
use elastic_fruit_runner.Messages.{JobStarted}
use elastic_fruit_runner.Storage.Jobs.{
  Bytes, Job, Database, UpsertStartedJobParams, get_job, upsert_started_job, rename_running_job,
  move_job_logs, move_job_resource_samples, close_running_job_with_note, is_running,
}
use elastic_fruit_runner.Storage.Transactions.{
  Connection, begin_tx, commit, rollback, in_tx, affects_in_tx,
}
use elastic_fruit_runner.Storage.Jobs.Queries.{job_logs_contain_text}
use elastic_fruit_runner.Management.JobStore.{
  Faults, CaptureState, JobStore, FinalReads, update, stop_capture, start_capture,
  started_job_params, record_job_message_started, gets_job, begins, renames, counts_renamed,
  upserts_started, moves_logs, moves_samples, commits, closes, searches_logs,
}

unfoldable pub first_non_empty : String → String → String
first_non_empty a b = if a == "" then b else a

unfoldable pub merge_job : Job → JobStarted → JobStarted
merge_job existing incoming = record incoming {
  runner_name = if incoming.runner_name == "" then existing.runner_name else incoming.runner_name;
  job_display_name =
      if incoming.job_display_name == "" then existing.display_name else incoming.job_display_name;
}

-- The statements of `moveJob` after the rename, and the commit, with whether it returns nil.
unfoldable pub move_details :
    Faults → String → UpsertStartedJobParams → Connection → Connection × Bool
move_details fails old_id params c =
    let upserted = in_tx (λ d. upsert_started_job d params) c in
    let with_logs = in_tx (λ d. move_job_logs d params.id old_id) upserted in
    let with_samples = in_tx (λ d. move_job_resource_samples d params.id old_id) with_logs in
    if fails upserts_started
    then (c, false)
    else if fails moves_logs
    then (upserted, false)
    else if fails moves_samples
    then (with_logs, false)
    else if fails commits
    then (with_samples, false)
    else (commit with_samples, true)

-- `moveJob` once the transaction is open.
unfoldable pub move_in_tx :
    Faults → String → UpsertStartedJobParams → Connection → Connection × Bool
move_in_tx fails old_id params c =
    if fails renames
    then (c, false)
    else elim (affects_in_tx (λ d. rename_running_job d params.id old_id) c) [
      | none ↦ (c, false)
      | some (renamed, affected) ↦
          if fails counts_renamed
          then (renamed, false)
          else if eqb affected 0
          then (renamed, false)
          else move_details fails old_id params renamed
    ]

-- `moveJob` with its deferred rollback: the database, and whether the error is nil.
unfoldable pub move_job : Faults → String → UpsertStartedJobParams → Database → Database × Bool
move_job fails old_id params db =
    if fails begins
    then (db, false)
    else let (c, moved) = move_in_tx fails old_id params (begin_tx db) in ((rollback c).db, moved)

-- `state.jobID = merged.JobID`
abbrev rename_capture :
    ℕ → String → Option CaptureState → (ℕ → Option CaptureState) → ℕ → Option CaptureState
rename_capture at job_id none heap = heap
rename_capture at job_id (some state) heap = update heap at (record state { job_id = job_id })

-- The capture goes on under the job's id, or starts now if there was none.
unfoldable pub attach_capture : String → JobStarted → Bool → Option ℕ → JobStore → JobStore
unfolding start_capture
attach_capture placeholder job diagnostics none s =
    if diagnostics then start_capture job.job_id job.runner_name s else s
attach_capture placeholder job diagnostics (some at) s = record s {
  captures = insert job.job_id at (delete placeholder s.captures);
  heap = rename_capture at job.job_id (s.heap at) s.heap;
}

module _ (to_json : List String → String) where
  -- The rest of `AttachJobMetadata`, once the running provisional row is read.
  unfoldable pub attach_to :
      Faults → ℕ → String → String → String → Bool → JobStarted → Job → JobStore → JobStore × Bool
  unfolding merge_job first_non_empty attach_capture
  attach_to fails now placeholder set_name backend_name diagnostics job row s =
      let merged = merge_job row job in
      let params =
        started_job_params to_json now (first_non_empty set_name row.runner_set_name)
          (first_non_empty backend_name row.backend) merged in
      let (db, moved) = move_job fails placeholder params s.db in
      if moved
      then (
        attach_capture placeholder merged diagnostics (lookup placeholder s.captures)
            (record s { db = db }),
        true,
      )
      else (record s { db = db }, false)

  unfoldable pub attach_job_metadata :
      Faults → ℕ → String → String → String → Bool → JobStarted → JobStore → JobStore × Bool
  unfolding attach_to
  attach_job_metadata fails now placeholder set_name backend_name diagnostics job s =
      if fails gets_job then (s, false) else elim (get_job s.db placeholder) [
        | none ↦ (s, false)
        | some row ↦
            if is_running row
            then attach_to fails now placeholder set_name backend_name diagnostics job row s
            else (s, false)
      ]

  abbrev pub provisional_job : String → String → JobStarted
  provisional_job placeholder runner_name = record {
    job_id = placeholder;
    runner_name = runner_name;
    owner_name = "";
    repository_name = "";
    job_workflow_ref = "";
    job_display_name = "waiting for job";
    workflow_run_id = 0;
    event_name = "";
    request_labels = [];
    queue_time = 0;
    scale_set_assign_time = 0;
    runner_assign_time = 0;
  }

  unfoldable pub open_provisional_job :
      Faults → ℕ → String → String → String → String → Bool → JobStore → JobStore
  open_provisional_job fails now placeholder set_name backend_name runner_name diagnostics =
      record_job_message_started to_json fails now set_name backend_name diagnostics
        (provisional_job placeholder runner_name)

unfoldable pub closed_without_job_note : Bool → String
closed_without_job_note true = "job ran while the control plane was unreachable, details unknown"
closed_without_job_note false = "runner removed before any job was assigned"

-- The bytes of "Running job:".
abbrev pub runner_job_start_marker : Bytes
runner_job_start_marker =
    b'R' ∷ b'u' ∷ b'n' ∷ b'n' ∷ b'i' ∷ b'n' ∷ b'g' ∷ b' ' ∷ b'j' ∷ b'o' ∷ b'b' ∷ b':' ∷ []

unfoldable pub job_logs_show_job_started : Faults → Database → String → Bool
job_logs_show_job_started fails db job_id =
    if fails searches_logs then false else job_logs_contain_text db job_id runner_job_start_marker

-- The update of a running row.
unfoldable pub close_running : Faults → ℕ → String → Database → Database
unfolding closed_without_job_note job_logs_show_job_started
close_running fails now placeholder db =
    let note = closed_without_job_note (job_logs_show_job_started fails db placeholder) in
    let closed = close_running_job_with_note db "unknown" now note placeholder in
    if fails closes then db else closed

unfoldable pub close_row : Faults → ℕ → String → Database → Database
unfolding close_running
close_row fails now placeholder db = if fails gets_job then db else elim (get_job db placeholder) [
  | none ↦ db
  | some row ↦ if is_running row then close_running fails now placeholder db else db
]

unfoldable pub close_provisional_job : Faults → ℕ → FinalReads → String → JobStore → JobStore
unfolding close_row
close_provisional_job fails now reads placeholder s =
    let stopped = stop_capture fails now reads placeholder s in
    record stopped { db = close_row fails now placeholder stopped.db }
