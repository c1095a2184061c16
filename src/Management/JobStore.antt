-- ===== src/Management/JobStore.antt =====
-- internal/management/jobs.go and provisional.go: the job records, and the capture of logs and
-- samples while a job runs.
-- The database may refuse any statement: `Faults` says which. Captures are shared objects: the
-- `captures` map and the goroutine of a capture point to one `captureState`, so they stand in a
-- heap, and the map holds their addresses. `time.Now()` and what a runner's diagnostics return are
-- arguments. Logging is left out; the mutexes make each method one step.
pub mod Readers
pub mod Capture
pub mod Restart
pub mod Records
use elastic_fruit_runner.Base.{
  ℕ, zero, suc, ◌-◌, Bool, true, false, ◌||◌, String, Option, none, some, List, [], ◌∷◌, ◌++◌, ltb,
  leb, eqb, not, ◌==◌, if◌then◌else◌, length, drop, Map, lookup, insert, delete,
}
use elastic_fruit_runner.Messages.{JobStarted, JobCompleted}
use elastic_fruit_runner.Storage.Jobs.{
  Bytes, Job, Database, ResourceSample, UpsertStartedJobParams, get_job, upsert_started_job,
  update_job_completed, insert_completed_job, insert_job_log, insert_job_resource_sample,
  rename_running_job, move_job_logs, move_job_resource_samples, close_running_job_with_note,
  is_running,
}
use elastic_fruit_runner.Storage.Jobs.Queries.{job_logs_contain_text}

pub data Statement : Type 0 where
  upserts_started updates_completed counts_completed inserts_completed gets_job inserts_log
        inserts_sample begins renames counts_renamed moves_logs moves_samples commits closes
        searches_logs :
      Statement

-- The statements that the database refuses during a call.
abbrev pub Faults : Type 0
Faults = Statement → Bool

-- captureState, with the runner that its goroutine reads; `live` until its context is cancelled.
pub record CaptureState : Type 0 where
  pub job_id : String
  pub runner_name : String
  pub log_size : ℕ
  pub live : Bool

pub record JobStore : Type 0 where
  pub db : Database
  pub captures : Map ℕ
  pub heap : ℕ → Option CaptureState
  pub next_capture : ℕ

abbrev pub update : (ℕ → Option CaptureState) → ℕ → CaptureState → ℕ → Option CaptureState
update heap at state n = if eqb n at then some state else heap n

unfoldable pub nullable_time : ℕ → Option ℕ
nullable_time value = if eqb value 0 then none else some value

unfoldable pub is_known_result : String → Bool
is_known_result r = r == "succeeded" || r == "failed" || r == "canceled"

unfoldable pub start_capture : String → String → JobStore → JobStore
start_capture job_id runner_name s =
    let state : CaptureState = record {
      job_id = job_id;
      runner_name = runner_name;
      log_size = 0;
      live = true;
    } in
    record s {
      captures = insert job_id s.next_capture s.captures;
      heap = update s.heap s.next_capture state;
      next_capture = suc s.next_capture;
    }

abbrev pub max_log_bytes : ℕ
max_log_bytes = 1048576

-- `added[len(added)-1024*1024:]` when it is longer than that.
unfoldable pub last_bytes : Bytes → Bytes
last_bytes added =
    if ltb max_log_bytes (length added) then drop (length added - max_log_bytes) added else added

-- `text` is what `ReadLogs` returns, `none` an error.
unfoldable pub capture_text : Faults → ℕ → ℕ → CaptureState → Bytes → JobStore → JobStore
unfolding last_bytes
capture_text fails now at state text s =
    if leb (length text) state.log_size
    then s
    else let added = last_bytes (drop state.log_size text) in
      let grown : JobStore = record s {
        heap = update s.heap at (record state { log_size = length text });
      } in
      if fails inserts_log
      then grown
      else record grown { db = insert_job_log s.db state.job_id now added }

unfoldable pub capture_text_at :
    Faults → ℕ → ℕ → Option CaptureState → Option Bytes → JobStore → JobStore
unfolding capture_text
capture_text_at fails now at none text s = s
capture_text_at fails now at (some state) none s = s
capture_text_at fails now at (some state) (some text) s = capture_text fails now at state text s

unfoldable pub capture_logs : Faults → ℕ → ℕ → Option Bytes → JobStore → JobStore
unfolding capture_text_at
capture_logs fails now at text s = capture_text_at fails now at (s.heap at) text s

unfoldable pub capture_sample_at :
    Faults → Option CaptureState → Option ResourceSample → JobStore → JobStore
capture_sample_at fails none sample s = s
capture_sample_at fails (some state) none s = s
capture_sample_at fails (some state) (some sample) s =
    if fails inserts_sample
    then s
    else record s { db = insert_job_resource_sample s.db state.job_id sample }

unfoldable pub capture_resource : Faults → ℕ → Option ResourceSample → JobStore → JobStore
unfolding capture_sample_at
capture_resource fails at sample s = capture_sample_at fails (s.heap at) sample s

-- What the diagnostics return to the last two reads of a capture.
pub record FinalReads : Type 0 where
  pub text : Option Bytes
  pub sample : Option ResourceSample

unfoldable pub cancel : ℕ → Option CaptureState → JobStore → JobStore
cancel at none s = s
cancel at (some state) s = record s { heap = update s.heap at (record state { live = false }) }

-- The cancelled goroutine makes its last reads and ends; each read has five seconds, within the
-- six that `stopCapture` waits.
unfoldable pub stop_capture_at : Faults → ℕ → FinalReads → Option ℕ → JobStore → JobStore
unfolding cancel capture_logs capture_resource
stop_capture_at fails now reads none s = s
stop_capture_at fails now reads (some at) s =
    capture_resource fails at reads.sample
      (capture_logs fails now at reads.text (cancel at (s.heap at) s))

unfoldable pub stop_capture : Faults → ℕ → FinalReads → String → JobStore → JobStore
unfolding stop_capture_at
stop_capture fails now reads job_id s =
    stop_capture_at fails now reads (lookup job_id s.captures)
      (record s { captures = delete job_id s.captures })

-- `to_json` is `json.Marshal` of the labels.
module _ (to_json : List String → String) where
  unfoldable pub started_job_params : ℕ → String → String → JobStarted → UpsertStartedJobParams
  unfolding nullable_time
  started_job_params now set_name backend_name job = record {
    id = job.job_id;
    runner_name = job.runner_name;
    runner_set_name = set_name;
    started_at = now;
    owner = job.owner_name;
    repository = job.repository_name;
    workflow_ref = job.job_workflow_ref;
    display_name = job.job_display_name;
    workflow_run_id = job.workflow_run_id;
    event_name = job.event_name;
    labels_json = to_json job.request_labels;
    queued_at = nullable_time job.queue_time;
    scale_set_assigned_at = nullable_time job.scale_set_assign_time;
    runner_assigned_at = nullable_time job.runner_assign_time;
    backend = backend_name;
  }

  -- `diagnostics` tells whether the backend has diagnostics.
  unfoldable pub record_job_message_started :
      Faults → ℕ → String → String → Bool → JobStarted → JobStore → JobStore
  unfolding started_job_params start_capture
  record_job_message_started fails now set_name backend_name diagnostics job s =
      let s' : JobStore = record s {
        db = upsert_started_job s.db (started_job_params now set_name backend_name job);
      } in
      if fails upserts_started
      then s
      else if diagnostics
      then start_capture job.job_id job.runner_name s'
      else s'

-- The statements of `RecordJobMessageCompleted`, once the capture has stopped.
unfoldable pub complete_row : Faults → String → String → ℕ → Database → Database
complete_row fails job_id result at db =
    let (db', affected) = update_job_completed db result at job_id in
    if fails updates_completed
    then db
    else if fails counts_completed
    then db'
    else if eqb affected 0
    then (if fails inserts_completed then db' else insert_completed_job db' job_id result at at)
    else db'

abbrev pub completion_time : ℕ → JobCompleted → ℕ
completion_time now job = if eqb job.finish_time 0 then now else job.finish_time

unfoldable pub record_job_message_completed :
    Faults → ℕ → FinalReads → JobCompleted → JobStore → JobStore
unfolding is_known_result stop_capture complete_row
record_job_message_completed fails now reads job s =
    let stopped = stop_capture fails now reads job.job_id s in
    if is_known_result job.result
    then record stopped {
      db = complete_row fails job.job_id job.result (completion_time now job) stopped.db;
    }
    else s

-- The two methods that stand for the messages of a runner without the scale set API.
abbrev pub record_job_started :
    (List String → String) → Faults → ℕ → String → String → String → JobStore → JobStore
record_job_started to_json fails now set_name job_id runner_name =
    record_job_message_started to_json fails now set_name "" false record {
      job_id = job_id;
      runner_name = runner_name;
      owner_name = "";
      repository_name = "";
      job_workflow_ref = "";
      job_display_name = "";
      workflow_run_id = 0;
      event_name = "";
      request_labels = [];
      queue_time = 0;
      scale_set_assign_time = 0;
      runner_assign_time = 0;
    }

abbrev pub record_job_completed : Faults → ℕ → FinalReads → String → String → JobStore → JobStore
record_job_completed fails now reads job_id result =
    record_job_message_completed fails now reads
      record { job_id = job_id; runner_name = ""; result = result; finish_time = 0 }
