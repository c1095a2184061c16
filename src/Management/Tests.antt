-- ===== src/Management/Tests.antt =====
-- The theorems about the job records at a store with a running job and a provisional one.
use elastic_fruit_runner.Base.{
  zero, suc, ◌≡◌, ◌≢◌, refl, true, false, String, none, some, List, [], ◌∷◌, ◌++◌, arith, ◌==◌,
  lookup, pos, take,
}
use elastic_fruit_runner.Messages.{JobStarted, JobCompleted}
use elastic_fruit_runner.Storage.Jobs.{
  Job, find_job, get_job, started_row, is_running, rename_running_job,
}
use elastic_fruit_runner.Storage.Jobs.Rows.{IsKeyed}
use elastic_fruit_runner.Storage.Jobs.Completion.{completed_row}
use elastic_fruit_runner.Management.JobStore.{
  inserts_log, moves_samples, Faults, CaptureState, JobStore, FinalReads, started_job_params,
  is_known_result, record_job_message_started, record_job_message_completed, capture_logs,
}
use elastic_fruit_runner.Management.JobStore.Capture.{
  stored_text, read_chunks, read_chunks_stores, refused_chunk_lost,
}
use elastic_fruit_runner.Management.JobStore.Records.{completed_rows, restart_leaks_capture}
use elastic_fruit_runner.Management.Provisional.{
  attach_job_metadata, attach_to, merge_job, move_job, move_in_tx, move_details,
}
use elastic_fruit_runner.Storage.Transactions.{in_tx, affects_in_tx, commit}
use elastic_fruit_runner.Storage.Jobs.Queries.{newest_first}
use elastic_fruit_runner.Management.JobStore.Readers.{
  docker_reader, tart_reader, line_count, last_lines, read_logs,
}
use elastic_fruit_runner.Management.Provisional.Attach.{
  IsMoved, attached_params, attach_unchanged, attach_moves,
}
use elastic_fruit_runner.Management.History.{JobFilter, Library, all_jobs, list_jobs}
use elastic_fruit_runner.Management.History.Pages.{follow, records_of, follow-list_jobs}

abbrev to_json : List String → String
to_json labels = "[]"

abbrev no_faults : Faults
no_faults statement = false

abbrev log_refused : Faults
log_refused inserts_log = true
log_refused statement = false

abbrev message : String → JobStarted
message id = record {
  job_id = id;
  runner_name = "mac-a";
  owner_name = "o";
  repository_name = "r";
  job_workflow_ref = "w";
  job_display_name = "";
  workflow_run_id = 5;
  event_name = "push";
  request_labels = "arm64" ∷ [];
  queue_time = 10;
  scale_set_assign_time = 20;
  runner_assign_time = 0;
}

abbrev done : JobCompleted
done = record { job_id = "j1"; runner_name = "mac-a"; result = "succeeded"; finish_time = 0 }

abbrev row : String → Job
row id = started_row (started_job_params to_json 50 "mac" "tart" (message id))

-- The capture of the provisional job runs, and has stored three bytes.
abbrev capture : CaptureState
capture = record { job_id = "p1"; runner_name = "mac-a"; log_size = 3; live = true }

abbrev store : JobStore
store = record {
  db = record {
    jobs = row "p1" ∷ row "j0" ∷ [];
    job_logs = record { sequence = 1; job_id = "p1"; recorded_at = 60; text = 7 ∷ 8 ∷ 9 ∷ [] } ∷ [];
    next_sequence = 2;
    samples = [];
  };
  captures = ("p1", 0) ∷ [];
  heap = λ at. elim at [ zero ↦ some capture | suc n ↦ none ];
  next_capture = 1;
}

abbrev reads : FinalReads
reads = record { text = some (1 ∷ []); sample = none }

program : Unit {0}
unfolding started_row started_job_params find_job get_job attach_job_metadata merge_job move_job
    move_in_tx move_details in_tx affects_in_tx commit attach_to line_count last_lines read_logs
    lookup
program = tt

store-IsKeyed : IsKeyed store.db.jobs
unfolding program
store-IsKeyed = (refl, (refl, tt))

completed_rows_example :
    get_job (record_job_message_completed no_faults 99 reads done store).db "j1"
    ≡ some (completed_row "j1" "succeeded" 99 none)
unfolding program is_known_result
completed_rows_example =
    completed_rows no_faults 99 reads done store "j1" store-IsKeyed refl refl refl

restart_leaks_capture_example :
    let twice =
      record_job_message_started to_json no_faults 80 "mac" "tart" true
        (message "j1")
        (record_job_message_started to_json no_faults 70 "mac" "tart" true (message "j1") store) in
    let s' = record_job_message_completed no_faults 99 reads done twice in
    (s'.heap 1 ≡ some (record { job_id = "j1"; runner_name = "mac-a"; log_size = 0; live = true }))
    × ((j : String) → lookup j s'.captures ≢ some 1)
unfolding lookup is_known_result
restart_leaks_capture_example =
    restart_leaks_capture to_json no_faults 70 80 99 "mac" "tart" (message "j1") reads done store
      (λ id at h. ground arith) refl refl refl

read_chunks_stores_example :
    stored_text "p1"
      (read_chunks tart_reader no_faults
        (λ n. n)
        0
        (7 ∷ 8 ∷ 9 ∷ [])
        ((1 ∷ []) ∷ (10 ∷ 3 ∷ []) ∷ [])
        store).db.job_logs
    ≡ stored_text "p1" store.db.job_logs ++ (1 ∷ 10 ∷ 3 ∷ [])
unfolding program
read_chunks_stores_example =
    read_chunks_stores tart_reader no_faults (λ n. n) 0 (7 ∷ 8 ∷ 9 ∷ [])
      ((1 ∷ []) ∷ (10 ∷ 3 ∷ []) ∷ []) capture store (omega arith) refl refl refl
      (omega arith, (omega arith, tt))

refused_chunk_lost_example :
    let s' = capture_logs log_refused 99 0 (some (7 ∷ 8 ∷ 9 ∷ 4 ∷ [])) store in
    stored_text "p1"
      (read_chunks docker_reader no_faults
        (λ n. n)
        0
        (7 ∷ 8 ∷ 9 ∷ 4 ∷ [])
        ((5 ∷ []) ∷ [])
        s').db.job_logs
    ≡ stored_text "p1" store.db.job_logs ++ (5 ∷ [])
unfolding program
refused_chunk_lost_example =
    refused_chunk_lost docker_reader log_refused no_faults 99 (λ n. n) 0 (7 ∷ 8 ∷ 9 ∷ []) (4 ∷ [])
      ((5 ∷ []) ∷ []) capture store tt refl refl refl refl (omega arith, tt)

-- The last two lines of a log of three.
two_lines : last_lines 2 (65 ∷ 10 ∷ 66 ∷ 10 ∷ 67 ∷ []) ≡ 66 ∷ 10 ∷ 67 ∷ []
unfolding program
two_lines = refl

-- The database refuses the samples' statement: what the transaction has done by then is dropped.
abbrev samples_refused : Faults
samples_refused moves_samples = true
samples_refused statement = false

attach_unchanged_example :
    (attach_job_metadata to_json samples_refused 90 "p1" "mac" "tart" true (message "j1") store).0
    ≡ store
unfolding program rename_running_job
attach_unchanged_example =
    attach_unchanged to_json samples_refused 90 "p1" "mac" "tart" true (message "j1") store refl

attach_moves_example :
    (found : Job) × (get_job store.db "p1" ≡ some found)
    × (is_running found ≡ true)
    × IsMoved store.db
        (attach_job_metadata to_json no_faults 90 "p1" "mac" "tart" true (message "j1") store).0.db
        "p1"
        found
        (attached_params to_json no_faults 90 "p1" "mac" "tart" true (message "j1") store found)
unfolding program rename_running_job
attach_moves_example =
    attach_moves to_json no_faults 90 "p1" "mac" "tart" true (message "j1") store store-IsKeyed refl

abbrev lib : Library
lib = record {
  from_json = λ text. [];
  equal_fold = λ a b. a == b;
  to_lower = λ text. text;
  contains_text = λ text part. text == part;
}

abbrev one_a_page : JobFilter
one_a_page = record (all_jobs lib) { page_size = pos 1 }

follow-list_jobs_example :
    follow (λ c. list_jobs lib false store.db (record one_a_page { cursor = pos c })) 2001 0
    ≡ records_of lib one_a_page (take 2000 (newest_first store.db.jobs))
follow-list_jobs_example = follow-list_jobs lib store.db one_a_page
