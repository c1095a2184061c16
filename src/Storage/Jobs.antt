-- ===== src/Storage/Jobs.antt =====
-- The tables jobs, job_logs and job_resource_samples (internal/storage/sqlc/models.go and the
-- migrations), and the statements on them (queries.sql.go, which holds the SQL text).
-- A statement is a function on the tables; that a statement can fail is in the callers. A time is
-- in nanoseconds from Go's zero time, a text of a log is its bytes, and `cpu_percent` stands for the
-- bits of the float, which the code only copies.
pub mod Rows
pub mod Completion
pub mod Keys
pub mod Queries
use elastic_fruit_runner.Base.{
  ℕ, zero, suc, ◌+◌, Bool, true, false, ◌&&◌, ◌||◌, String, Option, none, some, List, [], ◌∷◌, ◌++◌,
  map, ltb, ◌==◌, if◌then◌else◌, take, keep_if, not, is_some, eqb,
}

abbrev pub Bytes : Type 0
Bytes = List ℕ

pub record Job : Type 0 where
  pub id : String
  pub runner_name : String
  pub runner_set_name : String
  pub result : String
  pub started_at : ℕ
  pub completed_at : Option ℕ
  pub owner : String
  pub repository : String
  pub workflow_ref : String
  pub display_name : String
  pub workflow_run_id : ℕ
  pub event_name : String
  pub labels_json : String
  pub queued_at : Option ℕ
  pub scale_set_assigned_at : Option ℕ
  pub runner_assigned_at : Option ℕ
  pub backend : String

pub record JobLog : Type 0 where
  pub sequence : ℕ
  pub job_id : String
  pub recorded_at : ℕ
  pub text : Bytes

pub record ResourceSample : Type 0 where
  pub recorded_at : ℕ
  pub source : String
  pub accuracy : String
  pub cpu_percent : ℕ
  pub memory_used_bytes : ℕ
  pub memory_available_bytes : ℕ
  pub disk_used_bytes : ℕ
  pub disk_available_bytes : ℕ
  pub disk_read_bytes : ℕ
  pub disk_write_bytes : ℕ
  pub network_receive_bytes : ℕ
  pub network_send_bytes : ℕ

pub record JobResourceSample : Type 0 where
  pub job_id : String
  pub sample : ResourceSample

-- The rows of job_logs stand in the order of their key `sequence`, which the database counts up.
pub record Database : Type 0 where
  pub jobs : List Job
  pub job_logs : List JobLog
  pub next_sequence : ℕ
  pub samples : List JobResourceSample

pub record UpsertStartedJobParams : Type 0 where
  pub id : String
  pub runner_name : String
  pub runner_set_name : String
  pub started_at : ℕ
  pub owner : String
  pub repository : String
  pub workflow_ref : String
  pub display_name : String
  pub workflow_run_id : ℕ
  pub event_name : String
  pub labels_json : String
  pub queued_at : Option ℕ
  pub scale_set_assigned_at : Option ℕ
  pub runner_assigned_at : Option ℕ
  pub backend : String

abbrev pub running : String
running = "running"

abbrev pub is_running : Job → Bool
is_running row = row.result == running

-- SELECT * FROM jobs WHERE id = ?
unfoldable pub find_job : String → List Job → Option Job
find_job id [] = none
find_job id (row ∷ rows) = if row.id == id then some row else find_job id rows

unfoldable pub get_job : Database → String → Option Job
unfolding find_job
get_job db id = find_job id db.jobs

-- The row that the statement inserts.
unfoldable pub started_row : UpsertStartedJobParams → Job
started_row p = record {
  id = p.id;
  runner_name = p.runner_name;
  runner_set_name = p.runner_set_name;
  result = running;
  started_at = p.started_at;
  completed_at = none;
  owner = p.owner;
  repository = p.repository;
  workflow_ref = p.workflow_ref;
  display_name = p.display_name;
  workflow_run_id = p.workflow_run_id;
  event_name = p.event_name;
  labels_json = p.labels_json;
  queued_at = p.queued_at;
  scale_set_assigned_at = p.scale_set_assigned_at;
  runner_assigned_at = p.runner_assigned_at;
  backend = p.backend;
}

-- `ON CONFLICT(id) DO UPDATE SET`: the times `started_at` and `completed_at` stay.
unfoldable pub restarted_row : UpsertStartedJobParams → Job → Job
unfolding started_row
restarted_row p row = record (started_row p) {
  id = row.id;
  started_at = row.started_at;
  completed_at = row.completed_at;
}

unfoldable pub upsert_row : UpsertStartedJobParams → List Job → List Job
unfolding started_row restarted_row
upsert_row p [] = started_row p ∷ []
upsert_row p (row ∷ rows) =
    let rest = upsert_row p rows in
    if row.id == p.id then restarted_row p row ∷ rows else row ∷ rest

unfoldable pub upsert_started_job : Database → UpsertStartedJobParams → Database
unfolding upsert_row
upsert_started_job db p = record db { jobs = upsert_row p db.jobs }

-- UPDATE jobs SET … WHERE id = ? AND p: the rows after it, and how many were updated. The key is
-- unique, so one row at most.
unfoldable pub update_where : (Job → Bool) → (Job → Job) → String → List Job → List Job × ℕ
update_where p f id [] = ([], 0)
update_where p f id (row ∷ rows) =
    let rest = update_where p f id rows in
    if row.id == id && p row then (f row ∷ rest.0, suc rest.1) else (row ∷ rest.0, rest.1)

unfoldable pub update_job_completed : Database → String → ℕ → String → Database × ℕ
unfolding update_where
update_job_completed db result completed_at id =
    let (rows, affected) =
      update_where (λ row. true)
        (λ row. record row { result = result; completed_at = some completed_at }) id db.jobs in
    (record db { jobs = rows }, affected)

-- INSERT OR IGNORE: the columns that it does not name get the defaults of the table.
unfoldable pub insert_completed_job : Database → String → String → ℕ → ℕ → Database
unfolding find_job
insert_completed_job db id result started_at completed_at = elim (find_job id db.jobs) [
  | some row ↦ db
  | none ↦
      let row : Job = record {
        id = id;
        runner_name = "";
        runner_set_name = "";
        result = result;
        started_at = started_at;
        completed_at = some completed_at;
        owner = "";
        repository = "";
        workflow_ref = "";
        display_name = "";
        workflow_run_id = 0;
        event_name = "";
        labels_json = "[]";
        queued_at = none;
        scale_set_assigned_at = none;
        runner_assigned_at = none;
        backend = "";
      } in
      record db { jobs = db.jobs ++ (row ∷ []) }
]

unfoldable pub close_running_job_with_note : Database → String → ℕ → String → String → Database
unfolding update_where
close_running_job_with_note db result completed_at note id = record db {
  jobs =
      (update_where is_running
        (λ row. record row {
          result = result;
          completed_at = some completed_at;
          display_name = note;
        })
        id db.jobs).0;
}

-- Whether the primary key allows the new id, for the number of rows that the update matches.
unfoldable pub rename_allowed : String → String → ℕ → List Job → Bool
unfolding find_job
rename_allowed new_id old_id zero rows = true
rename_allowed new_id old_id (suc n) rows = new_id == old_id || not (is_some (find_job new_id rows))

-- `none` when the new id is another row's: the primary key refuses it.
unfoldable pub rename_running_job : Database → String → String → Option (Database × ℕ)
unfolding update_where rename_allowed
rename_running_job db new_id old_id =
    let changed = update_where is_running (λ row. record row { id = new_id }) old_id db.jobs in
    if rename_allowed new_id old_id changed.1 db.jobs
    then some (record db { jobs = changed.0 }, changed.1)
    else none

unfoldable pub move_job_logs : Database → String → String → Database
move_job_logs db new_id old_id = record db {
  job_logs = map (λ l. if l.job_id == old_id then record l { job_id = new_id } else l) db.job_logs;
}

unfoldable pub move_job_resource_samples : Database → String → String → Database
move_job_resource_samples db new_id old_id = record db {
  samples = map (λ s. if s.job_id == old_id then record s { job_id = new_id } else s) db.samples;
}

unfoldable pub insert_job_log : Database → String → ℕ → Bytes → Database
insert_job_log db job_id recorded_at text =
    let row : JobLog = record {
      sequence = db.next_sequence;
      job_id = job_id;
      recorded_at = recorded_at;
      text = text;
    } in
    record db { job_logs = db.job_logs ++ (row ∷ []); next_sequence = suc db.next_sequence }

unfoldable pub insert_job_resource_sample : Database → String → ResourceSample → Database
insert_job_resource_sample db job_id sample = record db {
  samples = db.samples ++ (record { job_id = job_id; sample = sample } ∷ []);
}
