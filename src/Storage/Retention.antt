-- ===== src/Storage/Retention.antt =====
-- The statements that delete old history from the tables jobs, job_logs and job_resource_samples
-- (internal/storage/sqlc).
use elastic_fruit_runner.Base.{
  ℕ, ◌+◌, ◌*◌, Bool, false, ◌&&◌, ◌||◌, not, String, Option, none, some, List, [], ◌∷◌, ltb, ◌==◌,
  if◌then◌else◌, keep_if, length,
}
use elastic_fruit_runner.Storage.Jobs.{Bytes, Job, JobLog, Database, is_running}

-- COALESCE(completed_at, started_at)
unfoldable pub ended_at : Job → ℕ
ended_at row = elim row.completed_at [ none ↦ row.started_at | some at ↦ at ]

unfoldable pub is_expired_job : ℕ → Job → Bool
is_expired_job cutoff row = not (is_running row) && ltb (ended_at row) cutoff

-- job_id IN (SELECT id FROM jobs WHERE ...)
unfoldable pub belongs_to_expired : ℕ → String → List Job → Bool
belongs_to_expired cutoff id [] = false
belongs_to_expired cutoff id (row ∷ rows) =
    row.id == id && is_expired_job cutoff row || belongs_to_expired cutoff id rows

unfoldable pub delete_expired_job_logs : ℕ → Database → Database
delete_expired_job_logs cutoff db = record db {
  job_logs =
      keep_if (λ l. not (ltb l.recorded_at cutoff || belongs_to_expired cutoff l.job_id db.jobs))
        db.job_logs;
}

unfoldable pub delete_expired_job_resource_samples : ℕ → Database → Database
delete_expired_job_resource_samples cutoff db = record db {
  samples =
      keep_if
        (λ s. not (ltb s.sample.recorded_at cutoff || belongs_to_expired cutoff s.job_id db.jobs))
        db.samples;
}

unfoldable pub delete_expired_jobs : ℕ → Database → Database
delete_expired_jobs cutoff db = record db {
  jobs = keep_if (λ row. not (is_expired_job cutoff row)) db.jobs;
}

-- ORDER BY COALESCE(completed_at, started_at) LIMIT 1, among the jobs that do not run.
unfoldable pub oldest_completed : List Job → Option Job
oldest_completed [] = none
oldest_completed (row ∷ rows) =
    let rest = oldest_completed rows in
    if is_running row then rest else elim rest [
      | none ↦ some row
      | some other ↦ if ltb (ended_at other) (ended_at row) then some other else some row
    ]

-- SUM(LENGTH(text)): `characters` is SQLite's LENGTH of a text.
unfoldable pub log_characters : (Bytes → ℕ) → String → List JobLog → ℕ
log_characters characters id [] = 0
log_characters characters id (l ∷ logs) =
    let rest = log_characters characters id logs in
    if l.job_id == id then characters l.text + rest else rest

unfoldable pub estimated_bytes : (Bytes → ℕ) → Database → String → ℕ
estimated_bytes characters db id =
    4096
    + log_characters characters id db.job_logs
    + length (keep_if (λ s. s.job_id == id) db.samples) * 256

unfoldable pub get_oldest_completed_job_size : (Bytes → ℕ) → Database → Option (String × ℕ)
get_oldest_completed_job_size characters db = elim (oldest_completed db.jobs) [
  | none ↦ none
  | some row ↦ some (row.id, estimated_bytes characters db row.id)
]

unfoldable pub delete_job_logs : String → Database → Database
delete_job_logs id db = record db { job_logs = keep_if (λ l. not (l.job_id == id)) db.job_logs }

unfoldable pub delete_job_resource_samples : String → Database → Database
delete_job_resource_samples id db = record db {
  samples = keep_if (λ s. not (s.job_id == id)) db.samples;
}

unfoldable pub delete_completed_job : String → Database → Database
delete_completed_job id db = record db {
  jobs = keep_if (λ row. not (row.id == id && not (is_running row))) db.jobs;
}
