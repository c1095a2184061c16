-- ===== src/Management/Host/Running.antt =====
-- internal/management/host.go: which jobs the deletions of the retention take away.
use elastic_fruit_runner.Base.{
  ℕ, ◌-◌, ◌≤◌, ◌<◌, ◌≡◌, refl, Bool, true, false, ◌&&◌, ◌||◌, not, String, some, List, [], ◌∷◌,
  ◌==◌, eq_iff, arith, length, keep_if, Option-cases, inl, inr,
}
use elastic_fruit_runner.Storage.Jobs.{Job, Database, is_running}
use elastic_fruit_runner.Storage.Retention.{
  is_expired_job, delete_expired_jobs, delete_expired_job_resource_samples, delete_expired_job_logs,
  oldest_completed, delete_job_logs, delete_job_resource_samples, delete_completed_job,
}
use elastic_fruit_runner.Management.Host.{
  World, deletes_job, delete_oldest, HostStore, delete_expired, history_retention,
}

abbrev pub completed_jobs : List Job → ℕ
completed_jobs rows = length (keep_if (λ row. not (is_running row)) rows)

abbrev pub running_jobs : List Job → List Job
running_jobs rows = keep_if is_running rows

abbrev is_deleted : String → Job → Bool
is_deleted id row = row.id == id && not (is_running row)

abbrev has_deleted : String → List Job → Bool
has_deleted id [] = false
has_deleted id (row ∷ rows) = is_deleted id row || has_deleted id rows

-- Deleting rows that do not run keeps those that do, and adds none of the others.
keep_if-running :
    (doomed : Job → Bool) (rows : List Job)
    → ((row : Job) → doomed row ≡ true → is_running row ≡ false)
    → (running_jobs (keep_if (λ row. not (doomed row)) rows) ≡ running_jobs rows)
      × (completed_jobs (keep_if (λ row. not (doomed row)) rows) ≤ completed_jobs rows)
unfolding keep_if
keep_if-running doomed [] h = (refl, omega arith)
keep_if-running doomed (row ∷ rows) h =
    let rest = keep_if-running doomed rows h in
    (ground (arith, rest.0, h row), ground (arith, rest.1, h row))

deleted_count :
    (id : String) (rows : List Job)
    → has_deleted id rows ≡ true
    → completed_jobs (keep_if (λ row. not (is_deleted id row)) rows) < completed_jobs rows
unfolding keep_if
deleted_count id [] h = ground (arith, h)
deleted_count id (row ∷ rows) h =
    let rest = keep_if-running (is_deleted id) rows (λ r e. ground (arith, e)) in
    ground (arith, h, deleted_count id rows, rest.1)

oldest_completed-has_deleted :
    (rows : List Job) (row : Job)
    → oldest_completed rows ≡ some row
    → has_deleted row.id rows ≡ true
unfolding oldest_completed
oldest_completed-has_deleted [] row h = ground (arith, h)
oldest_completed-has_deleted (r ∷ rows) row h = elim (Option-cases (oldest_completed rows)) [
  | inl nothing ↦ ground (arith, h, nothing, eq_iff row.id row.id)
  | inr (other, found) ↦
      ground (arith, h, found, eq_iff row.id row.id, oldest_completed-has_deleted rows other found)
]

-- The three deletions, whichever of them fail.
pub delete_oldest-running :
    (w : World) (n k : ℕ) (id : String) (db : Database)
    → (running_jobs (delete_oldest w n k id db).jobs ≡ running_jobs db.jobs)
      × (completed_jobs (delete_oldest w n k id db).jobs ≤ completed_jobs db.jobs)
unfolding delete_oldest delete_completed_job delete_job_resource_samples delete_job_logs
delete_oldest-running w n k id db =
    let rows = keep_if-running (is_deleted id) db.jobs (λ r e. ground (arith, e)) in
    (ground (arith, rows.0), ground (arith, rows.1))

pub delete_oldest-completed :
    (w : World) (n k : ℕ) (row : Job) (db : Database)
    → w.fails deletes_job n k ≡ false
    → oldest_completed db.jobs ≡ some row
    → completed_jobs (delete_oldest w n k row.id db).jobs < completed_jobs db.jobs
unfolding delete_oldest delete_completed_job delete_job_resource_samples delete_job_logs
delete_oldest-completed w n k row db works oldest =
    let less = deleted_count row.id db.jobs (oldest_completed-has_deleted db.jobs row oldest) in
    ground (arith, works, less)

pub delete_expired-running :
    (w : World) (now : ℕ) (s : HostStore)
    → (running_jobs (delete_expired w now s).db.jobs ≡ running_jobs s.db.jobs)
      × (completed_jobs (delete_expired w now s).db.jobs ≤ completed_jobs s.db.jobs)
unfolding delete_expired delete_expired_jobs delete_expired_job_resource_samples
    delete_expired_job_logs is_expired_job
delete_expired-running w now s =
    let rows =
      keep_if-running (is_expired_job (now - history_retention)) s.db.jobs
        (λ r e. ground (arith, e)) in
    (ground (arith, rows.0), ground (arith, rows.1))
