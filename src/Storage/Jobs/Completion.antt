-- ===== src/Storage/Jobs/Completion.antt =====
-- queries.sql, UpdateJobCompleted and InsertCompletedJob: the row that a completion leaves.
use elastic_fruit_runner.Base.{
  ℕ, ◌≡◌, refl, Bool, true, String, Option, none, some, List, [], ◌∷◌, ◌++◌, arith, eq_iff, ◌==◌,
  if◌then◌else◌, is_some, eqb,
}
use elastic_fruit_runner.Storage.Jobs.{
  Job, Database, find_job, get_job, update_where, update_job_completed, insert_completed_job,
}
use elastic_fruit_runner.Storage.Jobs.Rows.{IsKeyed, update_where_count, find_job-update_where}

-- The row of a job that completes without a start.
abbrev pub appended_row : String → String → ℕ → ℕ → Job
appended_row id result started_at completed_at = record {
  id = id;
  runner_name = "";
  runner_set_name = "";
  result = result;
  started_at = started_at;
  completed_at = some completed_at;
  owner = "";
  repository = "";
  workflow_ref = "";
  display_name = "";
  workflow_run_id = 0;
  event_name = "";
  labels_json = "[]";
  queued_at = none;
  scale_set_assigned_at = none;
  runner_assigned_at = none;
  backend = "";
}

-- The row of a completed job, given the row that stood under its id.
abbrev pub completed_row : String → String → ℕ → Option Job → Job
completed_row id result at none = appended_row id result at at
completed_row id result at (some row) = record row { result = result; completed_at = some at }

pub find_job-append :
    (j : String) (rows : List Job) (row : Job)
    → find_job j (rows ++ (row ∷ [])) ≡ (
        if is_some (find_job j rows)
        then find_job j rows
        else if row.id == j
        then some row
        else none)
unfolding find_job
find_job-append j [] row = refl
find_job-append j (r ∷ rows) row = ground (arith, find_job-append j rows row)

-- UpdateJobCompleted, then InsertCompletedJob if no row was updated.
pub complete_rows :
    (db : Database) (j id result : String) (at : ℕ)
    → IsKeyed db.jobs
    → let (db', affected) = update_job_completed db result at id in
      get_job (if eqb affected 0 then insert_completed_job db' id result at at else db') j
      ≡ (if id == j then some (completed_row id result at (get_job db id)) else get_job db j)
unfolding update_job_completed insert_completed_job get_job
complete_rows db j id result at k =
    let f : Job → Job = λ row. record row { result = result; completed_at = some at } in
    let p : Job → Bool = λ row. true in
    ground (
      arith,
      update_where_count p f id db.jobs k,
      find_job-update_where p f id j db.jobs k (λ (row : Job). refl),
      find_job-update_where p f id id db.jobs k (λ (row : Job). refl),
      find_job-append j (update_where p f id db.jobs).0 (appended_row id result at at),
      eq_iff id j,
      eq_iff id id,
    )
