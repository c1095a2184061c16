-- ===== src/Storage/Jobs/Queries.antt =====
-- queries.sql.go: the queries of the history, on the tables of jobs, logs and samples.
use elastic_fruit_runner.Base.{
  ℕ, Bool, true, false, ◌&&◌, ◌||◌, String, List, [], ◌∷◌, map, ltb, ◌==◌, if◌then◌else◌, take,
  keep_if, eqb,
}
use elastic_fruit_runner.Storage.Jobs.{Bytes, Job, JobLog, ResourceSample, Database}

-- ORDER BY started_at DESC: rows that started at the same time stay in the table's order.
unfoldable pub insert_newest : Job → List Job → List Job
insert_newest row [] = row ∷ []
insert_newest row (r ∷ rs) =
    let rest = insert_newest row rs in
    if ltb row.started_at r.started_at then r ∷ rest else row ∷ r ∷ rs

unfoldable pub newest_first : List Job → List Job
unfolding insert_newest
newest_first [] = []
newest_first (row ∷ rows) = insert_newest row (newest_first rows)

unfoldable pub list_jobs_newest_first : Database → List Job
unfolding newest_first
list_jobs_newest_first db = take 2000 (newest_first db.jobs)

abbrev pub is_log_after : String → ℕ → JobLog → Bool
is_log_after job_id after l = l.job_id == job_id && ltb after l.sequence

unfoldable pub list_job_logs_after_sequence : Database → String → ℕ → ℕ → List JobLog
list_job_logs_after_sequence db job_id after limit =
    take limit (keep_if (is_log_after job_id after) db.job_logs)

-- ORDER BY recorded_at.
unfoldable pub insert_oldest : ResourceSample → List ResourceSample → List ResourceSample
insert_oldest s [] = s ∷ []
insert_oldest s (r ∷ rs) =
    let rest = insert_oldest s rs in
    if ltb r.recorded_at s.recorded_at then r ∷ rest else s ∷ r ∷ rs

unfoldable pub oldest_first : List ResourceSample → List ResourceSample
unfolding insert_oldest
oldest_first [] = []
oldest_first (s ∷ ss) = insert_oldest s (oldest_first ss)

unfoldable pub list_job_resource_samples : Database → String → List ResourceSample
unfolding oldest_first
list_job_resource_samples db job_id =
    oldest_first (map (λ s. s.sample) (keep_if (λ s. s.job_id == job_id) db.samples))

-- Whether `marker` stands in a text, as SQLite's `instr(text, marker) > 0`.
unfoldable pub is_prefix : Bytes → Bytes → Bool
is_prefix [] text = true
is_prefix (c ∷ marker) [] = false
is_prefix (c ∷ marker) (b ∷ text) =
    let rest = is_prefix marker text in if eqb c b then rest else false

unfoldable pub instr : Bytes → Bytes → Bool
unfolding is_prefix
instr [] marker = is_prefix marker []
instr (b ∷ text) marker = is_prefix marker (b ∷ text) || instr text marker

unfoldable pub any_log_contains : String → Bytes → List JobLog → Bool
unfolding instr
any_log_contains job_id marker [] = false
any_log_contains job_id marker (l ∷ ls) =
    (l.job_id == job_id && instr l.text marker) || any_log_contains job_id marker ls

unfoldable pub job_logs_contain_text : Database → String → Bytes → Bool
unfolding any_log_contains
job_logs_contain_text db job_id marker = any_log_contains job_id marker db.job_logs
