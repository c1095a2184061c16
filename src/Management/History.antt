-- ===== src/Management/History.antt =====
-- internal/management/jobs.go: the queries of the job history (List, Snapshot, Get, Logs, Samples).
-- A query that the database refuses is `none` in place of its rows.
pub mod Pages
use elastic_fruit_runner.Base.{
  ℕ, zero, suc, ◌+◌, ◌-◌, Bool, true, false, ◌&&◌, ◌||◌, not, String, append_text, Option, none,
  some, List, [], ◌∷◌, map, ltb, leb, eqb, ◌==◌, if◌then◌else◌, length, take, drop, keep_if, min, ℤ,
  pos, negsuc, at_least_zero,
}
use elastic_fruit_runner.Storage.Jobs.{Bytes, Job, JobLog, Database, ResourceSample, get_job}
use elastic_fruit_runner.Storage.Jobs.Queries.{
  list_jobs_newest_first, list_job_logs_after_sequence, list_job_resource_samples,
}

pub record JobRecord : Type 0 where
  pub id : String
  pub runner_name : String
  pub runner_set_name : String
  pub result : String
  pub started_at : ℕ
  pub completed_at : Option ℕ
  pub owner : String
  pub repository : String
  pub workflow_ref : String
  pub display_name : String
  pub workflow_run_id : ℕ
  pub event_name : String
  pub labels : List String
  pub queued_at : Option ℕ
  pub scale_set_assigned_at : Option ℕ
  pub runner_assigned_at : Option ℕ
  pub backend : String

pub record JobFilter : Type 0 where
  pub status : String
  pub runner_set : String
  pub repository : String
  pub workflow : String
  pub from : Option ℕ
  pub to : Option ℕ
  pub cursor : ℤ
  pub page_size : ℤ

-- `next_cursor` is the number that the text of the cursor writes, `none` the empty text.
pub record JobPage : Type 0 where
  pub records : List JobRecord
  pub next_cursor : Option ℕ

-- What the code takes from Go's packages `encoding/json` and `strings`.
pub record Library : Type 0 where
  pub from_json : String → List String
  pub equal_fold : String → String → Bool
  pub to_lower : String → String
  pub contains_text : String → String → Bool

abbrev pub empty_page : JobPage
empty_page = record { records = []; next_cursor = none }

abbrev is_before : Option ℕ → ℕ → Bool
is_before none t = false
is_before (some from) t = ltb t from

abbrev is_after : Option ℕ → ℕ → Bool
is_after none t = false
is_after (some to) t = ltb to t

abbrev pub page_size_or : ℕ → ℕ → ℤ → ℕ
page_size_or limit standard (negsuc n) = standard
page_size_or limit standard (pos n) = if eqb n 0 || ltb limit n then standard else n

-- The page that starts at `start`.
unfoldable pub page_at : ℕ → ℕ → List JobRecord → JobPage
page_at start size records =
    let end = min (start + size) (length records) in
    if leb (length records) start then empty_page else record {
      records = take (end - start) (drop start records);
      next_cursor = if ltb end (length records) then some end else none;
    }

module _ (lib : Library) where
  unfoldable pub job_record_from_row : Job → JobRecord
  job_record_from_row row = record {
    id = row.id;
    runner_name = row.runner_name;
    runner_set_name = row.runner_set_name;
    result = row.result;
    started_at = row.started_at;
    completed_at = row.completed_at;
    owner = row.owner;
    repository = row.repository;
    workflow_ref = row.workflow_ref;
    display_name = row.display_name;
    workflow_run_id = row.workflow_run_id;
    event_name = row.event_name;
    labels = lib.from_json row.labels_json;
    queued_at = row.queued_at;
    scale_set_assigned_at = row.scale_set_assigned_at;
    runner_assigned_at = row.runner_assigned_at;
    backend = row.backend;
  }

  abbrev contains_fold : String → String → Bool
  contains_fold text part = lib.contains_text (lib.to_lower text) (lib.to_lower part)

  unfoldable pub matches_job : JobRecord → JobFilter → Bool
  matches_job r f =
      (f.status == "" || lib.equal_fold r.result f.status)
      && (f.runner_set == "" || r.runner_set_name == f.runner_set)
      && (f.repository == ""
          || contains_fold (append_text r.owner (append_text "/" r.repository)) f.repository)
      && (f.workflow == "" || contains_fold r.workflow_ref f.workflow)
      && not (is_before f.from r.started_at)
      && not (is_after f.to r.started_at)

  -- The records that the filter lets through, the latest start first.
  unfoldable pub matching : Database → JobFilter → List JobRecord
  unfolding matches_job job_record_from_row
  matching db f =
      keep_if (λ r. matches_job r f) (map job_record_from_row (list_jobs_newest_first db))

  unfoldable pub list_jobs : Bool → Database → JobFilter → JobPage
  unfolding page_at
  list_jobs refused db f =
      let page =
        page_at (at_least_zero f.cursor) (page_size_or 200 50 f.page_size) (matching db f) in
      if refused then empty_page else page

  abbrev pub all_jobs : JobFilter
  all_jobs = record {
    status = "";
    runner_set = "";
    repository = "";
    workflow = "";
    from = none;
    to = none;
    cursor = pos 0;
    page_size = pos 200;
  }

  unfoldable pub job_snapshot : Bool → Database → List JobRecord
  unfolding list_jobs
  job_snapshot refused db = (list_jobs refused db all_jobs).records

  unfoldable pub get_job_record : Database → String → Option JobRecord
  unfolding job_record_from_row
  get_job_record db id = elim (get_job db id) [
    | none ↦ none
    | some row ↦ some (job_record_from_row row)
  ]

-- The sequence of the last row, or the one asked for.
unfoldable pub last_sequence : ℕ → List JobLog → ℕ
last_sequence after [] = after
last_sequence after (l ∷ ls) = last_sequence l.sequence ls

unfoldable pub job_logs_page : Bool → Database → String → ℕ → ℤ → List JobLog × ℕ
unfolding last_sequence
job_logs_page refused db id after page_size =
    let rows = list_job_logs_after_sequence db id after (page_size_or 500 200 page_size) in
    if refused then ([], after) else (rows, last_sequence after rows)

unfoldable pub job_samples : Bool → Database → String → List ResourceSample
job_samples refused db id = if refused then [] else list_job_resource_samples db id
