-- ===== src/Management/Provisional/Attach.antt =====
-- provisional.go, AttachJobMetadata: a provisional record moves to its job, or nothing happens.
use elastic_fruit_runner.Base.{
  ℕ, ◌≡◌, refl, ap, Bool, true, false, String, Option, none, some, List, lookup, map, arith, eq_iff,
  ◌==◌, if◌then◌else◌, Option-cases, Bool-cases, inl, inr,
}
use elastic_fruit_runner.Messages.{JobStarted}
use elastic_fruit_runner.Storage.Jobs.{
  Job, JobLog, JobResourceSample, restarted_row, Database, UpsertStartedJobParams, get_job,
  is_running, rename_running_job, upsert_started_job, move_job_logs, move_job_resource_samples,
}
use elastic_fruit_runner.Storage.Jobs.Rows.{
  IsKeyed, upsert_row-IsKeyed, rename_running_job_lem, find_job-upsert_row, renamed,
}
use elastic_fruit_runner.Storage.Jobs.Keys.{rename-IsKeyed}
use elastic_fruit_runner.Storage.Transactions.{in_tx, affects_in_tx, commit}
use elastic_fruit_runner.Management.JobStore.{Faults, JobStore, start_capture, started_job_params}
use elastic_fruit_runner.Management.Provisional.{
  attach_job_metadata, attach_to, attach_capture, move_job, move_in_tx, move_details,
  first_non_empty, merge_job,
}

-- The id of the logs and samples of the old id.
abbrev pub moved_log : String → String → JobLog → JobLog
moved_log new_id old_id l = if l.job_id == old_id then record l { job_id = new_id } else l

abbrev pub moved_sample : String → String → JobResourceSample → JobResourceSample
moved_sample new_id old_id x = if x.job_id == old_id then record x { job_id = new_id } else x

-- The tables after a successful move of the row: it stands under its new id with the details of
-- the job and the time at which it was opened, and its logs and samples went with it.
pub record IsMoved (db db' : Database) (old_id : String) (row : Job) (p : UpsertStartedJobParams)
    : Type 0 where
  pub rows :
      (j : String)
      → get_job db' j ≡ (
          if p.id == j
          then some (restarted_row p (renamed p.id row))
          else if old_id == j
          then none
          else get_job db j)
  pub logs : db'.job_logs ≡ map (moved_log p.id old_id) db.job_logs
  pub samples : db'.samples ≡ map (moved_sample p.id old_id) db.samples
  pub keyed : IsKeyed db'.jobs

rename_moves :
    (db : Database) (old_id : String) (row : Job) (p : UpsertStartedJobParams) (changed : Database)
    (affected : ℕ)
    → IsKeyed db.jobs
    → get_job db old_id ≡ some row
    → is_running row ≡ true
    → rename_running_job db p.id old_id ≡ some (changed, affected)
    → IsMoved db
        (move_job_resource_samples
          (move_job_logs (upsert_started_job changed p) p.id old_id)
          p.id
          old_id)
        old_id
        row
        p
unfolding get_job move_job_logs move_job_resource_samples upsert_started_job
rename_moves db old_id row p changed affected k h runs e =
    let (rows_lem, same, free) =
      rename_running_job_lem db p.id old_id row changed affected k h runs e in
    record {
      rows = λ j. ground (
        arith,
        find_job-upsert_row p j changed.jobs,
        rows_lem j,
        rows_lem p.id,
        eq_iff p.id p.id,
      );
      logs = ap (λ (d : Database). map (moved_log p.id old_id) d.job_logs) same;
      samples = ap (λ (d : Database). map (moved_sample p.id old_id) d.samples) same;
      keyed =
          upsert_row-IsKeyed p changed.jobs (rw same (rename-IsKeyed p.id old_id db.jobs k free));
    }

-- Whatever statement fails, and wherever the transaction stands then, a `moveJob` that returns an
-- error leaves the database as it was.
move_job_restores :
    (fails : Faults) (old_id : String) (p : UpsertStartedJobParams) (db : Database)
    → (move_job fails old_id p db).1 ≡ false
    → (move_job fails old_id p db).0 ≡ db
unfolding move_job move_in_tx move_details in_tx affects_in_tx commit
move_job_restores fails old_id p db h = elim (Option-cases (rename_running_job db p.id old_id)) [
  | inl refused ↦ ground arith
  | inr ((changed, affected), renames_to) ↦ ground arith
]

move_job_commits :
    (fails : Faults) (old_id : String) (p : UpsertStartedJobParams) (db : Database)
    → (move_job fails old_id p db).1 ≡ true
    → (changed : Database) × (affected : ℕ) × (rename_running_job db p.id old_id
        ≡ some (changed, affected))
      × ((move_job fails old_id p db).0
          ≡ move_job_resource_samples
              (move_job_logs (upsert_started_job changed p) p.id old_id)
              p.id
              old_id)
unfolding move_job move_in_tx move_details in_tx affects_in_tx commit
move_job_commits fails old_id p db h = elim (Option-cases (rename_running_job db p.id old_id)) [
  | inl refused ↦ absurd (ground arith)
  | inr ((changed, affected), renames_to) ↦ (changed, affected, renames_to, ground arith)
]

move_job_moves :
    (fails : Faults) (old_id : String) (row : Job) (p : UpsertStartedJobParams) (db : Database)
    → IsKeyed db.jobs
    → get_job db old_id ≡ some row
    → is_running row ≡ true
    → (move_job fails old_id p db).1 ≡ true
    → IsMoved db (move_job fails old_id p db).0 old_id row p
move_job_moves fails old_id row p db k h runs moved =
    let (changed, affected, renames_to, same) = move_job_commits fails old_id p db moved in
    rw same (rename_moves db old_id row p changed affected k h runs renames_to)

attach_capture-db :
    (placeholder : String) (job : JobStarted) (diagnostics : Bool) (found : Option ℕ) (s : JobStore)
    → (attach_capture placeholder job diagnostics found s).db ≡ s.db
unfolding attach_capture start_capture
attach_capture-db placeholder job diagnostics none s = ground arith
attach_capture-db placeholder job diagnostics (some at) s = refl

module _ (to_json : List String → String) (fails : Faults) (now : ℕ)
    (placeholder set_name backend_name : String) (diagnostics : Bool) (job : JobStarted)
    (s : JobStore) where
  -- The details that go to the job's row: what the message leaves empty comes from the provisional
  -- row, for the set, the backend, the runner and the display name.
  abbrev pub attached_params : Job → UpsertStartedJobParams
  attached_params row =
      started_job_params to_json now (first_non_empty set_name row.runner_set_name)
        (first_non_empty backend_name row.backend) (merge_job row job)

  abbrev attached_row : Job → JobStore × Bool
  attached_row row =
      attach_to to_json fails now placeholder set_name backend_name diagnostics job row s

  attach_to_refused : (row : Job) → (attached_row row).1 ≡ false → (attached_row row).0 ≡ s
  unfolding attach_to
  attach_to_refused row h =
      elim (Bool-cases (move_job fails placeholder (attached_params row) s.db).1) [
        | inl moved ↦ absurd (ground (arith, h, moved))
        | inr refused ↦ rw refused (
            ap (λ (db : Database). record s { db = db })
              (move_job_restores fails placeholder (attached_params row) s.db refused))
      ]

  attach_to_moves :
      (row : Job)
      → (attached_row row).1 ≡ true
      → ((move_job fails placeholder (attached_params row) s.db).1 ≡ true)
        × ((attached_row row).0.db ≡ (move_job fails placeholder (attached_params row) s.db).0)
  unfolding attach_to
  attach_to_moves row h =
      let tried = move_job fails placeholder (attached_params row) s.db in
      let merged = merge_job row job in
      elim (Bool-cases tried.1) [
        | inl moved ↦
            let kept =
              attach_capture-db placeholder merged diagnostics (lookup placeholder s.captures)
                (record s { db = tried.0 }) in
            (moved, rw moved kept)
        | inr refused ↦ absurd (ground (arith, h, refused))
      ]

  -- When AttachJobMetadata answers false, on whatever error and at whatever statement of the
  -- transaction, the records, the captures and their states are what they were.
  pub attach_unchanged :
      (attach_job_metadata to_json fails now placeholder set_name backend_name diagnostics job s).1
        ≡ false
      → (attach_job_metadata to_json fails now placeholder set_name backend_name diagnostics job
          s).0
        ≡ s
  unfolding attach_job_metadata
  attach_unchanged h = elim (Option-cases (get_job s.db placeholder)) [
    | inl missing ↦ ground arith
    | inr (row, found) ↦ ground (arith, attach_to_refused row)
  ]

  -- When AttachJobMetadata answers true on a table whose ids are distinct, there was a running
  -- provisional row, and it has moved with its logs and samples to the id of the job, merged with the
  -- job's details; no other row has changed, and ids are still distinct.
  pub attach_moves :
      IsKeyed s.db.jobs
      → (attach_job_metadata to_json fails now placeholder set_name backend_name diagnostics job
          s).1
        ≡ true
      → (row : Job) × (get_job s.db placeholder ≡ some row)
        × (is_running row ≡ true)
        × IsMoved s.db
            (attach_job_metadata to_json fails now placeholder set_name backend_name diagnostics job
              s).0.db
            placeholder
            row
            (attached_params row)
  attach_moves k h = elim (Option-cases (get_job s.db placeholder)) [
    | inl missing ↦ absurd (unfold attach_job_metadata in ground arith)
    | inr (row, found) ↦
        let runs : is_running row ≡ true = unfold attach_job_metadata in ground arith in
        let attached : (attached_row row).1 ≡ true =
          unfold attach_job_metadata in ground (arith, found) in
        let same : (attach_job_metadata to_json fails now placeholder set_name backend_name
              diagnostics job s).0
            ≡ (attached_row row).0 =
          unfold attach_job_metadata in ground (arith, found) in
        let (moved, tables) = attach_to_moves row attached in
        (
          row,
          found,
          runs,
          rw (same, tables)
              (move_job_moves fails placeholder row (attached_params row) s.db k found runs moved),
        )
  ]

  pub attach-IsKeyed :
      IsKeyed s.db.jobs
      → IsKeyed
          (attach_job_metadata to_json fails now placeholder set_name backend_name diagnostics job
            s).0.db.jobs
  attach-IsKeyed k =
      let tried =
        attach_job_metadata to_json fails now placeholder set_name backend_name diagnostics job s in
      elim (Bool-cases tried.1) [
        | inl attached ↦ let (row, found, runs, moved) = attach_moves k attached in moved.keyed
        | inr refused ↦ rw (attach_unchanged refused) k
      ]
