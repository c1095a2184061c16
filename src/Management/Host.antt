-- ===== src/Management/Host.antt =====
-- internal/management/host.go: the samples of the host's resources, their rollup by minutes, and
-- the retention of the history by age and by the size of the database. A time is in nanoseconds
-- from Go's zero time; the times of the system are far from it, so `-` does not stop at 0.
mod Tests
mod Running
pub mod Ending
pub mod Owners
pub mod Averages
use elastic_fruit_runner.Base.{
  ℕ, zero, suc, ◌+◌, ◌-◌, ◌*◌, ◌%◌, Bool, true, false, not, String, Option, none, some, List, [],
  ltb, leb, eqb, if◌then◌else◌,
}
use elastic_fruit_runner.Storage.Jobs.{Bytes, Database}
use elastic_fruit_runner.Storage.Samples.{
  HostResourceSample, HostSample, InsertRawHostSampleParams, insert_raw_host_sample,
  rollup_host_minute, delete_expired_host_samples, list_host_samples, get_earliest_host_sample_time,
}
use elastic_fruit_runner.Storage.Retention.{
  delete_expired_job_logs, delete_expired_job_resource_samples, delete_expired_jobs,
  get_oldest_completed_job_size, delete_job_logs, delete_job_resource_samples, delete_completed_job,
}

abbrev pub second : ℕ
second = 1000000000

abbrev pub raw_host_retention : ℕ
raw_host_retention = 86400 * second

abbrev pub history_retention : ℕ
history_retention = 30 * 86400 * second

abbrev pub max_history_bytes : ℕ
max_history_bytes = 10 * 1024 * 1024 * 1024

abbrev pub target_history_bytes : ℕ
target_history_bytes = 9 * 1024 * 1024 * 1024

pub record HostStore : Type 0 where
  pub db : Database
  pub host_samples : List HostResourceSample
  pub host_sample_count : ℕ

pub data Statement : Type 0 where
  inserts_sample rolls_up deletes_expired_samples deletes_expired_logs deletes_expired_job_samples
        deletes_expired_jobs reads_oldest deletes_logs deletes_job_samples deletes_job :
      Statement

-- What stands outside: whether a statement fails, in the given round of the outer and of the inner
-- loop; the size of the database's files after the given number of compactions, and whether the next
-- compaction succeeds; SQLite's LENGTH, and its AVG of real numbers.
pub record World : Type 0 where
  pub fails : Statement → ℕ → ℕ → Bool
  pub file_size : ℕ → ℕ
  pub compacts : ℕ → Bool
  pub characters : Bytes → ℕ
  pub average_real : List ℕ → ℕ

-- A statement whose error is ignored.
abbrev pub unless {ℓ} : {A : Type ℓ} → Bool → (A → A) → A → A
unless true f a = a
unless false f a = f a

unfoldable pub rollup_host_minute_at : World → ℕ → HostStore → HostStore
rollup_host_minute_at w now s =
    let minute = now - now % (60 * second) - 60 * second in
    unless (w.fails rolls_up 0 0)
      (λ s. record s {
        host_samples =
            rollup_host_minute w.average_real minute (minute + 60 * second) s.host_samples;
      })
      s

-- The three deletions of one round.
unfoldable pub delete_oldest : World → ℕ → ℕ → String → Database → Database
delete_oldest w n k id db = unless (w.fails deletes_job n k) (delete_completed_job id) (
    unless (w.fails deletes_job_samples n k) (delete_job_resource_samples id)
      (unless (w.fails deletes_logs n k) (delete_job_logs id) db))

-- `for freed < bytesToFree`, from its k-th round on; `none` is a fuel that does not suffice.
unfoldable pub free_jobs : World → ℕ → ℕ → ℕ → ℕ → ℕ → Database → Option (Database × ℕ)
free_jobs w zero n k freed goal db = none
free_jobs w (suc fuel) n k freed goal db =
    if leb goal freed
    then some (db, freed)
    else if w.fails reads_oldest n k
    then some (db, freed)
    else elim (get_oldest_completed_job_size w.characters db) [
      | none ↦ some (db, freed)
      | some oldest ↦
          free_jobs w fuel n (k + 1) (freed + oldest.1) goal (delete_oldest w n k oldest.0 db)
    ]

-- `for currentSize > targetHistoryBytes`, after n compactions. A round of the inner loop frees at
-- least one byte, which is why the bytes to free suffice as its fuel.
unfoldable pub shrink : World → ℕ → ℕ → Database → Option Database
shrink w zero n db = none
shrink w (suc fuel) n db =
    let goal = w.file_size n - target_history_bytes in
    if leb (w.file_size n) target_history_bytes
    then some db
    else elim (free_jobs w (goal + 1) n 0 0 goal db) [
      | none ↦ none
      | some done ↦
          if eqb done.1 0
          then some done.0
          else elim (w.compacts n) [ false ↦ some done.0 | true ↦ shrink w fuel (n + 1) done.0 ]
    ]

-- The deletions by age.
unfoldable pub delete_expired : World → ℕ → HostStore → HostStore
delete_expired w now s =
    let cutoff = now - history_retention in
    record s {
      host_samples =
          unless (w.fails deletes_expired_samples 0 0)
            (delete_expired_host_samples (now - raw_host_retention) cutoff) s.host_samples;
      db = unless (w.fails deletes_expired_jobs 0 0) (delete_expired_jobs cutoff) (
          unless (w.fails deletes_expired_job_samples 0 0)
            (delete_expired_job_resource_samples cutoff)
            (unless (w.fails deletes_expired_logs 0 0) (delete_expired_job_logs cutoff) s.db));
    }

unfoldable pub clean_history : World → ℕ → ℕ → HostStore → Option HostStore
clean_history w fuel now s =
    let expired = delete_expired w now s in
    if leb (w.file_size 0) max_history_bytes
    then some expired
    else elim (shrink w fuel 0 expired.db) [
      | none ↦ none
      | some db ↦ some (record expired { db = db })
    ]

-- `value` has the fields of vitals.Vitals, at the time of the call.
unfoldable pub record_host_vitals :
    World → ℕ → InsertRawHostSampleParams → HostStore → Option HostStore
record_host_vitals w fuel value s =
    if w.fails inserts_sample 0 0
    then some s
    else elim (insert_raw_host_sample value s.host_samples) [
      | none ↦ some s
      | some rows ↦
          let counted = record s {
            host_samples = rows;
            host_sample_count = s.host_sample_count + 1;
          } in
          if eqb (counted.host_sample_count % 12) 0
          then clean_history w fuel value.recorded_at
              (rollup_host_minute_at w value.recorded_at counted)
          else some counted
    ]

-- The samples, and the time of the earliest one. `fails` tells whether the two reads fail.
unfoldable pub read_host_samples : Bool → Bool → ℕ → ℕ → ℕ → HostStore → List HostSample × Option ℕ
read_host_samples list_fails earliest_fails now from to s =
    let interval = (if ltb (now - raw_host_retention) from then 5 else 60) in
    if list_fails then ([], none) else elim (list_host_samples interval from to s.host_samples) [
      | none ↦ ([], none)
      | some samples ↦
          (samples, if earliest_fails then none else get_earliest_host_sample_time s.host_samples)
    ]
