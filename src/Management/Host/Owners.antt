-- ===== src/Management/Host/Owners.antt =====
-- internal/management/host.go: the deletions of cleanHistory leave no log and no sample without its
-- job.
use elastic_fruit_runner.Base.{
  ℕ, zero, suc, ◌+◌, ◌-◌, ◌<◌, ◌≡◌, subst, ap, Bool, true, false, ◌&&◌, ◌||◌, not, String, Option,
  none, some, List, [], ◌∷◌, arith, leb, ltb, eqb, ◌==◌, eq_iff, keep_if, Bool-cases, Option-cases,
  inl, inr,
}
use elastic_fruit_runner.Storage.Jobs.{Job, JobLog, JobResourceSample, Database, is_running}
use elastic_fruit_runner.Storage.Retention.{
  is_expired_job, belongs_to_expired, delete_expired_jobs, delete_expired_job_logs,
  delete_expired_job_resource_samples, oldest_completed, get_oldest_completed_job_size,
  estimated_bytes, delete_completed_job, delete_job_logs, delete_job_resource_samples,
}
use elastic_fruit_runner.Management.Host.{
  World, HostStore, Statement, deletes_job, deletes_logs, deletes_job_samples, deletes_expired_logs,
  deletes_expired_job_samples, deletes_expired_jobs, reads_oldest, delete_oldest, free_jobs, shrink,
  delete_expired, clean_history, target_history_bytes, max_history_bytes, history_retention,
}
use elastic_fruit_runner.Management.Host.Running.{completed_jobs}
use elastic_fruit_runner.Management.Host.Ending.{clean_history_ends}

unfoldable pub has_job : String → List Job → Bool
has_job id [] = false
has_job id (row ∷ rows) = row.id == id || has_job id rows

-- Each entry names a job of the table.
module _ {A : Type 0} (owner : A → String) where
  abbrev pub IsOwnedBy : List Job → List A → Type 0
  IsOwnedBy rows [] = Unit {0}
  IsOwnedBy rows (x ∷ xs) = (has_job (owner x) rows ≡ true) × IsOwnedBy rows xs

  keep_if-IsOwnedBy :
      (keep : A → Bool) (rows rows' : List Job) (xs : List A)
      → ((x : A) → keep x ≡ true → has_job (owner x) rows ≡ true → has_job (owner x) rows' ≡ true)
      → IsOwnedBy rows xs
      → IsOwnedBy rows' (keep_if keep xs)
  unfolding keep_if
  keep_if-IsOwnedBy keep rows rows' [] stays h = tt
  keep_if-IsOwnedBy keep rows rows' (x ∷ xs) stays h =
      let rest = keep_if-IsOwnedBy keep rows rows' xs stays h.1 in
      elim (Bool-cases (keep x)) [
        | inl kept ↦ rw kept (stays x kept h.0, rest)
        | inr gone ↦ rw gone rest
      ]

abbrev value_or {ℓ} : {A : Type ℓ} → A → Option A → A
value_or a none = a
value_or a (some b) = b

abbrev log_owner : JobLog → String
log_owner l = l.job_id

abbrev sample_owner : JobResourceSample → String
sample_owner s = s.job_id

-- Every log and every sample has its job.
abbrev pub IsOwned : Database → Type 0
IsOwned db = IsOwnedBy log_owner db.jobs db.job_logs × IsOwnedBy sample_owner db.jobs db.samples

has_job-unexpired :
    (cutoff : ℕ) (id : String) (rows : List Job)
    → belongs_to_expired cutoff id rows ≡ false
    → has_job id rows ≡ true
    → has_job id (keep_if (λ row. not (is_expired_job cutoff row)) rows) ≡ true
unfolding belongs_to_expired has_job keep_if
has_job-unexpired cutoff id [] h e = e
has_job-unexpired cutoff id (row ∷ rows) h e =
    ground (arith, h, e, has_job-unexpired cutoff id rows)

has_job-other :
    (id other : String) (rows : List Job)
    → (other == id) ≡ false
    → has_job other rows ≡ true
    → has_job other (keep_if (λ row. not (row.id == id && not (is_running row))) rows) ≡ true
unfolding has_job keep_if
has_job-other id other [] h e = e
has_job-other id other (row ∷ rows) h e = ground (
  arith,
  h,
  e,
  has_job-other id other rows,
  eq_iff row.id id,
  eq_iff row.id other,
  eq_iff other id,
)

module _ {A : Type 0} (owner : A → String) (rows : List Job) (xs : List A) where
  -- What is not of one job keeps its job when that one is deleted.
  others_kept :
      (id : String)
      → IsOwnedBy owner rows xs
      → IsOwnedBy owner
          (keep_if (λ row. not (row.id == id && not (is_running row))) rows)
          (keep_if (λ x. not (owner x == id)) xs)
  others_kept id o =
      keep_if-IsOwnedBy owner (λ x. not (owner x == id)) rows
        (keep_if (λ row. not (row.id == id && not (is_running row))) rows) xs
        (λ x kept e. has_job-other id (owner x) rows (ground (arith, kept)) e) o

  -- What is not of an expired job keeps its job when those are deleted.
  unexpired_kept :
      (cutoff : ℕ) (old : A → Bool)
      → IsOwnedBy owner rows xs
      → IsOwnedBy owner
          (keep_if (λ row. not (is_expired_job cutoff row)) rows)
          (keep_if (λ x. not (old x || belongs_to_expired cutoff (owner x) rows)) xs)
  unexpired_kept cutoff old o =
      keep_if-IsOwnedBy owner (λ x. not (old x || belongs_to_expired cutoff (owner x) rows)) rows
        (keep_if (λ row. not (is_expired_job cutoff row)) rows) xs
        (λ x kept e. has_job-unexpired cutoff (owner x) rows (ground (arith, kept)) e) o

module _ (w : World) (works : (st : Statement) (n k : ℕ) → w.fails st n k ≡ false) where
  delete_oldest-IsOwned :
      (n k : ℕ) (id : String) (db : Database) → IsOwned db → IsOwned (delete_oldest w n k id db)
  unfolding delete_oldest delete_completed_job delete_job_logs delete_job_resource_samples
  delete_oldest-IsOwned n k id db h = rw (works deletes_job n k) (
      rw (works deletes_job_samples n k) (
        rw (works deletes_logs n k) (
          others_kept log_owner db.jobs db.job_logs id h.0,
          others_kept sample_owner db.jobs db.samples id h.1,
        )))

  delete_expired-IsOwned :
      (now : ℕ) (s : HostStore) → IsOwned s.db → IsOwned (delete_expired w now s).db
  unfolding delete_expired delete_expired_jobs delete_expired_job_logs
      delete_expired_job_resource_samples
  delete_expired-IsOwned now s h =
      let cutoff = now - history_retention in
      rw (works deletes_expired_jobs 0 0) (
        rw (works deletes_expired_job_samples 0 0) (
          rw (works deletes_expired_logs 0 0) (
            unexpired_kept log_owner s.db.jobs s.db.job_logs cutoff (λ l. ltb l.recorded_at cutoff)
                h.0,
            unexpired_kept sample_owner s.db.jobs s.db.samples cutoff
                (λ x. ltb x.sample.recorded_at cutoff) h.1,
          )))

  free_jobs-IsOwned :
      (fuel n k freed goal : ℕ) (db db' : Database) (freed' : ℕ)
      → IsOwned db
      → free_jobs w fuel n k freed goal db ≡ some (db', freed')
      → IsOwned db'
  unfolding free_jobs get_oldest_completed_job_size
  free_jobs-IsOwned zero n k freed goal db db' freed' h e = ground (arith, e)
  free_jobs-IsOwned (suc fuel) n k freed goal db db' freed' h e =
      let stop : some (db, freed) ≡ some (db', freed') → IsOwned db' =
        λ same. subst IsOwned (ap (λ o. (value_or {A = Database × ℕ} (db, freed) o).0) same) h in
      elim (Bool-cases (leb goal freed)) [
        | inl reached ↦ stop (ground (arith, reached, e))
        | inr less ↦ elim (Bool-cases (w.fails reads_oldest n k)) [
          | inl failed ↦ stop (ground (arith, less, failed, e))
          | inr read ↦ elim (Option-cases (oldest_completed db.jobs)) [
            | inl nothing ↦ stop (ground (arith, less, read, nothing, e))
            | inr (row, oldest) ↦
                free_jobs-IsOwned fuel n (k + 1) (freed + estimated_bytes w.characters db row.id)
                  goal (delete_oldest w n k row.id db) db' freed'
                  (delete_oldest-IsOwned n k row.id db h) (ground (arith, less, read, oldest, e))
          ]
        ]
      ]

  shrink-IsOwned :
      (fuel n : ℕ) (db db' : Database) → IsOwned db → shrink w fuel n db ≡ some db' → IsOwned db'
  unfolding shrink
  shrink-IsOwned zero n db db' h e = ground (arith, e)
  shrink-IsOwned (suc fuel) n db db' h e =
      let goal = w.file_size n - target_history_bytes in
      let stop : (d : Database) → IsOwned d → some d ≡ some db' → IsOwned db' =
        λ d o same. subst IsOwned (ap (value_or d) same) o in
      elim (Bool-cases (leb (w.file_size n) target_history_bytes)) [
        | inl small ↦ stop db h (ground (arith, small, e))
        | inr large ↦ elim (Option-cases (free_jobs w (goal + 1) n 0 0 goal db)) [
          | inl nothing ↦ ground (arith, large, nothing, e)
          | inr (done, freed) ↦
              let o = free_jobs-IsOwned (goal + 1) n 0 0 goal db done.0 done.1 h freed in
              elim (Bool-cases (eqb done.1 0)) [
                | inl none_freed ↦ stop done.0 o (ground (arith, large, freed, none_freed, e))
                | inr some_freed ↦ elim (Bool-cases (w.compacts n)) [
                  | inr failed ↦ stop done.0 o (ground (arith, large, freed, some_freed, failed, e))
                  | inl compacted ↦
                      shrink-IsOwned fuel (n + 1) done.0 db' o
                        (ground (arith, large, freed, some_freed, compacted, e))
                ]
              ]
        ]
      ]

  -- When no statement fails, cleanHistory ends, and where every log and every sample had its job,
  -- each that is left still has it.
  pub clean_history-IsOwned :
      (now fuel : ℕ) (s : HostStore)
      → completed_jobs s.db.jobs < fuel
      → IsOwned s.db
      → (s' : HostStore) × (clean_history w fuel now s ≡ some s') × IsOwned s'.db
  unfolding clean_history
  clean_history-IsOwned now fuel s enough h =
      let (s', ends, same, why) = clean_history_ends w (works deletes_job) now fuel s enough in
      let expired = delete_expired w now s in
      let o = delete_expired-IsOwned now s h in
      let stop : (d : HostStore) → IsOwned d.db → some d ≡ some s' → IsOwned s'.db =
        λ d o same. subst (λ x. IsOwned x.db) (ap (value_or d) same) o in
      let owned : IsOwned s'.db = elim (Bool-cases (leb (w.file_size 0) max_history_bytes)) [
        | inl small ↦ stop expired o (ground (arith, small, ends))
        | inr large ↦ elim (Option-cases (shrink w fuel 0 expired.db)) [
          | inl nothing ↦ ground (arith, large, nothing, ends)
          | inr (db, done) ↦
              stop (record expired { db = db }) (shrink-IsOwned fuel 0 expired.db db o done)
                (ground (arith, large, done, ends))
        ]
      ] in
      (s', ends, owned)
