-- ===== src/Management/Host/Ending.antt =====
-- internal/management/host.go: the loops of cleanHistory end, and what they leave.
use elastic_fruit_runner.Base.{
  ℕ, zero, suc, ◌+◌, ◌-◌, ◌≤◌, ◌<◌, ◌≡◌, refl, ◌∙◌, true, false, Option, none, some, ◌⊎◌, inl, inr,
  arith, leb, eqb, Bool-cases, Option-cases,
}
use elastic_fruit_runner.Storage.Jobs.{Database}
use elastic_fruit_runner.Storage.Retention.{
  oldest_completed, get_oldest_completed_job_size, estimated_bytes,
}
use elastic_fruit_runner.Management.Host.{
  World, HostStore, deletes_job, reads_oldest, delete_oldest, free_jobs, shrink, delete_expired,
  clean_history, target_history_bytes, max_history_bytes,
}
use elastic_fruit_runner.Management.Host.Running.{
  completed_jobs, running_jobs, delete_oldest-running, delete_oldest-completed,
  delete_expired-running,
}

-- Why cleanHistory stops: the files are small enough, there is no completed job left, the database
-- did not tell the oldest one, or the files could not be compacted.
pub data IsDone (w : World) (db : Database) : Type 0 where
  small_enough : (m : ℕ) → w.file_size m ≤ target_history_bytes → IsDone w db
  nothing_left : oldest_completed db.jobs ≡ none → IsDone w db
  not_read : (n k : ℕ) → w.fails reads_oldest n k ≡ true → IsDone w db
  not_compacted : (n : ℕ) → w.compacts n ≡ false → IsDone w db

module _ (w : World) (works : (n k : ℕ) → w.fails deletes_job n k ≡ false) where
  -- What the inner loop leaves: the running jobs, and fewer of the others if it freed anything.
  record Freed (freed goal : ℕ) (db : Database) (result : Option (Database × ℕ)) : Type 0 where
    db' : Database
    freed' : ℕ
    ends : result ≡ some (db', freed')
    same : running_jobs db'.jobs ≡ running_jobs db.jobs
    fewer : completed_jobs db'.jobs ≤ completed_jobs db.jobs
    progress :
        ((freed' ≡ freed) × ((goal ≤ freed) ⊎ IsDone w db'))
        ⊎ ((completed_jobs db'.jobs < completed_jobs db.jobs) × (freed < freed'))

  free_jobs-ends :
      (fuel n k freed goal : ℕ) (db : Database)
      → goal < fuel + freed
      → 0 < fuel
      → Freed freed goal db (free_jobs w fuel n k freed goal db)
  unfolding free_jobs get_oldest_completed_job_size estimated_bytes
  free_jobs-ends zero n k freed goal db enough some_fuel = ground (arith, some_fuel)
  free_jobs-ends (suc fuel) n k freed goal db enough some_fuel =
      let stop : free_jobs w (suc fuel) n k freed goal db ≡ some (db, freed)
          → (goal ≤ freed) ⊎ IsDone w db
          → Freed freed goal db (free_jobs w (suc fuel) n k freed goal db) =
        λ e why. record {
          db' = db;
          freed' = freed;
          ends = e;
          same = refl;
          fewer = omega arith;
          progress = inl (refl, why);
        } in
      elim (Bool-cases (leb goal freed)) [
        | inl reached ↦ stop (ground (arith, reached)) (inl (ground (arith, reached)))
        | inr less ↦ elim (Bool-cases (w.fails reads_oldest n k)) [
          | inl failed ↦ stop (ground (arith, less, failed)) (inr (not_read n k failed))
          | inr read ↦ elim (Option-cases (oldest_completed db.jobs)) [
            | inl nothing ↦ stop (ground (arith, less, read, nothing)) (inr (nothing_left nothing))
            | inr (row, oldest) ↦
                let db1 = delete_oldest w n k row.id db in
                let size = estimated_bytes w.characters db row.id in
                let next : free_jobs w (suc fuel) n k freed goal db
                    ≡ free_jobs w fuel n (k + 1) (freed + size) goal db1 =
                  ground (arith, less, read, oldest) in
                let later =
                  free_jobs-ends fuel n (k + 1) (freed + size) goal db1
                    (ground (arith, enough, less)) (ground (arith, enough, less)) in
                let kept = delete_oldest-running w n k row.id db in
                let gone = delete_oldest-completed w n k row db (works n k) oldest in
                record {
                  db' = later.db';
                  freed' = later.freed';
                  ends = next ∙ later.ends;
                  same = later.same ∙ kept.0;
                  fewer = omega (arith, later.fewer, kept.1);
                  progress = inr (omega (arith, later.fewer, gone), ground (arith, later.progress));
                }
          ]
        ]
      ]

  -- What the outer loop leaves.
  record Shrunk (db : Database) (result : Option Database) : Type 0 where
    db' : Database
    ends : result ≡ some db'
    same : running_jobs db'.jobs ≡ running_jobs db.jobs
    why : IsDone w db'

  shrink-ends :
      (fuel n : ℕ) (db : Database) → completed_jobs db.jobs < fuel → Shrunk db (shrink w fuel n db)
  unfolding shrink
  shrink-ends zero n db enough = ground (arith, enough)
  shrink-ends (suc fuel) n db enough =
      let goal = w.file_size n - target_history_bytes in
      let freed = free_jobs-ends (goal + 1) n 0 0 goal db (omega arith) (omega arith) in
      let stop : shrink w (suc fuel) n db ≡ some freed.db'
          → IsDone w freed.db'
          → Shrunk db (shrink w (suc fuel) n db) =
        λ e why. record { db' = freed.db'; ends = e; same = freed.same; why = why } in
      elim (Bool-cases (leb (w.file_size n) target_history_bytes)) [
        | inl small ↦ record {
          db' = db;
          ends = ground (arith, small);
          same = refl;
          why = small_enough n (ground (arith, small));
        }
        | inr large ↦ elim (Bool-cases (eqb freed.freed' 0)) [
          | inl nothing ↦ stop (ground (arith, large, freed.ends, nothing)) (elim freed.progress [
            | inl (same, inl reached) ↦ ground (arith, reached, large)
            | inl (same, inr done) ↦ done
            | inr (less, more) ↦ ground (arith, more, nothing)
          ])
          | inr something ↦ elim (Bool-cases (w.compacts n)) [
            | inr failed ↦
                stop (ground (arith, large, freed.ends, something, failed)) (not_compacted n failed)
            | inl compacted ↦
                let next : shrink w (suc fuel) n db ≡ shrink w fuel (n + 1) freed.db' =
                  ground (arith, large, freed.ends, something, compacted) in
                let later =
                  shrink-ends fuel (n + 1) freed.db'
                    (ground (arith, enough, something, freed.progress)) in
                record {
                  db' = later.db';
                  ends = next ∙ later.ends;
                  same = later.same ∙ freed.same;
                  why = later.why;
                }
          ]
        ]
      ]

  -- cleanHistory ends when the deletion of a job does not fail, whatever else fails and however
  -- large the files stay: one round of its outer loop for each completed job, and one more, is
  -- enough. It takes no running job away and changes none. Either the files were small enough and
  -- only what is too old has gone, or it stops for one of the reasons of IsDone.
  pub clean_history_ends :
      (now fuel : ℕ) (s : HostStore)
      → completed_jobs s.db.jobs < fuel
      → (s' : HostStore) × (clean_history w fuel now s ≡ some s')
        × (running_jobs s'.db.jobs ≡ running_jobs s.db.jobs)
        × (((w.file_size 0 ≤ max_history_bytes) × (s' ≡ delete_expired w now s)) ⊎ IsDone w s'.db)
  unfolding clean_history
  clean_history_ends now fuel s enough =
      let expired = delete_expired w now s in
      let (same, fewer) = delete_expired-running w now s in
      let shrunk = shrink-ends fuel 0 expired.db (omega (arith, enough, fewer)) in
      elim (Bool-cases (leb (w.file_size 0) max_history_bytes)) [
        | inl small ↦ (expired, ground (arith, small), same, inl (ground (arith, small), refl))
        | inr large ↦ (
          record expired { db = shrunk.db' },
          ground (arith, large, shrunk.ends),
          shrunk.same ∙ same,
          inr shrunk.why,
        )
      ]
