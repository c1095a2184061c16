-- ===== src/Storage/Jobs/Rows.antt =====
-- queries.sql on the jobs table: which row each statement leaves under each id.
use elastic_fruit_runner.Base.{
  ℕ, ◌≡◌, ◌≢◌, refl, sym, ◌∙◌, ap, Bool, true, false, String, Option, none, some, List, [], ◌∷◌,
  arith, eq_iff, ◌==◌, if◌then◌else◌, is_some, Bool-cases, inl, inr,
}
use elastic_fruit_runner.Storage.Jobs.{
  Job, Database, UpsertStartedJobParams, find_job, started_row, restarted_row, upsert_row,
  update_where, is_running, rename_running_job,
}

-- The primary key: no id has two rows.
abbrev pub IsKeyed : List Job → Type 0
IsKeyed [] = Unit {0}
IsKeyed (row ∷ rows) = (is_some (find_job row.id rows) ≡ false) × IsKeyed rows

-- What an upsert leaves under its id, given the row that stood there.
abbrev pub upserted : UpsertStartedJobParams → Option Job → Job
upserted p none = started_row p
upserted p (some row) = restarted_row p row

pub find_job-id :
    (id : String) (rows : List Job) {row : Job} → find_job id rows ≡ some row → row.id ≡ id
unfolding find_job
find_job-id id [] h = absurd (ground arith)
find_job-id id (r ∷ rows) {row} h = elim (Bool-cases (r.id == id)) [
  | inl e ↦
      let same : r ≡ row = ground arith in ap (λ (x : Job). x.id) (sym same) ∙ (eq_iff r.id id).0 e
  | inr e ↦ find_job-id id rows {row = row} (ground arith)
]

pub find_job-upsert_row :
    (p : UpsertStartedJobParams) (j : String) (rows : List Job)
    → find_job j (upsert_row p rows)
      ≡ (if p.id == j then some (upserted p (find_job p.id rows)) else find_job j rows)
unfolding find_job upsert_row started_row restarted_row
find_job-upsert_row p j [] = refl
find_job-upsert_row p j (r ∷ rows) =
    ground (arith, eq_iff r.id p.id, eq_iff r.id j, eq_iff p.id j, find_job-upsert_row p j rows)

pub upsert_row-IsKeyed :
    (p : UpsertStartedJobParams) (rows : List Job) → IsKeyed rows → IsKeyed (upsert_row p rows)
unfolding find_job upsert_row started_row restarted_row
upsert_row-IsKeyed p [] k = (refl, tt)
upsert_row-IsKeyed p (r ∷ rows) k = ground (
  arith,
  eq_iff r.id p.id,
  eq_iff p.id r.id,
  upsert_row-IsKeyed p rows k.1,
  find_job-upsert_row p r.id rows,
)

-- What an update leaves of the row under its id.
abbrev pub touched : (Job → Bool) → (Job → Job) → Option Job → Option Job
touched p f none = none
touched p f (some row) = if p row then some (f row) else some row

abbrev pub matched : (Job → Bool) → Option Job → ℕ
matched p none = 0
matched p (some row) = if p row then 1 else 0

module _ (p : Job → Bool) (f : Job → Job) (id : String) where
  pub update_where_absent :
      (rows : List Job) → find_job id rows ≡ none → update_where p f id rows ≡ (rows, 0)
  unfolding find_job update_where
  update_where_absent [] h = refl
  update_where_absent (r ∷ rows) h = ground (arith, update_where_absent rows)

  pub update_where_count :
      (rows : List Job) → IsKeyed rows → (update_where p f id rows).1 ≡ matched p (find_job id rows)
  unfolding find_job update_where
  update_where_count [] k = refl
  update_where_count (r ∷ rows) k =
      ground (arith, eq_iff r.id id, update_where_absent rows, update_where_count rows k.1)

  -- An update that keeps the key touches the row under `id` if it passes the test, and no other.
  pub find_job-update_where :
      (j : String) (rows : List Job)
      → IsKeyed rows
      → ((row : Job) → (f row).id ≡ row.id)
      → find_job j (update_where p f id rows).0
        ≡ (if id == j then touched p f (find_job id rows) else find_job j rows)
  unfolding find_job update_where
  find_job-update_where j [] k same = ground arith
  find_job-update_where j (r ∷ rows) k same = ground (
    arith,
    eq_iff r.id id,
    eq_iff r.id j,
    eq_iff id j,
    same r,
    update_where_absent rows,
    find_job-update_where j rows k.1 same,
  )

  pub update_where-IsKeyed :
      (rows : List Job)
      → IsKeyed rows
      → ((row : Job) → (f row).id ≡ row.id)
      → IsKeyed (update_where p f id rows).0
  unfolding find_job update_where
  update_where-IsKeyed [] k same = tt
  update_where-IsKeyed (r ∷ rows) k same = ground (
    arith,
    eq_iff r.id id,
    eq_iff id r.id,
    same r,
    find_job-update_where r.id rows k.1 same,
    update_where-IsKeyed rows k.1 same,
  )

abbrev pub renamed : String → Job → Job
renamed new_id row = record row { id = new_id }

-- A running row under the old id gets a new id that no other row has.
module _ (new_id old_id : String) where
  pub find_job-rename :
      (j : String) (rows : List Job) (row : Job)
      → IsKeyed rows
      → find_job old_id rows ≡ some row
      → is_running row ≡ true
      → (new_id ≢ old_id → find_job new_id rows ≡ none)
      → find_job j (update_where is_running (renamed new_id) old_id rows).0 ≡ (
          if new_id == j
          then some (renamed new_id row)
          else if old_id == j
          then none
          else find_job j rows)
  unfolding find_job update_where
  find_job-rename j [] row k h runs free = absurd (ground arith)
  find_job-rename j (r ∷ rows) row k h runs free = elim (Bool-cases (r.id == old_id)) [
    | inl e ↦ ground (
      arith,
      eq_iff r.id old_id,
      eq_iff old_id j,
      eq_iff new_id j,
      update_where_absent is_running (renamed new_id) old_id rows,
    )
    | inr e ↦
        let other : new_id ≢ old_id → find_job new_id rows ≡ none = λ n. ground (arith, free n) in
        ground (
          arith,
          eq_iff r.id old_id,
          eq_iff r.id j,
          eq_iff old_id j,
          eq_iff new_id j,
          eq_iff r.id new_id,
          eq_iff new_id old_id,
          free,
          find_job-rename j rows row k.1 (ground arith) runs other,
        )
  ]

-- RenameRunningJob, when the primary key allows it: the running row has the new id, and only it.
pub rename_running_job_lem :
    (db : Database) (new_id old_id : String) (row : Job) (db' : Database) (affected : ℕ)
    → IsKeyed db.jobs
    → find_job old_id db.jobs ≡ some row
    → is_running row ≡ true
    → rename_running_job db new_id old_id ≡ some (db', affected)
    → ((j : String)
        → find_job j db'.jobs ≡ (
            if new_id == j
            then some (renamed new_id row)
            else if old_id == j
            then none
            else find_job j db.jobs))
      × (db' ≡ record db { jobs = (update_where is_running (renamed new_id) old_id db.jobs).0 })
      × (new_id ≢ old_id → find_job new_id db.jobs ≡ none)
rename_running_job_lem db new_id old_id row db' affected k h runs e =
    let changed = update_where is_running (renamed new_id) old_id db.jobs in
    let one : changed.1 ≡ 1 =
      ground (arith, update_where_count is_running (renamed new_id) old_id db.jobs k) in
    let free : new_id ≢ old_id → find_job new_id db.jobs ≡ none =
      λ n. unfold rename_running_job in ground (arith, eq_iff new_id old_id) in
    let same : db' ≡ record db { jobs = changed.0 } = unfold rename_running_job in ground arith in
    (λ j. rw same (find_job-rename new_id old_id j db.jobs row k h runs free), same, free)
