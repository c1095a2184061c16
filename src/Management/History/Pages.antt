-- ===== src/Management/History/Pages.antt =====
-- jobs.go, List: a client that follows the cursors.
use elastic_fruit_runner.Base.{
  ℕ, zero, suc, ◌+◌, ◌-◌, ◌≤◌, ◌<◌, ◌≡◌, refl, sym, ◌∙◌, ap, false, none, some, List, [], ◌∷◌, ◌++◌,
  arith, ltb, leb, length, take, drop, min, take-append-drop, ℤ, pos, negsuc, inl, inr, Bool-cases,
  keep_if, map, if◌then◌else◌,
}
use elastic_fruit_runner.Storage.Jobs.{Database, Job}
use elastic_fruit_runner.Storage.Jobs.Queries.{newest_first, list_jobs_newest_first}
use elastic_fruit_runner.Management.History.{
  JobRecord, JobFilter, JobPage, Library, page_at, page_size_or, matching, list_jobs, matches_job,
  job_record_from_row,
}

page_size_or_pos :
    (limit standard : ℕ) (size : ℤ) → 0 < standard → 0 < page_size_or limit standard size
page_size_or_pos limit standard (negsuc n) h = h
page_size_or_pos limit standard (pos n) h = ground arith

drop_all : (n : ℕ) (xs : List JobRecord) → length xs ≤ n → drop n xs ≡ []
drop_all zero [] h = refl
drop_all zero (x ∷ xs) h = absurd (omega arith)
drop_all (suc n) [] h = refl
drop_all (suc n) (x ∷ xs) h = drop_all n xs (omega arith)

drop-nil : (n : ℕ) → drop {A = JobRecord} n [] ≡ []
drop-nil zero = refl
drop-nil (suc n) = refl

drop-drop : (m n k : ℕ) (xs : List JobRecord) → k ≡ n + m → drop m (drop n xs) ≡ drop k xs
drop-drop m zero k xs e = ap (λ (i : ℕ). drop i xs) (omega arith)
drop-drop m (suc n) zero xs e = absurd (omega arith)
drop-drop m (suc n) (suc k) [] e = drop-nil m
drop-drop m (suc n) (suc k) (x ∷ xs) e = drop-drop m n k xs (omega arith)

-- A page and what comes after its end.
page-append :
    (start end : ℕ) (xs : List JobRecord)
    → start ≤ end
    → take (end - start) (drop start xs) ++ drop end xs ≡ drop start xs
page-append start end xs h =
    ap (λ (r : List JobRecord). take (end - start) (drop start xs) ++ r)
      (sym (drop-drop (end - start) start end xs (omega arith)))
    ∙ take-append-drop (end - start) (drop start xs)

-- Asks for page after page, as long as there is a next cursor.
pub follow : (ℕ → JobPage) → ℕ → ℕ → List JobRecord
follow page zero cursor = []
follow page (suc fuel) cursor =
    (page cursor).records
    ++ elim (page cursor).next_cursor [ none ↦ [] | some next ↦ follow page fuel next ]

follow-page_at :
    (size fuel cursor : ℕ) (xs : List JobRecord)
    → 0 < size
    → length xs < cursor + fuel
    → follow (λ c. page_at c size xs) fuel cursor ≡ drop cursor xs
unfolding follow page_at
follow-page_at size zero cursor xs h enough = sym (drop_all cursor xs (omega arith))
follow-page_at size (suc fuel) cursor xs h enough = elim (Bool-cases (leb (length xs) cursor)) [
  | inl past ↦ rw past (sym (drop_all cursor xs (ground arith)))
  | inr inside ↦
      let end = min (cursor + size) (length xs) in
      let start_ok : cursor < length xs = ground arith in
      elim (Bool-cases (ltb end (length xs))) [
        | inl more ↦
            rw (inside, more)
              (ap (λ (r : List JobRecord). take (end - cursor) (drop cursor xs) ++ r)
                  (follow-page_at size fuel end xs h (omega arith))
                ∙ page-append cursor end xs (omega arith))
        | inr last ↦
            let whole : length xs ≤ end = ground arith in
            rw (inside, last)
              (ap (λ (r : List JobRecord). take (end - cursor) (drop cursor xs) ++ r)
                  (sym (drop_all end xs whole))
                ∙ page-append cursor end xs (omega arith))
      ]
]

-- The records of the rows that a filter lets through.
pub records_of : Library → JobFilter → List Job → List JobRecord
records_of lib f [] = []
records_of lib f (row ∷ rows) =
    let rest = records_of lib f rows in
    if matches_job lib (job_record_from_row lib row) f
    then job_record_from_row lib row ∷ rest
    else rest

matching-records_of :
    (lib : Library) (f : JobFilter) (rows : List Job)
    → keep_if (λ r. matches_job lib r f) (map (job_record_from_row lib) rows)
      ≡ records_of lib f rows
unfolding records_of keep_if
matching-records_of lib f [] = refl
matching-records_of lib f (row ∷ rows) =
    elim (Bool-cases (matches_job lib (job_record_from_row lib row) f)) [
      | inl match ↦
          rw match (ap (λ rs. job_record_from_row lib row ∷ rs) (matching-records_of lib f rows))
      | inr other ↦ rw other (matching-records_of lib f rows)
    ]

length-records_of :
    (lib : Library) (f : JobFilter) (rows : List Job) → length (records_of lib f rows) ≤ length rows
unfolding records_of
length-records_of lib f [] = omega arith
length-records_of lib f (row ∷ rows) = ground (arith, length-records_of lib f rows)

length-take_rows : (n : ℕ) (rows : List Job) → length (take n rows) ≤ n
length-take_rows zero rows = omega arith
length-take_rows (suc n) [] = omega arith
length-take_rows (suc n) (row ∷ rows) = omega (arith, length-take_rows n rows)

-- The code reads the 2000 jobs that started last and no older one, and filters those. A client that
-- starts at the first page and asks for the page of each cursor that it is given gets the record of
-- each of them that matches once, the latest start first, whatever page size it asks for, with at
-- most 2001 pages.
pub follow-list_jobs :
    (lib : Library) (db : Database) (f : JobFilter)
    → follow (λ c. list_jobs lib false db (record f { cursor = pos c })) 2001 0
      ≡ records_of lib f (take 2000 (newest_first db.jobs))
unfolding list_jobs matching list_jobs_newest_first
follow-list_jobs lib db f =
    let rows = take 2000 (newest_first db.jobs) in
    let few : length (records_of lib f rows) ≤ 2000 =
      omega (arith, length-records_of lib f rows, length-take_rows 2000 (newest_first db.jobs)) in
    rw (matching-records_of lib f rows) (
      follow-page_at (page_size_or 200 50 f.page_size) 2001 0 (records_of lib f rows)
        (page_size_or_pos 200 50 f.page_size (omega arith)) (omega arith))
