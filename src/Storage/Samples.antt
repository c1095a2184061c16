-- ===== src/Storage/Samples.antt =====
-- The table host_resource_samples and the statements of the retention (internal/storage/sqlc).
-- SQLite's AVG gives a real number. An INTEGER column stores it as an integer where it is one, and
-- as a real number otherwise; a row with such a real number cannot be scanned into an int64.
use elastic_fruit_runner.Base.{
  ℕ, ◌+◌, ◌/◌, ◌%◌, Bool, false, ◌&&◌, ◌||◌, not, Option, none, some, List, [], ◌∷◌, map, ltb, leb,
  eqb, if◌then◌else◌, keep_if, length, ◌>>=◌,
}

-- A number in an INTEGER column: an integer, or the real number `sum / count`.
pub data Number : Type 0 where
  integer : ℕ → Number
  fraction : ℕ → ℕ → Number

pub record HostResourceSample : Type 0 where
  pub recorded_at : ℕ
  pub interval_seconds : ℕ
  pub cpu_percent : ℕ
  pub memory_used_bytes : Number
  pub memory_available_bytes : Number
  pub disk_used_bytes : Number
  pub disk_available_bytes : Number
  pub disk_read_bytes : Number
  pub disk_write_bytes : Number
  pub load_one : ℕ
  pub temperature_celsius : ℕ

pub record InsertRawHostSampleParams : Type 0 where
  pub recorded_at : ℕ
  pub cpu_percent : ℕ
  pub memory_used_bytes : ℕ
  pub memory_available_bytes : ℕ
  pub disk_used_bytes : ℕ
  pub disk_available_bytes : ℕ
  pub disk_read_bytes : ℕ
  pub disk_write_bytes : ℕ
  pub load_one : ℕ
  pub temperature_celsius : ℕ

-- What the driver scans: the row as Go reads it.
pub record HostSample : Type 0 where
  pub recorded_at : ℕ
  pub interval_seconds : ℕ
  pub cpu_percent : ℕ
  pub memory_used_bytes : ℕ
  pub memory_available_bytes : ℕ
  pub disk_used_bytes : ℕ
  pub disk_available_bytes : ℕ
  pub disk_read_bytes : ℕ
  pub disk_write_bytes : ℕ
  pub load_one : ℕ
  pub temperature_celsius : ℕ

abbrev pub raw_row : InsertRawHostSampleParams → HostResourceSample
raw_row p = record {
  recorded_at = p.recorded_at;
  interval_seconds = 5;
  cpu_percent = p.cpu_percent;
  memory_used_bytes = integer p.memory_used_bytes;
  memory_available_bytes = integer p.memory_available_bytes;
  disk_used_bytes = integer p.disk_used_bytes;
  disk_available_bytes = integer p.disk_available_bytes;
  disk_read_bytes = integer p.disk_read_bytes;
  disk_write_bytes = integer p.disk_write_bytes;
  load_one = p.load_one;
  temperature_celsius = p.temperature_celsius;
}

-- The primary key (recorded_at, interval_seconds).
abbrev pub same_sample : ℕ → ℕ → HostResourceSample → Bool
same_sample at interval row = eqb row.recorded_at at && eqb row.interval_seconds interval

unfoldable pub has_sample : ℕ → ℕ → List HostResourceSample → Bool
has_sample at interval [] = false
has_sample at interval (row ∷ rows) = same_sample at interval row || has_sample at interval rows

-- `none` is the violated key.
unfoldable pub insert_raw_host_sample :
    InsertRawHostSampleParams → List HostResourceSample → Option (List HostResourceSample)
insert_raw_host_sample p rows =
    if has_sample p.recorded_at 5 rows then none else some (raw_row p ∷ rows)

-- SUM, MAX and AVG of an INTEGER column; a real number among the rows is cut to an integer, which
-- the rollup does not meet: it reads raw rows alone.
abbrev pub whole : Number → ℕ
whole (integer n) = n
whole (fraction sum count) = sum / count

unfoldable pub sum_of : List ℕ → ℕ
sum_of [] = 0
sum_of (n ∷ ns) = n + sum_of ns

unfoldable pub max_of : List ℕ → ℕ
max_of [] = 0
max_of (n ∷ ns) = let rest = max_of ns in if ltb rest n then n else rest

-- What an INTEGER column NOT NULL DEFAULT 0 holds of an average. Without rows AVG is NULL, and
-- INSERT OR REPLACE puts the default in its place.
unfoldable pub average : List ℕ → Number
average ns =
    let count = length ns in
    if eqb count 0
    then integer 0
    else if eqb (sum_of ns % count) 0
    then integer (sum_of ns / count)
    else fraction (sum_of ns) count

abbrev pub in_minute : ℕ → ℕ → HostResourceSample → Bool
in_minute start end row =
    eqb row.interval_seconds 5 && leb start row.recorded_at && ltb row.recorded_at end

abbrev pub column : (HostResourceSample → Number) → List HostResourceSample → List ℕ
column field rows = map (λ row. whole (field row)) rows

-- `average_real` is AVG on the REAL columns.
unfoldable pub minute_row : (List ℕ → ℕ) → ℕ → List HostResourceSample → HostResourceSample
minute_row average_real start raw = record {
  recorded_at = start;
  interval_seconds = 60;
  cpu_percent = average_real (map (λ row. row.cpu_percent) raw);
  memory_used_bytes = average (column (λ row. row.memory_used_bytes) raw);
  memory_available_bytes = average (column (λ row. row.memory_available_bytes) raw);
  disk_used_bytes = average (column (λ row. row.disk_used_bytes) raw);
  disk_available_bytes = average (column (λ row. row.disk_available_bytes) raw);
  disk_read_bytes = integer (max_of (column (λ row. row.disk_read_bytes) raw));
  disk_write_bytes = integer (max_of (column (λ row. row.disk_write_bytes) raw));
  load_one = average_real (map (λ row. row.load_one) raw);
  temperature_celsius = average_real (map (λ row. row.temperature_celsius) raw);
}

unfoldable pub rollup_host_minute :
    (List ℕ → ℕ) → ℕ → ℕ → List HostResourceSample → List HostResourceSample
rollup_host_minute average_real start end rows =
    minute_row average_real start (keep_if (in_minute start end) rows)
    ∷ keep_if (λ row. not (same_sample start 60 row)) rows

abbrev pub is_expired_sample : ℕ → ℕ → HostResourceSample → Bool
is_expired_sample raw_cutoff history_cutoff row =
    eqb row.interval_seconds 5 && ltb row.recorded_at raw_cutoff
    || ltb row.recorded_at history_cutoff

unfoldable pub delete_expired_host_samples :
    ℕ → ℕ → List HostResourceSample → List HostResourceSample
delete_expired_host_samples raw_cutoff history_cutoff rows =
    keep_if (λ row. not (is_expired_sample raw_cutoff history_cutoff row)) rows

-- Scanning one column, and one row, into int64 fields.
abbrev pub scan : Number → Option ℕ
scan (integer n) = some n
scan (fraction sum count) = none

unfoldable pub scan_row : HostResourceSample → Option HostSample
scan_row row = do
  used ← scan row.memory_used_bytes
  available ← scan row.memory_available_bytes
  disk_used ← scan row.disk_used_bytes
  disk_available ← scan row.disk_available_bytes
  read ← scan row.disk_read_bytes
  write ← scan row.disk_write_bytes
  some (record {
    recorded_at = row.recorded_at;
    interval_seconds = row.interval_seconds;
    cpu_percent = row.cpu_percent;
    memory_used_bytes = used;
    memory_available_bytes = available;
    disk_used_bytes = disk_used;
    disk_available_bytes = disk_available;
    disk_read_bytes = read;
    disk_write_bytes = write;
    load_one = row.load_one;
    temperature_celsius = row.temperature_celsius;
  })

unfoldable pub scan_rows : List HostResourceSample → Option (List HostSample)
scan_rows [] = some []
scan_rows (row ∷ rows) = do sample ← scan_row row; samples ← scan_rows rows; some (sample ∷ samples)

-- ORDER BY recorded_at
unfoldable pub insert_by_time :
    HostResourceSample → List HostResourceSample → List HostResourceSample
insert_by_time row [] = row ∷ []
insert_by_time row (r ∷ rows) =
    let rest = insert_by_time row rows in
    if ltb r.recorded_at row.recorded_at then r ∷ rest else row ∷ r ∷ rows

unfoldable pub by_time : List HostResourceSample → List HostResourceSample
unfolding insert_by_time
by_time [] = []
by_time (row ∷ rows) = insert_by_time row (by_time rows)

abbrev pub in_range : ℕ → ℕ → ℕ → HostResourceSample → Bool
in_range interval from to row =
    eqb row.interval_seconds interval && leb from row.recorded_at && leb row.recorded_at to

-- `none` is an error of the scan.
unfoldable pub list_host_samples : ℕ → ℕ → ℕ → List HostResourceSample → Option (List HostSample)
list_host_samples interval from to rows =
    scan_rows (by_time (keep_if (in_range interval from to) rows))

-- `none` is sql.ErrNoRows.
unfoldable pub earliest_of : List HostResourceSample → Option ℕ
earliest_of [] = none
earliest_of (row ∷ rows) = some row.recorded_at

unfoldable pub get_earliest_host_sample_time : List HostResourceSample → Option ℕ
get_earliest_host_sample_time rows = earliest_of (by_time rows)
