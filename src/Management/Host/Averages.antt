-- ===== src/Management/Host/Averages.antt =====
-- internal/management/host.go: what the history of the host shows of a rolled up minute.
use elastic_fruit_runner.Base.{
  ℕ, ◌+◌, ◌-◌, ◌*◌, ◌%◌, ◌≤◌, ◌<◌, ◌≡◌, ◌≢◌, refl, true, false, ◌&&◌, not, none, List, [], ◌∷◌,
  arith, eqb, keep_if, length, le→ltb, Option-cases, inl, inr,
}
use elastic_fruit_runner.Storage.Samples.{
  HostResourceSample, in_minute, in_range, column, sum_of, average, minute_row, rollup_host_minute,
  scan_row, scan_rows, insert_by_time, by_time, list_host_samples,
}
use elastic_fruit_runner.Management.Host.{
  World, HostStore, second, raw_host_retention, rolls_up, rollup_host_minute_at, read_host_samples,
}

insert_by_time-unscanned :
    (row : HostResourceSample) (rows : List HostResourceSample)
    → scan_row row ≡ none
    → scan_rows (insert_by_time row rows) ≡ none
unfolding scan_rows insert_by_time
insert_by_time-unscanned row [] h = ground (arith, h)
insert_by_time-unscanned row (r ∷ rows) h =
    let rest = insert_by_time-unscanned row rows h in
    elim (Option-cases (scan_row r)) [
      | inl broken ↦ ground (arith, h, broken)
      | inr (sample, scanned) ↦ ground (arith, h, rest, scanned)
    ]

minute_row-unscanned :
    (average_real : List ℕ → ℕ) (start : ℕ) (raw : List HostResourceSample)
    → let used = column (λ row. row.memory_used_bytes) raw in
      sum_of used % length used ≢ 0
      → 0 < length used
      → scan_row (minute_row average_real start raw) ≡ none
unfolding scan_row minute_row average
minute_row-unscanned average_real start raw h some_rows = ground (arith, h, some_rows)

in_range-minute_row :
    (average_real : List ℕ → ℕ) (start from to : ℕ) (raw : List HostResourceSample)
    → from ≤ start
    → start ≤ to
    → in_range 60 from to (minute_row average_real start raw) ≡ true
unfolding minute_row
in_range-minute_row average_real start from to raw starts ends = ground (arith, starts, ends)

list_host_samples-unscanned :
    (average_real : List ℕ → ℕ) (start end from to : ℕ) (rows : List HostResourceSample)
    → let used = column (λ row. row.memory_used_bytes) (keep_if (in_minute start end) rows) in
      0 < length used
      → sum_of used % length used ≢ 0
      → from ≤ start
      → start ≤ to
      → list_host_samples 60 from to (rollup_host_minute average_real start end rows) ≡ none
unfolding rollup_host_minute list_host_samples keep_if by_time
list_host_samples-unscanned average_real start end from to rows some_rows uneven starts ends =
    let row = minute_row average_real start (keep_if (in_minute start end) rows) in
    let others = keep_if (λ r. not (eqb r.recorded_at start && eqb r.interval_seconds 60)) rows in
    let inside : in_range 60 from to row ≡ true =
      in_range-minute_row average_real start from to (keep_if (in_minute start end) rows) starts
        ends in
    rw inside (
      insert_by_time-unscanned row (by_time (keep_if (in_range 60 from to) others)) (
        minute_row-unscanned average_real start (keep_if (in_minute start end) rows) uneven
          some_rows))

-- When the average of the memory in use over the raw samples of a minute is no whole number, the
-- rollup of that minute hides the whole history: every range of minutes around it reads as empty,
-- since the driver cannot scan the average into an integer.
pub rollup_hides_history :
    (w : World) (now from to : ℕ) (s : HostStore) (later : ℕ)
    → w.fails rolls_up 0 0 ≡ false
    → let start = now - now % (60 * second) - 60 * second in
      let raw = keep_if (in_minute start (start + 60 * second)) s.host_samples in
      let used = column (λ row. row.memory_used_bytes) raw in
      0 < length used
      → sum_of used % length used ≢ 0
      → from ≤ start
      → start ≤ to
      → from ≤ later - raw_host_retention
      → read_host_samples false false later from to (rollup_host_minute_at w now s) ≡ ([], none)
unfolding read_host_samples rollup_host_minute_at
rollup_hides_history w now from to s later works some_rows uneven starts ends old =
    let start = now - now % (60 * second) - 60 * second in
    let coarse = le→ltb (later - raw_host_retention) from old in
    let hidden =
      list_host_samples-unscanned w.average_real start (start + 60 * second) from to s.host_samples
        some_rows uneven starts ends in
    rw works (rw coarse (rw hidden refl))
