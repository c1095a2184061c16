-- ===== src/Controller/Tracker/Counting.antt =====
-- runnerstate.go: how the methods change the number of tracked runners, and the names that
-- `removeAll`, `removeIdleOlderThan` and `Snapshot` give out.
use elastic_fruit_runner.Base.{
  ◌+◌, length-insert, length-delete, ◌≤◌, ◌≡◌, refl, ◌∙◌, false, String, List, [], ◌∷◌, arith,
  length, length-append, length-map, eq_iff, if◌then◌else◌, Map, lookup, delete, keys, Distinct,
  delete_absent, length-insert, contains, is_some, Bool-cases, inl, inr, delete-delete,
  contains-keys, contains-append, contains_self, ◌||◌,
}
use elastic_fruit_runner.Controller.Tracker.{
  Time, Duration, RunnerTracker, mark_starting, mark_idle, mark_busy, remove, remove_all,
  remove_idle_older_than, collect_expired, delete_each, expired_at, count, snapshot,
}
use elastic_fruit_runner.Controller.Tracker.Phases.{
  IsWellFormed, collect_expired_absent, contains-collect_expired, is_expired,
}

-- What the reaper leaves of the idle map.
pub unexpired : Time → Duration → Map Time → Map Time
unexpired now timeout [] = []
unexpired now timeout ((name, since) ∷ m) =
    let rest = unexpired now timeout m in
    if expired_at now timeout since then rest else (name, since) ∷ rest

delete_each-cons :
    (names : List String) (k : String) (v : Time) (m : Map Time)
    → delete_each names ((k, v) ∷ m)
      ≡ (if contains k names then delete_each names m else (k, v) ∷ delete_each names m)
unfolding delete_each delete contains
delete_each-cons [] k v m = refl
delete_each-cons (n ∷ names) k v m =
    ground (arith, eq_iff n k, eq_iff k n, delete_each-cons names k v (delete n m))

delete_each_absent :
    (n : String) (names : List String) (m : Map Time)
    → is_some (lookup n m) ≡ false
    → delete_each (n ∷ names) m ≡ delete_each names m
unfolding delete_each
delete_each_absent n names m h = rw (delete_absent n m (ground (arith))) refl

-- The reaper's two loops leave what is not expired, in place.
delete_each-collect_expired :
    (now : Time) (timeout : Duration) (m : Map Time)
    → Distinct m
    → delete_each (collect_expired now timeout m) m ≡ unexpired now timeout m
unfolding collect_expired unexpired
delete_each-collect_expired now timeout [] d = unfold delete_each in refl
delete_each-collect_expired now timeout ((n, since) ∷ m) d =
    let ih = delete_each-collect_expired now timeout m d.1 in
    let absent = collect_expired_absent now timeout n m d.0 in
    elim (Bool-cases (expired_at now timeout since)) [
      | inl x ↦
          rw
            (
              x,
              delete_each-cons (n ∷ collect_expired now timeout m) n since m,
              contains_self n (collect_expired now timeout m),
            )
            (delete_each_absent n (collect_expired now timeout m) m d.0 ∙ ih)
      | inr x ↦ rw (x, delete_each-cons (collect_expired now timeout m) n since m, absent, ih)
    ]

length-collect_expired :
    (now : Time) (timeout : Duration) (m : Map Time)
    → length (unexpired now timeout m) + length (collect_expired now timeout m) ≡ length m
unfolding collect_expired unexpired
length-collect_expired now timeout [] = refl
length-collect_expired now timeout ((n, since) ∷ m) =
    ground (arith, length-collect_expired now timeout m)

-- On a well-formed tracker, one pass of the reaper gives out exactly the runners that were idle for longer than the
-- timeout, keeps the other idle ones in place and every other phase, and no runner is counted
-- twice or lost between what it gives out and what it keeps.
pub remove_idle_older_than_sweep :
    (now : Time) (timeout : Duration) (r : RunnerTracker)
    → IsWellFormed r
    → let (r', names) = remove_idle_older_than now timeout r in
      (r'.idle ≡ unexpired now timeout r.idle)
      × (r'.preparing ≡ r.preparing)
      × (r'.busy ≡ r.busy)
      × (count r' + length names ≡ count r)
      × ((name : String) → contains name names ≡ is_expired now timeout (lookup name r.idle))
unfolding remove_idle_older_than
remove_idle_older_than_sweep now timeout r w =
    let swept = delete_each-collect_expired now timeout r.idle w.idle_distinct in
    (
      swept,
      refl,
      refl,
      rw swept (omega (arith, length-collect_expired now timeout r.idle)),
      λ name. contains-collect_expired now timeout name r.idle w.idle_distinct,
    )

-- `removeAll` leaves nobody tracked, and gives out every idle and every busy runner once for each
-- phase, and the number of those that were being prepared.
remove_all_drains :
    (r : RunnerTracker)
    → let (r', names, preparing_count) = remove_all r in
      (count r' ≡ 0)
      × (length names + preparing_count ≡ count r)
      × ((name : String)
          → contains name names ≡ (is_some (lookup name r.idle) || is_some (lookup name r.busy)))
unfolding remove_all
remove_all_drains r = (
  refl,
  omega (
    arith,
    length-append (keys r.idle) (keys r.busy),
    length-map (λ (e : String × Time). e.0) r.idle,
    length-map (λ (e : String × Time). e.0) r.busy,
  ),
  λ name. simp (contains-append, contains-keys),
)

-- `Remove` is idempotent.
pub remove-remove :
    (name : String) (r : RunnerTracker) → remove name (remove name r) ≡ remove name r
unfolding remove
remove-remove name r = simp delete-delete

pub length-snapshot : (r : RunnerTracker) → length (snapshot r) ≡ count r
unfolding snapshot
length-snapshot r = simp (length-append, length-map) (omega arith)

-- What one call does to the number of tracked runners.
module _ (name : String) (now : Time) (r : RunnerTracker) where
  pub count-mark_starting :
      count (mark_starting name now r)
      ≡ (if is_some (lookup name r.preparing) then count r else count r + 1)
  unfolding mark_starting
  count-mark_starting = ground (arith, length-insert name now r.preparing)

  -- A runner that is in no phase is counted anew.
  pub count-mark_idle-le :
      IsWellFormed r
      → count (mark_idle name now r) ≤ (
          if is_some (lookup name r.preparing)
            || (is_some (lookup name r.idle) || is_some (lookup name r.busy))
          then count r
          else count r + 1)
  unfolding mark_idle
  count-mark_idle-le w = ground (
    arith,
    length-delete name r.preparing w.preparing_distinct,
    length-insert name now r.idle,
    length-delete name r.busy w.busy_distinct,
  )

  -- One that is being prepared is counted twice.
  pub count-mark_busy-le :
      IsWellFormed r
      → count (mark_busy name now r) ≤ (
          if is_some (lookup name r.idle) || is_some (lookup name r.busy)
          then count r
          else count r + 1)
  unfolding mark_busy
  count-mark_busy-le w =
      ground (arith, length-delete name r.idle w.idle_distinct, length-insert name now r.busy)

pub count-remove-le :
    (name : String) (r : RunnerTracker) → IsWellFormed r → count (remove name r) ≤ count r
unfolding remove
count-remove-le name r w = ground (
  arith,
  length-delete name r.preparing w.preparing_distinct,
  length-delete name r.idle w.idle_distinct,
  length-delete name r.busy w.busy_distinct,
)
