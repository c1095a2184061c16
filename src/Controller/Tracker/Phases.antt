-- ===== src/Controller/Tracker/Phases.antt =====
-- runnerstate.go seen one runner at a time: what the three maps say of one name, and how each
-- method changes that. `run` plays any sequence of calls.
use elastic_fruit_runner.Base.{
  ◌≡◌, refl, sym, ◌∙◌, Bool, false, String, Option, none, some, List, [], ◌∷◌, arith, eq_iff,
  if◌then◌else◌, ◌==◌, Map, lookup, delete, Distinct, insert-Distinct, delete-Distinct,
  lookup-insert, lookup-delete, contains, Bool-cases, is_some, inl, inr,
}
use elastic_fruit_runner.Controller.Tracker.{
  Time, Duration, RunnerTracker, mark_starting, mark_idle, mark_busy, remove, remove_all,
  remove_idle_older_than, collect_expired, delete_each, expired_at,
}

-- A call of one of the methods that move runners between the maps.
pub data Call : Type 0 where
  starting becomes_idle becomes_busy : String → Time → Call
  removed : String → Call
  all_removed : Call
  reaped : Time → Duration → Call

unfoldable pub apply : RunnerTracker → Call → RunnerTracker
apply r (starting name now) = mark_starting name now r
apply r (becomes_idle name now) = mark_idle name now r
apply r (becomes_busy name now) = mark_busy name now r
apply r (removed name) = remove name r
apply r all_removed = (remove_all r).0
apply r (reaped now timeout) = (remove_idle_older_than now timeout r).0

unfoldable pub run : RunnerTracker → List Call → RunnerTracker
run r [] = r
run r (c ∷ cs) = run (apply r c) cs

pub record IsWellFormed (r : RunnerTracker) : Type 0 where
  pub preparing_distinct : Distinct r.preparing
  pub idle_distinct : Distinct r.idle
  pub busy_distinct : Distinct r.busy

pub delete_each-Distinct :
    (names : List String) (m : Map Time) → Distinct m → Distinct (delete_each names m)
unfolding delete_each
delete_each-Distinct [] m d = d
delete_each-Distinct (name ∷ names) m d =
    delete_each-Distinct names (delete name m) (delete-Distinct name m d)

pub apply-IsWellFormed : (r : RunnerTracker) (c : Call) → IsWellFormed r → IsWellFormed (apply r c)
unfolding apply mark_starting mark_idle mark_busy remove remove_all remove_idle_older_than
apply-IsWellFormed r (starting name now) w = record {
  preparing_distinct = insert-Distinct name now r.preparing w.preparing_distinct;
  idle_distinct = w.idle_distinct;
  busy_distinct = w.busy_distinct;
}
apply-IsWellFormed r (becomes_idle name now) w = record {
  preparing_distinct = delete-Distinct name r.preparing w.preparing_distinct;
  idle_distinct = insert-Distinct name now r.idle w.idle_distinct;
  busy_distinct = delete-Distinct name r.busy w.busy_distinct;
}
apply-IsWellFormed r (becomes_busy name now) w = record {
  preparing_distinct = w.preparing_distinct;
  idle_distinct = delete-Distinct name r.idle w.idle_distinct;
  busy_distinct = insert-Distinct name now r.busy w.busy_distinct;
}
apply-IsWellFormed r (removed name) w = record {
  preparing_distinct = delete-Distinct name r.preparing w.preparing_distinct;
  idle_distinct = delete-Distinct name r.idle w.idle_distinct;
  busy_distinct = delete-Distinct name r.busy w.busy_distinct;
}
apply-IsWellFormed r all_removed w = record {
  preparing_distinct = tt;
  idle_distinct = tt;
  busy_distinct = tt;
}
apply-IsWellFormed r (reaped now timeout) w = record {
  preparing_distinct = w.preparing_distinct;
  idle_distinct = delete_each-Distinct (collect_expired now timeout r.idle) r.idle w.idle_distinct;
  busy_distinct = w.busy_distinct;
}

-- What the tracker knows of one runner.
pub record Phases : Type 0 where
  pub preparing : Option Time
  pub idle : Option Time
  pub busy : Option Time

unfoldable pub phases : RunnerTracker → String → Phases
phases r name = record {
  preparing = lookup name r.preparing;
  idle = lookup name r.idle;
  busy = lookup name r.busy;
}

abbrev pub unknown : Phases
unknown = record { preparing = none; idle = none; busy = none }

abbrev pub stays_idle : Time → Duration → Option Time → Option Time
stays_idle now timeout none = none
stays_idle now timeout (some since) = if expired_at now timeout since then none else some since

-- The life of one runner: a call that names another runner does not touch it.
unfoldable pub react : String → Phases → Call → Phases
react name p (starting n now) = if n == name then record p { preparing = some now } else p
react name p (becomes_idle n now) =
    if n == name then record { preparing = none; idle = some now; busy = none } else p
react name p (becomes_busy n now) =
    if n == name then record p { idle = none; busy = some now } else p
react name p (removed n) = if n == name then unknown else p
react name p all_removed = unknown
react name p (reaped now timeout) = record p { idle = stays_idle now timeout p.idle }

unfoldable pub react_all : String → Phases → List Call → Phases
react_all name p [] = p
react_all name p (c ∷ cs) = react_all name (react name p c) cs

pub lookup-delete_each :
    (name : String) (names : List String) (m : Map Time)
    → lookup name (delete_each names m) ≡ (if contains name names then none else lookup name m)
unfolding delete_each contains
lookup-delete_each name [] m = refl
lookup-delete_each name (n ∷ names) m =
    ground (arith, lookup-delete_each name names (delete n m), lookup-delete n name m)

abbrev pub is_expired : Time → Duration → Option Time → Bool
is_expired now timeout none = false
is_expired now timeout (some since) = expired_at now timeout since

pub collect_expired_absent :
    (now : Time) (timeout : Duration) (name : String) (m : Map Time)
    → is_some (lookup name m) ≡ false
    → contains name (collect_expired now timeout m) ≡ false
unfolding collect_expired contains lookup
collect_expired_absent now timeout name [] h = refl
collect_expired_absent now timeout name ((n, since) ∷ m) h = elim (Bool-cases (n == name)) [
  | inl e ↦ absurd (ground arith)
  | inr e ↦
      let rest = collect_expired_absent now timeout name m (ground arith) in
      elim (Bool-cases (expired_at now timeout since)) [
        | inl x ↦ rw (x, e) rest
        | inr x ↦ rw x rest
      ]
]

-- One pass of the reaper collects a runner exactly if it is idle for longer than the timeout.
pub contains-collect_expired :
    (now : Time) (timeout : Duration) (name : String) (m : Map Time)
    → Distinct m
    → contains name (collect_expired now timeout m) ≡ is_expired now timeout (lookup name m)
unfolding collect_expired contains lookup
contains-collect_expired now timeout name [] d = refl
contains-collect_expired now timeout name ((n, since) ∷ m) d =
    let rest = contains-collect_expired now timeout name m d.1 in
    elim (Bool-cases (n == name)) [
      | inl e ↦
          let absent = collect_expired_absent now timeout n m d.0 in
          let same = (eq_iff n name).0 e in
          elim (Bool-cases (expired_at now timeout since)) [
            | inl x ↦ rw (x, e) (sym x)
            | inr x ↦ rw (x, e, ← same) (absent ∙ sym x)
          ]
      | inr e ↦ elim (Bool-cases (expired_at now timeout since)) [
        | inl x ↦ rw (x, e) rest
        | inr x ↦ rw (x, e) rest
      ]
    ]

phases-apply :
    (r : RunnerTracker) (c : Call) (name : String)
    → IsWellFormed r
    → phases (apply r c) name ≡ react name (phases r name) c
unfolding phases apply react mark_starting mark_idle mark_busy remove remove_all
    remove_idle_older_than lookup
phases-apply r (starting n now) name w = ground (arith, lookup-insert n name now r.preparing)
phases-apply r (becomes_idle n now) name w = ground (
  arith,
  lookup-delete n name r.preparing,
  lookup-insert n name now r.idle,
  lookup-delete n name r.busy,
)
phases-apply r (becomes_busy n now) name w =
    ground (arith, lookup-delete n name r.idle, lookup-insert n name now r.busy)
phases-apply r (removed n) name w = ground (
  arith,
  lookup-delete n name r.preparing,
  lookup-delete n name r.idle,
  lookup-delete n name r.busy,
)
phases-apply r all_removed name w = refl
phases-apply r (reaped now timeout) name w = ground (
  arith,
  lookup-delete_each name (collect_expired now timeout r.idle) r.idle,
  contains-collect_expired now timeout name r.idle w.idle_distinct,
)

-- After any calls on a well-formed tracker, what it knows of a runner is what the calls that
-- concern this runner made of it, in their order, and the tracker is still well formed.
pub phases-run :
    (r : RunnerTracker) (cs : List Call) (name : String)
    → IsWellFormed r
    → (phases (run r cs) name ≡ react_all name (phases r name) cs) × IsWellFormed (run r cs)
unfolding run react_all
phases-run r [] name w = (refl, w)
phases-run r (c ∷ cs) name w =
    let (same, formed) = phases-run (apply r c) cs name (apply-IsWellFormed r c w) in
    (rw (← phases-apply r c name w) same, formed)
