-- ===== src/Controller/Tracker.antt =====
-- internal/controller/runnerstate.go and types.go: the phase of each runner, in three maps from
-- the runner's name to a time. Each method runs under the tracker's mutex, so it is one step.
-- Times are nanoseconds from an epoch; `time.Now()` is an argument of the method that reads it.
-- The three maps are never nil after `NewRunnerTracker`, so the nil checks do not show.
pub mod Phases
pub mod Counting
use elastic_fruit_runner.Base.{
  ℕ, ◌+◌, Bool, String, Option, none, List, [], ◌∷◌, ◌++◌, map, ltb, length, Map, insert, delete,
  keys, if◌then◌else◌,
}

abbrev pub Time : Type 0
Time = ℕ

abbrev pub Duration : Type 0
Duration = ℕ

pub data RunnerState : Type 0 where
  state_preparing state_idle state_busy : RunnerState

pub record RunnerSnapshot : Type 0 where
  pub name : String
  pub state : RunnerState
  pub since : Time

-- `runner_ctx` names the context that `setRunnerCtx` stored.
pub record RunnerTracker : Type 0 where
  pub runner_ctx : Option ℕ
  pub preparing : Map Time
  pub idle : Map Time
  pub busy : Map Time

abbrev pub new_runner_tracker : RunnerTracker
new_runner_tracker = record { runner_ctx = none; preparing = []; idle = []; busy = [] }

pub record RunnerCounts : Type 0 where
  pub preparing : ℕ
  pub idle : ℕ
  pub busy : ℕ

abbrev pub total : RunnerCounts → ℕ
total c = c.preparing + c.idle + c.busy

unfoldable pub set_runner_ctx : Option ℕ → RunnerTracker → RunnerTracker
set_runner_ctx ctx r = record r { runner_ctx = ctx }

abbrev pub counts : RunnerTracker → RunnerCounts
counts r = record { preparing = length r.preparing; idle = length r.idle; busy = length r.busy }

abbrev pub count : RunnerTracker → ℕ
count r = total (counts r)

unfoldable pub mark_starting : String → Time → RunnerTracker → RunnerTracker
mark_starting name now r = record r { preparing = insert name now r.preparing }

unfoldable pub mark_idle : String → Time → RunnerTracker → RunnerTracker
mark_idle name now r = record r {
  preparing = delete name r.preparing;
  busy = delete name r.busy;
  idle = insert name now r.idle;
}

unfoldable pub mark_busy : String → Time → RunnerTracker → RunnerTracker
mark_busy name now r = record r { idle = delete name r.idle; busy = insert name now r.busy }

unfoldable pub remove : String → RunnerTracker → RunnerTracker
remove name r = record r {
  preparing = delete name r.preparing;
  idle = delete name r.idle;
  busy = delete name r.busy;
}

unfoldable pub remove_all : RunnerTracker → RunnerTracker × List String × ℕ
remove_all r = (
  record r { preparing = []; idle = []; busy = [] },
  keys r.idle ++ keys r.busy,
  length r.preparing,
)

-- `now.Sub(since) > timeout`, for a timeout that is not negative.
abbrev pub expired_at : Time → Duration → Time → Bool
expired_at now timeout since = ltb (since + timeout) now

unfoldable pub collect_expired : Time → Duration → Map Time → List String
collect_expired now timeout [] = []
collect_expired now timeout ((name, since) ∷ m) =
    let rest = collect_expired now timeout m in
    if expired_at now timeout since then name ∷ rest else rest

unfoldable pub delete_each : List String → Map Time → Map Time
delete_each [] m = m
delete_each (name ∷ names) m = delete_each names (delete name m)

unfoldable pub remove_idle_older_than :
    Time → Duration → RunnerTracker → RunnerTracker × List String
remove_idle_older_than now timeout r =
    let expired = collect_expired now timeout r.idle in
    (record r { idle = delete_each expired r.idle }, expired)

abbrev snapshot_of : RunnerState → Map Time → List RunnerSnapshot
snapshot_of state m = map (λ e. record { name = e.0; state = state; since = e.1 }) m

unfoldable pub snapshot : RunnerTracker → List RunnerSnapshot
snapshot r =
    snapshot_of state_preparing r.preparing
    ++ (snapshot_of state_idle r.idle ++ snapshot_of state_busy r.busy)
