-- ===== src/Controller/System/Surplus.antt =====
-- The runners that the tracker counts although `HandleDesiredRunnerCount` did not ask for them.
use elastic_fruit_runner.Base.{
  ℕ, ◌+◌, Bool, ◌||◌, String, Option, List, [], ◌∷◌, lookup, is_some, if◌then◌else◌,
}
use elastic_fruit_runner.Controller.Tracker.{RunnerTracker}
use elastic_fruit_runner.Controller.Scaler.{jit_failed, run_failed, run_ok}
use elastic_fruit_runner.Controller.System.{
  System, Event, desired, job_started, job_completed, start_ended, reaper_ticked, listener_ended,
  fire,
}
use elastic_fruit_runner.Controller.System.Leaks.{is_tracked}

-- Whether the tracker knows a runner in any phase.
abbrev pub is_known : RunnerTracker → String → Bool
is_known r name = is_some (lookup name r.preparing) || is_tracked r name

-- The runners that an event adds to the count beyond those that `HandleDesiredRunnerCount` asks
-- for: one where a job starts on a runner that is neither idle nor busy, because it is still being
-- prepared or was already removed, and one where a start succeeds of a runner that was already
-- removed.
abbrev pub surplus : RunnerTracker → Event → ℕ
surplus r (desired wanted suffix clock) = 0
surplus r (job_started job now) = if is_tracked r job.runner_name then 0 else 1
surplus r (job_completed job) = 0
surplus r (start_ended name jit_failed now) = 0
surplus r (start_ended name (run_failed jit) now) = 0
surplus r (start_ended name (run_ok jit) now) = if is_known r name then 0 else 1
surplus r (reaper_ticked now) = 0
surplus r listener_ended = 0

module _ (github : String → Option ℕ) where
  -- Events one after the other, and the surplus of each where it comes.
  unfoldable pub fire_all : System → List Event → System
  fire_all s [] = s
  fire_all s (e ∷ es) = fire_all (fire github s e) es

  unfoldable pub surplus_all : System → List Event → ℕ
  surplus_all s [] = 0
  surplus_all s (e ∷ es) = surplus s.controller.runners e + surplus_all (fire github s e) es
