-- ===== src/Controller/System.antt =====
-- A controller with its goroutines: scaler.go's handlers, reaper and shutdown, called in any order
-- by the listener, the ticker and the `startRunner` goroutines. Each handler touches the tracker
-- in one critical section, or in sections that no other call can tell from one, so a run of the
-- program is a sequence of events.
pub mod Effects
pub mod Leaks
pub mod Surplus
pub mod Capacity
pub mod Races
use elastic_fruit_runner.Base.{
  ℕ, zero, suc, ◌<◌, ◌≡◌, ◌≢◌, Bool, true, false, String, Option, none, some, List, [], ◌∷◌,
  contains, erase,
}
use elastic_fruit_runner.Messages.{JobStarted, JobCompleted}
use elastic_fruit_runner.Controller.Tracker.{Time}
use elastic_fruit_runner.Controller.Scaler.{
  ScaleSetController, Effect, StartOutcome, spawn, generate_jit, run_backend, cleanup,
  remove_runner, record_started, record_completed, handle_desired_runner_count, handle_job_started,
  handle_job_completed, start_runner, shutdown, reap_expired_idle_runners, runner_name, needed,
}

-- `in_flight` has the runners whose `startRunner` has not ended, `launched` those that the backend
-- started, `cleaned` those for which the backend's `Cleanup` was called, the latest first.
pub record System : Type 0 where
  pub controller : ScaleSetController
  pub in_flight : List String
  pub launched : List String
  pub cleaned : List String

unfoldable pub perform : Effect → System → System
perform (spawn ctx name) s = record s { in_flight = name ∷ s.in_flight }
perform (run_backend name jit true) s = record s { launched = name ∷ s.launched }
perform (run_backend name jit false) s = s
perform (cleanup name) s = record s { cleaned = name ∷ s.cleaned }
perform (generate_jit name id) s = s
perform (remove_runner id) s = s
perform (record_started set backend job) s = s
perform (record_completed job) s = s

unfoldable pub perform_all : List Effect → System → System
perform_all [] s = s
perform_all (e ∷ es) s = perform_all es (perform e s)

pub data Event : Type 0 where
  desired : ℕ → (ℕ → String) → (ℕ → Time) → Event
  job_started : JobStarted → Time → Event
  job_completed : JobCompleted → Event
  start_ended : String → StartOutcome → Time → Event
  reaper_ticked : Time → Event
  listener_ended : Event

unfoldable pub settle : System → ScaleSetController × List Effect → System
settle s (d, effects) = perform_all effects (record s { controller = d })

module _ (github : String → Option ℕ) where
  unfoldable pub fire : System → Event → System
  unfolding settle
  fire s (desired count suffix clock) =
      let (d, answer, effects) = handle_desired_runner_count s.controller count suffix clock in
      settle s (d, effects)
  fire s (job_started job now) = settle s (handle_job_started s.controller job now)
  fire s (job_completed job) = settle s (handle_job_completed s.controller job)
  fire s (start_ended name outcome now) =
      settle (record s { in_flight = erase name s.in_flight })
        (start_runner github s.controller name outcome now)
  fire s (reaper_ticked now) = settle s (reap_expired_idle_runners github s.controller now)
  fire s listener_ended = settle s (shutdown github s.controller)

-- A drawn name is new: no runner had it before, and no other round of the loop draws it.
pub record IsNew (s : System) (suffix : ℕ → String) (n : ℕ) : Type 0 where
  pub not_in_flight :
      (i : ℕ) → i < n → contains (runner_name s.controller.rs_cfg (suffix i)) s.in_flight ≡ false
  pub not_launched :
      (i : ℕ) → i < n → contains (runner_name s.controller.rs_cfg (suffix i)) s.launched ≡ false
  pub distinct :
      (i j : ℕ)
      → i < j
      → j < n
      → runner_name s.controller.rs_cfg (suffix i) ≢ runner_name s.controller.rs_cfg (suffix j)

-- What an event needs: a goroutine that ends was in flight.
abbrev pub IsEnabled : System → Event → Type 0
IsEnabled s (desired count suffix clock) = Unit {0}
IsEnabled s (job_started job now) = Unit {0}
IsEnabled s (job_completed job) = Unit {0}
IsEnabled s (start_ended name outcome now) = contains name s.in_flight ≡ true
IsEnabled s (reaper_ticked now) = Unit {0}
IsEnabled s listener_ended = Unit {0}

-- Whether the random names of an event are new, where it draws any.
abbrev pub DrawsNew : System → Event → Type 0
DrawsNew s (desired count suffix clock) = IsNew s suffix (needed s.controller count)
DrawsNew s (job_started job now) = Unit {0}
DrawsNew s (job_completed job) = Unit {0}
DrawsNew s (start_ended name outcome now) = Unit {0}
DrawsNew s (reaper_ticked now) = Unit {0}
DrawsNew s listener_ended = Unit {0}

module _ (github : String → Option ℕ) where
  pub data Reach (s : System) : System → Type 0 where
    here : Reach s s
    next : {t : System} (e : Event) → Reach s t → IsEnabled t e → Reach s (fire github t e)

  -- No name that was drawn on the way had been drawn before.
  unfoldable pub AllNew : {s t : System} → Reach s t → Type 0
  AllNew here = Unit {0}
  AllNew (next {t} e r h) = AllNew r × DrawsNew t e
