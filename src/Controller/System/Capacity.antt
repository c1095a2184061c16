-- ===== src/Controller/System/Capacity.antt =====
-- The cap on the number of runners, `max_runners` of the runner set, whatever GitHub, the listener
-- and the goroutines do.
use elastic_fruit_runner.Base.{
  ℕ, zero, suc, ◌+◌, ◌≤◌, ◌≡◌, refl, ap, ◌∙◌, true, false, String, Option, List, [], ◌∷◌, arith,
  erase,
}
use elastic_fruit_runner.Messages.{JobStarted}
use elastic_fruit_runner.Controller.Tracker.{
  RunnerTracker, mark_starting, remove, count, remove_all,
}
use elastic_fruit_runner.Controller.Tracker.Phases.{
  IsWellFormed, apply, apply-IsWellFormed, starting, becomes_idle, becomes_busy, removed, reaped,
  all_removed,
}
use elastic_fruit_runner.Controller.Tracker.Counting.{
  count-mark_idle-le, count-mark_busy-le, count-remove-le, remove_idle_older_than_sweep,
}
use elastic_fruit_runner.Controller.Scaler.{
  RunnerSetConfig, ScaleSetController, Effect, StartOutcome, spawn, generate_jit, run_backend,
  cleanup, remove_runner, record_started, record_completed, jit_failed, run_failed, run_ok,
  spawn_runners, handle_desired_runner_count, handle_job_started, handle_job_completed,
  start_runner, shutdown, reap_expired_idle_runners, runner_name, needed,
}
use elastic_fruit_runner.Controller.Scaler.Desired.{spawn_runners_bounds}
use elastic_fruit_runner.Controller.System.{
  System, Event, desired, job_started, job_completed, start_ended, reaper_ticked, listener_ended,
  perform, perform_all, settle, fire,
}
use elastic_fruit_runner.Controller.System.Surplus.{surplus, fire_all, surplus_all}

-- What holds of the controller after an event, when `k` surplus runners came before it.
record IsWithin (cfg : RunnerSetConfig) (k : ℕ) (d : ScaleSetController) : Type 0 where
  pub same_set : d.rs_cfg ≡ cfg
  pub well_formed : IsWellFormed d.runners
  pub capped : count d.runners ≤ cfg.max_runners + k

IsWithin-add_zero :
    (cfg : RunnerSetConfig) (k : ℕ) (d : ScaleSetController)
    → IsWithin cfg k d
    → IsWithin cfg (k + 0) d
IsWithin-add_zero cfg k d v = record {
  same_set = v.same_set;
  well_formed = v.well_formed;
  capped = omega (arith, v.capped);
}

perform-controller : (e : Effect) (s : System) → (perform e s).controller ≡ s.controller
unfolding perform
perform-controller (spawn ctx name) s = refl
perform-controller (run_backend name jit true) s = refl
perform-controller (run_backend name jit false) s = refl
perform-controller (cleanup name) s = refl
perform-controller (generate_jit name id) s = refl
perform-controller (remove_runner id) s = refl
perform-controller (record_started set backend job) s = refl
perform-controller (record_completed job) s = refl

perform_all-controller :
    (es : List Effect) (s : System) → (perform_all es s).controller ≡ s.controller
unfolding perform_all
perform_all-controller [] s = refl
perform_all-controller (e ∷ es) s = perform_all-controller es (perform e s) ∙ perform-controller e s

spawn_runners-IsWellFormed :
    (cfg : RunnerSetConfig) (ctx : Option ℕ) (suffix : ℕ → String) (clock : ℕ → ℕ) (n : ℕ)
    (r : RunnerTracker)
    → IsWellFormed r
    → IsWellFormed (spawn_runners cfg ctx suffix clock n r).0
unfolding spawn_runners apply
spawn_runners-IsWellFormed cfg ctx suffix clock zero r w = w
spawn_runners-IsWellFormed cfg ctx suffix clock (suc n) r w =
    let name = runner_name cfg (suffix n) in
    spawn_runners-IsWellFormed cfg ctx suffix clock n (mark_starting name (clock n) r)
      (apply-IsWellFormed r (starting name (clock n)) w)

-- What the handlers, before their effects, make of the controller.
module _ (github : String → Option ℕ) (cfg : RunnerSetConfig) (k : ℕ) (d : ScaleSetController)
    (v : IsWithin cfg k d) where
  desired-IsWithin :
      (wanted : ℕ) (suffix : ℕ → String) (clock : ℕ → ℕ)
      → IsWithin cfg k (handle_desired_runner_count d wanted suffix clock).0
  unfolding handle_desired_runner_count
  desired-IsWithin wanted suffix clock =
      let ctx = d.runners.runner_ctx in
      let n = needed d wanted in
      let bounds = spawn_runners_bounds d.rs_cfg ctx suffix clock n d.runners in
      let room = v.capped in
      let max = ap (λ (c : RunnerSetConfig). c.max_runners) v.same_set in
      record {
        same_set = v.same_set;
        well_formed =
            spawn_runners-IsWellFormed d.rs_cfg ctx suffix clock n d.runners v.well_formed;
        capped = omega arith;
      }

  job_started-IsWithin :
      (job : JobStarted) (now : ℕ)
      → IsWithin cfg (k + surplus d.runners (job_started job now)) (handle_job_started d job now).0
  unfolding handle_job_started apply
  job_started-IsWithin job now = record {
    same_set = v.same_set;
    well_formed = apply-IsWellFormed d.runners (becomes_busy job.runner_name now) v.well_formed;
    capped =
        ground (arith, v.capped, count-mark_busy-le job.runner_name now d.runners v.well_formed);
  }

  removed-IsWithin : (name : String) → IsWithin cfg k (record d { runners = remove name d.runners })
  unfolding apply
  removed-IsWithin name = record {
    same_set = v.same_set;
    well_formed = apply-IsWellFormed d.runners (removed name) v.well_formed;
    capped = omega (arith, v.capped, count-remove-le name d.runners v.well_formed);
  }

  start_ended-IsWithin :
      (name : String) (outcome : StartOutcome) (now : ℕ)
      → IsWithin cfg
          (k + surplus d.runners (start_ended name outcome now))
          (start_runner github d name outcome now).0
  unfolding start_runner apply
  start_ended-IsWithin name jit_failed now =
      IsWithin-add_zero cfg k (record d { runners = remove name d.runners }) (removed-IsWithin name)
  start_ended-IsWithin name (run_failed jit) now =
      IsWithin-add_zero cfg k (record d { runners = remove name d.runners }) (removed-IsWithin name)
  start_ended-IsWithin name (run_ok jit) now = record {
    same_set = v.same_set;
    well_formed = apply-IsWellFormed d.runners (becomes_idle name now) v.well_formed;
    capped = ground (arith, v.capped, count-mark_idle-le name now d.runners v.well_formed);
  }

  reaper_ticked-IsWithin : (now : ℕ) → IsWithin cfg k (reap_expired_idle_runners github d now).0
  unfolding reap_expired_idle_runners apply
  reaper_ticked-IsWithin now =
      let (swept, kept, busy_kept, total_kept, names) =
        remove_idle_older_than_sweep now d.idle_timeout d.runners v.well_formed in
      record {
        same_set = v.same_set;
        well_formed = apply-IsWellFormed d.runners (reaped now d.idle_timeout) v.well_formed;
        capped = omega (arith, v.capped, total_kept);
      }

  listener_ended-IsWithin : IsWithin cfg k (shutdown github d).0
  unfolding shutdown apply remove_all
  listener_ended-IsWithin = record {
    same_set = v.same_set;
    well_formed = apply-IsWellFormed d.runners all_removed v.well_formed;
    capped = omega arith;
  }

module _ (github : String → Option ℕ) (cfg : RunnerSetConfig) (k : ℕ) where
  settle-IsWithin :
      (s : System) (handled : ScaleSetController × List Effect)
      → IsWithin cfg k handled.0
      → IsWithin cfg k (settle s handled).controller
  unfolding settle
  settle-IsWithin s handled v =
      rw (perform_all-controller handled.1 (record s { controller = handled.0 })) v

module _ (github : String → Option ℕ) (cfg : RunnerSetConfig) where
  fire-IsWithin :
      (k : ℕ) (s : System) (e : Event)
      → IsWithin cfg k s.controller
      → IsWithin cfg (k + surplus s.controller.runners e) (fire github s e).controller
  unfolding fire handle_job_completed
  fire-IsWithin k s (desired wanted suffix clock) v =
      let (d, answer, effects) = handle_desired_runner_count s.controller wanted suffix clock in
      settle-IsWithin github cfg (k + 0) s (d, effects)
        (IsWithin-add_zero cfg k d
          (desired-IsWithin github cfg k s.controller v wanted suffix clock))
  fire-IsWithin k s (job_started job now) v =
      settle-IsWithin github cfg (k + surplus s.controller.runners (job_started job now)) s
        (handle_job_started s.controller job now)
        (job_started-IsWithin github cfg k s.controller v job now)
  fire-IsWithin k s (job_completed job) v =
      let handled = handle_job_completed s.controller job in
      settle-IsWithin github cfg (k + 0) s handled (
        IsWithin-add_zero cfg k handled.0
          (removed-IsWithin github cfg k s.controller v job.runner_name))
  fire-IsWithin k s (start_ended name outcome now) v =
      settle-IsWithin github cfg (k + surplus s.controller.runners (start_ended name outcome now))
        (record s { in_flight = erase name s.in_flight })
        (start_runner github s.controller name outcome now)
        (start_ended-IsWithin github cfg k s.controller v name outcome now)
  fire-IsWithin k s (reaper_ticked now) v =
      let handled = reap_expired_idle_runners github s.controller now in
      settle-IsWithin github cfg (k + 0) s handled
        (IsWithin-add_zero cfg k handled.0 (reaper_ticked-IsWithin github cfg k s.controller v now))
  fire-IsWithin k s listener_ended v =
      let handled = shutdown github s.controller in
      settle-IsWithin github cfg (k + 0) s handled
        (IsWithin-add_zero cfg k handled.0 (listener_ended-IsWithin github cfg k s.controller v))

  fire_all-IsWithin :
      (k : ℕ) (s : System) (es : List Event)
      → IsWithin cfg k s.controller
      → count (fire_all github s es).controller.runners
        ≤ cfg.max_runners + (k + surplus_all github s es)
  unfolding fire_all surplus_all
  fire_all-IsWithin k s [] v = omega (arith, v.capped)
  fire_all-IsWithin k s (e ∷ es) v =
      let later =
        fire_all-IsWithin (k + surplus s.controller.runners e) (fire github s e) es
          (fire-IsWithin k s e v) in
      omega arith

-- From a controller whose maps have distinct keys and that tracks at most `max_runners` runners, any
-- events at all in any order leave it with no more than `max_runners` and the surplus of these
-- events: one for each job that starts on a runner that is neither idle nor busy at that time, and
-- one for each start that succeeds of a runner that the tracker does not know any more. A runner
-- that is being prepared counts too.
pub count-fire_all :
    (github : String → Option ℕ) (s : System) (events : List Event)
    → IsWellFormed s.controller.runners
    → count s.controller.runners ≤ s.controller.rs_cfg.max_runners
    → let cfg = s.controller.rs_cfg in
      count (fire_all github s events).controller.runners
      ≤ cfg.max_runners + surplus_all github s events
count-fire_all github s events w h =
    let cfg = s.controller.rs_cfg in
    let bound =
      fire_all-IsWithin github cfg 0 s events
        record { same_set = refl; well_formed = w; capped = omega arith } in
    omega arith
