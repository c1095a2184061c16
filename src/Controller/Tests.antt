-- ===== src/Controller/Tests.antt =====
-- The theorems about the controller at concrete controllers, trackers and runs.
use elastic_fruit_runner.Base.{
  ℕ, zero, suc, ◌≤◌, ◌<◌, ◌+◌, ◌≡◌, ◌≢◌, refl, true, false, ◌↔◌, String, Option, none, some, List,
  [], ◌∷◌, arith, eq_iff, contains, lookup, erase, delete, insert, min, max, length,
}
use elastic_fruit_runner.Messages.{JobStarted, JobCompleted}
use elastic_fruit_runner.Controller.Tracker.{
  Time, RunnerTracker, new_runner_tracker, count, mark_starting, mark_idle, mark_busy, remove,
  remove_idle_older_than, remove_all,
}
use elastic_fruit_runner.Controller.Tracker.Phases as Tracker
use elastic_fruit_runner.Controller.Tracker.Phases.{
  IsWellFormed, phases, react_all, phases-run, is_expired,
}
use elastic_fruit_runner.Controller.Tracker.Counting.{unexpired, remove_idle_older_than_sweep}
use elastic_fruit_runner.Controller.Scaler.{
  RunnerSetConfig, ScaleSetController, run_ok, run_failed, jit_failed, cleanup,
  handle_desired_runner_count, handle_job_started, handle_job_completed, start_runner,
  reap_expired_idle_runners, shutdown, runner_name,
}
use elastic_fruit_runner.Controller.Scaler.Desired.{desired_exact}
use elastic_fruit_runner.Controller.System.{
  System, Event, desired, job_started, job_completed, start_ended, reaper_ticked, fire, IsNew,
  Reach, here, next, AllNew, perform, perform_all,
}
use elastic_fruit_runner.Controller.System.Leaks.{is_tracked, IsAccounted, Reach-IsAccounted}
use elastic_fruit_runner.Controller.System.Surplus.{fire_all, surplus_all}
use elastic_fruit_runner.Controller.System.Capacity.{count-fire_all}
use elastic_fruit_runner.Controller.System.Races.{
  after_race, race_evicts_runner, collision_forgets_runner,
}
use elastic_fruit_runner.Controller.Labels.{labels_match, labels_match_iff}
use elastic_fruit_runner.Controller.Lifecycle.{Environment, late_end, late_tick, run}
use elastic_fruit_runner.Controller.Lifecycle.Held.{at_start, nothing, replay, run_releases}
use elastic_fruit_runner.Controller.Lifecycle.Ending.{HasOnly, run-HasOnly}

abbrev cfg : RunnerSetConfig
cfg = record {
  name = "mac";
  backend = "tart";
  image = "macos";
  labels = "arm64" ∷ [];
  max_runners = 2;
  platform = "";
  runtime = "";
}

abbrev controller : ScaleSetController
controller = record {
  rs_cfg = cfg;
  runner_group = "default";
  idle_timeout = 15;
  scale_set_id = 1;
  scope = "org";
  connected = true;
  runners = new_runner_tracker;
}

abbrev start : System
start = record { controller = controller; in_flight = []; launched = []; cleaned = [] }

abbrev github : String → Option ℕ
github name = some 7

abbrev suffix : ℕ → String
suffix zero = "a"
suffix (suc n) = "b"

abbrev clock : ℕ → Time
clock n = 100

abbrev job : JobStarted
job = record {
  job_id = "j1";
  runner_name = "mac-a";
  owner_name = "o";
  repository_name = "r";
  job_workflow_ref = "w";
  job_display_name = "d";
  workflow_run_id = 5;
  event_name = "push";
  request_labels = "arm64" ∷ [];
  queue_time = 10;
  scale_set_assign_time = 20;
  runner_assign_time = 30;
}

abbrev done : JobCompleted
done = record { job_id = "j1"; runner_name = "mac-a"; result = "succeeded"; finish_time = 400 }

program : Unit {0}
unfolding fire perform_all handle_desired_runner_count handle_job_started handle_job_completed
    start_runner reap_expired_idle_runners mark_starting mark_idle mark_busy remove
    remove_idle_older_than perform labels_match run contains erase insert delete lookup shutdown
    remove_all
program = tt

suffix_distinct :
    (i j : ℕ) → i < j → j < 2 → runner_name cfg (suffix i) ≢ runner_name cfg (suffix j)
suffix_distinct zero zero p q = absurd (omega arith)
suffix_distinct zero (suc j) p q = λ e. ground (arith, eq_iff "mac-a" "mac-b")
suffix_distinct (suc i) zero p q = absurd (omega arith)
suffix_distinct (suc i) (suc j) p q = absurd (omega arith)

names-IsNew : IsNew start suffix 2
unfolding program
names-IsNew = record {
  not_in_flight = λ i p. refl;
  not_launched = λ i p. refl;
  distinct = suffix_distinct;
}

desired_exact_example : (handle_desired_runner_count controller 5 suffix clock).1 ≡ max 0 (min 5 2)
unfolding lookup
desired_exact_example =
    desired_exact controller 5 suffix clock
      record { untracked = λ i p. refl; distinct = suffix_distinct }

-- Two runners are launched, one fails to start, and the other one works on a job.
abbrev two_launched : System
two_launched = fire github start (desired 2 suffix clock)

abbrev one_failed : System
one_failed = fire github two_launched (start_ended "mac-b" (run_failed "jit") 110)

abbrev one_idle : System
one_idle = fire github one_failed (start_ended "mac-a" (run_ok "jit") 120)

abbrev one_busy : System
one_busy = fire github one_idle (job_started job 130)

abbrev finished : System
finished = fire github one_busy (job_completed done)

start-IsAccounted : IsAccounted start
unfolding program
start-IsAccounted = record {
  flying_distinct = tt;
  flying_unlaunched = λ name h. refl;
  covered = λ name h. ground arith;
}

-- Two runners are drawn, one fails and one runs a job.
abbrev story : Reach github start finished
unfolding program
story =
    next (job_completed done)
      (next (job_started job 130)
        (next (start_ended "mac-a" (run_ok "jit") 120)
          (next (start_ended "mac-b" (run_failed "jit") 110) (next (desired 2 suffix clock) here tt)
            refl)
          refl)
        tt)
      tt

Reach-IsAccounted_example : IsAccounted finished
unfolding program AllNew
Reach-IsAccounted_example =
    Reach-IsAccounted github story (((((tt, names-IsNew), tt), tt), tt), tt) start-IsAccounted

-- A job starts on a runner that is up, and another one on a runner of which nobody has heard.
abbrev events : List Event
events =
    desired 2 suffix clock
    ∷ start_ended "mac-a" (run_ok "jit") 120
    ∷ job_started job 130
    ∷ job_started (record job { runner_name = "mac-z" }) 140
    ∷ []

count-fire_all_example : count (fire_all github start events).controller.runners ≤ 3
unfolding program fire_all surplus_all
count-fire_all_example =
    count-fire_all github start events
      record { preparing_distinct = tt; idle_distinct = tt; busy_distinct = tt } (omega arith)

-- The next name that is drawn is that of the runner that is up.
collision_forgets_runner_example :
    let t =
      fire github
        (fire github one_idle (desired 2 suffix clock))
        (start_ended "mac-a" jit_failed 150) in
    (is_tracked t.controller.runners "mac-a" ≡ false)
    × (contains "mac-a" t.launched ≡ true)
    × (contains "mac-a" t.cleaned ≡ false)
unfolding program
collision_forgets_runner_example =
    collision_forgets_runner github one_idle 2 suffix clock 150 refl refl refl

-- The runner on which the job starts before its goroutine has ended.
race_evicts_runner_example :
    (lookup "mac-a" (after_race github one_failed job "jit" 130 140).controller.runners.busy ≡ none)
    × (contains "mac-a"
          (fire github (after_race github one_failed job "jit" 130 140) (reaper_ticked 200)).cleaned
        ≡ true)
unfolding program
race_evicts_runner_example =
    race_evicts_runner github one_failed job "jit" 130 140 200
      record { preparing_distinct = (refl, tt); idle_distinct = tt; busy_distinct = tt }
      (omega arith)

abbrev tracker : RunnerTracker
tracker = record {
  runner_ctx = none;
  preparing = ("p", 5) ∷ [];
  idle = ("x", 10) ∷ ("y", 90) ∷ [];
  busy = ("z", 50) ∷ [];
}

tracker-IsWellFormed : IsWellFormed tracker
unfolding lookup
tracker-IsWellFormed = record {
  preparing_distinct = (refl, tt);
  idle_distinct = (refl, (refl, tt));
  busy_distinct = (refl, tt);
}

abbrev calls : List Tracker.Call
calls = Tracker.becomes_busy "x" 60 ∷ Tracker.removed "y" ∷ Tracker.reaped 100 20 ∷ []

phases-run_example :
    (phases (Tracker.run tracker calls) "x" ≡ react_all "x" (phases tracker "x") calls)
    × IsWellFormed (Tracker.run tracker calls)
phases-run_example = phases-run tracker calls "x" tracker-IsWellFormed

remove_idle_older_than_sweep_example :
    let (r', names) = remove_idle_older_than 100 20 tracker in
    (r'.idle ≡ unexpired 100 20 tracker.idle)
    × (r'.preparing ≡ tracker.preparing)
    × (r'.busy ≡ tracker.busy)
    × (count r' + length names ≡ 4)
    × ((name : String) → contains name names ≡ is_expired 100 20 (lookup name tracker.idle))
remove_idle_older_than_sweep_example =
    remove_idle_older_than_sweep 100 20 tracker tracker-IsWellFormed

abbrev old_labels : List String
old_labels = "a" ∷ "b" ∷ []

abbrev new_labels : List String
new_labels = "b" ∷ "a" ∷ []

labels_match_iff_example : (labels_match old_labels new_labels ≡ true) ↔ (
    (length old_labels ≡ length new_labels)
    × ((k : String) → contains k old_labels ≡ contains k new_labels))
unfolding contains
labels_match_iff_example = labels_match_iff old_labels new_labels (refl, (refl, tt))

-- A GitHub that has a scale set with other labels, and a listener that ends with an error.
abbrev env : Environment
env = record {
  group = λ name. some 1;
  existing = λ group name. some (record { id = 9; labels = "old" ∷ [] });
  create = λ name group labels. none;
  update = λ id name group labels. some (record { id = id; labels = labels });
  hostname = none;
  uuid = "u";
  session = λ id owner. true;
  listener = λ id n. true;
  runner_ctx = 3;
  serve = λ d. (d, cleanup "mac-a" ∷ [], some "lost");
  late = late_end "mac-c" (run_ok "jit") 200 ∷ late_tick 300 ∷ [];
  github = github;
}

abbrev idle_controller : ScaleSetController
idle_controller = record controller { connected = false }

run_releases_example : replay at_start (run env idle_controller).calls ≡ nothing
run_releases_example = run_releases env idle_controller

run-HasOnly_example : HasOnly ("mac-c" ∷ []) (run env idle_controller).controller
unfolding program
run-HasOnly_example = run-HasOnly env idle_controller (refl, λ name. refl)
