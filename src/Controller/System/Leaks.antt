-- ===== src/Controller/System/Leaks.antt =====
-- No runner is forgotten: what internal/controller/scaler.go keeps true of every runner that the
-- backend has started.
use elastic_fruit_runner.Base.{
  ℕ, ◌≡◌, ◌∙◌, ap, Bool, true, false, ◌||◌, String, Option, List, ◌++◌, arith, contains, eq_iff,
  ◌==◌, AllDifferent, lookup, is_some, contains-erase, erase-AllDifferent, lookup-insert,
  lookup-delete, if◌then◌else◌, contains-append, contains-keys, keys, erase,
}
use elastic_fruit_runner.Messages.{JobStarted, JobCompleted}
use elastic_fruit_runner.Controller.Tracker.{
  Time, RunnerTracker, mark_idle, mark_busy, remove, remove_all, remove_idle_older_than,
  collect_expired,
}
use elastic_fruit_runner.Controller.Tracker.Phases.{lookup-delete_each}
use elastic_fruit_runner.Controller.Scaler.{
  jit_failed, run_failed, run_ok, spawn_runners, handle_desired_runner_count, handle_job_started,
  handle_job_completed, start_runner, shutdown, reap_expired_idle_runners, needed, cleanup_each,
}
use elastic_fruit_runner.Controller.Scaler.Desired.{drawn, spawn_runners_effects}
use elastic_fruit_runner.Controller.System.{
  System, Event, desired, job_started, job_completed, start_ended, reaper_ticked, listener_ended,
  perform, perform_all, fire, IsNew, IsEnabled, DrawsNew, Reach, here, next, AllNew,
}
use elastic_fruit_runner.Controller.System.Effects.{
  contains-push_all, push_all-AllDifferent, perform_spawns, perform_remove_github_runner,
  perform_cleanup_each, spawn_runners_keeps, drawn-Apart, Apart-contains,
}

-- Whether a runner is idle or busy in the tracker.
abbrev pub is_tracked : RunnerTracker → String → Bool
is_tracked r name = is_some (lookup name r.idle) || is_some (lookup name r.busy)

pub record IsAccounted (s : System) : Type 0 where
  pub flying_distinct : AllDifferent s.in_flight
  pub flying_unlaunched :
      (name : String) → contains name s.in_flight ≡ true → contains name s.launched ≡ false
  pub covered :
      (name : String)
      → contains name s.launched ≡ true
      → (is_tracked s.controller.runners name || contains name s.cleaned) ≡ true

module _ (github : String → Option ℕ) (s : System) (v : IsAccounted s) where
  desired-IsAccounted :
      (count : ℕ) (suffix : ℕ → String) (clock : ℕ → Time)
      → IsNew s suffix (needed s.controller count)
      → IsAccounted (fire github s (desired count suffix clock))
  unfolding fire handle_desired_runner_count
  desired-IsAccounted count suffix clock new =
      let d = s.controller in
      let n = needed d count in
      let names = drawn d.rs_cfg suffix n in
      let (r', effects) = spawn_runners d.rs_cfg d.runners.runner_ctx suffix clock n d.runners in
      let s' : System = record s { controller = record d { runners = r' } } in
      let (idle_kept, busy_kept) =
        spawn_runners_keeps d.rs_cfg d.runners.runner_ctx suffix clock n d.runners in
      let apart = drawn-Apart d.rs_cfg suffix s.in_flight n new.not_in_flight new.distinct in
      let unlaunched = drawn-Apart d.rs_cfg suffix s.launched n new.not_launched new.distinct in
      let done =
        ap (λ es. perform_all es s')
          (spawn_runners_effects d.rs_cfg d.runners.runner_ctx suffix clock n d.runners)
        ∙ perform_spawns d.runners.runner_ctx names s' in
      rw done (record {
        flying_distinct = push_all-AllDifferent names s.in_flight apart v.flying_distinct;
        flying_unlaunched = λ name h. ground (
          arith,
          contains-push_all name names s.in_flight,
          v.flying_unlaunched name,
          Apart-contains name names s.launched unlaunched,
        );
        covered = λ name h. rw (idle_kept, busy_kept) (v.covered name h);
      })

  -- A runner that leaves the tracker through `cleanup_each` stays accounted for.
  cleaned-IsAccounted :
      (r : RunnerTracker) (names : List String)
      → ((name : String)
          → (is_tracked r name || contains name names)
            ≡ (is_tracked s.controller.runners name || contains name names))
      → IsAccounted (
          perform_all
            (cleanup_each github names)
            (record s { controller = record s.controller { runners = r } }))
  cleaned-IsAccounted r names kept = rw (perform_cleanup_each github names _) (record {
    flying_distinct = v.flying_distinct;
    flying_unlaunched = v.flying_unlaunched;
    covered = λ name h.
        ground (arith, kept name, v.covered name h, contains-push_all name names s.cleaned);
  })

  reaper_ticked-IsAccounted : (now : Time) → IsAccounted (fire github s (reaper_ticked now))
  unfolding fire reap_expired_idle_runners remove_idle_older_than
  reaper_ticked-IsAccounted now =
      let idle = s.controller.runners.idle in
      let expired = collect_expired now s.controller.idle_timeout idle in
      cleaned-IsAccounted _ expired (λ name. ground (arith, lookup-delete_each name expired idle))

  listener_ended-IsAccounted : IsAccounted (fire github s listener_ended)
  unfolding fire shutdown remove_all lookup
  listener_ended-IsAccounted =
      let r = s.controller.runners in
      cleaned-IsAccounted _ (keys r.idle ++ keys r.busy) (λ name. ground (
        arith,
        contains-append name (keys r.idle) (keys r.busy),
        contains-keys name r.idle,
        contains-keys name r.busy,
      ))

  job_started-IsAccounted :
      (job : JobStarted) (now : Time) → IsAccounted (fire github s (job_started job now))
  unfolding fire handle_job_started perform_all perform mark_busy
  job_started-IsAccounted job now = record {
    flying_distinct = v.flying_distinct;
    flying_unlaunched = v.flying_unlaunched;
    covered = λ name h. ground (
      arith,
      v.covered name h,
      lookup-delete job.runner_name name s.controller.runners.idle,
      lookup-insert job.runner_name name now s.controller.runners.busy,
    );
  }

  job_completed-IsAccounted : (job : JobCompleted) → IsAccounted (fire github s (job_completed job))
  unfolding fire handle_job_completed perform_all perform remove contains
  job_completed-IsAccounted job = record {
    flying_distinct = v.flying_distinct;
    flying_unlaunched = v.flying_unlaunched;
    covered = λ name h. ground (
      arith,
      v.covered name h,
      lookup-delete job.runner_name name s.controller.runners.idle,
      lookup-delete job.runner_name name s.controller.runners.busy,
    );
  }

  module _ (name : String) (flying : contains name s.in_flight ≡ true) where
    landed :
        (k : String)
        → contains k (erase name s.in_flight)
          ≡ (if name == k then false else contains k s.in_flight)
    landed k = contains-erase name k s.in_flight v.flying_distinct

    jit_failed-IsAccounted :
        (now : Time) → IsAccounted (fire github s (start_ended name jit_failed now))
    unfolding fire start_runner perform_all perform remove
    jit_failed-IsAccounted now = record {
      flying_distinct = erase-AllDifferent name s.in_flight v.flying_distinct;
      flying_unlaunched = λ k h. ground (arith, landed k, v.flying_unlaunched k);
      covered = λ k h. ground (
        arith,
        v.covered k h,
        v.flying_unlaunched name flying,
        eq_iff name k,
        lookup-delete name k s.controller.runners.idle,
        lookup-delete name k s.controller.runners.busy,
      );
    }

    run_failed-IsAccounted :
        (jit : String) (now : Time)
        → IsAccounted (fire github s (start_ended name (run_failed jit) now))
    unfolding fire start_runner perform_all perform remove contains
    run_failed-IsAccounted jit now = rw (perform_remove_github_runner github name _) (record {
      flying_distinct = erase-AllDifferent name s.in_flight v.flying_distinct;
      flying_unlaunched = λ k h. ground (arith, landed k, v.flying_unlaunched k);
      covered = λ k h. ground (
        arith,
        v.covered k h,
        lookup-delete name k s.controller.runners.idle,
        lookup-delete name k s.controller.runners.busy,
      );
    })

    run_ok-IsAccounted :
        (jit : String) (now : Time)
        → IsAccounted (fire github s (start_ended name (run_ok jit) now))
    unfolding fire start_runner perform_all perform mark_idle contains
    run_ok-IsAccounted jit now = record {
      flying_distinct = erase-AllDifferent name s.in_flight v.flying_distinct;
      flying_unlaunched = λ k h. ground (arith, landed k, v.flying_unlaunched k);
      covered = λ k h. ground (
        arith,
        v.covered k,
        lookup-insert name k now s.controller.runners.idle,
        lookup-delete name k s.controller.runners.busy,
      );
    }

  fire-IsAccounted : (e : Event) → IsEnabled s e → DrawsNew s e → IsAccounted (fire github s e)
  fire-IsAccounted (desired count suffix clock) h n = desired-IsAccounted count suffix clock n
  fire-IsAccounted (job_started job now) h n = job_started-IsAccounted job now
  fire-IsAccounted (job_completed job) h n = job_completed-IsAccounted job
  fire-IsAccounted (start_ended name jit_failed now) h n = jit_failed-IsAccounted name h now
  fire-IsAccounted (start_ended name (run_failed jit) now) h n =
      run_failed-IsAccounted name h jit now
  fire-IsAccounted (start_ended name (run_ok jit) now) h n = run_ok-IsAccounted name h jit now
  fire-IsAccounted (reaper_ticked now) h n = reaper_ticked-IsAccounted now
  fire-IsAccounted listener_ended h n = listener_ended-IsAccounted

-- From a system that accounts for its runners, events in whatever order keep it so, as long as every
-- random name that HandleDesiredRunnerCount draws is new, which the code does not check: no runner
-- has two goroutines, none whose goroutine still runs has been started, and each runner that the
-- backend has started is idle or busy in the tracker or has been handed to the backend's `Cleanup`.
pub Reach-IsAccounted :
    (github : String → Option ℕ) {s t : System} (run : Reach github s t)
    → AllNew github run
    → IsAccounted s
    → IsAccounted t
unfolding AllNew
Reach-IsAccounted github here n v = v
Reach-IsAccounted github (next {t} e r h) n v =
    fire-IsAccounted github t (Reach-IsAccounted github r n.0 v) e h n.1
