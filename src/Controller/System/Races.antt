-- ===== src/Controller/System/Races.antt =====
-- scaler.go: a job that starts before `startRunner` has recorded its runner as idle.
use elastic_fruit_runner.Base.{
  ℕ, ◌+◌, ◌<◌, ◌≡◌, ◌∙◌, true, false, String, Option, none, some, arith, lookup, contains, eq_iff,
  lookup-insert, lookup-delete, insert, delete, lt→ltb,
}
use elastic_fruit_runner.Messages.{JobStarted}
use elastic_fruit_runner.Controller.Tracker.{
  Time, mark_starting, mark_idle, mark_busy, remove, remove_idle_older_than,
}
use elastic_fruit_runner.Controller.Tracker.Phases.{
  IsWellFormed, apply, apply-IsWellFormed, becomes_idle, becomes_busy, is_expired,
}
use elastic_fruit_runner.Controller.Tracker.Counting.{remove_idle_older_than_sweep}
use elastic_fruit_runner.Controller.Scaler.{
  run_ok, jit_failed, spawn_runners, handle_desired_runner_count, needed, runner_name,
  handle_job_started, start_runner, reap_expired_idle_runners,
}
use elastic_fruit_runner.Controller.System.{
  System, desired, job_started, start_ended, reaper_ticked, perform, perform_all, fire,
}
use elastic_fruit_runner.Controller.System.Leaks.{is_tracked}
use elastic_fruit_runner.Controller.System.Effects.{contains-push_all, perform_cleanup_each}

module _ (github : String → Option ℕ) where
  cleaned_by_reaper :
      (s : System) (now : Time) (name : String)
      → contains name (remove_idle_older_than now s.controller.idle_timeout s.controller.runners).1
        ≡ true
      → contains name (fire github s (reaper_ticked now)).cleaned ≡ true
  unfolding fire reap_expired_idle_runners
  cleaned_by_reaper s now name h =
      let names = (remove_idle_older_than now s.controller.idle_timeout s.controller.runners).1 in
      rw (perform_cleanup_each github names _)
        (ground (arith, contains-push_all name names s.cleaned))

module _ (github : String → Option ℕ) (s : System) (job : JobStarted) (jit : String)
    (t₁ t₂ : Time) where
  -- The job starts at `t₁`, and the goroutine of its runner ends at `t₂`.
  abbrev pub after_race : System
  after_race =
      fire github (fire github s (job_started job t₁)) (start_ended job.runner_name (run_ok jit) t₂)

  -- The runner that works on the job is recorded as idle since `t₂`, and not as busy.
  pub race_hides_job :
      (lookup job.runner_name after_race.controller.runners.idle ≡ some t₂)
      × (lookup job.runner_name after_race.controller.runners.busy ≡ none)
  unfolding fire handle_job_started start_runner perform_all perform mark_idle mark_busy
  race_hides_job =
      let name = job.runner_name in
      let r = s.controller.runners in
      ground (
        arith,
        lookup-insert name name t₂ (delete name r.idle),
        lookup-delete name name (insert name t₁ r.busy),
        eq_iff name name,
      )

  race-IsWellFormed : IsWellFormed s.controller.runners → IsWellFormed after_race.controller.runners
  unfolding fire handle_job_started start_runner perform_all perform apply
  race-IsWellFormed w =
      let name = job.runner_name in
      let r = s.controller.runners in
      apply-IsWellFormed (mark_busy name t₁ r) (becomes_idle name t₂)
        (apply-IsWellFormed r (becomes_busy name t₁) w)

  -- On a well-formed tracker, a job that is reported as started before the goroutine of its runner
  -- has ended well loses its runner: the runner is not busy although nobody reported the job as
  -- completed, and a tick of the reaper after the idle timeout has the backend remove it.
  pub race_evicts_runner :
      (now : Time)
      → IsWellFormed s.controller.runners
      → t₂ + after_race.controller.idle_timeout < now
      → (lookup job.runner_name after_race.controller.runners.busy ≡ none)
        × (contains job.runner_name (fire github after_race (reaper_ticked now)).cleaned ≡ true)
  race_evicts_runner now w late =
      let d = after_race.controller in
      let names = (remove_idle_older_than now d.idle_timeout d.runners).1 in
      let swept =
        (remove_idle_older_than_sweep now d.idle_timeout d.runners (race-IsWellFormed w)).4 in
      let old : is_expired now d.idle_timeout (lookup job.runner_name d.runners.idle) ≡ true =
        rw (race_hides_job.0) (lt→ltb (t₂ + d.idle_timeout) now late) in
      (
        race_hides_job.1,
        cleaned_by_reaper github after_race now job.runner_name (swept job.runner_name ∙ old),
      )

-- A random suffix has five hexadecimal digits, and nothing checks it. When the one name that
-- HandleDesiredRunnerCount draws is that of a runner that the backend has started and that nobody
-- has cleaned up, and the new runner gets no configuration from GitHub, the tracker forgets the
-- name: the old runner is neither idle nor busy any more, and the backend is still not asked to
-- clean it up.
pub collision_forgets_runner :
    (github : String → Option ℕ) (s : System) (wanted : ℕ) (suffix : ℕ → String) (clock : ℕ → Time)
    (now : Time)
    → needed s.controller wanted ≡ 1
    → contains (runner_name s.controller.rs_cfg (suffix 0)) s.launched ≡ true
    → contains (runner_name s.controller.rs_cfg (suffix 0)) s.cleaned ≡ false
    → let name = runner_name s.controller.rs_cfg (suffix 0) in
      let t =
        fire github
          (fire github s (desired wanted suffix clock))
          (start_ended name jit_failed now) in
      (is_tracked t.controller.runners name ≡ false)
      × (contains name t.launched ≡ true)
      × (contains name t.cleaned ≡ false)
unfolding fire handle_desired_runner_count spawn_runners start_runner perform_all perform remove
    mark_starting
collision_forgets_runner github s wanted suffix clock now one launched kept =
    let name = runner_name s.controller.rs_cfg (suffix 0) in
    let idle = lookup-delete name name s.controller.runners.idle in
    let busy = lookup-delete name name s.controller.runners.busy in
    rw one (ground (arith, idle, busy, eq_iff name name))
