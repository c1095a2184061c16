-- ===== src/Controller/Lifecycle/Ending.antt =====
-- controller.go, Run: the state that it leaves behind.
use elastic_fruit_runner.Base.{
  ℕ, ◌≡◌, refl, true, false, not, ◌||◌, inl, inr, Bool-cases, append_text, String, Option, some,
  none, List, [], ◌∷◌, arith, contains, lookup, lookup-insert, lookup-delete, ◌==◌,
}
use elastic_fruit_runner.Controller.Tracker.{
  RunnerTracker, Time, set_runner_ctx, remove, mark_idle, remove_all, remove_idle_older_than,
  collect_expired,
}
use elastic_fruit_runner.Controller.Tracker.Phases.{lookup-delete_each}
use elastic_fruit_runner.Controller.Scaler.{
  ScaleSetController, jit_failed, run_failed, run_ok, start_runner, reap_expired_idle_runners,
  shutdown,
}
use elastic_fruit_runner.Controller.System.Surplus.{is_known}
use elastic_fruit_runner.Controller.Lifecycle.{
  ScaleSet, Late, late_end, late_tick, Environment, Ensured, ready, failed, settle_late, listen,
  connect, connect_if_ready, run_in_group, run, or_uuid,
}

-- The runners whose start succeeds after `removeAll`.
abbrev pub started_late : List Late → List String
started_late [] = []
started_late (late_end name jit_failed now ∷ ls) = started_late ls
started_late (late_end name (run_failed jit) now ∷ ls) = started_late ls
started_late (late_end name (run_ok jit) now ∷ ls) = name ∷ started_late ls
started_late (late_tick now ∷ ls) = started_late ls

module _ (github : String → Option ℕ) where
  settle_late-connected :
      (ls : List Late) (d : ScaleSetController)
      → (settle_late github ls d).0.connected ≡ d.connected
  unfolding settle_late start_runner reap_expired_idle_runners
  settle_late-connected [] d = refl
  settle_late-connected (late_end n jit_failed now ∷ ls) d = settle_late-connected ls _
  settle_late-connected (late_end n (run_failed jit) now ∷ ls) d = settle_late-connected ls _
  settle_late-connected (late_end n (run_ok jit) now ∷ ls) d = settle_late-connected ls _
  settle_late-connected (late_tick now ∷ ls) d = settle_late-connected ls _

module _ (github : String → Option ℕ) (name : String) where
  removed_known :
      (n : String) (r : RunnerTracker) → is_known (remove n r) name ≡ true → is_known r name ≡ true
  unfolding remove
  removed_known n r h = ground (
    arith,
    h,
    lookup-delete n name r.preparing,
    lookup-delete n name r.idle,
    lookup-delete n name r.busy,
  )

  idle_known :
      (n : String) (now : Time) (r : RunnerTracker)
      → is_known (mark_idle n now r) name ≡ true
      → (n == name || is_known r name) ≡ true
  unfolding mark_idle
  idle_known n now r h = ground (
    arith,
    h,
    lookup-delete n name r.preparing,
    lookup-insert n name now r.idle,
    lookup-delete n name r.busy,
  )

  reaped_known :
      (now timeout : ℕ) (r : RunnerTracker)
      → is_known (remove_idle_older_than now timeout r).0 name ≡ true
      → is_known r name ≡ true
  unfolding remove_idle_older_than
  reaped_known now timeout r h =
      ground (arith, h, lookup-delete_each name (collect_expired now timeout r.idle) r.idle)

  settle_late_known :
      (ls : List Late) (d : ScaleSetController)
      → is_known (settle_late github ls d).0.runners name ≡ true
      → (is_known d.runners name || contains name (started_late ls)) ≡ true
  unfolding settle_late start_runner reap_expired_idle_runners contains
  settle_late_known [] d h = ground (arith, h)
  settle_late_known (late_end n jit_failed now ∷ ls) d h =
      ground (arith, settle_late_known ls _ h, removed_known n d.runners)
  settle_late_known (late_end n (run_failed jit) now ∷ ls) d h =
      ground (arith, settle_late_known ls _ h, removed_known n d.runners)
  settle_late_known (late_end n (run_ok jit) now ∷ ls) d h =
      ground (arith, settle_late_known ls _ h, idle_known n now d.runners)
  settle_late_known (late_tick now ∷ ls) d h =
      ground (arith, settle_late_known ls _ h, reaped_known now d.idle_timeout d.runners)

-- Disconnected, and every runner that is tracked in any phase is one of these.
abbrev pub HasOnly : List String → ScaleSetController → Type 0
HasOnly names d =
    (d.connected ≡ false)
    × ((name : String) → (not (is_known d.runners name) || contains name names) ≡ true)

HasOnly-more : (names : List String) (d : ScaleSetController) → HasOnly [] d → HasOnly names d
unfolding contains
HasOnly-more names d (off, only) = (off, λ name. ground (arith, only name))

listen-HasOnly :
    (env : Environment) (d : ScaleSetController) (set : ℕ)
    → HasOnly (started_late env.late) (listen env d set).controller
unfolding listen shutdown remove_all lookup
listen-HasOnly env d set =
    let served =
      env.serve
        (record d { runners = set_runner_ctx (some env.runner_ctx) d.runners; connected = true }) in
    let stopped = shutdown env.github (record served.0 { connected = false }) in
    (
      settle_late-connected env.github env.late stopped.0,
      λ name. ground (arith, settle_late_known env.github name env.late stopped.0),
    )

connect-HasOnly :
    (env : Environment) (d : ScaleSetController) (ss : ScaleSet)
    → HasOnly [] d
    → HasOnly (started_late env.late) (connect env d ss).controller
unfolding connect
connect-HasOnly env d ss q =
    elim (Bool-cases (
      env.session ss.id
        (append_text (or_uuid env.hostname env.uuid) (append_text "-" d.rs_cfg.name)))) [
          | inr closed ↦ rw closed (HasOnly-more (started_late env.late) d q)
          | inl opened ↦ elim (Bool-cases (env.listener ss.id d.rs_cfg.max_runners)) [
            | inl listens ↦ rw (opened, listens) (listen-HasOnly env d ss.id)
            | inr refused ↦ rw (opened, refused) (HasOnly-more (started_late env.late) d q)
          ]
        ]

connect_if_ready-HasOnly :
    (env : Environment) (d : ScaleSetController) (e : Ensured)
    → HasOnly [] d
    → HasOnly (started_late env.late) (connect_if_ready env d e).controller
unfolding connect_if_ready
connect_if_ready-HasOnly env d (failed e) q = HasOnly-more (started_late env.late) d q
connect_if_ready-HasOnly env d (ready ss) q =
    connect-HasOnly env (record d { scale_set_id = ss.id }) ss q

run_in_group-HasOnly :
    (env : Environment) (d : ScaleSetController) (group : Option ℕ)
    → HasOnly [] d
    → HasOnly (started_late env.late) (run_in_group env d group).controller
unfolding run_in_group
run_in_group-HasOnly env d none q = HasOnly-more (started_late env.late) d q
run_in_group-HasOnly env d (some group) q = connect_if_ready-HasOnly env d _ q

-- A `Run` of a controller that is disconnected and tracks nobody ends disconnected, on each of its
-- error paths and whatever happened while the listener ran, and tracks no runner but those whose
-- start by the backend succeeds between `removeAll` and its return. No goroutine of an earlier `Run`
-- is left, and the reaper may tick once more or several times.
pub run-HasOnly :
    (env : Environment) (d : ScaleSetController)
    → HasOnly [] d
    → HasOnly (started_late env.late) (run env d).controller
unfolding run
run-HasOnly env d q = run_in_group-HasOnly env d (env.group d.runner_group) q
