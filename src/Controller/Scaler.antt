-- ===== src/Controller/Scaler.antt =====
-- internal/controller/scaler.go: the handlers that the listener calls, the `startRunner`
-- goroutine, the idle reaper and the shutdown. What they ask of the backend, of GitHub, of the job
-- recorder and of the Go scheduler is the list of effects that they return, in order.
-- Logging and tracing are left out. `int` counts are not negative here: the statistics count jobs,
-- and a validated `max_runners` is at least 1; so the test `needed < 0` is the `-` that stops at 0.
pub mod Desired
use elastic_fruit_runner.Base.{
  ℕ, zero, suc, ◌-◌, Bool, true, false, String, append_text, Option, none, some, List, [], ◌∷◌,
  ◌++◌, min,
}
use elastic_fruit_runner.Controller.Tracker.{
  Time, Duration, RunnerTracker, RunnerSnapshot, mark_starting, mark_idle, mark_busy, remove,
  remove_all, remove_idle_older_than, count, snapshot,
}
use elastic_fruit_runner.Messages.{JobStarted, JobCompleted}

pub record RunnerSetConfig : Type 0 where
  pub name : String
  pub backend : String
  pub image : String
  pub labels : List String
  pub max_runners : ℕ
  pub platform : String
  pub runtime : String

pub record ScaleSetController : Type 0 where
  pub rs_cfg : RunnerSetConfig
  pub runner_group : String
  pub idle_timeout : Duration
  pub scale_set_id : ℕ
  pub scope : String
  pub connected : Bool
  pub runners : RunnerTracker

pub data Effect : Type 0 where
  -- `go d.startRunner(ctx, name)`
  spawn : Option ℕ → String → Effect
  -- `client.GenerateJitRunnerConfig`
  generate_jit : String → ℕ → Effect
  -- `backend.Run` with the JIT config, and whether it succeeded
  run_backend : String → String → Bool → Effect
  -- `backend.Cleanup`
  cleanup : String → Effect
  -- `client.RemoveRunner`
  remove_runner : ℕ → Effect
  -- the two calls of the job recorder
  record_started : String → String → JobStarted → Effect
  record_completed : JobCompleted → Effect

abbrev pub runner_name : RunnerSetConfig → String → String
runner_name cfg suffix = append_text cfg.name (append_text "-" suffix)

-- The loop `for range needed`. `suffix` and `clock` are what `randSuffix` and `time.Now` return in
-- each round, told by the rounds that are left.
unfoldable pub spawn_runners :
    RunnerSetConfig
    → Option ℕ
    → (ℕ → String)
    → (ℕ → Time)
    → ℕ
    → RunnerTracker
    → RunnerTracker × List Effect
spawn_runners cfg ctx suffix clock zero r = (r, [])
spawn_runners cfg ctx suffix clock (suc n) r =
    let name = runner_name cfg (suffix n) in
    let (r', effects) = spawn_runners cfg ctx suffix clock n (mark_starting name (clock n) r) in
    (r', spawn ctx name ∷ effects)

abbrev pub needed : ScaleSetController → ℕ → ℕ
needed d desired = min desired d.rs_cfg.max_runners - count d.runners

-- The controller after the call, its answer and its effects.
unfoldable pub handle_desired_runner_count :
    ScaleSetController → ℕ → (ℕ → String) → (ℕ → Time) → ScaleSetController × ℕ × List Effect
unfolding spawn_runners
handle_desired_runner_count d desired suffix clock =
    let (runners, effects) =
      spawn_runners d.rs_cfg d.runners.runner_ctx suffix clock (needed d desired) d.runners in
    (record d { runners = runners }, count runners, effects)

unfoldable pub handle_job_started :
    ScaleSetController → JobStarted → Time → ScaleSetController × List Effect
handle_job_started d job now = (
  record d { runners = mark_busy job.runner_name now d.runners },
  record_started d.rs_cfg.name d.rs_cfg.backend job ∷ [],
)

-- The cleanup runs in a goroutine of its own, after the handler has returned.
unfoldable pub handle_job_completed :
    ScaleSetController → JobCompleted → ScaleSetController × List Effect
handle_job_completed d job = (
  record d { runners = remove job.runner_name d.runners },
  record_completed job ∷ cleanup job.runner_name ∷ [],
)

-- `github name` is what `client.GetRunnerByName` finds; `none` is an error or a nil runner.
unfoldable pub remove_github_runner : (String → Option ℕ) → String → List Effect
remove_github_runner github name = elim (github name) [
  | none ↦ []
  | some id ↦ remove_runner id ∷ []
]

-- How the two external calls of `startRunner` end.
pub data StartOutcome : Type 0 where
  jit_failed : StartOutcome
  run_failed : String → StartOutcome
  run_ok : String → StartOutcome

unfoldable pub start_runner :
    (String → Option ℕ)
    → ScaleSetController
    → String
    → StartOutcome
    → Time
    → ScaleSetController × List Effect
unfolding remove_github_runner
start_runner github d name jit_failed now =
    (record d { runners = remove name d.runners }, generate_jit name d.scale_set_id ∷ [])
start_runner github d name (run_failed jit) now = (
  record d { runners = remove name d.runners },
  generate_jit name d.scale_set_id
      ∷ run_backend name jit false
      ∷ cleanup name
      ∷ remove_github_runner github name,
)
start_runner github d name (run_ok jit) now = (
  record d { runners = mark_idle name now d.runners },
  generate_jit name d.scale_set_id ∷ run_backend name jit true ∷ [],
)

-- Cleans up the named runners, one after the other.
unfoldable pub cleanup_each : (String → Option ℕ) → List String → List Effect
unfolding remove_github_runner
cleanup_each github [] = []
cleanup_each github (name ∷ names) =
    cleanup name ∷ (remove_github_runner github name ++ cleanup_each github names)

unfoldable pub shutdown :
    (String → Option ℕ) → ScaleSetController → ScaleSetController × List Effect
unfolding cleanup_each
shutdown github d =
    let (runners, to_cleanup, preparing_count) = remove_all d.runners in
    (record d { runners = runners }, cleanup_each github to_cleanup)

-- Each expired runner is cleaned up in a goroutine of its own; the list has them one after another.
unfoldable pub reap_expired_idle_runners :
    (String → Option ℕ) → ScaleSetController → Time → ScaleSetController × List Effect
unfolding cleanup_each
reap_expired_idle_runners github d now =
    let (runners, expired) = remove_idle_older_than now d.idle_timeout d.runners in
    (record d { runners = runners }, cleanup_each github expired)

pub record RunnerSetInfo : Type 0 where
  pub name : String
  pub backend : String
  pub image : String
  pub labels : List String
  pub max_runners : ℕ

abbrev pub get_runner_set_info : ScaleSetController → RunnerSetInfo
get_runner_set_info d = record {
  name = d.rs_cfg.name;
  backend = d.rs_cfg.backend;
  image = d.rs_cfg.image;
  labels = d.rs_cfg.labels;
  max_runners = d.rs_cfg.max_runners;
}

abbrev pub get_runners : ScaleSetController → List RunnerSnapshot
get_runners d = snapshot d.runners
