-- ===== src/CloudAgent/Sets.antt =====
-- internal/cloudagent: CleanupRunnerSet (commands.go, service.go), the isolation level that is
-- reported (service.go), and the bounded queue of samples (samples.go). The order in which the code
-- ranges over the map of runners is the order of the model's map.
pub mod Forgotten
use Prim.Native.String.{compare}
use text.Mathlib.Text.{is_le}
use elastic_fruit_runner.Base.{
  ℕ, zero, suc, ◌≡◌, refl, Bool, true, false, ◌&&◌, ◌||◌, not, String, Option, none, some, List, [],
  ◌∷◌, ◌++◌, ◌==◌, eq_iff, arith, map, if◌then◌else◌, Map, lookup, delete, contains, is_some,
  length, ltb, Option-cases, Bool-cases, inl, inr,
}
use elastic_fruit_runner.Storage.Jobs.{ResourceSample}
use elastic_fruit_runner.Config.Text.{has_prefix}
use elastic_fruit_runner.Controller.Tracker.{Time, RunnerTracker, remove}
use elastic_fruit_runner.Management.JobStore.{Faults, FinalReads, JobStore}
use elastic_fruit_runner.Management.Provisional.{close_provisional_job}
use elastic_fruit_runner.CloudAgent.Agent.{
  Agent, BackendKey, RunnerInfo, RunnerSetState, same_key, has_key, capable_backends,
}
use elastic_fruit_runner.CloudAgent.Commands.{placeholder_job_id, with_jobs}

-- The loop over the runners, with the instances that are listed already: the runners that stay, the
-- names that go, and the instances of these, each once.
unfoldable pub forget_set :
    String → List BackendKey → Map RunnerInfo → Map RunnerInfo × List String × List BackendKey
forget_set set_name seen [] = ([], [], [])
forget_set set_name seen ((name, info) ∷ runners) =
    let here = info.set_name == set_name in
    let (kept, removed, backends) =
      forget_set set_name (if here then info.backend ∷ seen else seen) runners in
    if here
    then (
      kept,
      name ∷ removed,
      if has_key info.backend seen then backends else info.backend ∷ backends,
    )
    else ((name, info) ∷ kept, removed, backends)

unfoldable pub remove_each : List String → RunnerTracker → RunnerTracker
remove_each [] tracker = tracker
remove_each (name ∷ names) tracker = remove_each names (remove name tracker)

-- The instance with which the set itself was last named, without a runtime.
unfoldable pub backend_of_set : String → Agent → List BackendKey → List BackendKey
backend_of_set set_name a backends = elim (lookup set_name a.runner_sets) [
  | none ↦ backends
  | some state ↦
      let key : BackendKey = record {
        backend = state.backend;
        image = state.image;
        platform = state.platform;
        runtime = "";
      } in
      if has_key key a.backends && not (has_key key backends)
      then backends ++ (key ∷ [])
      else backends
]

-- sort.Strings
unfoldable pub insert_name : String → List String → List String
insert_name name [] = name ∷ []
insert_name name (n ∷ names) =
    let rest = insert_name name names in
    if is_le (compare name n) then name ∷ n ∷ names else n ∷ rest

unfoldable pub sort_names : List String → List String
unfolding insert_name
sort_names [] = []
sort_names (name ∷ names) = insert_name name (sort_names names)

unfoldable pub forget_runner_set : String → Agent → Agent × List String × List BackendKey
forget_runner_set set_name a =
    let (kept, removed, backends) = forget_set set_name [] a.runners in
    (
      record a { runners = kept; tracker = remove_each removed a.tracker },
      sort_names removed,
      backend_of_set set_name a backends,
    )

-- What the handler asks of a backend and reports, in order.
pub data SetAction : Type 0 where
  cleans_all : BackendKey → String → SetAction
  reports_cleaned_of_set : String → String → SetAction

unfoldable pub close_each :
    Faults → (String → FinalReads) → Time → List String → JobStore → JobStore
unfolding placeholder_job_id
close_each fails reads now [] jobs = jobs
close_each fails reads now (name ∷ names) jobs =
    close_each fails reads now names
      (close_provisional_job fails now (reads name) (placeholder_job_id name) jobs)

-- Every backend of the host for a set that has none.
abbrev pub backends_or_capable : Agent → List BackendKey → Agent × List BackendKey
backends_or_capable a [] = capable_backends a
backends_or_capable a (b ∷ bs) = (a, b ∷ bs)

unfoldable pub handle_cleanup_runner_set :
    Faults → String → String → (String → FinalReads) → Time → Agent → Agent × List SetAction
handle_cleanup_runner_set fails id set_name reads now a =
    let (forgotten, removed, found) = forget_runner_set set_name a in
    let (a', backends) = backends_or_capable forgotten found in
    (
      with_jobs a' (close_each fails reads now removed a'.jobs),
      map (λ b. cleans_all b set_name) backends ++ map (reports_cleaned_of_set id) removed,
    )

-- A probed backend, with the container runtimes that it has.
pub record ProbedBackend : Type 0 where
  pub backend : String
  pub runtimes : List String

-- isolationFor, from the backends that are left on; the two flags stand for those before.
unfoldable pub isolation_from : Bool → Bool → List ProbedBackend → String
isolation_from has_docker has_tart [] = if has_tart && not has_docker then "vm" else "container"
isolation_from has_docker has_tart (b ∷ bs) =
    let after_docker = isolation_from true has_tart bs in
    let after_tart = isolation_from has_docker true bs in
    let after_other = isolation_from has_docker has_tart bs in
    if b.backend == "docker"
    then (if contains "runsc" b.runtimes then "sandboxed_container" else after_docker)
    else if b.backend == "tart"
    then after_tart
    else after_other

unfoldable pub isolation_for : List ProbedBackend → String
isolation_for backends = isolation_from false false backends

pub record SampleReport : Type 0 where
  pub job_id : String
  pub runner_name : String
  pub sample : ResourceSample

abbrev pub sample_queue_size : ℕ
sample_queue_size = 256

unfoldable pub is_placeholder_job_id : String → Bool
is_placeholder_job_id job_id = has_prefix "pending-" job_id

-- The runner of a job, and the empty text for an unknown job.
unfoldable pub job_runner_name : String → Agent → String
job_runner_name job_id a = elim (lookup job_id a.job_runners) [ none ↦ "" | some name ↦ name ]

-- The channel holds the oldest report first; a full one drops the new report.
unfoldable pub observe_sample :
    String → ResourceSample → Agent → List SampleReport → List SampleReport
observe_sample job_id sample a queue =
    if is_placeholder_job_id job_id
    then queue
    else if ltb (length queue) sample_queue_size
    then queue
      ++ (record { job_id = job_id; runner_name = job_runner_name job_id a; sample = sample } ∷ [])
    else queue
