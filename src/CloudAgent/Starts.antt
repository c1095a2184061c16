-- ===== src/CloudAgent/Starts.antt =====
-- commands.go: StartRunner and CleanupRunner, whose goroutines run side by side. A handler is one
-- step up to its next call of a backend; the call itself ends at any later time.
pub mod Calls
pub mod Ownership
use elastic_fruit_runner.Base.{
  ◌≡◌, ◌⊎◌, refl, sym, ap, ◌∙◌, Bool, true, false, ◌&&◌, ◌||◌, not, String, some, List, [], ◌∷◌,
  ◌++◌, ◌==◌, eq_iff, if◌then◌else◌, arith, contains, erase, contains-erase_ne, keep_if, lookup,
  lookup-insert, lookup-delete, is_some, map, insert, Option-cases, Bool-cases, inl, inr,
}
use elastic_fruit_runner.Controller.Tracker.{Time, mark_idle}
use elastic_fruit_runner.Management.JobStore.{Faults, FinalReads}
use elastic_fruit_runner.Management.Provisional.{open_provisional_job, close_provisional_job}
use elastic_fruit_runner.CloudAgent.Agent.{
  Agent, BackendKey, RunnerInfo, same_key, backend_for, new_backend, track_runner,
  confirm_runner_started, forget_runner, capable_backends, remember_runner_set, diagnostics_for,
}
use elastic_fruit_runner.CloudAgent.Commands.{
  StartRunner, Action, launches, cleans, reports_started, reports_start_failed, reports_cleaned,
  with_jobs, placeholder_job_id, handle_start_runner, finish_start_runner, handle_cleanup_runner,
}

-- `in_flight` has the runners for which `backend.Run` is running, `up` those for which it has
-- succeeded and that no `backend.Cleanup` has removed since, `cleaning` those for which a `Cleanup` on
-- their backend has been called and has not ended.
pub record System : Type 0 where
  pub agent : Agent
  pub in_flight : List String
  pub up : List String
  pub cleaning : List String

-- `home` has the backend that the cloud names for each runner.
module _ (home : String → BackendKey) where
  unfoldable pub perform : Action → System → System
  perform (launches id c b) s = record s { in_flight = c.runner_name ∷ s.in_flight }
  perform (cleans b name) s =
      if same_key b (home name) then record s { cleaning = name ∷ s.cleaning } else s
  perform (reports_started id name) s = s
  perform (reports_start_failed id name) s = s
  perform (reports_cleaned id name) s = s

  unfoldable pub perform_all : List Action → System → System
  perform_all [] s = s
  perform_all (x ∷ xs) s = perform_all xs (perform x s)

pub data Event : Type 0 where
  start_requested : String → StartRunner → Time → Event
  -- whether `backend.Run` succeeded
  run_returned : String → StartRunner → Bool → Time → Event
  cleanup_requested : String → String → FinalReads → Time → Event
  cleanup_returned : String → Event

module _ (home : String → BackendKey) (to_json : List String → String) (fails : Faults) where
  unfoldable pub settle : System → Agent × List Action → System
  settle s (a, actions) = perform_all home actions (record s { agent = a })

  unfoldable pub fire : System → Event → System
  unfolding settle
  fire s (start_requested id c now) = settle s (handle_start_runner id c now s.agent)
  fire s (run_returned id c ok now) =
      settle
        (record s {
          in_flight = erase c.runner_name s.in_flight;
          up = if ok then c.runner_name ∷ s.up else s.up;
        })
        (finish_start_runner to_json fails id c c.spec ok now s.agent)
  fire s (cleanup_requested id name reads now) =
      settle s (handle_cleanup_runner to_json fails id name reads now s.agent)
  fire s (cleanup_returned name) = record s {
    up = keep_if (λ x. not (x == name)) s.up;
    cleaning = erase name s.cleaning;
  }

-- What an event needs: a start names the backend of its runner, and a call that returns was running.
abbrev pub IsEnabled : (String → BackendKey) → System → Event → Type 0
IsEnabled home s (start_requested id c now) = c.spec ≡ home c.runner_name
IsEnabled home s (run_returned id c ok now) =
    (c.spec ≡ home c.runner_name) × (contains c.runner_name s.in_flight ≡ true)
IsEnabled home s (cleanup_requested id name reads now) = Unit {0}
IsEnabled home s (cleanup_returned name) = contains name s.cleaning ≡ true
