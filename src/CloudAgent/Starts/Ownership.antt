-- ===== src/CloudAgent/Starts/Ownership.antt =====
-- commands.go: no runner that is up is forgotten.
use elastic_fruit_runner.Base.{
  ◌≡◌, refl, sym, ap, ◌∙◌, Bool, true, false, ◌||◌, String, some, List, [], ◌∷◌, ◌++◌, ◌==◌, eq_iff,
  if◌then◌else◌, arith, contains, erase, contains-erase_ne, lookup, lookup-insert, lookup-delete,
  is_some, map, Option-cases, Bool-cases, inl, inr,
}
use elastic_fruit_runner.Controller.Tracker.{Time, mark_idle}
use elastic_fruit_runner.Management.JobStore.{Faults, FinalReads}
use elastic_fruit_runner.Management.Provisional.{open_provisional_job, close_provisional_job}
use elastic_fruit_runner.CloudAgent.Agent.{
  Agent, BackendKey, RunnerInfo, same_key, confirm_runner_started, forget_runner, capable_backends,
  diagnostics_for,
}
use elastic_fruit_runner.CloudAgent.Commands.{
  StartRunner, cleans, reports_cleaned, with_jobs, placeholder_job_id, handle_start_runner,
  finish_start_runner, handle_cleanup_runner,
}
use elastic_fruit_runner.CloudAgent.Starts.{
  System, perform, perform_all, Event, start_requested, run_returned, cleanup_requested,
  cleanup_returned, settle, fire, IsEnabled,
}
use elastic_fruit_runner.CloudAgent.Starts.Calls.{
  contains-forget_all, same_key_self, handle_start_runner_adds, handle_start_runner_performs,
  perform_cleans,
}

pub record IsOwned (home : String → BackendKey) (s : System) : Type 0 where
  pub at_home :
      (name : String) (info : RunnerInfo)
      → lookup name s.agent.runners ≡ some info
      → info.backend ≡ home name
  pub covered :
      (name : String)
      → contains name s.up ≡ true
      → (is_some (lookup name s.agent.runners) || contains name s.cleaning) ≡ true

module _ (home : String → BackendKey) (to_json : List String → String) (fails : Faults) (s : System)
    (v : IsOwned home s) where
  requested-IsOwned :
      (id : String) (c : StartRunner) (now : Time)
      → c.spec ≡ home c.runner_name
      → IsOwned home (fire home to_json fails s (start_requested id c now))
  unfolding fire settle
  requested-IsOwned id c now h =
      let name = c.runner_name in
      let after = (handle_start_runner id c now s.agent).0 in
      let info : RunnerInfo = record { set_name = c.runner_set_name; backend = c.spec } in
      let kept = handle_start_runner_performs home id c now s.agent (record s { agent = after }) in
      let agent : (fire home to_json fails s (start_requested id c now)).agent ≡ after = kept.0 in
      elim (handle_start_runner_adds id c now s.agent) [
        | inl same ↦ record {
          at_home = λ k i e.
              v.at_home k i (sym (ap (lookup k) (ap (λ (x : Agent). x.runners) agent ∙ same)) ∙ e);
          covered = λ k u. ground (
            arith,
            v.covered k,
            ap (contains k) kept.1,
            ap (contains k) kept.2,
            ap (lookup k) (ap (λ (x : Agent). x.runners) agent ∙ same),
          );
        }
        | inr added ↦
            let now_found : (k : String)
                → lookup k (fire home to_json fails s (start_requested id c now)).agent.runners
                  ≡ (if name == k then some info else lookup k s.agent.runners) =
              λ k.
                ap (lookup k) (ap (λ (x : Agent). x.runners) agent ∙ added)
                ∙ lookup-insert name k info s.agent.runners in
            record {
              at_home = λ k i e. elim (Bool-cases (name == k)) [
                | inl here ↦
                    let same : name ≡ k = ground (arith, eq_iff name k) in
                    let spec : i.backend ≡ c.spec = ground (arith, now_found k) in
                    spec ∙ h ∙ ap home same
                | inr other ↦ v.at_home k i (ground (arith, now_found k))
              ];
              covered = λ k u.
                  ground (
                    arith,
                    v.covered k,
                    now_found k,
                    ap (contains k) kept.1,
                    ap (contains k) kept.2,
                  );
            }
      ]

  returned-IsOwned :
      (id : String) (c : StartRunner) (ok : Bool) (now : Time)
      → c.spec ≡ home c.runner_name
      → IsOwned home (fire home to_json fails s (run_returned id c ok now))
  unfolding fire settle perform_all perform finish_start_runner confirm_runner_started forget_runner
      diagnostics_for contains
  returned-IsOwned id c false now h =
      let name = c.runner_name in
      let here : same_key c.spec (home name) ≡ true = rw h (same_key_self (home name)) in
      let same : fire home to_json fails s (run_returned id c false now) ≡ record s {
        agent = (forget_runner name s.agent).0;
        in_flight = erase name s.in_flight;
        cleaning = name ∷ s.cleaning;
      } =
        rw here refl in
      let deleted = lookup-delete {V = RunnerInfo} name in
      rw same record {
        at_home = λ k i e. v.at_home k i (ground (arith, deleted k s.agent.runners));
        covered = λ k u. ground (arith, v.covered k, deleted k s.agent.runners, eq_iff name k);
      }
  returned-IsOwned id c true now h =
      let name = c.runner_name in
      let here : same_key c.spec (home name) ≡ true = rw h (same_key_self (home name)) in
      elim (Option-cases (lookup name s.agent.runners)) [
        | inl unknown ↦
            let same : fire home to_json fails s (run_returned id c true now) ≡ record s {
              in_flight = erase name s.in_flight;
              up = name ∷ s.up;
              cleaning = name ∷ s.cleaning;
            } =
              ground arith in
            rw same record {
              at_home = v.at_home;
              covered = λ k u. ground (arith, v.covered k, eq_iff name k);
            }
        | inr (info, known) ↦
            let opened : Agent = record s.agent {
              tracker = mark_idle name now s.agent.tracker;
              jobs =
                  open_provisional_job to_json fails now (placeholder_job_id name) c.runner_set_name
                    c.spec.backend name true s.agent.jobs;
            } in
            let same : fire home to_json fails s (run_returned id c true now) ≡ record s {
              agent = opened;
              in_flight = erase name s.in_flight;
              up = name ∷ s.up;
            } =
              ground arith in
            rw same record {
              at_home = λ k i e. v.at_home k i e;
              covered = λ k u. ground (arith, v.covered k, eq_iff name k);
            }
      ]

  cleanup-IsOwned :
      (id name : String) (reads : FinalReads) (now : Time)
      → IsOwned home (fire home to_json fails s (cleanup_requested id name reads now))
  unfolding fire settle perform_all perform handle_cleanup_runner forget_runner capable_backends
      contains
  cleanup-IsOwned id name reads now =
      let closed : Agent =
        with_jobs (forget_runner name s.agent).0
          (close_provisional_job fails now reads (placeholder_job_id name) s.agent.jobs) in
      let deleted = lookup-delete {V = RunnerInfo} name in
      elim (Option-cases (lookup name s.agent.runners)) [
        | inl unknown ↦
            let all = capable_backends closed in
            let s' : System = record s { agent = all.0 } in
            let actions = map (λ b. cleans b name) all.1 ++ (reports_cleaned id name ∷ []) in
            let same : fire home to_json fails s (cleanup_requested id name reads now)
                ≡ perform_all home actions s' =
              ground arith in
            let kept = perform_cleans home id name all.1 s' in
            rw same record {
              at_home = λ k i e. v.at_home k i (
                  ground (
                    arith,
                    ap (λ (x : Agent). lookup k x.runners) kept.0,
                    deleted k s.agent.runners,
                  ));
              covered = λ k u. ground (
                arith,
                ap (λ (x : Agent). lookup k x.runners) kept.0,
                ap (contains k) kept.1,
                kept.2 k,
                v.covered k,
                deleted k s.agent.runners,
                eq_iff name k,
              );
            }
        | inr (info, known) ↦
            let here : same_key info.backend (home name) ≡ true =
              rw (v.at_home name info known) (same_key_self (home name)) in
            let same : fire home to_json fails s (cleanup_requested id name reads now)
                ≡ record s { agent = closed; cleaning = name ∷ s.cleaning } =
              ground arith in
            rw same record {
              at_home = λ k i e. v.at_home k i (ground (arith, deleted k s.agent.runners));
              covered =
                  λ k u. ground (arith, v.covered k, deleted k s.agent.runners, eq_iff name k);
            }
      ]

  cleaned-IsOwned :
      (name : String) → IsOwned home (fire home to_json fails s (cleanup_returned name))
  unfolding fire
  cleaned-IsOwned name = record {
    at_home = v.at_home;
    covered = λ k h. elim (Bool-cases (name == k)) [
      | inl same ↦ absurd (ground (arith, contains-forget_all k name s.up))
      | inr other ↦ ground (
        arith,
        contains-forget_all k name s.up,
        v.covered k,
        eq_iff name k,
        contains-erase_ne name k s.cleaning (λ e. ground (arith, eq_iff name k)),
      )
    ];
  }

  fire-IsOwned : (e : Event) → IsEnabled home s e → IsOwned home (fire home to_json fails s e)
  fire-IsOwned (start_requested id c now) h = requested-IsOwned id c now h
  fire-IsOwned (run_returned id c ok now) h = returned-IsOwned id c ok now h.0
  fire-IsOwned (cleanup_requested id name reads now) h = cleanup-IsOwned id name reads now
  fire-IsOwned (cleanup_returned name) h = cleaned-IsOwned name

module _ (home : String → BackendKey) (to_json : List String → String) (fails : Faults) where
  pub data Reach (s : System) : System → Type 0 where
    here : Reach s s
    next :
        {t : System} (e : Event)
        → Reach s t
        → IsEnabled home t e
        → Reach s (fire home to_json fails t e)

  -- However StartRunner and CleanupRunner commands and the ends of their backend calls interleave,
  -- from a system where it holds and as long as the cloud names one backend for each runner: every runner that is up is known to the
  -- agent, under the backend it runs on, or a cleanup of it on its backend is under way.
  pub Reach-IsOwned : {s t : System} → IsOwned home s → Reach s t → IsOwned home t
  Reach-IsOwned v here = v
  Reach-IsOwned v (next {t} e r h) = fire-IsOwned home to_json fails t (Reach-IsOwned v r) e h
