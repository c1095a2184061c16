-- ===== src/Console/Checklist/Ready.antt =====
-- internal/api/checklist.go, GetSetupChecklist: when all of its steps have passed.
use Prim.Native.String.{String}
use elastic_fruit_runner.Base.{
  ℕ, ◌≡◌, ◌≢◌, ◌↔◌, true, Option, none, some, List, [], ◌∷◌, ◌++◌, arith, Option-cases, inl, inr,
}
use elastic_fruit_runner.Config.{Config}
use elastic_fruit_runner.Config.Accepted.{All}
use elastic_fruit_runner.Console.{GithubProbe, BackendResult, CloudInfo, Listed, Server}
use elastic_fruit_runner.Console.Checklist.{
  config_step, cloud_step, github_steps, backend_steps, runner_set_step, first_job_step,
  steps_after, get_setup_checklist,
}
use elastic_fruit_runner.Console.Checklist.Steps.{
  passes, all_pass, IsConfirmed, IsAvailable, IsConnected, IsListed, all_pass-append,
  backend_steps_iff, github_steps_iff, runner_set_step_iff, first_job_step_iff, cloud_step_iff,
}

-- With a configuration: the probes of every backend have passed and there is a job. Without a
-- cloud, the probes of every target have passed and every runner set is connected; with one, the
-- stream to it is up.
abbrev pub IsReadyWith :
    Option CloudInfo → Option Listed → List GithubProbe → List BackendResult → Type 0
IsReadyWith none management github backends =
    ((github ≢ []) × All IsConfirmed github)
    × ((backends ≢ []) × All IsAvailable backends)
    × IsListed (λ listed. All IsConnected listed.runner_sets) management
    × IsListed (λ listed. listed.job_records ≢ []) management
IsReadyWith (some cloud) management github backends =
    (cloud.connected ≡ true)
    × ((backends ≢ []) × All IsAvailable backends)
    × IsListed (λ listed. listed.job_records ≢ []) management

abbrev pub IsReady :
    Option Config
    → Option CloudInfo
    → Option Listed
    → List GithubProbe
    → List BackendResult
    → Type 0
IsReady none cloud management github backends = ⊥
IsReady (some c) cloud management github backends = IsReadyWith cloud management github backends

module _ (day : ℕ → String) (s : Server) (github : List GithubProbe)
    (backends : List BackendResult) where
  steps_after_iff :
      (c : Config) (cloud : Option CloudInfo)
      → let s' = record s { active_config = some c; cloud = cloud } in
        (all_pass (steps_after day s' cloud github backends) ≡ true)
        ↔ IsReadyWith cloud s.management github backends
  unfolding steps_after
  steps_after_iff c none =
      let sets = runner_set_step s.uptime (some c) s.management in
      let job = first_job_step day none (some c) s.management in
      let found = backend_steps (some c) backends in
      let targets = github_steps_iff c github in
      let ready = backend_steps_iff (some c) backends in
      let connected = runner_set_step_iff s.uptime c s.management in
      let worked = first_job_step_iff day none c s.management in
      let split = all_pass-append (github_steps (some c) github) (found ++ sets ∷ job ∷ []) in
      let split' = all_pass-append found (sets ∷ job ∷ []) in
      (
        λ h.
            let a : (all_pass (github_steps (some c) github) ≡ true)
                × (all_pass found ≡ true)
                × (passes sets ≡ true)
                × (passes job ≡ true) =
              ground (arith, split, split') in
            (targets.0 a.0, ready.0 a.1, connected.0 a.2, worked.0 a.3),
        λ v.
            let a = targets.1 v.0 in
            let b = ready.1 v.1 in
            let d = connected.1 v.2 in let e = worked.1 v.3 in ground (arith, split, split'),
      )
  steps_after_iff c (some cloud) =
      let job = first_job_step day (some cloud) (some c) s.management in
      let found = backend_steps (some c) backends in
      let up = cloud_step_iff s.uptime cloud in
      let ready = backend_steps_iff (some c) backends in
      let worked = first_job_step_iff day (some cloud) c s.management in
      let split = all_pass-append found (job ∷ []) in
      (
        λ h.
            let a : (passes (cloud_step s.uptime cloud) ≡ true)
                × (all_pass found ≡ true)
                × (passes job ≡ true) =
              ground (arith, split) in
            (up.0 a.0, ready.0 a.1, worked.0 a.2),
        λ v.
            let a = up.1 v.0 in
            let b = ready.1 v.1 in let d = worked.1 v.2 in ground (arith, split),
      )

  -- Every step of GetSetupChecklist has passed just when there is a configuration, there are
  -- results of the backends' probes and all of them are available, a job has been recorded, and,
  -- without a cloud, there are results for the GitHub targets with no failed check among them and
  -- every runner set is connected; with a cloud, the stream to it is up.
  pub get_setup_checklist_iff :
      (all_pass (get_setup_checklist day s github backends) ≡ true)
      ↔ IsReady s.active_config s.cloud s.management github backends
  unfolding config_step
  get_setup_checklist_iff = elim (Option-cases s.active_config) [
    | inl missing ↦ rw missing (ground arith)
    | inr (c, found) ↦ rw found (steps_after_iff c s.cloud)
  ]
