-- ===== src/Console/Checklist/Steps.antt =====
-- internal/api/checklist.go: when each step of the checklist has passed.
use Prim.Native.String.append.{nil, cons}
use Prim.Native.Char.{Char}
use Prim.Native.String.{String}
use elastic_fruit_runner.Base.{
  ℕ, ◌≡◌, ◌≢◌, ◌↔◌, refl, sym, ap, ◌∙◌, Bool, true, false, ◌&&◌, Option, none, some, List, [], ◌∷◌,
  ◌++◌, append_text, eq_iff, arith,
}
use elastic_fruit_runner.Config.{Config}
use elastic_fruit_runner.Config.Accepted.{All}
use elastic_fruit_runner.Controller.Tracker.{Duration}
use elastic_fruit_runner.Management.History.{JobRecord}
use elastic_fruit_runner.Management.Service.{RunnerSetView}
use elastic_fruit_runner.Console.{
  step_pass, step_fail, step_pending, step_skipped, SetupStep, check_fail, Check, GithubProbe,
  BackendResult, CloudInfo, Listed,
}
use elastic_fruit_runner.Console.Checklist.{
  cloud_step, first_failure_of, github_step, each_target, github_steps, backend_step, each_backend,
  backend_steps, sets_status, runner_set_step, latest_job, first_job_step,
}

abbrev pub passes : SetupStep → Bool
passes step = elim step.status [
  | step_pass ↦ true
  | step_fail ↦ false
  | step_pending ↦ false
  | step_skipped ↦ false
]

abbrev pub all_pass : List SetupStep → Bool
all_pass [] = true
all_pass (step ∷ steps) = passes step && all_pass steps

abbrev pub HasNoFailure : List Check → Type 0
HasNoFailure checks = All (λ check. check.status ≢ check_fail) checks

abbrev pub IsConfirmed : GithubProbe → Type 0
IsConfirmed result = HasNoFailure result.checks

abbrev pub IsAvailable : BackendResult → Type 0
IsAvailable result = result.available ≡ true

abbrev pub IsConnected : RunnerSetView → Type 0
IsConnected view = view.connected ≡ true

abbrev pub IsListed : (Listed → Type 0) → Option Listed → Type 0
IsListed P none = ⊥
IsListed P (some listed) = P listed

pub all_pass-append : (a b : List SetupStep) → all_pass (a ++ b) ≡ all_pass a && all_pass b
all_pass-append [] b = refl
all_pass-append (step ∷ a) b = ground (arith, all_pass-append a b)

abbrev is_text : String → Bool
is_text String.[] = false
is_text (String.◌∷◌ c s) = true

some_text : (c : Char) (s : String) → String.◌∷◌ c s ≢ ""
some_text c s h = absurd (ground (arith, ap is_text h))

append_text-left : (a b : String) → a ≢ "" → append_text a b ≢ ""
append_text-left String.[] b n h = absurd (n refl)
append_text-left (String.◌∷◌ c a) b n h =
    some_text c (append_text a b) (sym (λ i. cons c a b i) ∙ h)

append_text-right : (a b : String) → b ≢ "" → append_text a b ≢ ""
append_text-right String.[] b n h = n (sym (λ i. nil b i) ∙ h)
append_text-right (String.◌∷◌ c a) b n h =
    some_text c (append_text a b) (sym (λ i. cons c a b i) ∙ h)

named_failure : (name message : String) → append_text name (append_text ": " message) ≢ ""
named_failure name message =
    append_text-right name (append_text ": " message)
      (append_text-left ": " message (λ h. ground (arith, eq_iff ": " "")))

first_failure_of_iff : (checks : List Check) → (first_failure_of checks ≡ "") ↔ HasNoFailure checks
unfolding first_failure_of
first_failure_of_iff [] = (λ h. tt, λ h. refl)
first_failure_of_iff (check ∷ checks) =
    ground (arith, first_failure_of_iff checks, named_failure check.name check.message)

each_target_iff :
    (results : List GithubProbe) → (all_pass (each_target results) ≡ true) ↔ All IsConfirmed results
unfolding each_target github_step
each_target_iff [] = (λ h. tt, λ h. refl)
each_target_iff (result ∷ results) = ground (
  arith,
  each_target_iff results,
  first_failure_of_iff result.checks,
  eq_iff (first_failure_of result.checks) "",
)

each_backend_iff :
    (page : String) (results : List BackendResult)
    → (all_pass (each_backend page results) ≡ true) ↔ All IsAvailable results
unfolding each_backend backend_step
each_backend_iff page [] = (λ h. tt, λ h. refl)
each_backend_iff page (result ∷ results) = ground (arith, each_backend_iff page results)

sets_status_iff :
    (uptime : Duration) (views : List RunnerSetView)
    → (passes (sets_status uptime views) ≡ true) ↔ All IsConnected views
unfolding sets_status
sets_status_iff uptime [] = (λ h. tt, λ h. refl)
sets_status_iff uptime (view ∷ views) = ground (arith, sets_status_iff uptime views)

pub backend_steps_iff :
    (config : Option Config) (results : List BackendResult)
    → (all_pass (backend_steps config results) ≡ true) ↔ ((results ≢ []) × All IsAvailable results)
unfolding backend_steps
backend_steps_iff config [] = ground arith
backend_steps_iff none (result ∷ results) =
    let each = each_backend_iff "setup" (result ∷ results) in
    (λ h. (λ e. absurd (ground arith), each.0 h), λ v. each.1 v.1)
backend_steps_iff (some c) (result ∷ results) =
    let each = each_backend_iff "config" (result ∷ results) in
    (λ h. (λ e. absurd (ground arith), each.0 h), λ v. each.1 v.1)

pub github_steps_iff :
    (c : Config) (results : List GithubProbe)
    → (all_pass (github_steps (some c) results) ≡ true) ↔ ((results ≢ []) × All IsConfirmed results)
unfolding github_steps
github_steps_iff c [] = ground arith
github_steps_iff c (result ∷ results) =
    let each = each_target_iff (result ∷ results) in
    (λ h. (λ e. absurd (ground arith), each.0 h), λ v. each.1 v.1)

pub runner_set_step_iff :
    (uptime : Duration) (c : Config) (management : Option Listed)
    → (passes (runner_set_step uptime (some c) management) ≡ true)
      ↔ IsListed (λ listed. All IsConnected listed.runner_sets) management
unfolding runner_set_step
runner_set_step_iff uptime c none = ground arith
runner_set_step_iff uptime c (some listed) = sets_status_iff uptime listed.runner_sets

latest_job_iff :
    (day : ℕ → String) (cloud : Option CloudInfo) (c : Config) (jobs : List JobRecord)
    → (passes (latest_job day cloud c jobs) ≡ true) ↔ (jobs ≢ [])
unfolding latest_job
latest_job_iff day none c [] = ground arith
latest_job_iff day (some cloud) c [] = ground arith
latest_job_iff day cloud c (job ∷ jobs) = (λ h e. absurd (ground arith), λ n. refl)

pub first_job_step_iff :
    (day : ℕ → String) (cloud : Option CloudInfo) (c : Config) (management : Option Listed)
    → (passes (first_job_step day cloud (some c) management) ≡ true)
      ↔ IsListed (λ listed. listed.job_records ≢ []) management
unfolding first_job_step
first_job_step_iff day cloud c none = ground arith
first_job_step_iff day cloud c (some listed) = latest_job_iff day cloud c listed.job_records

pub cloud_step_iff :
    (uptime : Duration) (cloud : CloudInfo)
    → (passes (cloud_step uptime cloud) ≡ true) ↔ (cloud.connected ≡ true)
unfolding cloud_step
cloud_step_iff uptime cloud = ground arith
