-- ===== src/CloudAgent/Agent.antt =====
-- internal/cloudagent/service.go: what the agent knows of backends, runner sets and runners.
-- Every method holds the agent's mutex, so it is one step. A backend instance is shared by its key,
-- so the key stands for it, and both kinds of backend have diagnostics. A backend is never nil in
-- the map of runners, because only `trackRunner` writes there.
use elastic_fruit_runner.Base.{
  Bool, true, false, ◌&&◌, String, Option, none, some, List, [], ◌∷◌, ◌++◌, ◌==◌, if◌then◌else◌,
  keep_if, Map, lookup, insert, delete,
}
use elastic_fruit_runner.Controller.Tracker.{
  Time, RunnerState, RunnerSnapshot, RunnerTracker, mark_starting, mark_idle, remove, snapshot,
}
use elastic_fruit_runner.Management.JobStore.{JobStore}

-- backend.Spec and backendKey
pub record BackendKey : Type 0 where
  pub backend : String
  pub image : String
  pub platform : String
  pub runtime : String

pub record RunnerSetState : Type 0 where
  pub backend : String
  pub image : String
  pub platform : String

pub record RunnerInfo : Type 0 where
  pub set_name : String
  pub backend : BackendKey

-- `available` has the names of the backends that passed the probe.
pub record Agent : Type 0 where
  pub jobs : JobStore
  pub tracker : RunnerTracker
  pub available : List String
  pub backends : List BackendKey
  pub runner_sets : Map RunnerSetState
  pub runners : Map RunnerInfo
  pub job_runners : Map String

-- internal/backend/new.go, New
unfoldable pub new_backend : BackendKey → Option BackendKey
new_backend spec =
    if spec.backend == "tart"
    then (if spec.runtime == "" then some spec else none)
    else if spec.backend == "docker"
    then some spec
    else none

abbrev pub same_key : BackendKey → BackendKey → Bool
same_key a b =
    a.backend == b.backend
    && a.image == b.image
    && a.platform == b.platform
    && a.runtime == b.runtime

unfoldable pub has_key : BackendKey → List BackendKey → Bool
has_key key [] = false
has_key key (b ∷ bs) = let rest = has_key key bs in if same_key b key then true else rest

-- `none` is an error.
unfoldable pub backend_for : BackendKey → Agent → Agent × Option BackendKey
unfolding new_backend has_key
backend_for spec a = if has_key spec a.backends then (a, some spec) else elim (new_backend spec) [
  | none ↦ (a, none)
  | some b ↦ (record a { backends = b ∷ a.backends }, some b)
]

abbrev non_empty_or : String → String → String
non_empty_or text old = if text == "" then old else text

unfoldable pub remember_runner_set : String → String → String → String → Agent → Agent
remember_runner_set name backend_name image platform a =
    let state : RunnerSetState = elim (lookup name a.runner_sets) [
      | none ↦ record { backend = ""; image = ""; platform = "" }
      | some state ↦ state
    ] in
    record a {
      runner_sets =
          insert name
            (record {
              backend = backend_name;
              image = non_empty_or image state.image;
              platform = non_empty_or platform state.platform;
            })
            a.runner_sets;
    }

unfoldable pub track_runner : String → String → BackendKey → Time → Agent → Agent × Bool
track_runner name set_name b now a = elim (lookup name a.runners) [
  | some info ↦ (a, false)
  | none ↦ (
    record a {
      runners = insert name (record { set_name = set_name; backend = b }) a.runners;
      tracker = mark_starting name now a.tracker;
    },
    true,
  )
]

unfoldable pub confirm_runner_started : String → Time → Agent → Agent × Bool
confirm_runner_started name now a = elim (lookup name a.runners) [
  | none ↦ (a, false)
  | some info ↦ (record a { tracker = mark_idle name now a.tracker }, true)
]

unfoldable pub forget_runner : String → Agent → Agent × Option RunnerInfo
forget_runner name a = (
  record a { runners = delete name a.runners; tracker = remove name a.tracker },
  lookup name a.runners,
)

unfoldable pub state_in : String → List RunnerSnapshot → Option RunnerState
state_in name [] = none
state_in name (r ∷ rs) = if r.name == name then some r.state else state_in name rs

unfoldable pub runner_state : String → Agent → Option RunnerState
unfolding state_in
runner_state name a = state_in name (snapshot a.tracker)

-- The cached instances of a backend, or a new one.
unfoldable pub capable : List String → List BackendKey → List BackendKey × List BackendKey
unfolding new_backend
capable [] cached = (cached, [])
capable (name ∷ names) cached =
    let found = keep_if (λ b. b.backend == name) cached in
    let plain : BackendKey = record { backend = name; image = ""; platform = ""; runtime = "" } in
    let (cached', bs) = capable names (elim found [
      | b ∷ others ↦ cached
      | [] ↦ elim (new_backend plain) [ none ↦ cached | some b ↦ b ∷ cached ]
    ]) in
    (
      cached',
      elim found [
        | b ∷ others ↦ b ∷ others
        | [] ↦ elim (new_backend plain) [ none ↦ [] | some b ↦ b ∷ [] ]
      ]
          ++ bs,
    )

unfoldable pub capable_backends : Agent → Agent × List BackendKey
unfolding capable
capable_backends a =
    let (cached, bs) = capable a.available a.backends in (record a { backends = cached }, bs)

-- Whether a backend with diagnostics is found for a runner.
unfoldable pub diagnostics_for : String → String → Agent → Bool
diagnostics_for runner_name backend_name a = elim (lookup runner_name a.runners) [
  | some info ↦ true
  | none ↦ elim (keep_if (λ b. b.backend == backend_name) a.backends) [
    | [] ↦ false
    | b ∷ others ↦ true
  ]
]
