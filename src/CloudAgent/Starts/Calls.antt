-- ===== src/CloudAgent/Starts/Calls.antt =====
-- commands.go and service.go: what the handlers of StartRunner and CleanupRunner do to the registry
-- and ask of the backends.
use elastic_fruit_runner.Base.{
  ◌≡◌, ◌⊎◌, refl, true, ◌&&◌, not, String, some, List, [], ◌∷◌, ◌++◌, ◌==◌, eq_iff, arith, contains,
  keep_if, lookup, map, insert, Option-cases, inl, inr,
}
use elastic_fruit_runner.Controller.Tracker.{Time}
use elastic_fruit_runner.CloudAgent.Agent.{
  Agent, BackendKey, same_key, backend_for, new_backend, track_runner, remember_runner_set,
}
use elastic_fruit_runner.CloudAgent.Commands.{
  StartRunner, cleans, reports_cleaned, handle_start_runner,
}
use elastic_fruit_runner.CloudAgent.Starts.{System, perform, perform_all}

abbrev pub forget_all : String → List String → List String
forget_all name names = keep_if (λ x. not (x == name)) names

pub contains-forget_all :
    (k name : String) (xs : List String)
    → contains k (forget_all name xs) ≡ (contains k xs && not (name == k))
unfolding contains keep_if
contains-forget_all k name [] = refl
contains-forget_all k name (x ∷ xs) =
    ground (arith, contains-forget_all k name xs, eq_iff x name, eq_iff x k, eq_iff name k)

pub backend_for_same :
    (spec : BackendKey) (a : Agent) (b : BackendKey) → (backend_for spec a).1 ≡ some b → b ≡ spec
unfolding backend_for new_backend
backend_for_same spec a b h = ground arith

pub same_key_self : (b : BackendKey) → same_key b b ≡ true
same_key_self b = ground (
  arith,
  eq_iff b.backend b.backend,
  eq_iff b.image b.image,
  eq_iff b.platform b.platform,
  eq_iff b.runtime b.runtime,
)

pub backend_for_keeps : (spec : BackendKey) (a : Agent) → (backend_for spec a).0.runners ≡ a.runners
unfolding backend_for
backend_for_keeps spec a = ground arith

-- What a StartRunner does to the map of runners: it adds the runner if it can and need.
pub handle_start_runner_adds :
    (id : String) (c : StartRunner) (now : Time) (a : Agent)
    → ((handle_start_runner id c now a).0.runners ≡ a.runners)
      ⊎ ((handle_start_runner id c now a).0.runners
          ≡ insert c.runner_name
              (record { set_name = c.runner_set_name; backend = c.spec })
              a.runners)
unfolding handle_start_runner track_runner remember_runner_set
handle_start_runner_adds id c now a =
    let kept = backend_for_keeps c.spec a in
    elim (Option-cases (backend_for c.spec a).1) [
      | inl refused ↦ inl (ground arith)
      | inr (b, found) ↦
          let same = backend_for_same c.spec a b found in
          elim (Option-cases (lookup c.runner_name a.runners)) [
            | inl unknown ↦ inr (ground arith)
            | inr (info, known) ↦ inl (ground arith)
          ]
    ]

pub handle_start_runner_performs :
    (home : String → BackendKey) (id : String) (c : StartRunner) (now : Time) (a : Agent)
    (s : System)
    → let s' = perform_all home (handle_start_runner id c now a).1 s in
      (s'.agent ≡ s.agent) × (s'.up ≡ s.up) × (s'.cleaning ≡ s.cleaning)
unfolding handle_start_runner perform_all perform
handle_start_runner_performs home id c now a s = (ground arith, ground arith, ground arith)

-- Asking every backend for a cleanup takes no cleanup back.
pub perform_cleans :
    (home : String → BackendKey) (id name : String) (bs : List BackendKey) (s : System)
    → let s' = perform_all home (map (λ b. cleans b name) bs ++ (reports_cleaned id name ∷ [])) s in
      (s'.agent ≡ s.agent)
      × (s'.up ≡ s.up)
      × ((k : String) → contains k s.cleaning ≡ true → contains k s'.cleaning ≡ true)
unfolding perform_all perform contains
perform_cleans home id name [] s = (refl, refl, λ k h. h)
perform_cleans home id name (b ∷ bs) s =
    let later = perform_cleans home id name bs (perform home (cleans b name) s) in
    (ground arith, ground arith, λ k h. later.2 k (ground arith))
