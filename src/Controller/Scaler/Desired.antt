-- ===== src/Controller/Scaler/Desired.antt =====
-- scaler.go, HandleDesiredRunnerCount: how many runners one call starts.
use elastic_fruit_runner.Base.{
  ℕ, zero, suc, ◌+◌, ◌≤◌, ◌<◌, ◌≡◌, ◌≢◌, refl, false, String, Option, List, [], ◌∷◌, map, arith,
  max, min, lookup, lookup-insert, eq_iff, is_some,
}
use elastic_fruit_runner.Controller.Tracker.{Time, RunnerTracker, mark_starting, count}
use elastic_fruit_runner.Controller.Tracker.Counting.{count-mark_starting}
use elastic_fruit_runner.Controller.Scaler.{
  RunnerSetConfig, ScaleSetController, spawn, runner_name, spawn_runners, needed,
  handle_desired_runner_count,
}

-- The names that the first `n` rounds from the end draw, the last round first.
abbrev pub drawn : RunnerSetConfig → (ℕ → String) → ℕ → List String
drawn cfg suffix zero = []
drawn cfg suffix (suc n) = runner_name cfg (suffix n) ∷ drawn cfg suffix n

-- No drawn name is being prepared, and none is drawn twice.
pub record IsFresh (cfg : RunnerSetConfig) (suffix : ℕ → String) (n : ℕ) (r : RunnerTracker)
    : Type 0 where
  pub untracked :
      (i : ℕ) → i < n → is_some (lookup (runner_name cfg (suffix i)) r.preparing) ≡ false
  pub distinct : (i j : ℕ) → i < j → j < n → runner_name cfg (suffix i) ≢ runner_name cfg (suffix j)

module _ (cfg : RunnerSetConfig) (ctx : Option ℕ) (suffix : ℕ → String) (clock : ℕ → Time) where
  pub spawn_runners_bounds :
      (n : ℕ) (r : RunnerTracker)
      → (count r ≤ count (spawn_runners cfg ctx suffix clock n r).0)
        × (count (spawn_runners cfg ctx suffix clock n r).0 ≤ count r + n)
  unfolding spawn_runners
  spawn_runners_bounds zero r = omega arith
  spawn_runners_bounds (suc n) r =
      let name = runner_name cfg (suffix n) in
      let r' = mark_starting name (clock n) r in
      let later = spawn_runners_bounds n r' in ground (arith, count-mark_starting name (clock n) r)

  IsFresh-mark_starting :
      (n : ℕ) (r : RunnerTracker)
      → IsFresh cfg suffix (suc n) r
      → IsFresh cfg suffix n (mark_starting (runner_name cfg (suffix n)) (clock n) r)
  unfolding mark_starting
  IsFresh-mark_starting n r f = record {
    untracked = λ i h.
        let name = runner_name cfg (suffix i) in
        let last = runner_name cfg (suffix n) in
        let other = f.distinct i n h (omega arith) in
        let absent = f.untracked i (omega arith) in
        ground (arith, lookup-insert last name (clock n) r.preparing, eq_iff last name);
    distinct = λ i j h k. f.distinct i j h (omega arith);
  }

  pub spawn_runners_exact :
      (n : ℕ) (r : RunnerTracker)
      → IsFresh cfg suffix n r
      → count (spawn_runners cfg ctx suffix clock n r).0 ≡ count r + n
  unfolding spawn_runners
  spawn_runners_exact zero r f = omega arith
  spawn_runners_exact (suc n) r f =
      let name = runner_name cfg (suffix n) in
      let absent = f.untracked n (omega arith) in
      let later =
        spawn_runners_exact n (mark_starting name (clock n) r) (IsFresh-mark_starting n r f) in
      ground (arith, count-mark_starting name (clock n) r)

  pub spawn_runners_effects :
      (n : ℕ) (r : RunnerTracker)
      → (spawn_runners cfg ctx suffix clock n r).1 ≡ map (spawn ctx) (drawn cfg suffix n)
  unfolding spawn_runners
  spawn_runners_effects zero r = refl
  spawn_runners_effects (suc n) r =
      rw (spawn_runners_effects n (mark_starting (runner_name cfg (suffix n)) (clock n) r))

-- HandleDesiredRunnerCount answers the number of tracked runners after the call. It is never below the number before,
-- and above it only up to the wanted number, which `MaxRunners` caps. One goroutine is launched for
-- each missing runner.
pub desired_bounds :
    (d : ScaleSetController) (desired : ℕ) (suffix : ℕ → String) (clock : ℕ → Time)
    → let (d', answer, effects) = handle_desired_runner_count d desired suffix clock in
      (answer ≡ count d'.runners)
      × (count d.runners ≤ answer)
      × (answer ≤ max (count d.runners) (min desired d.rs_cfg.max_runners))
      × (effects ≡ map (spawn d.runners.runner_ctx) (drawn d.rs_cfg suffix (needed d desired)))
unfolding handle_desired_runner_count
desired_bounds d desired suffix clock =
    let bounds =
      spawn_runners_bounds d.rs_cfg d.runners.runner_ctx suffix clock (needed d desired)
        d.runners in
    (
      refl,
      bounds.0,
      omega arith,
      spawn_runners_effects d.rs_cfg d.runners.runner_ctx suffix clock (needed d desired) d.runners,
    )

-- If the random names are new, HandleDesiredRunnerCount answers exactly the wanted number, capped
-- by `MaxRunners`, or the number of runners that were tracked before if that was larger.
pub desired_exact :
    (d : ScaleSetController) (desired : ℕ) (suffix : ℕ → String) (clock : ℕ → Time)
    → IsFresh d.rs_cfg suffix (needed d desired) d.runners
    → (handle_desired_runner_count d desired suffix clock).1
      ≡ max (count d.runners) (min desired d.rs_cfg.max_runners)
unfolding handle_desired_runner_count
desired_exact d desired suffix clock f = omega (
  arith,
  spawn_runners_exact d.rs_cfg d.runners.runner_ctx suffix clock (needed d desired) d.runners f,
)
