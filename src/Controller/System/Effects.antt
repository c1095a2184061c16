-- ===== src/Controller/System/Effects.antt =====
-- What the effects of scaler.go's handlers do to the lists of a system.
use elastic_fruit_runner.Base.{
  ℕ, zero, suc, ◌<◌, ◌≡◌, ◌≢◌, refl, ◌∙◌, ap, true, false, ◌||◌, String, Option, List, [], ◌∷◌,
  ◌++◌, map, arith, contains, eq_iff, ◌==◌, AllDifferent, inl, inr, Bool-cases,
}
use elastic_fruit_runner.Controller.Tracker.{Time, RunnerTracker, mark_starting}
use elastic_fruit_runner.Controller.Scaler.{
  RunnerSetConfig, Effect, spawn, remove_github_runner, cleanup_each, spawn_runners, runner_name,
}
use elastic_fruit_runner.Controller.Scaler.Desired.{drawn}
use elastic_fruit_runner.Controller.System.{System, perform, perform_all}

-- The names put in front, one after the other.
pub push_all : List String → List String → List String
push_all [] xs = xs
push_all (n ∷ ns) xs = push_all ns (n ∷ xs)

pub contains-push_all :
    (k : String) (ns xs : List String)
    → contains k (push_all ns xs) ≡ (contains k ns || contains k xs)
unfolding push_all contains
contains-push_all k [] xs = refl
contains-push_all k (n ∷ ns) xs = ground (arith, contains-push_all k ns (n ∷ xs))

-- Names that repeat none of `xs` and not one another.
abbrev pub Apart : List String → List String → Type 0
Apart [] xs = Unit {0}
Apart (n ∷ ns) xs = (contains n ns ≡ false) × (contains n xs ≡ false) × Apart ns xs

Apart-cons :
    (n : String) (ns xs : List String) → contains n ns ≡ false → Apart ns xs → Apart ns (n ∷ xs)
unfolding contains
Apart-cons n [] xs h a = tt
Apart-cons n (m ∷ ns) xs h a =
    (a.0, ground (arith, eq_iff n m, eq_iff m n), Apart-cons n ns xs (ground arith) a.2)

pub push_all-AllDifferent :
    (ns xs : List String) → Apart ns xs → AllDifferent xs → AllDifferent (push_all ns xs)
unfolding push_all
push_all-AllDifferent [] xs a d = d
push_all-AllDifferent (n ∷ ns) xs a d =
    push_all-AllDifferent ns (n ∷ xs) (Apart-cons n ns xs a.0 a.2) (a.1, d)

pub perform_spawns :
    (ctx : Option ℕ) (names : List String) (s : System)
    → perform_all (map (spawn ctx) names) s ≡ record s { in_flight = push_all names s.in_flight }
unfolding perform_all perform push_all
perform_spawns ctx [] s = refl
perform_spawns ctx (n ∷ ns) s = perform_spawns ctx ns (record s { in_flight = n ∷ s.in_flight })

perform_all-append :
    (es fs : List Effect) (s : System)
    → perform_all (es ++ fs) s ≡ perform_all fs (perform_all es s)
unfolding perform_all
perform_all-append [] fs s = refl
perform_all-append (e ∷ es) fs s = perform_all-append es fs (perform e s)

pub perform_remove_github_runner :
    (github : String → Option ℕ) (name : String) (s : System)
    → perform_all (remove_github_runner github name) s ≡ s
unfolding perform_all perform remove_github_runner
perform_remove_github_runner github name s = ground arith

pub perform_cleanup_each :
    (github : String → Option ℕ) (names : List String) (s : System)
    → perform_all (cleanup_each github names) s ≡ record s { cleaned = push_all names s.cleaned }
unfolding perform_all perform cleanup_each push_all
perform_cleanup_each github [] s = refl
perform_cleanup_each github (n ∷ ns) s =
    let s' : System = record s { cleaned = n ∷ s.cleaned } in
    perform_all-append (remove_github_runner github n) (cleanup_each github ns) s'
    ∙ ap (perform_all (cleanup_each github ns)) (perform_remove_github_runner github n s')
    ∙ perform_cleanup_each github ns s'

-- Launching runners touches the preparing map alone.
pub spawn_runners_keeps :
    (cfg : RunnerSetConfig) (ctx : Option ℕ) (suffix : ℕ → String) (clock : ℕ → Time) (n : ℕ)
    (r : RunnerTracker)
    → ((spawn_runners cfg ctx suffix clock n r).0.idle ≡ r.idle)
      × ((spawn_runners cfg ctx suffix clock n r).0.busy ≡ r.busy)
unfolding spawn_runners mark_starting
spawn_runners_keeps cfg ctx suffix clock zero r = (refl, refl)
spawn_runners_keeps cfg ctx suffix clock (suc n) r =
    spawn_runners_keeps cfg ctx suffix clock n
      (mark_starting (runner_name cfg (suffix n)) (clock n) r)

drawn_distinct :
    (cfg : RunnerSetConfig) (suffix : ℕ → String) (name : String) (n : ℕ)
    → ((i : ℕ) → i < n → runner_name cfg (suffix i) ≢ name)
    → contains name (drawn cfg suffix n) ≡ false
unfolding contains
drawn_distinct cfg suffix name zero h = refl
drawn_distinct cfg suffix name (suc n) h =
    let rest = drawn_distinct cfg suffix name n (λ i k. h i (omega arith)) in
    elim (Bool-cases (runner_name cfg (suffix n) == name)) [
      | inl e ↦ absurd (h n (omega arith) ((eq_iff _ _).0 e))
      | inr e ↦ rw e rest
    ]

pub drawn-Apart :
    (cfg : RunnerSetConfig) (suffix : ℕ → String) (xs : List String) (n : ℕ)
    → ((i : ℕ) → i < n → contains (runner_name cfg (suffix i)) xs ≡ false)
    → ((i j : ℕ) → i < j → j < n → runner_name cfg (suffix i) ≢ runner_name cfg (suffix j))
    → Apart (drawn cfg suffix n) xs
drawn-Apart cfg suffix xs zero f d = tt
drawn-Apart cfg suffix xs (suc n) f d = (
  drawn_distinct cfg suffix (runner_name cfg (suffix n)) n (λ i h. d i n h (omega arith)),
  f n (omega arith),
  drawn-Apart cfg suffix xs n (λ i h. f i (omega arith)) (λ i j h k. d i j h (omega arith)),
)

-- A name that no round draws from a list that the drawn names avoid.
pub Apart-contains :
    (k : String) (ns xs : List String) → Apart ns xs → contains k xs ≡ true → contains k ns ≡ false
unfolding contains
Apart-contains k [] xs a h = refl
Apart-contains k (n ∷ ns) xs a h = ground (arith, eq_iff n k, Apart-contains k ns xs a.2)
