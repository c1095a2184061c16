-- ===== src/CloudAgent/Backoff.antt =====
-- commands.go, runCommandLoop: how long it waits before each attempt to reconnect. The parameter
-- `int64_n` is rand.Int64N of math/rand/v2, which answers a number from zero on and below its
-- argument; it panics on an argument that is not positive.
use elastic_fruit_runner.Base.{ℕ, zero, suc, ◌+◌, ◌*◌, ◌/◌, ◌^◌, ◌≤◌, ◌<◌, ◌≡◌, refl, min, arith}
use elastic_fruit_runner.CloudAgent.Commands.{max_reconnect_delay, next_reconnect_delay}

abbrev pub initial_reconnect_delay : ℕ
initial_reconnect_delay = 1000000000

unfoldable pub with_jitter : (ℕ → ℕ) → ℕ → ℕ
with_jitter int64_n delay = delay + int64_n (delay / 2)

-- The delay after `n` attempts in a row on which no message came.
unfoldable pub delay_after : ℕ → ℕ
unfolding next_reconnect_delay
delay_after zero = initial_reconnect_delay
delay_after (suc n) = next_reconnect_delay (delay_after n)

delay_doubles : (n : ℕ) → delay_after n ≡ min (initial_reconnect_delay * 2 ^ n) max_reconnect_delay
unfolding delay_after next_reconnect_delay
delay_doubles zero = refl
delay_doubles (suc n) = rw (delay_doubles n) (omega arith)

positive : (n : ℕ) → 1 ≤ 2 ^ n
positive zero = omega arith
positive (suc n) = let later = positive n in omega arith

-- The delay doubles from one second with every attempt, up to thirty seconds. The code never
-- calls rand.Int64N on an argument that is not positive, and if that answers a number below its argument, the
-- wait is at least a second, and at least the delay, and less than one and a half times the delay,
-- so less than forty-five seconds.
pub delay_after_doubles :
    (int64_n : ℕ → ℕ)
    → ((n : ℕ) → 0 < n → int64_n n < n)
    → (n : ℕ)
    → let delay = delay_after n in
      let wait = with_jitter int64_n delay in
      (delay ≡ min (initial_reconnect_delay * 2 ^ n) max_reconnect_delay)
      × (0 < delay / 2)
      × (initial_reconnect_delay ≤ delay)
      × (delay ≤ wait)
      × (2 * wait < 3 * delay)
      × (wait < 45 * initial_reconnect_delay)
unfolding with_jitter
delay_after_doubles int64_n below n =
    let doubled = delay_doubles n in
    let p = positive n in
    let half : 0 < delay_after n / 2 = omega arith in
    let drawn = below (delay_after n / 2) half in
    (doubled, half, omega arith, omega arith, omega arith, omega arith)
