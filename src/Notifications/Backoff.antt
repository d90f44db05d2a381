-- ===== src/Notifications/Backoff.antt =====
-- How long a retry waits.
use native.Mathlib.Nat.{pow-le-pow_right}
use picobot.Base.{ℕ, ◌-◌, ◌^◌, ◌%◌, ◌≤◌, min, arith}
use picobot.Notifications.Queue.{Config, compute_backoff}

-- No retry waits longer than the configured maximum.
compute_backoff-le :
    (attempt : ℕ) (config : Config) → compute_backoff attempt config ≤ config.max_backoff
unfolding compute_backoff
compute_backoff-le attempt config = omega arith

-- A later attempt never waits less, as long as the number of attempts fits 32 bits.
compute_backoff_mono :
    (m n : ℕ) (config : Config)
    → m ≤ n
    → n ≤ 2 ^ 32
    → compute_backoff m config ≤ compute_backoff n config
unfolding compute_backoff
compute_backoff_mono m n config h b =
    let e : min ((m - 1) % 2 ^ 32) 10 ≤ min ((n - 1) % 2 ^ 32) 10 = omega arith in
    let p : 2 ^ min ((m - 1) % 2 ^ 32) 10 ≤ 2 ^ min ((n - 1) % 2 ^ 32) 10 =
      pow-le-pow_right (omega arith) e in
    grind arith
