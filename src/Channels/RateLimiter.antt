-- ===== src/Channels/RateLimiter.antt =====
-- src/channels/api.rs: `RateLimiter` and `enforce_rate_limit`. Instants are nanoseconds on the
-- monotonic clock. The map from users to instants is a function: a missing entry is empty.
pub mod Window
use picobot.Base.{
  Text, ℕ, ◌*◌, ◌^◌, ◌-◌, Bool, true, false, List, [], ◌∷◌, ◌++◌, Option, none, some, keep, length,
  leb, ◌==◌, text_eq, if◌then◌else◌,
}

-- `RateLimiter`
abbrev pub RateLimiter : Type 0
RateLimiter = Text → List ℕ

-- `RateLimiter::default`
abbrev pub default : RateLimiter
default key = []

-- The window of 60 seconds, and the test of `retain`
abbrev pub window : ℕ
window = 60 * 10 ^ 9

unfoldable pub is_recent : ℕ → ℕ → Bool
is_recent now instant = leb (now - instant) window

unfoldable pub set_entries : Text → List ℕ → RateLimiter → RateLimiter
set_entries key entries limiter other = if text_eq key other then entries else limiter other

-- `RateLimiter::allow`
unfoldable pub allow : Text → ℕ → ℕ → RateLimiter → Bool × RateLimiter
unfolding keep is_recent set_entries text_eq
allow key limit now limiter =
    let entries = keep (is_recent now) (limiter key) in
    if limit == 0
    then (true, limiter)
    else if leb limit (length entries)
    then (false, set_entries key entries limiter)
    else (true, set_entries key (entries ++ now ∷ []) limiter)

-- `requests_per_minute` of the configuration: 60 where it is not set, and 0 is no limit
abbrev pub requests_per_minute : Option ℕ → Option ℕ
requests_per_minute none = some 60
requests_per_minute (some n) = if n == 0 then none else some n

-- The test of `enforce_rate_limit`
abbrev pub allow_within : Text → Option ℕ → ℕ → RateLimiter → Bool × RateLimiter
allow_within user_id none now limiter = (true, limiter)
allow_within user_id (some limit) now limiter = allow user_id limit now limiter
