-- ===== src/Providers/Retry.antt =====
-- src/providers/error.rs, and the loop of the `prompt_…_retry…` methods of
-- src/providers/factory.rs, which are alike but for the call. What each call returns is a parameter:
-- a response or the text of an error. Delays are milliseconds.
pub mod Attempts
use picobot.Base.{
  Text, codes, ℕ, zero, suc, ◌+◌, ◌*◌, ◌^◌, min, Bool, true, false, List, [], ◌∷◌, Option, none,
  some, not, ◌||◌, leb, if◌then◌else◌, to_ascii_lowercase, contains_text, saturating_mul, ◌⊎◌, inl,
  inr,
}
use picobot.Tools.Input.{unwrap_or}

-- `ProviderError`
pub data ProviderError : Type 0 where
  rate_limit : Option ℕ → ProviderError
  transient permanent : Text → ProviderError

-- `ProviderError::from_anyhow`, on the error's text and the text in lower case
unfoldable pub classify : Text → Text → ProviderError
unfolding contains_text
classify message lower =
    if contains_text (codes "rate limit") lower || contains_text (codes "429") lower
    then rate_limit none
    else if contains_text (codes "timeout") lower
        || contains_text (codes "timed out") lower
        || contains_text (codes "connection") lower
        || contains_text (codes "temporar") lower
        || contains_text (codes "unavailable") lower
        || contains_text (codes "503") lower
        || contains_text (codes "502") lower
        || contains_text (codes "504") lower
    then transient message
    else permanent message

unfoldable pub from_anyhow : Text → ProviderError
unfolding classify to_ascii_lowercase
from_anyhow message = classify message (to_ascii_lowercase message)

-- `ProviderError::is_retryable`
abbrev pub is_retryable : ProviderError → Bool
is_retryable (permanent message) = false
is_retryable _ = true

-- `ProviderError::retry_after`
abbrev pub retry_after : ProviderError → Option ℕ
retry_after (rate_limit after) = after
retry_after _ = none

-- `backoff_delay`
unfoldable pub backoff_delay : ℕ → ℕ
backoff_delay attempt = min (saturating_mul 200 (saturating_mul 1 (2 ^ min attempt 8))) 2000

-- `Result<String, ProviderError>`
pub data Reply (A : Type 0) : Type 0 where
  answered : A → Reply A
  failed : ProviderError → Reply A

-- A call's result, with its error classified
abbrev pub reply_of : {A : Type 0} → Text ⊎ A → Reply A
reply_of (inl message) = failed (from_anyhow message)
reply_of (inr response) = answered response

-- Whether the loop goes round again after this attempt
abbrev pub goes_on : {A : Type 0} → Bool → Reply A → Bool
goes_on is_last (answered response) = false
goes_on is_last (failed e) = not (is_last || not (is_retryable e))

abbrev pub delay_after : {A : Type 0} → ℕ → Reply A → ℕ
delay_after attempt (answered response) = 0
delay_after attempt (failed e) = unwrap_or (backoff_delay attempt) (retry_after e)

abbrev pub slept : {A : Type 0} → ℕ → Option (A × List ℕ) → Option (A × List ℕ)
slept delay none = none
slept delay (some (a, delays)) = some (a, delay ∷ delays)

module _ {A : Type 0} (call : ℕ → Text ⊎ A) (max_retries : ℕ) where
  -- The loop, from an attempt on: what it returns and the delays that it slept. `none` is a loop that
  -- is still going on after so many rounds.
  unfoldable pub attempt_from : ℕ → ℕ → Option (Reply A × List ℕ)
  unfolding from_anyhow backoff_delay
  attempt_from zero attempt = none
  attempt_from (suc rounds) attempt =
      let rest =
        slept (delay_after attempt (reply_of (call attempt))) (attempt_from rounds (attempt + 1)) in
      if goes_on (leb max_retries attempt) (reply_of (call attempt))
      then rest
      else some (reply_of (call attempt), [])

  -- `prompt_with_turns_retry` and the like: a round for each attempt
  unfoldable pub prompt_with_retry : Option (Reply A × List ℕ)
  unfolding attempt_from
  prompt_with_retry = attempt_from (suc max_retries) 0
