-- ===== src/Providers/Retry/Attempts.antt =====
-- How often a model is asked, and how long the loop waits.
use picobot.Base.{
  Text, ℕ, zero, suc, ◌+◌, ◌≤◌, ◌<◌, Bool, true, false, List, [], ◌∷◌, Option, none, some, not,
  ◌||◌, ◌&&◌, leb, length, ◌≡◌, ◌⊎◌, inl, inr, refl, ap, arith, Bool-cases, All,
}
use picobot.Providers.Retry.{
  Reply, answered, failed, is_retryable, retry_after, classify, from_anyhow, backoff_delay,
  reply_of, goes_on, delay_after, slept, attempt_from, prompt_with_retry,
}

-- Whether a result is worth another try.
abbrev is_passing : {A : Type 0} → Reply A → Bool
is_passing (answered response) = false
is_passing (failed e) = is_retryable e

abbrev all_between : ℕ → ℕ → (ℕ → Bool) → Bool
all_between start zero p = true
all_between start (suc n) p = p start && all_between (start + 1) n p

module _ {A : Type 0} (call : ℕ → Text ⊎ A) (max_retries : ℕ) where
  -- The loop returns the result of an attempt, `n` after the first, after `n` failures worth another
  -- try, and that one is no such failure or the last attempt; it slept two seconds at most each time.
  pub record IsFirst (start : ℕ) (out : Option (Reply A × List ℕ)) : Type 0 where
    pub n : ℕ
    pub final : ℕ
    pub delays : List ℕ
    pub place : final ≡ start + n
    pub result : out ≡ some (reply_of (call final), delays)
    pub within : final ≤ max_retries
    pub earlier : all_between start n (λ k. is_passing (reply_of (call k))) ≡ true
    pub last : (leb max_retries final || not (is_passing (reply_of (call final)))) ≡ true
    pub count : length delays ≡ n
    pub short : All (λ d. d ≤ 2000) delays

  goes_on-lem : (b : Bool) (r : Reply A) → goes_on b r ≡ (not b && is_passing r)
  goes_on-lem true (answered response) = refl
  goes_on-lem false (answered response) = refl
  goes_on-lem true (failed e) = refl
  goes_on-lem false (failed e) = ground arith

  backoff_delay-le : (attempt : ℕ) → backoff_delay attempt ≤ 2000
  unfolding backoff_delay
  backoff_delay-le attempt = ground arith

  from_anyhow-retry_after : (message : Text) → retry_after (from_anyhow message) ≡ none
  unfolding from_anyhow classify
  from_anyhow-retry_after message = ground arith

  delay_after-le : (attempt : ℕ) (o : Text ⊎ A) → delay_after attempt (reply_of o) ≤ 2000
  delay_after-le attempt (inr response) = omega arith
  delay_after-le attempt (inl message) =
      rw (from_anyhow-retry_after message) (backoff_delay-le attempt)

  stops :
      (rounds attempt : ℕ)
      → attempt ≤ max_retries
      → goes_on (leb max_retries attempt) (reply_of (call attempt)) ≡ false
      → IsFirst attempt (attempt_from call max_retries (suc rounds) attempt)
  unfolding attempt_from
  stops rounds attempt h e = record {
    n = 0;
    final = attempt;
    delays = [];
    place = omega arith;
    result = rw (e) refl;
    within = h;
    earlier = refl;
    last = ground (arith, goes_on-lem (leb max_retries attempt) (reply_of (call attempt)));
    count = refl;
    short = tt;
  }

  goes_again :
      (rounds attempt : ℕ)
      → goes_on (leb max_retries attempt) (reply_of (call attempt)) ≡ true
      → IsFirst (attempt + 1) (attempt_from call max_retries rounds (attempt + 1))
      → IsFirst attempt (attempt_from call max_retries (suc rounds) attempt)
  unfolding attempt_from
  goes_again rounds attempt e next = record {
    n = suc next.n;
    final = next.final;
    delays = delay_after attempt (reply_of (call attempt)) ∷ next.delays;
    place = omega (arith, next.place);
    result = rw (e) (ap (slept (delay_after attempt (reply_of (call attempt)))) next.result);
    within = next.within;
    earlier =
        ground
          (arith, goes_on-lem (leb max_retries attempt) (reply_of (call attempt)), next.earlier);
    last = next.last;
    count = ap suc next.count;
    short = (delay_after-le attempt (call attempt), next.short);
  }

  attempt_from-IsFirst :
      (rounds attempt : ℕ)
      → attempt ≤ max_retries
      → max_retries < attempt + rounds
      → IsFirst attempt (attempt_from call max_retries rounds attempt)
  attempt_from-IsFirst zero attempt h k = absurd (omega arith)
  attempt_from-IsFirst (suc rounds) attempt h k =
      elim (Bool-cases (goes_on (leb max_retries attempt) (reply_of (call attempt)))) [
        | inr e ↦ stops rounds attempt h e
        | inl e ↦ goes_again rounds attempt e (
            attempt_from-IsFirst rounds (attempt + 1)
              (ground (arith, goes_on-lem (leb max_retries attempt) (reply_of (call attempt))))
              (omega arith))
      ]

  -- The loop ends, whatever the calls return: with the result of the first attempt that succeeds or
  -- fails for good, or of the last one, which comes after `max_retries` others; each attempt before
  -- it failed in a way that is worth another try, and was followed by one delay, of two seconds at
  -- most.
  pub prompt_with_retry-IsFirst : IsFirst 0 (prompt_with_retry call max_retries)
  unfolding prompt_with_retry
  prompt_with_retry-IsFirst = attempt_from-IsFirst (suc max_retries) 0 (omega arith) (omega arith)
