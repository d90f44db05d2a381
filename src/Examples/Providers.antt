-- ===== src/Examples/Providers.antt =====
-- Calls of a model, and the theorem applied to them.
use picobot.Base.{Text, codes, ℕ, ◌⊎◌, inl, inr, zero, suc}
use picobot.Providers.Retry.{prompt_with_retry}
use picobot.Providers.Retry.Attempts.{IsFirst, prompt_with_retry-IsFirst}

-- Busy at first, then an answer.
abbrev busy : ℕ → Text ⊎ Text
busy zero = inl (codes "503 Service Unavailable")
busy (suc attempt) = inr (codes "hello")

prompt_with_retry-IsFirst_example : IsFirst busy 2 0 (prompt_with_retry busy 2)
prompt_with_retry-IsFirst_example = prompt_with_retry-IsFirst busy 2
