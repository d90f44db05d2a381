-- ===== src/Kernel/Timeout.antt =====
-- src/kernel/core.rs: how long a tool may run (`soft_timeout_duration`, `execute_with_timeout`,
-- `maybe_extend_timeout`). Times are nanoseconds after the start of the call and do not overflow.
-- A started call says when it is ready (`Run`); a future that is ready at its deadline is taken.
pub mod Bounds
pub mod Within
use picobot.Base.{
  Text, ℕ, ◌+◌, ◌*◌, max, Bool, true, false, List, Option, none, some, not, ◌||◌, ◌==◌, leb,
  if◌then◌else◌,
}
use picobot.Kernel.Capability.{ToolContext, is_scheduled_job}
use picobot.Kernel.Tool.{Run, Result, err, timeout_error, timed_out}
use picobot.Kernel.Tool.Registry.{lookup}

-- The floating-point numbers, which the kernel reads a ratio from: the tests that it makes, and a
-- duration multiplied by a ratio (`from_secs_f64` of the product, zero where that is not positive).
pub record Floats : Type 1 where
  pub F : Type 0
  pub is_finite : F → Bool
  pub is_positive : F → Bool
  pub at_least_one : F → Bool
  pub one : F
  pub times : ℕ → F → ℕ

-- `SoftTimeoutPolicy`
pub data SoftTimeoutPolicy : Type 0 where
  prompt auto_extend : SoftTimeoutPolicy

-- `TimeoutExtensionDecision`
pub data ExtensionDecision : Type 0 where
  extended declined : ExtensionDecision

-- A prompter's answer to a question: when it comes, if ever, and what it says.
pub record Reply (A : Type 0) : Type 0 where
  pub after : Option ℕ
  pub answer : Option A

-- The fields of `Kernel` that bound a call, and the time that a prompt may take
pub record Limits (F : Type 0) : Type 0 where
  pub default_timeout : ℕ
  pub tool_timeouts : List (Text × ℕ)
  pub soft_timeout_ratio : F
  pub soft_timeout_policy : SoftTimeoutPolicy
  pub soft_timeout_extension : Option ℕ
  pub prompt_timeout_secs : ℕ

abbrev pub or_default {ℓ} : {A : Type ℓ} → Option A → A → A
or_default none d = d
or_default (some a) d = a

abbrev pub nanos_per_sec : ℕ
nanos_per_sec = 1_000_000_000

unfoldable pub ready_by : {Output World : Type 0} → Run Output World → ℕ → Bool
ready_by run deadline = elim run.ready_at [ none ↦ false | some t ↦ leb t deadline ]

-- Whether the reply came within the time limit.
unfoldable pub replied : {A : Type 0} → Reply A → ℕ → Bool
replied reply limit = elim reply.after [ none ↦ false | some t ↦ leb t limit ]

-- `maybe_extend_timeout`: the decision, and the time that it took. `none` is a kernel that has no
-- prompter.
unfoldable pub maybe_extend_timeout :
    {F : Type 0} → Limits F → ToolContext → Option (Reply Bool) → ExtensionDecision × ℕ
unfolding is_scheduled_job replied
maybe_extend_timeout limits ctx prompter =
    if is_scheduled_job ctx.execution_mode then (declined, 0) else elim limits.soft_timeout_policy [
      | auto_extend ↦ (extended, 0)
      | prompt ↦ elim prompter [
        | none ↦ (declined, 0)
        | some reply ↦
            let limit = limits.prompt_timeout_secs * nanos_per_sec in
            if replied reply limit
            then (
              elim reply.answer [ some true ↦ extended | _ ↦ declined ],
              or_default reply.after 0,
            )
            else (declined, limit)
      ]
    ]

-- The extension that a decision adds to the hard timeout.
abbrev pub granted : ExtensionDecision → ℕ → ℕ
granted extended extension = extension
granted declined extension = 0

-- What a call comes to: its result, the state that it leaves, and when it returned.
pub record Outcome (Output World : Type 0) : Type 0 where
  pub result : Result Output
  pub world : World
  pub returned_at : ℕ

-- The result at the time that the call was ready, or when it is next looked at after that.
unfoldable pub complete : {Output World : Type 0} → Run Output World → ℕ → Outcome Output World
complete run now = record {
  result = run.result;
  world = run.finished;
  returned_at = max now (or_default run.ready_at now);
}

unfoldable pub give_up :
    {Output World : Type 0} → Run Output World → Text → ℕ → ℕ → Outcome Output World
give_up run name total now = record {
  result = err (timeout_error (timed_out name total));
  world = run.dropped now;
  returned_at = now;
}

-- `tokio::time::timeout_at`, from the time `now` on: the future is looked at once in any case.
unfoldable pub await_until :
    {Output World : Type 0} → Run Output World → Text → ℕ → ℕ → ℕ → Outcome Output World
unfolding ready_by complete give_up
await_until run name total now deadline =
    let last = max now deadline in
    if ready_by run last then complete run now else give_up run name total last

-- The end of `execute_with_timeout`, from the decision on, which took the time `wait`.
unfoldable pub await_decision :
    {Output World : Type 0}
    → Run Output World
    → Text
    → ℕ
    → ℕ
    → ℕ
    → ExtensionDecision × ℕ
    → Outcome Output World
unfolding await_until
await_decision run name timeout soft_timeout extension (decision, wait) =
    let total_timeout = timeout + granted decision extension in
    let now = soft_timeout + wait in
    if leb total_timeout now
    then give_up run name total_timeout now
    else await_until run name total_timeout now total_timeout

-- The body of `execute_with_timeout`, with its timeouts worked out.
unfoldable pub execute_within :
    {Output World : Type 0}
    → Run Output World
    → Text
    → ℕ
    → ℕ
    → ℕ
    → ExtensionDecision × ℕ
    → Outcome Output World
unfolding ready_by await_until await_decision
execute_within run name timeout soft_timeout extension decision =
    if soft_timeout == 0
    then await_until run name timeout 0 timeout
    else if ready_by run soft_timeout
    then complete run 0
    else if extension == 0
    then await_until run name timeout soft_timeout timeout
    else await_decision run name timeout soft_timeout extension decision

module _ (floats : Floats) where
  open floats use {F, is_finite, is_positive, at_least_one, one, times}

  -- `soft_timeout_duration`
  unfoldable pub soft_timeout_duration : ℕ → F → ℕ
  soft_timeout_duration hard ratio =
      if (hard == 0 || not (is_finite ratio)) || not (is_positive ratio)
      then 0
      else times hard (if at_least_one ratio then one else ratio)

  unfoldable pub timeout_of : Limits F → Text → ℕ
  unfolding lookup
  timeout_of limits name = or_default (lookup name limits.tool_timeouts) limits.default_timeout

  -- `execute_with_timeout`, of the run of a tool of that name
  unfoldable pub execute_with_timeout :
      {Output World : Type 0}
      → Limits F
      → ToolContext
      → Option (Reply Bool)
      → Text
      → Run Output World
      → Outcome Output World
  unfolding soft_timeout_duration timeout_of maybe_extend_timeout execute_within
  execute_with_timeout limits ctx prompter name run =
      let timeout = timeout_of limits name in
      execute_within run name timeout (soft_timeout_duration timeout limits.soft_timeout_ratio)
        (or_default limits.soft_timeout_extension timeout)
        (maybe_extend_timeout limits ctx prompter)
