-- ===== src/Kernel/Timeout/Bounds.antt =====
-- How long a call of a tool can take, and when its result is kept.
use picobot.Base.{
  Text, ◌+◌, ◌*◌, ◌≤◌, ◌<◌, max, Bool, true, false, Option, some, ◌≡◌, arith, ◌==◌, if◌then◌else◌,
}
use picobot.Kernel.Capability.{ToolContext, is_scheduled_job}
use picobot.Kernel.Tool.{Run, err, timeout_error, timed_out}
use picobot.Kernel.Timeout.{
  Floats, Reply, Limits, declined, or_default, nanos_per_sec, ready_by, replied,
  maybe_extend_timeout, soft_timeout_duration, timeout_of, execute_with_timeout, prompt,
}
use picobot.Kernel.Timeout.Within.{
  maybe_extend_timeout-le, Kept, maybe_extend_timeout-scheduled, granted-le, execute_within-le,
  execute_within-ready, execute_within-declined,
}

module _ (floats : Floats) {Output World : Type 0} (limits : Limits floats.F) (ctx : ToolContext)
    (prompter : Option (Reply Bool)) (name : Text) (run : Run Output World) where
  -- A call returns within its soft or hard timeout, whichever is longer, and the longer of the
  -- extension and the time for a prompt.
  pub execute_with_timeout-le :
      let hard = timeout_of floats limits name in
      let soft = soft_timeout_duration floats hard limits.soft_timeout_ratio in
      (execute_with_timeout floats limits ctx prompter name run).returned_at
      ≤ max hard soft
        + max
            (or_default limits.soft_timeout_extension hard)
            (limits.prompt_timeout_secs * nanos_per_sec)
  unfolding execute_with_timeout
  execute_with_timeout-le =
      let hard = timeout_of floats limits name in
      let soft = soft_timeout_duration floats hard limits.soft_timeout_ratio in
      let extension = or_default limits.soft_timeout_extension hard in
      let d = maybe_extend_timeout limits ctx prompter in
      omega (
        arith,
        execute_within-le run name hard soft extension d.0 d.1,
        maybe_extend_timeout-le limits ctx prompter,
        granted-le d.0 extension,
      )

  -- The tool of a scheduled job gets no extension, and no time for a prompt.
  pub scheduled-le :
      is_scheduled_job ctx.execution_mode ≡ true
      → let hard = timeout_of floats limits name in
        (execute_with_timeout floats limits ctx prompter name run).returned_at
        ≤ max hard (soft_timeout_duration floats hard limits.soft_timeout_ratio)
  unfolding execute_with_timeout
  scheduled-le h =
      let hard = timeout_of floats limits name in
      let soft = soft_timeout_duration floats hard limits.soft_timeout_ratio in
      let extension = or_default limits.soft_timeout_extension hard in
      rw (maybe_extend_timeout-scheduled limits ctx prompter h)
        (omega (arith, execute_within-le run name hard soft extension declined 0))

  -- A tool that is ready within the soft timeout, or, where that is zero, within the hard one, is
  -- never cut off.
  pub execute_with_timeout-ready :
      let hard = timeout_of floats limits name in
      let soft = soft_timeout_duration floats hard limits.soft_timeout_ratio in
      ready_by run (if soft == 0 then hard else soft) ≡ true
      → Kept run (execute_with_timeout floats limits ctx prompter name run)
  unfolding execute_with_timeout
  execute_with_timeout-ready h =
      let hard = timeout_of floats limits name in
      let soft = soft_timeout_duration floats hard limits.soft_timeout_ratio in
      let d = maybe_extend_timeout limits ctx prompter in
      execute_within-ready run name hard soft (or_default limits.soft_timeout_extension hard) d.0
        d.1 h

maybe_extend_timeout-unanswered :
    {F : Type 0} (limits : Limits F) (ctx : ToolContext) (reply : Reply Bool)
    → limits.soft_timeout_policy ≡ prompt
    → is_scheduled_job ctx.execution_mode ≡ false
    → replied reply (limits.prompt_timeout_secs * nanos_per_sec) ≡ false
    → maybe_extend_timeout limits ctx (some reply)
      ≡ (declined, limits.prompt_timeout_secs * nanos_per_sec)
unfolding maybe_extend_timeout
maybe_extend_timeout-unanswered limits ctx reply p s r = ground arith

-- A question that stays open until the hard timeout costs the call its result: where the kernel
-- prompts, a user's tool that was not ready within the soft timeout fails with a timeout, if the
-- soft timeout and the time for the prompt together reach the hard one, even though it was ready
-- before the hard timeout.
unanswered_prompt :
    (floats : Floats) {Output World : Type 0} (limits : Limits floats.F) (ctx : ToolContext)
    (reply : Reply Bool) (name : Text) (run : Run Output World)
    → let hard = timeout_of floats limits name in
      let soft = soft_timeout_duration floats hard limits.soft_timeout_ratio in
      let limit = limits.prompt_timeout_secs * nanos_per_sec in
      limits.soft_timeout_policy ≡ prompt
      → is_scheduled_job ctx.execution_mode ≡ false
      → 0 < soft
      → 0 < or_default limits.soft_timeout_extension hard
      → ready_by run soft ≡ false
      → replied reply limit ≡ false
      → hard ≤ soft + limit
      → (execute_with_timeout floats limits ctx (some reply) name run).result
        ≡ err (timeout_error (timed_out name hard))
unfolding execute_with_timeout
unanswered_prompt floats limits ctx reply name run p s h k n r l =
    let hard = timeout_of floats limits name in
    let soft = soft_timeout_duration floats hard limits.soft_timeout_ratio in
    rw (maybe_extend_timeout-unanswered limits ctx reply p s r) (
      execute_within-declined run name hard soft (or_default limits.soft_timeout_extension hard)
        declined (limits.prompt_timeout_secs * nanos_per_sec) h k n l)
