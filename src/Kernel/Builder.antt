-- ===== src/Kernel/Builder.antt =====
-- src/kernel/core.rs: the methods of `Kernel` by which a channel scopes it to a user, a session and
-- a profile. Those that set fields which only tools read (directories, time zone, limits of
-- responses, the scheduler and the queue) are left out.
use picobot.Base.{Text, ℕ, List, [], Option}
use picobot.Kernel.Capability.{CapabilitySet, ToolContext, ExecutionMode}
use picobot.Kernel.Timeout.{SoftTimeoutPolicy}
use picobot.Kernel.Invoke.{Kernel, State}
use picobot.Channels.{ChannelProfile}

-- The state of a clone: no grants of a session, whatever was granted before
unfoldable clone_state : {World : Type 0} → State World → State World
clone_state state = record state { session_grants = [] }

module _ {F Schema Input Output World : Type 0} where
  abbrev in_context :
      (ToolContext → ToolContext)
      → Kernel F Schema Input Output World
      → Kernel F Schema Input Output World
  in_context f kernel = record kernel { context = f kernel.context }

  -- `Kernel::with_capabilities`
  unfoldable with_capabilities :
      CapabilitySet → Kernel F Schema Input Output World → Kernel F Schema Input Output World
  with_capabilities set = in_context (λ context. record context { capabilities = set })

  -- `Kernel::with_channel_id`
  unfoldable pub with_channel_id :
      Option Text → Kernel F Schema Input Output World → Kernel F Schema Input Output World
  with_channel_id id = in_context (λ context. record context { channel_id = id })

  -- `Kernel::with_execution_mode`
  unfoldable pub with_execution_mode :
      ExecutionMode → Kernel F Schema Input Output World → Kernel F Schema Input Output World
  with_execution_mode mode = in_context (λ context. record context { execution_mode = mode })

  -- `Kernel::with_prompt_profile`
  unfoldable pub with_prompt_profile :
      ChannelProfile → Kernel F Schema Input Output World → Kernel F Schema Input Output World
  with_prompt_profile profile kernel = record kernel {
    prompt_profile = record {
      pre_authorized = profile.pre_authorized;
      max_allowed = profile.max_allowed;
      allow_user_prompts = profile.allow_user_prompts;
    };
    limits = record (kernel.limits) { prompt_timeout_secs = profile.prompt_timeout_secs };
  }

  -- `Kernel::with_tool_timeouts`
  unfoldable with_tool_timeouts :
      ℕ → List (Text × ℕ) → Kernel F Schema Input Output World → Kernel F Schema Input Output World
  with_tool_timeouts default timeouts kernel = record kernel {
    limits = record (kernel.limits) { default_timeout = default; tool_timeouts = timeouts };
  }

  -- `Kernel::with_soft_timeouts`
  unfoldable with_soft_timeouts :
      F
      → SoftTimeoutPolicy
      → Option ℕ
      → Kernel F Schema Input Output World
      → Kernel F Schema Input Output World
  with_soft_timeouts ratio policy extension kernel = record kernel {
    limits = record (kernel.limits) {
      soft_timeout_ratio = ratio;
      soft_timeout_policy = policy;
      soft_timeout_extension = extension;
    };
  }

  -- `Kernel::clone_with_context`; its grants are `clone_state`
  unfoldable pub clone_with_context :
      Option Text
      → Option Text
      → Kernel F Schema Input Output World
      → Kernel F Schema Input Output World
  clone_with_context user_id session_id =
      in_context (λ context. record context { user_id = user_id; session_id = session_id })
