-- ===== src/Kernel/Invoke.antt =====
-- src/kernel/core.rs: who may call a tool (`invoke_tool_with_grants`), and what the kernel asks
-- the user (`invoke_tool_with_prompt`). Logging is left out. The state is the permissions granted
-- for the session, and the world that the tools act on, which also holds the flag
-- `notify_tool_used` of the context, since the tool `notify` sets it.
pub mod Authorised
pub mod Policy
pub mod Prompting
use picobot.Base.{
  Text, ℕ, Bool, true, false, List, Option, none, some, codes, not, ◌&&◌, ◌||◌, text_eq, all,
  if◌then◌else◌,
}
use picobot.Kernel.Permission.{Permission, Host}
use picobot.Kernel.Capability.{
  CapabilitySet, insert_all, from_permissions, allows_all, allows_any, ToolContext,
  is_scheduled_job, is_auto_granted,
}
use picobot.Kernel.Tool.{
  Tool, Run, Result, ok, err, ToolError, new_error, permission_denied, denied, requires_approval,
  denied_by_policy, unknown_tool, PreExecutionDecision, allow, require_approval, deny,
}
use picobot.Kernel.Tool.Registry.{ToolRegistry, get, validate_input}
use picobot.Kernel.Timeout.{Floats, Limits, Reply, execute_with_timeout}

-- `DecisionSource`
pub data DecisionSource : Type 0 where
  capabilities extra_grants pre_authorized session_grants auto_granted : DecisionSource

-- `ChannelPermissionProfile`, without the time for a prompt, which is in `Limits`
pub record Profile : Type 0 where
  pub pre_authorized : CapabilitySet
  pub max_allowed : CapabilitySet
  pub allow_user_prompts : Bool

-- `PromptDecision`
pub data PromptDecision : Type 0 where
  allow_once allow_session deny_tool : PromptDecision

-- `Kernel`; what its prompter would answer to a question about a tool, and to one about more time
pub record Kernel (F Schema Input Output World : Type 0) : Type 0 where
  pub tool_registry : ToolRegistry Schema Input Output World
  pub context : ToolContext
  pub prompt_profile : Profile
  pub prompter : Option (Text → List Permission → Option PromptDecision)
  pub timeout_prompter : Option (Reply Bool)
  pub limits : Limits F

-- The session's grants, and the world
pub record State (World : Type 0) : Type 0 where
  pub session_grants : CapabilitySet
  pub world : World

-- Whether a set allows what a tool requires: any of it for the tool `schedule`, else all of it.
unfoldable pub allows_required : Host → Text → CapabilitySet → List Permission → Bool
unfolding allows_all allows_any text_eq
allows_required host name set required =
    if text_eq name (codes "schedule")
    then allows_any host set required
    else allows_all host set required

unfoldable pub extra_allow : Host → Text → Option CapabilitySet → List Permission → Bool
unfolding allows_required
extra_allow host name none required = false
extra_allow host name (some grants) required = allows_required host name grants required

-- The decision of `invoke_tool_with_grants`: the first source that allows what is required.
unfoldable pub decision_source :
    Host
    → Text
    → ToolContext
    → Option CapabilitySet
    → CapabilitySet
    → CapabilitySet
    → List Permission
    → Option DecisionSource
unfolding allows_required extra_allow all is_auto_granted
decision_source host name ctx extra pre session required =
    if allows_required host name ctx.capabilities required
    then some capabilities
    else if extra_allow host name extra required
    then some extra_grants
    else if allows_required host name pre required
    then some pre_authorized
    else if allows_required host name session required
    then some session_grants
    else if all (is_auto_granted ctx) required
    then some auto_granted
    else none

-- The context that the tool runs in: extra grants are added to the capabilities.
unfoldable pub scoped : ToolContext → Option CapabilitySet → ToolContext
unfolding insert_all
scoped ctx none = ctx
scoped ctx (some grants) = record ctx { capabilities = insert_all ctx.capabilities grants }

unfoldable pub policy_error :
    Text → List Permission → Option PreExecutionDecision → Option ToolError
policy_error name required none = none
policy_error name required (some allow) = none
policy_error name required (some require_approval) =
    some (permission_denied (requires_approval name) required)
policy_error name required (some deny) = some (new_error (denied_by_policy name))

-- The early return of a scheduled job that has sent its notification.
unfoldable pub is_skipped : ToolContext → Text → Bool → Bool
unfolding is_scheduled_job text_eq
is_skipped ctx name notified =
    is_scheduled_job ctx.execution_mode && notified && not (text_eq name (codes "notify"))

module _ (host : Host) (floats : Floats) {Schema Input Output World : Type 0}
    (notified : World → Bool) (skipped : Output) where
  -- The end of `invoke_tool_with_grants`: the tool runs, within its timeouts.
  unfoldable pub run_tool :
      Kernel floats.F Schema Input Output World
      → Tool Schema Input Output World
      → Input
      → Option CapabilitySet
      → State World
      → Result Output × State World
  unfolding scoped execute_with_timeout
  run_tool kernel tool input extra state =
      let ctx = scoped kernel.context extra in
      let out =
        execute_with_timeout floats kernel.limits ctx kernel.timeout_prompter tool.name
          (tool.execute ctx input state.world) in
      (out.result, record state { world = out.world })

  -- From the decision on.
  unfoldable pub run_decided :
      Kernel floats.F Schema Input Output World
      → Tool Schema Input Output World
      → Input
      → Option CapabilitySet
      → List Permission
      → State World
      → Option DecisionSource
      → Result Output × State World
  unfolding policy_error run_tool
  run_decided kernel tool input extra required state none =
      (err (permission_denied (denied tool.name) required), state)
  run_decided kernel tool input extra required state (some source) =
      elim (tool.pre_execution_policy kernel.context input) [
        | err e ↦ (err e, state)
        | ok policy ↦ elim (policy_error tool.name required policy) [
          | some e ↦ (err e, state)
          | none ↦ run_tool kernel tool input extra state
        ]
      ]

  -- `Kernel::invoke_tool_with_grants`
  unfoldable pub invoke_tool_with_grants :
      Kernel floats.F Schema Input Output World
      → Tool Schema Input Output World
      → Input
      → Option CapabilitySet
      → State World
      → Result Output × State World
  unfolding is_skipped validate_input decision_source run_decided
  invoke_tool_with_grants kernel tool input extra state =
      if is_skipped kernel.context tool.name (notified state.world)
      then (ok skipped, state)
      else elim (validate_input tool input kernel.tool_registry) [
        | err e ↦ (err e, state)
        | ok u ↦ elim (tool.required_permissions kernel.context input) [
          | err e ↦ (err e, state)
          | ok required ↦ run_decided kernel tool input extra required state (
              decision_source host tool.name kernel.context extra
                kernel.prompt_profile.pre_authorized state.session_grants required)
        ]
      ]

  -- `Kernel::invoke_tool`
  unfoldable pub invoke_tool :
      Kernel floats.F Schema Input Output World
      → Tool Schema Input Output World
      → Input
      → State World
      → Result Output × State World
  invoke_tool kernel tool input state = invoke_tool_with_grants kernel tool input none state

  -- Whether the kernel may ask the user for what a refused call requires.
  unfoldable pub may_prompt :
      Kernel floats.F Schema Input Output World → Text → List Permission → Bool
  unfolding is_scheduled_job all is_auto_granted allows_required
  may_prompt kernel name required =
      if not kernel.prompt_profile.allow_user_prompts
        || is_scheduled_job kernel.context.execution_mode
        || all (is_auto_granted kernel.context) required
      then false
      else allows_required host name kernel.prompt_profile.max_allowed required

  unfoldable pub after_prompt :
      Kernel floats.F Schema Input Output World
      → Tool Schema Input Output World
      → Input
      → ToolError
      → List Permission
      → State World
      → Option PromptDecision
      → Result Output × State World
  after_prompt kernel tool input e required state (some allow_once) =
      invoke_tool_with_grants kernel tool input
        (some (insert_all (from_permissions required) kernel.prompt_profile.pre_authorized)) state
  after_prompt kernel tool input e required state (some allow_session) =
      invoke_tool kernel tool input
        (record state { session_grants = insert_all state.session_grants required })
  after_prompt kernel tool input e required state (some deny_tool) = (err e, state)
  after_prompt kernel tool input e required state none = (err e, state)

  -- What follows a first call that failed, by the permissions that its error asks for.
  unfoldable pub handle_refusal :
      Kernel floats.F Schema Input Output World
      → Tool Schema Input Output World
      → Input
      → ToolError
      → State World
      → Option (List Permission)
      → Result Output × State World
  handle_refusal kernel tool input e state none = (err e, state)
  handle_refusal kernel tool input e state (some required) =
      if may_prompt kernel tool.name required
      then elim kernel.prompter [
        | none ↦ (err e, state)
        | some ask ↦ after_prompt kernel tool input e required state (ask tool.name required)
      ]
      else (err e, state)

  -- The match of `invoke_tool_with_prompt` on the outcome of the first call
  unfoldable pub respond :
      Kernel floats.F Schema Input Output World
      → Tool Schema Input Output World
      → Input
      → Result Output × State World
      → Result Output × State World
  respond kernel tool input (ok output, next) = (ok output, next)
  respond kernel tool input (err e, next) = handle_refusal kernel tool input e next e.required

  -- `Kernel::invoke_tool_with_prompt`
  unfoldable pub invoke_tool_with_prompt :
      Kernel floats.F Schema Input Output World
      → Tool Schema Input Output World
      → Input
      → State World
      → Result Output × State World
  invoke_tool_with_prompt kernel tool input state =
      respond kernel tool input (invoke_tool kernel tool input state)

  -- `Kernel::invoke_tool_with_prompt_by_name`
  unfoldable invoke_tool_with_prompt_by_name :
      Kernel floats.F Schema Input Output World
      → Text
      → Input
      → State World
      → Result Output × State World
  unfolding get invoke_tool_with_prompt
  invoke_tool_with_prompt_by_name kernel name input state = elim (get name kernel.tool_registry) [
    | none ↦ (err (new_error (unknown_tool name)), state)
    | some tool ↦ invoke_tool_with_prompt kernel tool input state
  ]
