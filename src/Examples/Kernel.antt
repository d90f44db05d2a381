-- ===== src/Examples/Kernel.antt =====
-- A kernel with one tool, on a host whose patterns are `[a]` and `*` below /data, and exact texts.
use picobot.Base.{
  strip_prefix, Text, codes, find, ℕ, ◌*◌, ◌/◌, Bool, true, false, [], ◌∷◌, none, some, leb, ltb,
  text_eq, ◌≡◌, refl, ◌⊎◌, if◌then◌else◌, arith,
}
use picobot.Kernel.Permission.{Host, file_read, covers}
use picobot.Kernel.Capability.{ToolContext, user_mode, ExecutionMode, is_auto_granted, allows}
use picobot.Kernel.Tool.{Tool, Run, ok, err, ToolError, permission_denied, denied, require_approval}
use picobot.Kernel.Tool.Registry.{ToolRegistry, get, IsConsistent, lookup, validate_input}
use picobot.Kernel.Timeout.{Floats, Limits, SoftTimeoutPolicy, auto_extend, nanos_per_sec}
use picobot.Kernel.Invoke.{
  Kernel, State, allow_session, invoke_tool, invoke_tool_with_grants, invoke_tool_with_prompt,
  is_skipped,
}
use picobot.Kernel.Invoke.Authorised.{Outcome, invoke_authorised}
use picobot.Kernel.Invoke.Policy.{IsUntouched, invoke_tool_with_prompt-held}
use picobot.Kernel.Invoke.Prompting.{Retried, prompting_bounded, approval_in_vain}

abbrev bracketed : Text
bracketed = codes "/data/[a]"

abbrev is_data : Text → Bool
is_data value = elim (strip_prefix (codes "/data/") value) [ none ↦ false | some rest ↦ true ]

abbrev host : Host
host = record {
  glob = λ pattern. some (
      if text_eq pattern bracketed
      then text_eq (codes "/data/a")
      else if text_eq pattern (codes "/data/*")
      then is_data
      else text_eq pattern);
  home_dir = some (codes "/home/me");
}

-- Ratios in percent
abbrev percents : Floats
percents = record {
  F = ℕ;
  is_finite = λ r. true;
  is_positive = λ r. ltb 0 r;
  at_least_one = λ r. leb 100 r;
  one = 100;
  times = λ d r. d * r / 100;
}

abbrev run_of : ℕ → Run ℕ Bool
run_of ready = record {
  ready_at = some ready;
  result = ok 7;
  finished = true;
  dropped = λ t. false;
}

-- Inputs are the paths to read; a tool is ready after 3 seconds.
abbrev reader : Tool Unit Text ℕ Bool
reader = record {
  name = codes "read";
  schema = tt;
  required_permissions = λ ctx path. ok (file_read path ∷ []);
  pre_execution_policy = λ ctx path. ok none;
  execute = λ ctx path world. run_of (3 * nanos_per_sec);
}

abbrev registry : ToolRegistry Unit Text ℕ Bool
registry = record { tools = reader ∷ []; schemas = (codes "read", λ input. true) ∷ [] }

abbrev context : ExecutionMode → ToolContext
context mode = record {
  capabilities = file_read (codes "/etc/hosts") ∷ [];
  user_id = some (codes "me");
  session_id = none;
  channel_id = none;
  execution_mode = mode;
}

abbrev limits : SoftTimeoutPolicy → Limits ℕ
limits policy = record {
  default_timeout = 10 * nanos_per_sec;
  tool_timeouts = [];
  soft_timeout_ratio = 50;
  soft_timeout_policy = policy;
  soft_timeout_extension = none;
  prompt_timeout_secs = 30;
}

abbrev kernel : ExecutionMode → Kernel ℕ Unit Text ℕ Bool
kernel mode = record {
  tool_registry = registry;
  context = context mode;
  prompt_profile = record {
    pre_authorized = [];
    max_allowed = file_read (codes "/tmp/x") ∷ file_read (codes "/data/*") ∷ [];
    allow_user_prompts = true;
  };
  prompter = some (λ name required. some allow_session);
  timeout_prompter = none;
  limits = limits auto_extend;
}

abbrev fresh : State Bool
fresh = record { session_grants = []; world = false }

registry-IsConsistent : IsConsistent registry
unfolding get lookup find
registry-IsConsistent = record { agree = λ name. ground arith }

invoke_authorised_example :
    Outcome host percents
      (λ w. w)
      0
      (kernel user_mode)
      reader
      (codes "/etc/hosts")
      none
      fresh
      (invoke_tool_with_grants host percents
        (λ w. w)
        0
        (kernel user_mode)
        reader
        (codes "/etc/hosts")
        none
        fresh)
invoke_authorised_example =
    invoke_authorised host percents (λ w. w) 0 (kernel user_mode) reader (codes "/etc/hosts") none
      fresh

-- The path lies within the channel's maximum, and the user answers yes, for the session.
approval_in_vain_example :
    (invoke_tool_with_prompt host percents (λ w. w) 0 (kernel user_mode) reader bracketed fresh).0
    ≡ err (permission_denied (denied (codes "read")) (file_read bracketed ∷ []))
unfolding is_skipped validate_input covers allows is_auto_granted
approval_in_vain_example =
    approval_in_vain host percents (λ w. w) 0 (kernel user_mode) reader bracketed fresh
      (file_read bracketed) refl refl refl refl refl refl refl refl

prompting_bounded_example :
    let first =
      invoke_tool host percents (λ w. w) 0 (kernel user_mode) reader (codes "/tmp/x") fresh in
    let out =
      invoke_tool_with_prompt host percents
        (λ w. w)
        0
        (kernel user_mode)
        reader
        (codes "/tmp/x")
        fresh in
    (out ≡ first)
    ⊎ ((e : ToolError) × (first.0 ≡ err e)
        × Retried host percents (λ w. w) 0 (kernel user_mode) reader (codes "/tmp/x") e first.1 out)
prompting_bounded_example =
    prompting_bounded host percents (λ w. w) 0 (kernel user_mode) reader (codes "/tmp/x") fresh

abbrev writer : Tool Unit Text ℕ Bool
writer = record {
  name = codes "write";
  schema = tt;
  required_permissions = reader.required_permissions;
  pre_execution_policy = reader.pre_execution_policy;
  execute = reader.execute;
}

abbrev both : ToolRegistry Unit Text ℕ Bool
both = record {
  tools = reader ∷ writer ∷ [];
  schemas = (codes "write", λ input. true) ∷ (codes "read", λ input. true) ∷ [];
}

-- The reader, under a policy that asks for approval.
abbrev guarded : Tool Unit Text ℕ Bool
guarded = record reader { pre_execution_policy = λ ctx path. ok (some require_approval) }

invoke_tool_with_prompt-held_example :
    IsUntouched host percents
      (λ w. w)
      0
      (kernel user_mode)
      guarded
      (codes "/etc/hosts")
      require_approval
      refl
      refl
      false
      (invoke_tool_with_prompt host percents
        (λ w. w)
        0
        (kernel user_mode)
        guarded
        (codes "/etc/hosts")
        fresh)
invoke_tool_with_prompt-held_example =
    invoke_tool_with_prompt-held host percents (λ w. w) 0 (kernel user_mode) guarded
      (codes "/etc/hosts") require_approval refl refl fresh
