-- ===== src/Kernel/Invoke/Prompting.antt =====
-- What asking the user can bring about.
use mathlib.Core.Option.{some-injective}
use picobot.Base.{
  codes, text_eq, if◌then◌else◌, ◌⊎◌, Text, Bool, true, false, List, [], ◌∷◌, Option, none, some,
  ◌||◌, not, all, any, ◌≡◌, refl, subst, sym, ◌∙◌, arith, inl, inr, Bool-cases, Option-cases, ap,
}
use picobot.Kernel.Permission.{Permission, Host, covers}
use picobot.Kernel.Capability.{
  CapabilitySet, ToolContext, is_auto_granted, is_scheduled_job, insert_all, from_permissions,
  allows, allows_all, allows_any,
}
use picobot.Kernel.Capability.Laws.{allows-insert_all, allows-from_permissions}
use picobot.Kernel.Tool.{Tool, Result, ok, err, ToolError, permission_denied, denied}
use picobot.Kernel.Tool.Registry.{validate_input}
use picobot.Kernel.Timeout.{Floats}
use picobot.Kernel.Invoke.{
  Kernel, State, PromptDecision, allow_once, allow_session, deny_tool, allows_required, extra_allow,
  is_skipped, invoke_tool_with_grants, invoke_tool, may_prompt, after_prompt, handle_refusal,
  respond, invoke_tool_with_prompt,
}
use picobot.Kernel.Invoke.Authorised.{granted, invoke_denied}

allows_required-one :
    (host : Host) (name : Text) (set : CapabilitySet) (p : Permission)
    → allows_required host name set (p ∷ []) ≡ allows host set p
unfolding allows_required allows_all allows_any any all
allows_required-one host name set p = ground arith

module _ (host : Host) (p : Permission) where
  -- A permission that nothing in the set covers, and that does not cover itself, is not allowed by
  -- the set with that permission added.
  allows-added :
      (set : CapabilitySet)
      → covers host p p ≡ false
      → allows host set p ≡ false
      → allows host (insert_all set (p ∷ [])) p ≡ false
  allows-added set c a = rw (allows-insert_all host set (p ∷ []) p) (unfold any in ground arith)

  allows-once :
      (pre : CapabilitySet)
      → covers host p p ≡ false
      → allows host pre p ≡ false
      → allows host (insert_all (from_permissions (p ∷ [])) pre) p ≡ false
  allows-once pre c a =
      let own : any (λ q. covers host q p) pre ≡ false = unfold allows in a in
      rw
        (
          allows-insert_all host (from_permissions (p ∷ [])) pre p,
          allows-from_permissions host (p ∷ []) p,
          own,
        )
        (unfold any in ground arith)

  granted-one :
      (name : Text) (ctx : ToolContext) (extra : Option CapabilitySet) (pre session : CapabilitySet)
      → allows host ctx.capabilities p ≡ false
      → extra_allow host name extra (p ∷ []) ≡ false
      → allows host pre p ≡ false
      → allows host session p ≡ false
      → is_auto_granted ctx p ≡ false
      → granted host name ctx extra pre session (p ∷ []) ≡ false
  granted-one name ctx extra pre session a b c d e =
      rw
        (
          allows_required-one host name ctx.capabilities p,
          allows_required-one host name pre p,
          allows_required-one host name session p,
          a,
          b,
          c,
          d,
        )
        (unfold all in ground arith)

module _ (host : Host) (floats : Floats) {Schema Input Output World : Type 0}
    (notified : World → Bool) (skipped : Output)
    (kernel : Kernel floats.F Schema Input Output World) (tool : Tool Schema Input Output World)
    (input : Input) where
  respond-quiet :
      (r : Result Output × State World)
      → (is_scheduled_job kernel.context.execution_mode
          || not kernel.prompt_profile.allow_user_prompts)
        ≡ true
      → respond host floats notified skipped kernel tool input r ≡ r
  unfolding respond handle_refusal may_prompt
  respond-quiet (ok output, next) h = refl
  respond-quiet (err e, next) h = go e.required
    where
      go :
          (o : Option (List Permission))
          → handle_refusal host floats notified skipped kernel tool input e next o ≡ (err e, next)
      go none = refl
      go (some required) = ground arith

  -- In a scheduled job, or where prompts are off, the user is never asked: a call with prompting is
  -- the plain call.
  pub never_prompts :
      (state : State World)
      → (is_scheduled_job kernel.context.execution_mode
          || not kernel.prompt_profile.allow_user_prompts)
        ≡ true
      → invoke_tool_with_prompt host floats notified skipped kernel tool input state
        ≡ invoke_tool host floats notified skipped kernel tool input state
  unfolding invoke_tool_with_prompt
  never_prompts state h =
      respond-quiet (invoke_tool host floats notified skipped kernel tool input state) h

  -- The kernel may ask for what is required only where the channel's maximum allows all of it, or, for
  -- the tool `schedule`, some of it.
  abbrev WithinMaximum : List Permission → Type 0
  WithinMaximum required =
      ((if text_eq tool.name (codes "schedule")
          then any (allows host kernel.prompt_profile.max_allowed) required
          else all (allows host kernel.prompt_profile.max_allowed) required)
        ≡ true)
      × (kernel.prompt_profile.allow_user_prompts ≡ true)
      × (is_scheduled_job kernel.context.execution_mode ≡ false)

  -- A call with the required permissions granted once, or added to the session's.
  abbrev pub RetriedWith : List Permission → State World → Result Output × State World → Type 0
  RetriedWith required state out =
      (out
        ≡ invoke_tool_with_grants host floats notified skipped kernel tool input
            (some (insert_all (from_permissions required) kernel.prompt_profile.pre_authorized))
            state)
      ⊎ (out
          ≡ invoke_tool host floats notified skipped kernel tool input
              (record state { session_grants = insert_all state.session_grants required }))

  -- A second call, with the permissions that the user granted to the refused one.
  abbrev pub Retried : ToolError → State World → Result Output × State World → Type 0
  Retried e state out =
      (required : List Permission) × (e.required ≡ some required)
      × WithinMaximum required
      × RetriedWith required state out

  may_prompt-WithinMaximum :
      (required : List Permission)
      → may_prompt host floats notified skipped kernel tool.name required ≡ true
      → WithinMaximum required
  unfolding may_prompt allows_required allows_any allows_all
  may_prompt-WithinMaximum required h = (ground arith, ground arith, ground arith)

  after_prompt-cases :
      (e : ToolError) (state : State World) (required : List Permission)
      (decision : Option PromptDecision)
      → e.required ≡ some required
      → WithinMaximum required
      → let out =
          after_prompt host floats notified skipped kernel tool input e required state decision in
        (out ≡ (err e, state)) ⊎ Retried e state out
  unfolding after_prompt
  after_prompt-cases e state required (some allow_once) r m = inr (required, r, m, inl refl)
  after_prompt-cases e state required (some allow_session) r m = inr (required, r, m, inr refl)
  after_prompt-cases e state required (some deny_tool) r m = inl refl
  after_prompt-cases e state required none r m = inl refl

  handle_refusal-cases :
      (e : ToolError) (state : State World) (o : Option (List Permission))
      → e.required ≡ o
      → (handle_refusal host floats notified skipped kernel tool input e state o ≡ (err e, state))
        ⊎ Retried e state (handle_refusal host floats notified skipped kernel tool input e state o)
  unfolding handle_refusal invoke_tool_with_grants invoke_tool
  handle_refusal-cases e state none r = inl refl
  handle_refusal-cases e state (some required) r =
      elim (Bool-cases (may_prompt host floats notified skipped kernel tool.name required)) [
        | inr m ↦ rw (m, handle_refusal) (inl refl)
        | inl m ↦ elim (Option-cases kernel.prompter) [
          | inl q ↦ rw (m, handle_refusal) (rw (q, handle_refusal) (inl refl))
          | inr (ask, q) ↦
              rw (m, handle_refusal)
                (rw (q, handle_refusal)
                  (after_prompt-cases e state required (ask tool.name required) r
                    (may_prompt-WithinMaximum required m)))
        ]
      ]

  -- A call with prompting is either the plain call, or that call was refused for want of permissions
  -- all of which the channel's maximum allows, or, for the tool `schedule`, at least one of which it
  -- allows, and it is made once more: with all of these permissions granted for that one call, or
  -- added to the session's.
  pub prompting_bounded :
      (state : State World)
      → let first = invoke_tool host floats notified skipped kernel tool input state in
        let out = invoke_tool_with_prompt host floats notified skipped kernel tool input state in
        (out ≡ first) ⊎ ((e : ToolError) × (first.0 ≡ err e) × Retried e first.1 out)
  unfolding invoke_tool_with_prompt respond
  prompting_bounded state = go (invoke_tool host floats notified skipped kernel tool input state)
    where
      go :
          (first : Result Output × State World)
          → (respond host floats notified skipped kernel tool input first ≡ first)
            ⊎ ((e : ToolError) × (first.0 ≡ err e)
                × Retried e first.1 (respond host floats notified skipped kernel tool input first))
      go (ok output, next) = inl refl
      go (err e, next) = elim (handle_refusal-cases e next e.required refl) [
        | inl q ↦ inl q
        | inr t ↦ inr (e, refl, t)
      ]

module _ (host : Host) (floats : Floats) {Schema Input Output World : Type 0}
    (notified : World → Bool) (skipped : Output)
    (kernel : Kernel floats.F Schema Input Output World) (tool : Tool Schema Input Output World)
    (input : Input) (state : State World) (p : Permission)
    (live : is_skipped kernel.context tool.name (notified state.world) ≡ false)
    (valid : validate_input tool input kernel.tool_registry ≡ ok tt)
    (asked : tool.required_permissions kernel.context input ≡ ok (p ∷ []))
    (uncovered : covers host p p ≡ false)
    (not_capable : allows host kernel.context.capabilities p ≡ false)
    (not_authorised : allows host kernel.prompt_profile.pre_authorized p ≡ false)
    (not_granted : allows host state.session_grants p ≡ false)
    (not_automatic : is_auto_granted kernel.context p ≡ false) where
  refusal : ToolError
  refusal = permission_denied (denied tool.name) (p ∷ [])

  denied-with :
      (extra : Option CapabilitySet) (session : CapabilitySet)
      → extra_allow host tool.name extra (p ∷ []) ≡ false
      → allows host session p ≡ false
      → invoke_tool_with_grants host floats notified skipped kernel tool input extra
          (record state { session_grants = session })
        ≡ (err refusal, record state { session_grants = session })
  unfolding refusal
  denied-with extra session b d =
      invoke_denied host floats notified skipped kernel tool input extra
        (record state { session_grants = session }) (p ∷ []) live valid asked
        (granted-one host p tool.name kernel.context extra kernel.prompt_profile.pre_authorized
          session not_capable b not_authorised d not_automatic)

  retried-in_vain :
      (out : Result Output × State World)
      → RetriedWith host floats notified skipped kernel tool input (p ∷ []) state out
      → out.0 ≡ err refusal
  unfolding invoke_tool extra_allow
  retried-in_vain out (inl q) =
      let once = insert_all (from_permissions (p ∷ [])) kernel.prompt_profile.pre_authorized in
      let b : allows_required host tool.name once (p ∷ []) ≡ false =
        allows_required-one host tool.name once p
        ∙ allows-once host p kernel.prompt_profile.pre_authorized uncovered not_authorised in
      ap (λ (o : Result Output × State World). o.0)
        (q ∙ denied-with (some once) state.session_grants b not_granted)
  retried-in_vain out (inr q) =
      ap (λ (o : Result Output × State World). o.0)
        (q
          ∙ denied-with none (insert_all state.session_grants (p ∷ [])) refl
              (allows-added host p state.session_grants uncovered not_granted))

  -- Where the one permission that a valid call requires, which is not skipped, does not cover itself,
  -- as a path that is no pattern for itself, and no source allows it, no answer of the user helps: the
  -- call fails for want of that permission.
  pub approval_in_vain :
      (invoke_tool_with_prompt host floats notified skipped kernel tool input state).0
      ≡ err (permission_denied (denied tool.name) (p ∷ []))
  unfolding invoke_tool_with_prompt invoke_tool respond refusal extra_allow
  approval_in_vain =
      let out =
        handle_refusal host floats notified skipped kernel tool input refusal state
          (some (p ∷ [])) in
      rw (denied-with none state.session_grants refl not_granted)
        (elim (handle_refusal-cases host floats notified skipped kernel tool input refusal state
          (some (p ∷ [])) refl) [
            | inl q ↦ ap (λ (o : Result Output × State World). o.0) q
            | inr (required, r, m, q) ↦ retried-in_vain out (
                subst
                  (λ rs. RetriedWith host floats notified skipped kernel tool input rs state out)
                  (sym (some-injective (p ∷ []) required r)) q)
          ])
