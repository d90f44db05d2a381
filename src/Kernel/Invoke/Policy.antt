-- ===== src/Kernel/Invoke/Policy.antt =====
-- A tool whose policy does not allow a call.
use picobot.Base.{
  Text, Bool, true, false, List, Option, none, some, ◌≡◌, inl, inr, ◌⊎◌, ap, sym, ◌∙◌, subst,
}
use picobot.Kernel.Permission.{Permission, Host}
use picobot.Kernel.Capability.{CapabilitySet}
use picobot.Kernel.Tool.{
  Tool, Result, ok, err, ToolError, PreExecutionDecision, allow, require_approval, deny,
}
use picobot.Kernel.Timeout.{Floats}
use picobot.Kernel.Invoke.{
  Kernel, State, policy_error, invoke_tool_with_grants, invoke_tool, invoke_tool_with_prompt,
}
use picobot.Kernel.Invoke.Authorised.{IsAuthorised, Outcome, invoke_authorised}
use picobot.Kernel.Invoke.Prompting.{prompting_bounded, RetriedWith}

abbrev holds_back : PreExecutionDecision → Bool
holds_back allow = false
holds_back require_approval = true
holds_back deny = true

policy_error-held :
    {A : Type 0} (name : Text) (required : List Permission) (decision : PreExecutionDecision)
    → holds_back decision ≡ true
    → policy_error name required (some decision) ≡ none
    → A
unfolding policy_error
policy_error-held name required allow h e = cc
policy_error-held name required require_approval h e = cc
policy_error-held name required deny h e = cc

ok_injective : {A : Type 0} {a b : A} → ok a ≡ ok b → a ≡ b
ok_injective h = cc

module _ (host : Host) (floats : Floats) {Schema Input Output World : Type 0}
    (notified : World → Bool) (skipped : Output)
    (kernel : Kernel floats.F Schema Input Output World) (tool : Tool Schema Input Output World)
    (input : Input) (decision : PreExecutionDecision)
    (policy : tool.pre_execution_policy kernel.context input ≡ ok (some decision))
    (held : holds_back decision ≡ true) where
  -- The world is the one before, and the tool has not run: the call is skipped, or it failed.
  abbrev pub IsUntouched : World → Result Output × State World → Type 0
  IsUntouched world r =
      ((r.0 ≡ ok skipped) ⊎ ((e : ToolError) × (r.0 ≡ err e))) × (r.1.world ≡ world)

  not_authorised :
      {A : Type 0} (extra : Option CapabilitySet) (state : State World)
      → IsAuthorised host floats notified skipped kernel tool input extra state
      → A
  not_authorised extra state a = policy_error-held tool.name a.required decision held (
      subst (λ p. policy_error tool.name a.required p ≡ none)
        (ok_injective (sym a.decided ∙ policy)) a.not_refused)

  of_Outcome :
      (extra : Option CapabilitySet) (state : State World) (r : Result Output × State World)
      → Outcome host floats notified skipped kernel tool input extra state r
      → IsUntouched state.world r
  of_Outcome extra state r (inl e) = (inl (ap (λ x. x.0) e), ap (λ x. x.1.world) e)
  of_Outcome extra state r (inr (inl (e, h))) = (inr (e, ap (λ x. x.0) h), ap (λ x. x.1.world) h)
  of_Outcome extra state r (inr (inr (h, a))) = not_authorised extra state a

  grants-IsUntouched :
      (extra : Option CapabilitySet) (state : State World)
      → IsUntouched state.world
          (invoke_tool_with_grants host floats notified skipped kernel tool input extra state)
  grants-IsUntouched extra state =
      of_Outcome extra state _
        (invoke_authorised host floats notified skipped kernel tool input extra state)

  plain-IsUntouched :
      (state : State World)
      → IsUntouched state.world (invoke_tool host floats notified skipped kernel tool input state)
  unfolding invoke_tool
  plain-IsUntouched state = grants-IsUntouched none state

  retry-IsUntouched :
      (required : List Permission) (state : State World) (out : Result Output × State World)
      → RetriedWith host floats notified skipped kernel tool input required state out
      → IsUntouched state.world out
  retry-IsUntouched required state out (inl e) =
      subst (IsUntouched state.world) (sym e) (grants-IsUntouched (some _) state)
  retry-IsUntouched required state out (inr e) =
      subst (IsUntouched state.world) (sym e) (plain-IsUntouched _)

  -- When the tool's policy asks for approval of a call, or denies it, the call never runs, whatever
  -- the prompter answers and whatever is granted: the world is the same after it, and it is skipped
  -- or fails.
  pub invoke_tool_with_prompt-held :
      (state : State World)
      → IsUntouched state.world
          (invoke_tool_with_prompt host floats notified skipped kernel tool input state)
  invoke_tool_with_prompt-held state =
      elim (prompting_bounded host floats notified skipped kernel tool input state) [
        | inl e ↦ subst (IsUntouched state.world) (sym e) (plain-IsUntouched state)
        | inr (e, f, t) ↦
            (let (required, r, m, retried) = t in
              let out =
                retry-IsUntouched required
                  (invoke_tool host floats notified skipped kernel tool input state).1
                  (invoke_tool_with_prompt host floats notified skipped kernel tool input state)
                  retried in
              (out.0, out.1 ∙ (plain-IsUntouched state).1))
      ]
