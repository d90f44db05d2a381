-- ===== src/Kernel/Invoke/Authorised.antt =====
-- No tool runs without a permission.
use picobot.Base.{
  ◌⊎◌, Text, Bool, true, false, List, Option, none, some, ◌||◌, all, ◌≡◌, refl, sym, ◌∙◌,
  if◌then◌else◌, inl, inr, Bool-cases, Option-cases,
}
use picobot.Kernel.Permission.{Permission, Host}
use picobot.Kernel.Capability.{CapabilitySet, ToolContext, is_auto_granted, is_some}
use picobot.Kernel.Tool.{
  Tool, Result, ok, err, PreExecutionDecision, Result-cases, ToolError, permission_denied, denied,
}
use picobot.Kernel.Tool.Registry.{validate_input}
use picobot.Kernel.Timeout.{Floats}
use picobot.Kernel.Invoke.{
  Kernel, State, DecisionSource, allows_required, extra_allow, decision_source, policy_error,
  is_skipped, run_tool, run_decided, invoke_tool_with_grants,
}

-- Whether one of the sources allows what is required: a set of permissions, or the context.
abbrev pub granted :
    Host
    → Text
    → ToolContext
    → Option CapabilitySet
    → CapabilitySet
    → CapabilitySet
    → List Permission
    → Bool
granted host name ctx extra pre session required =
    allows_required host name ctx.capabilities required
    || extra_allow host name extra required
    || allows_required host name pre required
    || allows_required host name session required
    || all (is_auto_granted ctx) required

first-is_some {ℓ} :
    {A : Type ℓ} (a b c d e : Bool) (v w x y z : A)
    → is_some (
        if a
        then some v
        else if b
        then some w
        else if c
        then some x
        else if d
        then some y
        else if e
        then some z
        else none)
      ≡ (a || b || c || d || e)
first-is_some true b c d e v w x y z = refl
first-is_some false true c d e v w x y z = refl
first-is_some false false true d e v w x y z = refl
first-is_some false false false true e v w x y z = refl
first-is_some false false false false true v w x y z = refl
first-is_some false false false false false v w x y z = refl

-- There is a decision exactly if a source allows what is required.
decision_source-granted :
    (host : Host) (name : Text) (ctx : ToolContext) (extra : Option CapabilitySet)
    (pre session : CapabilitySet) (required : List Permission)
    → is_some (decision_source host name ctx extra pre session required)
      ≡ granted host name ctx extra pre session required
unfolding decision_source
decision_source-granted host name ctx extra pre session required =
    first-is_some (allows_required host name ctx.capabilities required)
      (extra_allow host name extra required) (allows_required host name pre required)
      (allows_required host name session required) (all (is_auto_granted ctx) required) _ _ _ _ _

none_of_is_some {ℓ} : {A : Type ℓ} (o : Option A) → is_some o ≡ false → o ≡ none
none_of_is_some none h = refl
none_of_is_some (some a) h = cc

module _ (host : Host) (floats : Floats) {Schema Input Output World : Type 0}
    (notified : World → Bool) (skipped : Output)
    (kernel : Kernel floats.F Schema Input Output World) (tool : Tool Schema Input Output World)
    (input : Input) (extra : Option CapabilitySet) (state : State World) where
  -- What has to hold for a tool to run.
  pub record IsAuthorised : Type 0 where
    pub required : List Permission
    pub asked : tool.required_permissions kernel.context input ≡ ok required
    pub valid : validate_input tool input kernel.tool_registry ≡ ok tt
    pub allowed :
        granted host tool.name kernel.context extra kernel.prompt_profile.pre_authorized
          state.session_grants required
        ≡ true
    pub policy : Option PreExecutionDecision
    pub decided : tool.pre_execution_policy kernel.context input ≡ ok policy
    pub not_refused : policy_error tool.name required policy ≡ none

  -- What a call comes to: skipped or refused, with the state as it was, or an authorised run.
  abbrev pub Outcome : Result Output × State World → Type 0
  Outcome r =
      (r ≡ (ok skipped, state))
      ⊎ (((e : ToolError) × (r ≡ (err e, state)))
          ⊎ ((r ≡ run_tool host floats notified skipped kernel tool input extra state)
              × IsAuthorised))

  decided-Outcome :
      (required : List Permission) (d : Option DecisionSource)
      → tool.required_permissions kernel.context input ≡ ok required
      → validate_input tool input kernel.tool_registry ≡ ok tt
      → is_some d
        ≡ granted host tool.name kernel.context extra kernel.prompt_profile.pre_authorized
            state.session_grants required
      → Outcome (run_decided host floats notified skipped kernel tool input extra required state d)
  unfolding run_decided
  decided-Outcome required none a v g = inr (inl (_, refl))
  decided-Outcome required (some source) a v g =
      elim (Result-cases (tool.pre_execution_policy kernel.context input)) [
        | inr (e, p) ↦ rw (p, run_decided) (inr (inl (e, refl)))
        | inl (policy, p) ↦ elim (Option-cases (policy_error tool.name required policy)) [
          | inr (e, q) ↦ rw (p, run_decided) (rw (q, run_decided) (inr (inl (e, refl))))
          | inl q ↦
              rw (p, run_decided)
                (rw (q, run_decided)
                  (inr (
                    inr (
                      refl,
                      record {
                        required = required;
                        asked = a;
                        valid = v;
                        allowed = sym g;
                        policy = policy;
                        decided = p;
                        not_refused = q;
                      },
                    ))))
        ]
      ]

  -- A call is skipped or fails, and leaves the state as it was, or it is a run of the tool that was
  -- authorised: its input fits its schema, a source allows what it requires, and its policy does not
  -- refuse it.
  pub invoke_authorised :
      Outcome (invoke_tool_with_grants host floats notified skipped kernel tool input extra state)
  unfolding invoke_tool_with_grants
  invoke_authorised =
      elim (Bool-cases (is_skipped kernel.context tool.name (notified state.world))) [
        | inl s ↦ rw (s, invoke_tool_with_grants) (inl refl)
        | inr s ↦ elim (Result-cases (validate_input tool input kernel.tool_registry)) [
          | inr (e, v) ↦
              rw (s, invoke_tool_with_grants)
                (rw (v, invoke_tool_with_grants) (inr (inl (e, refl))))
          | inl (u, v) ↦ elim (Result-cases (tool.required_permissions kernel.context input)) [
            | inr (e, a) ↦
                rw (s, invoke_tool_with_grants)
                  (rw (v, invoke_tool_with_grants)
                    (rw (a, invoke_tool_with_grants) (inr (inl (e, refl)))))
            | inl (required, a) ↦
                rw (s, invoke_tool_with_grants)
                  (rw (v, invoke_tool_with_grants)
                    (rw (a, invoke_tool_with_grants)
                      (decided-Outcome required _ a v (
                        decision_source-granted host tool.name kernel.context extra
                          kernel.prompt_profile.pre_authorized state.session_grants required))))
          ]
        ]
      ]

  -- Where no source allows what a valid call requires, and the call is not skipped, it fails for want of
  -- these permissions, which the error carries, and the state stays as it was.
  pub invoke_denied :
      (required : List Permission)
      → is_skipped kernel.context tool.name (notified state.world) ≡ false
      → validate_input tool input kernel.tool_registry ≡ ok tt
      → tool.required_permissions kernel.context input ≡ ok required
      → granted host tool.name kernel.context extra kernel.prompt_profile.pre_authorized
          state.session_grants required
        ≡ false
      → invoke_tool_with_grants host floats notified skipped kernel tool input extra state
        ≡ (err (permission_denied (denied tool.name) required), state)
  unfolding invoke_tool_with_grants run_decided
  invoke_denied required s v a g =
      let none_source : decision_source host tool.name kernel.context extra
            kernel.prompt_profile.pre_authorized state.session_grants required
          ≡ none =
        none_of_is_some _ (
          decision_source-granted host tool.name kernel.context extra
            kernel.prompt_profile.pre_authorized state.session_grants required
          ∙ g) in
      rw (s, invoke_tool_with_grants)
        (rw (v, invoke_tool_with_grants)
          (rw (a, invoke_tool_with_grants) (rw (none_source, invoke_tool_with_grants) refl)))
