-- ===== src/Kernel/Tool.antt =====
-- src/tools/traits.rs: what a tool is to the kernel, and src/tools/registry.rs, the registry.
-- The type of JSON inputs, of outputs, and of the state that tools act on are parameters; so is
-- the JSON schema compiler of the crate `jsonschema`.
pub mod Registry
use picobot.Base.{Text, ℕ, List, Option, none, some, ◌≡◌, refl, ◌⊎◌, inl, inr}
use picobot.Kernel.Permission.{Permission}
use picobot.Kernel.Capability.{ToolContext}

-- The messages of the errors that the kernel and the registry make, by the texts that they quote;
-- `other` is a tool's own message.
pub data Message : Type 0 where
  denied requires_approval denied_by_policy unknown_tool duplicate_tool : Text → Message
  invalid_schema missing_schema invalid_input : Text → Message
  timed_out : Text → ℕ → Message
  other : Text → Message

-- `ToolErrorKind`
pub data ToolErrorKind : Type 0 where
  general timeout : ToolErrorKind

-- `ToolError`
pub record ToolError : Type 0 where
  pub message : Message
  pub required : Option (List Permission)
  pub kind : ToolErrorKind

-- `ToolError::new`, `ToolError::permission_denied` and `ToolError::timeout`
abbrev pub new_error : Message → ToolError
new_error m = record { message = m; required = none; kind = general }

abbrev pub permission_denied : Message → List Permission → ToolError
permission_denied m required = record { message = m; required = some required; kind = general }

abbrev pub timeout_error : Message → ToolError
timeout_error m = record { message = m; required = none; kind = timeout }

pub data Result {ℓ} (A : Type ℓ) : Type ℓ where
  ok : A → Result A
  err : ToolError → Result A

infixl 5 ◌>>=◌
abbrev pub ◌>>=◌ {ℓ κ} : {A : Type ℓ} {B : Type κ} → Result A → (A → Result B) → Result B
ok a >>= f = f a
err e >>= f = err e

-- `PreExecutionDecision`; the reason and key of a policy are only logged
pub data PreExecutionDecision : Type 0 where
  allow require_approval deny : PreExecutionDecision

-- A started call of a tool: the time after which it is ready, if ever, in nanoseconds; its result;
-- the state that it leaves when it is ready, and the one that it leaves when it is dropped earlier.
pub record Run (Output World : Type 0) : Type 0 where
  pub ready_at : Option ℕ
  pub result : Result Output
  pub finished : World
  pub dropped : ℕ → World

-- `ToolExecutor`
pub record Tool (Schema Input Output World : Type 0) : Type 0 where
  pub name : Text
  pub schema : Schema
  pub required_permissions : ToolContext → Input → Result (List Permission)
  pub pre_execution_policy : ToolContext → Input → Result (Option PreExecutionDecision)
  pub execute : ToolContext → Input → World → Run Output World

-- To split on a computed result and keep the equation.
pub Result-cases {ℓ} :
    {A : Type ℓ} (r : Result A) → ((a : A) × (r ≡ ok a)) ⊎ ((e : ToolError) × (r ≡ err e))
Result-cases (ok a) = inl (a, refl)
Result-cases (err e) = inr (e, refl)
