-- ===== src/Tools/Shell.antt =====
-- src/tools/shell.rs: the tool that runs commands. The runner of processes is a parameter.
use picobot.Base.{
  Text, codes, ℕ, Bool, false, List, [], ◌∷◌, Option, none, some, if◌then◌else◌, ltb, ◌==◌,
}
use picobot.Kernel.Permission.{Permission, shell_exec}
use picobot.Kernel.Tool.{
  Result, ok, err, ◌>>=◌, timeout_error, other, PreExecutionDecision, allow, require_approval, deny,
}
use picobot.Tools.Input.{Input, str_field, unwrap_or}
use picobot.Tools.Files.{PathBuf, FileSystem, Dirs, resolve_path}
use picobot.Tools.ShellPolicy.{ShellRisk, safe, risky, denied, ShellPolicy, classify}

-- `ExecutionLimits`, its timeout in nanoseconds
pub record ExecutionLimits : Type 0 where
  pub timeout : ℕ
  pub max_output_bytes : ℕ
  pub max_memory_bytes : Option ℕ

-- `ShellOutput`
pub record ShellOutput : Type 0 where
  pub exit_code : Option ℕ
  pub stdout : Text
  pub stderr : Text
  pub timed_out : Bool
  pub truncated : Bool

-- `ShellTool`, with its runner: what running a command in a directory does to the state
pub record ShellTool (W : Type 0) : Type 0 where
  pub policy : ShellPolicy
  pub runner : Text → List Text → PathBuf → ExecutionLimits → W → Result ShellOutput × W
  pub limits : ExecutionLimits

-- `filter_map` over the elements that are texts
unfoldable pub texts : List (Option Text) → List Text
texts [] = []
texts (none ∷ values) = texts values
texts (some arg ∷ values) = arg ∷ texts values

abbrev args_of : Input → List Text
args_of input = texts (unwrap_or [] (input.array (codes "args")))

-- `required_permissions`
unfoldable pub required_permissions : Input → Result (List Permission)
required_permissions input =
    str_field input (codes "command") (codes "missing command") >>= λ command.
    ok (shell_exec (some (command ∷ [])) ∷ [])

unfoldable decision_of : ShellRisk → PreExecutionDecision
decision_of safe = allow
decision_of risky = require_approval
decision_of denied = deny

-- `pre_execution_policy`, without its reason and key, which are only logged
unfoldable pub pre_execution_policy : ShellPolicy → Input → Result (Option PreExecutionDecision)
unfolding classify decision_of texts
pre_execution_policy policy input =
    str_field input (codes "command") (codes "missing command") >>= λ command.
    ok (some (decision_of (classify policy command (args_of input)).risk))

-- `with_limits_for_timeout`
unfoldable with_limits_for_timeout : {W : Type 0} → ShellTool W → ℕ → ShellTool W
with_limits_for_timeout tool max_timeout =
    if ltb tool.limits.timeout max_timeout
    then record tool { limits = record tool.limits { timeout = max_timeout } }
    else tool

-- What `execute` returns as JSON
pub record Report : Type 0 where
  pub success : Bool
  pub output : ShellOutput

abbrev is_zero : Option ℕ → Bool
is_zero none = false
is_zero (some code) = code == 0

unfoldable pub report : ShellOutput → Result Report
report output =
    if output.timed_out
    then err (timeout_error (other (codes "shell command timed out")))
    else ok (record { success = is_zero output.exit_code; output = output })

module _ {W : Type 0} (fs : FileSystem W) where
  -- The directory that the command runs in
  unfoldable effective_dir : W → Dirs → PathBuf → Option Text → Result PathBuf
  unfolding resolve_path
  effective_dir w dirs here none = ok here
  effective_dir w dirs here (some working_dir) = resolve_path fs w dirs working_dir

  unfoldable run_in : ShellTool W → Input → W → Result (Text × PathBuf) → Result Report × W
  unfolding report texts
  run_in tool input w (err e) = (err e, w)
  run_in tool input w (ok (command, dir)) =
      let out = tool.runner command (args_of input) dir tool.limits w in (out.0 >>= report, out.1)

  -- `execute`; `here` is the context's working directory as a path
  unfoldable pub execute : ShellTool W → Dirs → PathBuf → Input → W → Result Report × W
  unfolding run_in effective_dir
  execute tool dirs here input w = run_in tool input w (
      str_field input (codes "command") (codes "missing command") >>= λ command.
      effective_dir w dirs here (input.str (codes "working_dir")) >>= λ dir. ok (command, dir))
