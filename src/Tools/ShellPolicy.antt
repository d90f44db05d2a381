-- ===== src/Tools/ShellPolicy.antt =====
-- src/tools/shell_policy.rs: how a command line is classified before it runs. The crate `glob` is
-- the field `glob` of a `Host`.
pub mod Defaults
pub mod Classes
use picobot.Base.{
  Text, codes, Bool, true, false, List, [], ◌∷◌, ◌++◌, Option, none, some, map, join, not, ◌&&◌,
  if◌then◌else◌, text_eq, is_empty, trim, to_ascii_lowercase, split_whitespace, find, keep,
}
use picobot.Kernel.Permission.{Host, contains}
use picobot.Tools.Input.{unwrap_or}
use picobot.Tools.ShellPolicy.Defaults.{
  default_deny_patterns, default_risky_patterns, default_safe_commands,
}

-- `ShellRisk`
pub data ShellRisk : Type 0 where
  safe risky denied : ShellRisk

-- `ShellRisk::parse` and `ShellRisk::label`
unfoldable parse_lowercase : Text → Option ShellRisk
unfolding text_eq
parse_lowercase value =
    if text_eq value (codes "safe")
    then some safe
    else if text_eq value (codes "risky")
    then some risky
    else if text_eq value (codes "deny")
    then some denied
    else none

unfoldable pub parse : Text → Option ShellRisk
unfolding parse_lowercase trim to_ascii_lowercase
parse value = parse_lowercase (to_ascii_lowercase (trim value))

unfoldable label : ShellRisk → Text
label safe = codes "safe"
label risky = codes "risky"
label denied = codes "deny"

-- `ShellPolicyResult`
pub record ShellPolicyResult : Type 0 where
  pub risk : ShellRisk
  pub reason : Text
  pub policy_key : Text

-- `CommandPattern`, with a compiled pattern as its `matches`
pub record CommandPattern : Type 0 where
  pub raw : Text
  pub tokens : List (Text → Bool)

-- `ShellPolicy`; the set of safe commands as a list
pub record ShellPolicy : Type 0 where
  pub deny_patterns : List CommandPattern
  pub risky_patterns : List CommandPattern
  pub safe_commands : List Text
  pub default_risk : ShellRisk

unfoldable pub cons_token :
    Option (Text → Bool) → Option (List (Text → Bool)) → Option (List (Text → Bool))
cons_token none tokens = none
cons_token (some token) none = none
cons_token (some token) (some tokens) = some (token ∷ tokens)

unfoldable pub pattern_of : Text → Option (List (Text → Bool)) → Option CommandPattern
pattern_of raw none = none
pattern_of raw (some tokens) = some (record { raw = raw; tokens = tokens })

unfoldable pub cons_pattern : Option CommandPattern → List CommandPattern → List CommandPattern
cons_pattern none patterns = patterns
cons_pattern (some pattern) patterns = pattern ∷ patterns

module _ (host : Host) where
  -- `collect::<Result<Vec<_>, _>>`: no pattern at all, if a token does not compile
  unfoldable pub compile_tokens : List Text → Option (List (Text → Bool))
  unfolding cons_token
  compile_tokens [] = some []
  compile_tokens (w ∷ ws) = cons_token (host.glob w) (compile_tokens ws)

  -- `CommandPattern::new`
  unfoldable pub new : Text → Option CommandPattern
  unfolding compile_tokens split_whitespace pattern_of
  new raw = pattern_of raw (compile_tokens (split_whitespace raw))

  -- The tail of `build_patterns`, on trimmed texts: empty ones and those that do not compile are
  -- left out.
  unfoldable pub build_trimmed : List Text → List CommandPattern
  unfolding new is_empty cons_pattern
  build_trimmed [] = []
  build_trimmed (p ∷ ps) =
      let rest = build_trimmed ps in if is_empty p then rest else cons_pattern (new p) rest

  -- `build_patterns`
  unfoldable pub build_patterns : List Text → List CommandPattern
  unfolding build_trimmed trim
  build_patterns patterns = build_trimmed (map trim patterns)

-- The tokens match the words in front, one by one: `zip` and `all`, under the test of the lengths.
unfoldable pub tokens_match : List (Text → Bool) → List Text → Bool
tokens_match [] parts = true
tokens_match (token ∷ tokens) [] = false
tokens_match (token ∷ tokens) (part ∷ parts) = token part && tokens_match tokens parts

abbrev no_tokens : List (Text → Bool) → Bool
no_tokens [] = true
no_tokens (token ∷ tokens) = false

-- `CommandPattern::matches`
unfoldable pub matches : CommandPattern → Text → List Text → Bool
unfolding tokens_match
matches pattern command args =
    not (no_tokens pattern.tokens) && tokens_match pattern.tokens (command ∷ args)

-- `command_line_key`
unfoldable command_line_key : Text → List Text → Text
unfolding join
command_line_key command args = join (codes " ") (command ∷ args)

-- `[shell.policy]` of the configuration
pub record PolicyConfig : Type 0 where
  pub default_risk : Option Text
  pub deny_patterns : Option (List Text)
  pub risky_patterns : Option (List Text)
  pub safe_commands : Option (List Text)

abbrev parse_risk : Option Text → ShellRisk
parse_risk none = safe
parse_risk (some value) = unwrap_or safe (parse value)

-- `ShellPolicy::from_config`, without a section of the configuration and with one
unfoldable from_config : Host → Option PolicyConfig → ShellPolicy
unfolding build_patterns keep trim is_empty
from_config host none = record {
  deny_patterns = build_patterns host default_deny_patterns;
  risky_patterns = build_patterns host default_risky_patterns;
  safe_commands = keep (λ command. not (is_empty command)) (map trim default_safe_commands);
  default_risk = safe;
}
from_config host (some config) = record {
  deny_patterns = build_patterns host (unwrap_or default_deny_patterns config.deny_patterns);
  risky_patterns = build_patterns host (unwrap_or default_risky_patterns config.risky_patterns);
  safe_commands =
      keep (λ command. not (is_empty command))
        (map trim (unwrap_or default_safe_commands config.safe_commands));
  default_risk = parse_risk config.default_risk;
}

-- `ShellPolicy::default`
unfoldable pub default : Host → ShellPolicy
unfolding build_patterns
default host = record {
  deny_patterns = build_patterns host default_deny_patterns;
  risky_patterns = build_patterns host default_risky_patterns;
  safe_commands = default_safe_commands;
  default_risk = safe;
}

-- The last two returns of `classify`
unfoldable pub classify_unmatched : ShellPolicy → Text → Text → ShellPolicyResult
unfolding contains label
classify_unmatched policy command policy_key =
    if contains policy.safe_commands command
    then record { risk = safe; reason = codes "command marked safe"; policy_key = policy_key }
    else record {
      risk = policy.default_risk;
      reason = codes "default risk '" ++ (label policy.default_risk ++ codes "'");
      policy_key = policy_key;
    }

unfoldable pub matched : ShellRisk → Text → Text → Text → ShellPolicyResult
matched risk kind raw policy_key = record {
  risk = risk;
  reason = codes "matched " ++ (kind ++ (codes " pattern '" ++ (raw ++ codes "'")));
  policy_key = policy_key;
}

-- `ShellPolicy::classify`, by the first deny pattern and the first risky pattern that match
unfoldable pub classify_found :
    ShellPolicy → Text → Text → Option CommandPattern → Option CommandPattern → ShellPolicyResult
unfolding matched classify_unmatched
classify_found policy command key (some pattern) risky_pattern =
    matched denied (codes "deny") pattern.raw key
classify_found policy command key none (some pattern) =
    matched risky (codes "risky") pattern.raw key
classify_found policy command key none none = classify_unmatched policy command key

unfoldable pub classify : ShellPolicy → Text → List Text → ShellPolicyResult
unfolding matches find command_line_key classify_found
classify policy command args =
    classify_found policy command (command_line_key command args)
      (find (λ pattern. matches pattern command args) policy.deny_patterns)
      (find (λ pattern. matches pattern command args) policy.risky_patterns)
