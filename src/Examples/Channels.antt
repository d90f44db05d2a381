-- ===== src/Examples/Channels.antt =====
-- A channel of the configuration.
use picobot.Base.{Text, codes, text_eq, List, [], ◌∷◌, none, some, ◌≡◌}
use picobot.Kernel.Permission.{Host, schedule}
use picobot.Kernel.Capability.{allows}
use picobot.Kernel.Tool.Registry.{lookup}
use picobot.Channels.{ChannelConfig, channel_profile}
use picobot.Channels.Profiles.{maximum_grants, maximum-channel_profile}

abbrev literal : Host
literal = record { glob = λ pattern. some (text_eq pattern); home_dir = none }

-- The one maximum does not parse, so that the granted permissions count.
abbrev profiles : List (Text × ChannelConfig)
profiles =
    (
      codes "api",
      record {
        pre_authorized = some (codes " schedule:* " ∷ []);
        max_allowed = some (codes "shell:" ∷ []);
        allow_user_prompts = none;
        prompt_timeout_secs = some 10;
      },
    )
    ∷ []

maximum-channel_profile_example :
    allows literal
      (channel_profile literal (codes "/work") profiles (codes "api")).max_allowed
      (schedule (codes "list"))
    ≡ maximum_grants literal
        (codes "/work")
        (lookup (codes "api") profiles)
        (schedule (codes "list"))
maximum-channel_profile_example =
    maximum-channel_profile literal (codes "/work") profiles (codes "api") (schedule (codes "list"))
