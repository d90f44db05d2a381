-- ===== src/Channels.antt =====
-- src/channels/permissions.rs: the permissions of a channel, from its entry in src/config.rs.
pub mod Profiles
pub mod RateLimiter
pub mod Api
pub mod Whatsapp
use picobot.Base.{
  Text, codes, ℕ, Bool, true, false, List, [], ◌∷◌, Option, none, some, if◌then◌else◌, ◌&&◌,
}
use picobot.Kernel.Permission.{Permission, memory_read, memory_write, notify, session, Host}
use picobot.Kernel.Capability.{CapabilitySet, insert, is_some}
use picobot.Kernel.Syntax.{Parsed, ok, err, parse_permission_with_base}
use picobot.Kernel.Tool.Registry.{lookup}

-- `ChannelConfig`
pub record ChannelConfig : Type 0 where
  pub pre_authorized : Option (List Text)
  pub max_allowed : Option (List Text)
  pub allow_user_prompts : Option Bool
  pub prompt_timeout_secs : Option ℕ

-- `ChannelPermissionProfile`, with the time for a prompt
pub record ChannelProfile : Type 0 where
  pub pre_authorized : CapabilitySet
  pub max_allowed : CapabilitySet
  pub allow_user_prompts : Bool
  pub prompt_timeout_secs : ℕ

-- An entry that does not parse is only logged.
unfoldable pub insert_entry : CapabilitySet → Parsed Permission → CapabilitySet
unfolding insert
insert_entry set (ok permission) = insert set permission
insert_entry set (err e) = set

unfoldable pub insert_entries : Host → Text → CapabilitySet → List Text → CapabilitySet
unfolding insert_entry parse_permission_with_base
insert_entries host base set [] = set
insert_entries host base set (entry ∷ entries) =
    insert_entries host base (insert_entry set (parse_permission_with_base host base entry)) entries

-- `parse_permissions`
unfoldable pub parse_permissions : Host → Text → Option (List Text) → CapabilitySet
unfolding insert_entries
parse_permissions host base none = []
parse_permissions host base (some entries) = insert_entries host base [] entries

-- `default_pre_authorized`
unfoldable pub default_pre_authorized : CapabilitySet
unfolding insert
default_pre_authorized =
    insert (insert (insert [] (memory_read session)) (memory_write session)) (notify (codes "*"))

-- `permissions().next().is_none()`
abbrev pub has_none : CapabilitySet → Bool
has_none [] = true
has_none (p ∷ ps) = false

abbrev pub or_else {ℓ} : {A : Type ℓ} → Option A → A → A
or_else none d = d
or_else (some a) d = a

-- Both sets, for the entries of a channel
unfoldable pub configured_sets :
    Host → Text → Option (List Text) → Option (List Text) → CapabilitySet × CapabilitySet
unfolding default_pre_authorized parse_permissions
configured_sets host base none none = (default_pre_authorized, default_pre_authorized)
configured_sets host base pre max =
    let pre_set = parse_permissions host base pre in
    let max_set = parse_permissions host base max in
    (pre_set, if has_none max_set then pre_set else max_set)

-- The profile for a channel's entry, with the defaults of `ChannelPermissionProfile` where there is
-- none
unfoldable pub profile_of : Host → Text → Option ChannelConfig → ChannelProfile
unfolding default_pre_authorized configured_sets
profile_of host base none = record {
  pre_authorized = default_pre_authorized;
  max_allowed = default_pre_authorized;
  allow_user_prompts = true;
  prompt_timeout_secs = 30;
}
profile_of host base (some channel) =
    let sets = configured_sets host base channel.pre_authorized channel.max_allowed in
    record {
      pre_authorized = sets.0;
      max_allowed = sets.1;
      allow_user_prompts = or_else channel.allow_user_prompts true;
      prompt_timeout_secs = or_else channel.prompt_timeout_secs 30;
    }

-- `channel_profile`
unfoldable pub channel_profile : Host → Text → List (Text × ChannelConfig) → Text → ChannelProfile
unfolding lookup profile_of
channel_profile host base profiles channel_id = profile_of host base (lookup channel_id profiles)
