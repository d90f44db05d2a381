-- ===== src/Channels/Profiles.antt =====
-- What a channel's profile allows.
use picobot.Base.{
  Text, codes, Bool, true, false, not, ◌&&◌, ◌||◌, List, [], ◌∷◌, Option, none, some, any, ◌≡◌,
  refl, arith, if◌then◌else◌, inl, inr, Bool-cases,
}
use picobot.Kernel.Permission.{Permission, Host, covers, memory_read, memory_write, notify, session}
use picobot.Kernel.Capability.{CapabilitySet, allows, insert, permission_eq}
use picobot.Kernel.Capability.Laws.{allows-insert}
use picobot.Kernel.Syntax.{Parsed, ok, err, parse_permission_with_base}
use picobot.Kernel.Tool.Registry.{lookup}
use picobot.Channels.{
  ChannelConfig, insert_entry, insert_entries, parse_permissions, default_pre_authorized, has_none,
  configured_sets, profile_of, channel_profile,
}

abbrev pub parses : Parsed Permission → Bool
parses (ok p) = true
parses (err e) = false

abbrev result_covers : Host → Permission → Parsed Permission → Bool
result_covers host required (ok p) = covers host p required
result_covers host required (err e) = false

-- Whether some entry of a list grants the permission, and whether some entry parses
abbrev pub listed : Host → Text → Option (List Text) → Permission → Bool
listed host base none required = false
listed host base (some entries) required =
    any (λ entry. result_covers host required (parse_permission_with_base host base entry)) entries

abbrev some_parses : Host → Text → Option (List Text) → Bool
some_parses host base none = false
some_parses host base (some entries) =
    any (λ entry. parses (parse_permission_with_base host base entry)) entries

-- Memory of the session, and notifications to every channel
abbrev default_grants : Host → Permission → Bool
default_grants host required =
    covers host (memory_read session) required
    || covers host (memory_write session) required
    || covers host (notify (codes "*")) required

-- What the maximum of a channel is to allow, by its entry in the configuration.
abbrev entry_grants : Host → Text → Option (List Text) → Option (List Text) → Permission → Bool
entry_grants host base none none required = default_grants host required
entry_grants host base pre max required =
    if some_parses host base max
    then listed host base max required
    else listed host base pre required

abbrev pub maximum_grants : Host → Text → Option ChannelConfig → Permission → Bool
maximum_grants host base none required = default_grants host required
maximum_grants host base (some channel) required =
    entry_grants host base channel.pre_authorized channel.max_allowed required

or_swap : (a b c : Bool) → (a || (b || c)) ≡ ((b || a) || c)
or_swap a b c = ground arith

and_swap : (a b c : Bool) → (not a && (not b && c)) ≡ (not (b || a) && c)
and_swap a b c = ground arith

or_reverse : (a b c : Bool) → (c || (b || (a || false))) ≡ (a || b || c)
or_reverse a b c = ground arith

allows-insert_entry :
    (host : Host) (set : CapabilitySet) (r : Parsed Permission) (required : Permission)
    → allows host (insert_entry set r) required
      ≡ (result_covers host required r || allows host set required)
unfolding insert_entry
allows-insert_entry host set (ok p) required = allows-insert host set p required
allows-insert_entry host set (err e) required = refl

allows-insert_entries :
    (host : Host) (base : Text) (set : CapabilitySet) (entries : List Text) (required : Permission)
    → allows host (insert_entries host base set entries) required ≡ (
        any
          (λ entry. result_covers host required (parse_permission_with_base host base entry))
          entries
        || allows host set required)
unfolding insert_entries any
allows-insert_entries host base set [] required = refl
allows-insert_entries host base set (entry ∷ entries) required =
    let r = parse_permission_with_base host base entry in
    rw
      (
        allows-insert_entries host base (insert_entry set r) entries required,
        allows-insert_entry host set r required,
      )
      (or_swap
        (any (λ e. result_covers host required (parse_permission_with_base host base e)) entries) _
        _)

has_none-insert : (set : CapabilitySet) (p : Permission) → has_none (insert set p) ≡ false
unfolding insert any
has_none-insert [] p = refl
has_none-insert (q ∷ set) p = elim (Bool-cases (any (permission_eq p) (q ∷ set))) [
  | inl e ↦ rw (e, insert) refl
  | inr e ↦ rw (e, insert) refl
]

has_none-insert_entry :
    (set : CapabilitySet) (r : Parsed Permission)
    → has_none (insert_entry set r) ≡ (not (parses r) && has_none set)
unfolding insert_entry
has_none-insert_entry set (ok p) = has_none-insert set p
has_none-insert_entry set (err e) = refl

has_none-insert_entries :
    (host : Host) (base : Text) (set : CapabilitySet) (entries : List Text)
    → has_none (insert_entries host base set entries) ≡ (
        not (any (λ entry. parses (parse_permission_with_base host base entry)) entries)
        && has_none set)
unfolding insert_entries any
has_none-insert_entries host base set [] = refl
has_none-insert_entries host base set (entry ∷ entries) =
    let r = parse_permission_with_base host base entry in
    rw (has_none-insert_entries host base (insert_entry set r) entries, has_none-insert_entry set r)
      (and_swap (any (λ e. parses (parse_permission_with_base host base e)) entries) _ _)

module _ (host : Host) (base : Text) where
  allows-parse_permissions :
      (entries : Option (List Text)) (required : Permission)
      → allows host (parse_permissions host base entries) required
        ≡ listed host base entries required
  unfolding parse_permissions
  allows-parse_permissions none required = unfold allows any in refl
  allows-parse_permissions (some entries) required =
      let own : allows host [] required ≡ false = unfold allows any in refl in
      ground (arith, own, allows-insert_entries host base [] entries required)

  has_none-parse_permissions :
      (entries : Option (List Text))
      → has_none (parse_permissions host base entries) ≡ not (some_parses host base entries)
  unfolding parse_permissions
  has_none-parse_permissions none = unfold any in refl
  has_none-parse_permissions (some entries) =
      ground (arith, has_none-insert_entries host base [] entries)

  allows-default :
      (required : Permission)
      → allows host default_pre_authorized required ≡ default_grants host required
  unfolding default_pre_authorized
  allows-default required =
      unfold allows any in
      or_reverse (covers host (memory_read session) required)
        (covers host (memory_write session) required) (covers host (notify (codes "*")) required)

  configured_maximum :
      (pre max : Option (List Text)) (required : Permission)
      → allows host (configured_sets host base pre max).1 required
        ≡ entry_grants host base pre max required
  unfolding configured_sets
  configured_maximum none none required = allows-default required
  configured_maximum pre max required = ground (
    arith,
    allows-parse_permissions pre required,
    allows-parse_permissions max required,
    has_none-parse_permissions max,
  )

  maximum-profile_of :
      (entry : Option ChannelConfig) (required : Permission)
      → allows host (profile_of host base entry).max_allowed required
        ≡ maximum_grants host base entry required
  unfolding profile_of
  maximum-profile_of none required = allows-default required
  maximum-profile_of (some channel) required =
      configured_maximum channel.pre_authorized channel.max_allowed required

  -- The most that a user can approve in a channel: for a channel without an entry, or with neither
  -- list, the memory of the session and notifications; else what an entry of its list of maxima
  -- that parses covers, or, where none of these parses, of its list of granted permissions.
  pub maximum-channel_profile :
      (profiles : List (Text × ChannelConfig)) (channel_id : Text) (required : Permission)
      → allows host (channel_profile host base profiles channel_id).max_allowed required
        ≡ maximum_grants host base (lookup channel_id profiles) required
  unfolding channel_profile
  maximum-channel_profile profiles channel_id required =
      maximum-profile_of (lookup channel_id profiles) required
