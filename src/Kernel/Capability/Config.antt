-- ===== src/Kernel/Capability/Config.antt =====
-- src/kernel/permissions.rs, `from_config_with_base`, over the part of src/config.rs that it reads,
-- each section reduced to what is read.
use mathlib.Core.Bool.{or-false}
use picobot.Base.{
  Text, Bool, false, List, [], ◌∷◌, ◌++◌, Option, none, some, map, any, any-append, ◌||◌, ◌≡◌, refl,
  ◌∙◌, arith,
}
use picobot.Kernel.Permission.{
  Permission, file_read, file_write, net_access, shell_exec, schedule, Host,
  resolve_permission_path, covers, path_matches, pattern_matches, commands_cover, name_covers,
}
use picobot.Kernel.Capability.{CapabilitySet, insert_all, allows}
use picobot.Kernel.Capability.Laws.{allows-insert_all}

-- `PermissionsConfig` and the records below it
pub record FilesystemPermissions : Type 0 where
  pub read_paths : List Text
  pub write_paths : List Text

pub record PermissionsConfig : Type 0 where
  pub filesystem : Option FilesystemPermissions
  pub allowed_domains : Option (List Text)
  pub allowed_commands : Option (List Text)
  pub allowed_actions : Option (List Text)

filesystem_permissions : Host → Text → Option FilesystemPermissions → List Permission
unfolding resolve_permission_path
filesystem_permissions host base none = []
filesystem_permissions host base (some fs) =
    map (λ path. file_read (resolve_permission_path host base path)) fs.read_paths
    ++ map (λ path. file_write (resolve_permission_path host base path)) fs.write_paths

network_permissions : Option (List Text) → List Permission
network_permissions none = []
network_permissions (some domains) = map net_access domains

-- An empty list of commands grants nothing.
shell_permissions : Option (List Text) → List Permission
shell_permissions none = []
shell_permissions (some []) = []
shell_permissions (some (c ∷ cs)) = shell_exec (some (c ∷ cs)) ∷ []

schedule_permissions : Option (List Text) → List Permission
schedule_permissions none = []
schedule_permissions (some actions) = map schedule actions

-- `CapabilitySet::from_config_with_base`: the insertions in the order of the code
unfoldable pub from_config_with_base : Host → Text → PermissionsConfig → CapabilitySet
unfolding insert_all filesystem_permissions network_permissions shell_permissions
    schedule_permissions
from_config_with_base host base config =
    let set = insert_all [] (filesystem_permissions host base config.filesystem) in
    let set = insert_all set (network_permissions config.allowed_domains) in
    let set = insert_all set (shell_permissions config.allowed_commands) in
    insert_all set (schedule_permissions config.allowed_actions)

any-map {ℓ κ} :
    {A : Type ℓ} {B : Type κ} (f : A → B) (p : B → Bool) (xs : List A)
    → any p (map f xs) ≡ any (λ x. p (f x)) xs
unfolding any
any-map f p [] = refl
any-map f p (x ∷ xs) = ground (arith, any-map f p xs)

any-false {ℓ} : {A : Type ℓ} (xs : List A) → any (λ x. false) xs ≡ false
unfolding any
any-false [] = refl
any-false (x ∷ xs) = any-false xs

-- What each section of a configuration grants.
abbrev pub filesystem_grants : Host → Text → Option FilesystemPermissions → Permission → Bool
filesystem_grants host base none required = false
filesystem_grants host base (some fs) (file_read path) =
    any (λ raw. path_matches host (resolve_permission_path host base raw) path) fs.read_paths
filesystem_grants host base (some fs) (file_write path) =
    any (λ raw. path_matches host (resolve_permission_path host base raw) path) fs.write_paths
filesystem_grants host base (some fs) _ = false

abbrev pub network_grants : Host → Option (List Text) → Permission → Bool
network_grants host (some domains) (net_access domain) =
    any (λ pattern. pattern_matches host pattern domain) domains
network_grants host _ _ = false

abbrev pub shell_grants : Option (List Text) → Permission → Bool
shell_grants (some (c ∷ cs)) (shell_exec needed) = commands_cover (some (c ∷ cs)) needed
shell_grants _ _ = false

abbrev pub schedule_grants : Option (List Text) → Permission → Bool
schedule_grants (some actions) (schedule action) =
    any (λ granted. name_covers granted action) actions
schedule_grants _ _ = false

module _ (host : Host) (required : Permission) where
  grants : List Permission → Bool
  grants = any (λ p. covers host p required)

  grants-map {ℓ} :
      {A : Type ℓ} (f : A → Permission) (xs : List A)
      → grants (map f xs) ≡ any (λ x. covers host (f x) required) xs
  unfolding grants
  grants-map f xs = any-map f _ xs

  allows-four :
      (a b c d : List Permission)
      → allows host (insert_all (insert_all (insert_all (insert_all [] a) b) c) d) required
        ≡ (grants d || (grants c || (grants b || grants a)))
  unfolding grants
  allows-four a b c d =
      rw
        (
          allows-insert_all host (insert_all (insert_all (insert_all [] a) b) c) d required,
          allows-insert_all host (insert_all (insert_all [] a) b) c required,
          allows-insert_all host (insert_all [] a) b required,
          allows-insert_all host [] a required,
        )
        (unfold allows in ground arith)

module _ (host : Host) (base : Text) where
  filesystem_any :
      (fs : FilesystemPermissions) (required : Permission)
      → grants host required (filesystem_permissions host base (some fs)) ≡ (
          any
            (λ raw. covers host (file_read (resolve_permission_path host base raw)) required)
            fs.read_paths
          || any
              (λ raw. covers host (file_write (resolve_permission_path host base raw)) required)
              fs.write_paths)
  unfolding filesystem_permissions grants
  filesystem_any fs required = simp (any-append, any-map)

  filesystem_lem :
      (fs : Option FilesystemPermissions) (required : Permission)
      → grants host required (filesystem_permissions host base fs)
        ≡ filesystem_grants host base fs required
  unfolding covers
  filesystem_lem none (file_read path) = unfold grants filesystem_permissions any in refl
  filesystem_lem none _ = unfold grants filesystem_permissions any in refl
  filesystem_lem (some fs) (file_read path) =
      ground (arith, filesystem_any fs (file_read path), any-false fs.write_paths)
  filesystem_lem (some fs) (file_write path) =
      ground (arith, filesystem_any fs (file_write path), any-false fs.read_paths)
  filesystem_lem (some fs) required =
      ground (arith, filesystem_any fs required, any-false fs.read_paths, any-false fs.write_paths)

  network_lem :
      (domains : Option (List Text)) (required : Permission)
      → grants host required (network_permissions domains) ≡ network_grants host domains required
  unfolding covers network_permissions grants
  network_lem none (net_access domain) = unfold any in refl
  network_lem none _ = unfold any in refl
  network_lem (some domains) (net_access domain) = any-map net_access _ domains
  network_lem (some domains) _ = any-map net_access _ domains ∙ any-false domains

  shell_lem :
      (commands : Option (List Text)) (required : Permission)
      → grants host required (shell_permissions commands) ≡ shell_grants commands required
  unfolding covers shell_permissions grants any
  shell_lem none required = refl
  shell_lem (some []) required = refl
  shell_lem (some (c ∷ cs)) (shell_exec needed) = or-false _
  shell_lem (some (c ∷ cs)) _ = refl

  schedule_lem :
      (actions : Option (List Text)) (required : Permission)
      → grants host required (schedule_permissions actions) ≡ schedule_grants actions required
  unfolding covers schedule_permissions grants
  schedule_lem none (schedule action) = unfold any in refl
  schedule_lem none _ = unfold any in refl
  schedule_lem (some actions) (schedule action) = any-map schedule _ actions
  schedule_lem (some actions) _ = any-map schedule _ actions ∙ any-false actions

  -- The set made from a configuration allows exactly what a section of the configuration grants:
  -- paths that match a listed pattern, resolved against the base directory; domains that match a
  -- listed pattern; commands, of a list that is not empty; listed schedule actions. It allows no
  -- memory scope and no notification.
  pub allows-from_config_with_base :
      (config : PermissionsConfig) (required : Permission)
      → allows host (from_config_with_base host base config) required ≡ (
          filesystem_grants host base config.filesystem required
          || (network_grants host config.allowed_domains required
              || (shell_grants config.allowed_commands required
                  || schedule_grants config.allowed_actions required)))
  unfolding from_config_with_base
  allows-from_config_with_base config required = ground (
    arith,
    allows-four host required (filesystem_permissions host base config.filesystem)
        (network_permissions config.allowed_domains) (shell_permissions config.allowed_commands)
        (schedule_permissions config.allowed_actions),
    filesystem_lem config.filesystem required,
    network_lem config.allowed_domains required,
    shell_lem config.allowed_commands required,
    schedule_lem config.allowed_actions required,
  )
