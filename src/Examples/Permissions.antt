-- ===== src/Examples/Permissions.antt =====
-- Permissions and paths.
use picobot.Base.{codes, true, List, [], ◌∷◌, none, some, text_eq, ◌||◌, ◌≡◌, ◌↔◌, refl, ◌⊎◌}
use picobot.FilePath.{Component, root_dir, cur_dir, parent_dir, normal, path_starts_with}
use picobot.FilePath.Normal.{path_starts_with_iff}
use picobot.Kernel.Permission.{Permission, Host, file_read, shell_exec}
use picobot.Kernel.Capability.{allows}
use picobot.Kernel.Capability.Config.{
  PermissionsConfig, from_config_with_base, filesystem_grants, network_grants, shell_grants,
  schedule_grants, allows-from_config_with_base,
}
use picobot.Kernel.Syntax.{ok, from_str, display}
use picobot.Kernel.Syntax.Roundtrip.{star, reparse}

abbrev plain : Host
plain = record { glob = λ pattern. some (text_eq pattern); home_dir = none }

abbrev config : PermissionsConfig
config = record {
  filesystem = some (record { read_paths = codes "notes/../todo" ∷ []; write_paths = [] });
  allowed_domains = some (codes "example.org" ∷ []);
  allowed_commands = some [];
  allowed_actions = none;
}

abbrev todo : Permission
todo = file_read (codes "/work/todo")

allows-from_config_with_base_example :
    allows plain (from_config_with_base plain (codes "/work") config) todo ≡ (
      filesystem_grants plain (codes "/work") config.filesystem todo
      || (network_grants plain config.allowed_domains todo
          || (shell_grants config.allowed_commands todo
              || schedule_grants config.allowed_actions todo)))
allows-from_config_with_base_example =
    allows-from_config_with_base plain (codes "/work") config todo

abbrev git_ls : Permission
git_ls = shell_exec (some (codes "git" ∷ codes "ls" ∷ []))

reparse_example :
    (from_str (display star) ≡ ok star)
    ⊎ ((star ≡ star) × (from_str (display star) ≡ ok (shell_exec none)))
unfolding from_str
reparse_example = reparse (codes "shell: *") star refl

-- `/a/./../b`
abbrev dotted : List Component
dotted = root_dir ∷ normal (codes "a") ∷ cur_dir ∷ parent_dir ∷ normal (codes "b") ∷ []

path_starts_with_iff_example :
    (path_starts_with dotted (root_dir ∷ []) ≡ true)
    ↔ ((rest : List Component) × (dotted ≡ root_dir ∷ rest))
path_starts_with_iff_example = path_starts_with_iff dotted (root_dir ∷ [])
