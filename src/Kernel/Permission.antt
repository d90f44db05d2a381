-- ===== src/Kernel/Permission.antt =====
-- src/kernel/permissions.rs: permissions, when one covers another, and sets of them.
-- The crates `glob` (patterns) and `dirs` (the home directory) are the fields of a `Host`.

use picobot.Base.{
  Text, ℕ, Bool, true, false, List, [], ◌∷◌, Option, none, some, ◌||◌, codes, text_eq, strip_prefix,
  any, all, if◌then◌else◌, ◌==◌,
}
use picobot.FilePath.{components, is_absolute, normalize_path, render, path_join}

-- `MemoryScope`
pub data MemoryScope : Type 0 where
  session user global : MemoryScope

-- `Permission`; patterns and needed paths are texts, `none` commands mean every command
pub data Permission : Type 0 where
  file_read file_write net_access : Text → Permission
  shell_exec : Option (List Text) → Permission
  memory_read memory_write : MemoryScope → Permission
  schedule notify : Text → Permission

-- What `glob::Pattern::new` and `dirs::home_dir` return. A compiled pattern is its `matches`;
-- `none` is a pattern error.
pub record Host : Type 0 where
  pub glob : Text → Option (Text → Bool)
  pub home_dir : Option Text

-- `str::trim_start_matches` for one character
unfoldable pub trim_start_matches : ℕ → Text → Text
trim_start_matches c [] = []
trim_start_matches c (d ∷ s) = let rest = trim_start_matches c s in if d == c then rest else d ∷ s

-- The test of `expand_tilde`: the home directory itself, or a path below it.
unfoldable is_home_path : Text → Bool
unfolding text_eq strip_prefix
is_home_path value =
    text_eq value (codes "~")
    || elim (strip_prefix (codes "~/") value) [ none ↦ false | some rest ↦ true ]

-- `expand_tilde`
unfoldable expand_tilde : Host → Text → Text
unfolding is_home_path trim_start_matches path_join
expand_tilde host value =
    if is_home_path value
    then elim host.home_dir [
      | none ↦ value
      | some home ↦ path_join home (trim_start_matches b'/' (trim_start_matches b'~' value))
    ]
    else value

-- `resolve_permission_path`
unfoldable pub resolve_permission_path : Host → Text → Text → Text
unfolding expand_tilde is_absolute components normalize_path render
resolve_permission_path host base_dir raw =
    let expanded = expand_tilde host raw in
    let resolved = if is_absolute expanded then expanded else path_join base_dir expanded in
    render (normalize_path (components resolved))

-- The patterns' `matches`: a pattern that does not compile matches nothing.
unfoldable pub pattern_matches : Host → Text → Text → Bool
pattern_matches host pattern value = elim (host.glob pattern) [ none ↦ false | some p ↦ p value ]

-- `PathPattern::matches`
unfoldable pub path_matches : Host → Text → Text → Bool
unfolding expand_tilde pattern_matches
path_matches host pattern path = pattern_matches host (expand_tilde host pattern) path

-- `MemoryScope::covers`
unfoldable pub scope_covers : MemoryScope → MemoryScope → Bool
scope_covers global required = true
scope_covers user user = true
scope_covers user session = true
scope_covers session session = true
scope_covers _ _ = false

-- `Vec<String>::contains`
unfoldable pub contains : List Text → Text → Bool
unfolding any text_eq
contains commands cmd = any (λ granted. text_eq granted cmd) commands

unfoldable pub commands_cover : Option (List Text) → Option (List Text) → Bool
unfolding contains all
commands_cover none needed = true
commands_cover (some granted) (some needed) = all (contains granted) needed
commands_cover (some granted) none = false

-- An exact name, or the wildcard.
unfoldable pub name_covers : Text → Text → Bool
unfolding text_eq
name_covers granted needed = text_eq granted (codes "*") || text_eq granted needed

-- `Permission::covers`
unfoldable pub covers : Host → Permission → Permission → Bool
unfolding path_matches pattern_matches commands_cover scope_covers name_covers
covers host (file_read granted) (file_read needed) = path_matches host granted needed
covers host (file_write granted) (file_write needed) = path_matches host granted needed
covers host (net_access granted) (net_access needed) = pattern_matches host granted needed
covers host (shell_exec granted) (shell_exec needed) = commands_cover granted needed
covers host (memory_read granted) (memory_read needed) = scope_covers granted needed
covers host (memory_write granted) (memory_write needed) = scope_covers granted needed
covers host (schedule granted) (schedule needed) = name_covers granted needed
covers host (notify granted) (notify needed) = name_covers granted needed
covers host _ _ = false
