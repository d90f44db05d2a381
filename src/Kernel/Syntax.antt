-- ===== src/Kernel/Syntax.antt =====
-- src/kernel/permissions.rs: permissions as text, by `Display` and `FromStr`.
pub mod Commands
pub mod Roundtrip
use picobot.Base.{
  Text, List, [], ◌∷◌, ◌++◌, Option, none, some, map, codes, not, text_eq, is_empty, trim,
  strip_prefix, split, join, keep, if◌then◌else◌,
}
use picobot.Kernel.Permission.{
  Permission, file_read, file_write, net_access, shell_exec, memory_read, memory_write, schedule,
  notify, MemoryScope, session, user, global, Host, resolve_permission_path,
}

-- The messages of `FromStr`, with the text that a message quotes
pub data ParseError : Type 0 where
  commands_missing action_missing channel_missing : ParseError
  invalid_scope invalid_permission : Text → ParseError

pub data Parsed {ℓ} (A : Type ℓ) : Type ℓ where
  ok : A → Parsed A
  err : ParseError → Parsed A

infixl 5 ◌>>=◌
abbrev pub ◌>>=◌ {ℓ κ} : {A : Type ℓ} {B : Type κ} → Parsed A → (A → Parsed B) → Parsed B
ok a >>= f = f a
err e >>= f = err e

-- `memory_scope_label`
unfoldable pub memory_scope_label : MemoryScope → Text
memory_scope_label session = codes "session"
memory_scope_label user = codes "user"
memory_scope_label global = codes "global"

-- `parse_memory_scope`
unfoldable pub parse_memory_scope : Text → Parsed MemoryScope
unfolding text_eq
parse_memory_scope value =
    if text_eq value (codes "session")
    then ok session
    else if text_eq value (codes "user")
    then ok user
    else if text_eq value (codes "global")
    then ok global
    else err (invalid_scope value)

-- `Display for Permission`
unfoldable pub display : Permission → Text
unfolding memory_scope_label join
display (file_read path) = codes "filesystem:read:" ++ path
display (file_write path) = codes "filesystem:write:" ++ path
display (net_access domain) = codes "net:" ++ domain
display (shell_exec none) = codes "shell:*"
display (shell_exec (some commands)) = codes "shell:" ++ join (codes ",") commands
display (memory_read scope) = codes "memory:read:" ++ memory_scope_label scope
display (memory_write scope) = codes "memory:write:" ++ memory_scope_label scope
display (schedule action) = codes "schedule:" ++ action
display (notify channel) = codes "notify:" ++ channel

-- The commands behind `shell:`
unfoldable pub command_list : Text → List Text
unfolding split trim keep is_empty
command_list list = keep (λ entry. not (is_empty entry)) (map trim (split b',' list))

unfoldable pub parse_commands : Text → Parsed Permission
unfolding command_list
parse_commands list = elim (command_list list) [
  | [] ↦ err commands_missing
  | c ∷ cs ↦ ok (shell_exec (some (c ∷ cs)))
]

-- The tests of `FromStr`, from the last to the first; each is tried where those above it fail.
unfoldable pub parse_notify : Text → Parsed Permission
unfolding strip_prefix is_empty
parse_notify value = elim (strip_prefix (codes "notify:") value) [
  | none ↦ err (invalid_permission value)
  | some channel ↦ if is_empty channel then err channel_missing else ok (notify channel)
]

unfoldable pub parse_schedule : Text → Parsed Permission
unfolding strip_prefix is_empty parse_notify
parse_schedule value = elim (strip_prefix (codes "schedule:") value) [
  | none ↦ parse_notify value
  | some action ↦ if is_empty action then err action_missing else ok (schedule action)
]

unfoldable pub parse_memory_write : Text → Parsed Permission
unfolding strip_prefix parse_memory_scope parse_schedule
parse_memory_write value = elim (strip_prefix (codes "memory:write:") value) [
  | none ↦ parse_schedule value
  | some scope ↦ do s ← parse_memory_scope scope; ok (memory_write s)
]

unfoldable pub parse_memory_read : Text → Parsed Permission
unfolding strip_prefix parse_memory_scope parse_memory_write
parse_memory_read value = elim (strip_prefix (codes "memory:read:") value) [
  | none ↦ parse_memory_write value
  | some scope ↦ do s ← parse_memory_scope scope; ok (memory_read s)
]

unfoldable pub parse_shell : Text → Parsed Permission
unfolding strip_prefix text_eq parse_commands parse_memory_read
parse_shell value =
    if text_eq value (codes "shell:*")
    then ok (shell_exec none)
    else elim (strip_prefix (codes "shell:") value) [
      | none ↦ parse_memory_read value
      | some list ↦ parse_commands list
    ]

unfoldable pub parse_net : Text → Parsed Permission
unfolding strip_prefix parse_shell
parse_net value = elim (strip_prefix (codes "net:") value) [
  | none ↦ parse_shell value
  | some domain ↦ ok (net_access domain)
]

unfoldable pub parse_file_write : Text → Parsed Permission
unfolding strip_prefix parse_net
parse_file_write value = elim (strip_prefix (codes "filesystem:write:") value) [
  | none ↦ parse_net value
  | some path ↦ ok (file_write path)
]

-- `FromStr for Permission`
unfoldable pub from_str : Text → Parsed Permission
unfolding strip_prefix parse_file_write
from_str value = elim (strip_prefix (codes "filesystem:read:") value) [
  | none ↦ parse_file_write value
  | some path ↦ ok (file_read path)
]

-- `parse_permission_with_base`
unfoldable pub parse_permission_with_base : Host → Text → Text → Parsed Permission
unfolding trim from_str resolve_permission_path
parse_permission_with_base host base value = elim (from_str (trim value)) [
  | err e ↦ err e
  | ok (file_read path) ↦ ok (file_read (resolve_permission_path host base path))
  | ok (file_write path) ↦ ok (file_write (resolve_permission_path host base path))
  | ok permission ↦ ok permission
]
