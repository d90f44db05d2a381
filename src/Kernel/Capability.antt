-- ===== src/Kernel/Capability.antt =====
-- src/kernel/permissions.rs: `CapabilitySet`, a hash set of permissions, as the list of its
-- members without repetition; and the part of `ToolContext` (src/tools/traits.rs) that permissions
-- are decided on. The program only asks whether any or all of the members pass a test, so that the
-- order of iteration is not observed.
pub mod Laws
pub mod Config
use picobot.Base.{
  Text, ℕ, Bool, true, false, List, [], ◌∷◌, ◌++◌, Option, none, some, ◌&&◌, ◌||◌, text_eq, any,
  all, if◌then◌else◌,
}
use picobot.Kernel.Permission.{
  Permission, file_read, file_write, net_access, shell_exec, memory_read, memory_write, schedule,
  notify, MemoryScope, session, user, global, Host, covers,
}

unfoldable pub texts_eq : List Text → List Text → Bool
unfolding text_eq
texts_eq [] [] = true
texts_eq (s ∷ ss) (t ∷ ts) = text_eq s t && texts_eq ss ts
texts_eq _ _ = false

scope_eq : MemoryScope → MemoryScope → Bool
scope_eq session session = true
scope_eq user user = true
scope_eq global global = true
scope_eq _ _ = false

commands_eq : Option (List Text) → Option (List Text) → Bool
unfolding texts_eq
commands_eq none none = true
commands_eq (some a) (some b) = texts_eq a b
commands_eq _ _ = false

-- The derived `PartialEq` of `Permission`
unfoldable pub permission_eq : Permission → Permission → Bool
unfolding text_eq commands_eq scope_eq
permission_eq (file_read p) (file_read q) = text_eq p q
permission_eq (file_write p) (file_write q) = text_eq p q
permission_eq (net_access d) (net_access e) = text_eq d e
permission_eq (shell_exec a) (shell_exec b) = commands_eq a b
permission_eq (memory_read m) (memory_read n) = scope_eq m n
permission_eq (memory_write m) (memory_write n) = scope_eq m n
permission_eq (schedule a) (schedule b) = text_eq a b
permission_eq (notify a) (notify b) = text_eq a b
permission_eq _ _ = false

-- `CapabilitySet`
abbrev pub CapabilitySet : Type 0
CapabilitySet = List Permission

-- `CapabilitySet::insert`
unfoldable pub insert : CapabilitySet → Permission → CapabilitySet
unfolding any permission_eq
insert set permission = if any (permission_eq permission) set then set else permission ∷ set

unfoldable pub insert_all : CapabilitySet → List Permission → CapabilitySet
unfolding insert
insert_all set [] = set
insert_all set (p ∷ ps) = insert_all (insert set p) ps

-- `CapabilitySet::from_permissions`
unfoldable pub from_permissions : List Permission → CapabilitySet
unfolding insert_all
from_permissions permissions = insert_all [] permissions

-- `CapabilitySet::allows`
unfoldable pub allows : Host → CapabilitySet → Permission → Bool
unfolding any covers
allows host set required = any (λ permission. covers host permission required) set

-- `CapabilitySet::allows_all`
unfoldable pub allows_all : Host → CapabilitySet → List Permission → Bool
unfolding all allows
allows_all host set required = all (allows host set) required

-- `CapabilitySet::allows_any`
unfoldable pub allows_any : Host → CapabilitySet → List Permission → Bool
unfolding any allows
allows_any host set required = any (allows host set) required

-- `ExecutionMode`
pub data ExecutionMode : Type 0 where
  user_mode scheduled_job system admin : ExecutionMode

unfoldable pub is_scheduled_job : ExecutionMode → Bool
is_scheduled_job scheduled_job = true
is_scheduled_job _ = false

unfoldable pub allows_identity_override : ExecutionMode → Bool
allows_identity_override system = true
allows_identity_override admin = true
allows_identity_override _ = false

-- `ToolContext`, as far as permissions and timeouts read it
pub record ToolContext : Type 0 where
  pub capabilities : CapabilitySet
  pub user_id : Option Text
  pub session_id : Option Text
  pub channel_id : Option Text
  pub execution_mode : ExecutionMode

abbrev pub is_some {ℓ} : {A : Type ℓ} → Option A → Bool
is_some none = false
is_some (some a) = true

unfoldable scope_is_granted : MemoryScope → ToolContext → Bool
scope_is_granted session ctx = is_some ctx.session_id
scope_is_granted user ctx = is_some ctx.user_id
scope_is_granted global ctx = false

-- `Permission::is_auto_granted`
unfoldable pub is_auto_granted : ToolContext → Permission → Bool
unfolding scope_is_granted
is_auto_granted ctx (memory_read scope) = scope_is_granted scope ctx
is_auto_granted ctx (memory_write scope) = scope_is_granted scope ctx
is_auto_granted ctx _ = false
