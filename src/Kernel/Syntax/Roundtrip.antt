-- ===== src/Kernel/Syntax/Roundtrip.antt =====
-- Printing a permission and parsing it again.
use mathlib.Core.Bool.{false≢true}
use picobot.Base.{
  subst, Text, Bool, true, false, List, [], ◌∷◌, none, some, codes, text_eq, eq_of_text_eq,
  is_empty, split, join, ◌≡◌, ◌≢◌, refl, sym, ap, ◌∙◌, ◌⊎◌, inl, inr, arith, All, Bool-cases,
  Option-cases, strip_prefix,
}
use picobot.Kernel.Permission.{
  Permission, file_read, file_write, net_access, shell_exec, memory_read, memory_write, schedule,
  notify, MemoryScope, session,
}
use picobot.Kernel.Syntax.{
  commands_missing, Parsed, ok, err, display, from_str, command_list, parse_commands,
  parse_memory_scope, parse_notify, parse_schedule, parse_memory_write, parse_memory_read,
  parse_shell, parse_net, parse_file_write, memory_scope_label, ◌>>=◌,
}
use picobot.Kernel.Syntax.Commands.{
  IsCommand, command_list-join, command_list-IsCommand, command_words,
}

-- What the parser can return: commands that are not empty, trimmed and free of commas, at least
-- one of them; actions and channels that are not empty.
abbrev IsWellFormed : Permission → Type 0
IsWellFormed (shell_exec (some [])) = ⊥
IsWellFormed (shell_exec (some (c ∷ cs))) = All IsCommand (c ∷ cs)
IsWellFormed (schedule action) = is_empty action ≡ false
IsWellFormed (notify channel) = is_empty channel ≡ false
IsWellFormed _ = Unit

-- The one command `*`, which is printed like the permission for every command.
abbrev pub star : Permission
star = shell_exec (some (codes "*" ∷ []))

only_star :
    (c : Text) (cs : List Text)
    → All IsCommand (c ∷ cs)
    → text_eq (join (codes ",") (c ∷ cs)) (codes "*") ≡ true
    → ◌≡◌ {A = List Text} (c ∷ cs) (codes "*" ∷ [])
unfolding split
only_star c cs h e =
    sym (command_words c cs h)
    ∙ ap (split b',') (eq_of_text_eq (join (codes ",") (c ∷ cs)) (codes "*") e)

join-ne-star :
    (c : Text) (cs : List Text)
    → All IsCommand (c ∷ cs)
    → shell_exec (some (c ∷ cs)) ≢ star
    → text_eq (join (codes ",") (c ∷ cs)) (codes "*") ≡ false
join-ne-star c cs h n = elim (Bool-cases (text_eq (join (codes ",") (c ∷ cs)) (codes "*"))) [
  | inl e ↦ absurd (n (ap (λ ws. shell_exec (some ws)) (only_star c cs h e)))
  | inr e ↦ e
]

shell-roundtrip :
    (c : Text) (cs : List Text)
    → All IsCommand (c ∷ cs)
    → shell_exec (some (c ∷ cs)) ≢ star
    → from_str (display (shell_exec (some (c ∷ cs)))) ≡ ok (shell_exec (some (c ∷ cs)))
unfolding from_str display parse_file_write parse_net parse_shell parse_commands
shell-roundtrip c cs h n = ground (arith, join-ne-star c cs h n, command_list-join c cs h)

scope-roundtrip : (scope : MemoryScope) → parse_memory_scope (memory_scope_label scope) ≡ ok scope
unfolding parse_memory_scope memory_scope_label
scope-roundtrip session = refl
scope-roundtrip _ = refl

-- A well-formed permission other than the single command `*` is printed to a text that parses to
-- it again.
from_str-display : (p : Permission) → IsWellFormed p → p ≢ star → from_str (display p) ≡ ok p
unfolding from_str display parse_file_write parse_net parse_shell parse_memory_read
    parse_memory_write parse_schedule parse_notify
from_str-display (file_read path) h n = refl
from_str-display (file_write path) h n = refl
from_str-display (net_access domain) h n = refl
from_str-display (shell_exec none) h n = refl
from_str-display (shell_exec (some [])) h n = absurd h
from_str-display (shell_exec (some (c ∷ cs))) h n = shell-roundtrip c cs h n
from_str-display (memory_read session) h n = refl
from_str-display (memory_read _) h n = refl
from_str-display (memory_write session) h n = refl
from_str-display (memory_write _) h n = refl
from_str-display (schedule action) h n = ground arith
from_str-display (notify channel) h n = ground arith

-- A result that is well-formed where there is one.
abbrev IsGood : Parsed Permission → Type 0
IsGood (ok p) = IsWellFormed p
IsGood (err e) = Unit

parse_commands-IsGood : (list : Text) → IsGood (parse_commands list)
unfolding parse_commands
parse_commands-IsGood list = go (command_list list) (command_list-IsCommand list)
  where
    go :
        (ws : List Text)
        → All IsCommand ws
        → IsGood (elim ws [ [] ↦ err commands_missing | c ∷ cs ↦ ok (shell_exec (some (c ∷ cs))) ])
    go [] a = tt
    go (c ∷ cs) a = a

parse_notify-IsGood : (s : Text) → IsGood (parse_notify s)
unfolding parse_notify
parse_notify-IsGood s = elim (Option-cases (strip_prefix (codes "notify:") s)) [
  | inl e ↦ rw (e, parse_notify) tt
  | inr (a, e) ↦
      rw (e, parse_notify) (elim (Bool-cases (is_empty a)) [ inl f ↦ rw f tt | inr f ↦ rw f f ])
]

parse_schedule-IsGood : (s : Text) → IsGood (parse_schedule s)
unfolding parse_schedule
parse_schedule-IsGood s = elim (Option-cases (strip_prefix (codes "schedule:") s)) [
  | inl e ↦ rw (e, parse_schedule) (parse_notify-IsGood s)
  | inr (a, e) ↦
      rw (e, parse_schedule) (elim (Bool-cases (is_empty a)) [ inl f ↦ rw f tt | inr f ↦ rw f f ])
]

scope-IsGood :
    (r : Parsed MemoryScope) (f : MemoryScope → Permission)
    → ((m : MemoryScope) → IsWellFormed (f m))
    → IsGood (r >>= λ m. ok (f m))
scope-IsGood (ok m) f h = h m
scope-IsGood (err e) f h = tt

parse_memory_write-IsGood : (s : Text) → IsGood (parse_memory_write s)
unfolding parse_memory_write
parse_memory_write-IsGood s = elim (Option-cases (strip_prefix (codes "memory:write:") s)) [
  | inl e ↦ rw (e, parse_memory_write) (parse_schedule-IsGood s)
  | inr (a, e) ↦
      rw (e, parse_memory_write) (scope-IsGood (parse_memory_scope a) memory_write (λ m. tt))
]

parse_memory_read-IsGood : (s : Text) → IsGood (parse_memory_read s)
unfolding parse_memory_read
parse_memory_read-IsGood s = elim (Option-cases (strip_prefix (codes "memory:read:") s)) [
  | inl e ↦ rw (e, parse_memory_read) (parse_memory_write-IsGood s)
  | inr (a, e) ↦
      rw (e, parse_memory_read) (scope-IsGood (parse_memory_scope a) memory_read (λ m. tt))
]

parse_shell-IsGood : (s : Text) → IsGood (parse_shell s)
unfolding parse_shell
parse_shell-IsGood s = elim (Bool-cases (text_eq s (codes "shell:*"))) [
  | inl t ↦ rw (t, parse_shell) tt
  | inr f ↦ elim (Option-cases (strip_prefix (codes "shell:") s)) [
    | inl e ↦ rw (f, parse_shell) (rw (e, parse_shell) (parse_memory_read-IsGood s))
    | inr (a, e) ↦ rw (f, parse_shell) (rw (e, parse_shell) (parse_commands-IsGood a))
  ]
]

parse_net-IsGood : (s : Text) → IsGood (parse_net s)
unfolding parse_net
parse_net-IsGood s = elim (Option-cases (strip_prefix (codes "net:") s)) [
  | inl e ↦ rw (e, parse_net) (parse_shell-IsGood s)
  | inr (a, e) ↦ rw (e, parse_net) tt
]

parse_file_write-IsGood : (s : Text) → IsGood (parse_file_write s)
unfolding parse_file_write
parse_file_write-IsGood s = elim (Option-cases (strip_prefix (codes "filesystem:write:") s)) [
  | inl e ↦ rw (e, parse_file_write) (parse_net-IsGood s)
  | inr (a, e) ↦ rw (e, parse_file_write) tt
]

from_str-IsGood : (s : Text) → IsGood (from_str s)
unfolding from_str
from_str-IsGood s = elim (Option-cases (strip_prefix (codes "filesystem:read:") s)) [
  | inl e ↦ rw (e, from_str) (parse_file_write-IsGood s)
  | inr (a, e) ↦ rw (e, from_str) tt
]

-- Every text that parses gives a well-formed permission.
from_str-IsWellFormed : (s : Text) (p : Permission) → from_str s ≡ ok p → IsWellFormed p
from_str-IsWellFormed s p h = subst IsGood h (from_str-IsGood s)

abbrev prints_star : Permission → Bool
prints_star (shell_exec (some cs)) = text_eq (join (codes ",") cs) (codes "*")
prints_star _ = false

star_cases : (p : Permission) → IsWellFormed p → (p ≡ star) ⊎ (p ≢ star)
unfolding join text_eq
star_cases (shell_exec (some (c ∷ cs))) h =
    elim (Bool-cases (text_eq (join (codes ",") (c ∷ cs)) (codes "*"))) [
      | inl e ↦ inl (ap (λ ws. shell_exec (some ws)) (only_star c cs h e))
      | inr e ↦ inr (λ q. false≢true (sym e ∙ ap prints_star q))
    ]
star_cases p h = inr (λ q. cc)

-- A text that parses is printed to one that parses to the same permission, but for the single
-- command `*`: its print `shell:*` parses to the permission for every command.
pub reparse :
    (s : Text) (p : Permission)
    → from_str s ≡ ok p
    → (from_str (display p) ≡ ok p) ⊎ ((p ≡ star) × (from_str (display p) ≡ ok (shell_exec none)))
reparse s p h = elim (star_cases p (from_str-IsWellFormed s p h)) [
  | inl e ↦ inr (e, rw e (unfold from_str display in refl))
  | inr n ↦ inl (from_str-display p (from_str-IsWellFormed s p h) n)
]
