-- ===== src/Kernel/Capability/Laws.antt =====
-- What sets of permissions allow.
use mathlib.Core.Bool.{or-false}
use picobot.Base.{
  codes, Text, Bool, true, List, [], ◌∷◌, Option, none, some, ◌||◌, ◌≡◌, refl, ap, ◌∙◌, text_eq,
  eq_of_text_eq, any, all, arith, Bool-cases, inl, inr,
}
use picobot.Kernel.Permission.{
  Permission, file_read, file_write, net_access, shell_exec, memory_read, memory_write, schedule,
  notify, MemoryScope, session, Host, covers, commands_cover, scope_covers, name_covers, contains,
}
use picobot.Kernel.Capability.{
  texts_eq, scope_eq, commands_eq, permission_eq, CapabilitySet, insert, insert_all,
  from_permissions, allows, allows_all,
}

eq_of_texts_eq : (ss ts : List Text) → texts_eq ss ts ≡ true → ss ≡ ts
unfolding texts_eq
eq_of_texts_eq [] [] h = refl
eq_of_texts_eq [] (t ∷ ts) h = cc
eq_of_texts_eq (s ∷ ss) [] h = cc
eq_of_texts_eq (s ∷ ss) (t ∷ ts) h = ground (arith, eq_of_text_eq s t, eq_of_texts_eq ss ts)

eq_of_scope_eq : (m n : MemoryScope) → scope_eq m n ≡ true → m ≡ n
unfolding scope_eq
eq_of_scope_eq session n h = ground arith
eq_of_scope_eq m n h = ground arith

eq_of_commands_eq : (a b : Option (List Text)) → commands_eq a b ≡ true → a ≡ b
unfolding commands_eq
eq_of_commands_eq none none h = refl
eq_of_commands_eq (some a) (some b) h = ap some (eq_of_texts_eq a b h)
eq_of_commands_eq _ _ h = cc

eq_of_permission_eq : (p q : Permission) → permission_eq p q ≡ true → p ≡ q
unfolding permission_eq
eq_of_permission_eq (file_read p) (file_read q) h = ap file_read (eq_of_text_eq p q h)
eq_of_permission_eq (file_write p) (file_write q) h = ap file_write (eq_of_text_eq p q h)
eq_of_permission_eq (net_access p) (net_access q) h = ap net_access (eq_of_text_eq p q h)
eq_of_permission_eq (shell_exec a) (shell_exec b) h = ap shell_exec (eq_of_commands_eq a b h)
eq_of_permission_eq (memory_read m) (memory_read n) h = ap memory_read (eq_of_scope_eq m n h)
eq_of_permission_eq (memory_write m) (memory_write n) h = ap memory_write (eq_of_scope_eq m n h)
eq_of_permission_eq (schedule a) (schedule b) h = ap schedule (eq_of_text_eq a b h)
eq_of_permission_eq (notify a) (notify b) h = ap notify (eq_of_text_eq a b h)
eq_of_permission_eq _ _ h = cc

-- A member that is there already adds nothing to any test on the members.
any-permission_eq :
    (f : Permission → Bool) (p : Permission) (set : CapabilitySet)
    → any (permission_eq p) set ≡ true
    → any f set ≡ (f p || any f set)
unfolding any
any-permission_eq f p [] h = cc
any-permission_eq f p (q ∷ set) h = elim (Bool-cases (permission_eq p q)) [
  | inl e ↦ rw (eq_of_permission_eq p q e) (ground arith)
  | inr e ↦ ground (arith, e, any-permission_eq f p set)
]

module _ (host : Host) where
  -- An inserted permission allows what it covers, and the others allow what they did.
  pub allows-insert :
      (set : CapabilitySet) (p required : Permission)
      → allows host (insert set p) required ≡ (covers host p required || allows host set required)
  unfolding allows insert
  allows-insert set p required = elim (Bool-cases (any (permission_eq p) set)) [
    | inl e ↦ rw (e, insert) (any-permission_eq (λ q. covers host q required) p set e)
    | inr e ↦ rw (e, insert) refl
  ]

  pub allows-insert_all :
      (set : CapabilitySet) (ps : List Permission) (required : Permission)
      → allows host (insert_all set ps) required
        ≡ (any (λ p. covers host p required) ps || allows host set required)
  unfolding insert_all any
  allows-insert_all set [] required = refl
  allows-insert_all set (p ∷ ps) required =
      ground (arith, allows-insert_all (insert set p) ps required, allows-insert set p required)

  -- A set made of a list of permissions allows what some permission of the list covers, whatever
  -- their order and repetitions.
  pub allows-from_permissions :
      (ps : List Permission) (required : Permission)
      → allows host (from_permissions ps) required ≡ any (λ p. covers host p required) ps
  unfolding from_permissions
  allows-from_permissions ps required =
      allows-insert_all [] ps required ∙ (unfold allows in or-false _)

  -- Inserting permissions takes nothing away that was allowed in full.
  pub allows_all-insert_all :
      (set : CapabilitySet) (ps required : List Permission)
      → allows_all host set required ≡ true
      → allows_all host (insert_all set ps) required ≡ true
  unfolding allows_all
  allows_all-insert_all set ps [] h = refl
  allows_all-insert_all set ps (r ∷ rs) h =
      ground (arith, allows-insert_all set ps r, allows_all-insert_all set ps rs)

all-contains_trans :
    (a b : List Text) (c : Text)
    → all (contains a) b ≡ true
    → contains b c ≡ true
    → contains a c ≡ true
unfolding all contains
all-contains_trans a [] c h k = cc
all-contains_trans a (x ∷ b) c h k = elim (Bool-cases (text_eq x c)) [
  | inl e ↦
      let both : contains a x ≡ true = unfold contains in ground arith in
      rw (← eq_of_text_eq x c e) both
  | inr e ↦ all-contains_trans a b c (ground arith) (ground arith)
]

all-contains-all :
    (a b c : List Text)
    → all (contains a) b ≡ true
    → all (contains b) c ≡ true
    → all (contains a) c ≡ true
unfolding all
all-contains-all a b [] h k = refl
all-contains-all a b (x ∷ c) h k =
    ground (arith, all-contains_trans a b x h, all-contains-all a b c h)

commands_cover_trans :
    (a b c : Option (List Text))
    → commands_cover a b ≡ true
    → commands_cover b c ≡ true
    → commands_cover a c ≡ true
unfolding commands_cover
commands_cover_trans none b c h k = refl
commands_cover_trans (some a) none c h k = cc
commands_cover_trans (some a) (some b) none h k = cc
commands_cover_trans (some a) (some b) (some c) h k = all-contains-all a b c h k

scope_covers_trans :
    (a b c : MemoryScope)
    → scope_covers a b ≡ true
    → scope_covers b c ≡ true
    → scope_covers a c ≡ true
unfolding scope_covers
scope_covers_trans a b c h k = ground arith

name_covers_trans :
    (a b c : Text) → name_covers a b ≡ true → name_covers b c ≡ true → name_covers a c ≡ true
unfolding name_covers
name_covers_trans a b c h k = elim (Bool-cases (text_eq a (codes "*"))) [
  | inl e ↦ rw e
  | inr e ↦ let same : a ≡ b = eq_of_text_eq a b (ground arith) in rw same k
]

-- A permission on memory, schedules, channels or commands: no pattern stands in it.
abbrev pub HasNoPattern : Permission → Type 0
HasNoPattern (file_read p) = ⊥
HasNoPattern (file_write p) = ⊥
HasNoPattern (net_access p) = ⊥
HasNoPattern _ = Unit

-- Covering chains: what a covered permission covers is covered, where no pattern is involved.
pub covers_trans :
    (host : Host) (p q r : Permission)
    → HasNoPattern p
    → covers host p q ≡ true
    → covers host q r ≡ true
    → covers host p r ≡ true
unfolding covers
covers_trans host (file_read p) q r n h k = absurd n
covers_trans host (file_write p) q r n h k = absurd n
covers_trans host (net_access p) q r n h k = absurd n
covers_trans host (shell_exec a) (shell_exec b) (shell_exec c) n h k =
    commands_cover_trans a b c h k
covers_trans host (memory_read a) (memory_read b) (memory_read c) n h k =
    scope_covers_trans a b c h k
covers_trans host (memory_write a) (memory_write b) (memory_write c) n h k =
    scope_covers_trans a b c h k
covers_trans host (schedule a) (schedule b) (schedule c) n h k = name_covers_trans a b c h k
covers_trans host (notify a) (notify b) (notify c) n h k = name_covers_trans a b c h k
covers_trans host _ _ _ n h k = cc
