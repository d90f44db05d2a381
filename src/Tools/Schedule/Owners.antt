-- ===== src/Tools/Schedule/Owners.antt =====
-- For whom a job is created and cancelled, and with which capabilities it runs.
use picobot.Base.{
  true, [], ◌∷◌, Option, none, some, any, all, if◌then◌else◌, ◌≡◌, inl, inr, Bool-cases, arith,
  subst,
}
use picobot.Kernel.Permission.{
  Permission, file_read, file_write, net_access, shell_exec, memory_read, memory_write, schedule,
  notify, Host, covers,
}
use picobot.Kernel.Capability.{CapabilitySet, allows}
use picobot.Kernel.Capability.Laws.{HasNoPattern, covers_trans}
use picobot.Tools.Schedule.{chosen_capabilities, capabilities_subset}

module _ (host : Host) where
  HasNoPattern-of_covers :
      (p q : Permission) → covers host p q ≡ true → HasNoPattern q → HasNoPattern p
  unfolding covers
  HasNoPattern-of_covers (file_read a) (file_read b) h n = n
  HasNoPattern-of_covers (file_read a) _ h n = cc
  HasNoPattern-of_covers (file_write a) (file_write b) h n = n
  HasNoPattern-of_covers (file_write a) _ h n = cc
  HasNoPattern-of_covers (net_access a) (net_access b) h n = n
  HasNoPattern-of_covers (net_access a) _ h n = cc
  HasNoPattern-of_covers (shell_exec a) q h n = tt
  HasNoPattern-of_covers (memory_read a) q h n = tt
  HasNoPattern-of_covers (memory_write a) q h n = tt
  HasNoPattern-of_covers (schedule a) q h n = tt
  HasNoPattern-of_covers (notify a) q h n = tt

  covers_chain :
      (p q r : Permission)
      → HasNoPattern r
      → covers host p q ≡ true
      → covers host q r ≡ true
      → covers host p r ≡ true
  covers_chain p q r n h k =
      covers_trans host p q r (HasNoPattern-of_covers p q h (HasNoPattern-of_covers q r k n)) h k

  allows-covered :
      (own : CapabilitySet) (q r : Permission)
      → HasNoPattern r
      → covers host q r ≡ true
      → allows host own q ≡ true
      → allows host own r ≡ true
  unfolding allows any
  allows-covered [] q r n k h = h
  allows-covered (p ∷ own) q r n k h = elim (Bool-cases (covers host p q)) [
    | inl e ↦ let c = covers_chain p q r n e k in ground arith
    | inr e ↦ let rest = allows-covered own q r n k in ground arith
  ]

  allows-subset :
      (own child : CapabilitySet) (r : Permission)
      → HasNoPattern r
      → capabilities_subset host own child ≡ true
      → allows host child r ≡ true
      → allows host own r ≡ true
  unfolding allows any all capabilities_subset
  allows-subset own [] r n s h = cc
  allows-subset own (q ∷ child) r n s h = elim (Bool-cases (covers host q r)) [
    | inl e ↦ let c = allows-covered own q r n e in ground arith
    | inr e ↦ let rest = allows-subset own child r n in ground arith
  ]

  -- A job never gets more than the caller has: what the capabilities chosen for it allow, of
  -- commands, memory, schedules and channels, the caller's own allow.
  pub chosen_capabilities-bounded :
      (own : CapabilitySet) (asked : Option CapabilitySet) (r : Permission)
      → HasNoPattern r
      → allows host (chosen_capabilities host own asked) r ≡ true
      → allows host own r ≡ true
  unfolding chosen_capabilities
  chosen_capabilities-bounded own none r n h = h
  chosen_capabilities-bounded own (some child) r n h =
      elim (Bool-cases (capabilities_subset host own child)) [
        | inl e ↦
            allows-subset own child r n e
              (subst (λ b. allows host (if b then child else own) r ≡ true) e h)
        | inr e ↦ subst (λ b. allows host (if b then child else own) r ≡ true) e h
      ]
