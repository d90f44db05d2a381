-- ===== src/Kernel/Timeout/Within.antt =====
-- src/kernel/core.rs: what `execute_with_timeout` does once its timeouts are worked out.
use picobot.Base.{
  not, ◌&&◌, sym, subst, ◌∙◌, none, ◌⊎◌, Text, ℕ, ◌+◌, ◌*◌, ◌≤◌, ◌<◌, max, Bool, true, false,
  Option, some, ◌≡◌, refl, arith, ◌==◌, leb, Bool-cases, inl, inr, if◌then◌else◌,
}
use picobot.Kernel.Capability.{ToolContext, is_scheduled_job}
use picobot.Kernel.Tool.{Run, err, timeout_error, timed_out}
use picobot.Kernel.Timeout.{
  Reply, Limits, ExtensionDecision, extended, declined, Outcome, nanos_per_sec, ready_by, replied,
  maybe_extend_timeout, granted, complete, give_up, await_until, await_decision, execute_within,
  prompt, auto_extend,
}

module _ {Output World : Type 0} where
  complete-le :
      (run : Run Output World) (now deadline : ℕ)
      → ready_by run deadline ≡ true
      → (complete run now).returned_at ≤ max now deadline
  unfolding ready_by complete
  complete-le run now deadline h = ground arith

  await_until-le :
      (run : Run Output World) (name : Text) (total now deadline : ℕ)
      → (await_until run name total now deadline).returned_at ≤ max now deadline
  unfolding await_until
  await_until-le run name total now deadline =
      ground (arith, complete-le run now (max now deadline))

-- A prompt takes no longer than its limit, and only a user's session is ever extended.
pub maybe_extend_timeout-le :
    {F : Type 0} (limits : Limits F) (ctx : ToolContext) (prompter : Option (Reply Bool))
    → (maybe_extend_timeout limits ctx prompter).1 ≤ limits.prompt_timeout_secs * nanos_per_sec
unfolding maybe_extend_timeout
maybe_extend_timeout-le limits ctx prompter = ground arith

-- The result of a run that was ready in time, with the state that it leaves.
abbrev pub Kept : {Output World : Type 0} → Run Output World → Outcome Output World → Type 0
Kept run out =
    (out.result ≡ run.result) × (out.world ≡ run.finished) × (ready_by run out.returned_at ≡ true)

-- The same, at a time that is not after the latest.
abbrev pub KeptBy : {Output World : Type 0} → Run Output World → ℕ → Outcome Output World → Type 0
KeptBy run latest out = Kept run out × (out.returned_at ≤ latest)

-- A timeout error that names a time, for a run that was dropped when the call returned.
abbrev pub GivenUp :
    {Output World : Type 0} → Run Output World → Text → ℕ → Outcome Output World → Type 0
GivenUp run name total out =
    (out.result ≡ err (timeout_error (timed_out name total)))
    × (out.world ≡ run.dropped out.returned_at)

-- A run is given up that was not ready within the soft timeout, or, where that is zero, the total
-- time: at the end of the total time, but not before the soft timeout, if it was not ready then
-- either; or after a question that took the rest of the total time, ready or not.
abbrev pub CutOff :
    {Output World : Type 0} → Run Output World → Text → ℕ → ℕ → ℕ → Outcome Output World → Type 0
CutOff run name soft total limit out =
    GivenUp run name total out
    × (ready_by run (if soft == 0 then total else soft) ≡ false)
    × (((ready_by run out.returned_at ≡ false) × (out.returned_at ≡ max soft total))
        ⊎ ((wait : ℕ) × (0 < soft)
            × (wait ≤ limit)
            × (total ≤ soft + wait)
            × (out.returned_at ≡ soft + wait)))

-- What a call with these times comes to.
abbrev pub Settles :
    {Output World : Type 0} → Run Output World → Text → ℕ → ℕ → ℕ → Outcome Output World → Type 0
Settles run name soft total limit out =
    KeptBy run (max soft total) out ⊎ CutOff run name soft total limit out

complete-Kept :
    {Output World : Type 0} (run : Run Output World) (now deadline : ℕ)
    → ready_by run deadline ≡ true
    → Kept run (complete run now)
unfolding complete ready_by
complete-Kept run now deadline h = (refl, refl, ground arith)

await_until-cases :
    {Output World : Type 0} (run : Run Output World) (name : Text) (total now deadline : ℕ)
    → KeptBy run (max now deadline) (await_until run name total now deadline)
      ⊎ (GivenUp run name total (await_until run name total now deadline)
          × (ready_by run (max now deadline) ≡ false)
          × ((await_until run name total now deadline).returned_at ≡ max now deadline))
unfolding await_until
await_until-cases run name total now deadline =
    elim (Bool-cases (ready_by run (max now deadline))) [
      | inl e ↦ rw e (
          inl
            (complete-Kept run now (max now deadline) e, unfold complete ready_by in ground arith))
      | inr e ↦ rw e (inr ((unfold give_up in (refl, refl)), refl, unfold give_up in refl))
    ]

await_until-Settles :
    {Output World : Type 0} (run : Run Output World) (name : Text) (soft total limit now : ℕ)
    → max now total ≡ max soft total
    → (ready_by run (max soft total) ≡ false
        → ready_by run (if soft == 0 then total else soft) ≡ false)
    → Settles run name soft total limit (await_until run name total now total)
await_until-Settles run name soft total limit now m early =
    elim (await_until-cases run name total now total) [
      | inl (k, l) ↦ inl (k, omega arith)
      | inr (g, n, t) ↦
          let late : ready_by run (max soft total) ≡ false =
            subst (λ u. ready_by run u ≡ false) m n in
          inr (g, early late, inl (subst (λ u. ready_by run u ≡ false) (sym (t ∙ m)) late, t ∙ m))
    ]

-- Whether the call may take the extension: not in a scheduled job; for a user if the policy says so,
-- or else if a prompter is asked and answers yes within the limit.
abbrev pub extends : {F : Type 0} → Limits F → ToolContext → Option (Reply Bool) → Bool
extends limits ctx prompter =
    not (is_scheduled_job ctx.execution_mode) && elim limits.soft_timeout_policy [
      | auto_extend ↦ true
      | prompt ↦ elim prompter [
        | none ↦ false
        | some reply ↦
            replied reply (limits.prompt_timeout_secs * nanos_per_sec)
            && elim reply.answer [ some true ↦ true | _ ↦ false ]
      ]
    ]

pub granted-extends :
    {F : Type 0} (limits : Limits F) (ctx : ToolContext) (prompter : Option (Reply Bool))
    (extension : ℕ)
    → granted (maybe_extend_timeout limits ctx prompter).0 extension
      ≡ (if extends limits ctx prompter then extension else 0)
unfolding maybe_extend_timeout
granted-extends limits ctx prompter extension = ground arith

pub maybe_extend_timeout-scheduled :
    {F : Type 0} (limits : Limits F) (ctx : ToolContext) (prompter : Option (Reply Bool))
    → is_scheduled_job ctx.execution_mode ≡ true
    → maybe_extend_timeout limits ctx prompter ≡ (declined, 0)
unfolding maybe_extend_timeout
maybe_extend_timeout-scheduled limits ctx prompter h = rw h

pub granted-le :
    (decision : ExtensionDecision) (extension : ℕ) → granted decision extension ≤ extension
granted-le extended extension = omega arith
granted-le declined extension = omega arith

await_until-ready :
    {Output World : Type 0} (run : Run Output World) (name : Text) (total deadline : ℕ)
    → ready_by run deadline ≡ true
    → Kept run (await_until run name total 0 deadline)
unfolding await_until
await_until-ready run name total deadline h =
    let e : ready_by run (max 0 deadline) ≡ true = unfold ready_by in ground arith in
    rw (e, await_until) (complete-Kept run 0 (max 0 deadline) e)

module _ {Output World : Type 0} (run : Run Output World) (name : Text) (hard soft extension : ℕ)
    (decision : ExtensionDecision) (wait : ℕ) where
  await_decision-le :
      (await_decision run name hard soft extension (decision, wait)).returned_at
      ≤ max (soft + wait) (hard + granted decision extension)
  unfolding await_decision give_up
  await_decision-le =
      let total = hard + granted decision extension in
      ground (arith, await_until-le run name total (soft + wait) total)

  await_decision-cases :
      (limit : ℕ)
      → wait ≤ limit
      → 0 < soft
      → ready_by run soft ≡ false
      → Settles run name soft
          (hard + granted decision extension)
          limit
          (await_decision run name hard soft extension (decision, wait))
  unfolding await_decision
  await_decision-cases limit w p n =
      let total = hard + granted decision extension in
      let early : ready_by run (if soft == 0 then total else soft) ≡ false = ground arith in
      elim (Bool-cases (leb total (soft + wait))) [
        | inl e ↦
            rw (e, await_decision)
              (inr (
                (unfold give_up in (refl, refl)),
                early,
                inr (wait, p, w, ground arith, unfold give_up in refl),
              ))
        | inr e ↦
            rw (e, await_decision)
              (await_until-Settles run name soft total limit (soft + wait) (ground arith)
                (λ _. early))
      ]

  pub execute_within-le :
      (execute_within run name hard soft extension (decision, wait)).returned_at
      ≤ max (soft + wait) (hard + granted decision extension)
  unfolding execute_within
  execute_within-le = ground (
    arith,
    await_decision-le,
    complete-le run 0 soft,
    await_until-le run name hard 0 hard,
    await_until-le run name hard soft hard,
  )

  execute_within-zero :
      soft == 0 ≡ true
      → execute_within run name hard soft extension (decision, wait)
        ≡ await_until run name hard 0 hard
  unfolding execute_within
  execute_within-zero a = rw (a, execute_within) refl

  pub execute_within-cases :
      (limit total : ℕ)
      → wait ≤ limit
      → total ≡ hard + (if soft == 0 then 0 else granted decision extension)
      → Settles run name soft total limit
          (execute_within run name hard soft extension (decision, wait))
  unfolding execute_within
  execute_within-cases limit total w q = elim (Bool-cases (soft == 0)) [
    | inl a ↦
        let e : hard ≡ total = ground arith in
        subst (Settles run name soft total limit) (sym (execute_within-zero a)) (
          subst (λ t. Settles run name soft t limit (await_until run name hard 0 hard)) e
            (await_until-Settles run name soft hard limit 0 (ground arith) (λ n. ground arith)))
    | inr a ↦
        let p : 0 < soft = ground arith in
        let e : hard + granted decision extension ≡ total = ground arith in
        elim (Bool-cases (ready_by run soft)) [
          | inl b ↦
              let out : execute_within run name hard soft extension (decision, wait)
                  ≡ complete run 0 =
                rw (a, execute_within) (rw (b, execute_within) refl) in
              subst (Settles run name soft total limit) (sym out)
                (inl (complete-Kept run 0 soft b, omega (arith, complete-le run 0 soft b)))
          | inr b ↦ elim (Bool-cases (extension == 0)) [
            | inl c ↦
                let out : execute_within run name hard soft extension (decision, wait)
                    ≡ await_until run name hard soft hard =
                  rw (a, execute_within) (rw (b, execute_within) (rw (c, execute_within) refl)) in
                let same : hard ≡ total = ground (arith, granted-le decision extension) in
                subst (Settles run name soft total limit) (sym out) (
                  subst (λ t. Settles run name soft t limit (await_until run name hard soft hard))
                    same
                    (await_until-Settles run name soft hard limit soft refl (λ _. ground arith)))
            | inr c ↦
                let out : execute_within run name hard soft extension (decision, wait)
                    ≡ await_decision run name hard soft extension (decision, wait) =
                  rw (a, execute_within) (rw (b, execute_within) (rw (c, execute_within) refl)) in
                subst (Settles run name soft total limit) (sym out) (
                  subst
                    (λ t.
                      Settles run name soft t limit
                        (await_decision run name hard soft extension (decision, wait)))
                    e (await_decision-cases limit w p b))
          ]
        ]
  ]

  -- A run that is ready within the soft timeout is never cut off, nor is one within the hard
  -- timeout if there is no soft one.
  pub execute_within-ready :
      ready_by run (if soft == 0 then hard else soft) ≡ true
      → Kept run (execute_within run name hard soft extension (decision, wait))
  unfolding execute_within
  execute_within-ready h = elim (Bool-cases (soft == 0)) [
    | inl a ↦
        let r : ready_by run hard ≡ true = rw a at h in
        rw (a, execute_within) (await_until-ready run name hard hard r)
    | inr a ↦
        let r : ready_by run soft ≡ true = rw a at h in
        rw (a, execute_within) (rw (r, execute_within) (complete-Kept run 0 soft r))
  ]

  -- The hard timeout is over by the time of a refusal.
  pub execute_within-declined :
      0 < soft
      → 0 < extension
      → ready_by run soft ≡ false
      → hard ≤ soft + wait
      → (execute_within run name hard soft extension (declined, wait)).result
        ≡ err (timeout_error (timed_out name hard))
  unfolding execute_within await_decision give_up
  execute_within-declined p q r l = ground arith
