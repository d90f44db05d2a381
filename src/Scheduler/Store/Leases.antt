-- ===== src/Scheduler/Store/Leases.antt =====
-- What can happen to a claimed job before its lease expires (src/scheduler/store.rs), and what its
-- row is meanwhile.
use picobot.Base.{
  Text, ℕ, ◌<◌, Bool, true, false, List, [], ◌∷◌, ◌++◌, none, some, not, ◌&&◌, ◌==◌, text_eq,
  text_eq_left, Option, keep, any, ◌≡◌, refl, arith, Bool-cases, inl, inr,
}
use picobot.Scheduler.Job.{ScheduledJob}
use picobot.Scheduler.Store.{
  has_id, takes, claimed, is_claimable, owned_by, due_ids, update_where, claim_all, claim_due_jobs,
  release_claim, disable_job, insert_job,
}
use picobot.Scheduler.Store.Claims.{any_with}

-- Does the row hold the claim?
unfoldable pub holds : Text → ℕ → ScheduledJob → Bool
unfolding text_eq
holds claim_id expires_at job =
    owned_by claim_id job && elim job.claim_expires_at [ none ↦ false | some t ↦ t == expires_at ]

-- The table after the claim of the job `i`, while nobody writes that row as a whole and no one but
-- another claimant releases it: claims by anyone before the lease expires, releases of other claims,
-- the disabling of any job, and the creation and the writing back of other jobs.
pub data Leased (i claim_id : Text) (expires_at : ℕ) (jobs : List ScheduledJob)
    : List ScheduledJob → Type 0 where
  untouched : Leased i claim_id expires_at jobs jobs
  claims :
      (later limit : ℕ) (claim_id' : Text) (expires_at' : ℕ) (rows : List ScheduledJob)
      → later < expires_at
      → Leased i claim_id expires_at jobs rows
      → Leased i claim_id expires_at jobs (claim_due_jobs later limit claim_id' expires_at' rows).1
  releases :
      (id claim_id' : Text) (now : ℕ) (rows : List ScheduledJob)
      → text_eq claim_id claim_id' ≡ false
      → Leased i claim_id expires_at jobs rows
      → Leased i claim_id expires_at jobs (release_claim id claim_id' now rows)
  disables :
      (id : Text) (now : ℕ) (rows : List ScheduledJob)
      → Leased i claim_id expires_at jobs rows
      → Leased i claim_id expires_at jobs (disable_job id now rows).1
  inserts :
      (job : ScheduledJob) (rows : List ScheduledJob)
      → text_eq job.id i ≡ false
      → Leased i claim_id expires_at jobs rows
      → Leased i claim_id expires_at jobs (insert_job job rows)

-- An UPDATE that leaves good rows good, where it takes them.
any_with-update :
    (bad p : ScheduledJob → Bool) (f : ScheduledJob → ScheduledJob) (i : Text)
    (keeps_id : (job : ScheduledJob) → text_eq (f job).id i ≡ text_eq job.id i)
    (stays : (job : ScheduledJob) → (p job && (not (bad job) && bad (f job))) ≡ false)
    (jobs : List ScheduledJob)
    → any_with bad i jobs ≡ false
    → any_with bad i (update_where p f jobs) ≡ false
unfolding any_with any update_where
any_with-update bad p f i keeps_id stays [] h = refl
any_with-update bad p f i keeps_id stays (job ∷ jobs) h =
    ground (arith, keeps_id job, stays job, any_with-update bad p f i keeps_id stays jobs)

any_with-insert :
    (bad : ScheduledJob → Bool) (i : Text) (job : ScheduledJob) (jobs : List ScheduledJob)
    → text_eq job.id i ≡ false
    → any_with bad i jobs ≡ false
    → any_with bad i (keep (λ row. not (has_id job.id row)) jobs ++ job ∷ []) ≡ false
unfolding any_with any keep
any_with-insert bad i job [] d h = ground arith
any_with-insert bad i job (row ∷ jobs) d h = ground (arith, any_with-insert bad i job jobs)

-- A row has one claim at most.
one_owner :
    (c c' : Text) (o : Option Text)
    → text_eq c c' ≡ false
    → (elim o [ none ↦ false | some x ↦ text_eq x c ]
        && elim o [ none ↦ false | some x ↦ text_eq x c' ])
      ≡ false
one_owner c c' none d = refl
one_owner c c' (some x) d = elim (Bool-cases (text_eq x c)) [
  | inl e ↦ ground (arith, text_eq_left x c c' e)
  | inr e ↦ ground arith
]

module _ (i claim_id : Text) (expires_at : ℕ) where
  abbrev pub lost : ScheduledJob → Bool
  lost job = not (holds claim_id expires_at job)

  held_unclaimable :
      (later : ℕ) (job : ScheduledJob)
      → later < expires_at
      → holds claim_id expires_at job ≡ true
      → is_claimable later job ≡ false
  unfolding holds is_claimable
  held_unclaimable later job l h = ground arith

  lost-claim_all :
      (later : ℕ) (claim_id' : Text) (expires_at' : ℕ) (ids : List Text) (rows : List ScheduledJob)
      → later < expires_at
      → any_with lost i rows ≡ false
      → any_with lost i (claim_all later claim_id' expires_at' ids rows).1 ≡ false
  unfolding claim_all
  lost-claim_all later claim_id' expires_at' [] rows l h = h
  lost-claim_all later claim_id' expires_at' (id ∷ ids) rows l h =
      lost-claim_all later claim_id' expires_at' ids _ l (
        any_with-update lost (takes later id) (claimed later claim_id' expires_at') i (λ job. refl)
          (λ job. elim (Bool-cases (holds claim_id expires_at job)) [
            | inl e ↦ ground (arith, held_unclaimable later job l e)
            | inr e ↦ ground arith
          ])
          rows h)

  lost-release :
      (claim_id' : Text) (now : ℕ) (id : Text) (rows : List ScheduledJob)
      → text_eq claim_id claim_id' ≡ false
      → any_with lost i rows ≡ false
      → any_with lost i (release_claim id claim_id' now rows) ≡ false
  unfolding release_claim holds
  lost-release claim_id' now id rows d h =
      any_with-update lost (λ job. has_id id job && owned_by claim_id' job) _ i (λ job. refl)
        (λ job. ground (arith, one_owner claim_id claim_id' job.claim_id d)) rows h

  lost-disable :
      (now : ℕ) (id : Text) (rows : List ScheduledJob)
      → any_with lost i rows ≡ false
      → any_with lost i (disable_job id now rows).1 ≡ false
  unfolding disable_job holds
  lost-disable now id rows h =
      any_with-update lost (λ job. has_id id job && job.enabled) _ i (λ job. refl)
        (λ job. ground arith) rows h

  -- Whatever happens before the lease expires, the row holds the claim.
  pub Leased-holds :
      (jobs rows : List ScheduledJob)
      → any_with lost i jobs ≡ false
      → Leased i claim_id expires_at jobs rows
      → any_with lost i rows ≡ false
  unfolding claim_due_jobs insert_job
  Leased-holds jobs rows h untouched = h
  Leased-holds jobs _ h (claims later limit claim_id' expires_at' rows l r) =
      lost-claim_all later claim_id' expires_at' (due_ids later limit rows) rows l
        (Leased-holds jobs rows h r)
  Leased-holds jobs _ h (releases id claim_id' now rows d r) =
      lost-release claim_id' now id rows d (Leased-holds jobs rows h r)
  Leased-holds jobs _ h (disables id now rows r) =
      lost-disable now id rows (Leased-holds jobs rows h r)
  Leased-holds jobs _ h (inserts job rows d r) =
      any_with-insert lost i job rows d (Leased-holds jobs rows h r)

  -- While it does, no claim takes it.
  pub lost-unclaimable :
      (later : ℕ) (rows : List ScheduledJob)
      → later < expires_at
      → any_with lost i rows ≡ false
      → any_with (is_claimable later) i rows ≡ false
  unfolding any_with any
  lost-unclaimable later [] l h = refl
  lost-unclaimable later (job ∷ rows) l h = elim (Bool-cases (holds claim_id expires_at job)) [
    | inl e ↦ ground (arith, held_unclaimable later job l e, lost-unclaimable later rows l)
    | inr e ↦ ground (arith, lost-unclaimable later rows l)
  ]
