-- ===== src/Scheduler/Store/Exclusion.antt =====
-- What `claim_due_jobs` (src/scheduler/store.rs) promises: leases exclude each other.
use picobot.Base.{
  Text, ℕ, zero, suc, All-map, subst, ◌≤◌, ◌<◌, Bool, true, false, List, [], ◌∷◌, some, not,
  text_eq, eq_of_text_eq, text_eq_refl, refl, length, keep, take, any, All, find, ◌≡◌, arith,
  Bool-cases, inl, inr, map,
}
use picobot.Scheduler.Job.{ScheduledJob}
use picobot.Scheduler.Store.{
  has_id, claimed, claim_all, load_jobs, get_job, due_ids, order_by_next_run, claim_due_jobs,
  is_due,
}
use picobot.Scheduler.Store.Leases.{holds, lost, Leased, Leased-holds, lost-unclaimable}
use picobot.Scheduler.Store.Claims.{
  Unique, any_with, Unique-claim_all, won-any_with, won-unclaimable, length-won, load_jobs-All,
  length-load_jobs,
}

length-take :
    (n : ℕ) (ids : List ScheduledJob)
    → length (map (λ (job : ScheduledJob). job.id) (take n ids)) ≤ n
length-take zero ids = omega arith
length-take (suc n) [] = omega arith
length-take (suc n) (job ∷ jobs) = omega (arith, length-take n jobs)

found_first :
    (i : Text) (row : ScheduledJob) (jobs : List ScheduledJob) (job : ScheduledJob)
    → has_id i row ≡ true
    → get_job i (row ∷ jobs) ≡ some job
    → row ≡ job
unfolding get_job find
found_first i row jobs job f e = ground arith

found_with :
    (bad : ScheduledJob → Bool) (i : Text) (jobs : List ScheduledJob) (job : ScheduledJob)
    → any_with bad i jobs ≡ false
    → get_job i jobs ≡ some job
    → bad job ≡ false
unfolding any_with any get_job find
found_with bad i [] job h e = cc
found_with bad i (row ∷ jobs) job h e = elim (Bool-cases (has_id i row)) [
  | inl f ↦ subst (λ r. bad r ≡ false) (found_first i row jobs job f e) (ground arith)
  | inr f ↦ found_with bad i jobs job (ground arith) (ground arith)
]

not-false : {b : Bool} → not b ≡ false → b ≡ true
not-false h = ground arith

claimed-holds :
    (now : ℕ) (claim_id : Text) (expires_at : ℕ) (job : ScheduledJob)
    → not (holds claim_id expires_at (claimed now claim_id expires_at job)) ≡ false
unfolding holds
claimed-holds now claim_id expires_at job = ground (arith, text_eq_refl claim_id)

-- Of an identifier that a list has, what all its rows satisfy holds.
All-any_id {ℓ} :
    (P : Text → Type ℓ) (i : Text) (jobs : List ScheduledJob)
    → All (λ (job : ScheduledJob). P job.id) jobs
    → any (has_id i) jobs ≡ true
    → P i
unfolding any
All-any_id P i [] h e = absurd (cc)
All-any_id P i (job ∷ jobs) (p, h) e = elim (Bool-cases (has_id i job)) [
  | inl f ↦ subst P (eq_of_text_eq job.id i f) p
  | inr f ↦ All-any_id P i jobs h (ground arith)
]

All-none :
    (i : Text) (jobs : List ScheduledJob)
    → All (λ (job : ScheduledJob). text_eq job.id i ≡ false) jobs
    → any (has_id i) jobs ≡ false
unfolding any
All-none i [] h = refl
All-none i (job ∷ jobs) (p, h) = ground (arith, All-none i jobs h)

module _ (now : ℕ) (limit : ℕ) (claim_id : Text) (expires_at : ℕ) (jobs : List ScheduledJob) where
  -- No more jobs are claimed than were asked for.
  pub claim_due_jobs-le : length (claim_due_jobs now limit claim_id expires_at jobs).0 ≤ limit
  unfolding claim_due_jobs due_ids
  claim_due_jobs-le =
      let ids = due_ids now limit jobs in
      let loop = claim_all now claim_id expires_at ids jobs in
      omega (
        arith,
        length-load_jobs loop.0 loop.1,
        length-won now claim_id expires_at ids jobs,
        length-take limit (order_by_next_run (keep (is_due now) jobs)),
      )

  -- In a table whose identifiers are unique, each job that is returned is the table's row for its
  -- identifier, holds the claim until `expires_at`, and the identifiers stay unique.
  pub claim_due_jobs-holds :
      Unique jobs
      → All
          (λ job.
            (holds claim_id expires_at job ≡ true)
            × (get_job job.id (claim_due_jobs now limit claim_id expires_at jobs).1 ≡ some job))
          (claim_due_jobs now limit claim_id expires_at jobs).0
        × Unique (claim_due_jobs now limit claim_id expires_at jobs).1
  unfolding claim_due_jobs
  claim_due_jobs-holds u =
      let ids = due_ids now limit jobs in
      let loop = claim_all now claim_id expires_at ids jobs in
      let free = λ (job : ScheduledJob). not (holds claim_id expires_at job) in
      let won =
        won-any_with now claim_id expires_at free (λ job. claimed-holds now claim_id expires_at job)
          ids jobs u in
      (
        All-map (load_jobs loop.0 loop.1)
            (λ job (w, row). (not-false (found_with free job.id loop.1 job w row), row))
            (load_jobs-All (λ i. any_with free i loop.1 ≡ false) loop.0 loop.1 won),
        Unique-claim_all now claim_id expires_at ids jobs u,
      )

  -- In a table whose identifiers are unique, a job that was claimed is returned by no claim before
  -- its lease expires, whatever happens before that one: claims by others, releases of other claims,
  -- the disabling of any job, and writes of other rows, in any number and order. Releases of this
  -- claim, writes of the job's own row and deletions are left out.
  pub claims_exclude :
      (i : Text) (rows : List ScheduledJob) (later limit' : ℕ) (claim_id' : Text) (expires_at' : ℕ)
      → Unique jobs
      → any (has_id i) (claim_due_jobs now limit claim_id expires_at jobs).0 ≡ true
      → Leased i claim_id expires_at (claim_due_jobs now limit claim_id expires_at jobs).1 rows
      → later < expires_at
      → any (has_id i) (claim_due_jobs later limit' claim_id' expires_at' rows).0 ≡ false
  unfolding claim_due_jobs
  claims_exclude i rows later limit' claim_id' expires_at' u m r h =
      let ids = due_ids now limit jobs in
      let loop = claim_all now claim_id expires_at ids jobs in
      let free = lost i claim_id expires_at in
      let won =
        won-any_with now claim_id expires_at free (λ job. claimed-holds now claim_id expires_at job)
          ids jobs u in
      let held : any_with free i loop.1 ≡ false =
        All-any_id (λ k. any_with free k loop.1 ≡ false) i (load_jobs loop.0 loop.1)
          (All-map (load_jobs loop.0 loop.1) (λ job (w, row). w)
            (load_jobs-All (λ k. any_with free k loop.1 ≡ false) loop.0 loop.1 won))
          m in
      let unclaimable =
        lost-unclaimable i claim_id expires_at later rows h
          (Leased-holds i claim_id expires_at loop.1 rows held r) in
      let ids' = due_ids later limit' rows in
      let loop' = claim_all later claim_id' expires_at' ids' rows in
      All-none i (load_jobs loop'.0 loop'.1) (
        All-map (load_jobs loop'.0 loop'.1) (λ other (o, row'). o)
          (load_jobs-All (λ k. text_eq k i ≡ false) loop'.0 loop'.1
            (won-unclaimable later claim_id' expires_at' i ids' rows unclaimable)))
