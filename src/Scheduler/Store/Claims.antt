-- ===== src/Scheduler/Store/Claims.antt =====
-- The loop of `claim_due_jobs` (src/scheduler/store.rs): which identifiers it wins, and what the
-- rows with these identifiers are afterwards.
use picobot.Base.{
  Text, ℕ, ◌≤◌, Bool, true, false, List, [], ◌∷◌, some, ◌&&◌, ◌==◌, text_eq, eq_of_text_eq, length,
  keep, any, All, find, ◌≡◌, refl, sym, arith, Bool-cases, inl, inr, Option-cases, ==_iff, ◌∙◌,
  subst,
}
use picobot.Scheduler.Job.{ScheduledJob}
use picobot.Scheduler.Store.{
  has_id, takes, claimed, is_claimable, update_where, count_where, claim_all, load_jobs, get_job,
}

-- `id TEXT PRIMARY KEY`
abbrev pub Unique : List ScheduledJob → Type 0
Unique [] = Unit
Unique (job ∷ jobs) = (any (has_id job.id) jobs ≡ false) × Unique jobs

-- Is some row with the identifier bad?
unfoldable pub any_with : (ScheduledJob → Bool) → Text → List ScheduledJob → Bool
unfolding any
any_with bad i jobs = any (λ job. has_id i job && bad job) jobs

any_with-absent :
    (bad : ScheduledJob → Bool) (i : Text) (jobs : List ScheduledJob)
    → any (has_id i) jobs ≡ false
    → any_with bad i jobs ≡ false
unfolding any_with any
any_with-absent bad i [] h = refl
any_with-absent bad i (job ∷ jobs) h = ground (arith, any_with-absent bad i jobs)

any_with-count :
    (bad : ScheduledJob → Bool) (i : Text) (jobs : List ScheduledJob)
    → any_with bad i jobs ≡ false
    → count_where (λ job. has_id i job && bad job) jobs ≡ 0
unfolding any_with any count_where keep
any_with-count bad i [] h = refl
any_with-count bad i (job ∷ jobs) h = ground (arith, any_with-count bad i jobs)

has_id-get_job :
    (id : Text) (jobs : List ScheduledJob) (job : ScheduledJob)
    → get_job id jobs ≡ some job
    → text_eq job.id id ≡ true
unfolding get_job find
has_id-get_job id [] job h = cc
has_id-get_job id (row ∷ jobs) job h = elim (Bool-cases (has_id id row)) [
  | inl e ↦ ground arith
  | inr e ↦ ground (arith, has_id-get_job id jobs job)
]

module _ (now : ℕ) (claim_id : Text) (expires_at : ℕ) where
  any-claim :
      (i k : Text) (jobs : List ScheduledJob)
      → any (has_id i) (update_where (takes now k) (claimed now claim_id expires_at) jobs)
        ≡ any (has_id i) jobs
  unfolding any update_where
  any-claim i k [] = refl
  any-claim i k (job ∷ jobs) = ground (arith, any-claim i k jobs)

  Unique-claim :
      (k : Text) (jobs : List ScheduledJob)
      → Unique jobs
      → Unique (update_where (takes now k) (claimed now claim_id expires_at) jobs)
  unfolding update_where
  Unique-claim k [] u = u
  Unique-claim k (job ∷ jobs) (h, u) = elim (Bool-cases (takes now k job)) [
    | inl e ↦ rw e (any-claim job.id k jobs ∙ h, Unique-claim k jobs u)
    | inr e ↦ rw e (any-claim job.id k jobs ∙ h, Unique-claim k jobs u)
  ]

  -- What no claimed row is stays away, whatever is claimed.
  module _ (bad : ScheduledJob → Bool)
      (good : (job : ScheduledJob) → bad (claimed now claim_id expires_at job) ≡ false) where
    any_with-claim :
        (i k : Text) (jobs : List ScheduledJob)
        → any_with bad i jobs ≡ false
        → any_with bad i (update_where (takes now k) (claimed now claim_id expires_at) jobs) ≡ false
    unfolding any_with any update_where
    any_with-claim i k [] h = refl
    any_with-claim i k (job ∷ jobs) h = ground (arith, any_with-claim i k jobs, good job)

    any_with-claimed :
        (i : Text) (jobs : List ScheduledJob)
        → Unique jobs
        → count_where (takes now i) jobs ≡ 1
        → any_with bad i (update_where (takes now i) (claimed now claim_id expires_at) jobs) ≡ false
    unfolding any_with any update_where count_where keep
    any_with-claimed i [] u h = refl
    any_with-claimed i (job ∷ jobs) (a, u) h = elim (Bool-cases (has_id i job)) [
      | inl e ↦
          let absent : any (has_id i) jobs ≡ false =
            subst (λ t. any (has_id t) jobs ≡ false) (eq_of_text_eq job.id i e) a in
          ground (
            arith,
            good job,
            any_with-count (is_claimable now) i jobs
                (any_with-absent (is_claimable now) i jobs absent),
            any_with-claim i i jobs (any_with-absent bad i jobs absent),
          )
      | inr e ↦ ground (arith, any_with-claimed i jobs u)
    ]

    -- No identifier that the loop wins is that of a bad row afterwards.
    any_with-claim_all :
        (i : Text) (ids : List Text) (jobs : List ScheduledJob)
        → any_with bad i jobs ≡ false
        → any_with bad i (claim_all now claim_id expires_at ids jobs).1 ≡ false
    unfolding claim_all
    any_with-claim_all i [] jobs h = h
    any_with-claim_all i (id ∷ ids) jobs h = any_with-claim_all i ids _ (any_with-claim i id jobs h)

    pub won-any_with :
        (ids : List Text) (jobs : List ScheduledJob)
        → Unique jobs
        → All
            (λ i. any_with bad i (claim_all now claim_id expires_at ids jobs).1 ≡ false)
            (claim_all now claim_id expires_at ids jobs).0
    unfolding claim_all
    won-any_with [] jobs u = tt
    won-any_with (id ∷ ids) jobs u = elim (Bool-cases (count_where (takes now id) jobs == 1)) [
      | inl e ↦ rw e (
        any_with-claim_all id ids _
            (any_with-claimed id jobs u ((==_iff (count_where (takes now id) jobs) 1).0 e)),
        won-any_with ids _ (Unique-claim id jobs u),
      )
      | inr e ↦ rw e (won-any_with ids _ (Unique-claim id jobs u))
    ]

  pub Unique-claim_all :
      (ids : List Text) (jobs : List ScheduledJob)
      → Unique jobs
      → Unique (claim_all now claim_id expires_at ids jobs).1
  unfolding claim_all
  Unique-claim_all [] jobs u = u
  Unique-claim_all (id ∷ ids) jobs u = Unique-claim_all ids _ (Unique-claim id jobs u)

  unclaimable-claim :
      (i k : Text) (jobs : List ScheduledJob)
      → any_with (is_claimable now) i jobs ≡ false
      → any_with
          (is_claimable now)
          i
          (update_where (takes now k) (claimed now claim_id expires_at) jobs)
        ≡ false
  unfolding any_with any update_where
  unclaimable-claim i k [] h = refl
  unclaimable-claim i k (job ∷ jobs) h = elim (Bool-cases (takes now k job)) [
    | inl e ↦ elim (Bool-cases (has_id i job)) [
      | inl f ↦ ground (arith, unclaimable-claim i k jobs)
      | inr f ↦ ground (arith, unclaimable-claim i k jobs)
    ]
    | inr e ↦ ground (arith, unclaimable-claim i k jobs)
  ]

  -- An identifier without a row to claim is not won.
  pub won-unclaimable :
      (i : Text) (ids : List Text) (jobs : List ScheduledJob)
      → any_with (is_claimable now) i jobs ≡ false
      → All (λ won. text_eq won i ≡ false) (claim_all now claim_id expires_at ids jobs).0
  unfolding claim_all
  won-unclaimable i [] jobs h = tt
  won-unclaimable i (id ∷ ids) jobs h = elim (Bool-cases (count_where (takes now id) jobs == 1)) [
    | inl e ↦ rw e (
      elim (Bool-cases (text_eq id i)) [
        | inl f ↦
            let none_left : any_with (is_claimable now) id jobs ≡ false =
              subst (λ t. any_with (is_claimable now) t jobs ≡ false) (sym (eq_of_text_eq id i f))
                h in
            absurd (ground (arith, any_with-count (is_claimable now) id jobs none_left))
        | inr f ↦ f
      ],
      won-unclaimable i ids _ (unclaimable-claim i id jobs h),
    )
    | inr e ↦ rw e (won-unclaimable i ids _ (unclaimable-claim i id jobs h))
  ]

  pub length-won :
      (ids : List Text) (jobs : List ScheduledJob)
      → length (claim_all now claim_id expires_at ids jobs).0 ≤ length ids
  unfolding claim_all
  length-won [] jobs = omega arith
  length-won (id ∷ ids) jobs =
      let ih =
        length-won ids (update_where (takes now id) (claimed now claim_id expires_at) jobs) in
      elim (Bool-cases (count_where (takes now id) jobs == 1)) [
        | inl e ↦ rw e (omega (arith, ih))
        | inr e ↦ rw e (omega (arith, ih))
      ]

-- The jobs that are read back have the identifiers that were won, and are rows of the table.
pub load_jobs-All {ℓ} :
    (P : Text → Type ℓ) (ids : List Text) (jobs : List ScheduledJob)
    → All P ids
    → All (λ job. P job.id × (get_job job.id jobs ≡ some job)) (load_jobs ids jobs)
unfolding load_jobs
load_jobs-All P [] jobs h = tt
load_jobs-All P (id ∷ ids) jobs (p, h) = elim (Option-cases (get_job id jobs)) [
  | inl e ↦ rw (e, All) (load_jobs-All P ids jobs h)
  | inr (job, e) ↦
      let q : id ≡ job.id = sym (eq_of_text_eq job.id id (has_id-get_job id jobs job e)) in
      rw (e, All)
        ((subst P q p, subst (λ i. get_job i jobs ≡ some job) q e), load_jobs-All P ids jobs h)
]

pub length-load_jobs :
    (ids : List Text) (jobs : List ScheduledJob) → length (load_jobs ids jobs) ≤ length ids
unfolding load_jobs
length-load_jobs [] jobs = omega arith
length-load_jobs (id ∷ ids) jobs = ground (arith, length-load_jobs ids jobs)
