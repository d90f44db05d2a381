-- ===== src/Scheduler/Executor/Booking.antt =====
-- What `execute` (src/scheduler/executor.rs) writes back.
use native.Mathlib.Nat.{pow-le-pow_right}
use picobot.Base.{
  Text, ℕ, ◌≤◌, ◌<◌, ◌^◌, min, Bool, true, false, List, [], ◌∷◌, ◌++◌, none, some, ltb, not, ◌&&◌,
  ◌≡◌, refl, arith, text_eq, text_eq_refl, text_eq_left, subst, keep, find, Bool-cases, inl, inr,
  ◌⊎◌,
}
use picobot.Scheduler.Job.{ScheduledJob, ScheduleType, once}
use picobot.Scheduler.Store.{has_id, insert_job, get_job, is_due, has_runs_left}
use picobot.Scheduler.Executor.{
  ExecutionOutcome, completed_run, failed_run, timed_out_run, cancelled_run, Clock, saturating_add,
  calculate_backoff_secs, should_disable, apply_next_run, timed, book_failure, book_success,
  book_outcome, booked, finish,
}

-- The pause after a failure never exceeds the configured one, and a longer run of failures never
-- shortens it.
calculate_backoff_secs-bounds :
    (m n max_backoff : ℕ)
    → m ≤ n
    → (calculate_backoff_secs m max_backoff ≤ calculate_backoff_secs n max_backoff)
      × (calculate_backoff_secs n max_backoff ≤ max_backoff)
unfolding calculate_backoff_secs
calculate_backoff_secs-bounds m n max_backoff h =
    let p : 2 ^ min m 10 ≤ 2 ^ min n 10 = pow-le-pow_right (omega arith) (omega arith) in
    (grind arith, omega arith)

-- What a run may not change: whose job it is, what it is allowed and what its limits are.
abbrev pub SameTerms : ScheduledJob → ScheduledJob → Type 0
SameTerms a b =
    (a.id ≡ b.id)
    × (a.user_id ≡ b.user_id)
    × (a.capabilities ≡ b.capabilities)
    × (a.creator ≡ b.creator)
    × (a.task_prompt ≡ b.task_prompt)
    × (a.schedule_type ≡ b.schedule_type)
    × (a.schedule_expr ≡ b.schedule_expr)
    × (a.max_executions ≡ b.max_executions)

abbrev is_once : ScheduleType → Bool
is_once once = true
is_once _ = false

-- Does the job go on after a run with the outcome?
unfoldable pub goes_on : ExecutionOutcome → ScheduledJob → Bool
unfolding saturating_add
goes_on (completed_run r n) job = not (is_once job.schedule_type) && elim job.max_executions [
  | none ↦ true
  | some max ↦ ltb (saturating_add job.execution_count 1) max
]
goes_on (failed_run e) job = true
goes_on timed_out_run job = true
goes_on cancelled_run job = false

-- The outcomes that count as failures
abbrev is_failure : ExecutionOutcome → Bool
is_failure (failed_run e) = true
is_failure timed_out_run = true
is_failure _ = false

get_job-append :
    (id : Text) (jobs : List ScheduledJob) (job : ScheduledJob)
    → text_eq job.id id ≡ true
    → get_job id (keep (λ row. not (has_id id row)) jobs ++ job ∷ []) ≡ some job
unfolding get_job find keep
get_job-append id [] job h = ground arith
get_job-append id (row ∷ jobs) job h = ground (arith, get_job-append id jobs job)

get_job-other :
    (id : Text) (jobs : List ScheduledJob) (job : ScheduledJob)
    → text_eq job.id id ≡ false
    → get_job id (keep (λ row. not (has_id job.id row)) jobs ++ job ∷ []) ≡ get_job id jobs
unfolding get_job find keep
get_job-other id [] job h = ground arith
get_job-other id (row ∷ jobs) job h = elim (Bool-cases (has_id job.id row)) [
  | inl e ↦ ground (arith, get_job-other id jobs job, text_eq_left row.id job.id id)
  | inr e ↦ ground (arith, get_job-other id jobs job)
]

-- What the table is after a job was written to it, at its own identifier and at the others.
pub insert_job_lem :
    (job : ScheduledJob) (jobs : List ScheduledJob)
    → (get_job job.id (insert_job job jobs) ≡ some job)
      × ((id : Text)
          → (text_eq job.id id ≡ true) ⊎ (get_job id (insert_job job jobs) ≡ get_job id jobs))
unfolding insert_job
insert_job_lem job jobs = (
  get_job-append job.id jobs job (text_eq_refl job.id),
  λ id. elim (Bool-cases (text_eq job.id id)) [
    | inl e ↦ inl e
    | inr e ↦ inr (get_job-other id jobs job e)
  ],
)

module _ (clock : Clock) (finished_at : ℕ) (job : ScheduledJob) where
  -- Whatever the outcome, the job that is written back holds no claim and has the terms of the job
  -- that was run.
  pub booked-released :
      (outcome : ExecutionOutcome)
      → ((booked clock outcome finished_at job).claimed_at ≡ none)
        × ((booked clock outcome finished_at job).claim_id ≡ none)
        × ((booked clock outcome finished_at job).claim_expires_at ≡ none)
        × SameTerms (booked clock outcome finished_at job) job
  unfolding booked book_outcome book_failure book_success apply_next_run should_disable
  booked-released outcome = ground arith

  -- The job stays enabled exactly if it was and goes on: not after a cancelled run, nor after a
  -- completed one that was to run once or that makes up the job's number of runs.
  pub booked-enabled :
      (outcome : ExecutionOutcome)
      → (booked clock outcome finished_at job).enabled ≡ (job.enabled && goes_on outcome job)
  unfolding booked book_outcome book_failure book_success apply_next_run should_disable goes_on
      timed
  booked-enabled (completed_run r n) = ground arith
  booked-enabled (failed_run e) = ground arith
  booked-enabled timed_out_run = ground arith
  booked-enabled cancelled_run = ground arith

  -- A job that had runs left still has some after the run, or is disabled.
  pub booked-count :
      (outcome : ExecutionOutcome)
      → has_runs_left job ≡ true
      → (has_runs_left (booked clock outcome finished_at job) ≡ true)
        ⊎ ((booked clock outcome finished_at job).enabled ≡ false)
  unfolding booked book_outcome book_failure book_success apply_next_run should_disable
      saturating_add
  booked-count outcome h = ground arith

  -- A failed or timed out run leaves the counter of runs alone, and the job is not due before the
  -- pause has passed that its failures ask for.
  pub failure-backs_off :
      (outcome : ExecutionOutcome) (later : ℕ)
      → is_failure outcome ≡ true
      → later
        < clock.plus_seconds finished_at (
            calculate_backoff_secs
              (saturating_add job.consecutive_failures 1)
              clock.max_backoff_secs)
      → ((booked clock outcome finished_at job).execution_count ≡ job.execution_count)
        × (is_due later (booked clock outcome finished_at job) ≡ false)
  unfolding booked book_outcome book_failure is_due
  failure-backs_off (completed_run r n) later f h = cc
  failure-backs_off (failed_run e) later f h = (refl, ground arith)
  failure-backs_off timed_out_run later f h = (refl, ground arith)
  failure-backs_off cancelled_run later f h = cc

  -- Whatever happened to the table during the run, the row of the job is afterwards what the run
  -- made of the job as it was claimed, and the other rows are found as before.
  pub finish-overwrites :
      (outcome : ExecutionOutcome) (jobs : List ScheduledJob)
      → (get_job job.id (finish clock outcome finished_at job jobs)
          ≡ some (booked clock outcome finished_at job))
        × ((id : Text)
            → (text_eq job.id id ≡ true)
              ⊎ (get_job id (finish clock outcome finished_at job jobs) ≡ get_job id jobs))
  unfolding finish
  finish-overwrites outcome jobs =
      let after = booked clock outcome finished_at job in
      let terms = booked-released outcome in
      subst
        (λ i.
          (get_job i (insert_job after jobs) ≡ some after)
          × ((id : Text)
              → (text_eq i id ≡ true) ⊎ (get_job id (insert_job after jobs) ≡ get_job id jobs)))
        terms.3.0 (insert_job_lem after jobs)
