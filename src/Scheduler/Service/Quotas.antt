-- ===== src/Scheduler/Service/Quotas.antt =====
-- Which jobs `create_job` (src/scheduler/service.rs) takes in.
use picobot.Base.{
  Text, codes, ℕ, ◌+◌, ◌≤◌, Bool, true, false, not, ◌&&◌, List, [], ◌∷◌, ◌++◌, ltb, leb, ◌≡◌, refl,
  ap, eq_of_text_eq, ◌⊎◌, arith, keep, text_eq, Bool-cases, inl, inr, if◌then◌else◌,
}
use picobot.Kernel.Permission.{Host, schedule}
use picobot.Kernel.Capability.{allows}
use picobot.Scheduler.Job.{ScheduledJob, CreateJobRequest}
use picobot.Scheduler.Store.{
  count_where, has_id, insert_job, update_where, create_job, disable_job, count_jobs_for_user,
  count_recent_jobs_for_user,
}
use picobot.Scheduler.Service.{
  SchedulerResult, SchedulerError, done, failed, SchedulerConfig, ensure_schedule_permission,
  enforce_quotas, create,
}

unfoldable pub is_done {ℓ} : {A : Type ℓ} → SchedulerResult A → Bool
is_done (done a) = true
is_done (failed e) = false

-- The jobs after the request: those before, if it was refused
unfoldable pub table_after :
    List ScheduledJob → SchedulerResult (ScheduledJob × List ScheduledJob) → List ScheduledJob
table_after jobs (done (job, rows)) = rows
table_after jobs (failed e) = jobs

count_jobs-insert_job :
    (user : Text) (job : ScheduledJob) (jobs : List ScheduledJob)
    → count_jobs_for_user user (keep (λ row. not (has_id job.id row)) jobs ++ job ∷ [])
      ≤ (if text_eq job.user_id user then 1 else 0) + count_jobs_for_user user jobs
unfolding count_jobs_for_user count_where keep
count_jobs-insert_job user job [] = ground arith
count_jobs-insert_job user job (row ∷ jobs) = ground (arith, count_jobs-insert_job user job jobs)

SchedulerResult-cases {ℓ} :
    {A : Type ℓ} (r : SchedulerResult A)
    → ((a : A) × (r ≡ done a)) ⊎ ((e : SchedulerError) × (r ≡ failed e))
SchedulerResult-cases (done a) = inl (a, refl)
SchedulerResult-cases (failed e) = inr (e, refl)

create_job-quota :
    {limit : ℕ} (id : Text) (now : ℕ) (request : CreateJobRequest) (t : ℕ)
    (jobs : List ScheduledJob) (user : Text)
    → leb limit (count_jobs_for_user request.user_id jobs) ≡ false
    → count_jobs_for_user user jobs ≤ limit
    → count_jobs_for_user user (create_job id now request t jobs).1 ≤ limit
unfolding create_job insert_job
create_job-quota id now request t jobs user q h =
    let grown = count_jobs-insert_job user (create_job id now request t jobs).0 jobs in
    elim (Bool-cases (text_eq request.user_id user)) [
      | inl e ↦ ground (
        arith,
        grown,
        ap (λ u. count_jobs_for_user u jobs) (eq_of_text_eq request.user_id user e),
      )
      | inr e ↦ ground (arith, grown)
    ]

module _ (host : Host) (config : SchedulerConfig) (initial_run : SchedulerResult ℕ) where
  -- A job is created exactly if the scheduler is enabled, the request's capabilities allow
  -- `schedule:create`, its user has fewer jobs than the two limits, and its schedule has a first run.
  pub create-accepts :
      (id : Text) (now window_start : ℕ) (request : CreateJobRequest) (jobs : List ScheduledJob)
      → is_done (create host config initial_run id now window_start request jobs) ≡ (
          config.enabled
          && allows host request.capabilities (schedule (codes "create"))
          && ltb (count_jobs_for_user request.user_id jobs) config.max_jobs_per_user
          && ltb
              (count_recent_jobs_for_user request.user_id window_start jobs)
              config.max_jobs_per_window
          && is_done initial_run)
  unfolding create ensure_schedule_permission enforce_quotas is_done
  create-accepts id now window_start request jobs = ground arith

  create-cases :
      (id : Text) (now window_start : ℕ) (request : CreateJobRequest) (jobs : List ScheduledJob)
      → (table_after jobs (create host config initial_run id now window_start request jobs) ≡ jobs)
        ⊎ ((t : ℕ) × (leb config.max_jobs_per_user (count_jobs_for_user request.user_id jobs)
              ≡ false)
            × (create host config initial_run id now window_start request jobs
                ≡ done (create_job id now request t jobs)))
  unfolding create ensure_schedule_permission enforce_quotas table_after
  create-cases id now window_start request jobs = elim (Bool-cases config.enabled) [
    | inr a ↦ inl (rw a refl)
    | inl a ↦ elim (Bool-cases (allows host request.capabilities (schedule (codes "create")))) [
      | inr b ↦ inl (rw (a, b) refl)
      | inl b ↦
          elim (Bool-cases
            (leb config.max_jobs_per_user (count_jobs_for_user request.user_id jobs))) [
              | inl c ↦ inl (rw (a, b, c) refl)
              | inr c ↦
                  elim (Bool-cases (
                    leb config.max_jobs_per_window
                      (count_recent_jobs_for_user request.user_id window_start jobs))) [
                        | inl d ↦ inl (rw (a, b, c, d) refl)
                        | inr d ↦ elim (SchedulerResult-cases initial_run) [
                          | inl (t, f) ↦ inr (t, c, rw (a, b, c, d, f) refl)
                          | inr (e, f) ↦ inl (rw (a, b, c, d, f) refl)
                        ]
                      ]
            ]
    ]
  ]

  -- No request, whatever its result, gives a user more jobs than the limit, who had no more before.
  pub create-quota :
      (id : Text) (now window_start : ℕ) (request : CreateJobRequest) (jobs : List ScheduledJob)
      (user : Text)
      → count_jobs_for_user user jobs ≤ config.max_jobs_per_user
      → count_jobs_for_user user
          (table_after jobs (create host config initial_run id now window_start request jobs))
        ≤ config.max_jobs_per_user
  unfolding table_after
  create-quota id now window_start request jobs user h =
      elim (create-cases id now window_start request jobs) [
        | inl c ↦ rw c h
        | inr (t, q, c) ↦ rw c (create_job-quota id now request t jobs user q h)
      ]

-- Disabling a job leaves it in the count of its user's jobs, which the limit is compared with.
disable_job-keeps_quota :
    (user : Text) (id : Text) (now : ℕ) (jobs : List ScheduledJob)
    → count_jobs_for_user user (disable_job id now jobs).1 ≡ count_jobs_for_user user jobs
unfolding disable_job count_jobs_for_user count_where keep update_where
disable_job-keeps_quota user id now [] = refl
disable_job-keeps_quota user id now (job ∷ jobs) =
    ground (arith, disable_job-keeps_quota user id now jobs)
