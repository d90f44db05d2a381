-- ===== src/Scheduler/Service/Requested.antt =====
-- The job that `create_job` of the service makes is the one that was requested.
use picobot.Base.{some, text_eq, ◌⊎◌, true, Text, ℕ, List, Bool-cases, inl, inr, ◌≡◌, refl}
use picobot.Kernel.Permission.{Host}
use picobot.Scheduler.Job.{ScheduledJob, CreateJobRequest}
use picobot.Scheduler.Store.{create_job, get_job}
use picobot.Scheduler.Executor.Booking.{insert_job_lem}
use picobot.Scheduler.Service.{
  SchedulerConfig, SchedulerResult, done, failed, ◌>>=◌, create, ensure_schedule_permission,
  enforce_quotas,
}

-- A job is found in the table, and every other one as before.
abbrev pub IsAdded : List ScheduledJob → ScheduledJob → List ScheduledJob → Type 0
IsAdded jobs job rows =
    (get_job job.id rows ≡ some job)
    × ((id : Text) → (text_eq job.id id ≡ true) ⊎ (get_job id rows ≡ get_job id jobs))

-- A job is as requested: of the request's user and session, and with its capabilities; and it is
-- added to the table.
abbrev pub IsRequested :
    List ScheduledJob
    → CreateJobRequest
    → SchedulerResult (ScheduledJob × List ScheduledJob)
    → Type 0
IsRequested jobs request (done (job, rows)) =
    (job.user_id ≡ request.user_id)
    × ((job.capabilities ≡ request.capabilities)
        × ((job.session_id ≡ request.session_id) × IsAdded jobs job rows))
IsRequested jobs request (failed e) = Unit

bind-IsRequested :
    {A : Type 0} (jobs : List ScheduledJob) (request : CreateJobRequest) (r : SchedulerResult A)
    (f : A → SchedulerResult (ScheduledJob × List ScheduledJob))
    → ((a : A) → IsRequested jobs request (f a))
    → IsRequested jobs request (r >>= f)
bind-IsRequested jobs request (done a) f h = h a
bind-IsRequested jobs request (failed e) f h = tt

pub create-IsRequested :
    (host : Host) (config : SchedulerConfig) (run : SchedulerResult ℕ) (id : Text)
    (now window_start : ℕ) (request : CreateJobRequest) (jobs : List ScheduledJob)
    → IsRequested jobs request (create host config run id now window_start request jobs)
unfolding create create_job
create-IsRequested host config run id now window_start request jobs =
    elim (Bool-cases config.enabled) [
      | inr e ↦ rw (e) tt
      | inl e ↦ rw (e) (
          bind-IsRequested jobs request (ensure_schedule_permission host request.capabilities)
            (λ _. enforce_quotas config request.user_id window_start jobs >>= λ _.
              run >>= λ next. done (create_job id now request next jobs))
            (λ _.
              bind-IsRequested jobs request
                (enforce_quotas config request.user_id window_start jobs)
                (λ _. run >>= λ next. done (create_job id now request next jobs))
                (λ _.
                  bind-IsRequested jobs request run
                    (λ next. done (create_job id now request next jobs))
                    (λ next. (
                      refl,
                      (refl, (refl, insert_job_lem (create_job id now request next jobs).0 jobs)),
                    )))))
    ]
