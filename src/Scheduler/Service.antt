-- ===== src/Scheduler/Service.antt =====
-- src/scheduler/service.rs: `SchedulerService`. A semaphore is the number of its free permits; the
-- jobs whose task holds its permits are listed.
pub mod Cancelled
pub mod Permits
pub mod Quotas
pub mod Requested
use picobot.Base.{
  Text, codes, ℕ, ◌-◌, ◌*◌, ◌+◌, max, min, ◌^◌, Bool, true, false, List, [], ◌∷◌, ◌++◌, ◌||◌,
  Option, none, some, any, not, leb, ◌==◌, text_eq, if◌then◌else◌,
}
use picobot.Kernel.Permission.{schedule, Host}
use picobot.Kernel.Capability.{CapabilitySet, allows}
use picobot.Scheduler.Job.{ScheduledJob, ScheduleType, CreateJobRequest}
use picobot.Scheduler.Store.{
  create_job, count_jobs_for_user, count_recent_jobs_for_user, claim_due_jobs, release_claim,
  disable_job,
}
use picobot.Scheduler.Executor.{Clock, ExecutionOutcome, finish}

-- The constructors of `SchedulerError` that the service makes itself
pub data SchedulerError : Type 0 where
  scheduler_disabled : SchedulerError
  permission_denied : Text → SchedulerError
  invalid_schedule : Text → SchedulerError
  quota_exceeded : Text → SchedulerError

pub data SchedulerResult {ℓ} (A : Type ℓ) : Type ℓ where
  done : A → SchedulerResult A
  failed : SchedulerError → SchedulerResult A

infixl 5 ◌>>=◌
abbrev pub ◌>>=◌ {ℓ κ} :
    {A : Type ℓ} {B : Type κ} → SchedulerResult A → (A → SchedulerResult B) → SchedulerResult B
(done a) >>= f = f a
(failed e) >>= f = failed e

-- `SchedulerConfig`, its defaults filled in
pub record SchedulerConfig : Type 0 where
  pub enabled : Bool
  pub tick_interval_secs : ℕ
  pub max_concurrent_jobs : ℕ
  pub max_concurrent_per_user : ℕ
  pub max_jobs_per_user : ℕ
  pub max_jobs_per_window : ℕ
  pub window_duration_secs : ℕ
  pub job_timeout_secs : ℕ

-- `SchedulerService`: the table, the free permits, and the jobs that run
pub record Service : Type 0 where
  pub jobs : List ScheduledJob
  pub global_permits : ℕ
  pub user_permits : Text → ℕ
  pub running : List ScheduledJob

-- `SchedulerService::new`; a user's semaphore is made when it is first asked for
unfoldable pub new : SchedulerConfig → List ScheduledJob → Service
new config jobs = record {
  jobs = jobs;
  global_permits = config.max_concurrent_jobs;
  user_permits = λ user. config.max_concurrent_per_user;
  running = [];
}

-- `try_acquire_owned`: the permits that are left
abbrev pub try_acquire : ℕ → Option ℕ
try_acquire permits = if permits == 0 then none else some (permits - 1)

abbrev pub set_permits : Text → ℕ → (Text → ℕ) → Text → ℕ
set_permits user permits f other = if text_eq user other then permits else f other

abbrev pub release : Text → ℕ → ScheduledJob → Service → Service
unfolding release_claim
release claim_id now job service = record service {
  jobs = release_claim job.id claim_id now service.jobs;
}

-- The job's task has the permits, and these are left.
abbrev pub start : ℕ → ℕ → ScheduledJob → Service → Service
start global user job service = record service {
  global_permits = global;
  user_permits = set_permits job.user_id user service.user_permits;
  running = job ∷ service.running;
}

-- Both acquisitions, and the start of the task
abbrev acquire : Text → ℕ → ScheduledJob → Option ℕ → Option ℕ → Service → Service
acquire claim_id now job none user service = release claim_id now job service
acquire claim_id now job (some global) none service = release claim_id now job service
acquire claim_id now job (some global) (some user) service = start global user job service

-- The body of the loop over the claimed jobs
unfoldable pub start_or_release : Text → ℕ → List Text → ScheduledJob → Service → Service
start_or_release claim_id now seen job service =
    if any (text_eq job.id) seen
    then release claim_id now job service
    else if service.global_permits == 0
    then release claim_id now job service
    else if service.user_permits job.user_id == 0
    then release claim_id now job service
    else acquire claim_id now job (try_acquire service.global_permits)
        (try_acquire (service.user_permits job.user_id)) service

unfoldable pub start_all : Text → ℕ → List Text → List ScheduledJob → Service → Service
unfolding start_or_release
start_all claim_id now seen [] service = service
start_all claim_id now seen (job ∷ jobs) service =
    start_all claim_id now (job.id ∷ seen) jobs (start_or_release claim_id now seen job service)

-- The lease that `tick` asks for
unfoldable pub lease_secs : SchedulerConfig → ℕ
lease_secs config =
    max (max config.job_timeout_secs (min (config.tick_interval_secs * 2) (2 ^ 64 - 1))) 2

-- `tick`
unfoldable pub tick : SchedulerConfig → Clock → ℕ → Text → Service → Service
unfolding lease_secs claim_due_jobs start_all
tick config clock now claim_id service =
    let (claimed, rows) =
      claim_due_jobs now (max config.max_concurrent_jobs 1) claim_id
        (clock.plus_seconds now (lease_secs config)) service.jobs in
    start_all claim_id now [] claimed (record service { jobs = rows })

-- The end of the task of the job at a place of the list: `execute` returns and the permits drop
unfoldable pub complete :
    Clock
    → ExecutionOutcome
    → ℕ
    → List ScheduledJob
    → ScheduledJob
    → List ScheduledJob
    → Service
    → Service
unfolding finish
complete clock outcome now before job after service = record service {
  jobs = finish clock outcome now job service.jobs;
  global_permits = service.global_permits + 1;
  user_permits =
      set_permits job.user_id (service.user_permits job.user_id + 1) service.user_permits;
  running = before ++ after;
}

-- `ensure_schedule_permission`
unfoldable pub ensure_schedule_permission : Host → CapabilitySet → SchedulerResult {0} Unit
unfolding allows
ensure_schedule_permission host capabilities =
    if allows host capabilities (schedule (codes "create"))
    then done tt
    else failed (permission_denied (codes "missing schedule:create capability"))

-- `enforce_quotas`; the start of the window is `now` less its duration
unfoldable pub enforce_quotas :
    SchedulerConfig → Text → ℕ → List ScheduledJob → SchedulerResult {0} Unit
unfolding count_jobs_for_user count_recent_jobs_for_user
enforce_quotas config user window_start jobs =
    if leb config.max_jobs_per_user (count_jobs_for_user user jobs)
    then failed (quota_exceeded (codes "max jobs per user exceeded"))
    else if leb config.max_jobs_per_window (count_recent_jobs_for_user user window_start jobs)
    then failed (quota_exceeded (codes "job creation rate exceeded"))
    else done tt

-- `create_job` of the service, with the result of `compute_initial_run` on the request
unfoldable pub create :
    Host
    → SchedulerConfig
    → SchedulerResult ℕ
    → Text
    → ℕ
    → ℕ
    → CreateJobRequest
    → List ScheduledJob
    → SchedulerResult (ScheduledJob × List ScheduledJob)
unfolding ensure_schedule_permission enforce_quotas create_job
create host config initial_run id now window_start request jobs =
    if not config.enabled then failed scheduler_disabled else do
      _ ← ensure_schedule_permission host request.capabilities
      _ ← enforce_quotas config request.user_id window_start jobs
      next_run_at ← initial_run
      done (create_job id now request next_run_at jobs)

-- `cancel_job_and_disable`; whether the job is running is the executor's answer
unfoldable pub cancel_job_and_disable :
    Bool → Text → ℕ → List ScheduledJob → Bool × List ScheduledJob
unfolding disable_job
cancel_job_and_disable was_running id now jobs =
    let (disabled, rows) = disable_job id now jobs in (was_running || disabled, rows)
