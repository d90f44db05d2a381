-- ===== src/Tools/Schedule.antt =====
-- src/tools/schedule.rs: the tool that creates, lists and cancels jobs. The clock, the identifiers
-- and the library's calendar are parameters; the table is that of the scheduler's store. A panic is
-- the outer `none`.
pub mod Drafts
pub mod Expressions
pub mod Owners
pub mod Callers
pub mod Creation
use picobot.Base.{
  Text, codes, ℕ, Bool, false, List, [], ◌∷◌, ◌++◌, Option, none, some, ◌&&◌, ◌||◌, if◌then◌else◌,
  text_eq, all, keep,
}
use picobot.Kernel.Permission.{Permission, Host, schedule}
use picobot.Kernel.Capability.{CapabilitySet, ToolContext, allows, is_scheduled_job}
use picobot.Kernel.Syntax
use picobot.Kernel.Tool.{Result, ok, err, ◌>>=◌}
use picobot.Scheduler.Job.{ScheduledJob, ScheduleType, CreateJobRequest}
use picobot.Scheduler.Job.PrincipalType.{user}
use picobot.Scheduler.Store.{get_job}
use picobot.Scheduler.Service.{
  SchedulerConfig, SchedulerError, scheduler_disabled, permission_denied, invalid_schedule,
  quota_exceeded, SchedulerResult, done, failed, create, cancel_job_and_disable,
}
use picobot.Tools.Input.{Input, ok_or, str_field, fail}
use picobot.Tools.Schedule.Expressions.{parse_capabilities}
use picobot.Tools.Schedule.Drafts.{Draft, read_draft, timed, option_eq, find_duplicate_job}

-- `required_permissions`
unfoldable pub required_permissions : Input → Result (List Permission)
unfolding text_eq
required_permissions input = str_field input (codes "action") (codes "missing action") >>= λ action.
    if text_eq action (codes "create")
      || (text_eq action (codes "list") || text_eq action (codes "cancel"))
    then ok (schedule action ∷ schedule (codes "*") ∷ [])
    else fail (codes "invalid action")

-- `capabilities_subset`
unfoldable pub capabilities_subset : Host → CapabilitySet → CapabilitySet → Bool
unfolding all allows
capabilities_subset host parent child = all (allows host parent) child

-- The capabilities of the job: those asked for, if the context has them, else the context's
unfoldable pub chosen_capabilities : Host → CapabilitySet → Option CapabilitySet → CapabilitySet
unfolding capabilities_subset
chosen_capabilities host own none = own
chosen_capabilities host own (some requested) =
    if capabilities_subset host own requested then requested else own

-- `#[error(…)]` of `SchedulerError`
unfoldable pub error_text : SchedulerError → Text
error_text scheduler_disabled = codes "Scheduler disabled"
error_text (permission_denied e) = codes "Permission denied: " ++ e
error_text (invalid_schedule e) = codes "Invalid schedule: " ++ e
error_text (quota_exceeded e) = codes "Quota exceeded: " ++ e

-- The outputs of the tool
pub data Output : Type 0 where
  existing created : ScheduledJob → Output
  schedules : List ScheduledJob → Output
  cancelled : Bool → Output

-- What the tool takes from its surroundings, with the scheduler's own: the printer of numbers, that
-- of the parser's errors, the local date, the context's offset, the order of a query's rows, the
-- instant and the identifier of a new job, the start of the window of quotas, and the first run of
-- a type and an expression.
pub record Surroundings : Type 0 where
  pub host : Host
  pub config : SchedulerConfig
  pub show_u64 : ℕ → Text
  pub show_error : Syntax.ParseError → Text
  pub today : Text
  pub tz_offset : Text
  pub order : List ScheduledJob → List ScheduledJob
  pub now : ℕ
  pub window_start : ℕ
  pub id : Text
  pub initial_run : ScheduleType → Text → SchedulerResult ℕ

module _ (env : Surroundings) (ctx : ToolContext) where
  abbrev pub request_of : Draft → CapabilitySet → Option Text → CreateJobRequest
  request_of draft capabilities metadata = record {
    name = draft.name;
    schedule_type = draft.schedule_type;
    schedule_expr = draft.schedule_expr;
    task_prompt = draft.task_prompt;
    session_id = draft.session_id;
    user_id = draft.user_id;
    channel_id = draft.channel_id;
    capabilities = capabilities;
    creator = record { principal_type = user; id = draft.user_id };
    enabled = draft.enabled;
    max_executions = draft.max_executions;
    created_by_system = false;
    metadata = metadata;
  }

  abbrev pub created_or_error :
      List ScheduledJob
      → SchedulerResult (ScheduledJob × List ScheduledJob)
      → Result Output × List ScheduledJob
  created_or_error jobs (failed e) = (fail (error_text e), jobs)
  created_or_error jobs (done (job, rows)) = (ok (created job), rows)

  unfoldable pub submit :
      Draft → Option Text → CapabilitySet → List ScheduledJob → Result Output × List ScheduledJob
  unfolding create error_text
  submit draft metadata capabilities jobs = created_or_error jobs (
      create env.host env.config (env.initial_run draft.schedule_type draft.schedule_expr) env.id
        env.now env.window_start (request_of draft capabilities metadata) jobs)

  -- `input.get("capabilities").map(parse_capabilities).transpose()?`
  unfoldable pub requested : Input → Option Text → Result (Option CapabilitySet)
  unfolding parse_capabilities
  requested input none = ok none
  requested input (some value) =
      parse_capabilities env.show_error (input.array (codes "capabilities")) >>= λ set.
      ok (some set)

  unfoldable pub submit_requested :
      Input
      → Draft
      → List ScheduledJob
      → Result (Option CapabilitySet)
      → Result Output × List ScheduledJob
  unfolding submit chosen_capabilities
  submit_requested input draft jobs (err e) = (err e, jobs)
  submit_requested input draft jobs (ok asked) =
      submit draft (input.json (codes "metadata"))
        (chosen_capabilities env.host ctx.capabilities asked) jobs

  -- A duplicate is reported in place of a new job.
  unfoldable pub submit_unless :
      Input → Draft → List ScheduledJob → Option ScheduledJob → Result Output × List ScheduledJob
  unfolding submit_requested requested
  submit_unless input draft jobs (some job) = (ok (existing job), jobs)
  submit_unless input draft jobs none =
      submit_requested input draft jobs (requested input (input.json (codes "capabilities")))

  unfoldable pub submit_timed :
      Input → List ScheduledJob → Option (Result Draft) → Option (Result Output × List ScheduledJob)
  unfolding submit_unless find_duplicate_job
  submit_timed input jobs none = none
  submit_timed input jobs (some (err e)) = some (err e, jobs)
  submit_timed input jobs (some (ok draft)) =
      some (submit_unless input draft jobs (find_duplicate_job env.order env.now draft jobs))

  unfoldable pub create_from :
      Input → List ScheduledJob → Result Draft → Option (Result Output × List ScheduledJob)
  unfolding timed submit_timed
  create_from input jobs (err e) = some (err e, jobs)
  create_from input jobs (ok draft) =
      submit_timed input jobs (timed env.show_u64 env.today env.tz_offset draft)

  -- `create_job`
  unfoldable pub create_job : Input → List ScheduledJob → Option (Result Output × List ScheduledJob)
  unfolding read_draft create_from
  create_job input jobs = create_from input jobs (read_draft ctx input)

  -- The rows that `list_jobs_by_user_with_session` or `list_jobs_by_user` select
  abbrev pub listed : Text → Option Text → List ScheduledJob → List ScheduledJob
  listed user_id none jobs = env.order (keep (λ job. text_eq job.user_id user_id) jobs)
  listed user_id (some session_id) jobs =
      env.order (
        keep (λ job. text_eq job.user_id user_id && option_eq job.session_id (some session_id))
          jobs)

  -- `list_jobs`
  unfoldable list_jobs : List ScheduledJob → Result Output
  unfolding keep text_eq
  list_jobs jobs = ok_or (codes "missing user_id") ctx.user_id >>= λ user_id.
      ok (schedules (listed user_id ctx.session_id jobs))

  -- The test of the owner in `cancel_job`, and the cancellation
  unfoldable pub cancel_owned :
      Bool
      → Text
      → Text
      → List ScheduledJob
      → Option ScheduledJob
      → Result Output × List ScheduledJob
  unfolding cancel_job_and_disable text_eq
  cancel_owned was_running job_id user_id jobs none = (fail (codes "job not found"), jobs)
  cancel_owned was_running job_id user_id jobs (some job) =
      let out = cancel_job_and_disable was_running job_id env.now jobs in
      if text_eq job.user_id user_id
      then (ok (cancelled out.0), out.1)
      else (fail (codes "job not owned by user"), jobs)

  unfoldable pub cancel_read :
      Bool → List ScheduledJob → Result (Text × Text) → Result Output × List ScheduledJob
  unfolding cancel_owned get_job
  cancel_read was_running jobs (err e) = (err e, jobs)
  cancel_read was_running jobs (ok (job_id, user_id)) =
      cancel_owned was_running job_id user_id jobs (get_job job_id jobs)

  -- `cancel_job`; whether the job is running is the executor's answer
  unfoldable pub cancel_job : Bool → Input → List ScheduledJob → Result Output × List ScheduledJob
  unfolding cancel_read
  cancel_job was_running input jobs = cancel_read was_running jobs (
      str_field input (codes "job_id") (codes "missing job_id") >>= λ job_id.
      ok_or (codes "missing user_id") ctx.user_id >>= λ user_id. ok (job_id, user_id))

  -- The match of `execute` on the action
  unfoldable pub perform :
      Bool → Input → List ScheduledJob → Text → Option (Result Output × List ScheduledJob)
  unfolding create_job list_jobs cancel_job text_eq
  perform was_running input jobs action =
      if text_eq action (codes "create")
      then create_job input jobs
      else if text_eq action (codes "list")
      then some (list_jobs jobs, jobs)
      else if text_eq action (codes "cancel")
      then some (cancel_job was_running input jobs)
      else some (fail (codes "invalid action"), jobs)

  unfoldable perform_action :
      Bool → Input → List ScheduledJob → Result Text → Option (Result Output × List ScheduledJob)
  unfolding perform
  perform_action was_running input jobs (err e) = some (err e, jobs)
  perform_action was_running input jobs (ok action) = perform was_running input jobs action

  -- `ScheduleTool::execute`, where the context has a scheduler
  unfoldable pub execute :
      Bool → Input → List ScheduledJob → Option (Result Output × List ScheduledJob)
  unfolding is_scheduled_job perform_action
  execute was_running input jobs =
      if is_scheduled_job ctx.execution_mode
      then some (
        fail (
            codes
              "schedule tool is disabled during scheduled job execution; use notify for reminders instead"),
        jobs,
      )
      else perform_action was_running input jobs
          (str_field input (codes "action") (codes "missing action"))
