-- ===== src/Channels/Api/Schedules.antt =====
-- src/channels/api.rs: the handlers that create, list and cancel jobs. `Surroundings` are those of
-- the tool `schedule`; whether the kernel has a scheduler is a parameter.
pub mod Ownership
use picobot.Base.{
  Text, codes, ℕ, Bool, true, false, List, [], ◌∷◌, ◌++◌, Option, none, some, map, not, ◌||◌, ◌==◌,
  if◌then◌else◌, text_eq, keep, trim, split_once, split_whitespace, is_empty, length,
}
use picobot.Kernel.Permission.{Host, Permission, schedule}
use picobot.Kernel.Capability.{CapabilitySet, allows, from_permissions, user_mode}
use picobot.Kernel.Syntax
use picobot.Kernel.Invoke.{Kernel}
use picobot.Kernel.Builder.{
  clone_with_context, with_channel_id, with_prompt_profile, with_execution_mode,
}
use picobot.Scheduler.Job.{
  ScheduledJob, CreateJobRequest, ScheduleType, interval, once, cron, PrincipalType, Principal,
}
use picobot.Scheduler.Store.{get_job}
use picobot.Scheduler.Service.{SchedulerResult, done, failed, create, cancel_job_and_disable}
use picobot.Tools.Input.{unwrap_or}
use picobot.Tools.Schedule.{Surroundings, capabilities_subset, chosen_capabilities, error_text}
use picobot.Tools.Schedule.Expressions.{default_job_name}
use picobot.Channels.{ChannelProfile}
use picobot.Channels.RateLimiter.{RateLimiter, allow, allow_within, requests_per_minute}
use picobot.Channels.Api.{
  Answer, ok, refused, ◌>>=◌, bad_request, forbidden, not_found, too_many_requests,
  service_unavailable, Headers, Identities, authenticate, default_session_id, validate_session_id,
}

-- `ScheduleCreateRequest`
pub record ScheduleCreateRequest : Type 0 where
  pub name : Option Text
  pub schedule_type : Text
  pub schedule_expr : Text
  pub task_prompt : Text
  pub session_id : Option Text
  pub channel_id : Option Text
  pub enabled : Option Bool
  pub max_executions : Option ℕ
  pub capabilities : Option (List Text)
  pub metadata : Option Text

-- `enforce_rate_limit`, by what the limiter answered
abbrev limited : Text → Bool → Answer Text
limited user_id true = ok user_id
limited user_id false = refused too_many_requests (codes "rate limit exceeded")

abbrev enforce : Option ℕ → ℕ → RateLimiter → Answer Text → Answer Text × RateLimiter
enforce limit now limiter (refused code reason) = (refused code reason, limiter)
enforce limit now limiter (ok user_id) =
    let out = allow_within user_id (requests_per_minute limit) now limiter in
    (limited user_id out.0, out.1)

-- The first lines of every handler: `authenticate` and `enforce_rate_limit`
unfoldable pub admit : Identities → Option ℕ → ℕ → Headers → RateLimiter → Answer Text × RateLimiter
unfolding authenticate allow
admit identities limit now headers limiter =
    enforce limit now limiter (authenticate identities headers)

-- `ensure_schedule_permission`
abbrev pub permits : Host → CapabilitySet → CapabilitySet → Text → Bool
permits host capabilities pre_authorized action =
    allows host capabilities (schedule action)
    || allows host capabilities (schedule (codes "*"))
    || allows host pre_authorized (schedule action)
    || allows host pre_authorized (schedule (codes "*"))

unfoldable pub ensure_schedule_permission :
    Host → CapabilitySet → CapabilitySet → Text → Answer {0} Unit
unfolding allows
ensure_schedule_permission host capabilities pre_authorized action =
    if permits host capabilities pre_authorized action
    then ok tt
    else refused forbidden (codes "missing schedule:" ++ (action ++ codes " capability"))

-- `parse_schedule_type`
unfoldable pub parse_schedule_type : Text → Answer ScheduleType
unfolding text_eq
parse_schedule_type value =
    if text_eq value (codes "interval")
    then ok interval
    else if text_eq value (codes "once")
    then ok once
    else if text_eq value (codes "cron")
    then ok cron
    else refused bad_request (codes "invalid schedule_type")

-- The match of `normalize_cron_expr` on the number of fields
abbrev cron_fields : Text → ℕ → Answer Text
cron_fields raw count =
    if count == 5
    then ok (codes "0 " ++ raw)
    else if count == 6 || count == 7
    then ok raw
    else refused bad_request (codes "cron expression must have 5 or 6 fields")

abbrev cron_parts : Text → Option (Text × Text) → Answer Text
cron_parts trimmed none = cron_fields trimmed (length (split_whitespace trimmed))
cron_parts trimmed (some (prefix, rest)) =
    if is_empty (trim prefix)
    then refused bad_request (codes "cron timezone missing")
    else (cron_fields (trim rest) (length (split_whitespace (trim rest))) >>= λ normalized.
        ok (trim prefix ++ (codes "|" ++ normalized)))

-- `normalize_cron_expr`
unfoldable pub normalize_cron_expr : Text → Answer Text
unfolding trim split_once split_whitespace is_empty
normalize_cron_expr value = cron_parts (trim value) (split_once b'|' (trim value))

abbrev expr_of : ScheduleType → Text → Answer Text
expr_of cron value = normalize_cron_expr value
expr_of _ value = ok value

-- `parse_capabilities`; `show` prints the error of the parser
abbrev parse_entry : (Syntax.ParseError → Text) → Syntax.Parsed Permission → Answer Permission
parse_entry show (Syntax.ok p) = ok p
parse_entry show (Syntax.err e) = refused bad_request (show e)

unfoldable pub parse_entries : (Syntax.ParseError → Text) → List Text → Answer (List Permission)
unfolding Syntax.from_str
parse_entries show [] = ok []
parse_entries show (entry ∷ entries) = parse_entry show (Syntax.from_str entry) >>= λ permission.
    parse_entries show entries >>= λ permissions. ok (permission ∷ permissions)

unfoldable pub parse_capabilities :
    (Syntax.ParseError → Text) → Option (List Text) → Answer (Option CapabilitySet)
unfolding parse_entries from_permissions
parse_capabilities show none = ok none
parse_capabilities show (some entries) =
    parse_entries show entries >>= λ permissions. ok (some (from_permissions permissions))

abbrev check_channel : Option Text → Answer {0} Unit
check_channel none = ok tt
check_channel (some channel_id) =
    if not (text_eq channel_id (codes "api"))
    then refused bad_request (codes "invalid channel_id")
    else ok tt

abbrev pub available : Bool → Answer {0} Unit
available true = ok tt
available false = refused service_unavailable (codes "scheduler not available")

-- `map_err` on the results of the service
abbrev from_service {ℓ} : {A : Type ℓ} → SchedulerResult A → Answer A
from_service (done a) = ok a
from_service (failed e) = refused bad_request (error_text e)

-- A refused request leaves the table as it was.
abbrev pub settle :
    {A : Type 0} → List ScheduledJob → Answer (A × List ScheduledJob) → Answer A × List ScheduledJob
settle jobs (refused code reason) = (refused code reason, jobs)
settle jobs (ok (a, rows)) = (ok a, rows)

module _ {F Schema Input Output World : Type 0} (env : Surroundings) (has_scheduler : Bool)
    (profile : ChannelProfile) (kernel : Kernel F Schema Input Output World) where
  -- The kernel of a request
  unfoldable pub scoped : Text → Text → Kernel F Schema Input Output World
  unfolding clone_with_context with_channel_id with_prompt_profile
  scoped user_id session_id = with_prompt_profile profile (
      with_channel_id (some (codes "api"))
        (clone_with_context (some user_id) (some session_id) kernel))

  abbrev request_of :
      ScheduleCreateRequest
      → Text
      → Kernel F Schema Input Output World
      → ScheduleType
      → Text
      → Option CapabilitySet
      → CreateJobRequest
  request_of payload user_id inner schedule_type schedule_expr requested = record {
    name = unwrap_or (default_job_name payload.task_prompt) payload.name;
    schedule_type = schedule_type;
    schedule_expr = schedule_expr;
    task_prompt = payload.task_prompt;
    session_id = inner.context.session_id;
    user_id = user_id;
    channel_id = some (codes "api");
    capabilities = chosen_capabilities env.host inner.context.capabilities requested;
    creator = record { principal_type = PrincipalType.user; id = user_id };
    enabled = unwrap_or true payload.enabled;
    max_executions = payload.max_executions;
    created_by_system = false;
    metadata = payload.metadata;
  }

  -- `schedule_create_handler` for a user that was admitted, from the check of the permission on
  unfoldable pub create_scoped :
      ScheduleCreateRequest
      → Text
      → Kernel F Schema Input Output World
      → List ScheduledJob
      → Answer (ScheduledJob × List ScheduledJob)
  unfolding ensure_schedule_permission parse_schedule_type normalize_cron_expr parse_capabilities
      chosen_capabilities create error_text default_job_name
  create_scoped payload user_id inner jobs = do
    _ ←
        ensure_schedule_permission env.host inner.context.capabilities
          inner.prompt_profile.pre_authorized (codes "create")
    _ ← available has_scheduler
    schedule_type ← parse_schedule_type payload.schedule_type
    schedule_expr ← expr_of schedule_type payload.schedule_expr
    requested ← parse_capabilities env.show_error payload.capabilities
    from_service (
        create env.host env.config (env.initial_run schedule_type schedule_expr) env.id env.now
          env.window_start (request_of payload user_id inner schedule_type schedule_expr requested)
          jobs)

  unfoldable pub create_for :
      ScheduleCreateRequest → Text → List ScheduledJob → Answer (ScheduledJob × List ScheduledJob)
  unfolding create_scoped scoped validate_session_id default_session_id with_execution_mode text_eq
  create_for payload user_id jobs =
      let session_id = unwrap_or (default_session_id user_id) payload.session_id in
      validate_session_id session_id user_id >>= λ _. check_channel payload.channel_id >>= λ _.
      create_scoped payload user_id (with_execution_mode user_mode (scoped user_id session_id)) jobs

  -- `schedule_create_handler`, by the answer of `admit`
  unfoldable pub schedule_create :
      ScheduleCreateRequest
      → Answer Text
      → List ScheduledJob
      → Answer ScheduledJob × List ScheduledJob
  unfolding create_for
  schedule_create payload user jobs =
      settle jobs (user >>= λ user_id. create_for payload user_id jobs)

  -- `schedule_list_handler`; the response copies fields of the jobs
  unfoldable schedule_list : Answer Text → List ScheduledJob → Answer (List ScheduledJob)
  unfolding ensure_schedule_permission scoped default_session_id keep text_eq
  schedule_list user jobs = user >>= λ user_id.
      let inner = scoped user_id (default_session_id user_id) in
      available has_scheduler >>= λ _.
      ensure_schedule_permission env.host inner.context.capabilities
        inner.prompt_profile.pre_authorized (codes "list")
      >>= λ _. ok (env.order (keep (λ job. text_eq job.user_id user_id) jobs))

  abbrev found : Option ScheduledJob → Answer ScheduledJob
  found none = refused not_found (codes "job not found")
  found (some job) = ok job

  abbrev check_owner : Text → ScheduledJob → Answer {0} Unit
  check_owner user_id job =
      if not (text_eq job.user_id user_id)
      then refused forbidden (codes "job not owned by user")
      else ok tt

  unfoldable pub cancel_for :
      Bool → Text → Text → List ScheduledJob → Answer (Bool × List ScheduledJob)
  unfolding ensure_schedule_permission get_job text_eq cancel_job_and_disable scoped
      default_session_id
  cancel_for was_running job_id user_id jobs = do
    let inner = scoped user_id (default_session_id user_id)
    _ ← available has_scheduler
    _ ←
        ensure_schedule_permission env.host inner.context.capabilities
          inner.prompt_profile.pre_authorized (codes "cancel")
    job ← found (get_job job_id jobs)
    _ ← check_owner user_id job
    ok (cancel_job_and_disable was_running job_id env.now jobs)

  -- `schedule_cancel_handler`; whether the job is running is the executor's answer
  unfoldable pub schedule_cancel :
      Bool → Text → Answer Text → List ScheduledJob → Answer Bool × List ScheduledJob
  unfolding cancel_for
  schedule_cancel was_running job_id user jobs =
      settle jobs (user >>= λ user_id. cancel_for was_running job_id user_id jobs)
