-- ===== src/Tools/Schedule/Drafts.antt =====
-- src/tools/schedule.rs: what `create_job` reads of its input, the first run it is given, and the
-- job of which it would be a duplicate.
use picobot.Base.{
  Text, codes, ℕ, ◌+◌, ◌^◌, ◌%◌, Bool, true, false, List, Option, none, some, ◌&&◌, leb,
  if◌then◌else◌, text_eq, find, keep,
}
use picobot.Kernel.Capability.{ToolContext, allows_identity_override}
use picobot.Kernel.Tool.{Result, ok, err, ◌>>=◌}
use picobot.Scheduler.Job.{ScheduledJob, ScheduleType, interval, once, cron}
use picobot.Scheduler.Expression.{parse_relative_duration}
use picobot.Tools.Input.{Input, Done, str_field, unwrap_or, fail}
use picobot.Tools.Identity.{or_else, channel_of, check_given, user_of}
use picobot.Tools.Schedule.Expressions.{default_job_name, normalize_cron_expr, normalize_once_expr}

-- `parse_schedule_type`
unfoldable parse_schedule_type : Text → Result ScheduleType
unfolding text_eq
parse_schedule_type value =
    if text_eq value (codes "interval")
    then ok interval
    else if text_eq value (codes "once")
    then ok once
    else if text_eq value (codes "cron")
    then ok cron
    else fail (codes "invalid schedule_type")

-- The normalisation of an expression that only `cron` has
unfoldable cron_expr : ScheduleType → Text → Result Text
unfolding normalize_cron_expr
cron_expr cron expr = normalize_cron_expr expr
cron_expr interval expr = ok expr
cron_expr once expr = ok expr

-- What `create_job` has read of its input before it looks at the expression
pub record Draft : Type 0 where
  pub schedule_type : ScheduleType
  pub schedule_expr : Text
  pub task_prompt : Text
  pub name : Text
  pub session_id : Option Text
  pub user_id : Text
  pub channel_id : Option Text
  pub enabled : Bool
  pub max_executions : Option ℕ

-- `as u32`
abbrev as_u32 : Option ℕ → Option ℕ
as_u32 none = none
as_u32 (some n) = some (n % 2 ^ 32)

-- The channel: the input's, the context's, or the session's
abbrev channel_for : ToolContext → Option Text → Option Text → Option Text
channel_for ctx session_id given = or_else given (or_else ctx.channel_id (channel_of session_id))

-- The first lines of `create_job`: the type, the expression and the prompt
unfoldable pub read_what : Input → Result (ScheduleType × (Text × Text))
unfolding parse_schedule_type cron_expr
read_what input = do
  type_name ← str_field input (codes "schedule_type") (codes "missing schedule_type")
  schedule_type ← parse_schedule_type type_name
  raw_expr ← str_field input (codes "schedule_expr") (codes "missing schedule_expr")
  schedule_expr ← cron_expr schedule_type raw_expr
  task_prompt ← str_field input (codes "task_prompt") (codes "missing task_prompt")
  ok (schedule_type, (schedule_expr, task_prompt))

-- The checks of the session, the user and the channel
unfoldable pub check_session : ToolContext → Input → Result Done
unfolding check_given allows_identity_override
check_session ctx input =
    check_given (codes "session_id") (allows_identity_override ctx.execution_mode) ctx.session_id
      (input.str (codes "session_id"))

unfoldable pub check_channel : ToolContext → Input → Result Done
unfolding check_given allows_identity_override
check_channel ctx input =
    check_given (codes "channel_id") (allows_identity_override ctx.execution_mode) ctx.channel_id
      (input.str (codes "channel_id"))

unfoldable pub read_user : ToolContext → Input → Result Text
unfolding check_session check_channel user_of
read_user ctx input = check_session ctx input >>= λ _.
    user_of ctx (input.str (codes "user_id")) >>= λ user_id.
    check_channel ctx input >>= λ _. ok user_id

unfoldable pub draft_of : ToolContext → Input → Text → ScheduleType × (Text × Text) → Draft
unfolding default_job_name
draft_of ctx input user_id (schedule_type, (schedule_expr, task_prompt)) =
    let session_id = or_else (input.str (codes "session_id")) ctx.session_id in
    record {
      schedule_type = schedule_type;
      schedule_expr = schedule_expr;
      task_prompt = task_prompt;
      name = unwrap_or (default_job_name task_prompt) (input.str (codes "name"));
      session_id = session_id;
      user_id = user_id;
      channel_id = channel_for ctx session_id (input.str (codes "channel_id"));
      enabled = unwrap_or true (input.flag (codes "enabled"));
      max_executions = as_u32 (input.number (codes "max_executions"));
    }

-- `create_job`, up to the flag `enabled` and the limit of executions
unfoldable pub read_draft : ToolContext → Input → Result Draft
unfolding read_what read_user draft_of
read_draft ctx input = read_what input >>= λ what.
    read_user ctx input >>= λ user_id. ok (draft_of ctx input user_id what)

-- A relative duration makes an interval: of a job that runs once, one with a single execution.
unfoldable pub relative : ScheduleType → Text → Draft → Draft
relative once secs draft = record draft {
  schedule_type = interval;
  schedule_expr = secs;
  max_executions = or_else draft.max_executions (some 1);
}
relative interval secs draft = record draft { schedule_expr = secs }
relative cron secs draft = draft

abbrev pub with_expr : Draft → Option (Result Text) → Option (Result Draft)
with_expr draft none = none
with_expr draft (some (err e)) = some (err e)
with_expr draft (some (ok expr)) = some (ok (record draft { schedule_expr = expr }))

unfoldable pub absolute : ScheduleType → Text → Text → Draft → Option (Result Draft)
unfolding normalize_once_expr
absolute once today tz_offset draft =
    with_expr draft (normalize_once_expr today tz_offset draft.schedule_expr)
absolute interval today tz_offset draft = some (ok draft)
absolute cron today tz_offset draft = some (ok draft)

abbrev pub timed_by : (ℕ → Text) → Text → Text → Draft → Option ℕ → Option (Result Draft)
timed_by show_u64 today tz_offset draft none = absolute draft.schedule_type today tz_offset draft
timed_by show_u64 today tz_offset draft (some secs) =
    some (ok (relative draft.schedule_type (show_u64 secs) draft))

-- `create_job`, on the expression
unfoldable pub timed : (ℕ → Text) → Text → Text → Draft → Option (Result Draft)
unfolding parse_relative_duration relative absolute
timed show_u64 today tz_offset draft =
    timed_by show_u64 today tz_offset draft (parse_relative_duration draft.schedule_expr)

abbrev type_eq : ScheduleType → ScheduleType → Bool
type_eq interval interval = true
type_eq once once = true
type_eq cron cron = true
type_eq _ _ = false

abbrev pub option_eq : Option Text → Option Text → Bool
option_eq none none = true
option_eq (some a) (some b) = text_eq a b
option_eq _ _ = false

-- The test of `find_duplicate_job`; the window is two minutes
unfoldable is_duplicate : ℕ → Draft → ScheduledJob → Bool
unfolding text_eq
is_duplicate now draft job =
    job.enabled
    && (type_eq job.schedule_type draft.schedule_type
        && (text_eq job.schedule_expr draft.schedule_expr
            && (text_eq job.task_prompt draft.task_prompt
                && (option_eq job.channel_id draft.channel_id
                    && leb now (job.created_at + 120000)))))

-- `find_duplicate_job`; `order` is the order of the rows in `list_jobs_by_user`
unfoldable pub find_duplicate_job :
    (List ScheduledJob → List ScheduledJob) → ℕ → Draft → List ScheduledJob → Option ScheduledJob
unfolding find keep is_duplicate text_eq
find_duplicate_job order now draft jobs =
    find (is_duplicate now draft) (order (keep (λ job. text_eq job.user_id draft.user_id) jobs))
