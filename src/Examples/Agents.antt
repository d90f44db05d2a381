-- ===== src/Examples/Agents.antt =====
-- A user's memories, jobs and messages, with the theorems about the tools that keep them.
use picobot.Base.{
  Text, codes, ◌+◌, true, false, List, [], ◌∷◌, Option, none, some, ◌≡◌, refl, inr, text_eq,
  if◌then◌else◌, arith,
}
use picobot.Kernel.Permission.{Host, schedule, Permission}
use picobot.Kernel.Capability.{ToolContext, user_mode, allows, allows_identity_override}
use picobot.Scheduler.Job.{ScheduledJob, interval, PrincipalType}
use picobot.Scheduler.Service.{SchedulerConfig, done}
use picobot.Scheduler.Expression.{Calendar}
use picobot.Session.Memory.{StoredMessage, apply_within, system_message}
use picobot.Session.Memory.Budget.{IsCut, apply_within-IsCut}
use picobot.Session.Memories.Table.{Call, lookup, run, replay, run-replay}
use picobot.Tools.Input.{Input}
use picobot.Tools.Schedule.{Surroundings, create_job, cancel_job, chosen_capabilities}
use picobot.Tools.Schedule.Owners.{chosen_capabilities-bounded}
use picobot.Tools.Schedule.Callers.{create_job-owner, IsCancellation, cancel_job-owner}
use picobot.Tools.Notify
use picobot.Tools.Notify.Recipient.{IsSent, execute-IsSent}

abbrev context : List Permission → ToolContext
context capabilities = record {
  capabilities = capabilities;
  user_id = some (codes "me");
  session_id = some (codes "repl:1");
  channel_id = some (codes "repl");
  execution_mode = user_mode;
}

-- An object with text fields only.
abbrev field : List (Text × Text) → Text → Option Text
field [] name = none
field ((key, value) ∷ fields) name = if text_eq key name then some value else field fields name

abbrev object : List (Text × Text) → Input
object fields = record {
  str = field fields;
  array = λ name. none;
  flag = λ name. none;
  number = λ name. none;
  json = field fields;
}

abbrev saving : Input
saving = object (
    (codes "action", codes "save")
    ∷ (codes "key", codes "colour")
    ∷ (codes "content", codes "red")
    ∷ [])

abbrev call : Call
call = record { now = codes "now"; ctx = context []; input = saving }

run-replay_example :
    lookup (run (λ rows. rows) (call ∷ call ∷ []) []) (codes "me") (codes "colour")
    ≡ replay (call ∷ call ∷ []) (lookup []) (codes "me") (codes "colour")
run-replay_example = run-replay (λ rows. rows) (call ∷ call ∷ []) [] (codes "me") (codes "colour")

abbrev long : StoredMessage
long = system_message (codes "a message of some length")

abbrev short : StoredMessage
short = system_message (codes "short")

apply_within-IsCut_example :
    IsCut 9 short (long ∷ short ∷ []) (apply_within 9 (short ∷ long ∷ short ∷ []))
apply_within-IsCut_example = apply_within-IsCut 9 short (long ∷ short ∷ []) (λ h. omega arith)

abbrev pub host : Host
host = record { glob = λ pattern. some (text_eq pattern); home_dir = none }

chosen_capabilities-bounded_example :
    allows host (schedule (codes "*") ∷ []) (schedule (codes "create")) ≡ true
unfolding chosen_capabilities allows
chosen_capabilities-bounded_example =
    chosen_capabilities-bounded host (schedule (codes "*") ∷ [])
      (some (schedule (codes "create") ∷ [])) (schedule (codes "create")) tt refl

abbrev config : SchedulerConfig
config = record {
  enabled = true;
  tick_interval_secs = 1;
  max_concurrent_jobs = 2;
  max_concurrent_per_user = 1;
  max_jobs_per_user = 5;
  max_jobs_per_window = 5;
  window_duration_secs = 60;
  job_timeout_secs = 30;
}

abbrev pub env : Surroundings
env = record {
  host = host;
  config = config;
  show_u64 = λ n. codes "60";
  show_error = λ e. codes "error";
  today = codes "2026-01-01";
  tz_offset = codes "+00:00";
  order = λ rows. rows;
  now = 1000;
  window_start = 0;
  id = codes "job";
  initial_run = λ t expr. done 61000;
}

abbrev hourly : Input
hourly = object (
    (codes "schedule_type", codes "interval")
    ∷ (codes "schedule_expr", codes "60")
    ∷ (codes "task_prompt", codes "look")
    ∷ [])

abbrev pub new_job : ScheduledJob
new_job = record {
  id = codes "job";
  name = codes "look";
  schedule_type = interval;
  schedule_expr = codes "60";
  task_prompt = codes "look";
  session_id = some (codes "repl:1");
  user_id = codes "me";
  channel_id = some (codes "repl");
  capabilities = schedule (codes "create") ∷ [];
  creator = record { principal_type = PrincipalType.user; id = codes "me" };
  enabled = true;
  max_executions = none;
  created_by_system = false;
  execution_count = 0;
  claimed_at = none;
  claim_id = none;
  claim_expires_at = none;
  last_run_at = none;
  next_run_at = 61000;
  created_at = 1000;
  updated_at = 1000;
  consecutive_failures = 0;
  last_error = none;
  backoff_until = none;
  metadata = none;
}

abbrev no_jobs : List ScheduledJob
no_jobs = []

create_job-owner_example : some (codes "me") ≡ some (codes "me")
unfolding create_job
create_job-owner_example =
    create_job-owner env (context (schedule (codes "create") ∷ [])) refl hourly [] (new_job ∷ [])
      new_job refl

cancel_job-owner_example :
    IsCancellation env (context []) (codes "job") (new_job ∷ []) (
      cancel_job env
        (context [])
        false
        (object ((codes "job_id", codes "job") ∷ []))
        (new_job ∷ []))
unfolding text_eq
cancel_job-owner_example =
    cancel_job-owner env (context []) false (object ((codes "job_id", codes "job") ∷ []))
      (codes "job") (new_job ∷ []) refl

abbrev listening : Notify.State
listening = record {
  service = some (record {
    items = [];
    sleeping = [];
    records = [];
    config = record { max_attempts = 3; base_backoff = 200; max_backoff = 5000; max_records = 100 };
  });
  used = false;
}

user_mode_plain : allows_identity_override user_mode ≡ false
unfolding allows_identity_override
user_mode_plain = refl

execute-IsSent_example :
    IsSent
      (context [])
      (codes "me")
      (codes "repl")
      user_mode_plain
      refl
      refl
      (codes "id")
      5
      (object ((codes "message", codes "hello") ∷ []))
      listening
      (Notify.execute
        (codes "id")
        5
        (context [])
        (object ((codes "message", codes "hello") ∷ []))
        listening)
execute-IsSent_example =
    execute-IsSent (context []) (codes "me") (codes "repl") user_mode_plain refl refl (codes "id") 5
      (object ((codes "message", codes "hello") ∷ [])) listening

-- Every minute, in the only zone.
abbrev calendar : Calendar
calendar = record {
  Zone = Unit;
  utc = tt;
  parse_zone = λ text. none;
  parse_rfc3339 = λ text. none;
  plus_seconds = λ now secs. now + secs;
  parse_schedule = λ text. inr (λ zone after. some (after + 60000));
}
