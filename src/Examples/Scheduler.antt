-- ===== src/Examples/Scheduler.antt =====
-- A table of two jobs, of which one is due.
use picobot.Base.{
  Text, codes, any, ℕ, ◌+◌, ◌*◌, ◌≤◌, ◌&&◌, ltb, true, false, List, [], ◌∷◌, none, some, length,
  text_eq, keep, ◌≡◌, ◌⊎◌, refl, arith,
}
use picobot.Kernel.Permission.{Host, schedule}
use picobot.Kernel.Capability.{allows}
use picobot.Scheduler.Job.{ScheduledJob, CreateJobRequest, interval, user}
use picobot.Scheduler.Store.{
  claim_due_jobs, get_job, has_id, release_claim, disable_job, count_jobs_for_user,
  count_recent_jobs_for_user, count_where,
}
use picobot.Scheduler.Store.Claims.{Unique}
use picobot.Scheduler.Store.Leases.{untouched, claims, releases}
use picobot.Scheduler.Store.Exclusion.{claims_exclude}
use picobot.Scheduler.Executor.{
  Clock, completed_run, timed_out_run, failed_run, booked, finish, start_execution,
}
use picobot.Scheduler.Executions.{ScheduleTables, is_execution, start_run, end_run}
use picobot.Scheduler.Executions.Interleaved.{Write, starts, saves, perform_all}
use picobot.Scheduler.Executions.Recorded.{run-recorded}
use picobot.Scheduler.Executor.Booking.{goes_on, booked-enabled, finish-overwrites}
use picobot.Scheduler.Service.{SchedulerConfig, Service, done, new, tick, create}
use picobot.Scheduler.Service.Permits.{fresh, ticked, of_user, running-bounded}
use picobot.Scheduler.Service.Quotas.{is_done, table_after, create-accepts, create-quota}

abbrev exact : Host
exact = record { glob = λ pattern. some (text_eq pattern); home_dir = none }

abbrev milliseconds : Clock
milliseconds = record {
  parse_u64 = λ s. some 60;
  plus_seconds = λ t secs. t + secs * 1000;
  next_cron_occurrence = λ expr t. none;
  max_backoff_secs = 3600;
}

abbrev job_at : Text → ℕ → ScheduledJob
job_at id next_run_at = record {
  id = id;
  name = codes "report";
  schedule_type = interval;
  schedule_expr = codes "60";
  task_prompt = codes "write the report";
  session_id = none;
  user_id = codes "me";
  channel_id = none;
  capabilities = schedule (codes "create") ∷ [];
  creator = record { principal_type = user; id = codes "me" };
  enabled = true;
  max_executions = some 3;
  created_by_system = false;
  execution_count = 2;
  claimed_at = none;
  claim_id = none;
  claim_expires_at = none;
  last_run_at = none;
  next_run_at = next_run_at;
  created_at = 0;
  updated_at = 0;
  consecutive_failures = 0;
  last_error = none;
  backoff_until = none;
  metadata = none;
}

abbrev table : List ScheduledJob
table = job_at (codes "j1") 5 ∷ job_at (codes "j2") 50_000 ∷ []

table-Unique : Unique table
unfolding any text_eq
table-Unique = (refl, (refl, tt))

-- Another claim and its release, after the claim of the first job.
abbrev between : List ScheduledJob
between =
    release_claim (codes "j2") (codes "c3") 61_000
      (claim_due_jobs 60_000 4 (codes "c3") 450_000
        (claim_due_jobs 10 4 (codes "c1") 400_000 table).1).1

claims_exclude_example :
    any (has_id (codes "j1")) (claim_due_jobs 70_000 4 (codes "c2") 500_000 between).0 ≡ false
unfolding claim_due_jobs any text_eq
claims_exclude_example =
    claims_exclude 10 4 (codes "c1") 400_000 table (codes "j1") between 70_000 4 (codes "c2")
      500_000 table-Unique refl
      (releases (codes "j2") (codes "c3") 61_000 _ refl
        (claims 60_000 4 (codes "c3") 450_000 _ (omega arith) untouched))
      (omega arith)

abbrev first_job : ScheduledJob
first_job = job_at (codes "j1") 5

booked-enabled_example :
    (booked milliseconds (completed_run none false) 20 first_job).enabled
    ≡ (true && goes_on (completed_run none false) first_job)
booked-enabled_example = booked-enabled milliseconds 20 first_job (completed_run none false)

-- While the first job runs, an execution of the second starts and its row is written.
abbrev tables : ScheduleTables
tables = record { jobs = table; executions = [] }

abbrev meanwhile : List Write
meanwhile =
    starts (start_execution (codes "e2") (job_at (codes "j2") 6) 6)
    ∷ saves (job_at (codes "j2") 7)
    ∷ []

run-recorded_example :
    keep
      (is_execution (codes "e1"))
      (end_run true milliseconds
        (failed_run (codes "no"))
        9
        4
        first_job
        (start_execution (codes "e1") first_job 5)
        (perform_all true meanwhile (start_run true (codes "e1") first_job 5 tables))).executions
    ≡ []
unfolding any text_eq start_execution
run-recorded_example =
    run-recorded true milliseconds (failed_run (codes "no")) (codes "e1") first_job 5 9 4 meanwhile
      tables refl (refl, (refl, tt))

-- The job was disabled while it ran, and is enabled again.
finish-overwrites_example :
    (get_job
        (codes "j1")
        (finish milliseconds timed_out_run 20 first_job (disable_job (codes "j1") 15 table).1)
      ≡ some (booked milliseconds timed_out_run 20 first_job))
    × ((id : Text)
        → (text_eq (codes "j1") id ≡ true)
          ⊎ (get_job id (
                finish milliseconds timed_out_run 20 first_job
                  (disable_job (codes "j1") 15 table).1)
              ≡ get_job id (disable_job (codes "j1") 15 table).1))
finish-overwrites_example =
    finish-overwrites milliseconds 20 first_job timed_out_run (disable_job (codes "j1") 15 table).1

abbrev defaults : SchedulerConfig
defaults = record {
  enabled = true;
  tick_interval_secs = 1;
  max_concurrent_jobs = 4;
  max_concurrent_per_user = 2;
  max_jobs_per_user = 50;
  max_jobs_per_window = 100;
  window_duration_secs = 3600;
  job_timeout_secs = 300;
}

abbrev ticked_once : Service
ticked_once = tick defaults milliseconds 10 (codes "c1") (new defaults table)

running-bounded_example :
    (ticked_once.global_permits + length ticked_once.running ≡ 4)
    × (length ticked_once.running ≤ 4)
    × (ticked_once.user_permits (codes "me")
          + count_where (of_user (codes "me")) ticked_once.running
        ≡ 2)
    × (count_where (of_user (codes "me")) ticked_once.running ≤ 2)
running-bounded_example =
    running-bounded defaults milliseconds ticked_once (codes "me")
      (ticked 10 (codes "c1") (new defaults table) (fresh table))

abbrev request : CreateJobRequest
request = record {
  name = codes "report";
  schedule_type = interval;
  schedule_expr = codes "60";
  task_prompt = codes "write the report";
  session_id = none;
  user_id = codes "me";
  channel_id = none;
  capabilities = schedule (codes "create") ∷ [];
  creator = record { principal_type = user; id = codes "me" };
  enabled = true;
  max_executions = none;
  created_by_system = false;
  metadata = none;
}

create-accepts_example :
    is_done (create exact defaults (done 60) (codes "j3") 0 0 request table) ≡ (
      true
      && allows exact request.capabilities (schedule (codes "create"))
      && ltb (count_jobs_for_user (codes "me") table) 50
      && ltb (count_recent_jobs_for_user (codes "me") 0 table) 100
      && is_done {A = ℕ} (done 60))
create-accepts_example = create-accepts exact defaults (done 60) (codes "j3") 0 0 request table

create-quota_example :
    count_jobs_for_user
      (codes "me")
      (table_after table (create exact defaults (done 60) (codes "j3") 0 0 request table))
    ≤ 50
unfolding count_jobs_for_user
create-quota_example =
    create-quota exact defaults (done 60) (codes "j3") 0 0 request table (codes "me") (omega arith)
