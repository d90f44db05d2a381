-- ===== src/Scheduler/Executor.antt =====
-- src/scheduler/executor.rs: `JobExecutor::execute`, from the outcome of the run to the row that is
-- written back. The agent's run is a parameter, as its outcome; the clock's seconds and the cron
-- schedule are parameters. Counters are `u32`.
pub mod Booking
use picobot.Base.{
  Text, codes, ℕ, ◌+◌, ◌-◌, ◌^◌, min, Bool, true, false, List, [], ◌∷◌, ◌++◌, Option, none, some,
  map, length, take, leb, not, ◌&&◌, if◌then◌else◌, text_eq, byte_len,
}
use picobot.Scheduler.Job.{
  ScheduledJob, ScheduleType, interval, once, cron, JobExecution, ExecutionStatus, running,
  completed, failed, timeout, cancelled,
}
use picobot.Scheduler.Store.{insert_job, disable_job}

-- `ExecutionOutcome`
pub data ExecutionOutcome : Type 0 where
  completed_run : (response : Option Text) (agent_notified : Bool) → ExecutionOutcome
  failed_run : (error : Text) → ExecutionOutcome
  timed_out_run : ExecutionOutcome
  cancelled_run : ExecutionOutcome

-- `truncate`
unfoldable pub truncate : Text → ℕ → Text
unfolding byte_len
truncate value max_len =
    if leb (byte_len value) max_len then value else take max_len value ++ codes "..."

-- `u32::saturating_add`
unfoldable pub saturating_add : ℕ → ℕ → ℕ
saturating_add a b = min (a + b) (2 ^ 32 - 1)

-- `calculate_backoff_secs`
unfoldable pub calculate_backoff_secs : ℕ → ℕ → ℕ
calculate_backoff_secs failures max_backoff_secs =
    min (min (2 ^ min failures 10) (2 ^ 64 - 1)) max_backoff_secs

-- `should_disable`
unfoldable pub should_disable : ScheduledJob → Bool
should_disable job = elim job.max_executions [
  | none ↦ false
  | some max ↦ leb max job.execution_count
]

-- `parse::<u64>`, `DateTime + Duration::seconds(secs as i64)` and the cron library, with the longest
-- backoff of the configuration
pub record Clock : Type 0 where
  pub parse_u64 : Text → Option ℕ
  pub plus_seconds : ℕ → ℕ → ℕ
  pub next_cron_occurrence : Text → ℕ → Option ℕ
  pub max_backoff_secs : ℕ

-- `schedule_interval_seconds`
abbrev schedule_interval_seconds : Clock → ScheduledJob → ScheduleType → Option ℕ
schedule_interval_seconds clock job interval = clock.parse_u64 job.schedule_expr
schedule_interval_seconds clock job once = none
schedule_interval_seconds clock job cron = none

abbrev pub unwrap_or {ℓ} : {A : Type ℓ} → Option A → A → A
unwrap_or none d = d
unwrap_or (some a) d = a

-- The match of `apply_next_run` on the type of the schedule
unfoldable pub timed : Clock → ScheduleType → ScheduledJob → ℕ → ScheduledJob
timed clock interval job now =
    let secs = unwrap_or (schedule_interval_seconds clock job interval) 60 in
    record job { next_run_at = clock.plus_seconds now secs }
timed clock once job now = record job { enabled = false; next_run_at = now }
timed clock cron job now = record job {
  next_run_at =
      unwrap_or (clock.next_cron_occurrence job.schedule_expr now) (clock.plus_seconds now 60);
}

-- `apply_next_run`
unfoldable pub apply_next_run : Clock → ScheduledJob → ℕ → ScheduledJob
unfolding timed
apply_next_run clock job now = record (timed clock job.schedule_type job now) {
  backoff_until = none;
}

abbrev disabled_if : Bool → ScheduledJob → ScheduledJob
disabled_if b job = if b then record job { enabled = false } else job

-- The arms `Failed` and `Timeout` of the match on the outcome
unfoldable pub book_failure : Clock → Text → ℕ → ScheduledJob → ScheduledJob
unfolding saturating_add calculate_backoff_secs
book_failure clock error finished_at job =
    let failures = saturating_add job.consecutive_failures 1 in
    record job {
      consecutive_failures = failures;
      last_error = some error;
      backoff_until =
          some (
            clock.plus_seconds finished_at
              (calculate_backoff_secs failures clock.max_backoff_secs));
    }

-- The arm `Completed`
unfoldable pub book_success : Clock → ℕ → ScheduledJob → ScheduledJob
unfolding saturating_add apply_next_run should_disable
book_success clock finished_at job =
    let next =
      apply_next_run clock
        (record job {
          execution_count = saturating_add job.execution_count 1;
          last_run_at = some finished_at;
          consecutive_failures = 0;
          last_error = none;
          backoff_until = none;
        })
        finished_at in
    disabled_if (should_disable next) next

-- The job after the match on the outcome
unfoldable pub book_outcome : Clock → ExecutionOutcome → ℕ → ScheduledJob → ScheduledJob
unfolding book_failure book_success
book_outcome clock (completed_run response notified) finished_at job =
    book_success clock finished_at job
book_outcome clock (failed_run error) finished_at job = book_failure clock error finished_at job
book_outcome clock timed_out_run finished_at job =
    book_failure clock (codes "job timed out") finished_at job
book_outcome clock cancelled_run finished_at job = record job { enabled = false }

-- The job that `execute` writes back
unfoldable pub booked : Clock → ExecutionOutcome → ℕ → ScheduledJob → ScheduledJob
unfolding book_outcome
booked clock outcome finished_at job = record (book_outcome clock outcome finished_at job) {
  claimed_at = none;
  claim_id = none;
  claim_expires_at = none;
  updated_at = finished_at;
}

-- The end of `execute`: `update_job` on the store
unfoldable pub finish :
    Clock → ExecutionOutcome → ℕ → ScheduledJob → List ScheduledJob → List ScheduledJob
unfolding booked insert_job
finish clock outcome finished_at job jobs = insert_job (booked clock outcome finished_at job) jobs

-- The execution record at its start and at its end
unfoldable pub start_execution : Text → ScheduledJob → ℕ → JobExecution
start_execution id job started_at = record {
  id = id;
  job_id = job.id;
  started_at = started_at;
  completed_at = none;
  status = running;
  result_summary = none;
  error = none;
  execution_time_ms = none;
}

unfoldable pub end_execution : ExecutionOutcome → ℕ → ℕ → JobExecution → JobExecution
unfolding truncate
end_execution (completed_run response notified) finished_at ms execution = record execution {
  completed_at = some finished_at;
  execution_time_ms = some ms;
  status = completed;
  result_summary =
      if notified
      then some (codes "notification sent by notify tool")
      else elim response [ none ↦ none | some value ↦ some (truncate value 512) ];
}
end_execution (failed_run message) finished_at ms execution = record execution {
  completed_at = some finished_at;
  execution_time_ms = some ms;
  status = failed;
  error = some message;
}
end_execution timed_out_run finished_at ms execution = record execution {
  completed_at = some finished_at;
  execution_time_ms = some ms;
  status = timeout;
  error = some (codes "job timed out");
}
end_execution cancelled_run finished_at ms execution = record execution {
  completed_at = some finished_at;
  execution_time_ms = some ms;
  status = cancelled;
  error = some (codes "job cancelled");
}

-- The notification that `execute` enqueues: the channel and the text
unfoldable notification_of : ExecutionOutcome → ScheduledJob → Option (Text × Text)
notification_of (completed_run response false) job = elim job.channel_id [
  | none ↦ none
  | some channel ↦ some (channel, unwrap_or response (codes "Job completed"))
]
notification_of _ job = none
