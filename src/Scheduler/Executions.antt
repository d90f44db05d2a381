-- ===== src/Scheduler/Executions.antt =====
-- src/scheduler/store.rs and src/session/db.rs: the table `schedule_executions`, whose rows refer to
-- those of `schedules` and go with them, and what `JobExecutor::execute` writes to both. Whether the
-- connection enforces foreign keys is a parameter: the program asks for it only where it makes the
-- tables. Limits and offsets are below 2^63.
pub mod Interleaved
pub mod Recorded
use picobot.Base.{
  Text, ℕ, Bool, List, [], ◌∷◌, ◌++◌, not, ◌&&◌, ltb, text_eq, any, keep, take, drop, if◌then◌else◌,
}
use picobot.Scheduler.Job.{ScheduledJob, JobExecution}
use picobot.Scheduler.Store.{has_id, insert_job}
use picobot.Scheduler.Executor.{Clock, ExecutionOutcome, booked, start_execution, end_execution}

pub record ScheduleTables : Type 0 where
  pub jobs : List ScheduledJob
  pub executions : List JobExecution

abbrev pub is_execution : Text → JobExecution → Bool
is_execution id row = text_eq row.id id

abbrev pub is_run_of : Text → JobExecution → Bool
is_run_of job_id row = text_eq row.job_id job_id

-- `insert_execution`, which fails where keys are enforced and there is no such job
unfoldable pub insert_execution : Bool → JobExecution → ScheduleTables → ScheduleTables
unfolding any keep text_eq
insert_execution enforced execution tables =
    if enforced && not (any (has_id execution.job_id) tables.jobs) then tables else record tables {
      executions =
          keep (λ row. not (is_execution execution.id row)) tables.executions ++ execution ∷ [];
    }

-- `UPDATE schedule_executions SET .. WHERE id = ?6`
abbrev pub overwrite : JobExecution → JobExecution → JobExecution
overwrite execution row = record row {
  completed_at = execution.completed_at;
  status = execution.status;
  result_summary = execution.result_summary;
  error = execution.error;
  execution_time_ms = execution.execution_time_ms;
}

unfoldable pub update_rows : JobExecution → List JobExecution → List JobExecution
unfolding text_eq
update_rows execution [] = []
update_rows execution (row ∷ rows) =
    (if is_execution execution.id row then overwrite execution row else row)
    ∷ update_rows execution rows

-- `update_execution`
unfoldable pub update_execution : JobExecution → ScheduleTables → ScheduleTables
unfolding update_rows
update_execution execution tables = record tables {
  executions = update_rows execution tables.executions;
}

-- `update_job`, an INSERT OR REPLACE: the row that is replaced takes its executions with it
-- (ON DELETE CASCADE), where keys are enforced.
unfoldable pub update_job : Bool → ScheduledJob → ScheduleTables → ScheduleTables
unfolding any keep text_eq insert_job
update_job enforced job tables = record {
  jobs = insert_job job tables.jobs;
  executions =
      if enforced && any (has_id job.id) tables.jobs
      then keep (λ row. not (is_run_of job.id row)) tables.executions
      else tables.executions;
}

-- `ORDER BY started_at DESC`
unfoldable insert_by_start : JobExecution → List JobExecution → List JobExecution
insert_by_start execution [] = execution ∷ []
insert_by_start execution (row ∷ rows) =
    if ltb execution.started_at row.started_at
    then row ∷ insert_by_start execution rows
    else execution ∷ row ∷ rows

unfoldable pub list_all_executions : List JobExecution → List JobExecution
unfolding insert_by_start
list_all_executions [] = []
list_all_executions (row ∷ rows) = insert_by_start row (list_all_executions rows)

-- `list_executions_for_job`
unfoldable pub list_executions_for_job : Text → ℕ → ℕ → ScheduleTables → List JobExecution
unfolding keep list_all_executions
list_executions_for_job job_id limit offset tables =
    take limit (drop offset (list_all_executions (keep (is_run_of job_id) tables.executions)))

-- What `execute` writes before the run and after it
unfoldable pub start_run : Bool → Text → ScheduledJob → ℕ → ScheduleTables → ScheduleTables
unfolding insert_execution start_execution
start_run enforced id job started_at tables =
    insert_execution enforced (start_execution id job started_at) tables

unfoldable pub end_run :
    Bool
    → Clock
    → ExecutionOutcome
    → ℕ
    → ℕ
    → ScheduledJob
    → JobExecution
    → ScheduleTables
    → ScheduleTables
unfolding update_execution end_execution update_job booked
end_run enforced clock outcome finished_at ms job execution tables =
    update_job enforced (booked clock outcome finished_at job)
      (update_execution (end_execution outcome finished_at ms execution) tables)
