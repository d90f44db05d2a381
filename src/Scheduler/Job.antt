-- ===== src/Scheduler/Job.antt =====
-- src/scheduler/job.rs. Instants are numbers of milliseconds; metadata is the text of its JSON.
use picobot.Base.{Text, ℕ, Bool, Option}
use picobot.Kernel.Capability.{CapabilitySet}

-- `ScheduleType`
pub data ScheduleType : Type 0 where
  interval once cron : ScheduleType

-- `PrincipalType`
pub data PrincipalType : Type 0 where
  user system admin : PrincipalType

-- `Principal`
pub record Principal : Type 0 where
  pub principal_type : PrincipalType
  pub id : Text

-- `ExecutionStatus`
pub data ExecutionStatus : Type 0 where
  running completed failed timeout cancelled : ExecutionStatus

-- `ScheduledJob`
pub record ScheduledJob : Type 0 where
  pub id : Text
  pub name : Text
  pub schedule_type : ScheduleType
  pub schedule_expr : Text
  pub task_prompt : Text
  pub session_id : Option Text
  pub user_id : Text
  pub channel_id : Option Text
  pub capabilities : CapabilitySet
  pub creator : Principal
  pub enabled : Bool
  pub max_executions : Option ℕ
  pub created_by_system : Bool
  pub execution_count : ℕ
  pub claimed_at : Option ℕ
  pub claim_id : Option Text
  pub claim_expires_at : Option ℕ
  pub last_run_at : Option ℕ
  pub next_run_at : ℕ
  pub created_at : ℕ
  pub updated_at : ℕ
  pub consecutive_failures : ℕ
  pub last_error : Option Text
  pub backoff_until : Option ℕ
  pub metadata : Option Text

-- `JobExecution`
pub record JobExecution : Type 0 where
  pub id : Text
  pub job_id : Text
  pub started_at : ℕ
  pub completed_at : Option ℕ
  pub status : ExecutionStatus
  pub result_summary : Option Text
  pub error : Option Text
  pub execution_time_ms : Option ℕ

-- `CreateJobRequest`
pub record CreateJobRequest : Type 0 where
  pub name : Text
  pub schedule_type : ScheduleType
  pub schedule_expr : Text
  pub task_prompt : Text
  pub session_id : Option Text
  pub user_id : Text
  pub channel_id : Option Text
  pub capabilities : CapabilitySet
  pub creator : Principal
  pub enabled : Bool
  pub max_executions : Option ℕ
  pub created_by_system : Bool
  pub metadata : Option Text
