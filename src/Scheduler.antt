-- ===== src/Scheduler.antt =====
-- Scheduled jobs (src/scheduler): the table of jobs, the service that claims and creates them, and
-- the executor that books their outcome.
pub mod Job
pub mod Store
pub mod Executor
pub mod Executions
pub mod Expression
pub mod Service
