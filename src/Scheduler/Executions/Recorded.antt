-- ===== src/Scheduler/Executions/Recorded.antt =====
-- The record of a run in the tables (src/scheduler/executor.rs), from its start to its end.
use picobot.Base.{
  keep-append, keep_swap, keep_none, Text, ℕ, Bool, true, false, List, [], ◌∷◌, map, not,
  text_eq_refl, any, keep, All, if◌then◌else◌, ◌≡◌, refl, sym, ap, ◌∙◌, Bool-cases, inl, inr, zero,
  suc, take, drop,
}
use picobot.Scheduler.Job.{ScheduledJob, JobExecution}
use picobot.Scheduler.Store.{has_id}
use picobot.Scheduler.Executor.{
  Clock, ExecutionOutcome, completed_run, failed_run, timed_out_run, cancelled_run, start_execution,
  end_execution,
}
use picobot.Scheduler.Executor.Booking.{booked-released}
use picobot.Scheduler.Executions.{
  ScheduleTables, is_execution, is_run_of, insert_execution, overwrite, update_rows,
  update_execution, update_job, list_executions_for_job, list_all_executions, start_run, end_run,
}
use picobot.Scheduler.Executions.Interleaved.{
  Write, IsOther, perform_all, Holds, perform_all-Holds, keep-update_rows,
}

start_run-Holds :
    (enforced : Bool) (id : Text) (job : ScheduledJob) (started_at : ℕ) (tables : ScheduleTables)
    → any (has_id job.id) tables.jobs ≡ true
    → Holds (start_execution id job started_at) (start_run enforced id job started_at tables)
unfolding start_run insert_execution start_execution keep
start_run-Holds enforced id job started_at tables h =
    let others = keep (λ r. not (is_execution id r)) tables.executions in
    let row = start_execution id job started_at in
    elim (Bool-cases enforced) [
      | inl e ↦
          rw (e, h)
            (
              h,
              keep-append (is_execution id) others (row ∷ [])
                  ∙ rw (keep_none (is_execution id) tables.executions, text_eq_refl id) refl,
            )
      | inr e ↦ rw (e) (
        h,
        keep-append (is_execution id) others (row ∷ [])
            ∙ rw (keep_none (is_execution id) tables.executions, text_eq_refl id) refl,
      )
    ]

overwrite-end_execution :
    (outcome : ExecutionOutcome) (finished_at ms : ℕ) (execution : JobExecution)
    → overwrite (end_execution outcome finished_at ms execution) execution
      ≡ end_execution outcome finished_at ms execution
unfolding end_execution
overwrite-end_execution (completed_run r n) finished_at ms execution = refl
overwrite-end_execution (failed_run m) finished_at ms execution = refl
overwrite-end_execution timed_out_run finished_at ms execution = refl
overwrite-end_execution cancelled_run finished_at ms execution = refl

end_execution-keys :
    (outcome : ExecutionOutcome) (finished_at ms : ℕ) (execution : JobExecution)
    → ((end_execution outcome finished_at ms execution).id ≡ execution.id)
      × ((end_execution outcome finished_at ms execution).job_id ≡ execution.job_id)
unfolding end_execution
end_execution-keys (completed_run r n) finished_at ms execution = (refl, refl)
end_execution-keys (failed_run m) finished_at ms execution = (refl, refl)
end_execution-keys timed_out_run finished_at ms execution = (refl, refl)
end_execution-keys cancelled_run finished_at ms execution = (refl, refl)

-- The update of an execution that is there once
updated :
    (outcome : ExecutionOutcome) (finished_at ms : ℕ) (row : JobExecution)
    (rows : List JobExecution)
    → keep (is_execution row.id) rows ≡ row ∷ []
    → keep (is_execution row.id) (update_rows (end_execution outcome finished_at ms row) rows)
      ≡ end_execution outcome finished_at ms row ∷ []
updated outcome finished_at ms row rows k =
    let done = end_execution outcome finished_at ms row in
    let same = (end_execution-keys outcome finished_at ms row).0 in
    ap (λ i. keep (is_execution i) (update_rows done rows)) (sym same)
    ∙ keep-update_rows done rows
    ∙ ap (λ i. map (overwrite done) (keep (is_execution i) rows)) same
    ∙ ap (map (overwrite done)) k
    ∙ ap (λ r. r ∷ []) (overwrite-end_execution outcome finished_at ms row)

-- The end of a run of a job, if its execution is there
ended :
    (enforced : Bool) (clock : Clock) (outcome : ExecutionOutcome) (finished_at ms : ℕ)
    (job : ScheduledJob) (row : JobExecution) (seen : ScheduleTables)
    → row.job_id ≡ job.id
    → Holds row seen
    → keep
        (is_execution row.id)
        (end_run enforced clock outcome finished_at ms job row seen).executions
      ≡ (if enforced then [] else end_execution outcome finished_at ms row ∷ [])
unfolding end_run update_execution update_job keep
ended true clock outcome finished_at ms job row seen own (j, k) =
    let done = end_execution outcome finished_at ms row in
    rw ((booked-released clock finished_at job outcome).3.0, sym own, j)
      (keep_swap (is_execution row.id) (λ r. not (is_run_of row.job_id r))
          (update_rows done seen.executions)
        ∙ ap (keep (λ r. not (is_run_of row.job_id r)))
            (updated outcome finished_at ms row seen.executions k)
        ∙ rw ((end_execution-keys outcome finished_at ms row).1, text_eq_refl row.job_id) refl)
ended false clock outcome finished_at ms job row seen own (j, k) =
    updated outcome finished_at ms row seen.executions k

-- Of a run of a job of the table, in which other runs write of other executions and other jobs, the
-- execution is left once, with the outcome, if foreign keys are not enforced; if they are, the
-- writing of the job at the end erases it.
pub run-recorded :
    (enforced : Bool) (clock : Clock) (outcome : ExecutionOutcome) (id : Text) (job : ScheduledJob)
    (started_at finished_at ms : ℕ) (ws : List Write) (tables : ScheduleTables)
    → any (has_id job.id) tables.jobs ≡ true
    → All (IsOther id job.id) ws
    → let row = start_execution id job started_at in
      keep
        (is_execution id)
        (end_run enforced clock outcome finished_at ms job row
          (perform_all enforced ws (start_run enforced id job started_at tables))).executions
      ≡ (if enforced then [] else end_execution outcome finished_at ms row ∷ [])
unfolding start_execution
run-recorded enforced clock outcome id job started_at finished_at ms ws tables h o =
    let row = start_execution id job started_at in
    ended enforced clock outcome finished_at ms job row
      (perform_all enforced ws (start_run enforced id job started_at tables)) refl
      (perform_all-Holds enforced row ws _ o (start_run-Holds enforced id job started_at tables h))

abbrev nothing : List JobExecution
nothing = []

none_listed : (limit offset : ℕ) → take limit (drop offset []) ≡ nothing
none_listed zero offset = refl
none_listed (suc limit) zero = refl
none_listed (suc limit) (suc offset) = refl

-- Where foreign keys are enforced, the end of a run of a job of the table leaves no execution of the
-- job, of this run or of any before.
end_run-erases :
    (clock : Clock) (outcome : ExecutionOutcome) (finished_at ms limit offset : ℕ)
    (job : ScheduledJob) (row : JobExecution) (tables : ScheduleTables)
    → any (has_id job.id) tables.jobs ≡ true
    → list_executions_for_job job.id limit offset
        (end_run true clock outcome finished_at ms job row tables)
      ≡ []
unfolding list_executions_for_job list_all_executions end_run update_execution update_job
end_run-erases clock outcome finished_at ms limit offset job row tables h =
    rw
      (
        (booked-released clock finished_at job outcome).3.0,
        h,
        keep_none (is_run_of job.id)
            (update_rows (end_execution outcome finished_at ms row) tables.executions),
      )
      (none_listed limit offset)
