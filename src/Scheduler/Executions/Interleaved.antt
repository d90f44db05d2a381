-- ===== src/Scheduler/Executions/Interleaved.antt =====
-- The writes of other runs to the tables (src/scheduler/executor.rs) while a run goes on.
use picobot.Base.{
  keep-append, keep_swap, keep_within, any-keep, Text, Bool, true, false, List, [], ◌∷◌, ◌++◌, map,
  not, ◌&&◌, text_eq, eq_of_text_eq, text_eq_comm, any, any-append, keep, All, ◌≡◌, refl, ap, ◌∙◌,
  Bool-cases, inl, inr, arith,
}
use picobot.Scheduler.Job.{ScheduledJob, JobExecution}
use picobot.Scheduler.Store.{has_id, insert_job}
use picobot.Scheduler.Executions.{
  ScheduleTables, is_execution, is_run_of, insert_execution, overwrite, update_rows,
  update_execution, update_job,
}

-- A text that is one of two different texts is not the other.
other_text : (s t u : Text) → text_eq t u ≡ false → text_eq s u ≡ true → not (text_eq s t) ≡ true
other_text s t u e h =
    ap (λ v. not (text_eq v t)) (eq_of_text_eq s u h) ∙ ap not (text_eq_comm u t ∙ e)

pub keep-update_rows :
    (e : JobExecution) (rows : List JobExecution)
    → keep (is_execution e.id) (update_rows e rows)
      ≡ map (overwrite e) (keep (is_execution e.id) rows)
unfolding keep update_rows
keep-update_rows e [] = refl
keep-update_rows e (row ∷ rows) = ground (arith, keep-update_rows e rows)

keep-update_rows_other :
    (id : Text) (e : JobExecution) (rows : List JobExecution)
    → text_eq e.id id ≡ false
    → keep (is_execution id) (update_rows e rows) ≡ keep (is_execution id) rows
unfolding keep update_rows
keep-update_rows_other id e [] h = refl
keep-update_rows_other id e (row ∷ rows) h =
    ground (arith, other_text row.id e.id id h, keep-update_rows_other id e rows h)

-- What other runs write to the tables.
pub data Write : Type 0 where
  starts : (execution : JobExecution) → Write
  ends : (execution : JobExecution) → Write
  saves : (job : ScheduledJob) → Write

unfoldable pub perform_write : Bool → Write → ScheduleTables → ScheduleTables
unfolding insert_execution update_execution update_job
perform_write enforced (starts execution) tables = insert_execution enforced execution tables
perform_write enforced (ends execution) tables = update_execution execution tables
perform_write enforced (saves job) tables = update_job enforced job tables

unfoldable pub perform_all : Bool → List Write → ScheduleTables → ScheduleTables
unfolding perform_write
perform_all enforced [] tables = tables
perform_all enforced (w ∷ ws) tables = perform_all enforced ws (perform_write enforced w tables)

-- It is of another execution, and of another job.
abbrev pub IsOther : Text → Text → Write → Type 0
IsOther id job_id (starts execution) = text_eq execution.id id ≡ false
IsOther id job_id (ends execution) = text_eq execution.id id ≡ false
IsOther id job_id (saves job) = text_eq job.id job_id ≡ false

-- The job of an execution is there, and the execution once.
abbrev pub Holds : JobExecution → ScheduleTables → Type 0
Holds row tables =
    (any (has_id row.job_id) tables.jobs ≡ true)
    × (keep (is_execution row.id) tables.executions ≡ row ∷ [])

insert-Holds :
    (enforced : Bool) (row execution : JobExecution) (tables : ScheduleTables)
    → text_eq execution.id row.id ≡ false
    → Holds row tables
    → Holds row (insert_execution enforced execution tables)
unfolding insert_execution keep
insert-Holds enforced row execution tables h (j, k) =
    elim (Bool-cases (enforced && not (any (has_id execution.job_id) tables.jobs))) [
      | inl e ↦ rw (e) (j, k)
      | inr e ↦
          let others = keep (λ r. not (is_execution execution.id r)) tables.executions in
          rw (e) (
            j,
            keep-append (is_execution row.id) others (execution ∷ [])
                ∙ rw (h) (
                    ap (λ t. t ++ [])
                      (keep_within (is_execution row.id) (λ r. not (is_execution execution.id r))
                          (λ r. other_text r.id execution.id row.id h) tables.executions
                        ∙ k)),
          )
    ]

update-Holds :
    (row execution : JobExecution) (tables : ScheduleTables)
    → text_eq execution.id row.id ≡ false
    → Holds row tables
    → Holds row (update_execution execution tables)
unfolding update_execution
update-Holds row execution tables h (j, k) =
    (j, keep-update_rows_other row.id execution tables.executions h ∙ k)

save_jobs :
    (job_id : Text) (job : ScheduledJob) (jobs : List ScheduledJob)
    → text_eq job.id job_id ≡ false
    → any (has_id job_id) jobs ≡ true
    → any (has_id job_id) (insert_job job jobs) ≡ true
unfolding insert_job any
save_jobs job_id job jobs h k =
    any-append (has_id job_id) (keep (λ r. not (has_id job.id r)) jobs) (job ∷ [])
    ∙ rw
        (
          any-keep (has_id job_id) (λ r. not (has_id job.id r))
              (λ r. other_text r.id job.id job_id h) jobs,
          k,
        )
        refl

save-Holds :
    (enforced : Bool) (row : JobExecution) (job : ScheduledJob) (tables : ScheduleTables)
    → text_eq job.id row.job_id ≡ false
    → Holds row tables
    → Holds row (update_job enforced job tables)
unfolding update_job keep
save-Holds enforced row job tables h (j, k) =
    elim (Bool-cases (enforced && any (has_id job.id) tables.jobs)) [
      | inl e ↦ rw (e) (
        save_jobs row.job_id job tables.jobs h j,
        keep_swap (is_execution row.id) (λ r. not (is_run_of job.id r)) tables.executions
            ∙ ap (keep (λ r. not (is_run_of job.id r))) k
            ∙ rw (text_eq_comm row.job_id job.id, h) refl,
      )
      | inr e ↦ rw (e) (save_jobs row.job_id job tables.jobs h j, k)
    ]

pub perform_all-Holds :
    (enforced : Bool) (row : JobExecution) (ws : List Write) (tables : ScheduleTables)
    → All (IsOther row.id row.job_id) ws
    → Holds row tables
    → Holds row (perform_all enforced ws tables)
unfolding perform_all
perform_all-Holds enforced row [] tables h k = k
perform_all-Holds enforced row (starts execution ∷ ws) tables h k =
    perform_all-Holds enforced row ws _ h.1 (insert-Holds enforced row execution tables h.0 k)
perform_all-Holds enforced row (ends execution ∷ ws) tables h k =
    perform_all-Holds enforced row ws _ h.1 (update-Holds row execution tables h.0 k)
perform_all-Holds enforced row (saves job ∷ ws) tables h k =
    perform_all-Holds enforced row ws _ h.1 (save-Holds enforced row job tables h.0 k)
