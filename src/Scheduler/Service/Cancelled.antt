-- ===== src/Scheduler/Service/Cancelled.antt =====
-- What `cancel_job_and_disable` does to the table.
use picobot.Base.{
  Text, ℕ, Bool, true, false, List, [], ◌∷◌, some, ◌&&◌, map, find, text_eq, eq_of_text_eq,
  text_eq_left, if◌then◌else◌, ◌≡◌, refl, ap, arith, Bool-cases, inl, inr, subst, sym, ◌∙◌,
}
use picobot.Scheduler.Job.{ScheduledJob}
use picobot.Scheduler.Store.{has_id, update_where, get_job}
use picobot.Scheduler.Service.{cancel_job_and_disable}

-- A job that is switched off, at a time that is noted if it was on
abbrev pub switched_off : ℕ → ScheduledJob → ScheduledJob
switched_off now job = if job.enabled then record job { enabled = false; updated_at = now } else job

abbrev id_of : ScheduledJob → Text
id_of job = job.id

-- The table in which one job is switched off: it is found so, every other job is found as before,
-- and the rows have the same identifiers in the same order.
abbrev pub IsSwitchedOff : Text → ℕ → ScheduledJob → List ScheduledJob → List ScheduledJob → Type 0
IsSwitchedOff id now job jobs rows =
    ((other : Text)
      → get_job other rows
        ≡ (if text_eq other id then some (switched_off now job) else get_job other jobs))
    × (map id_of rows ≡ map id_of jobs)

abbrev hit : Text → ScheduledJob → Bool
hit id job = has_id id job && job.enabled

abbrev off : ℕ → ScheduledJob → ScheduledJob
off now job = record job { enabled = false; updated_at = now }

get_job-other :
    (id other : Text) (now : ℕ) (jobs : List ScheduledJob)
    → text_eq other id ≡ false
    → get_job other (update_where (hit id) (off now) jobs) ≡ get_job other jobs
unfolding get_job find update_where
get_job-other id other now [] d = refl
get_job-other id other now (row ∷ jobs) d = elim (Bool-cases (text_eq row.id other)) [
  | inl e ↦ ground (arith, text_eq_left row.id other id e, get_job-other id other now jobs)
  | inr e ↦ ground (arith, get_job-other id other now jobs)
]

get_job-head :
    (id : Text) (now : ℕ) (row : ScheduledJob) (jobs : List ScheduledJob)
    → text_eq row.id id ≡ true
    → get_job id (update_where (hit id) (off now) (row ∷ jobs)) ≡ some (switched_off now row)
unfolding get_job find update_where
get_job-head id now row jobs e = elim (Bool-cases row.enabled) [
  | inl f ↦ ground arith
  | inr f ↦ ground arith
]

get_job-same :
    (id : Text) (now : ℕ) (jobs : List ScheduledJob) (job : ScheduledJob)
    → get_job id jobs ≡ some job
    → get_job id (update_where (hit id) (off now) jobs) ≡ some (switched_off now job)
unfolding get_job find update_where
get_job-same id now [] job h = cc
get_job-same id now (row ∷ jobs) job h = elim (Bool-cases (text_eq row.id id)) [
  | inl e ↦
      let q : row ≡ job = ground arith in
      get_job-head id now row jobs e ∙ ap (λ j. some (switched_off now j)) q
  | inr e ↦ ground (arith, get_job-same id now jobs job)
]

ids-kept :
    (id : Text) (now : ℕ) (jobs : List ScheduledJob)
    → map id_of (update_where (hit id) (off now) jobs) ≡ map id_of jobs
unfolding update_where
ids-kept id now [] = refl
ids-kept id now (row ∷ jobs) = ground (arith, ids-kept id now jobs)

-- A job of the table that is cancelled is switched off, and it alone.
pub cancel_job_and_disable-IsSwitchedOff :
    (was_running : Bool) (id : Text) (now : ℕ) (jobs : List ScheduledJob) (job : ScheduledJob)
    → get_job id jobs ≡ some job
    → IsSwitchedOff id now job jobs (cancel_job_and_disable was_running id now jobs).1
unfolding cancel_job_and_disable
cancel_job_and_disable-IsSwitchedOff was_running id now jobs job h = (
  λ other. elim (Bool-cases (text_eq other id)) [
    | inl e ↦ rw e (
        subst (λ i. get_job i (update_where (hit id) (off now) jobs) ≡ some (switched_off now job))
          (sym (eq_of_text_eq other id e)) (get_job-same id now jobs job h))
    | inr e ↦ rw e (get_job-other id other now jobs e)
  ],
  ids-kept id now jobs,
)
