-- ===== src/Scheduler/Store.antt =====
-- src/scheduler/store.rs: the table `schedules` as the list of its rows, in the order of insertion,
-- with one function for each SQL statement. The texts of instants compare as the instants do, so
-- instants are compared; rows of equal `next_run_at` keep the order of insertion. Failures of the
-- database are left out.
pub mod Claims
pub mod Exclusion
pub mod Leases
use picobot.Base.{
  Text, ℕ, ◌+◌, Bool, true, false, List, [], ◌∷◌, ◌++◌, Option, none, some, map, not, ◌&&◌, ltb,
  leb, ◌==◌, text_eq, length, take, keep, find, if◌then◌else◌,
}
use picobot.Scheduler.Job.{ScheduledJob, CreateJobRequest, PrincipalType, system}

-- `claim_expires_at IS NULL OR claim_expires_at <= ?`, and the like for `backoff_until`
abbrev null_or_past : Option ℕ → ℕ → Bool
null_or_past none now = true
null_or_past (some t) now = leb t now

-- `max_executions IS NULL OR execution_count < max_executions`
abbrev pub has_runs_left : ScheduledJob → Bool
has_runs_left job = elim job.max_executions [ none ↦ true | some max ↦ ltb job.execution_count max ]

-- The condition of the UPDATE in `claim_due_jobs`, besides the identifier
unfoldable pub is_claimable : ℕ → ScheduledJob → Bool
is_claimable now job =
    null_or_past job.claim_expires_at now
    && null_or_past job.backoff_until now
    && has_runs_left job
    && job.enabled

-- The condition of the SELECT in `claim_due_jobs`
unfoldable pub is_due : ℕ → ScheduledJob → Bool
is_due now job =
    job.enabled
    && leb job.next_run_at now
    && null_or_past job.backoff_until now
    && null_or_past job.claim_expires_at now
    && has_runs_left job

-- `UPDATE schedules SET .. WHERE ..`
unfoldable pub update_where :
    (ScheduledJob → Bool) → (ScheduledJob → ScheduledJob) → List ScheduledJob → List ScheduledJob
update_where p f [] = []
update_where p f (job ∷ jobs) = (if p job then f job else job) ∷ update_where p f jobs

unfoldable pub count_where : (ScheduledJob → Bool) → List ScheduledJob → ℕ
unfolding keep
count_where p jobs = length (keep p jobs)

abbrev pub has_id : Text → ScheduledJob → Bool
has_id id job = text_eq job.id id

-- `INSERT OR REPLACE` (`insert_job`, `update_job`)
unfoldable pub insert_job : ScheduledJob → List ScheduledJob → List ScheduledJob
unfolding keep text_eq
insert_job job jobs = keep (λ row. not (has_id job.id row)) jobs ++ job ∷ []

-- `load_job` and `get_job`
unfoldable pub get_job : Text → List ScheduledJob → Option ScheduledJob
unfolding find text_eq
get_job id jobs = find (has_id id) jobs

-- `create_job` of the store; the identifier and the time are those that it reads
unfoldable pub create_job :
    Text → ℕ → CreateJobRequest → ℕ → List ScheduledJob → ScheduledJob × List ScheduledJob
unfolding insert_job
create_job id now request next_run_at jobs =
    let job : ScheduledJob = record {
      id = id;
      name = request.name;
      schedule_type = request.schedule_type;
      schedule_expr = request.schedule_expr;
      task_prompt = request.task_prompt;
      session_id = request.session_id;
      user_id = request.user_id;
      channel_id = request.channel_id;
      capabilities = request.capabilities;
      creator = request.creator;
      enabled = request.enabled;
      max_executions = request.max_executions;
      created_by_system = elim request.creator.principal_type [ system ↦ true | _ ↦ false ];
      execution_count = 0;
      claimed_at = none;
      claim_id = none;
      claim_expires_at = none;
      last_run_at = none;
      next_run_at = next_run_at;
      created_at = now;
      updated_at = now;
      consecutive_failures = 0;
      last_error = none;
      backoff_until = none;
      metadata = request.metadata;
    } in
    (job, insert_job job jobs)

-- `disable_job`, with its result
unfoldable pub disable_job : Text → ℕ → List ScheduledJob → Bool × List ScheduledJob
unfolding update_where count_where
disable_job id now jobs =
    let hit = λ (job : ScheduledJob). has_id id job && job.enabled in
    (
      ltb 0 (count_where hit jobs),
      update_where hit (λ job. record job { enabled = false; updated_at = now }) jobs,
    )

-- `delete_job`
unfoldable delete_job : Text → List ScheduledJob → List ScheduledJob
unfolding keep text_eq
delete_job id jobs = keep (λ row. not (has_id id row)) jobs

-- `count_jobs_for_user` and `count_recent_jobs_for_user`
unfoldable pub count_jobs_for_user : Text → List ScheduledJob → ℕ
unfolding count_where text_eq
count_jobs_for_user user jobs = count_where (λ job. text_eq job.user_id user) jobs

unfoldable pub count_recent_jobs_for_user : Text → ℕ → List ScheduledJob → ℕ
unfolding count_where text_eq
count_recent_jobs_for_user user window_start jobs =
    count_where (λ job. text_eq job.user_id user && leb window_start job.created_at) jobs

-- `ORDER BY next_run_at ASC`
unfoldable insert_by_next_run : ScheduledJob → List ScheduledJob → List ScheduledJob
insert_by_next_run job [] = job ∷ []
insert_by_next_run job (row ∷ rows) =
    if ltb row.next_run_at job.next_run_at
    then row ∷ insert_by_next_run job rows
    else job ∷ row ∷ rows

unfoldable pub order_by_next_run : List ScheduledJob → List ScheduledJob
unfolding insert_by_next_run
order_by_next_run [] = []
order_by_next_run (job ∷ jobs) = insert_by_next_run job (order_by_next_run jobs)

-- The SELECT of `claim_due_jobs`
unfoldable pub due_ids : ℕ → ℕ → List ScheduledJob → List Text
unfolding is_due keep order_by_next_run
due_ids now limit jobs =
    map (λ job. job.id) (take limit (order_by_next_run (keep (is_due now) jobs)))

abbrev pub claimed : ℕ → Text → ℕ → ScheduledJob → ScheduledJob
claimed now claim_id expires_at job = record job {
  claimed_at = some now;
  claim_id = some claim_id;
  claim_expires_at = some expires_at;
  updated_at = now;
}

abbrev pub takes : ℕ → Text → ScheduledJob → Bool
takes now id job = has_id id job && is_claimable now job

-- The loop of `claim_due_jobs`: the rows after it, and the identifiers that it claimed
unfoldable pub claim_all :
    ℕ → Text → ℕ → List Text → List ScheduledJob → List Text × List ScheduledJob
unfolding is_claimable update_where count_where
claim_all now claim_id expires_at [] jobs = ([], jobs)
claim_all now claim_id expires_at (id ∷ ids) jobs =
    let (won, rows) =
      claim_all now claim_id expires_at ids
        (update_where (takes now id) (claimed now claim_id expires_at) jobs) in
    (if count_where (takes now id) jobs == 1 then id ∷ won else won, rows)

unfoldable pub load_jobs : List Text → List ScheduledJob → List ScheduledJob
unfolding get_job
load_jobs [] jobs = []
load_jobs (id ∷ ids) jobs =
    let rest = load_jobs ids jobs in elim (get_job id jobs) [ none ↦ rest | some job ↦ job ∷ rest ]

-- `claim_due_jobs`; `expires_at` is `now` with the lease added
unfoldable pub claim_due_jobs :
    ℕ → ℕ → Text → ℕ → List ScheduledJob → List ScheduledJob × List ScheduledJob
unfolding due_ids claim_all load_jobs
claim_due_jobs now limit claim_id expires_at jobs =
    let (won, rows) = claim_all now claim_id expires_at (due_ids now limit jobs) jobs in
    (load_jobs won rows, rows)

abbrev pub owned_by : Text → ScheduledJob → Bool
owned_by claim_id job = elim job.claim_id [ none ↦ false | some c ↦ text_eq c claim_id ]

-- `release_claim`
unfoldable pub release_claim : Text → Text → ℕ → List ScheduledJob → List ScheduledJob
unfolding update_where
release_claim id claim_id now jobs =
    update_where (λ job. has_id id job && owned_by claim_id job)
      (λ job. record job {
        claimed_at = none;
        claim_id = none;
        claim_expires_at = none;
        updated_at = now;
      })
      jobs
