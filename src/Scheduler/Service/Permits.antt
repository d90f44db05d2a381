-- ===== src/Scheduler/Service/Permits.antt =====
-- The permits of `SchedulerService` (src/scheduler/service.rs) and the jobs that run.
use picobot.Base.{
  Text, ℕ, ◌+◌, ◌-◌, ◌≤◌, Bool, true, false, List, [], ◌∷◌, ◌++◌, any, ◌==◌, ◌≡◌, refl, sym, subst,
  ◌⊎◌, ◌∙◌, ap, eq_of_text_eq, arith, length, keep, text_eq, Bool-cases, inl, inr, length-append,
  max,
}
use picobot.Scheduler.Job.{ScheduledJob}
use picobot.Scheduler.Store.{claim_due_jobs, count_where}
use picobot.Scheduler.Executor.{Clock, ExecutionOutcome}
use picobot.Scheduler.Service.{
  SchedulerConfig, Service, new, start_or_release, start_all, tick, set_permits, try_acquire,
  release, start, complete, lease_secs,
}

abbrev pub of_user : Text → ScheduledJob → Bool
of_user user job = text_eq job.user_id user

-- Every permit is free or held by a running job.
abbrev IsBalanced : SchedulerConfig → Service → Type 0
IsBalanced config service =
    (service.global_permits + length service.running ≡ config.max_concurrent_jobs)
    × ((user : Text)
        → service.user_permits user + count_where (of_user user) service.running
          ≡ config.max_concurrent_per_user)

count_where-cons :
    (p : ScheduledJob → Bool) (job : ScheduledJob) (jobs : List ScheduledJob)
    → count_where p (job ∷ jobs) ≡ elim (p job) [ true ↦ 1 | false ↦ 0 ] + count_where p jobs
unfolding count_where keep
count_where-cons p job jobs = ground arith

count_where-append :
    (p : ScheduledJob → Bool) (xs ys : List ScheduledJob)
    → count_where p (xs ++ ys) ≡ count_where p xs + count_where p ys
unfolding count_where keep
count_where-append p [] ys = omega arith
count_where-append p (x ∷ xs) ys = ground (arith, count_where-append p xs ys)

-- The free permits and the running jobs, counted together
abbrev global_total : Service → ℕ
global_total service = service.global_permits + length service.running

abbrev user_total : Text → Service → ℕ
user_total user service = service.user_permits user + count_where (of_user user) service.running

-- A claimed job is released, or started while permits of both kinds are free.
start_or_release-cases :
    (claim_id : Text) (now : ℕ) (seen : List Text) (job : ScheduledJob) (service : Service)
    → (start_or_release claim_id now seen job service ≡ release claim_id now job service)
      ⊎ ((1 ≤ service.global_permits)
          × (1 ≤ service.user_permits job.user_id)
          × (start_or_release claim_id now seen job service
              ≡ start
                  (service.global_permits - 1)
                  (service.user_permits job.user_id - 1)
                  job
                  service))
unfolding start_or_release
start_or_release-cases claim_id now seen job service =
    elim (Bool-cases (any (text_eq job.id) seen)) [
      | inl e ↦ inl (rw e refl)
      | inr e ↦ elim (Bool-cases (service.global_permits == 0)) [
        | inl f ↦ inl (rw (e, f) refl)
        | inr f ↦ elim (Bool-cases (service.user_permits job.user_id == 0)) [
          | inl g ↦ inl (rw (e, f, g) refl)
          | inr g ↦ inr (ground arith, ground arith, rw (e, f, g, try_acquire) refl)
        ]
      ]
    ]

user_total-start :
    (job : ScheduledJob) (service : Service) (user : Text)
    → 1 ≤ service.user_permits job.user_id
    → user_total user
        (start (service.global_permits - 1) (service.user_permits job.user_id - 1) job service)
      ≡ user_total user service
unfolding count_where keep
user_total-start job service user h = elim (Bool-cases (text_eq job.user_id user)) [
  | inl e ↦ ground (arith, ap service.user_permits (eq_of_text_eq job.user_id user e))
  | inr e ↦ ground arith
]

complete-global :
    (before : List ScheduledJob) (job : ScheduledJob) (after : List ScheduledJob)
    (service : Service)
    → service.running ≡ before ++ job ∷ after
    → service.global_permits + 1 + length (before ++ after) ≡ global_total service
complete-global before job after service e =
    omega (arith, ap length e, length-append before (job ∷ after), length-append before after)

complete-user :
    (before : List ScheduledJob) (job : ScheduledJob) (after : List ScheduledJob)
    (service : Service) (user : Text)
    → service.running ≡ before ++ job ∷ after
    → set_permits job.user_id (service.user_permits job.user_id + 1) service.user_permits user
        + count_where (of_user user) (before ++ after)
      ≡ user_total user service
unfolding count_where
complete-user before job after service user e =
    let p = of_user user in
    let total : count_where p service.running ≡ count_where p (before ++ job ∷ after) =
      ap (count_where p) e in
    let split_total = count_where-append p before (job ∷ after) in
    let split_rest = count_where-append p before after in
    let head = count_where-cons p job after in
    elim (Bool-cases (text_eq job.user_id user)) [
      | inl f ↦ ground (
        arith,
        total,
        split_total,
        split_rest,
        head,
        ap service.user_permits (eq_of_text_eq job.user_id user f),
      )
      | inr f ↦ ground (arith, total, split_total, split_rest, head)
    ]

module _ (config : SchedulerConfig) where
  IsBalanced-start_or_release :
      (claim_id : Text) (now : ℕ) (seen : List Text) (job : ScheduledJob) (service : Service)
      → IsBalanced config service
      → IsBalanced config (start_or_release claim_id now seen job service)
  unfolding start_or_release release
  IsBalanced-start_or_release claim_id now seen job service (g, u) =
      elim (start_or_release-cases claim_id now seen job service) [
        | inl e ↦ subst (IsBalanced config) (sym e) (g, u)
        | inr (p, q, e) ↦
            subst (IsBalanced config) (sym e)
              (omega (arith, g), λ user. user_total-start job service user q ∙ u user)
      ]

  IsBalanced-start_all :
      (claim_id : Text) (now : ℕ) (seen : List Text) (jobs : List ScheduledJob) (service : Service)
      → IsBalanced config service
      → IsBalanced config (start_all claim_id now seen jobs service)
  unfolding start_all
  IsBalanced-start_all claim_id now seen [] service b = b
  IsBalanced-start_all claim_id now seen (job ∷ jobs) service b =
      IsBalanced-start_all claim_id now (job.id ∷ seen) jobs _
        (IsBalanced-start_or_release claim_id now seen job service b)

  tick-IsBalanced :
      (clock : Clock) (now : ℕ) (claim_id : Text) (service : Service)
      → IsBalanced config service
      → IsBalanced config (tick config clock now claim_id service)
  unfolding tick
  tick-IsBalanced clock now claim_id service b =
      let expires_at = clock.plus_seconds now (lease_secs config) in
      let (claimed, rows) =
        claim_due_jobs now (max config.max_concurrent_jobs 1) claim_id expires_at service.jobs in
      IsBalanced-start_all claim_id now [] claimed (record service { jobs = rows }) b

  complete-IsBalanced :
      (clock : Clock) (outcome : ExecutionOutcome) (now : ℕ) (before : List ScheduledJob)
      (job : ScheduledJob) (after : List ScheduledJob) (service : Service)
      → service.running ≡ before ++ job ∷ after
      → IsBalanced config service
      → IsBalanced config (complete clock outcome now before job after service)
  unfolding complete
  complete-IsBalanced clock outcome now before job after service e (g, u) = (
    complete-global before job after service e ∙ g,
    λ user. complete-user before job after service user e ∙ u user,
  )

-- What can happen to a service: a tick, the end of a running job's task, and writes to the table by
-- anyone else.
pub data Reachable (config : SchedulerConfig) (clock : Clock) : Service → Type 0 where
  fresh : (jobs : List ScheduledJob) → Reachable config clock (new config jobs)
  ticked :
      (now : ℕ) (claim_id : Text) (service : Service)
      → Reachable config clock service
      → Reachable config clock (tick config clock now claim_id service)
  completed :
      (outcome : ExecutionOutcome) (now : ℕ) (before : List ScheduledJob) (job : ScheduledJob)
      (after : List ScheduledJob) (service : Service)
      → service.running ≡ before ++ job ∷ after
      → Reachable config clock service
      → Reachable config clock (complete clock outcome now before job after service)
  written :
      (jobs : List ScheduledJob) (service : Service)
      → Reachable config clock service
      → Reachable config clock (record service { jobs = jobs })

Reachable-IsBalanced :
    (config : SchedulerConfig) (clock : Clock) (service : Service)
    → Reachable config clock service
    → IsBalanced config service
unfolding new count_where keep
Reachable-IsBalanced config clock _ (fresh jobs) = (omega arith, λ user. omega arith)
Reachable-IsBalanced config clock _ (ticked now claim_id service r) =
    tick-IsBalanced config clock now claim_id service (Reachable-IsBalanced config clock service r)
Reachable-IsBalanced config clock _ (completed outcome now before job after service e r) =
    complete-IsBalanced config clock outcome now before job after service e
      (Reachable-IsBalanced config clock service r)
Reachable-IsBalanced config clock _ (written jobs service r) =
    Reachable-IsBalanced config clock service r

-- However ticks, ends of tasks and other writes to the table follow each other, no more jobs run at
-- once than the configuration allows, neither in all nor of one user; and of both kinds of permits
-- those that no running job holds are free.
pub running-bounded :
    (config : SchedulerConfig) (clock : Clock) (service : Service) (user : Text)
    → Reachable config clock service
    → (service.global_permits + length service.running ≡ config.max_concurrent_jobs)
      × (length service.running ≤ config.max_concurrent_jobs)
      × (service.user_permits user + count_where (of_user user) service.running
          ≡ config.max_concurrent_per_user)
      × (count_where (of_user user) service.running ≤ config.max_concurrent_per_user)
running-bounded config clock service user r =
    let (g, u) = Reachable-IsBalanced config clock service r in
    (g, omega (arith, g), u user, omega (arith, u user))
