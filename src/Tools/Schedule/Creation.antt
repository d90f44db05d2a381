-- ===== src/Tools/Schedule/Creation.antt =====
-- What creating a job needs and what it leaves as it was.
use picobot.Base.{
  Text, codes, false, List, Option, none, some, ◌≡◌, refl, inl, inr, Bool-cases, subst,
}
use picobot.Kernel.Permission.{schedule}
use picobot.Kernel.Capability.{CapabilitySet, ToolContext, allows}
use picobot.Kernel.Tool.{Result, ok, err}
use picobot.Scheduler.Job.{ScheduledJob}
use picobot.Scheduler.Service.{create, ensure_schedule_permission}
use picobot.Tools.Input.{Input}
use picobot.Tools.Schedule.{
  Output, Surroundings, chosen_capabilities, submit, submit_requested, submit_unless, submit_timed,
  create_from, create_job,
}
use picobot.Tools.Schedule.Drafts.{Draft, read_draft, find_duplicate_job}
use picobot.Tools.Schedule.Owners.{chosen_capabilities-bounded}

module _ (env : Surroundings) (ctx : ToolContext)
    (refused : allows env.host ctx.capabilities (schedule (codes "create")) ≡ false) where
  not_chosen :
      (asked : Option CapabilitySet)
      → allows env.host
          (chosen_capabilities env.host ctx.capabilities asked)
          (schedule (codes "create"))
        ≡ false
  not_chosen asked =
      elim (Bool-cases (
        allows env.host (chosen_capabilities env.host ctx.capabilities asked)
          (schedule (codes "create")))) [
            | inr e ↦ e
            | inl e ↦
                (let own =
                    chosen_capabilities-bounded env.host ctx.capabilities asked
                      (schedule (codes "create")) tt e in
                  cc)
          ]

  -- The rows are the ones before.
  Unchanged : List ScheduledJob → Option (Result Output × List ScheduledJob) → Type 0
  Unchanged jobs none = Unit
  Unchanged jobs (some out) = out.1 ≡ jobs

  submit-unchanged :
      (draft : Draft) (metadata : Option Text) (asked : Option CapabilitySet)
      (jobs : List ScheduledJob)
      → (submit env ctx draft metadata (chosen_capabilities env.host ctx.capabilities asked) jobs).1
        ≡ jobs
  unfolding submit create ensure_schedule_permission
  submit-unchanged draft metadata asked jobs = elim (Bool-cases env.config.enabled) [
    | inl e ↦ rw (e, not_chosen asked) refl
    | inr e ↦ rw (e) refl
  ]

  submit_requested-unchanged :
      (input : Input) (draft : Draft) (jobs : List ScheduledJob) (r : Result (Option CapabilitySet))
      → (submit_requested env ctx input draft jobs r).1 ≡ jobs
  unfolding submit_requested
  submit_requested-unchanged input draft jobs (err e) = refl
  submit_requested-unchanged input draft jobs (ok asked) =
      submit-unchanged draft (input.json (codes "metadata")) asked jobs

  submit_unless-unchanged :
      (input : Input) (draft : Draft) (jobs : List ScheduledJob) (found : Option ScheduledJob)
      → (submit_unless env ctx input draft jobs found).1 ≡ jobs
  unfolding submit_unless
  submit_unless-unchanged input draft jobs (some job) = refl
  submit_unless-unchanged input draft jobs none = submit_requested-unchanged input draft jobs _

  submit_timed-Unchanged :
      (input : Input) (jobs : List ScheduledJob) (d : Option (Result Draft))
      → Unchanged jobs (submit_timed env ctx input jobs d)
  unfolding submit_timed Unchanged
  submit_timed-Unchanged input jobs none = tt
  submit_timed-Unchanged input jobs (some (err e)) = refl
  submit_timed-Unchanged input jobs (some (ok draft)) =
      submit_unless-unchanged input draft jobs (find_duplicate_job env.order env.now draft jobs)

  create_from-Unchanged :
      (input : Input) (jobs : List ScheduledJob) (r : Result Draft)
      → Unchanged jobs (create_from env ctx input jobs r)
  unfolding create_from Unchanged
  create_from-Unchanged input jobs (err e) = refl
  create_from-Unchanged input jobs (ok draft) = submit_timed-Unchanged input jobs _

  -- When a caller whose own capabilities lack the creation of schedules calls the tool's creation,
  -- whatever the input, the job table that comes out is the one that went in.
  pub create_job-unchanged :
      (input : Input) (jobs rows : List ScheduledJob) (r : Result Output)
      → create_job env ctx input jobs ≡ some (r, rows)
      → rows ≡ jobs
  unfolding create_job Unchanged
  create_job-unchanged input jobs rows r h =
      subst (Unchanged jobs) h (create_from-Unchanged input jobs (read_draft ctx input))
