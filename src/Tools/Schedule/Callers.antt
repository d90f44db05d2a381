-- ===== src/Tools/Schedule/Callers.antt =====
-- Whose job is created, and whose is cancelled.
use mathlib.Core.Option.{some-injective}
use picobot.Base.{
  true, ap, ◌∙◌, text_eq_refl, Text, ℕ, codes, Bool, false, List, Option, none, some, text_eq,
  eq_of_text_eq, ◌≡◌, refl, ◌⊎◌, inl, inr, Bool-cases, Option-cases, sym, subst,
}
use picobot.Kernel.Capability.{CapabilitySet, ToolContext, allows_identity_override}
use picobot.Kernel.Tool.{ToolError, Result, ok, err, ◌>>=◌}
use picobot.Scheduler.Job.{ScheduledJob, CreateJobRequest, ScheduleType, interval, once, cron}
use picobot.Scheduler.Store.{get_job}
use picobot.Scheduler.Expression.{parse_relative_duration}
use picobot.Scheduler.Service.Requested.{IsRequested, create-IsRequested}
use picobot.Scheduler.Service.Cancelled.{IsSwitchedOff, cancel_job_and_disable-IsSwitchedOff}
use picobot.Scheduler.Service.{SchedulerResult, done, failed, cancel_job_and_disable}
use picobot.Tools.Input.{Input, ok_or}
use picobot.Tools.Identity.{chosen_user, user_of}
use picobot.Tools.Promises.{Holds, Holds-bind, trivial}
use picobot.Tools.Schedule.{
  Output, created, cancelled, Surroundings, chosen_capabilities, submit, submit_requested,
  submit_unless, submit_timed, create_from, create_job, created_or_error, request_of, cancel_owned,
  cancel_read, cancel_job,
}
use picobot.Tools.Schedule.Drafts.{
  check_session, check_channel, read_user, read_what, draft_of, Draft, read_draft,
  find_duplicate_job, timed, timed_by, relative, absolute, with_expr,
}

-- The user of a new job, where the context may not act for others.
module _ (env : Surroundings) (ctx : ToolContext)
    (plain : allows_identity_override ctx.execution_mode ≡ false) where
  IsOwn : Text → Type 0
  IsOwn user_id = ctx.user_id ≡ some user_id

  chosen_user-IsOwn :
      (own : Text) (given : Option Text)
      → ctx.user_id ≡ some own
      → Holds IsOwn (chosen_user false own given)
  unfolding chosen_user IsOwn
  chosen_user-IsOwn own none h = h
  chosen_user-IsOwn own (some given) h = elim (Bool-cases (text_eq given own)) [
    | inl e ↦ rw (e) (subst (λ u. ctx.user_id ≡ some u) (sym (eq_of_text_eq given own e)) h)
    | inr e ↦ rw (e) tt
  ]

  user_of-IsOwn : (given : Option Text) → Holds IsOwn (user_of ctx given)
  unfolding user_of
  user_of-IsOwn given = elim (Option-cases ctx.user_id) [
    | inl e ↦ rw (e) tt
    | inr (own, e) ↦ rw (plain) (
        subst
          (λ u. Holds IsOwn (ok_or (codes "missing user_id") u >>= λ c. chosen_user false c given))
          (sym e) (chosen_user-IsOwn own given e))
  ]

  read_user-IsOwn : (input : Input) → Holds IsOwn (read_user ctx input)
  unfolding read_user
  read_user-IsOwn input =
      Holds-bind (λ u. Unit) IsOwn (check_session ctx input)
        (λ _. user_of ctx (input.str (codes "user_id")) >>= λ user_id.
          check_channel ctx input >>= λ _. ok user_id)
        (trivial (check_session ctx input))
        (λ _ _.
          Holds-bind IsOwn IsOwn (user_of ctx (input.str (codes "user_id")))
            (λ user_id. check_channel ctx input >>= λ _. ok user_id)
            (user_of-IsOwn (input.str (codes "user_id")))
            (λ user_id h.
              Holds-bind (λ u. Unit) IsOwn (check_channel ctx input) (λ _. ok user_id)
                (trivial (check_channel ctx input)) (λ _ _. h)))

  OwnDraft : Draft → Type 0
  OwnDraft draft = IsOwn draft.user_id

  read_draft-IsOwn : (input : Input) → Holds OwnDraft (read_draft ctx input)
  unfolding read_draft draft_of OwnDraft
  read_draft-IsOwn input =
      Holds-bind (λ what. Unit) OwnDraft (read_what input)
        (λ what. read_user ctx input >>= λ user_id. ok (draft_of ctx input user_id what))
        (trivial (read_what input))
        (λ what _.
          Holds-bind IsOwn OwnDraft (read_user ctx input)
            (λ user_id. ok (draft_of ctx input user_id what)) (read_user-IsOwn input)
            (λ user_id h. h))

  OwnTimed : Option (Result Draft) → Type 0
  OwnTimed none = Unit
  OwnTimed (some r) = Holds OwnDraft r

  relative-IsOwn :
      (t : ScheduleType) (secs : Text) (draft : Draft)
      → OwnDraft draft
      → OwnDraft (relative t secs draft)
  unfolding OwnDraft relative
  relative-IsOwn once secs draft h = h
  relative-IsOwn interval secs draft h = h
  relative-IsOwn cron secs draft h = h

  with_expr-IsOwn :
      (draft : Draft) (expr : Option (Result Text))
      → OwnDraft draft
      → OwnTimed (with_expr draft expr)
  unfolding OwnTimed OwnDraft
  with_expr-IsOwn draft none h = tt
  with_expr-IsOwn draft (some (err e)) h = tt
  with_expr-IsOwn draft (some (ok expr)) h = h

  absolute-IsOwn :
      (t : ScheduleType) (draft : Draft)
      → OwnDraft draft
      → OwnTimed (absolute t env.today env.tz_offset draft)
  unfolding OwnTimed absolute
  absolute-IsOwn once draft h = with_expr-IsOwn draft _ h
  absolute-IsOwn interval draft h = h
  absolute-IsOwn cron draft h = h

  timed_by-IsOwn :
      (draft : Draft) (secs : Option ℕ)
      → OwnDraft draft
      → OwnTimed (timed_by env.show_u64 env.today env.tz_offset draft secs)
  unfolding OwnTimed
  timed_by-IsOwn draft (some secs) h =
      relative-IsOwn draft.schedule_type (env.show_u64 secs) draft h
  timed_by-IsOwn draft none h = absolute-IsOwn draft.schedule_type draft h

  OwnOutput : Result Output × List ScheduledJob → Type 0
  OwnOutput (ok (created job), rows) = IsOwn job.user_id
  OwnOutput (_, rows) = Unit

  created_or_error-IsOwn :
      (request : CreateJobRequest) (jobs : List ScheduledJob)
      (r : SchedulerResult (ScheduledJob × List ScheduledJob))
      → IsOwn request.user_id
      → IsRequested jobs request r
      → OwnOutput (created_or_error env ctx jobs r)
  unfolding OwnOutput IsOwn
  created_or_error-IsOwn request jobs (failed e) h q = tt
  created_or_error-IsOwn request jobs (done (job, rows)) h q =
      subst (λ u. ctx.user_id ≡ some u) (sym q.0) h

  submit-IsOwn :
      (draft : Draft) (metadata : Option Text) (set : CapabilitySet) (jobs : List ScheduledJob)
      → OwnDraft draft
      → OwnOutput (submit env ctx draft metadata set jobs)
  unfolding submit OwnDraft
  submit-IsOwn draft metadata set jobs h =
      let request = request_of env ctx draft set metadata in
      created_or_error-IsOwn request jobs _ h (
        create-IsRequested env.host env.config
          (env.initial_run draft.schedule_type draft.schedule_expr) env.id env.now env.window_start
          request jobs)

  submit_requested-IsOwn :
      (input : Input) (draft : Draft) (jobs : List ScheduledJob) (r : Result (Option CapabilitySet))
      → OwnDraft draft
      → OwnOutput (submit_requested env ctx input draft jobs r)
  unfolding submit_requested OwnOutput
  submit_requested-IsOwn input draft jobs (err e) h = tt
  submit_requested-IsOwn input draft jobs (ok asked) h =
      submit-IsOwn draft (input.json (codes "metadata"))
        (chosen_capabilities env.host ctx.capabilities asked) jobs h

  submit_unless-IsOwn :
      (input : Input) (draft : Draft) (jobs : List ScheduledJob) (found : Option ScheduledJob)
      → OwnDraft draft
      → OwnOutput (submit_unless env ctx input draft jobs found)
  unfolding submit_unless OwnOutput
  submit_unless-IsOwn input draft jobs (some job) h = tt
  submit_unless-IsOwn input draft jobs none h = submit_requested-IsOwn input draft jobs _ h

  OwnResult : Option (Result Output × List ScheduledJob) → Type 0
  OwnResult none = Unit
  OwnResult (some out) = OwnOutput out

  submit_timed-IsOwn :
      (input : Input) (jobs : List ScheduledJob) (d : Option (Result Draft))
      → OwnTimed d
      → OwnResult (submit_timed env ctx input jobs d)
  unfolding submit_timed OwnResult OwnTimed OwnOutput
  submit_timed-IsOwn input jobs none h = tt
  submit_timed-IsOwn input jobs (some (err e)) h = tt
  submit_timed-IsOwn input jobs (some (ok draft)) h =
      submit_unless-IsOwn input draft jobs (find_duplicate_job env.order env.now draft jobs) h

  create_from-IsOwn :
      (input : Input) (jobs : List ScheduledJob) (r : Result Draft)
      → Holds OwnDraft r
      → OwnResult (create_from env ctx input jobs r)
  unfolding create_from OwnResult OwnOutput timed
  create_from-IsOwn input jobs (err e) h = tt
  create_from-IsOwn input jobs (ok draft) h =
      submit_timed-IsOwn input jobs _
        (timed_by-IsOwn draft (parse_relative_duration draft.schedule_expr) h)

  -- A job that is created belongs to the user of the context, whatever user, session and channel the
  -- input names, where the context may not act for others.
  pub create_job-owner :
      (input : Input) (jobs rows : List ScheduledJob) (job : ScheduledJob)
      → create_job env ctx input jobs ≡ some (ok (created job), rows)
      → ctx.user_id ≡ some job.user_id
  unfolding create_job OwnResult OwnOutput IsOwn
  create_job-owner input jobs rows job h =
      subst OwnResult h
        (create_from-IsOwn input jobs (read_draft ctx input) (read_draft-IsOwn input))

-- The owner of a cancelled job.
module _ (env : Surroundings) (ctx : ToolContext) where
  -- The job of that identifier, which is the caller's own
  abbrev IsOwnJob : Text → List ScheduledJob → ScheduledJob → Type 0
  IsOwnJob job_id jobs job = (get_job job_id jobs ≡ some job) × (ctx.user_id ≡ some job.user_id)

  -- What a cancellation comes to: an error and the table as it was, where there is no such job of the
  -- caller, or the job switched off.
  abbrev pub IsCancellation : Text → List ScheduledJob → Result Output × List ScheduledJob → Type 0
  IsCancellation job_id jobs out =
      ((e : ToolError) × (out.0 ≡ err e)
        × (out.1 ≡ jobs)
        × (¬ ((job : ScheduledJob) × IsOwnJob job_id jobs job)))
      ⊎ ((job : ScheduledJob) × (answer : Bool) × IsOwnJob job_id jobs job
          × (out.0 ≡ ok (cancelled answer))
          × IsSwitchedOff job_id env.now job jobs out.1)

  not_own :
      (job_id user_id : Text) (jobs : List ScheduledJob) (job : ScheduledJob)
      → ctx.user_id ≡ some user_id
      → get_job job_id jobs ≡ some job
      → text_eq job.user_id user_id ≡ false
      → ¬ ((job' : ScheduledJob) × IsOwnJob job_id jobs job')
  not_own job_id user_id jobs job u g e (job', (g', u')) =
      let same : job ≡ job' = some-injective job job' (sym g ∙ g') in
      let own : job'.user_id ≡ user_id = some-injective job'.user_id user_id (sym u' ∙ u) in
      let mine : job.user_id ≡ user_id = ap (λ (j : ScheduledJob). j.user_id) same ∙ own in
      let t : text_eq job.user_id user_id ≡ true =
        ap (λ v. text_eq v user_id) mine ∙ text_eq_refl user_id in
      absurd (cc)

  cancel_owned_lem :
      (was_running : Bool) (job_id user_id : Text) (jobs : List ScheduledJob)
      (o : Option ScheduledJob)
      → ctx.user_id ≡ some user_id
      → get_job job_id jobs ≡ o
      → IsCancellation job_id jobs (cancel_owned env ctx was_running job_id user_id jobs o)
  unfolding cancel_owned
  cancel_owned_lem was_running job_id user_id jobs none u g =
      inl (_, refl, refl, λ (job, (g', u')). absurd (cc))
  cancel_owned_lem was_running job_id user_id jobs (some job) u g =
      elim (Bool-cases (text_eq job.user_id user_id)) [
        | inr e ↦ rw (e) (inl (_, refl, refl, not_own job_id user_id jobs job u g e))
        | inl e ↦ rw (e) (
            inr (
              job,
              (cancel_job_and_disable was_running job_id env.now jobs).0,
              (g, subst (λ v. ctx.user_id ≡ some v) (sym (eq_of_text_eq job.user_id user_id e)) u),
              refl,
              cancel_job_and_disable-IsSwitchedOff was_running job_id env.now jobs job g,
            ))
      ]

  cancel_read_lem :
      (was_running : Bool) (job_id : Text) (jobs : List ScheduledJob) (u : Option Text)
      → ctx.user_id ≡ u
      → IsCancellation job_id jobs (
          cancel_read env ctx was_running jobs
            (ok_or (codes "missing user_id") u >>= λ user_id. ok (job_id, user_id)))
  unfolding cancel_read
  cancel_read_lem was_running job_id jobs none e =
      inl (_, refl, refl, λ (job, (g', u')). absurd (cc))
  cancel_read_lem was_running job_id jobs (some user_id) e =
      cancel_owned_lem was_running job_id user_id jobs (get_job job_id jobs) e refl

  -- Where the job with the given identifier is there and the caller's own, cancelling it succeeds: it
  -- is disabled, and its time of change is noted if it was not already; every other job is found as
  -- before, and no row is added, removed or moved. Else cancelling fails and leaves the table as it
  -- was.
  pub cancel_job-owner :
      (was_running : Bool) (input : Input) (job_id : Text) (jobs : List ScheduledJob)
      → input.str (codes "job_id") ≡ some job_id
      → IsCancellation job_id jobs (cancel_job env ctx was_running input jobs)
  unfolding cancel_job
  cancel_job-owner was_running input job_id jobs h =
      rw (h) (cancel_read_lem was_running job_id jobs ctx.user_id refl)
