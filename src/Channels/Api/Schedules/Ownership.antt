-- ===== src/Channels/Api/Schedules/Ownership.antt =====
-- Whose jobs the handlers create and cancel, and what a refused request leaves behind.
use picobot.Base.{
  Text, codes, ℕ, Bool, true, false, List, Option, none, some, eq_of_text_eq, if◌then◌else◌, ◌≡◌,
  refl, ap, ◌∙◌, arith,
}
use picobot.Kernel.Capability.{CapabilitySet, user_mode}
use picobot.Kernel.Invoke.{Kernel}
use picobot.Kernel.Builder.{with_execution_mode}
use picobot.Scheduler.Job.{ScheduledJob, CreateJobRequest}
use picobot.Scheduler.Store.{get_job}
use picobot.Scheduler.Service.{SchedulerResult, done, failed, cancel_job_and_disable}
use picobot.Scheduler.Service.Cancelled.{IsSwitchedOff, cancel_job_and_disable-IsSwitchedOff}
use picobot.Scheduler.Service.Requested.{IsAdded, IsRequested, create-IsRequested}
use picobot.Tools.Input.{unwrap_or}
use picobot.Tools.Schedule.{Surroundings}
use picobot.Channels.{ChannelProfile}
use picobot.Channels.RateLimiter.{RateLimiter}
use picobot.Channels.Api.{
  StatusCode, Answer, ok, refused, ◌>>=◌, Headers, Identities, authenticate, validate_session_id,
  default_session_id,
}
use picobot.Channels.Api.Sessions.{IsSessionOf, validate_session_id_iff}
use picobot.Channels.Api.Schedules.{
  ScheduleCreateRequest, admit, enforce, limited, permits, ensure_schedule_permission, available,
  parse_schedule_type, expr_of, parse_capabilities, check_channel, from_service, request_of,
  create_scoped, create_for, scoped, settle, schedule_create, found, check_owner, cancel_for,
  schedule_cancel,
}

-- What an answer promises, if the request is not refused.
abbrev Holds : {A : Type 0} → (A → Type 0) → Answer A → Type 0
Holds P (ok a) = P a
Holds P (refused code reason) = Unit

Holds-bind :
    {A B : Type 0} (Q : B → Type 0) (r : Answer A) (f : A → Answer B)
    → ((a : A) → r ≡ ok a → Holds Q (f a))
    → Holds Q (r >>= f)
Holds-bind Q (ok a) f h = h a refl
Holds-bind Q (refused code reason) f h = tt

-- A test that lets a request through.
passed :
    (t : Bool) (code : StatusCode) (reason : Text)
    → (let r : Answer {0} Unit = refused code reason in if t then ok tt else r) ≡ ok tt
    → t ≡ true
passed true code reason h = refl
passed false code reason h = cc

-- Who was admitted is who was authenticated.
limited-eq_ok : (u v : Text) (b : Bool) → limited u b ≡ ok v → u ≡ v
limited-eq_ok u v true h = cc
limited-eq_ok u v false h = cc

admit-authenticate :
    (identities : Identities) (limit : Option ℕ) (now : ℕ) (headers : Headers)
    (limiter : RateLimiter) (user_id : Text)
    → (admit identities limit now headers limiter).0 ≡ ok user_id
    → authenticate identities headers ≡ ok user_id
unfolding admit
admit-authenticate identities limit now headers limiter user_id =
    go (authenticate identities headers)
  where
    go : (a : Answer Text) → (enforce limit now limiter a).0 ≡ ok user_id → a ≡ ok user_id
    go (refused code reason) h = cc
    go (ok u) h = ap ok (limited-eq_ok u user_id _ h)

-- What a handler came to: it refused and left the table, or it was asked by a user of whom the
-- result holds.
abbrev pub Settled :
    {A : Type 0}
    → List ScheduledJob
    → (Text → A × List ScheduledJob → Type 0)
    → Answer Text
    → Answer A × List ScheduledJob
    → Type 0
Settled jobs P user (refused code reason, rows) = rows ≡ jobs
Settled jobs P user (ok a, rows) = (user_id : Text) × ((user ≡ ok user_id) × P user_id (a, rows))

settle-Settled :
    {A : Type 0} (jobs : List ScheduledJob) (P : Text → A × List ScheduledJob → Type 0)
    (user : Answer Text) (f : Text → Answer (A × List ScheduledJob))
    → ((user_id : Text) → Holds (P user_id) (f user_id))
    → Settled jobs P user (settle jobs (user >>= f))
settle-Settled {A} jobs P (refused code reason) f h = refl
settle-Settled {A} jobs P (ok user_id) f h = go (f user_id) (h user_id)
  where
    go :
        (r : Answer (A × List ScheduledJob))
        → Holds (P user_id) r
        → Settled jobs P (ok user_id) (settle jobs r)
    go (refused code reason) k = refl
    go (ok (a, rows)) k = (user_id, (refl, k))

-- The same, by the request that was authenticated.
Settled-authenticate :
    {A : Type 0} (jobs : List ScheduledJob) (P : Text → A × List ScheduledJob → Type 0)
    (identities : Identities) (limit : Option ℕ) (now : ℕ) (headers : Headers)
    (limiter : RateLimiter) (out : Answer A × List ScheduledJob)
    → Settled jobs P (admit identities limit now headers limiter).0 out
    → Settled jobs P (authenticate identities headers) out
Settled-authenticate jobs P identities limit now headers limiter (refused code reason, rows) h = h
Settled-authenticate jobs P identities limit now headers limiter (ok a, rows) h =
    (h.0, (admit-authenticate identities limit now headers limiter h.0 h.1.0, h.1.1))

module _ {F Schema Input Output World : Type 0} (env : Surroundings) (has_scheduler : Bool)
    (profile : ChannelProfile) (kernel : Kernel F Schema Input Output World) where
  -- Either set of the API's kernel allows an action on schedules.
  abbrev IsPermitted : Text → Type 0
  IsPermitted action =
      permits env.host kernel.context.capabilities profile.pre_authorized action ≡ true

  ensure-eq_ok :
      (set pre : CapabilitySet) (action : Text)
      → ensure_schedule_permission env.host set pre action ≡ ok tt
      → permits env.host set pre action ≡ true
  unfolding ensure_schedule_permission
  ensure-eq_ok set pre action h = passed (permits env.host set pre action) _ _ h

  -- A job that a kernel scoped to a user made and added to the table
  IsOwnJob :
      List ScheduledJob
      → Text
      → Kernel F Schema Input Output World
      → ScheduledJob × List ScheduledJob
      → Type 0
  IsOwnJob jobs user_id inner out =
      (permits env.host inner.context.capabilities inner.prompt_profile.pre_authorized
          (codes "create")
        ≡ true)
      × ((out.0.user_id ≡ user_id)
          × ((out.0.session_id ≡ inner.context.session_id) × IsAdded jobs out.0 out.1))

  from_service-IsOwnJob :
      (jobs : List ScheduledJob) (user_id : Text) (inner : Kernel F Schema Input Output World)
      (request : CreateJobRequest) (r : SchedulerResult (ScheduledJob × List ScheduledJob))
      → permits env.host inner.context.capabilities inner.prompt_profile.pre_authorized
          (codes "create")
        ≡ true
      → request.user_id ≡ user_id
      → request.session_id ≡ inner.context.session_id
      → IsRequested jobs request r
      → Holds (IsOwnJob jobs user_id inner) (from_service r)
  unfolding IsOwnJob
  from_service-IsOwnJob jobs user_id inner request (done (job, rows)) p u s q =
      (p, (q.0 ∙ u, (q.1.1.0 ∙ s, q.1.1.1)))
  from_service-IsOwnJob jobs user_id inner request (failed e) p u s q = tt

  create_scoped-IsOwnJob :
      (payload : ScheduleCreateRequest) (user_id : Text)
      (inner : Kernel F Schema Input Output World) (jobs : List ScheduledJob)
      → Holds
          (IsOwnJob jobs user_id inner)
          (create_scoped env has_scheduler profile kernel payload user_id inner jobs)
  unfolding create_scoped
  create_scoped-IsOwnJob payload user_id inner jobs =
      let Own = IsOwnJob jobs user_id inner in
      let set = inner.context.capabilities in
      let pre = inner.prompt_profile.pre_authorized in
      Holds-bind Own (ensure_schedule_permission env.host set pre (codes "create")) _ (λ _ p.
        Holds-bind Own (available has_scheduler) _ (λ _ _.
          Holds-bind Own (parse_schedule_type payload.schedule_type) _ (λ t _.
            Holds-bind Own (expr_of t payload.schedule_expr) _ (λ expr _.
              Holds-bind Own (parse_capabilities env.show_error payload.capabilities) _ (λ asked _.
                let request =
                  request_of env has_scheduler profile kernel payload user_id inner t expr asked in
                from_service-IsOwnJob jobs user_id inner request _
                  (ensure-eq_ok set pre (codes "create") p) refl refl
                  (create-IsRequested env.host env.config (env.initial_run t expr) env.id env.now
                    env.window_start request jobs))))))

  -- A job of a user, in one of the user's sessions, made where schedules may be created, and added to
  -- the table.
  abbrev pub IsOwned : List ScheduledJob → Text → ScheduledJob × List ScheduledJob → Type 0
  IsOwned jobs user_id out =
      IsPermitted (codes "create")
      × ((out.0.user_id ≡ user_id)
          × (((session_id : Text) × ((out.0.session_id ≡ some session_id)
                  × IsSessionOf user_id session_id))
              × IsAdded jobs out.0 out.1))

  in_session :
      (jobs : List ScheduledJob) (user_id session_id : Text)
      (r : Answer (ScheduledJob × List ScheduledJob))
      → validate_session_id session_id user_id ≡ ok tt
      → Holds
          (IsOwnJob jobs user_id (
            with_execution_mode user_mode
              (scoped env has_scheduler profile kernel user_id session_id)))
          r
      → Holds (IsOwned jobs user_id) r
  unfolding IsOwnJob with_execution_mode scoped
  in_session jobs user_id session_id (refused code reason) v h = tt
  in_session jobs user_id session_id (ok out) v h = (
    h.0,
    (h.1.0, ((session_id, (h.1.1.0, (validate_session_id_iff session_id user_id).0 v)), h.1.1.1)),
  )

  create_for-IsOwned :
      (payload : ScheduleCreateRequest) (user_id : Text) (jobs : List ScheduledJob)
      → Holds
          (IsOwned jobs user_id)
          (create_for env has_scheduler profile kernel payload user_id jobs)
  unfolding create_for
  create_for-IsOwned payload user_id jobs =
      let Own = IsOwned jobs user_id in
      let session_id = unwrap_or (default_session_id user_id) payload.session_id in
      Holds-bind Own (validate_session_id session_id user_id) _ (λ _ v.
        Holds-bind Own (check_channel payload.channel_id) _ (λ _ _.
          in_session jobs user_id session_id _ v (
            create_scoped-IsOwnJob payload user_id
              (with_execution_mode user_mode
                (scoped env has_scheduler profile kernel user_id session_id))
              jobs)))

  -- The job of a user that was found and cancelled.
  abbrev pub IsCancelled :
      Bool → Text → List ScheduledJob → Text → Bool × List ScheduledJob → Type 0
  IsCancelled was_running job_id jobs user_id out =
      IsPermitted (codes "cancel")
      × ((job : ScheduledJob) × ((get_job job_id jobs ≡ some job)
            × ((job.user_id ≡ user_id)
                × ((out ≡ cancel_job_and_disable was_running job_id env.now jobs)
                    × IsSwitchedOff job_id env.now job jobs out.1))))

  found-eq_ok :
      (o : Option ScheduledJob) (job : ScheduledJob)
      → found env has_scheduler profile kernel o ≡ ok job
      → o ≡ some job
  found-eq_ok none job h = cc
  found-eq_ok (some j) job h = cc

  check_owner-eq_ok :
      (user_id : Text) (job : ScheduledJob)
      → check_owner env has_scheduler profile kernel user_id job ≡ ok tt
      → job.user_id ≡ user_id
  check_owner-eq_ok user_id job h = eq_of_text_eq job.user_id user_id (ground arith)

  cancel_for-IsCancelled :
      (was_running : Bool) (job_id user_id : Text) (jobs : List ScheduledJob)
      → Holds
          (IsCancelled was_running job_id jobs user_id)
          (cancel_for env has_scheduler profile kernel was_running job_id user_id jobs)
  unfolding cancel_for scoped
  cancel_for-IsCancelled was_running job_id user_id jobs =
      let Cancelled = IsCancelled was_running job_id jobs user_id in
      Holds-bind Cancelled (available has_scheduler) _ (λ _ _.
        Holds-bind Cancelled
          (ensure_schedule_permission env.host kernel.context.capabilities profile.pre_authorized
            (codes "cancel"))
          _
          (λ _ p.
            Holds-bind Cancelled (found env has_scheduler profile kernel (get_job job_id jobs)) _
              (λ job g.
                Holds-bind Cancelled (check_owner env has_scheduler profile kernel user_id job)
                  (λ _. ok (cancel_job_and_disable was_running job_id env.now jobs))
                  (λ _ o. (
                    ensure-eq_ok kernel.context.capabilities profile.pre_authorized (codes "cancel")
                        p,
                    (
                      job,
                      (
                        found-eq_ok (get_job job_id jobs) job g,
                        (
                          check_owner-eq_ok user_id job o,
                          (
                            refl,
                            cancel_job_and_disable-IsSwitchedOff was_running job_id env.now jobs job
                                (found-eq_ok (get_job job_id jobs) job g),
                          ),
                        ),
                      ),
                    ),
                  )))))

  module _ (identities : Identities) (limit : Option ℕ) (now : ℕ) (headers : Headers)
      (limiter : RateLimiter) (jobs : List ScheduledJob) where
    -- A request to create a job is refused and leaves the table as it was, or the job belongs to the
    -- user as whom the request was authenticated, is in a session of that user, one of the kernel's
    -- capabilities and the channel's pre-authorised set allows the creation of schedules, and the job
    -- is found in the table afterwards, with the jobs of every other identifier as before.
    pub schedule_create-Settled :
        (payload : ScheduleCreateRequest)
        → Settled jobs (IsOwned jobs) (authenticate identities headers) (
            schedule_create env has_scheduler profile kernel payload
              (admit identities limit now headers limiter).0
              jobs)
    unfolding schedule_create
    schedule_create-Settled payload =
        Settled-authenticate jobs (IsOwned jobs) identities limit now headers limiter _ (
          settle-Settled jobs (IsOwned jobs) (admit identities limit now headers limiter).0
            (λ user_id. create_for env has_scheduler profile kernel payload user_id jobs)
            (λ user_id. create_for-IsOwned payload user_id jobs))

    -- A request to cancel a job is refused and leaves the table as it was, or the job with that
    -- identifier belongs to the user as whom the request was authenticated, one of the two sets
    -- allows to cancel schedules, and it is switched off: it is disabled, every other job is found as
    -- before, and no row is added, removed or moved.
    pub schedule_cancel-Settled :
        (was_running : Bool) (job_id : Text)
        → Settled jobs (IsCancelled was_running job_id jobs) (authenticate identities headers) (
            schedule_cancel env has_scheduler profile kernel was_running job_id
              (admit identities limit now headers limiter).0
              jobs)
    unfolding schedule_cancel
    schedule_cancel-Settled was_running job_id =
        Settled-authenticate jobs (IsCancelled was_running job_id jobs) identities limit now headers
          limiter _
          (settle-Settled jobs (IsCancelled was_running job_id jobs)
            (admit identities limit now headers limiter).0
            (λ user_id. cancel_for env has_scheduler profile kernel was_running job_id user_id jobs)
            (λ user_id. cancel_for-IsCancelled was_running job_id user_id jobs))
