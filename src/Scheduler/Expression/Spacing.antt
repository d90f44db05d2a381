-- ===== src/Scheduler/Expression/Spacing.antt =====
-- How far apart the first two runs of a cron job are.
use picobot.Base.{
  Text, ℕ, ◌+◌, ◌≤◌, ltb, Option, none, some, ◌≡◌, refl, inl, inr, Bool-cases, arith, subst,
}
use picobot.Scheduler.Service.{SchedulerResult, done, failed, ◌>>=◌}
use picobot.Scheduler.Expression.{
  Calendar, parse_cron_schedule, occurrence, spaced, first_run, compute_cron_initial_run,
}

module _ (calendar : Calendar) (now : ℕ) where
  -- The first run after `now`, and one minute at least until the second.
  abbrev IsSpaced : (ℕ → Option ℕ) → ℕ → Type 0
  IsSpaced schedule next =
      (schedule now ≡ some next)
      × ((follow : ℕ) × ((schedule next ≡ some follow) × (next + 60000 ≤ follow)))

  abbrev SpacedResult : (ℕ → Option ℕ) → SchedulerResult ℕ → Type 0
  SpacedResult schedule (done next) = IsSpaced schedule next
  SpacedResult schedule (failed e) = Unit

  spaced_lem :
      (schedule : ℕ → Option ℕ) (next follow : ℕ)
      → schedule now ≡ some next
      → schedule next ≡ some follow
      → SpacedResult schedule (spaced calendar next follow)
  unfolding spaced
  spaced_lem schedule next follow e f = elim (Bool-cases (ltb follow (next + 60000))) [
    | inl g ↦ rw (g) tt
    | inr g ↦ rw (g) (e, (follow, (f, ground arith)))
  ]

  follow_lem :
      (schedule : ℕ → Option ℕ) (next : ℕ) (o : Option ℕ)
      → schedule now ≡ some next
      → schedule next ≡ o
      → SpacedResult schedule (occurrence calendar o >>= λ follow. spaced calendar next follow)
  unfolding occurrence
  follow_lem schedule next none e f = tt
  follow_lem schedule next (some follow) e f = spaced_lem schedule next follow e f

  next_lem :
      (schedule : ℕ → Option ℕ) (o : Option ℕ)
      → schedule now ≡ o
      → SpacedResult schedule (
          occurrence calendar o >>= λ next.
          occurrence calendar (schedule next) >>= λ follow. spaced calendar next follow)
  unfolding occurrence
  next_lem schedule none e = tt
  next_lem schedule (some next) e = follow_lem schedule next (schedule next) e refl

  first_run-IsSpaced :
      (schedule : ℕ → Option ℕ) → SpacedResult schedule (first_run calendar schedule now)
  unfolding first_run
  first_run-IsSpaced schedule = next_lem schedule (schedule now) refl

  -- A cron job that is accepted is first run at the next occurrence of its schedule, and the
  -- occurrence after that is a minute later at least.
  pub compute_cron_initial_run-IsSpaced :
      (expr : Text) (schedule : ℕ → Option ℕ) (next : ℕ)
      → parse_cron_schedule calendar expr ≡ done schedule
      → compute_cron_initial_run calendar expr now ≡ done next
      → IsSpaced schedule next
  unfolding compute_cron_initial_run
  compute_cron_initial_run-IsSpaced expr schedule next e h =
      subst (SpacedResult schedule)
        (subst (λ p. (p >>= λ s. first_run calendar s now) ≡ done next) e h)
        (first_run-IsSpaced schedule)
