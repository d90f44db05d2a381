-- ===== src/Scheduler/Expression.antt =====
-- The expressions of schedules: `parse_relative_duration` and `has_offset_suffix`, which
-- src/scheduler/service.rs and src/tools/schedule.rs both declare, word for word, and
-- `compute_next_run_for` of src/scheduler/service.rs. The crates `chrono` and `cron` are the fields
-- of a `Calendar`; instants are numbers of milliseconds, and a duration that is negative after the
-- conversion to `i64` is an instant before `now`.
pub mod Spacing
use picobot.Base.{
  Text, codes, ℕ, suc, ◌+◌, ◌-◌, ◌*◌, ◌/◌, ◌^◌, Bool, true, false, List, [], ◌∷◌, ◌++◌, Option,
  none, some, not, ◌&&◌, ◌||◌, ◌==◌, ltb, leb, if◌then◌else◌, text_eq, trim, to_ascii_lowercase,
  strip_prefix, split_whitespace, parse_u64, saturating_mul, byte_len, as_bytes, slice_from,
  is_ascii_digit, contains_char, split_once, ends_with, keep, length, any, is_empty, utf8_len, ◌⊎◌,
  inl, inr,
}
use picobot.Scheduler.Job.{ScheduleType, interval, once, cron}
use picobot.Scheduler.Service.{
  SchedulerResult, done, failed, SchedulerError, invalid_schedule, ◌>>=◌,
}

abbrev one_of : List Text → Text → Bool
one_of words unit = any (text_eq unit) words

-- The match on the unit
unfoldable scaled : ℕ → Text → Option ℕ
unfolding any text_eq
scaled amount unit =
    if one_of (codes "sec" ∷ codes "secs" ∷ codes "second" ∷ codes "seconds" ∷ []) unit
    then some amount
    else if one_of (codes "min" ∷ codes "mins" ∷ codes "minute" ∷ codes "minutes" ∷ []) unit
    then some (saturating_mul amount 60)
    else if one_of (codes "hour" ∷ codes "hours" ∷ []) unit
    then some (saturating_mul amount 3600)
    else if one_of (codes "day" ∷ codes "days" ∷ []) unit
    then some (saturating_mul amount 86400)
    else none

abbrev scaled_amount : Option ℕ → Text → Option ℕ
scaled_amount none unit = none
scaled_amount (some amount) unit = scaled amount unit

unfoldable duration_of : List Text → Option ℕ
unfolding scaled parse_u64
duration_of (amount ∷ unit ∷ rest) = scaled_amount (parse_u64 amount) unit
duration_of _ = none

abbrev without_prefix : Text → Option Text → Text
without_prefix value none = value
without_prefix value (some rest) = rest

-- `parse_relative_duration`
unfoldable pub parse_relative_duration : Text → Option ℕ
unfolding duration_of split_whitespace strip_prefix to_ascii_lowercase trim
parse_relative_duration value =
    let trimmed = to_ascii_lowercase (trim value) in
    duration_of (split_whitespace (without_prefix trimmed (strip_prefix (codes "in ") trimmed)))

-- The tests of `has_offset_suffix` on the last six bytes
unfoldable is_offset : List ℕ → Bool
is_offset (sign ∷ b1 ∷ b2 ∷ colon ∷ b4 ∷ b5 ∷ rest) =
    (sign == b'+' || sign == b'-')
    && (colon == b':'
        && (is_ascii_digit b1 && (is_ascii_digit b2 && (is_ascii_digit b4 && is_ascii_digit b5))))
is_offset _ = false

abbrev offset_of_slice : Option Text → Option Bool
offset_of_slice none = none
offset_of_slice (some suffix) = some (is_offset (as_bytes suffix))

-- `has_offset_suffix`; `none` is the panic of a slice inside a character
unfoldable pub has_offset_suffix : Text → Option Bool
unfolding byte_len slice_from is_offset as_bytes
has_offset_suffix value =
    if ltb (byte_len value) 6
    then some false
    else offset_of_slice (slice_from (byte_len value - 6) value)

-- `DateTime::parse_from_rfc3339`, `Utc::now() + Duration::seconds(secs as i64)`, the parsers of time
-- zones and of cron expressions, and the zone UTC. A cron schedule is its next occurrence in a zone
-- after an instant.
pub record Calendar : Type 1 where
  pub Zone : Type 0
  pub utc : Zone
  pub parse_zone : Text → Option Zone
  pub parse_rfc3339 : Text → Option ℕ
  pub plus_seconds : ℕ → ℕ → ℕ
  pub parse_schedule : Text → Text ⊎ (Zone → ℕ → Option ℕ)

abbrev count_colons : Text → ℕ
count_colons s = length (keep (λ c. c == b':') s)

-- The end of `add_missing_seconds`: the base and the suffix that it was split into
unfoldable with_seconds : Text → Text → Option (Text × Text) → Option Text
unfolding keep
with_seconds base suffix none = none
with_seconds base suffix (some (date, time_part)) =
    if count_colons time_part == 1 then some (base ++ (codes ":00" ++ suffix)) else none

-- `&value[..at]` and `&value[at..]`, where `at` does not lie inside a character
unfoldable split_bytes : ℕ → Text → Text × Text
split_bytes at [] = ([], [])
split_bytes at (c ∷ s) =
    let (before, after) = split_bytes (at - utf8_len c) s in
    if at == 0 then ([], c ∷ s) else (c ∷ before, after)

abbrev complete_time : Text × Text → Option Text
complete_time (base, suffix) = with_seconds base suffix (split_once b'T' base)

unfoldable seconds_added : Text → Option Bool → Option (Option Text)
unfolding split_bytes with_seconds split_once byte_len
seconds_added value none = none
seconds_added value (some true) = some (complete_time (split_bytes (byte_len value - 6) value))
seconds_added value (some false) = some (complete_time (value, []))

-- `add_missing_seconds`; `none` is a panic
unfoldable add_missing_seconds : Text → Option (Option Text)
unfolding contains_char ends_with has_offset_suffix seconds_added split_bytes byte_len
add_missing_seconds value =
    if not (contains_char b'T' value)
    then some none
    else if ends_with (codes "Z") value
    then some (complete_time ((split_bytes (byte_len value - 1) value).0, codes "Z"))
    else seconds_added value (has_offset_suffix value)

module _ (calendar : Calendar) where
  abbrev parse_completed : Option (Option Text) → Option (Option ℕ)
  parse_completed none = none
  parse_completed (some none) = some none
  parse_completed (some (some text)) = some (calendar.parse_rfc3339 text)

  -- `parse_once_datetime`; the outer `none` is a panic
  unfoldable parse_once_datetime : Text → Option (Option ℕ)
  unfolding trim add_missing_seconds
  parse_once_datetime value = elim (calendar.parse_rfc3339 (trim value)) [
    | some when ↦ some (some when)
    | none ↦ parse_completed (add_missing_seconds (trim value))
  ]

  -- `parse_cron_with_timezone`, on what the first `|` splits
  unfoldable cron_zone : Text → Option calendar.Zone → SchedulerResult (calendar.Zone × Text)
  unfolding is_empty
  cron_zone schedule_expr none = failed (invalid_schedule (codes "invalid cron timezone"))
  cron_zone schedule_expr (some tz) =
      if is_empty schedule_expr
      then failed (invalid_schedule (codes "cron expression missing"))
      else done (tz, schedule_expr)

  unfoldable split_cron : Text → Option (Text × Text) → SchedulerResult (calendar.Zone × Text)
  unfolding trim cron_zone
  split_cron trimmed none = done (calendar.utc, trim trimmed)
  split_cron trimmed (some (first, second)) =
      cron_zone (trim second) (calendar.parse_zone (trim first))

  unfoldable parse_cron_with_timezone : Text → SchedulerResult (calendar.Zone × Text)
  unfolding trim split_cron split_once
  parse_cron_with_timezone expr = split_cron (trim expr) (split_once b'|' (trim expr))

  abbrev pub compiled :
      Text ⊎ (calendar.Zone → ℕ → Option ℕ) → calendar.Zone → SchedulerResult (ℕ → Option ℕ)
  compiled (inl e) tz = failed (invalid_schedule e)
  compiled (inr schedule) tz = done (schedule tz)

  -- `parse_cron_schedule`, as the next occurrence after an instant
  unfoldable pub parse_cron_schedule : Text → SchedulerResult (ℕ → Option ℕ)
  unfolding parse_cron_with_timezone
  parse_cron_schedule expr =
      parse_cron_with_timezone expr >>= λ (tz, raw). compiled (calendar.parse_schedule raw) tz

  -- `next_cron_occurrence_with_schedule`
  unfoldable pub occurrence : Option ℕ → SchedulerResult ℕ
  occurrence none = failed (invalid_schedule (codes "cron has no future occurrences"))
  occurrence (some at) = done at

  -- `next_cron_occurrence`
  unfoldable pub next_cron_occurrence : Text → ℕ → SchedulerResult ℕ
  unfolding parse_cron_schedule occurrence
  next_cron_occurrence expr after = parse_cron_schedule expr >>= λ next. occurrence (next after)

  -- The test of the distance in `compute_cron_initial_run`
  unfoldable pub spaced : ℕ → ℕ → SchedulerResult ℕ
  spaced next follow =
      if ltb follow (next + 60000)
      then failed (invalid_schedule (codes "cron interval must be at least 60 seconds"))
      else done next

  unfoldable pub first_run : (ℕ → Option ℕ) → ℕ → SchedulerResult ℕ
  unfolding occurrence spaced
  first_run schedule now = occurrence (schedule now) >>= λ next.
      occurrence (schedule next) >>= λ follow. spaced next follow

  -- `compute_cron_initial_run`
  unfoldable pub compute_cron_initial_run : Text → ℕ → SchedulerResult ℕ
  unfolding parse_cron_schedule first_run
  compute_cron_initial_run expr now =
      parse_cron_schedule expr >>= λ schedule. first_run schedule now

  abbrev interval_run : ℕ → Option ℕ → SchedulerResult ℕ
  interval_run now none = failed (invalid_schedule (codes "interval schedule_expr must be seconds"))
  interval_run now (some secs) = done (calendar.plus_seconds now secs)

  abbrev once_at : Option (Option ℕ) → Option (SchedulerResult ℕ)
  once_at none = none
  once_at (some (some when)) = some (done when)
  once_at (some none) = some (
      failed (
        invalid_schedule
          (codes "once schedule_expr must be a relative duration or RFC3339 timestamp")))

  -- `compute_next_run_for`; `none` is a panic
  unfoldable compute_next_run_for : ScheduleType → Text → ℕ → Option (SchedulerResult ℕ)
  unfolding parse_u64 parse_relative_duration parse_once_datetime compute_cron_initial_run
  compute_next_run_for interval expr now = some (interval_run now (parse_u64 expr))
  compute_next_run_for once expr now = elim (parse_relative_duration expr) [
    | some secs ↦ some (done (calendar.plus_seconds now secs))
    | none ↦ once_at (parse_once_datetime expr)
  ]
  compute_next_run_for cron expr now = some (compute_cron_initial_run expr now)
