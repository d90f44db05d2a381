-- ===== src/Tools/Schedule/Expressions.antt =====
-- src/tools/schedule.rs: the names, expressions and capabilities of a job that is to be created.
use picobot.Base.{
  Text, codes, ℕ, suc, ◌+◌, Bool, true, false, List, [], ◌∷◌, ◌++◌, Option, none, some, not, ◌&&◌,
  ◌||◌, ◌==◌, leb, if◌then◌else◌, trim, split_once, split_whitespace, length, is_empty,
  contains_char, ends_with, byte_len, map, is_ascii_lowercase, is_ascii_uppercase, is_ascii_digit,
}
use picobot.Kernel.Permission.{Permission, trim_start_matches}
use picobot.Kernel.Capability.{CapabilitySet, from_permissions}
use picobot.Kernel.Syntax
use picobot.Kernel.Tool.{Result, ok, ◌>>=◌}
use picobot.Scheduler.Expression.{has_offset_suffix}
use picobot.Tools.Input.{fail}

abbrev is_alphanumeric : ℕ → Bool
is_alphanumeric c = is_ascii_lowercase c || is_ascii_uppercase c || is_ascii_digit c

abbrev lower : ℕ → ℕ
lower c = if is_ascii_uppercase c then c + 32 else c

-- The loop of `default_job_name`: the bytes written so far, and whether the last one is a dash
unfoldable name_chars : ℕ → Bool → Text → Text
name_chars len last_dash [] = []
name_chars len last_dash (c ∷ s) =
    let word = name_chars (suc len) false s in
    let dash = name_chars (suc len) true s in
    let skip = name_chars len last_dash s in
    if leb 40 len
    then []
    else if is_alphanumeric c
    then lower c ∷ word
    else if not last_dash
    then b'-' ∷ dash
    else skip

-- `str::trim_matches` for one character
unfoldable trim_end_matches : ℕ → Text → Text
trim_end_matches c [] = []
trim_end_matches c (d ∷ s) =
    let rest = trim_end_matches c s in if is_empty rest && d == c then [] else d ∷ rest

abbrev name_or_default : Text → Text
name_or_default [] = codes "scheduled-job"
name_or_default (c ∷ s) = c ∷ s

-- `default_job_name`
unfoldable pub default_job_name : Text → Text
unfolding trim name_chars trim_end_matches trim_start_matches
default_job_name task_prompt =
    name_or_default
      (trim_end_matches b'-' (trim_start_matches b'-' (name_chars 0 false (trim task_prompt))))

-- The match of `normalize_cron_expr` on the number of fields
unfoldable pub cron_fields : Text → ℕ → Result Text
cron_fields raw count =
    if count == 5
    then ok (codes "0 " ++ raw)
    else if count == 6 || count == 7
    then ok raw
    else fail (codes "cron expression must have 5 or 6 fields")

unfoldable pub cron_parts : Text → Option (Text × Text) → Result Text
unfolding trim split_whitespace cron_fields is_empty
cron_parts trimmed none = cron_fields trimmed (length (split_whitespace trimmed))
cron_parts trimmed (some (prefix, rest)) =
    if is_empty (trim prefix)
    then fail (codes "cron timezone missing")
    else (cron_fields (trim rest) (length (split_whitespace (trim rest))) >>= λ normalized.
        ok (trim prefix ++ (codes "|" ++ normalized)))

-- `normalize_cron_expr`
unfoldable pub normalize_cron_expr : Text → Result Text
unfolding cron_parts trim split_once
normalize_cron_expr value = cron_parts (trim value) (split_once b'|' (trim value))

abbrev offset_added : Text → Text → Option Bool → Option Text
offset_added value tz_offset none = none
offset_added value tz_offset (some true) = some value
offset_added value tz_offset (some false) = some (value ++ tz_offset)

-- `ensure_offset`; `none` is a panic
unfoldable ensure_offset : Text → Text → Option Text
unfolding ends_with has_offset_suffix
ensure_offset value tz_offset =
    if ends_with (codes "Z") value
    then some value
    else offset_added value tz_offset (has_offset_suffix value)

abbrev third_is_colon : Text → Bool
third_is_colon (a ∷ b ∷ c ∷ s) = c == b':'
third_is_colon _ = false

abbrev returned : Option Text → Option (Result Text)
returned none = none
returned (some value) = some (ok value)

abbrev space_to_t : ℕ → ℕ
space_to_t c = if c == b' ' then b'T' else c

-- The branches of `normalize_once_expr` on a trimmed text. With a `T`, the three ways in which the
-- source adds an offset or not are one: `ensure_offset`.
unfoldable once_expr : Text → Text → Text → Option (Result Text)
unfolding contains_char ensure_offset byte_len is_empty
once_expr today tz_offset trimmed =
    if is_empty trimmed
    then some (fail (codes "once schedule_expr must not be empty"))
    else if contains_char b' ' trimmed
        && (contains_char b':' trimmed && not (contains_char b'T' trimmed))
    then returned (ensure_offset (map space_to_t trimmed) tz_offset)
    else if contains_char b'T' trimmed
    then returned (ensure_offset trimmed tz_offset)
    else if byte_len trimmed == 5 && third_is_colon trimmed
    then some (ok (today ++ (codes "T" ++ (trimmed ++ (codes ":00" ++ tz_offset)))))
    else returned (ensure_offset trimmed tz_offset)

-- `normalize_once_expr`; `today` is the local date
unfoldable pub normalize_once_expr : Text → Text → Text → Option (Result Text)
unfolding once_expr trim
normalize_once_expr today tz_offset value = once_expr today tz_offset (trim value)

-- The loop of `parse_capabilities` over the entries; `show` prints the error of the parser
module _ (show : Syntax.ParseError → Text) where
  unfoldable pub parse_entry : Syntax.Parsed Permission → Result Permission
  parse_entry (Syntax.ok p) = ok p
  parse_entry (Syntax.err e) = fail (show e)

  unfoldable pub parse_entries : List (Option Text) → Result (List Permission)
  unfolding parse_entry Syntax.from_str
  parse_entries [] = ok []
  parse_entries (none ∷ entries) = fail (codes "capabilities must be strings")
  parse_entries (some entry ∷ entries) = parse_entry (Syntax.from_str entry) >>= λ permission.
      parse_entries entries >>= λ permissions. ok (permission ∷ permissions)

  -- `parse_capabilities`
  unfoldable pub parse_capabilities : Option (List (Option Text)) → Result CapabilitySet
  unfolding parse_entries from_permissions
  parse_capabilities none = fail (codes "capabilities must be an array")
  parse_capabilities (some entries) =
      parse_entries entries >>= λ permissions. ok (from_permissions permissions)
