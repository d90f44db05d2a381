-- ===== src/Tools/Identity.antt =====
-- For whom a tool acts: the checks of `user_id`, `session_id` and `channel_id` that
-- src/tools/schedule.rs and src/tools/notify.rs make on their inputs.
use picobot.Base.{
  Text, codes, Bool, true, false, Option, none, some, ◌++◌, ◌||◌, if◌then◌else◌, text_eq,
  split_once,
}
use picobot.Kernel.Capability.{ToolContext, allows_identity_override}
use picobot.Kernel.Tool.{Result, ok, ◌>>=◌}
use picobot.Tools.Input.{Done, fail, ok_or}

-- `Option::or`
abbrev pub or_else {ℓ} : {A : Type ℓ} → Option A → Option A → Option A
or_else none b = b
or_else (some a) b = some a

-- `channel_id_from_session`
abbrev before_colon : Option (Text × Text) → Option Text
before_colon none = none
before_colon (some (channel, rest)) = some channel

unfoldable pub channel_id_from_session : Text → Option Text
unfolding split_once
channel_id_from_session session_id = before_colon (split_once b':' session_id)

abbrev pub channel_of : Option Text → Option Text
channel_of none = none
channel_of (some session_id) = channel_id_from_session session_id

-- The test of `session_id` and `channel_id`: an input that is given has to be the context's.
unfoldable pub check_given : Text → Bool → Option Text → Option Text → Result Done
unfolding text_eq
check_given field true ctx given = ok tt
check_given field false ctx none = ok tt
check_given field false (some value) (some given) =
    if text_eq value given then ok tt else fail (field ++ codes " does not match context")
check_given field false none (some given) =
    fail (codes "missing " ++ (field ++ codes " in context"))

-- The test of `user_id`, after which the context's stands in for an absent input
unfoldable pub chosen_user : Bool → Text → Option Text → Result Text
unfolding text_eq
chosen_user override ctx_user none = ok ctx_user
chosen_user override ctx_user (some given) =
    if override || text_eq given ctx_user
    then ok given
    else fail (codes "user_id does not match context")

unfoldable pub user_of : ToolContext → Option Text → Result Text
unfolding allows_identity_override chosen_user
user_of ctx given = ok_or (codes "missing user_id") ctx.user_id >>= λ ctx_user.
    chosen_user (allows_identity_override ctx.execution_mode) ctx_user given
