-- ===== src/Tools/Notify.antt =====
-- src/tools/notify.rs: the tool that sends a message to the user. The identifier of the entry and
-- the time are those that the queue reads.
pub mod Recipient
use picobot.Base.{
  Text, codes, ℕ, Bool, true, false, List, [], ◌∷◌, ◌++◌, Option, none, some, ◌||◌, if◌then◌else◌,
  text_eq,
}
use picobot.Kernel.Permission.{Permission, notify}
use picobot.Kernel.Capability.{ToolContext, allows_identity_override}
use picobot.Kernel.Tool.{Result, ok, err, ◌>>=◌}
use picobot.Notifications.Queue.{Queue, Request, enqueue}
use picobot.Tools.Input.{Input, ok_or, str_field, unwrap_or, fail}
use picobot.Tools.Identity.{or_else, channel_of, user_of}

abbrev pub own_channel : ToolContext → Option Text
own_channel ctx = or_else ctx.channel_id (channel_of ctx.session_id)

-- `required_permissions`
unfoldable pub required_permissions : ToolContext → Input → List Permission
required_permissions ctx input =
    notify (unwrap_or (codes "*") (or_else (input.str (codes "channel_id")) (own_channel ctx))) ∷ []

-- The test of the channel, after which the context's stands in for an absent input
unfoldable pub chosen_channel : Bool → Text → Option Text → Result Text
unfolding text_eq
chosen_channel override ctx_channel none = ok ctx_channel
chosen_channel override ctx_channel (some given) =
    if override || text_eq given ctx_channel
    then ok given
    else fail (codes "channel_id does not match context")

unfoldable pub read_channel : ToolContext → Option Text → Result Text
unfolding chosen_channel allows_identity_override
read_channel ctx given = ok_or (codes "missing channel_id") (own_channel ctx) >>= λ ctx_channel.
    chosen_channel (allows_identity_override ctx.execution_mode) ctx_channel given

-- The request that `execute` makes of its input
unfoldable pub read_request : ToolContext → Input → Result Request
unfolding user_of read_channel
read_request ctx input = str_field input (codes "message") (codes "missing message") >>= λ message.
    user_of ctx (input.str (codes "user_id")) >>= λ user_id.
    read_channel ctx (input.str (codes "channel_id")) >>= λ channel_id.
    ok (record { user_id = user_id; channel_id = channel_id; message = message })

-- The service, if the context has one, and the flag `notify_tool_used`
pub record State : Type 0 where
  pub service : Option Queue
  pub used : Bool

unfoldable pub enqueue_to : Text → ℕ → State → Request → Option Queue → Result Text × State
unfolding enqueue
enqueue_to id now state request none = (fail (codes "notifications not available"), state)
enqueue_to id now state request (some queue) =
    (ok id, record { service = some (enqueue id now request queue); used = true })

unfoldable pub send : Text → ℕ → State → Result Request → Result Text × State
unfolding enqueue_to
send id now state (err e) = (err e, state)
send id now state (ok request) = enqueue_to id now state request state.service

-- `execute`
unfoldable pub execute : Text → ℕ → ToolContext → Input → State → Result Text × State
unfolding send read_request
execute id now ctx input state = send id now state (read_request ctx input)
