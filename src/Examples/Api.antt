-- ===== src/Examples/Api.antt =====
-- Requests to the HTTP API, and the theorems applied to them.
use picobot.Base.{
  Text, codes, ℕ, ◌+◌, ◌-◌, ◌*◌, ◌^◌, ◌≤◌, Bool, true, false, List, [], ◌∷◌, ◌++◌, none, some, ltb,
  ◌≡◌, ◌↔◌, ◌⊎◌, all, drop, length, arith,
}
use picobot.Kernel.Capability.{ToolContext, user_mode}
use picobot.Kernel.Permission.{schedule}
use picobot.Kernel.Timeout.{prompt}
use picobot.Kernel.Invoke.{Kernel}
use picobot.Channels.{ChannelProfile}
use picobot.Channels.RateLimiter.{is_recent, allow}
use picobot.Channels.RateLimiter.Window.{
  Reach, start, request, fresh, handle, Served, count, inside, rate-bounded, allow-remembers,
}
use picobot.Channels.Api.{ok, Headers, authenticate, api_auth_map, validate_session_id, Identities}
use picobot.Channels.Api.Identity.{is_blank, Holds, presented, authenticate_iff}
use picobot.Channels.Api.Sessions.{IsSessionOf, validate_session_id_iff}
use picobot.Channels.Api.Schedules.{ScheduleCreateRequest, admit, schedule_create, schedule_cancel}
use picobot.Channels.Api.Schedules.Ownership.{
  Settled, IsOwned, IsCancelled, schedule_create-Settled, schedule_cancel-Settled,
}
use picobot.Channels.Api.Chat
use picobot.Channels.Api.Chat.{
  PromptMessageRequest, next_seq, message_of, begin_chat, finish_chat, prompt_message,
}
use picobot.Channels.Api.Chat.Growth.{history, IsOrdered}
use picobot.Channels.Api.Chat.Remembers.{
  IsRemembered, prompt_message-IsRemembered, prompt_message-IsOrdered,
}
use picobot.Channels.Api.Chat.Collision.{finish_chat-collides}
use picobot.Session.Memory.{user, assistant}
use picobot.Session.Manager.{Tables, messages_of, get_messages}
use picobot.Session.Manager.History.{get_messages-latest}
use picobot.Examples.Agents.{env, new_job}

-- Two requests of one user, a second apart, under a limit of one.
abbrev twice : Served
twice = handle 1 (codes "me") (10 ^ 9) (handle 1 (codes "me") 0 fresh)

twice_reached : Reach 1 (10 ^ 9) twice
twice_reached =
    request (request (start 0) (codes "me") 0 (omega arith)) (codes "me") (10 ^ 9) (omega arith)

rate-bounded_example : count (inside 0) (twice.log (codes "me")) ≤ 1
rate-bounded_example = rate-bounded 1 (omega arith) twice_reached (codes "me") 0

allow-remembers_example :
    (allow (codes "me") 1 (70 * 10 ^ 9) twice.limiter).0
    ≡ ltb (count (is_recent (70 * 10 ^ 9)) (twice.log (codes "me"))) 1
allow-remembers_example =
    allow-remembers 1 (omega arith) twice_reached (codes "me") (70 * 10 ^ 9) (omega arith)

abbrev keys : List Text
keys = codes "secret: me " ∷ codes "other" ∷ []

abbrev headers : Headers
headers = record { x_api_key = none; authorization = some (some (codes "Bearer secret")) }

authenticate_iff_example : (authenticate (api_auth_map keys) headers ≡ ok (codes "me")) ↔ (
    ((all is_blank keys ≡ true) × (codes "me" ≡ codes "api:anon"))
    ⊎ ((all is_blank keys ≡ false) × Holds keys (presented headers) (codes "me")))
authenticate_iff_example = authenticate_iff keys headers (codes "me")

validate_session_id_iff_example :
    (validate_session_id (codes "api:api:me") (codes "me") ≡ ok tt)
    ↔ IsSessionOf (codes "me") (codes "api:api:me")
validate_session_id_iff_example = validate_session_id_iff (codes "api:api:me") (codes "me")

abbrev profile : ChannelProfile
profile = record {
  pre_authorized = [];
  max_allowed = [];
  allow_user_prompts = true;
  prompt_timeout_secs = 30;
}

abbrev context : ToolContext
context = record {
  capabilities = schedule (codes "*") ∷ [];
  user_id = none;
  session_id = none;
  channel_id = none;
  execution_mode = user_mode;
}

abbrev kernel : Kernel ℕ Unit Text ℕ Bool
kernel = record {
  tool_registry = record { tools = []; schemas = [] };
  context = context;
  prompt_profile = record { pre_authorized = []; max_allowed = []; allow_user_prompts = true };
  prompter = none;
  timeout_prompter = none;
  limits = record {
    default_timeout = 60;
    tool_timeouts = [];
    soft_timeout_ratio = 0;
    soft_timeout_policy = prompt;
    soft_timeout_extension = none;
    prompt_timeout_secs = 30;
  };
}

abbrev asked : ScheduleCreateRequest
asked = record {
  name = none;
  schedule_type = codes "interval";
  schedule_expr = codes "60";
  task_prompt = codes "look";
  session_id = none;
  channel_id = none;
  enabled = none;
  max_executions = none;
  capabilities = none;
  metadata = none;
}

abbrev identities : Identities
identities = (codes "secret", codes "me") ∷ []

schedule_create-Settled_example :
    Settled [] (IsOwned env true profile kernel []) (authenticate identities headers) (
      schedule_create env true profile kernel asked
        (admit identities (some 5) 0 headers fresh.limiter).0
        [])
schedule_create-Settled_example =
    schedule_create-Settled env true profile kernel identities (some 5) 0 headers fresh.limiter []
      asked

schedule_cancel-Settled_example :
    Settled
      (new_job ∷ [])
      (IsCancelled env true profile kernel false (codes "job") (new_job ∷ []))
      (authenticate identities headers)
      (schedule_cancel env true profile kernel false
        (codes "job")
        (admit identities (some 5) 0 headers fresh.limiter).0
        (new_job ∷ []))
schedule_cancel-Settled_example =
    schedule_cancel-Settled env true profile kernel identities (some 5) 0 headers fresh.limiter
      (new_job ∷ []) false (codes "job")

abbrev chats : Chat.Surroundings
chats = record {
  config = record {
    enable_user_memories = none;
    context_budget_tokens = none;
    max_session_messages = none;
    max_user_memories = none;
    include_summary_on_truncation = none;
    include_tool_messages = none;
  };
  load_user_memories = λ user_id limit. none;
  load_session_summary = λ session_id. none;
  show_calls = λ content. content;
  capabilities = [];
  now = 5;
  enforced = true;
}

abbrev empty : Tables
empty = record { sessions = []; messages = [] }

empty-IsOrdered : IsOrdered empty
unfolding messages_of
empty-IsOrdered id = tt

abbrev hello : PromptMessageRequest
hello = record { message = codes "hello"; session_id = none }

prompt_message-IsRemembered_example :
    IsRemembered chats
      (λ prompt. ok (codes "hi"))
      hello
      (ok (codes "me"))
      empty
      (prompt_message chats (λ prompt. ok (codes "hi")) hello (ok (codes "me")) empty)
prompt_message-IsRemembered_example =
    prompt_message-IsRemembered chats (λ prompt. ok (codes "hi")) hello (ok (codes "me")) empty
      empty-IsOrdered

prompt_message-IsOrdered_example :
    IsOrdered (prompt_message chats (λ prompt. ok (codes "hi")) hello (ok (codes "me")) empty).1
prompt_message-IsOrdered_example =
    prompt_message-IsOrdered chats (λ prompt. ok (codes "hi")) hello (ok (codes "me")) empty
      empty-IsOrdered

finish_chat-collides_example :
    (let first = begin_chat chats (codes "me") (codes "api:me") (codes "one") empty in
      let second = begin_chat chats (codes "me") (codes "api:me") (codes "two") first.1.1 in
      history
        (codes "api:me")
        (finish_chat chats (codes "api:me") (codes "answer") first.1.0 second.1.1)
      ≡ history (codes "api:me") empty
        ++ message_of user (codes "one") (next_seq (history (codes "api:me") empty))
          ∷ message_of user (codes "two") (next_seq (history (codes "api:me") empty) + 1)
          ∷ message_of assistant (codes "answer") (next_seq (history (codes "api:me") empty) + 1)
          ∷ [])
finish_chat-collides_example =
    finish_chat-collides chats (codes "api:me") empty (empty-IsOrdered (codes "api:me"))
      (codes "me") (codes "me") (codes "one") (codes "two") (codes "answer")

abbrev three : Tables
three = record {
  sessions = [];
  messages =
      record { session_id = codes "api:me"; message = message_of user (codes "one") 0 }
      ∷ record { session_id = codes "api:you"; message = message_of user (codes "two") 0 }
      ∷ record { session_id = codes "api:me"; message = message_of assistant (codes "three") 1 }
      ∷ [];
}

get_messages-latest_example :
    get_messages (codes "api:me") 1 three
    ≡ drop
        (length (messages_of (codes "api:me") three.messages) - 1)
        (messages_of (codes "api:me") three.messages)
unfolding messages_of
get_messages-latest_example = get_messages-latest (codes "api:me") 1 three (omega arith)
