-- ===== src/Channels/Api/Chat.antt =====
-- src/channels/api.rs: `prompt_message_handler`, in two parts between which the model is asked, and
-- other requests may come in. The model's answer, or the error of building or prompting the agent,
-- is a parameter; usage events are left out.
pub mod Growth
pub mod Remembers
pub mod Collision
use picobot.Base.{
  Text, codes, ℕ, ◌+◌, Bool, true, false, List, [], ◌∷◌, ◌++◌, Option, none, some, keep, not,
  if◌then◌else◌,
}
use picobot.Kernel.Capability.{CapabilitySet}
use picobot.Session.Memory.{
  MessageType, user, assistant, tool, StoredMessage, MemoryConfig, build_context, to_prompt_snippet,
}
use picobot.Session.Manager.{
  Session, Tables, create_session, get_session, touch, append_message, get_messages,
}
use picobot.Tools.Input.{unwrap_or}
use picobot.Channels.Api.{Answer, ok, refused, default_session_id, validate_session_id}

-- `PromptMessageRequest`
pub record PromptMessageRequest : Type 0 where
  pub message : Text
  pub session_id : Option Text

-- What the handler reads of its state: the configuration, the user's memories by a limit, the
-- summary of a session, the printer of tool calls, the kernel's capabilities, the clock, and
-- whether foreign keys are enforced.
pub record Surroundings : Type 0 where
  pub config : MemoryConfig
  pub load_user_memories : Text → ℕ → Option (List (Text × Text))
  pub load_session_summary : Text → Option Text
  pub show_calls : Text → Text
  pub capabilities : CapabilitySet
  pub now : ℕ
  pub enforced : Bool

-- The order number of a new message
abbrev last_seq : ℕ → List StoredMessage → ℕ
last_seq next [] = next
last_seq next (m ∷ ms) = last_seq (m.seq_order + 1) ms

unfoldable pub next_seq : List StoredMessage → ℕ
next_seq messages = last_seq 0 messages

abbrev is_tool : MessageType → Bool
is_tool tool = true
is_tool _ = false

abbrev pub message_of : MessageType → Text → ℕ → StoredMessage
message_of message_type content seq_order = record {
  message_type = message_type;
  content = content;
  tool_call_id = none;
  seq_order = seq_order;
  token_estimate = none;
}

-- The order number for the next message, and the tables, after a message was or was not stored
abbrev stored : ℕ → Tables → Option Tables → ℕ × Tables
stored seq_order tables none = (seq_order, tables)
stored seq_order tables (some rows) = (seq_order + 1, rows)

abbrev stored_or_not : Tables → Option Tables → Tables
stored_or_not tables none = tables
stored_or_not tables (some rows) = rows

abbrev with_context : Text → Option Text → Text
with_context message none = message
with_context message (some context) =
    codes "Context:\n" ++ (context ++ (codes "\n\nUser: " ++ message))

module _ (env : Surroundings) where
  -- The session of the request, made where there is none
  unfoldable pub open_session : Text → Text → Tables → Option Session → Tables
  unfolding create_session
  open_session user_id session_id tables (some session) = tables
  open_session user_id session_id tables none =
      (create_session env.enforced env.now session_id (codes "api") (codes "api") user_id
        env.capabilities tables).1

  -- The prompt that is sent
  unfoldable prompt_to_send : Text → Text → Text → Tables → Text
  unfolding get_messages keep build_context to_prompt_snippet
  prompt_to_send user_id session_id message tables =
      let existing =
        get_messages session_id (unwrap_or 50 env.config.max_session_messages) tables in
      let filtered =
        if unwrap_or true env.config.include_tool_messages
        then existing
        else keep (λ m. not (is_tool m.message_type)) existing in
      with_context message (
        to_prompt_snippet env.show_calls (
          build_context env.config (some user_id) (env.load_user_memories user_id)
            (env.load_session_summary session_id) filtered))

  -- The handler up to the call of the model: the prompt, the order number for the answer, and the
  -- tables
  unfoldable pub begin_chat : Text → Text → Text → Tables → Text × (ℕ × Tables)
  unfolding open_session get_session prompt_to_send next_seq get_messages append_message
  begin_chat user_id session_id message tables =
      let opened = open_session user_id session_id tables (get_session session_id tables) in
      let seq_order = next_seq (get_messages session_id 1 opened) in
      (
        prompt_to_send user_id session_id message opened,
        stored seq_order opened
            (append_message env.enforced session_id (message_of user message seq_order) opened),
      )

  -- The handler after the model has answered
  unfoldable pub finish_chat : Text → Text → ℕ → Tables → Tables
  unfolding append_message touch
  finish_chat session_id response seq_order tables = touch session_id env.now (
      stored_or_not tables
        (append_message env.enforced session_id (message_of assistant response seq_order) tables))

  abbrev finish : Text → ℕ → Tables → Answer Text → Answer (Text × Text) × Tables
  finish session_id seq_order tables (refused code reason) = (refused code reason, tables)
  finish session_id seq_order tables (ok response) =
      (ok (response, session_id), finish_chat session_id response seq_order tables)

  abbrev chat_in :
      (Text → Answer Text)
      → Text
      → Text
      → Text
      → Tables
      → Answer {0} Unit
      → Answer (Text × Text) × Tables
  chat_in model user_id session_id message tables (refused code reason) =
      (refused code reason, tables)
  chat_in model user_id session_id message tables (ok valid) =
      let begun = begin_chat user_id session_id message tables in
      finish session_id begun.1.0 begun.1.1 (model begun.0)

  -- `prompt_message_handler`, by the answer of `admit`, where no other request comes in between
  unfoldable pub prompt_message :
      (Text → Answer Text)
      → PromptMessageRequest
      → Answer Text
      → Tables
      → Answer (Text × Text) × Tables
  unfolding begin_chat finish_chat validate_session_id default_session_id
  prompt_message model payload (refused code reason) tables = (refused code reason, tables)
  prompt_message model payload (ok user_id) tables =
      let session_id = unwrap_or (default_session_id user_id) payload.session_id in
      chat_in model user_id session_id payload.message tables
        (validate_session_id session_id user_id)
