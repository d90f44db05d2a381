-- ===== src/Session/Memory.antt =====
-- src/session/memory.rs and the message types of src/session/types.rs: the context of a prompt,
-- cut to a budget of tokens. What the store returns is a parameter.
pub mod Budget
use picobot.Base.{
  Text, codes, ℕ, ◌+◌, ◌-◌, ◌/◌, Bool, true, false, List, [], ◌∷◌, ◌++◌, Option, none, some, map,
  length, drop, ltb, ◌==◌, ◌&&◌, if◌then◌else◌, join, byte_len, text_eq,
}
use picobot.Tools.Input.{unwrap_or}

-- `MessageType`, with `as_str` and `parse`
pub data MessageType : Type 0 where
  system user assistant assistant_tool_calls tool : MessageType

unfoldable pub as_str : MessageType → Text
as_str system = codes "system"
as_str user = codes "user"
as_str assistant = codes "assistant"
as_str assistant_tool_calls = codes "assistant_tool_calls"
as_str tool = codes "tool"

unfoldable pub parse : Text → Option MessageType
unfolding text_eq
parse value =
    if text_eq value (codes "system")
    then some system
    else if text_eq value (codes "user")
    then some user
    else if text_eq value (codes "assistant")
    then some assistant
    else if text_eq value (codes "assistant_tool_calls")
    then some assistant_tool_calls
    else if text_eq value (codes "tool")
    then some tool
    else none

-- `StoredMessage`; its order is not negative
pub record StoredMessage : Type 0 where
  pub message_type : MessageType
  pub content : Text
  pub tool_call_id : Option Text
  pub seq_order : ℕ
  pub token_estimate : Option ℕ

-- `MemoryConfig`
pub record MemoryConfig : Type 0 where
  pub enable_user_memories : Option Bool
  pub context_budget_tokens : Option ℕ
  pub max_session_messages : Option ℕ
  pub max_user_memories : Option ℕ
  pub include_summary_on_truncation : Option Bool
  pub include_tool_messages : Option Bool

-- `estimate_tokens`: a token for every four bytes begun, per message
abbrev pub tokens_of : StoredMessage → ℕ
tokens_of message = (byte_len message.content + 3) / 4

unfoldable pub estimate_tokens : List StoredMessage → ℕ
estimate_tokens [] = 0
estimate_tokens (message ∷ messages) = tokens_of message + estimate_tokens messages

-- The loop of `apply_budget`, on the first message and the others: while they are over the budget,
-- the one after the first is removed.
unfoldable pub drop_second : ℕ → StoredMessage → List StoredMessage → List StoredMessage
unfolding estimate_tokens
drop_second budget first [] = first ∷ []
drop_second budget first (second ∷ rest) =
    let fewer = drop_second budget first rest in
    if ltb budget (estimate_tokens (first ∷ second ∷ rest)) then fewer else first ∷ second ∷ rest

unfoldable pub apply_within : ℕ → List StoredMessage → List StoredMessage
unfolding drop_second
apply_within budget [] = []
apply_within budget (first ∷ rest) =
    if budget == 0 then first ∷ rest else drop_second budget first rest

-- `apply_budget`
unfoldable apply_budget : MemoryConfig → List StoredMessage → List StoredMessage
unfolding apply_within
apply_budget config messages = apply_within (unwrap_or 4000 config.context_budget_tokens) messages

abbrev pub system_message : Text → StoredMessage
system_message content = record {
  message_type = system;
  content = content;
  tool_call_id = none;
  seq_order = 0;
  token_estimate = none;
}

abbrev memory_line : Text × Text → Text
memory_line (key, content) = codes "- " ++ (key ++ (codes ": " ++ content))

-- The first message of the context: the user's memories, as `load_user_memories` returned them
unfoldable memories_message : Bool → Option Text → Option (List (Text × Text)) → List StoredMessage
unfolding join
memories_message true (some user_id) (some (m ∷ memories)) =
    system_message (codes "User memories:\n" ++ join (codes "\n") (map memory_line (m ∷ memories)))
    ∷ []
memories_message _ _ _ = []

-- The second: the summary of the session, if messages are left out
unfoldable summary_message : Bool → ℕ → Option Text → List StoredMessage
summary_message include start none = []
summary_message include start (some summary) =
    if include && ltb 0 start
    then system_message (codes "Session summary:\n" ++ summary) ∷ []
    else []

-- `build_context`. `load` is `load_user_memories` for the user, by the limit (`none` is an error),
-- and `summary` what `load_session_summary` returns.
unfoldable pub build_context :
    MemoryConfig
    → Option Text
    → (ℕ → Option (List (Text × Text)))
    → Option Text
    → List StoredMessage
    → List StoredMessage
unfolding apply_budget memories_message summary_message
build_context config user_id load summary session_messages =
    let start = length session_messages - unwrap_or 20 config.max_session_messages in
    apply_budget config (
      memories_message (unwrap_or true config.enable_user_memories) user_id
        (load (unwrap_or 50 config.max_user_memories))
      ++ (summary_message (unwrap_or true config.include_summary_on_truncation) start summary
          ++ drop start session_messages))

-- A line of `to_prompt_snippet`. `show_calls` prints the content of a message with tool calls: its
-- JSON if it is one, else an object with the text.
abbrev tool_label : Option Text → Text
tool_label none = codes "[tool] "
tool_label (some id) = codes "[tool:" ++ (id ++ codes "] ")

unfoldable snippet_line : (Text → Text) → StoredMessage → MessageType → Text
snippet_line show_calls message system = codes "[system] " ++ message.content
snippet_line show_calls message user = codes "[user] " ++ message.content
snippet_line show_calls message assistant = codes "[assistant] " ++ message.content
snippet_line show_calls message assistant_tool_calls =
    codes "[assistant_tool_calls] " ++ show_calls message.content
snippet_line show_calls message tool = tool_label message.tool_call_id ++ message.content

-- `to_prompt_snippet`
unfoldable pub to_prompt_snippet : (Text → Text) → List StoredMessage → Option Text
unfolding snippet_line join
to_prompt_snippet show_calls [] = none
to_prompt_snippet show_calls (m ∷ messages) = some (
    join (codes "\n")
      (map (λ message. snippet_line show_calls message message.message_type) (m ∷ messages)))
