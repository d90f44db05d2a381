-- ===== src/Session/Memories.antt =====
-- src/tools/memory.rs: the tool that saves, lists and deletes what the agent remembers of a user,
-- and the table `user_memories` that it acts on. The clock is a parameter, and so is SQLite's
-- `ORDER BY updated_at DESC`.
pub mod Table
use picobot.Base.{
  Text, codes, ℕ, suc, Bool, true, false, List, [], ◌∷◌, ◌++◌, Option, none, some, map, take, keep,
  not, ltb, all, ◌==◌, ◌&&◌, ◌||◌, if◌then◌else◌, byte_len, text_eq, starts_with,
  is_ascii_lowercase, is_ascii_digit, length,
}
use picobot.Kernel.Permission.{Permission, memory_read, memory_write, MemoryScope}
use picobot.Kernel.Permission.MemoryScope.{user}
use picobot.Kernel.Capability.{ToolContext}
use picobot.Kernel.Tool.{Result, ok, err, ◌>>=◌}
use picobot.Tools.Input.{Input, Done, ok_or, str_field, fail}

-- A row of `user_memories`
pub record Memory : Type 0 where
  pub user_id : Text
  pub key : Text
  pub content : Text
  pub source_session_id : Option Text
  pub created_at : Text
  pub updated_at : Text

abbrev pub Memories : Type 0
Memories = List Memory

abbrev pub is_at : Text → Text → Memory → Bool
is_at user_id key row = text_eq row.user_id user_id && text_eq row.key key

-- The statement of `save_memory`: a row is inserted, or the one with its key is updated.
unfoldable pub upsert : Memory → Memories → Memories
upsert new [] = new ∷ []
upsert new (row ∷ rows) =
    let rest = upsert new rows in
    if is_at new.user_id new.key row
    then record row {
      content = new.content;
      source_session_id = new.source_session_id;
      updated_at = new.updated_at;
    }
      ∷ rows
    else row ∷ rest

-- The outputs of the tool
pub data Output : Type 0 where
  memories : List (Text × (Text × Text)) → Output
  saved : Text → Output
  deleted : Text → ℕ → Output

-- `save_memory`
unfoldable pub save_memory : Text → ToolContext → Text → Text → Text → Memories → Output × Memories
unfolding upsert
save_memory now ctx user_id key content rows = (
  saved key,
  upsert
      (record {
        user_id = user_id;
        key = key;
        content = content;
        source_session_id = ctx.session_id;
        created_at = now;
        updated_at = now;
      })
      rows,
)

-- `delete_memory`
unfoldable pub delete_memory : Text → Text → Memories → Output × Memories
unfolding keep
delete_memory user_id key rows = (
  deleted key (length (keep (is_at user_id key) rows)),
  keep (λ row. not (is_at user_id key row)) rows,
)

abbrev pub of_user : Text → Memory → Bool
of_user user_id row = text_eq row.user_id user_id

-- `list_memories`
unfoldable pub list_memories : (Memories → Memories) → Text → Memories → Output × Memories
unfolding keep
list_memories order user_id rows = (
  memories
      (map (λ row. (row.key, (row.content, row.updated_at))) (order (keep (of_user user_id) rows))),
  rows,
)

-- `load_user_memories` of src/session/memory.rs
unfoldable pub load_user_memories : (Memories → Memories) → Text → ℕ → Memories → List (Text × Text)
unfolding keep
load_user_memories order user_id max_items rows =
    map (λ row. (row.key, row.content)) (take max_items (order (keep (of_user user_id) rows)))

abbrev key_char : ℕ → Bool
key_char c = is_ascii_lowercase c || is_ascii_digit c || c == b'_'

-- The tests of `validate_key` on the characters
unfoldable validate_chars : Text → Result Done
unfolding all
validate_chars [] = fail (codes "key required")
validate_chars (first ∷ chars) =
    if not (is_ascii_lowercase first)
    then fail (codes "key must start with a lowercase letter")
    else if not (all key_char chars)
    then fail (codes "key must be lowercase alphanumeric or underscore")
    else ok tt

-- `validate_key`
unfoldable validate_key : Text → Result Done
unfolding byte_len starts_with validate_chars
validate_key key =
    if ltb 64 (byte_len key)
    then fail (codes "key too long")
    else if starts_with (codes "system_") key || starts_with (codes "internal_") key
    then fail (codes "key prefix is reserved")
    else validate_chars key

-- `MemoryTool::required_permissions`
unfoldable permission_of : Text → Result (List Permission)
unfolding text_eq
permission_of action =
    if text_eq action (codes "list")
    then ok (memory_read user ∷ [])
    else if text_eq action (codes "save") || text_eq action (codes "delete")
    then ok (memory_write user ∷ [])
    else fail (codes "invalid action")

unfoldable pub required_permissions : Input → Result (List Permission)
unfolding permission_of
required_permissions input =
    str_field input (codes "action") (codes "missing action") >>= permission_of

-- What a valid request asks for: the match of `execute` on the action
pub data Request : Type 0 where
  list_all : Request
  save : Text → Text → Request
  delete : Text → Request

unfoldable pub request_of : Input → Text → Result Request
unfolding text_eq validate_key
request_of input action =
    if text_eq action (codes "list")
    then ok list_all
    else if text_eq action (codes "save")
    then (str_field input (codes "key") (codes "missing key") >>= λ key.
        str_field input (codes "content") (codes "missing content") >>= λ content.
        validate_key key >>= λ u. ok (save key content))
    else if text_eq action (codes "delete")
    then (str_field input (codes "key") (codes "missing key") >>= λ key.
        validate_key key >>= λ u. ok (delete key))
    else fail (codes "invalid action")

-- The action, then the user, then the arguments, in the order in which `execute` reads them
unfoldable pub read_request : ToolContext → Input → Result (Text × Request)
unfolding request_of
read_request ctx input = str_field input (codes "action") (codes "missing action") >>= λ action.
    ok_or (codes "missing user_id") ctx.user_id >>= λ user_id.
    request_of input action >>= λ request. ok (user_id, request)

module _ (order : Memories → Memories) (now : Text) (ctx : ToolContext) where
  unfoldable pub perform : Text → Request → Memories → Output × Memories
  unfolding list_memories save_memory delete_memory
  perform user_id list_all rows = list_memories order user_id rows
  perform user_id (save key content) rows = save_memory now ctx user_id key content rows
  perform user_id (delete key) rows = delete_memory user_id key rows

  unfoldable pub perform_request : Result (Text × Request) → Memories → Result Output × Memories
  unfolding perform
  perform_request (err e) rows = (err e, rows)
  perform_request (ok (user_id, request)) rows =
      (ok (perform user_id request rows).0, (perform user_id request rows).1)

  -- `MemoryTool::execute`
  unfoldable pub execute : Input → Memories → Result Output × Memories
  unfolding perform_request read_request
  execute input rows = perform_request (read_request ctx input) rows
