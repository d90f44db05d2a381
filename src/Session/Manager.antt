-- ===== src/Session/Manager.antt =====
-- src/session/manager.rs, with the records of src/session/types.rs: the tables of sessions and
-- messages as the lists of their rows, in the order of insertion, with one function for each SQL
-- statement. Instants are numbers. Whether the connection enforces foreign keys is a parameter:
-- the program asks for it only where it makes the tables. Other failures of the database, the table
-- of usage events, which nothing reads, and that of summaries are left out; limits are below 2^63.
pub mod History
use picobot.Base.{
  Text, ℕ, ◌+◌, Bool, true, false, List, [], ◌∷◌, ◌++◌, Option, none, some, map, not, ◌&&◌, ltb,
  leb, text_eq, any, find, keep, take, if◌then◌else◌,
}
use picobot.Kernel.Capability.{CapabilitySet}
use picobot.Session.Memory.{StoredMessage}

-- `SessionState`
pub data SessionState : Type 0 where
  active idle : SessionState
  awaiting_permission : Text → Text → SessionState

-- `Session`
pub record Session : Type 0 where
  pub id : Text
  pub channel_type : Text
  pub channel_id : Text
  pub user_id : Text
  pub permissions : CapabilitySet
  pub created_at : ℕ
  pub last_active : ℕ
  pub state : SessionState

-- A row of `messages`
pub record MessageRow : Type 0 where
  pub session_id : Text
  pub message : StoredMessage

pub record Tables : Type 0 where
  pub sessions : List Session
  pub messages : List MessageRow

abbrev pub is_session : Text → Session → Bool
is_session id session = text_eq session.id id

abbrev is_message_of : Text → MessageRow → Bool
is_message_of id row = text_eq row.session_id id

-- `insert_session`: a row that is replaced takes its messages with it, where keys are enforced.
unfoldable insert_session : Bool → Session → Tables → Tables
unfolding any keep text_eq
insert_session enforced session tables = record {
  sessions = keep (λ row. not (is_session session.id row)) tables.sessions ++ session ∷ [];
  messages =
      if enforced && any (is_session session.id) tables.sessions
      then keep (λ row. not (is_message_of session.id row)) tables.messages
      else tables.messages;
}

-- `SessionManager::create_session`
unfoldable pub create_session :
    Bool → ℕ → Text → Text → Text → Text → CapabilitySet → Tables → Session × Tables
unfolding insert_session
create_session enforced now id channel_type channel_id user_id permissions tables =
    let session : Session = record {
      id = id;
      channel_type = channel_type;
      channel_id = channel_id;
      user_id = user_id;
      permissions = permissions;
      created_at = now;
      last_active = now;
      state = active;
    } in
    (session, insert_session enforced session tables)

-- `SessionManager::get_session`
unfoldable pub get_session : Text → Tables → Option Session
unfolding find text_eq
get_session id tables = find (is_session id) tables.sessions

-- `SessionManager::touch`
abbrev touched : Text → ℕ → Session → Session
touched id now session =
    if is_session id session then record session { last_active = now } else session

unfoldable pub touch : Text → ℕ → Tables → Tables
unfolding text_eq
touch id now tables = record tables { sessions = map (touched id now) tables.sessions }

-- `SessionManager::append_message`; `none` is the error of a key that is not there
unfoldable pub append_message : Bool → Text → StoredMessage → Tables → Option Tables
unfolding any text_eq
append_message enforced session_id message tables =
    if enforced && not (any (is_session session_id) tables.sessions)
    then none
    else some (record tables {
      messages = tables.messages ++ record { session_id = session_id; message = message } ∷ [];
    })

-- `ORDER BY seq_order DESC`; among equals, the one inserted first comes first
unfoldable pub insert_desc : StoredMessage → List StoredMessage → List StoredMessage
insert_desc m [] = m ∷ []
insert_desc m (n ∷ ns) = if ltb m.seq_order n.seq_order then n ∷ insert_desc m ns else m ∷ n ∷ ns

unfoldable pub order_desc : List StoredMessage → List StoredMessage
unfolding insert_desc
order_desc [] = []
order_desc (m ∷ ms) = insert_desc m (order_desc ms)

-- `sort_by_key` by `seq_order`
unfoldable pub insert_asc : StoredMessage → List StoredMessage → List StoredMessage
insert_asc m [] = m ∷ []
insert_asc m (n ∷ ns) = if leb m.seq_order n.seq_order then m ∷ n ∷ ns else n ∷ insert_asc m ns

unfoldable pub sort_by_key : List StoredMessage → List StoredMessage
unfolding insert_asc
sort_by_key [] = []
sort_by_key (m ∷ ms) = insert_asc m (sort_by_key ms)

-- `WHERE session_id = ?1`
unfoldable pub messages_of : Text → List MessageRow → List StoredMessage
unfolding keep text_eq
messages_of id rows = map (λ row. row.message) (keep (is_message_of id) rows)

-- `SessionManager::get_messages`
unfoldable pub get_messages : Text → ℕ → Tables → List StoredMessage
unfolding sort_by_key order_desc messages_of
get_messages session_id limit tables =
    sort_by_key (take limit (order_desc (messages_of session_id tables.messages)))
