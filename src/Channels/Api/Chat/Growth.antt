-- ===== src/Channels/Api/Chat/Growth.antt =====
-- The table of messages when messages are added to a session.
use mathlib.Core.List.{append_assoc}
use picobot.Base.{
  Text, ℕ, ◌+◌, ◌-◌, ◌≤◌, ◌<◌, Bool, true, false, List, [], ◌∷◌, ◌++◌, none, some, keep, any, find,
  All, drop, length, text_eq, text_eq_refl, eq_of_text_eq, if◌then◌else◌, ◌≡◌, refl, sym, ap, ◌∙◌,
  subst, arith, Bool-cases, inl, inr,
}
use picobot.Session.Memory.{MessageType, StoredMessage}
use picobot.Session.Manager.{Session, MessageRow, Tables, is_session, append_message, messages_of}
use picobot.Session.Manager.History.{IsBefore, IsBefore-append, IsAscending, drop_by}
use picobot.Channels.Api.Chat.{last_seq, next_seq, message_of}

abbrev pub history : Text → Tables → List StoredMessage
history id tables = messages_of id tables.messages

abbrev pub has_session : Text → Tables → Bool
has_session id tables = any (is_session id) tables.sessions

abbrev pub row_of : Text → StoredMessage → MessageRow
row_of session_id message = record { session_id = session_id; message = message }

abbrev pub add_row : Text → StoredMessage → Tables → Tables
add_row session_id message tables = record tables {
  messages = tables.messages ++ row_of session_id message ∷ [];
}

-- The order number of a new message is above those before it.
above :
    (m : StoredMessage) (ms : List StoredMessage)
    → IsBefore m ms
    → All (λ n. m.seq_order + 1 ≤ n.seq_order) ms
above m [] h = tt
above m (n ∷ ms) h = (omega (arith, h.0), above m ms h.1)

le-last_seq :
    (k : ℕ) (ms : List StoredMessage)
    → All (λ m. k ≤ m.seq_order) ms
    → IsAscending ms
    → k ≤ last_seq k ms
le-last_seq k [] h a = omega arith
le-last_seq k (m ∷ ms) h a =
    omega (arith, le-last_seq (m.seq_order + 1) ms (above m ms a.0) a.1, h.0)

last_seq-drop :
    (k : ℕ) (m : StoredMessage) (ms : List StoredMessage)
    → last_seq k (drop (length ms) (m ∷ ms)) ≡ last_seq k (m ∷ ms)
last_seq-drop k m [] = refl
last_seq-drop k m (n ∷ ms) = last_seq-drop k n ms

pub next_seq-latest : (ms : List StoredMessage) → next_seq (drop (length ms - 1) ms) ≡ next_seq ms
unfolding next_seq
next_seq-latest [] = ap (last_seq 0) (drop_by (0 - 1) 0 [] (omega arith))
next_seq-latest (m ∷ ms) =
    ap (last_seq 0) (drop_by (length (m ∷ ms) - 1) (length ms) (m ∷ ms) (omega arith))
    ∙ last_seq-drop 0 m ms

All-below :
    (k : ℕ) (ms : List StoredMessage) → IsAscending ms → All (λ m. m.seq_order < last_seq k ms) ms
All-below k [] a = tt
All-below k (m ∷ ms) a = (
  omega (arith, le-last_seq (m.seq_order + 1) ms (above m ms a.0) a.1),
  All-below (m.seq_order + 1) ms a.1,
)

IsAscending-snoc :
    (ms : List StoredMessage) (m : StoredMessage)
    → IsAscending ms
    → All (λ n. n.seq_order < m.seq_order) ms
    → IsAscending (ms ++ m ∷ [])
IsAscending-snoc [] m a h = (tt, tt)
IsAscending-snoc (n ∷ ms) m a h =
    (IsBefore-append n ms (m ∷ []) a.0 (h.0, tt), IsAscending-snoc ms m a.1 h.1)

-- The messages of a session after a row was added.
messages_of-snoc :
    (id session_id : Text) (m : StoredMessage) (rows : List MessageRow)
    → messages_of id (rows ++ row_of session_id m ∷ [])
      ≡ (if text_eq session_id id then messages_of id rows ++ m ∷ [] else messages_of id rows)
unfolding messages_of keep
messages_of-snoc id session_id m [] = ground arith
messages_of-snoc id session_id m (row ∷ rows) = elim (Bool-cases (text_eq row.session_id id)) [
  | inl e ↦ rw (e, messages_of-snoc id session_id m rows) (ground arith)
  | inr e ↦ rw (e) (messages_of-snoc id session_id m rows)
]

-- In a session that is there, a message is stored.
pub append_message-stored :
    (enforced : Bool) (id : Text) (m : StoredMessage) (tables : Tables)
    → has_session id tables ≡ true
    → append_message enforced id m tables ≡ some (add_row id m tables)
unfolding append_message
append_message-stored enforced id m tables h = rw (h) (ground arith)

pub find-any :
    (id : Text) (sessions : List Session) (session : Session)
    → find (is_session id) sessions ≡ some session
    → any (is_session id) sessions ≡ true
unfolding find any
find-any id [] session h = cc
find-any id (s ∷ sessions) session h = ground (arith, find-any id sessions session)

pub find-none :
    (id : Text) (sessions : List Session)
    → find (is_session id) sessions ≡ none
    → any (is_session id) sessions ≡ false
unfolding find any
find-none id [] h = refl
find-none id (s ∷ sessions) h = ground (arith, find-none id sessions)

-- Messages were added to one session, and to no other.
abbrev pub HasGrown : Text → List StoredMessage → Tables → Tables → Type 0
HasGrown id ms tables rows =
    (other : Text)
    → history other rows
      ≡ (if text_eq id other then history other tables ++ ms else history other tables)

if_append :
    (b : Bool) (h : List StoredMessage) (m n : StoredMessage)
    → (if b then (if b then h ++ m ∷ [] else h) ++ n ∷ [] else (if b then h ++ m ∷ [] else h))
      ≡ (if b then h ++ m ∷ n ∷ [] else h)
if_append true h m n = append_assoc h (m ∷ []) (n ∷ [])
if_append false h m n = refl

pub HasGrown-add_row :
    (id : Text) (m : StoredMessage) (tables rows : Tables)
    → rows.messages ≡ (add_row id m tables).messages
    → HasGrown id (m ∷ []) tables rows
HasGrown-add_row id m tables rows e other =
    ap (messages_of other) e ∙ messages_of-snoc other id m tables.messages

pub HasGrown-twice :
    (id : Text) (m n : StoredMessage) (tables middle rows : Tables)
    → HasGrown id (m ∷ []) tables middle
    → HasGrown id (n ∷ []) middle rows
    → HasGrown id (m ∷ n ∷ []) tables rows
HasGrown-twice id m n tables middle rows g h other =
    h other
    ∙ ap (λ t. if text_eq id other then t ++ n ∷ [] else t) (g other)
    ∙ if_append (text_eq id other) (history other tables) m n

-- Every session's messages rise.
abbrev pub IsOrdered : Tables → Type 0
IsOrdered tables = (id : Text) → IsAscending (history id tables)

-- A message with the next number keeps the order.
pub HasGrown-IsOrdered :
    (id : Text) (m : StoredMessage) (tables rows : Tables)
    → HasGrown id (m ∷ []) tables rows
    → m.seq_order ≡ next_seq (history id tables)
    → IsOrdered tables
    → IsOrdered rows
unfolding next_seq
HasGrown-IsOrdered id m tables rows g e o other =
    subst IsAscending (sym (g other)) (by_session (text_eq id other) refl)
  where
    by_session :
        (b : Bool)
        → text_eq id other ≡ b
        → IsAscending (if b then history other tables ++ m ∷ [] else history other tables)
    by_session false h = o other
    by_session true h = IsAscending-snoc (history other tables) m (o other) (
        subst (λ k. All (λ n. n.seq_order < k) (history other tables))
          (sym (e ∙ ap (λ t. next_seq (history t tables)) (eq_of_text_eq id other h)))
          (All-below 0 (history other tables) (o other)))

-- Two messages with the next two numbers keep it as well.
IsAscending-pair :
    (s t : MessageType) (a b : Text) (k : ℕ) (ms : List StoredMessage)
    → IsAscending ms
    → All (λ n. n.seq_order < k) ms
    → IsAscending (ms ++ message_of s a k ∷ message_of t b (k + 1) ∷ [])
IsAscending-pair s t a b k [] h below = ((omega arith, tt), (tt, tt))
IsAscending-pair s t a b k (n ∷ ms) h below = (
  IsBefore-append n ms (message_of s a k ∷ message_of t b (k + 1) ∷ []) h.0
      (below.0, (omega (arith, below.0), tt)),
  IsAscending-pair s t a b k ms h.1 below.1,
)

pub HasGrown-pair :
    (id : Text) (s t : MessageType) (a b : Text) (tables rows : Tables)
    → HasGrown id
        (message_of s a (next_seq (history id tables))
          ∷ message_of t b (next_seq (history id tables) + 1)
          ∷ [])
        tables
        rows
    → IsOrdered tables
    → IsOrdered rows
unfolding next_seq
HasGrown-pair id s t a b tables rows g o other =
    subst IsAscending (sym (g other)) (by_session (text_eq id other) refl)
  where
    by_session :
        (c : Bool)
        → text_eq id other ≡ c
        → IsAscending (
            if c
            then history other tables
              ++ message_of s a (next_seq (history id tables))
                ∷ message_of t b (next_seq (history id tables) + 1)
                ∷ []
            else history other tables)
    by_session false h = o other
    by_session true h =
        IsAscending-pair s t a b (next_seq (history id tables)) (history other tables) (o other) (
          subst (λ k. All (λ n. n.seq_order < k) (history other tables))
            (sym (ap (λ u. next_seq (history u tables)) (eq_of_text_eq id other h)))
            (All-below 0 (history other tables) (o other)))

-- The messages of the session that has grown, and the next number.
pub grown_own :
    (id : Text) (ms : List StoredMessage) (tables rows : Tables)
    → HasGrown id ms tables rows
    → history id rows ≡ history id tables ++ ms
grown_own id ms tables rows g = g id ∙ rw (text_eq_refl id) refl

last_seq-snoc :
    (k : ℕ) (ms : List StoredMessage) (m : StoredMessage)
    → last_seq k (ms ++ m ∷ []) ≡ m.seq_order + 1
last_seq-snoc k [] m = refl
last_seq-snoc k (n ∷ ms) m = last_seq-snoc (n.seq_order + 1) ms m

pub next_seq-snoc :
    (ms : List StoredMessage) (m : StoredMessage) → next_seq (ms ++ m ∷ []) ≡ m.seq_order + 1
unfolding next_seq
next_seq-snoc ms m = last_seq-snoc 0 ms m

pub IsAscending-next :
    (t : MessageType) (a : Text) (ms : List StoredMessage)
    → IsAscending ms
    → IsAscending (ms ++ message_of t a (next_seq ms) ∷ [])
unfolding next_seq
IsAscending-next t a ms h = IsAscending-snoc ms (message_of t a (next_seq ms)) h (All-below 0 ms h)
