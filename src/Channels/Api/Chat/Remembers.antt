-- ===== src/Channels/Api/Chat/Remembers.antt =====
-- What a chat leaves in the table of messages.
use picobot.Base.{
  Text, ℕ, ◌+◌, true, [], ◌∷◌, ◌++◌, Option, none, some, keep, any, find, not, text_eq_refl,
  any-append, ◌≡◌, ◌⊎◌, refl, sym, ap, ◌∙◌, subst, arith, inl, inr,
}
use picobot.Session.Memory.{user, assistant}
use picobot.Session.Manager.{
  Session, Tables, is_session, get_session, append_message, messages_of, get_messages, touch,
}
use picobot.Session.Manager.History.{IsAscending, get_messages-latest}
use picobot.Tools.Input.{unwrap_or}
use picobot.Channels.Api.{Answer, ok, refused, validate_session_id, default_session_id}
use picobot.Channels.Api.Chat.{
  PromptMessageRequest, finish, chat_in, prompt_message, Surroundings, next_seq, message_of, stored,
  open_session, begin_chat, finish_chat,
}
use picobot.Channels.Api.Chat.Growth.{
  history, has_session, row_of, add_row, next_seq-latest, append_message-stored, find-any,
  find-none, HasGrown, HasGrown-add_row, HasGrown-twice, IsOrdered, HasGrown-pair,
  HasGrown-IsOrdered,
}

module _ (env : Surroundings) where
  -- Opening a session makes it be there, and leaves the messages.
  abbrev pub opened : Text → Text → Tables → Tables
  opened user_id id tables = open_session env user_id id tables (get_session id tables)

  opened_by :
      (user_id id : Text) (tables : Tables) (found : Option Session)
      → find (is_session id) tables.sessions ≡ found
      → (has_session id (open_session env user_id id tables found) ≡ true)
        × ((open_session env user_id id tables found).messages ≡ tables.messages)
  unfolding open_session any
  opened_by user_id id tables (some session) e = (find-any id tables.sessions session e, refl)
  opened_by user_id id tables none e = (
    any-append (is_session id) (keep (λ row. not (is_session id row)) tables.sessions) _
        ∙ rw (text_eq_refl id) (ground arith),
    rw (find-none id tables.sessions e) (ground arith),
  )

  pub opened_lem :
      (user_id id : Text) (tables : Tables)
      → (has_session id (opened user_id id tables) ≡ true)
        × ((opened user_id id tables).messages ≡ tables.messages)
  unfolding get_session
  opened_lem user_id id tables = opened_by user_id id tables (get_session id tables) refl

  pub begun :
      (user_id id message : Text) (tables : Tables)
      → IsAscending (history id tables)
      → (begin_chat env user_id id message tables).1 ≡ (
        next_seq (history id tables) + 1,
        add_row id
            (message_of user message (next_seq (history id tables)))
            (opened user_id id tables),
      )
  unfolding begin_chat
  begun user_id id message tables a =
      let rows = opened user_id id tables in
      let there = opened_lem user_id id tables in
      let same : history id rows ≡ history id tables = ap (messages_of id) there.1 in
      let seq : next_seq (get_messages id 1 rows) ≡ next_seq (history id tables) =
        ap next_seq (get_messages-latest id 1 rows (subst IsAscending (sym same) a))
        ∙ next_seq-latest (history id rows)
        ∙ ap next_seq same in
      ap (λ k. stored k rows (append_message env.enforced id (message_of user message k) rows)) seq
      ∙ ap (stored (next_seq (history id tables)) rows) (
          append_message-stored env.enforced id
            (message_of user message (next_seq (history id tables))) rows there.0)

  pub finished :
      (id response : Text) (k : ℕ) (tables : Tables)
      → has_session id tables ≡ true
      → (finish_chat env id response k tables).messages
        ≡ (add_row id (message_of assistant response k) tables).messages
  unfolding finish_chat touch
  finished id response k tables h =
      rw (append_message-stored env.enforced id (message_of assistant response k) tables h) refl

  -- The tables when the model is asked.
  abbrev pub asking : Text → Text → Text → Tables → Tables
  asking user_id id message tables = (begin_chat env user_id id message tables).1.1

  pub begun-HasGrown :
      (user_id id message : Text) (tables : Tables)
      → IsAscending (history id tables)
      → HasGrown id
          (message_of user message (next_seq (history id tables)) ∷ [])
          tables
          (asking user_id id message tables)
  begun-HasGrown user_id id message tables a =
      HasGrown-add_row id (message_of user message (next_seq (history id tables))) tables
        (asking user_id id message tables)
        (ap (λ b. b.1.messages) (begun user_id id message tables a)
          ∙ ap (λ t. t ++ row_of id (message_of user message (next_seq (history id tables))) ∷ [])
              (opened_lem user_id id tables).1)

  pub begun-has_session :
      (user_id id message : Text) (tables : Tables)
      → IsAscending (history id tables)
      → has_session id (asking user_id id message tables) ≡ true
  begun-has_session user_id id message tables a =
      ap (λ b. has_session id b.1) (begun user_id id message tables a)
      ∙ (opened_lem user_id id tables).0

  -- The session of a request: the one that it names, or else the user's own
  abbrev pub session_of : PromptMessageRequest → Text → Text
  session_of payload user_id = elim payload.session_id [
    | none ↦ default_session_id user_id
    | some named ↦ named
  ]

  -- What a chat comes to. If it is answered, by the model, the message and the answer are added to
  -- the session of the request, with the next two numbers. It is refused for want of a user or of a
  -- valid session, and adds nothing, or by the model, and adds only the message.
  abbrev pub IsRemembered :
      (Text → Answer Text)
      → PromptMessageRequest
      → Answer Text
      → Tables
      → Answer (Text × Text) × Tables
      → Type 0
  IsRemembered model payload asker tables (ok (response, id), rows) =
      (user_id : Text) × (asker ≡ ok user_id)
      × (id ≡ session_of payload user_id)
      × ((prompt : Text) × (model prompt ≡ ok response))
      × HasGrown id
          (message_of user payload.message (next_seq (history id tables))
            ∷ message_of assistant response (next_seq (history id tables) + 1)
            ∷ [])
          tables rows
  IsRemembered model payload asker tables (refused code reason, rows) =
      ((rows ≡ tables)
        × ((asker ≡ refused code reason)
            ⊎ ((user_id : Text) × (asker ≡ ok user_id)
                × (validate_session_id (session_of payload user_id) user_id
                    ≡ refused code reason))))
      ⊎ ((user_id : Text) × (asker ≡ ok user_id)
          × ((prompt : Text) × (model prompt ≡ refused code reason))
          × HasGrown (session_of payload user_id)
              (message_of user payload.message
                  (next_seq (history (session_of payload user_id) tables))
                ∷ [])
              tables rows)

  module _ (model : Text → Answer Text) (payload : PromptMessageRequest) (user_id : Text)
      (tables : Tables) where
    abbrev id : Text
    id = session_of payload user_id

    finish-IsRemembered :
        (prompt : Text) (answer : Answer Text)
        → model prompt ≡ answer
        → IsAscending (history id tables)
        → IsRemembered model payload (ok user_id) tables (
            finish env id
              (begin_chat env user_id id payload.message tables).1.0
              (asking user_id id payload.message tables)
              answer)
    finish-IsRemembered prompt (refused code reason) m a =
        inr (user_id, refl, (prompt, m), begun-HasGrown user_id id payload.message tables a)
    finish-IsRemembered prompt (ok response) m a =
        let message = payload.message in
        let middle = asking user_id id message tables in
        let n = next_seq (history id tables) in
        let k = (begin_chat env user_id id message tables).1.0 in
        let rows = finish_chat env id response k middle in
        (
          user_id,
          refl,
          refl,
          (prompt, m),
          HasGrown-twice id (message_of user message n) (message_of assistant response (n + 1))
              tables middle rows (begun-HasGrown user_id id message tables a)
              (subst (λ j. HasGrown id (message_of assistant response j ∷ []) middle rows)
                (ap (λ b. b.0) (begun user_id id message tables a))
                (HasGrown-add_row id (message_of assistant response k) middle rows
                  (finished id response k middle (begun-has_session user_id id message tables a)))),
        )

    chat_in-IsRemembered :
        (valid : Answer {0} Unit)
        → validate_session_id id user_id ≡ valid
        → IsAscending (history id tables)
        → IsRemembered model payload
            (ok user_id)
            tables
            (chat_in env model user_id id payload.message tables valid)
    chat_in-IsRemembered (refused code reason) v a = inl (refl, inr (user_id, refl, v))
    chat_in-IsRemembered (ok valid) v a =
        let prompt = (begin_chat env user_id id payload.message tables).0 in
        finish-IsRemembered prompt (model prompt) refl a

    chat_with-IsRemembered :
        (chosen : Text)
        → session_of payload user_id ≡ chosen
        → IsOrdered tables
        → IsRemembered model payload (ok user_id) tables (
            chat_in env model user_id chosen payload.message tables
              (validate_session_id chosen user_id))
    chat_with-IsRemembered chosen e o =
        subst
          (λ c.
            IsRemembered model payload (ok user_id) tables
              (chat_in env model user_id c payload.message tables (validate_session_id c user_id)))
          e (chat_in-IsRemembered (validate_session_id id user_id) refl (o id))

  session_of-unwrap_or :
      (payload : PromptMessageRequest) (user_id : Text)
      → session_of payload user_id ≡ unwrap_or (default_session_id user_id) payload.session_id
  session_of-unwrap_or payload user_id = ground arith

  -- Where the messages of every session were stored with rising order numbers, and no other request
  -- comes in between, a chat that is answered is by a user who was admitted, with an answer of the
  -- model, and it adds the message and the answer, with the next two numbers, to the session that the
  -- request names, or to the user's own if it names none, and nothing to any other session. A chat
  -- that is refused because the user or the session was leaves the tables as they were; one that the
  -- model refused adds only the message, to that session.
  pub prompt_message-IsRemembered :
      (model : Text → Answer Text) (payload : PromptMessageRequest) (asker : Answer Text)
      (tables : Tables)
      → IsOrdered tables
      → IsRemembered model payload asker tables (prompt_message env model payload asker tables)
  unfolding prompt_message
  prompt_message-IsRemembered model payload (refused code reason) tables o = inl (refl, inl refl)
  prompt_message-IsRemembered model payload (ok user_id) tables o =
      chat_with-IsRemembered model payload user_id tables
        (unwrap_or (default_session_id user_id) payload.session_id)
        (session_of-unwrap_or payload user_id) o

  by_order :
      (model : Text → Answer Text) (payload : PromptMessageRequest) (asker : Answer Text)
      (tables : Tables) (out : Answer (Text × Text) × Tables)
      → IsRemembered model payload asker tables out
      → IsOrdered tables
      → IsOrdered out.1
  by_order model payload asker tables (refused code reason, rows) (inl (e, why)) o =
      subst IsOrdered (sym e) o
  by_order model payload asker tables (refused code reason, rows) (inr (user_id, q, m, g)) o =
      let id = session_of payload user_id in
      HasGrown-IsOrdered id (message_of user payload.message (next_seq (history id tables))) tables
        rows g refl o
  by_order model payload asker tables (ok (response, id), rows) (user_id, q, e, m, g) o =
      HasGrown-pair id user assistant payload.message response tables rows g o

  -- Without other requests in between, a chat keeps the order numbers of every session rising,
  -- whether it is answered or refused.
  pub prompt_message-IsOrdered :
      (model : Text → Answer Text) (payload : PromptMessageRequest) (asker : Answer Text)
      (tables : Tables)
      → IsOrdered tables
      → IsOrdered (prompt_message env model payload asker tables).1
  prompt_message-IsOrdered model payload asker tables o =
      by_order model payload asker tables (prompt_message env model payload asker tables)
        (prompt_message-IsRemembered model payload asker tables o) o
