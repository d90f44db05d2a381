-- ===== src/Channels/Api/Chat/Collision.antt =====
-- Two chats in one session at the same time.
use mathlib.Core.List.{append_assoc}
use picobot.Base.{Text, ℕ, ◌+◌, List, [], ◌∷◌, ◌++◌, ◌≡◌, sym, ap, ◌∙◌, subst}
use picobot.Session.Memory.{user, assistant, StoredMessage}
use picobot.Session.Manager.{Tables}
use picobot.Session.Manager.History.{IsAscending}
use picobot.Channels.Api.Chat.{Surroundings, next_seq, message_of, begin_chat, finish_chat}
use picobot.Channels.Api.Chat.Growth.{
  history, HasGrown-add_row, grown_own, next_seq-snoc, IsAscending-next,
}
use picobot.Channels.Api.Chat.Remembers.{asking, begun, begun-HasGrown, begun-has_session, finished}

three :
    (h : List StoredMessage) (a b c : StoredMessage)
    → ((h ++ a ∷ []) ++ b ∷ []) ++ c ∷ [] ≡ h ++ a ∷ b ∷ c ∷ []
three h a b c =
    ap (λ t. t ++ c ∷ []) (append_assoc h (a ∷ []) (b ∷ [])) ∙ append_assoc h (a ∷ b ∷ []) (c ∷ [])

module _ (env : Surroundings) (id : Text) (tables : Tables)
    (ascending : IsAscending (history id tables)) where
  abbrev seq : ℕ
  seq = next_seq (history id tables)

  -- After the first message: the history, its order, and the next number.
  first_history :
      (user_id message : Text)
      → history id (asking env user_id id message tables)
        ≡ history id tables ++ message_of user message seq ∷ []
  first_history user_id message =
      grown_own id (message_of user message seq ∷ []) tables (asking env user_id id message tables)
        (begun-HasGrown env user_id id message tables ascending)

  first-IsAscending :
      (user_id message : Text) → IsAscending (history id (asking env user_id id message tables))
  first-IsAscending user_id message =
      subst IsAscending (sym (first_history user_id message))
        (IsAscending-next user message (history id tables) ascending)

  first_next :
      (user_id message : Text)
      → next_seq (history id (asking env user_id id message tables)) ≡ seq + 1
  first_next user_id message =
      ap next_seq (first_history user_id message)
      ∙ next_seq-snoc (history id tables) (message_of user message seq)

  second_history :
      (user_id other_user message other_message : Text)
      → history id (asking env other_user id other_message (asking env user_id id message tables))
        ≡ (history id tables ++ message_of user message seq ∷ [])
          ++ message_of user other_message (seq + 1) ∷ []
  second_history user_id other_user message other_message =
      let rows = asking env user_id id message tables in
      grown_own id (message_of user other_message (next_seq (history id rows)) ∷ []) rows
        (asking env other_user id other_message rows)
        (begun-HasGrown env other_user id other_message rows (first-IsAscending user_id message))
      ∙ ap (λ t. t ++ message_of user other_message (next_seq (history id rows)) ∷ [])
          (first_history user_id message)
      ∙ ap
          (λ k.
            (history id tables ++ message_of user message seq ∷ [])
            ++ message_of user other_message k ∷ [])
          (first_next user_id message)

  -- When a second request comes in while the model is asked for the first, in a session whose order
  -- numbers rise, the answer to the first gets the order number of the second message.
  pub finish_chat-collides :
      (user_id other_user message other_message response : Text)
      → (let first = begin_chat env user_id id message tables in
          let second = begin_chat env other_user id other_message first.1.1 in
          history id (finish_chat env id response first.1.0 second.1.1)
          ≡ history id tables
            ++ message_of user message (next_seq (history id tables))
              ∷ message_of user other_message (next_seq (history id tables) + 1)
              ∷ message_of assistant response (next_seq (history id tables) + 1)
              ∷ [])
  finish_chat-collides user_id other_user message other_message response =
      let rows = asking env other_user id other_message (asking env user_id id message tables) in
      let k = (begin_chat env user_id id message tables).1.0 in
      let there =
        begun-has_session env other_user id other_message (asking env user_id id message tables)
          (first-IsAscending user_id message) in
      grown_own id (message_of assistant response k ∷ []) rows (finish_chat env id response k rows)
        (HasGrown-add_row id (message_of assistant response k) rows
          (finish_chat env id response k rows) (finished env id response k rows there))
      ∙ ap (λ t. t ++ message_of assistant response k ∷ [])
          (second_history user_id other_user message other_message)
      ∙ ap
          (λ j.
            ((history id tables ++ message_of user message seq ∷ [])
              ++ message_of user other_message (seq + 1) ∷ [])
            ++ message_of assistant response j ∷ [])
          (ap (λ b. b.0) (begun env user_id id message tables ascending))
      ∙ three (history id tables) (message_of user message seq)
          (message_of user other_message (seq + 1)) (message_of assistant response (seq + 1))
