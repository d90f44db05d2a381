-- ===== src/Tools/Notify/Recipient.antt =====
-- To whom the tool sends.
use picobot.Base.{
  [], ◌∷◌, ◌++◌, Text, codes, ℕ, true, false, Option, none, some, text_eq, eq_of_text_eq, ◌≡◌, refl,
  ◌⊎◌, inl, inr, Bool-cases,
}
use picobot.Kernel.Capability.{ToolContext, allows_identity_override}
use picobot.Kernel.Tool.{ToolError, Result, ok, err, ◌>>=◌}
use picobot.Notifications.Queue.{Queue, Request, pending, prune_records, enqueue}
use picobot.Tools.Input.{Input, ok_or, str_field}
use picobot.Tools.Identity.{chosen_user, user_of}
use picobot.Tools.Promises.{Holds, Holds-bind}
use picobot.Tools.Notify.{
  own_channel, chosen_channel, read_channel, read_request, State, enqueue_to, send, execute,
}

-- A text that is chosen is the context's, where no other may be.
chosen_user-own :
    (own : Text) (given : Option Text) → Holds (λ u. u ≡ own) (chosen_user false own given)
unfolding chosen_user
chosen_user-own own none = refl
chosen_user-own own (some given) = elim (Bool-cases (text_eq given own)) [
  | inl e ↦ rw (e) (eq_of_text_eq given own e)
  | inr e ↦ rw (e) tt
]

chosen_channel-own :
    (own : Text) (given : Option Text) → Holds (λ c. c ≡ own) (chosen_channel false own given)
unfolding chosen_channel
chosen_channel-own own none = refl
chosen_channel-own own (some given) = elim (Bool-cases (text_eq given own)) [
  | inl e ↦ rw (e) (eq_of_text_eq given own e)
  | inr e ↦ rw (e) tt
]

module _ (ctx : ToolContext) (own channel : Text)
    (plain : allows_identity_override ctx.execution_mode ≡ false) (user : ctx.user_id ≡ some own)
    (from : own_channel ctx ≡ some channel) where
  user_of-own : (given : Option Text) → Holds (λ u. u ≡ own) (user_of ctx given)
  unfolding user_of
  user_of-own given = rw (user, plain) (chosen_user-own own given)

  read_channel-own : (given : Option Text) → Holds (λ c. c ≡ channel) (read_channel ctx given)
  unfolding read_channel
  read_channel-own given = rw (from, plain) (chosen_channel-own channel given)

  -- A request to the context's own user, by its own channel, with the message of the input
  abbrev IsOwnRequest : Input → Request → Type 0
  IsOwnRequest input request =
      (input.str (codes "message") ≡ some request.message)
      × (request.user_id ≡ own)
      × (request.channel_id ≡ channel)

  message-given : (o : Option Text) → Holds (λ m. o ≡ some m) (ok_or (codes "missing message") o)
  message-given none = tt
  message-given (some message) = refl

  read_request-IsOwnRequest : (input : Input) → Holds (IsOwnRequest input) (read_request ctx input)
  unfolding read_request
  read_request-IsOwnRequest input =
      Holds-bind (λ m. input.str (codes "message") ≡ some m) (IsOwnRequest input)
        (str_field input (codes "message") (codes "missing message"))
        (λ message. user_of ctx (input.str (codes "user_id")) >>= λ user_id.
          read_channel ctx (input.str (codes "channel_id")) >>= λ channel_id.
          ok (record { user_id = user_id; channel_id = channel_id; message = message }))
        (message-given (input.str (codes "message")))
        (λ message m.
          Holds-bind (λ u. u ≡ own) (IsOwnRequest input) (user_of ctx (input.str (codes "user_id")))
            (λ user_id. read_channel ctx (input.str (codes "channel_id")) >>= λ channel_id.
              ok (record { user_id = user_id; channel_id = channel_id; message = message }))
            (user_of-own (input.str (codes "user_id")))
            (λ user_id h.
              Holds-bind (λ c. c ≡ channel) (IsOwnRequest input)
                (read_channel ctx (input.str (codes "channel_id")))
                (λ channel_id.
                  ok (record { user_id = user_id; channel_id = channel_id; message = message }))
                (read_channel-own (input.str (codes "channel_id"))) (λ channel_id g. (m, h, g))))

  -- A queue with one more item, that no attempt was made for, at its end, and a pending record of it
  -- after the others, which are pruned; what waits for a retry and the configuration are the same.
  abbrev IsEnqueued : Text → ℕ → Request → Queue → Queue → Type 0
  IsEnqueued id now request before after =
      (after.items ≡ before.items ++ record { id = id; request = request; attempts = 0 } ∷ [])
      × (after.sleeping ≡ before.sleeping)
      × (after.config ≡ before.config)
      × (after.records
          ≡ prune_records before.config.max_records (
              before.records
              ++ record {
                id = id;
                user_id = own;
                channel_id = channel;
                status = pending;
                attempts = 0;
                last_error = none;
                updated_at = now;
              }
                ∷ []))

  -- What the tool does: nothing, and it fails, for want of a service or of a request, or it adds one request of its own and notes that it did.
  abbrev pub IsSent : Text → ℕ → Input → State → Result Text × State → Type 0
  IsSent id now input state out =
      ((e : ToolError) × (out.0 ≡ err e)
        × (out.1 ≡ state)
        × ((state.service ≡ none) ⊎ (read_request ctx input ≡ err e)))
      ⊎ ((before : Queue) × (after : Queue) × (request : Request) × IsOwnRequest input request
          × (state.service ≡ some before)
          × (out.1.service ≡ some after)
          × IsEnqueued id now request before after
          × (out.0 ≡ ok id)
          × (out.1.used ≡ true))

  enqueue-IsEnqueued :
      (id : Text) (now : ℕ) (input : Input) (request : Request) (queue : Queue)
      → IsOwnRequest input request
      → IsEnqueued id now request queue (enqueue id now request queue)
  unfolding enqueue
  enqueue-IsEnqueued id now input request queue (m, u, c) = (refl, refl, refl, rw (u, c) refl)

  enqueue_to-IsSent :
      (id : Text) (now : ℕ) (input : Input) (state : State) (request : Request) (s : Option Queue)
      → IsOwnRequest input request
      → state.service ≡ s
      → IsSent id now input state (enqueue_to id now state request s)
  unfolding enqueue_to
  enqueue_to-IsSent id now input state request none h e = inl (_, refl, refl, inl e)
  enqueue_to-IsSent id now input state request (some queue) h e = inr (
    queue,
    enqueue id now request queue,
    request,
    h,
    e,
    refl,
    enqueue-IsEnqueued id now input request queue h,
    refl,
    refl,
  )

  send-IsSent :
      (id : Text) (now : ℕ) (input : Input) (state : State) (r : Result Request)
      → read_request ctx input ≡ r
      → Holds (IsOwnRequest input) r
      → IsSent id now input state (send id now state r)
  unfolding send
  send-IsSent id now input state (err e) q h = inl (e, refl, refl, inr q)
  send-IsSent id now input state (ok request) q h =
      enqueue_to-IsSent id now input state request state.service h refl

  -- Where the context may not act for others, a call fails and changes nothing, for want of a service
  -- or because its input is refused, or it adds one item to the end of the queue and a pending record
  -- to the records, which are pruned, both to the context's own user by its own channel, with the
  -- message of the input, and sets the flag that a notification was sent; whatever user and channel
  -- the input names.
  pub execute-IsSent :
      (id : Text) (now : ℕ) (input : Input) (state : State)
      → IsSent id now input state (execute id now ctx input state)
  unfolding execute
  execute-IsSent id now input state =
      send-IsSent id now input state (read_request ctx input) refl (read_request-IsOwnRequest input)
