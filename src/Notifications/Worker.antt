-- ===== src/Notifications/Worker.antt =====
-- src/notifications/service.rs: the worker, one round of its loop at a time, and the queue with all
-- that can happen to it.
use picobot.Base.{Text, ℕ, suc, ◌+◌, List, [], ◌∷◌, ◌++◌, none, some, leb, ◌≡◌, if◌then◌else◌}
use picobot.Notifications.Queue.{
  Request, QueueItem, Queue, sending, sent, failed, pending, enqueue, record_status, retry,
}

-- What `NotificationChannel::send` returns.
pub data SendResult : Type 0 where
  delivered : SendResult
  rejected : Text → SendResult

-- The match on the result of `send`; `item` has the attempts that were made before.
unfoldable pub after_send : QueueItem → SendResult → ℕ → Queue → Queue
unfolding record_status retry
after_send item delivered now queue = record_status item.id sent (item.attempts + 1) none now queue
after_send item (rejected error) now queue =
    let item' = record item { attempts = item.attempts + 1 } in
    if leb queue.config.max_attempts item'.attempts
    then record_status item'.id failed item'.attempts (some error) now queue
    else retry item' (record_status item'.id pending item'.attempts (some error) now queue)

-- The body of the loop of `worker_loop` for an item: it is marked at the time `start`, and the
-- result of `send` is there at the time `now`.
unfoldable pub process_item : QueueItem → SendResult → ℕ → ℕ → Queue → Queue
unfolding record_status after_send
process_item item result start now queue =
    after_send item result now (record_status item.id sending item.attempts none start queue)

-- A step of the queue: a request comes in, the worker pops the first item and sends it, or an item
-- that waited for its retry goes to the end.
pub data Step (q : Queue) : Queue → Type 0 where
  enqueued : (id : Text) (now : ℕ) (request : Request) → Step q (enqueue id now request q)
  worked :
      (item : QueueItem) (rest : List QueueItem) (result : SendResult) (start now : ℕ)
      → q.items ≡ item ∷ rest
      → Step q (process_item item result start now (record q { items = rest }))
  woke :
      (delay : ℕ) (item : QueueItem) (before after : List (ℕ × QueueItem))
      → q.sleeping ≡ before ++ (delay, item) ∷ after
      → Step q (record q { sleeping = before ++ after; items = q.items ++ item ∷ [] })

-- A run without new requests, with the number of calls of `send`.
pub data Drain (q : Queue) : ℕ → Queue → Type 0 where
  here : Drain q 0 q
  send :
      {n : ℕ} {r : Queue} (item : QueueItem) (rest : List QueueItem) (result : SendResult)
      (start now : ℕ)
      → Drain q n r
      → r.items ≡ item ∷ rest
      → Drain q (suc n) (process_item item result start now (record r { items = rest }))
  wake :
      {n : ℕ} {r : Queue} (delay : ℕ) (item : QueueItem) (before after : List (ℕ × QueueItem))
      → Drain q n r
      → r.sleeping ≡ before ++ (delay, item) ∷ after
      → Drain q n (record r { sleeping = before ++ after; items = r.items ++ item ∷ [] })
