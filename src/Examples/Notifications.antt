-- ===== src/Examples/Notifications.antt =====
-- A queue with one item that failed twice, and a run of it.
use picobot.Base.{ℕ, Text, codes, ◌+◌, ◌≤◌, List, [], ◌∷◌, none, refl, arith}
use picobot.Notifications.Queue.{Request, Entry, QueueItem, Config, Queue, pending, sent}
use picobot.Notifications.Worker.{Drain, rejected, process_item, here, send}
use picobot.Notifications.Delivery.Drained.{IsDrained, Answered, Drain-IsDrained}
use picobot.Notifications.Delivery.{IsLive, Drain-le, potential}

abbrev request : Request
request = record { user_id = codes "me"; channel_id = codes "repl"; message = codes "hi" }

abbrev item : QueueItem
item = record { id = codes "n1"; request = request; attempts = 2 }

abbrev settings : Config
settings = record { max_attempts = 3; base_backoff = 500; max_backoff = 30_000; max_records = 2 }

abbrev entry_of : Text → Entry
entry_of id = record {
  id = id;
  user_id = codes "me";
  channel_id = codes "repl";
  status = pending;
  attempts = 2;
  last_error = none;
  updated_at = 0;
}

abbrev done_entry : Entry
done_entry = record (entry_of (codes "n0")) { status = sent }

abbrev queue : Queue
queue = record {
  items = item ∷ [];
  sleeping = [];
  records = entry_of (codes "n1") ∷ [];
  config = settings;
}

queue-IsLive : IsLive queue
queue-IsLive = record { items = (omega arith, tt); sleeping = tt }

abbrev after_one : Queue
after_one = process_item item (rejected (codes "down")) 1 2 (record queue { items = [] })

Drain-le_example : 1 + potential after_one ≤ potential queue
Drain-le_example =
    Drain-le {q = queue} {n = 1} {r = after_one}
      (send {r = queue} item [] (rejected (codes "down")) 1 2 here refl) queue-IsLive

abbrev three : List Entry
three = entry_of (codes "a") ∷ done_entry ∷ entry_of (codes "b") ∷ []

Drain-IsDrained_example :
    (k : ℕ) × ((s : Queue) × ((d : Drain queue k s) × (Answered queue
            (λ i. rejected (codes "down"))
            1
            2
            d
          × IsDrained s)))
Drain-IsDrained_example = Drain-IsDrained queue (λ i. rejected (codes "down")) 1 2 queue-IsLive
