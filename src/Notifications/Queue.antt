-- ===== src/Notifications/Queue.antt =====
-- src/notifications/queue.rs: the queue. One `Queue` is the state behind the locks; an item that
-- waits for its retry is in `sleeping`, with its delay in milliseconds. Identifiers and times are
-- arguments. The wake-up of a waiting worker (`Notify`) is left out.
use picobot.Base.{
  Text, ℕ, ◌-◌, ◌*◌, ◌^◌, ◌%◌, min, Bool, true, false, List, [], ◌∷◌, ◌++◌, Option, none, ◌&&◌, ltb,
  leb, ◌==◌, text_eq, length, drop, find, if◌then◌else◌,
}

-- `NotificationRequest` of src/notifications/channel.rs
pub record Request : Type 0 where
  pub user_id : Text
  pub channel_id : Text
  pub message : Text

-- `NotificationStatus`
pub data Status : Type 0 where
  pending sending sent failed : Status

-- `NotificationRecord`
pub record Entry : Type 0 where
  pub id : Text
  pub user_id : Text
  pub channel_id : Text
  pub status : Status
  pub attempts : ℕ
  pub last_error : Option Text
  pub updated_at : ℕ

-- `QueueItem`
pub record QueueItem : Type 0 where
  pub id : Text
  pub request : Request
  pub attempts : ℕ

-- `NotificationQueueConfig`; times in milliseconds
pub record Config : Type 0 where
  pub max_attempts : ℕ
  pub base_backoff : ℕ
  pub max_backoff : ℕ
  pub max_records : ℕ

-- `NotificationQueue`
pub record Queue : Type 0 where
  pub items : List QueueItem
  pub sleeping : List (ℕ × QueueItem)
  pub records : List Entry
  pub config : Config

unfoldable pub is_finished : Status → Bool
is_finished sent = true
is_finished failed = true
is_finished _ = false

-- The loop of `prune_records`: the oldest finished records go, as many as are in excess.
unfoldable pub drop_finished : ℕ → List Entry → List Entry
unfolding is_finished
drop_finished excess [] = []
drop_finished excess (r ∷ rs) =
    let fewer = drop_finished (excess - 1) rs in
    let kept = r ∷ drop_finished excess rs in
    if ltb 0 excess && is_finished r.status then fewer else kept

-- `prune_records`
unfoldable pub prune_records : ℕ → List Entry → List Entry
unfolding drop_finished
prune_records max_records records =
    if max_records == 0
    then []
    else if leb (length records) max_records
    then records
    else (let kept = drop_finished (length records - max_records) records in
        if ltb max_records (length kept) then drop (length kept - max_records) kept else kept)

-- `enqueue`; the identifier is the one that it makes up
unfoldable pub enqueue : Text → ℕ → Request → Queue → Queue
unfolding prune_records
enqueue id now request queue =
    let entry : Entry = record {
      id = id;
      user_id = request.user_id;
      channel_id = request.channel_id;
      status = pending;
      attempts = 0;
      last_error = none;
      updated_at = now;
    } in
    record queue {
      records = prune_records queue.config.max_records (queue.records ++ entry ∷ []);
      items = queue.items ++ record { id = id; request = request; attempts = 0 } ∷ [];
    }

unfoldable pub set_status : Text → Status → ℕ → Option Text → ℕ → List Entry → List Entry
unfolding text_eq
set_status id status attempts last_error now [] = []
set_status id status attempts last_error now (r ∷ rs) =
    if text_eq r.id id
    then record r {
      status = status;
      attempts = attempts;
      last_error = last_error;
      updated_at = now;
    }
      ∷ rs
    else r ∷ set_status id status attempts last_error now rs

-- `record_status`; its result only feeds the log
unfoldable pub record_status : Text → Status → ℕ → Option Text → ℕ → Queue → Queue
unfolding set_status
record_status id status attempts last_error now queue = record queue {
  records = set_status id status attempts last_error now queue.records;
}

abbrev u64_max : ℕ
u64_max = 2 ^ 64 - 1

-- `compute_backoff`, in milliseconds: the casts to u32 and u64 wrap, the product saturates.
unfoldable pub compute_backoff : ℕ → Config → ℕ
compute_backoff attempt config =
    let exp = (attempt - 1) % 2 ^ 32 in
    let multiplier = 2 ^ min exp 10 in
    let base = config.base_backoff % 2 ^ 64 in
    let backoff = min (base * multiplier) u64_max in min backoff (config.max_backoff % 2 ^ 64)

-- `retry`: the item sleeps, and is pushed to the queue when its delay is over.
unfoldable pub retry : QueueItem → Queue → Queue
unfolding compute_backoff
retry item queue = record queue {
  sleeping = queue.sleeping ++ (compute_backoff item.attempts queue.config, item) ∷ [];
}

-- The record of an identifier
unfoldable pub get_record : Text → Queue → Option Entry
unfolding find text_eq
get_record id queue = find (λ r. text_eq r.id id) queue.records
