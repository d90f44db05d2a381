-- ===== src/Notifications/Delivery.antt =====
-- How often a notification is sent, and what its record says.
pub mod Drained
use mathlib.Core.Option
use picobot.Base.{
  Text, ℕ, suc, ◌+◌, ◌-◌, ◌≤◌, ◌<◌, max, List, [], ◌∷◌, ◌++◌, Option, none, some, leb, ◌≡◌, ap,
  subst, arith, All, text_eq, text_eq_left, text_eq_comm, find, if◌then◌else◌, Bool-cases, inl, inr,
}
use picobot.Notifications.Queue.{
  QueueItem, Queue, Entry, Status, sending, sent, failed, pending, enqueue, record_status,
  set_status, retry, get_record, Config, compute_backoff,
}
use picobot.Notifications.Worker.{
  SendResult, delivered, rejected, after_send, process_item, Step, enqueued, worked, woke, Drain,
  here, send, wake,
}

-- The number of times that an item may be sent at most.
abbrev pub limit : Config → ℕ
limit config = max config.max_attempts 1

-- The sends that are left for an item.
abbrev pub left : Config → QueueItem → ℕ
left config item = limit config - item.attempts

abbrev pub left_items : Config → List QueueItem → ℕ
left_items config [] = 0
left_items config (item ∷ items) = left config item + left_items config items

abbrev pub left_sleeping : Config → List (ℕ × QueueItem) → ℕ
left_sleeping config [] = 0
left_sleeping config ((d, item) ∷ items) = left config item + left_sleeping config items

abbrev pub potential : Queue → ℕ
potential q = left_items q.config q.items + left_sleeping q.config q.sleeping

-- Every item that is still to be sent has attempts left.
pub record IsLive (q : Queue) : Type 0 where
  pub items : All (λ (i : QueueItem). i.attempts < limit q.config) q.items
  pub sleeping : All (λ (s : ℕ × QueueItem). s.1.attempts < limit q.config) q.sleeping

All-append {ℓ κ} :
    {A : Type ℓ} (P : A → Type κ) (xs ys : List A) → All P xs → All P ys → All P (xs ++ ys)
All-append P [] ys h k = k
All-append P (x ∷ xs) ys h k = (h.0, All-append P xs ys h.1 k)

All-left {ℓ κ} : {A : Type ℓ} (P : A → Type κ) (xs ys : List A) → All P (xs ++ ys) → All P xs
All-left P [] ys h = tt
All-left P (x ∷ xs) ys h = (h.0, All-left P xs ys h.1)

All-right {ℓ κ} : {A : Type ℓ} (P : A → Type κ) (xs ys : List A) → All P (xs ++ ys) → All P ys
All-right P [] ys h = h
All-right P (x ∷ xs) ys h = All-right P xs ys h.1

left_items-append :
    (c : Config) (xs ys : List QueueItem)
    → left_items c (xs ++ ys) ≡ left_items c xs + left_items c ys
left_items-append c [] ys = omega arith
left_items-append c (x ∷ xs) ys = omega (arith, left_items-append c xs ys)

left_sleeping-append :
    (c : Config) (xs ys : List (ℕ × QueueItem))
    → left_sleeping c (xs ++ ys) ≡ left_sleeping c xs + left_sleeping c ys
left_sleeping-append c [] ys = omega arith
left_sleeping-append c ((d, x) ∷ xs) ys = omega (arith, left_sleeping-append c xs ys)

-- Processing an item uses up one of its sends.
process_item-potential :
    (item : QueueItem) (result : SendResult) (start now : ℕ) (q : Queue)
    → item.attempts < limit q.config
    → suc (potential (process_item item result start now q)) ≤ potential q + left q.config item
unfolding process_item after_send record_status retry
process_item-potential item delivered start now q h = omega arith
process_item-potential item (rejected e) start now q h =
    let item' : QueueItem = record item { attempts = item.attempts + 1 } in
    let entry : List (ℕ × QueueItem) = (compute_backoff (item.attempts + 1) q.config, item') ∷ [] in
    elim (Bool-cases (leb q.config.max_attempts (item.attempts + 1))) [
      | inl f ↦ rw f (omega arith)
      | inr f ↦ rw f (omega (arith, left_sleeping-append q.config q.sleeping entry))
    ]

process_item-IsLive :
    (item : QueueItem) (result : SendResult) (start now : ℕ) (q : Queue)
    → item.attempts < limit q.config
    → IsLive q
    → IsLive (process_item item result start now q)
unfolding process_item after_send record_status retry
process_item-IsLive item delivered start now q h v = record {
  items = v.items;
  sleeping = v.sleeping;
}
process_item-IsLive item (rejected e) start now q h v =
    elim (Bool-cases (leb q.config.max_attempts (item.attempts + 1))) [
      | inl f ↦ rw f (record { items = v.items; sleeping = v.sleeping })
      | inr f ↦ rw f (record {
        items = v.items;
        sleeping = All-append _ q.sleeping _ v.sleeping (ground arith, tt);
      })
    ]

woke-IsLive :
    (q : Queue) (delay : ℕ) (item : QueueItem) (before after : List (ℕ × QueueItem))
    → q.sleeping ≡ before ++ (delay, item) ∷ after
    → IsLive q
    → IsLive (record q { sleeping = before ++ after; items = q.items ++ item ∷ [] })
woke-IsLive q delay item before after e v =
    let all = subst (All (λ (s : ℕ × QueueItem). s.1.attempts < limit q.config)) e v.sleeping in
    let later = All-right _ before ((delay, item) ∷ after) all in
    record {
      items = All-append _ q.items _ v.items (later.0, tt);
      sleeping = All-append _ before after (All-left _ before ((delay, item) ∷ after) all) later.1;
    }

worked-IsLive :
    (q : Queue) (item : QueueItem) (rest : List QueueItem) (result : SendResult) (start now : ℕ)
    → q.items ≡ item ∷ rest
    → IsLive q
    → IsLive (process_item item result start now (record q { items = rest }))
worked-IsLive q item rest result start now e v =
    let all = subst (All (λ (i : QueueItem). i.attempts < limit q.config)) e v.items in
    process_item-IsLive item result start now (record q { items = rest }) all.0
      (record { items = all.1; sleeping = v.sleeping })

-- Whatever comes in, is sent or wakes up: if no item that was sent as often as the configuration
-- allows was in the queue, or waited for a retry, none is or does so afterwards.
Step-IsLive : {q r : Queue} → Step q r → IsLive q → IsLive r
unfolding enqueue
Step-IsLive {q} (enqueued id now request) v = record {
  items = All-append _ q.items _ v.items (omega arith, tt);
  sleeping = v.sleeping;
}
Step-IsLive {q} (worked item rest result start now e) v =
    worked-IsLive q item rest result start now e v
Step-IsLive {q} (woke delay item before after e) v = woke-IsLive q delay item before after e v

Drain-IsLive : {q : Queue} {n : ℕ} {r : Queue} → Drain q n r → IsLive q → IsLive r
Drain-IsLive here v = v
Drain-IsLive (send {r = r} item rest result start now d e) v =
    worked-IsLive r item rest result start now e (Drain-IsLive d v)
Drain-IsLive (wake {r = r} delay item before after d e) v =
    woke-IsLive r delay item before after e (Drain-IsLive d v)

-- Without new requests, and from a queue whose items all have sends left, the number of sends is
-- bounded by the sends that the items have left, whatever the channel answers and however the
-- retries interleave.
pub Drain-le :
    {q : Queue} {n : ℕ} {r : Queue} → Drain q n r → IsLive q → n + potential r ≤ potential q
Drain-le here v = omega arith
Drain-le {q} (send {n = n} {r = r} item rest result start now d e) v =
    let all =
      subst (All (λ (i : QueueItem). i.attempts < limit r.config)) e (Drain-IsLive d v).items in
    omega (
      arith,
      Drain-le d v,
      process_item-potential item result start now (record r { items = rest }) all.0,
      ap (left_items r.config) e,
    )
Drain-le {q} (wake {n = n} {r = r} delay item before after d e) v = omega (
  arith,
  Drain-le d v,
  ap (left_sleeping r.config) e,
  left_sleeping-append r.config before ((delay, item) ∷ after),
  left_sleeping-append r.config before after,
  left_items-append r.config r.items (item ∷ []),
)

set_status-find :
    (id : Text) (status : Status) (attempts : ℕ) (error : Option Text) (now : ℕ) (rs : List Entry)
    (j : Text)
    → find (λ (r : Entry). text_eq r.id j) (set_status id status attempts error now rs) ≡ (
        if text_eq id j
        then Option.map
            (λ (r : Entry). record r {
              status = status;
              attempts = attempts;
              last_error = error;
              updated_at = now;
            })
            (find (λ (r : Entry). text_eq r.id j) rs)
        else find (λ (r : Entry). text_eq r.id j) rs)
unfolding set_status find
set_status-find id status attempts error now [] j = ground arith
set_status-find id status attempts error now (r ∷ rs) j = elim (Bool-cases (text_eq r.id id)) [
  | inl a ↦ ground (arith, a, text_eq_left r.id id j a)
  | inr a ↦ elim (Bool-cases (text_eq r.id j)) [
    | inl b ↦ ground (arith, a, b, text_eq_left r.id j id b, text_eq_comm j id)
    | inr b ↦ ground (arith, a, b, set_status-find id status attempts error now rs j)
  ]
]

-- Of two writes to one record the second counts.
set_status-twice :
    (id : Text) (t : Status) (b : ℕ) (d : Option Text) (start : ℕ) (status : Status) (attempts : ℕ)
    (error : Option Text) (now : ℕ) (rs : List Entry) (j : Text)
    → find
        (λ (r : Entry). text_eq r.id j)
        (set_status id status attempts error now (set_status id t b d start rs))
      ≡ (if text_eq id j
          then Option.map
              (λ (r : Entry). record r {
                status = status;
                attempts = attempts;
                last_error = error;
                updated_at = now;
              })
              (find (λ (r : Entry). text_eq r.id j) rs)
          else find (λ (r : Entry). text_eq r.id j) rs)
set_status-twice id t b d start status attempts error now rs j = ground (
  arith,
  set_status-find id status attempts error now (set_status id t b d start rs) j,
  set_status-find id t b d start rs j,
)

-- The status that a record is left with.
abbrev status_after : Config → QueueItem → SendResult → Status
status_after config item delivered = sent
status_after config item (rejected error) =
    if leb config.max_attempts (item.attempts + 1) then failed else pending

abbrev error_after : SendResult → Option Text
error_after delivered = none
error_after (rejected error) = some error

-- A round of the worker counts one attempt in the record of its item, and writes whether it was
-- sent, failed for good or waits for a retry, with the channel's error; no other record changes.
process_item-record :
    (item : QueueItem) (result : SendResult) (start now : ℕ) (q : Queue) (id : Text)
    → get_record id (process_item item result start now q) ≡ (
        if text_eq item.id id
        then Option.map
            (λ (r : Entry). record r {
              status = status_after q.config item result;
              attempts = item.attempts + 1;
              last_error = error_after result;
              updated_at = now;
            })
            (get_record id q)
        else get_record id q)
unfolding process_item after_send record_status retry get_record
process_item-record item delivered start now q id =
    set_status-twice item.id sending item.attempts none start sent (item.attempts + 1) none now
      q.records id
process_item-record item (rejected e) start now q id =
    elim (Bool-cases (leb q.config.max_attempts (item.attempts + 1))) [
      | inl f ↦ rw f (
          set_status-twice item.id sending item.attempts none start failed (item.attempts + 1)
            (some e) now q.records id)
      | inr f ↦ rw f (
          set_status-twice item.id sending item.attempts none start pending (item.attempts + 1)
            (some e) now q.records id)
    ]
