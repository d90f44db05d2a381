-- ===== src/Notifications/Delivery/Drained.antt =====
-- That the queue runs empty.
use picobot.Base.{
  ℕ, zero, suc, ◌+◌, ◌*◌, ◌≤◌, ◌<◌, List, [], ◌∷◌, ◌++◌, ◌≡◌, refl, ap, subst, arith, All, length,
  ◌⊎◌, inl, inr, leb, Bool-cases, length-append,
}
use picobot.Notifications.Queue.{QueueItem, Queue, record_status, retry, compute_backoff}
use picobot.Notifications.Worker.{
  SendResult, delivered, rejected, after_send, process_item, Drain, here, send, wake,
}
use picobot.Notifications.Delivery.{
  limit, left_items, left_sleeping, potential, IsLive, process_item-potential, worked-IsLive,
  woke-IsLive, left_items-append,
}

List-cases : {A : Type 0} (xs : List A) → (xs ≡ []) ⊎ ((x : A) × ((ys : List A) × (xs ≡ x ∷ ys)))
List-cases [] = inl refl
List-cases (x ∷ ys) = inr (x, (ys, refl))

-- Every send uses up an attempt and puts one item to sleep at most; every item that wakes is one
-- sleeper less.
work_left : Queue → ℕ
work_left q = 2 * potential q + length q.sleeping

process_item-sleeping :
    (item : QueueItem) (result : SendResult) (start now : ℕ) (q : Queue)
    → length (process_item item result start now q).sleeping ≤ suc (length q.sleeping)
unfolding process_item after_send record_status retry
process_item-sleeping item delivered start now q = omega arith
process_item-sleeping item (rejected e) start now q =
    let item' : QueueItem = record item { attempts = item.attempts + 1 } in
    elim (Bool-cases (leb q.config.max_attempts (item.attempts + 1))) [
      | inl f ↦ rw f (omega arith)
      | inr f ↦ rw f (
          omega (
            arith,
            length-append q.sleeping ((compute_backoff (item.attempts + 1) q.config, item') ∷ []),
          ))
    ]

-- Nothing is left to send.
abbrev pub IsDrained : Queue → Type 0
IsDrained q = (q.items ≡ []) × (q.sleeping ≡ [])

sent_less :
    (r : Queue) (item : QueueItem) (rest : List QueueItem) (result : SendResult) (start now : ℕ)
    → r.items ≡ item ∷ rest
    → item.attempts < limit r.config
    → work_left (process_item item result start now (record r { items = rest })) < work_left r
unfolding work_left
sent_less r item rest result start now e l = omega (
  arith,
  process_item-potential item result start now (record r { items = rest }) l,
  process_item-sleeping item result start now (record r { items = rest }),
  ap (left_items r.config) e,
)

woken_less :
    (r : Queue) (delay : ℕ) (item : QueueItem) (after : List (ℕ × QueueItem))
    → r.sleeping ≡ (delay, item) ∷ after
    → work_left (record r { sleeping = after; items = r.items ++ item ∷ [] }) < work_left r
unfolding work_left
woken_less r delay item after e = omega (
  arith,
  left_items-append r.config r.items (item ∷ []),
  ap (left_sleeping r.config) e,
  ap length e,
)

first_attempts :
    (r : Queue) (item : QueueItem) (rest : List QueueItem)
    → r.items ≡ item ∷ rest
    → IsLive r
    → item.attempts < limit r.config
first_attempts r item rest e v =
    (subst (All (λ (i : QueueItem). i.attempts < limit r.config)) e v.items).0

module _ (q : Queue) (answer : QueueItem → SendResult) (start now : ℕ) where
  -- A run in which the channel answers to each item what `answer` says.
  unfoldable pub Answered : {n : ℕ} {s : Queue} → Drain q n s → Type 0
  Answered here = Unit
  Answered (send item rest result t u d e) = (result ≡ answer item) × Answered d
  Answered (wake delay item before after d e) = Answered d

  drained :
      (fuel : ℕ) {n : ℕ} (r : Queue)
      → (d : Drain q n r) → Answered d
      → IsLive r
      → work_left r ≤ fuel
      → (k : ℕ) × ((s : Queue) × ((d : Drain q k s) × (Answered d × IsDrained s)))
  unfolding Answered
  drained zero {n} r d a v h = elim (List-cases r.items) [
    | inr (item, (rest, e)) ↦ absurd (
        omega (arith, sent_less r item rest delivered start now e (first_attempts r item rest e v)))
    | inl e ↦ elim (List-cases r.sleeping) [
      | inl f ↦ (n, (r, (d, (a, (e, f)))))
      | inr ((delay, item), (after, f)) ↦ absurd (omega (arith, woken_less r delay item after f))
    ]
  ]
  drained (suc fuel) {n} r d a v h = elim (List-cases r.items) [
    | inr (item, (rest, e)) ↦
        drained fuel (process_item item (answer item) start now (record r { items = rest }))
          (send item rest (answer item) start now d e) (refl, a)
          (worked-IsLive r item rest (answer item) start now e v)
          (omega (
            arith,
            sent_less r item rest (answer item) start now e (first_attempts r item rest e v),
          ))
    | inl e ↦ elim (List-cases r.sleeping) [
      | inl f ↦ (n, (r, (d, (a, (e, f)))))
      | inr ((delay, item), (after, f)) ↦
          drained fuel (record r { sleeping = after; items = r.items ++ item ∷ [] })
            (wake delay item [] after d f) a (woke-IsLive r delay item [] after f v)
            (omega (arith, woken_less r delay item after f))
    ]
  ]

  -- Whatever the channel answers to each item, a live queue to which nothing is added can be worked
  -- until nothing is left in it and nothing waits for a retry.
  pub Drain-IsDrained :
      IsLive q → (k : ℕ) × ((s : Queue) × ((d : Drain q k s) × (Answered d × IsDrained s)))
  unfolding Answered
  Drain-IsDrained v = drained (work_left q) q here tt v (omega arith)
