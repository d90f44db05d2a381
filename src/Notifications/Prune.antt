-- ===== src/Notifications/Prune.antt =====
-- What `prune_records` keeps.
use picobot.Base.{
  ℕ, zero, suc, ◌+◌, ◌-◌, ◌≤◌, ◌<◌, min, Bool, false, List, [], ◌∷◌, ◌++◌, length, drop, keep,
  length-drop, length-append, not, ltb, leb, ◌≡◌, refl, arith, Bool-cases, inl, inr,
}
use picobot.Notifications.Queue.{Entry, is_finished, drop_finished, prune_records}

abbrev pub finished : Entry → Bool
finished r = is_finished r.status

length-drop_finished :
    (excess : ℕ) (rs : List Entry)
    → length (drop_finished excess rs) + min excess (length (keep finished rs)) ≡ length rs
unfolding drop_finished keep
length-drop_finished excess [] = omega arith
length-drop_finished excess (r ∷ rs) =
    ground (arith, length-drop_finished (excess - 1) rs, length-drop_finished excess rs)

-- Pruning leaves as many records as fit, no fewer.
length-prune_records :
    (max_records : ℕ) (rs : List Entry)
    → length (prune_records max_records rs) ≡ min (length rs) max_records
unfolding prune_records
length-prune_records m rs = ground (
  arith,
  length-drop_finished (length rs - m) rs,
  length-drop (length (drop_finished (length rs - m) rs) - m) (drop_finished (length rs - m) rs),
)

unfinished-drop_finished :
    (excess : ℕ) (rs : List Entry)
    → keep (λ r. not (finished r)) (drop_finished excess rs) ≡ keep (λ r. not (finished r)) rs
unfolding drop_finished keep
unfinished-drop_finished excess [] = refl
unfinished-drop_finished excess (r ∷ rs) =
    ground (arith, unfinished-drop_finished (excess - 1) rs, unfinished-drop_finished excess rs)

-- As long as enough finished records can go and the maximum is not zero, every unfinished record
-- stays, in order.
unfinished-prune_records :
    (max_records : ℕ) (rs : List Entry)
    → 0 < max_records
    → length rs - max_records ≤ length (keep finished rs)
    → keep (λ r. not (finished r)) (prune_records max_records rs) ≡ keep (λ r. not (finished r)) rs
unfolding prune_records
unfinished-prune_records m rs p h =
    ground
      (arith, length-drop_finished (length rs - m) rs, unfinished-drop_finished (length rs - m) rs)

drop_finished-append :
    (excess : ℕ) (rs : List Entry) (r : Entry)
    → finished r ≡ false
    → drop_finished excess (rs ++ r ∷ []) ≡ drop_finished excess rs ++ r ∷ []
unfolding drop_finished
drop_finished-append excess [] r h = ground arith
drop_finished-append excess (x ∷ rs) r h =
    ground (arith, drop_finished-append (excess - 1) rs r h, drop_finished-append excess rs r h)

drop-append {ℓ} :
    {A : Type ℓ} (n : ℕ) (xs : List A) (x : A)
    → n ≤ length xs
    → drop n (xs ++ x ∷ []) ≡ drop n xs ++ x ∷ []
drop-append zero xs x h = refl
drop-append (suc n) [] x h = absurd (omega arith)
drop-append (suc n) (y ∷ xs) x h = drop-append n xs x (omega arith)

-- The newest record survives the pruning, at the end, if it is unfinished and the maximum is not zero.
prune_records-newest :
    (max_records : ℕ) (rs : List Entry) (r : Entry)
    → 0 < max_records
    → finished r ≡ false
    → (older : List Entry) × (prune_records max_records (rs ++ r ∷ []) ≡ older ++ r ∷ [])
unfolding prune_records
prune_records-newest m rs r p h = elim (Bool-cases (leb (length (rs ++ r ∷ [])) m)) [
  | inl e ↦ (rs, ground arith)
  | inr e ↦
      let excess = length (rs ++ r ∷ []) - m in
      let kept = drop_finished excess rs in
      elim (Bool-cases (ltb m (length (kept ++ r ∷ [])))) [
        | inl f ↦ (
          drop (length (kept ++ r ∷ []) - m) kept,
          ground (
            arith,
            drop_finished-append excess rs r h,
            length-append kept (r ∷ []),
            drop-append (length (kept ++ r ∷ []) - m) kept r,
          ),
        )
        | inr f ↦ (kept, ground (arith, drop_finished-append excess rs r h))
      ]
]
