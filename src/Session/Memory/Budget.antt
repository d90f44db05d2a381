-- ===== src/Session/Memory/Budget.antt =====
-- Which messages the budget leaves.
use picobot.Base.{
  ℕ, zero, suc, ◌+◌, ◌≤◌, ◌<◌, true, false, List, [], ◌∷◌, some, length, drop, ltb, ◌==◌, ◌≡◌, ◌≢◌,
  refl, ◌⊎◌, inl, inr, arith, Bool-cases, ap,
}
use picobot.Session.Memory.{
  MessageType, system, user, assistant, assistant_tool_calls, tool, as_str, parse, StoredMessage,
  tokens_of, estimate_tokens, drop_second, apply_within,
}

-- The name of a message's type parses to that type.
parse-as_str : (t : MessageType) → parse (as_str t) ≡ some t
unfolding parse as_str
parse-as_str system = refl
parse-as_str user = refl
parse-as_str assistant = refl
parse-as_str assistant_tool_calls = refl
parse-as_str tool = refl

-- What is left of the messages after the first, when `k` are removed: as many as needed, and no more.
pub record IsCut (budget : ℕ) (first : StoredMessage) (rest out : List StoredMessage) : Type 0 where
  pub removed : ℕ
  pub bounded : removed ≤ length rest
  pub left : out ≡ first ∷ drop removed rest
  pub fits : (estimate_tokens out ≤ budget) ⊎ (removed ≡ length rest)
  pub needed : (j : ℕ) → j < removed → budget < estimate_tokens (first ∷ drop j rest)

module _ (budget : ℕ) (first second : StoredMessage) (rest out : List StoredMessage) where
  still_needed :
      (k : ℕ)
      → budget < estimate_tokens (first ∷ second ∷ rest)
      → ((j : ℕ) → j < k → budget < estimate_tokens (first ∷ drop j rest))
      → (j : ℕ) → j < suc k
      → budget < estimate_tokens (first ∷ drop j (second ∷ rest))
  still_needed k over h zero l = over
  still_needed k over h (suc j) l = h j (omega arith)

  still_fits :
      (k : ℕ)
      → (estimate_tokens out ≤ budget) ⊎ (k ≡ length rest)
      → (estimate_tokens out ≤ budget) ⊎ (suc k ≡ suc (length rest))
  still_fits k (inl h) = inl h
  still_fits k (inr h) = inr (ap suc h)

  IsCut-second :
      budget < estimate_tokens (first ∷ second ∷ rest)
      → IsCut budget first rest out
      → IsCut budget first (second ∷ rest) out
  IsCut-second over cut = record {
    removed = suc cut.removed;
    bounded = omega (arith, cut.bounded);
    left = cut.left;
    fits = still_fits cut.removed cut.fits;
    needed = still_needed cut.removed over cut.needed;
  }

drop_second-IsCut :
    (budget : ℕ) (first : StoredMessage) (rest : List StoredMessage)
    → IsCut budget first rest (drop_second budget first rest)
unfolding drop_second
drop_second-IsCut budget first [] = record {
  removed = 0;
  bounded = omega arith;
  left = refl;
  fits = inr refl;
  needed = λ j h. absurd (omega arith);
}
drop_second-IsCut budget first (second ∷ rest) =
    elim (Bool-cases (ltb budget (estimate_tokens (first ∷ second ∷ rest)))) [
      | inr e ↦ rw (e) (record {
        removed = 0;
        bounded = omega arith;
        left = refl;
        fits = inl (ground arith);
        needed = λ j h. absurd (omega arith);
      })
      | inl e ↦ rw (e) (
          IsCut-second budget first second rest (drop_second budget first rest) (ground arith)
            (drop_second-IsCut budget first rest))
    ]

positive : (n : ℕ) → n ≢ 0 → (n == 0) ≡ false
positive n h = ground arith

-- Under a budget that is not 0, the context keeps its first message and a suffix of the others. It
-- fits the budget, or only the first message is left; and every message that was removed had to be:
-- with it, what follows is over the budget.
pub apply_within-IsCut :
    (budget : ℕ) (first : StoredMessage) (rest : List StoredMessage)
    → budget ≢ 0
    → IsCut budget first rest (apply_within budget (first ∷ rest))
unfolding apply_within
apply_within-IsCut budget first rest h =
    rw (positive budget h) (drop_second-IsCut budget first rest)

drop_second-oversized :
    (budget : ℕ) (first : StoredMessage) (rest : List StoredMessage)
    → budget < tokens_of first
    → drop_second budget first rest ≡ first ∷ []
unfolding drop_second estimate_tokens
drop_second-oversized budget first [] g = refl
drop_second-oversized budget first (second ∷ rest) g =
    let over : ltb budget (tokens_of first + (tokens_of second + estimate_tokens rest)) ≡ true =
      ground arith in
    rw (over) (drop_second-oversized budget first rest g)

-- When the first message alone is over the budget, it is all that is kept: every newer message is
-- removed, though none of that brings the context under the budget. The budget is not 0.
apply_within-oversized :
    (budget : ℕ) (first : StoredMessage) (rest : List StoredMessage)
    → budget ≢ 0
    → budget < tokens_of first
    → apply_within budget (first ∷ rest) ≡ first ∷ []
unfolding apply_within
apply_within-oversized budget first rest h g =
    rw (positive budget h) (drop_second-oversized budget first rest g)
