-- ===== src/Channels/RateLimiter/Window.antt =====
-- How many requests of a user the limiter lets through in a window.
use picobot.Base.{
  Text, ℕ, ◌+◌, ◌≤◌, ◌<◌, Bool, true, false, List, [], ◌∷◌, ◌++◌, keep, length, all, ltb, leb, ◌==◌,
  ◌&&◌, text_eq, eq_of_text_eq, if◌then◌else◌, ◌≡◌, refl, inl, inr, Bool-cases, arith, subst, ◌∙◌,
  ap,
}
use picobot.Channels.RateLimiter.{RateLimiter, default, window, is_recent, set_entries, allow}

-- The limiter with the instants of the requests that it let through, by user, newest first.
pub record Served : Type 0 where
  pub limiter : RateLimiter
  pub log : Text → List ℕ

abbrev pub fresh : Served
fresh = record { limiter = default; log = λ key. [] }

unfoldable pub handle : ℕ → Text → ℕ → Served → Served
unfolding allow set_entries
handle limit key now s =
    let out = allow key limit now s.limiter in
    record {
      limiter = out.1;
      log = if out.0 then set_entries key (now ∷ s.log key) s.log else s.log;
    }

-- Requests come in, of any users, in the order of the clock.
pub data Reach (limit : ℕ) : ℕ → Served → Type 0 where
  start : (now : ℕ) → Reach limit now fresh
  request :
      {now : ℕ} {s : Served}
      → Reach limit now s
      → (key : Text) (later : ℕ) → now ≤ later
      → Reach limit later (handle limit key later s)

abbrev pub count : (ℕ → Bool) → List ℕ → ℕ
count p xs = length (keep p xs)

-- The instants from `t` to a window later.
unfoldable pub inside : ℕ → ℕ → Bool
inside t instant = leb t instant && leb instant (t + window)

keep-recent :
    (now t : ℕ) (xs : List ℕ)
    → now ≤ t
    → keep (is_recent t) (keep (is_recent now) xs) ≡ keep (is_recent t) xs
unfolding keep is_recent
keep-recent now t [] h = refl
keep-recent now t (x ∷ xs) h = ground (arith, keep-recent now t xs h)

count-snoc : (p : ℕ → Bool) (xs : List ℕ) (x : ℕ) → count p (xs ++ x ∷ []) ≡ count p (x ∷ xs)
unfolding keep
count-snoc p [] x = refl
count-snoc p (y ∷ xs) x = ground (arith, count-snoc p xs x)

count-inside :
    (now t : ℕ) (xs : List ℕ)
    → now ≤ t + window
    → all (λ i. leb i now) xs ≡ true
    → count (inside t) xs ≤ count (is_recent now) xs
unfolding keep inside is_recent all
count-inside now t [] h past = omega arith
count-inside now t (x ∷ xs) h past = ground (arith, count-inside now t xs h)

all_later :
    (now later : ℕ) (xs : List ℕ)
    → now ≤ later
    → all (λ i. leb i now) xs ≡ true
    → all (λ i. leb i later) xs ≡ true
unfolding all
all_later now later [] h past = refl
all_later now later (x ∷ xs) h past = ground (arith, all_later now later xs h)

module _ (limit : ℕ) (positive : 0 < limit) where
  -- What the entries of a user, cut back from time to time, have in common with the whole log.
  record Agrees (now : ℕ) (entries log : List ℕ) : Type 0 where
    past : all (λ i. leb i now) log ≡ true
    same : (t : ℕ) → now ≤ t → count (is_recent t) entries ≡ count (is_recent t) log
    bound : (t : ℕ) → count (inside t) log ≤ limit

  Agrees-later :
      (now later : ℕ) (entries log : List ℕ)
      → now ≤ later
      → Agrees now entries log
      → Agrees later entries log
  Agrees-later now later entries log h a = record {
    past = all_later now later log h a.past;
    same = λ t k. a.same t (omega arith);
    bound = a.bound;
  }

  Agrees-kept :
      (now : ℕ) (entries log : List ℕ)
      → Agrees now entries log
      → Agrees now (keep (is_recent now) entries) log
  Agrees-kept now entries log a = record {
    past = a.past;
    same = λ t k. ap length (keep-recent now t entries k) ∙ a.same t k;
    bound = a.bound;
  }

  bound-cons :
      (now t : ℕ) (log : List ℕ)
      → all (λ i. leb i now) log ≡ true
      → count (is_recent now) log < limit
      → count (inside t) log ≤ limit
      → count (inside t) (now ∷ log) ≤ limit
  unfolding keep inside
  bound-cons now t log past room b = elim (Bool-cases (inside t now)) [
    | inr e ↦ rw (e) b
    | inl e ↦ rw (e) (omega (arith, count-inside now t log (ground arith) past))
  ]

  Agrees-admitted :
      (now : ℕ) (entries log : List ℕ)
      → Agrees now entries log
      → count (is_recent now) log < limit
      → Agrees now (keep (is_recent now) entries ++ now ∷ []) (now ∷ log)
  unfolding all keep
  Agrees-admitted now entries log a room = record {
    past = ground (arith, a.past);
    same = λ t k.
        count-snoc (is_recent t) (keep (is_recent now) entries) now
        ∙ ground (arith, (Agrees-kept now entries log a).same t k);
    bound = λ t. bound-cons now t log a.past room (a.bound t);
  }

  -- What the limiter answers, from the entries that are recent.
  allow-answer :
      (key : Text) (now : ℕ) (limiter : RateLimiter)
      → (allow key limit now limiter).0 ≡ ltb (count (is_recent now) (limiter key)) limit
  unfolding allow
  allow-answer key now limiter = ground arith

  nonzero : (limit == 0) ≡ false
  nonzero = ground arith

  -- The entries and the log of a user after a request, whose own or another's.
  handle_own :
      (key other : Text) (now : ℕ) (s : Served)
      → Agrees now (s.limiter key) (s.log key)
      → text_eq key other ≡ true
      → Agrees now (s.limiter other) (s.log other)
      → Agrees now ((handle limit key now s).limiter other) ((handle limit key now s).log other)
  unfolding handle
  handle_own key other now s a e b =
      elim (Bool-cases (leb limit (count (is_recent now) (s.limiter key)))) [
        | inl full ↦
            rw (nonzero, full, e, set_entries)
              (subst (λ k. Agrees now (keep (is_recent now) (s.limiter key)) (s.log k))
                (eq_of_text_eq key other e) (Agrees-kept now (s.limiter key) (s.log key) a))
        | inr room ↦
            rw (nonzero, room, e, set_entries)
              (Agrees-admitted now (s.limiter key) (s.log key) a
                (subst (λ n. n < limit) (a.same now (omega arith)) (ground arith)))
      ]

  handle_other :
      (key other : Text) (now : ℕ) (s : Served)
      → text_eq key other ≡ false
      → Agrees now (s.limiter other) (s.log other)
      → Agrees now ((handle limit key now s).limiter other) ((handle limit key now s).log other)
  unfolding handle
  handle_other key other now s e b =
      elim (Bool-cases (leb limit (count (is_recent now) (s.limiter key)))) [
        | inl full ↦ rw (nonzero, full, set_entries, e) b
        | inr room ↦ rw (nonzero, room, set_entries, e) b
      ]

  Reach-Agrees :
      {now : ℕ} {s : Served}
      → Reach limit now s
      → (key : Text) → Agrees now (s.limiter key) (s.log key)
  unfolding keep all
  Reach-Agrees (start now) key = record {
    past = refl;
    same = λ t k. refl;
    bound = λ t. omega arith;
  }
  Reach-Agrees (request {now} {s} r key later h) other =
      let a = Agrees-later now later (s.limiter key) (s.log key) h (Reach-Agrees r key) in
      let b = Agrees-later now later (s.limiter other) (s.log other) h (Reach-Agrees r other) in
      elim (Bool-cases (text_eq key other)) [
        | inl e ↦ handle_own key other later s a e b
        | inr e ↦ handle_other key other later s e b
      ]

  -- Under a limit that is not 0, whatever requests come in, in the order of the clock: no more than
  -- `limit` requests of one user are let through in any 60 seconds.
  pub rate-bounded :
      {now : ℕ} {s : Served}
      → Reach limit now s
      → (key : Text) (t : ℕ) → count (inside t) (s.log key) ≤ limit
  rate-bounded r key t = (Reach-Agrees r key).bound t

  -- Under a limit that is not 0, a request is let through exactly when fewer than `limit` of its
  -- user were in the 60 seconds before it, although the limiter forgets older instants.
  pub allow-remembers :
      {now : ℕ} {s : Served}
      → Reach limit now s
      → (key : Text) (later : ℕ) → now ≤ later
      → (allow key limit later s.limiter).0 ≡ ltb (count (is_recent later) (s.log key)) limit
  allow-remembers {now} {s} r key later h =
      allow-answer key later s.limiter ∙ ap (λ n. ltb n limit) ((Reach-Agrees r key).same later h)
