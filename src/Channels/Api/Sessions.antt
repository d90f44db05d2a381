-- ===== src/Channels/Api/Sessions.antt =====
-- Which sessions a user may name.
use picobot.Base.{
  Text, codes, ℕ, zero, suc, ◌≤◌, true, [], ◌∷◌, ◌++◌, none, some, length, strip_prefix,
  starts_with, text_eq, text_eq_refl, eq_of_text_eq, ◌==◌, ◌≡◌, ◌↔◌, refl, sym, ap, ◌∙◌, Bool-cases,
  Option-cases, inl, inr, arith, subst, length-append,
}
use picobot.Channels.Api.{
  ok, session_user_segment, trim_prefixes, trim_start_text, validate_session_id,
}

-- A prefix, so many times, in front of a text.
abbrev repeated : ℕ → Text → Text → Text
repeated zero p s = s
repeated (suc n) p s = p ++ repeated n p s

strip_prefix-append : (p s : Text) → strip_prefix p (p ++ s) ≡ some s
unfolding strip_prefix
strip_prefix-append [] s = refl
strip_prefix-append (c ∷ p) s = ground (arith, strip_prefix-append p s)

append-strip_prefix : (p s rest : Text) → strip_prefix p s ≡ some rest → s ≡ p ++ rest
unfolding strip_prefix
append-strip_prefix [] s rest h = cc
append-strip_prefix (a ∷ p) [] rest h = cc
append-strip_prefix (a ∷ p) (c ∷ s) rest h = ground (arith, append-strip_prefix p s rest)

starts_with-strip_prefix : (p s rest : Text) → strip_prefix p s ≡ some rest → starts_with p s ≡ true
unfolding strip_prefix starts_with
starts_with-strip_prefix [] s rest h = refl
starts_with-strip_prefix (a ∷ p) [] rest h = cc
starts_with-strip_prefix (a ∷ p) (c ∷ s) rest h = ground (arith, starts_with-strip_prefix p s rest)

strip_prefix-starts_with :
    (p s : Text) → starts_with p s ≡ true → (rest : Text) × (strip_prefix p s ≡ some rest)
unfolding strip_prefix starts_with
strip_prefix-starts_with [] s h = (s, refl)
strip_prefix-starts_with (a ∷ p) [] h = absurd (cc)
strip_prefix-starts_with (a ∷ p) (c ∷ s) h = elim (Bool-cases (a == c)) [
  | inl e ↦ rw (e) (strip_prefix-starts_with p s (ground arith))
  | inr e ↦ absurd (ground arith)
]

round_none : (p : Text) (n : ℕ) (s : Text) → strip_prefix p s ≡ none → trim_prefixes p (suc n) s ≡ s
unfolding trim_prefixes
round_none p n s e = rw (e, trim_prefixes) refl

round_some :
    (p : Text) (n : ℕ) (s rest : Text)
    → strip_prefix p s ≡ some rest
    → trim_prefixes p (suc n) s ≡ trim_prefixes p n rest
unfolding trim_prefixes
round_some p n s rest e = rw (e, trim_prefixes) refl

-- What is left starts with the prefix no more, if the prefix is not empty and there are as many
-- rounds as characters.
module _ (a : ℕ) (p : Text) where
  shorter :
      (n : ℕ) (s rest : Text)
      → strip_prefix (a ∷ p) s ≡ some rest
      → length s ≤ suc n
      → length rest ≤ n
  shorter n s rest e h =
      omega
        (arith, ap length (append-strip_prefix (a ∷ p) s rest e), length-append {0} (a ∷ p) rest, h)

  trim_prefixes-clean :
      (n : ℕ) (s : Text) → length s ≤ n → strip_prefix (a ∷ p) (trim_prefixes (a ∷ p) n s) ≡ none
  unfolding trim_prefixes strip_prefix
  trim_prefixes-clean zero [] h = refl
  trim_prefixes-clean zero (c ∷ s) h = absurd (omega arith)
  trim_prefixes-clean (suc n) s h = elim (Option-cases (strip_prefix (a ∷ p) s)) [
    | inl e ↦ subst (λ t. strip_prefix (a ∷ p) t ≡ none) (sym (round_none (a ∷ p) n s e)) e
    | inr (rest, e) ↦
        subst (λ t. strip_prefix (a ∷ p) t ≡ none) (sym (round_some (a ∷ p) n s rest e))
          (trim_prefixes-clean n rest (shorter n s rest e h))
  ]

  -- What was trimmed is the prefix, so many times.
  Trimmed : Text → Text → Type 0
  Trimmed s t = (k : ℕ) × (s ≡ repeated k (a ∷ p) t)

  trim_prefixes-repeated : (n : ℕ) (s : Text) → Trimmed s (trim_prefixes (a ∷ p) n s)
  unfolding trim_prefixes Trimmed
  trim_prefixes-repeated zero s = (0, refl)
  trim_prefixes-repeated (suc n) s = elim (Option-cases (strip_prefix (a ∷ p) s)) [
    | inl e ↦ subst (Trimmed s) (sym (round_none (a ∷ p) n s e)) (0, refl)
    | inr (rest, e) ↦
        let t = trim_prefixes-repeated n rest in
        subst (Trimmed s) (sym (round_some (a ∷ p) n s rest e))
          (suc t.0, append-strip_prefix (a ∷ p) s rest e ∙ ap (λ u. (a ∷ p) ++ u) t.1)
  ]

  trim_prefixes-of_repeated :
      (k n : ℕ) (s : Text)
      → strip_prefix (a ∷ p) s ≡ none
      → k ≤ n
      → trim_prefixes (a ∷ p) n (repeated k (a ∷ p) s) ≡ s
  unfolding trim_prefixes
  trim_prefixes-of_repeated zero zero s e h = refl
  trim_prefixes-of_repeated zero (suc n) s e h = round_none (a ∷ p) n s e
  trim_prefixes-of_repeated (suc k) zero s e h = absurd (omega arith)
  trim_prefixes-of_repeated (suc k) (suc n) s e h =
      round_some (a ∷ p) n ((a ∷ p) ++ repeated k (a ∷ p) s) (repeated k (a ∷ p) s)
        (strip_prefix-append (a ∷ p) (repeated k (a ∷ p) s))
      ∙ trim_prefixes-of_repeated k n s e (omega arith)

  le-length-repeated : (k : ℕ) (s : Text) → k ≤ length (repeated k (a ∷ p) s)
  le-length-repeated zero s = omega arith
  le-length-repeated (suc k) s =
      omega (arith, le-length-repeated k s, length-append {0} (a ∷ p) (repeated k (a ∷ p) s))

-- The sessions of a user: the prefix `api:`, once or more, in front of the user's segment.
abbrev pub IsSessionOf : Text → Text → Type 0
IsSessionOf user_id session_id =
    (strip_prefix (codes "api:") (session_user_segment user_id) ≡ none)
    × ((k : ℕ) × (session_id ≡ repeated (suc k) (codes "api:") (session_user_segment user_id)))

abbrev api : Text
api = codes "api:"

-- The two tests that a session has passed.
validated :
    (session_id user_id : Text)
    → validate_session_id session_id user_id ≡ ok tt
    → (starts_with api session_id ≡ true)
      × (text_eq (trim_start_text api session_id) (session_user_segment user_id) ≡ true)
unfolding validate_session_id
validated session_id user_id h = ground arith

at_least_once :
    (s t : Text) (k : ℕ)
    → starts_with api s ≡ true
    → strip_prefix api t ≡ none
    → s ≡ repeated k api t
    → (j : ℕ) × (s ≡ repeated (suc j) api t)
at_least_once s t (suc j) st clean e = (j, e)
at_least_once s t zero st clean e =
    let found = strip_prefix-starts_with api s st in absurd (cc (found.1, clean))

named :
    (session_id user_id : Text)
    → validate_session_id session_id user_id ≡ ok tt
    → IsSessionOf user_id session_id
unfolding trim_start_text Trimmed
named session_id user_id h =
    let tests = validated session_id user_id h in
    let same = eq_of_text_eq _ (session_user_segment user_id) tests.1 in
    let clean =
      subst (λ t. strip_prefix api t ≡ none) same
        (trim_prefixes-clean b'a' (codes "pi:") (length session_id) session_id (omega arith)) in
    let whole = trim_prefixes-repeated b'a' (codes "pi:") (length session_id) session_id in
    (
      clean,
      at_least_once session_id (session_user_segment user_id) whole.0 tests.0 clean
          (whole.1 ∙ ap (repeated whole.0 api) same),
    )

accepted :
    (user_id : Text) (k : ℕ)
    → strip_prefix api (session_user_segment user_id) ≡ none
    → validate_session_id (repeated (suc k) api (session_user_segment user_id)) user_id ≡ ok tt
unfolding validate_session_id starts_with
accepted user_id k clean =
    let segment = session_user_segment user_id in
    let session_id = repeated (suc k) api segment in
    rw
      (
        trim_prefixes-of_repeated b'a' (codes "pi:") (suc k) (length session_id) segment clean
            (le-length-repeated b'a' (codes "pi:") (suc k) segment),
        text_eq_refl segment,
      )
      refl

-- A user may name exactly the sessions that are `api:`, once or more, in front of the user's
-- segment, and none at all if the segment starts with `api:` itself.
pub validate_session_id_iff :
    (session_id user_id : Text)
    → (validate_session_id session_id user_id ≡ ok tt) ↔ IsSessionOf user_id session_id
validate_session_id_iff session_id user_id = (
  named session_id user_id,
  λ h. subst (λ s. validate_session_id s user_id ≡ ok tt) (sym h.1.1) (accepted user_id h.1.0 h.0),
)
