-- ===== src/Kernel/Syntax/Commands.antt =====
-- The list of commands behind `shell:`, joined and split again.
use picobot.Base.{
  ◌⊎◌, ℕ, Text, false, List, [], ◌∷◌, ◌++◌, map, codes, not, is_empty, trim, trim_start, trim_end,
  cons_trimmed, is_whitespace, split, join, keep, contains_char, cons_head, ◌≡◌, refl, ap, ◌∙◌,
  arith, All, ◌==◌, Bool-cases, inl, inr,
}
use picobot.Kernel.Syntax.{command_list}

-- A command that survives the parser: trimmed, with no comma, and not empty.
pub record IsCommand (c : Text) : Type 0 where
  pub trimmed : trim c ≡ c
  pub no_comma : contains_char b',' c ≡ false
  pub filled : is_empty c ≡ false

-- A word with no separator is split off whole.
split-word :
    (sep : ℕ) (w s : Text)
    → contains_char sep w ≡ false
    → split sep (w ++ sep ∷ s) ≡ w ∷ split sep s
unfolding split contains_char
split-word sep [] s h = ground arith
split-word sep (c ∷ w) s h =
    let e : c == sep ≡ false = ground arith in rw (e, split-word sep w s (ground arith))

split-last : (sep : ℕ) (w : Text) → contains_char sep w ≡ false → split sep w ≡ w ∷ []
unfolding split contains_char
split-last sep [] h = refl
split-last sep (c ∷ w) h =
    let e : c == sep ≡ false = ground arith in rw (e, split-last sep w (ground arith))

pub command_words :
    (c : Text) (cs : List Text)
    → All IsCommand (c ∷ cs)
    → split b',' (join (codes ",") (c ∷ cs)) ≡ c ∷ cs
unfolding join
command_words c [] h = split-last b',' c h.0.no_comma
command_words c (d ∷ cs) h =
    cc (split-word b',' c (join (codes ",") (d ∷ cs)) h.0.no_comma, command_words d cs h.1)

map-trim : (cs : List Text) → All IsCommand cs → map trim cs ≡ cs
map-trim [] h = refl
map-trim (c ∷ cs) h = rw (h.0.trimmed, map-trim cs h.1)

keep-filled : (cs : List Text) → All IsCommand cs → keep (λ entry. not (is_empty entry)) cs ≡ cs
unfolding keep
keep-filled [] h = refl
keep-filled (c ∷ cs) h = rw (h.0.filled, keep-filled cs h.1)

-- Commands that are joined come back as they were.
pub command_list-join :
    (c : Text) (cs : List Text)
    → All IsCommand (c ∷ cs)
    → command_list (join (codes ",") (c ∷ cs)) ≡ c ∷ cs
unfolding command_list
command_list-join c cs h =
    ap (λ ws. keep (λ entry. not (is_empty entry)) (map trim ws)) (command_words c cs h)
    ∙ ap (keep (λ entry. not (is_empty entry))) (map-trim (c ∷ cs) h)
    ∙ keep-filled (c ∷ cs) h

trim_end-cons_trimmed :
    (c : ℕ) (t : Text) → trim_end t ≡ t → trim_end (cons_trimmed c t) ≡ cons_trimmed c t
unfolding trim_end
trim_end-cons_trimmed c [] h = ground arith
trim_end-cons_trimmed c (d ∷ t) h = ap (cons_trimmed c) h

trim_end_idem : (s : Text) → trim_end (trim_end s) ≡ trim_end s
unfolding trim_end
trim_end_idem [] = refl
trim_end_idem (c ∷ s) = trim_end-cons_trimmed c (trim_end s) (trim_end_idem s)

trim_start-cons_trimmed :
    (c : ℕ) (t : Text) → is_whitespace c ≡ false → trim_start (cons_trimmed c t) ≡ cons_trimmed c t
unfolding trim_start cons_trimmed
trim_start-cons_trimmed c [] h = ground arith
trim_start-cons_trimmed c (d ∷ t) h = ground arith

trim_start-trim_end :
    (c : ℕ) (s : Text) → is_whitespace c ≡ false → trim_start (trim_end (c ∷ s)) ≡ trim_end (c ∷ s)
unfolding trim_end
trim_start-trim_end c s h = trim_start-cons_trimmed c (trim_end s) h

trim_start-cases :
    (s : Text)
    → (trim_start s ≡ [])
      ⊎ ((c : ℕ) × (r : Text) × (trim_start s ≡ c ∷ r) × (is_whitespace c ≡ false))
unfolding trim_start
trim_start-cases [] = inl refl
trim_start-cases (c ∷ s) = elim (Bool-cases (is_whitespace c)) [
  | inl e ↦ rw e (trim_start-cases s)
  | inr e ↦ inr (c, s, rw e, e)
]

trim_idem : (s : Text) → trim (trim s) ≡ trim s
unfolding trim
trim_idem s = elim (trim_start-cases s) [
  | inl e ↦ rw e (unfold trim_end trim_start in refl)
  | inr (c, r, e, h) ↦ rw e (ap trim_end (trim_start-trim_end c r h) ∙ trim_end_idem (c ∷ r))
]

contains_char-cons_trimmed :
    (x c : ℕ) (t : Text)
    → contains_char x (c ∷ t) ≡ false
    → contains_char x (cons_trimmed c t) ≡ false
unfolding contains_char cons_trimmed
contains_char-cons_trimmed x c [] h = ground arith
contains_char-cons_trimmed x c (d ∷ t) h = h

contains_char-trim_end :
    (x : ℕ) (s : Text) → contains_char x s ≡ false → contains_char x (trim_end s) ≡ false
unfolding trim_end contains_char
contains_char-trim_end x [] h = refl
contains_char-trim_end x (c ∷ s) h =
    contains_char-cons_trimmed x c (trim_end s)
      (unfold contains_char in ground (arith, contains_char-trim_end x s))

contains_char-trim_start :
    (x : ℕ) (s : Text) → contains_char x s ≡ false → contains_char x (trim_start s) ≡ false
unfolding trim_start contains_char
contains_char-trim_start x [] h = refl
contains_char-trim_start x (c ∷ s) h = ground (arith, contains_char-trim_start x s)

-- No word that `split` returns holds the separator.
NoChar : ℕ → Text → Type 0
NoChar x w = contains_char x w ≡ false

cons_head-NoChar :
    (x c : ℕ) (ws : List Text)
    → c == x ≡ false
    → All (NoChar x) ws
    → All (NoChar x) (cons_head c ws)
unfolding NoChar contains_char
cons_head-NoChar x c [] h a = (ground arith, tt)
cons_head-NoChar x c (w ∷ ws) h a = (ground arith, a.1)

split-NoChar : (x : ℕ) (s : Text) → All (NoChar x) (split x s)
unfolding split
split-NoChar x [] = (unfold NoChar contains_char in refl, tt)
split-NoChar x (c ∷ s) = elim (Bool-cases (c == x)) [
  | inl e ↦ rw e (unfold NoChar contains_char in refl, split-NoChar x s)
  | inr e ↦ rw e (cons_head-NoChar x c (split x s) e (split-NoChar x s))
]

words-IsCommand :
    (ws : List Text)
    → All (NoChar b',') ws
    → All IsCommand (keep (λ entry. not (is_empty entry)) (map trim ws))
unfolding keep
words-IsCommand [] a = tt
words-IsCommand (w ∷ ws) a = elim (Bool-cases (is_empty (trim w))) [
  | inl e ↦ rw e (words-IsCommand ws a.1)
  | inr e ↦ rw e (
    record {
      trimmed = trim_idem w;
      no_comma =
          unfold trim NoChar in
          contains_char-trim_end b',' (trim_start w) (contains_char-trim_start b',' w a.0);
      filled = e;
    },
    words-IsCommand ws a.1,
  )
]

-- Every command that the parser returns is trimmed, not empty, and free of commas.
pub command_list-IsCommand : (list : Text) → All IsCommand (command_list list)
unfolding command_list
command_list-IsCommand list = words-IsCommand (split b',' list) (split-NoChar b',' list)
