-- ===== src/Tools/ShellPolicy/Classes.antt =====
-- Which class a command line falls into.
use picobot.Base.{
  Text, Bool, true, false, List, [], ◌∷◌, Option, none, some, map, ◌&&◌, ◌||◌, if◌then◌else◌,
  is_empty, trim, split_whitespace, any, all, find, ◌≡◌, refl, arith, inl, inr, Bool-cases, ◌∙◌,
}
use picobot.Kernel.Permission.{Host, contains}
use picobot.Tools.ShellPolicy.{
  safe, risky, denied, ShellPolicy, CommandPattern, matches, classify, classify_unmatched,
  classify_found, cons_token, pattern_of, cons_pattern, matched, default, build_patterns,
  build_trimmed, new, compile_tokens, tokens_match,
}
use picobot.Tools.ShellPolicy.Defaults.{default_deny_patterns, default_risky_patterns}

abbrev is_found {ℓ} : {A : Type ℓ} → Option A → Bool
is_found none = false
is_found (some a) = true

is_found-find {ℓ} : {A : Type ℓ} (p : A → Bool) (xs : List A) → is_found (find p xs) ≡ any p xs
unfolding find any
is_found-find p [] = refl
is_found-find p (x ∷ xs) = elim (Bool-cases (p x)) [
  | inl e ↦ rw (e) refl
  | inr e ↦ rw (e) (is_found-find p xs)
]

unmatched_lem :
    (policy : ShellPolicy) (command key : Text)
    → (classify_unmatched policy command key).risk
      ≡ (if contains policy.safe_commands command then safe else policy.default_risk)
unfolding classify_unmatched
unmatched_lem policy command key = elim (Bool-cases (contains policy.safe_commands command)) [
  | inl e ↦ rw (e) refl
  | inr e ↦ rw (e) refl
]

found_lem :
    (policy : ShellPolicy) (command key : Text) (d r : Option CommandPattern)
    → (classify_found policy command key d r).risk ≡ (
        if is_found d
        then denied
        else if is_found r
        then risky
        else if contains policy.safe_commands command
        then safe
        else policy.default_risk)
unfolding classify_found matched
found_lem policy command key (some p) r = refl
found_lem policy command key none (some q) = refl
found_lem policy command key none none = unmatched_lem policy command key

-- Denied if a pattern of the deny list matches, else risky if one of the risky list does, else safe
-- if the command is listed as safe, else of the default risk.
pub classify-risk :
    (policy : ShellPolicy) (command : Text) (args : List Text)
    → (classify policy command args).risk ≡ (
        if any (λ pattern. matches pattern command args) policy.deny_patterns
        then denied
        else if any (λ pattern. matches pattern command args) policy.risky_patterns
        then risky
        else if contains policy.safe_commands command
        then safe
        else policy.default_risk)
unfolding classify
classify-risk policy command args =
    rw
      (
        ← is_found-find (λ pattern. matches pattern command args) policy.deny_patterns,
        ← is_found-find (λ pattern. matches pattern command args) policy.risky_patterns,
      )
      (found_lem policy command _ _ _)

either_safe : (b : Bool) → (if b then safe else safe) ≡ safe
either_safe true = refl
either_safe false = refl

and_false_or : (a b : Bool) → (a && false || b) ≡ b
and_false_or true b = refl
and_false_or false b = refl

-- Two words at least.
abbrev two_words : List Text → Bool
two_words (w ∷ v ∷ ws) = true
two_words _ = false

module _ (host : Host) (command : Text) where
  abbrev compiled_matches : Option (List (Text → Bool)) → Bool
  compiled_matches none = false
  compiled_matches (some tokens) = tokens_match tokens (command ∷ [])

  cons_token-long :
      (t u : Option (Text → Bool)) (o : Option (List (Text → Bool)))
      → compiled_matches (cons_token t (cons_token u o)) ≡ false
  unfolding cons_token tokens_match
  cons_token-long none u o = refl
  cons_token-long (some t) none o = refl
  cons_token-long (some t) (some u) none = refl
  cons_token-long (some t) (some u) (some tokens) = ground arith

  compile_tokens-long :
      (ws : List Text) → two_words ws ≡ true → compiled_matches (compile_tokens host ws) ≡ false
  unfolding compile_tokens
  compile_tokens-long [] h = cc
  compile_tokens-long (w ∷ []) h = cc
  compile_tokens-long (w ∷ v ∷ ws) h =
      cons_token-long (host.glob w) (host.glob v) (compile_tokens host ws)

  cons_pattern_lem :
      (raw : Text) (o : Option (List (Text → Bool))) (patterns : List CommandPattern)
      → compiled_matches o ≡ false
      → any (λ p. matches p command []) (cons_pattern (pattern_of raw o) patterns)
        ≡ any (λ p. matches p command []) patterns
  unfolding pattern_of cons_pattern any matches
  cons_pattern_lem raw none patterns h = refl
  cons_pattern_lem raw (some tokens) patterns h = rw (h) (and_false_or _ _)

  build_trimmed-long :
      (ps : List Text)
      → all (λ p. two_words (split_whitespace p)) ps ≡ true
      → any (λ p. matches p command []) (build_trimmed host ps) ≡ false
  unfolding build_trimmed new all any
  build_trimmed-long [] h = refl
  build_trimmed-long (p ∷ ps) h =
      let both : (two_words (split_whitespace p) ≡ true)
          × (all (λ p. two_words (split_whitespace p)) ps ≡ true) =
        ground arith in
      let rest = build_trimmed-long ps both.1 in
      elim (Bool-cases (is_empty p)) [
        | inl e ↦ rw (e) rest
        | inr e ↦ rw (e) (
            cons_pattern_lem p (compile_tokens host (split_whitespace p)) (build_trimmed host ps)
              (compile_tokens-long (split_whitespace p) both.0)
            ∙ rest)
      ]

  deny_long : all (λ p. two_words (split_whitespace p)) (map trim default_deny_patterns) ≡ true
  unfolding all split_whitespace trim
  deny_long = refl

  risky_long : all (λ p. two_words (split_whitespace p)) (map trim default_risky_patterns) ≡ true
  unfolding all split_whitespace trim
  risky_long = refl

  -- Under the default policy, every command without arguments is safe: each default pattern has
  -- two words, so that `reboot`, `poweroff` or `bash` alone match none of them.
  pub classify-bare : (classify (default host) command []).risk ≡ safe
  unfolding default build_patterns
  classify-bare =
      classify-risk (default host) command []
      ∙ rw
          (
            build_trimmed-long (map trim default_deny_patterns) deny_long,
            build_trimmed-long (map trim default_risky_patterns) risky_long,
          )
          (either_safe (contains (default host).safe_commands command))
