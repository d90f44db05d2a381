-- ===== src/Tools/Http/Body.antt =====
-- Which URL is fetched, and how much of its body is returned.
use picobot.Base.{
  Text, codes, ℕ, zero, suc, ◌-◌, Bool, true, false, [], ◌∷◌, ◌++◌, none, some, ◌==◌, leb,
  if◌then◌else◌, take, length, ◌≡◌, refl, arith, sym, ◌∙◌,
}
use picobot.Kernel.Tool.{Result, ok, err, ◌>>=◌}
use picobot.Tools.Input.{Input}
use picobot.Tools.Network.Fetch.{Net, ensure_allowed_url}
use picobot.Tools.Network.Guard.{is_ok, is_admitted, ensure_allowed_url-admits}
use picobot.Tools.Http.{cut_at, cons_cut, truncate_text, marked, Client, OutputFormat, fetch}

all_fit : (n : ℕ) → leb 0 n ≡ true
all_fit n = ground arith

none_fit : (n : ℕ) → leb (suc n) 0 ≡ false
none_fit n = ground arith

nonzero : (n : ℕ) → (suc n == 0) ≡ false
nonzero n = ground arith

less_one : (n : ℕ) → suc n - 1 ≡ n
less_one n = omega arith

same_test : (m n : ℕ) → leb (suc m) (suc n) ≡ leb m n
same_test m n = ground arith

cons_lem :
    (c : ℕ) (b : Bool) (s : Text)
    → cons_cut c (if b then none else some s) ≡ (if b then none else some (c ∷ s))
cons_lem c true s = refl
cons_lem c false s = refl

marked_lem :
    (z b : Bool) (value cut : Text)
    → (if z then ([], true) else marked value (if b then none else some cut)) ≡ (
        if z
        then ([], true)
        else if b
        then (value, false)
        else (cut ++ codes "\n\n[truncated]", true))
marked_lem true b value cut = refl
marked_lem false true value cut = refl
marked_lem false false value cut = refl

-- A text that is longer than the limit is cut after as many characters as the limit says, and a
-- shorter one is left as it is.
cut_at_lem :
    (left : ℕ) (value : Text)
    → cut_at left value ≡ (if leb (length value) left then none else some (take left value))
unfolding cut_at
cut_at_lem zero [] = refl
cut_at_lem (suc left) [] = rw (all_fit (suc left)) refl
cut_at_lem zero (c ∷ s) = rw (none_fit (length s)) refl
cut_at_lem (suc left) (c ∷ s) =
    rw (nonzero left, less_one left, same_test (length s) left, cut_at_lem left s)
      (cons_lem c (leb (length s) left) (take left s))

-- A limit of 0 gives the empty text; a text that is within the limit is returned as it is; a longer
-- one is cut after as many characters as the limit says, and a note is appended.
truncate_text-cuts :
    (value : Text) (max_chars : ℕ)
    → truncate_text value max_chars ≡ (
        if max_chars == 0
        then ([], true)
        else if leb (length value) max_chars
        then (value, false)
        else (take max_chars value ++ codes "\n\n[truncated]", true))
unfolding truncate_text
truncate_text-cuts value max_chars =
    rw (cut_at_lem max_chars value)
      (marked_lem (max_chars == 0) (leb (length value) max_chars) value (take max_chars value))

bind_ok : {A B : Type 0} (r : Result A) (f : A → Result B) → is_ok (r >>= f) ≡ true → is_ok r ≡ true
bind_ok (ok a) f h = refl
bind_ok (err e) f h = h

module _ (net : Net) (client : Client) where
  -- A call that returns a page was let through to the network: its URL names no user and not the
  -- port 0, and its host resolves to addresses none of which is refused.
  pub fetch-admitted :
      (max_chars max_bytes : ℕ) (format : OutputFormat) (url host : Text) (input : Input)
      → is_ok (fetch net client max_chars max_bytes format url host input) ≡ true
      → is_admitted net host (net.parse url) ≡ true
  unfolding fetch
  fetch-admitted max_chars max_bytes format url host input h =
      sym (ensure_allowed_url-admits net url host) ∙ bind_ok (ensure_allowed_url net url host) _ h
