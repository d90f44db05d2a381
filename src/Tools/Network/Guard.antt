-- ===== src/Tools/Network/Guard.antt =====
-- What `ensure_allowed_url` lets through, and how much `read_response_bytes` reads.
use picobot.Base.{
  Text, ℕ, ◌+◌, ◌-◌, ◌^◌, ◌≤◌, ◌<◌, Bool, true, false, List, [], ◌∷◌, ◌++◌, Option, none, some,
  length, ltb, leb, not, ◌&&◌, ◌||◌, ◌==◌, if◌then◌else◌, is_empty, ◌⊎◌, inl, inr, ◌≡◌, refl, any,
  arith, ap, length-append, map, sym, Bool-cases,
}
use picobot.Kernel.Tool.{ToolError, Result, ok, err, ◌>>=◌}
use picobot.Kernel.Capability.{is_some}
use picobot.Tools.Input.{Done, or_error, unwrap_or}
use picobot.Tools.Network.{IpAddress, is_private_ip}
use picobot.Tools.Network.Fetch.{
  Url, Net, ensure_allowed_url, check_addresses, read_chunks, read_response_bytes, saturating_add,
  announces_more,
}

abbrev pub is_ok {ℓ} : {A : Type ℓ} → Result A → Bool
is_ok (ok a) = true
is_ok (err e) = false

check_addresses_lem :
    (net : Net) (host : Text) (addrs : List IpAddress)
    → is_ok (check_addresses net host addrs) ≡ not (any is_private_ip addrs)
unfolding check_addresses any
check_addresses_lem net host [] = refl
check_addresses_lem net host (ip ∷ addrs) = elim (Bool-cases (is_private_ip ip)) [
  | inl e ↦ rw (e, any) refl
  | inr e ↦ rw (e, any) (check_addresses_lem net host addrs)
]

-- What a URL that is let through is made of.
abbrev pub clean : Url → Bool
clean url =
    is_empty url.username
    && (not (is_some url.password) && not (unwrap_or 80 url.port_or_known_default == 0))

abbrev all_public : Text ⊎ List IpAddress → Bool
all_public (inl e) = false
all_public (inr addrs) = not (any is_private_ip addrs)

abbrev pub is_admitted : Net → Text → Text ⊎ Url → Bool
is_admitted net host (inl e) = false
is_admitted net host (inr url) =
    clean url && all_public (net.lookup_host host (unwrap_or 80 url.port_or_known_default))

lookup_lem :
    (net : Net) (host : Text) (l : Text ⊎ List IpAddress)
    → is_ok (or_error l >>= λ addrs. check_addresses net host addrs) ≡ all_public l
lookup_lem net host (inl e) = refl
lookup_lem net host (inr addrs) = check_addresses_lem net host addrs

guards_lem :
    (e p z : Bool) (x y : Result Done) (r : Result Done) (b : Bool)
    → is_ok x ≡ false
    → is_ok y ≡ false
    → is_ok r ≡ b
    → is_ok (if not e || p then x else if z then y else r) ≡ ((e && (not p && not z)) && b)
guards_lem false p z x y r b hx hy hr = hx
guards_lem true true z x y r b hx hy hr = hx
guards_lem true false true x y r b hx hy hr = hy
guards_lem true false false x y r b hx hy hr = hr

parsed_lem :
    (net : Net) (url host : Text) (p : Text ⊎ Url)
    → net.parse url ≡ p
    → is_ok (ensure_allowed_url net url host) ≡ is_admitted net host p
unfolding ensure_allowed_url
parsed_lem net url host (inl e) h = rw (h) refl
parsed_lem net url host (inr parsed) h =
    rw (h) (guards_lem _ _ _ _ _ _ _ refl refl (lookup_lem net host _))

-- A request is let through exactly when its URL parses, it has no user name and no password, its
-- port is not 0, and its host resolves, to addresses none of which is refused.
pub ensure_allowed_url-admits :
    (net : Net) (url host : Text)
    → is_ok (ensure_allowed_url net url host) ≡ is_admitted net host (net.parse url)
ensure_allowed_url-admits net url host = parsed_lem net url host (net.parse url) refl

-- The bytes of a body that arrives whole, and what the chunks of it add up to.
unfoldable pub concat : List (List ℕ) → List ℕ
concat [] = []
concat (chunk ∷ chunks) = chunk ++ concat chunks

append_assoc : (xs ys zs : List ℕ) → (xs ++ ys) ++ zs ≡ xs ++ (ys ++ zs)
append_assoc [] ys zs = refl
append_assoc (x ∷ xs) ys zs = ap (λ l. x ∷ l) (append_assoc xs ys zs)

append_nil : (xs : List ℕ) → xs ++ [] ≡ xs
append_nil [] = refl
append_nil (x ∷ xs) = ap (λ l. x ∷ l) (append_nil xs)

-- The value of a result that is not an error.
abbrev pub accepted {ℓ} : {A : Type ℓ} → Result A → Option A
accepted (ok a) = some a
accepted (err e) = none

none_of : {A : Type 0} (r : Result A) → is_ok r ≡ false → accepted r ≡ none
none_of (ok a) h = cc
none_of (err e) h = refl

limits_lem :
    {A : Type 0} (a b c : Bool) (x y : ToolError) (r : Result A) (s : A)
    → accepted r ≡ (if c then some s else none)
    → accepted (if a then err x else if b then err y else r)
      ≡ (if not a && (not b && c) then some s else none)
limits_lem true b c x y r s h = refl
limits_lem false true c x y r s h = refl
limits_lem false false c x y r s h = h

-- The loop, on chunks that all arrive: everything, if it fits into what is left of the limit.
module _ (net : Net) (kind : Text) (max_bytes : ℕ) (small : max_bytes < 2 ^ 64 - 1) where
  fits :
      (size len rest : ℕ)
      → size + (len + rest) ≤ max_bytes
      → (saturating_add size len ≡ size + len) × (ltb max_bytes (size + len) ≡ false)
  fits size len rest h = (omega arith, ground arith)

  read_all :
      (size : ℕ) (buffer : List ℕ) (chunks : List (List ℕ))
      → size + length (concat chunks) ≤ max_bytes
      → read_chunks net kind max_bytes size buffer (map inr chunks) ≡ ok (buffer ++ concat chunks)
  unfolding read_chunks concat
  read_all size buffer [] h = ap ok (sym (append_nil buffer))
  read_all size buffer (chunk ∷ chunks) h =
      let total = length-append chunk (concat chunks) in
      let room = fits size (length chunk) (length (concat chunks)) (omega arith) in
      rw (room.0, room.1, ← append_assoc buffer chunk (concat chunks))
        (read_all (size + length chunk) (buffer ++ chunk) chunks (omega arith))

  read_over :
      (size : ℕ) (buffer : List ℕ) (chunks : List (List ℕ))
      → size ≤ max_bytes
      → max_bytes < size + length (concat chunks)
      → is_ok (read_chunks net kind max_bytes size buffer (map inr chunks)) ≡ false
  unfolding read_chunks concat
  read_over size buffer [] h g = absurd (omega arith)
  read_over size buffer (chunk ∷ chunks) h g =
      let total = length-append chunk (concat chunks) in
      elim (Bool-cases (ltb max_bytes (saturating_add size (length chunk)))) [
        | inl e ↦ rw (e) refl
        | inr e ↦ rw (e) (
            read_over (saturating_add size (length chunk)) (buffer ++ chunk) chunks (ground arith)
              (ground arith))
      ]

  chunks_lem :
      (chunks : List (List ℕ))
      → accepted (read_chunks net kind max_bytes 0 [] (map inr chunks))
        ≡ (if leb (length (concat chunks)) max_bytes then some (concat chunks) else none)
  chunks_lem chunks = elim (Bool-cases (leb (length (concat chunks)) max_bytes)) [
    | inl e ↦ rw (e, read_all 0 [] chunks (ground arith)) refl
    | inr e ↦ rw (e) (none_of _ (read_over 0 [] chunks (omega arith) (ground arith)))
  ]

  -- A response whose chunks all arrive is read whole if the limit is not 0, the length header is
  -- not over it and neither is the body; it is an error else, whatever the header says. The limit is
  -- under 2 ^ 64 - 1.
  pub read_response_bytes-limit :
      (content_length : Option ℕ) (chunks : List (List ℕ))
      → accepted (
          read_response_bytes net
            (record { content_length = content_length; chunks = map inr chunks })
            max_bytes
            kind)
        ≡ (if not (max_bytes == 0)
              && (not (announces_more max_bytes content_length)
                  && leb (length (concat chunks)) max_bytes)
            then some (concat chunks)
            else none)
  unfolding read_response_bytes
  read_response_bytes-limit content_length chunks = limits_lem _ _ _ _ _ _ _ (chunks_lem chunks)
