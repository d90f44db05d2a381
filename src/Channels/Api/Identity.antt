-- ===== src/Channels/Api/Identity.antt =====
-- Which requests `authenticate` lets through, and as whom.
use picobot.Base.{
  Text, codes, Bool, true, false, List, [], ◌∷◌, Option, none, some, trim, is_empty, all, text_eq,
  text_eq_left, strip_prefix, split_once, if◌then◌else◌, ◌≡◌, ◌↔◌, ◌⊎◌, refl, sym, ap, ◌∙◌,
  Bool-cases, if_twice, if_swap, inl, inr, arith, ◌&&◌, eq_of_text_eq,
}
use picobot.Kernel.Tool.Registry.{lookup}
use picobot.Tools.Input.{unwrap_or}
use picobot.Channels.Api.{
  ok, Headers, Identities, insert, entry_of, named, insert_entry, insert_keys, api_auth_map,
  header_of, known, check_header, has_none, authenticate,
}

-- Of the configured keys, the last one for a token says who holds it.
abbrev or_earlier : Text → Option (Text × Text) → Option Text → Option Text
or_earlier token entry (some identity) = some identity
or_earlier token none none = none
or_earlier token (some (t, identity)) none = if text_eq t token then some identity else none

unfoldable pub holder : Text → List Text → Option Text
unfolding entry_of text_eq
holder token [] = none
holder token (key ∷ keys) = or_earlier token (entry_of key) (holder token keys)

abbrev or_found : Option Text → Option Text → Option Text
or_found none found = found
or_found (some identity) found = some identity

or_found_if :
    (b : Bool) (identity : Text) (found : Option Text)
    → (if b then some identity else found) ≡ or_found (if b then some identity else none) found
or_found_if true identity found = refl
or_found_if false identity found = refl

or_found-none : (o : Option Text) → or_found o none ≡ o
or_found-none none = refl
or_found-none (some identity) = refl

-- A text equal to another is equal to what that is equal to, on the right.
text_eq_right : (s t u : Text) → text_eq s t ≡ true → text_eq u s ≡ text_eq u t
text_eq_right s t u h = ap (text_eq u) (eq_of_text_eq s t h)

lookup-insert :
    (k token identity : Text) (map : Identities)
    → lookup k (insert token identity map)
      ≡ (if text_eq token k then some identity else lookup k map)
unfolding lookup insert
lookup-insert k token identity [] = refl
lookup-insert k token identity ((t, i) ∷ map) = elim (Bool-cases (text_eq token t)) [
  | inl e ↦
      rw (e, text_eq_left token t k e)
        (if_twice (text_eq t k) (some identity) (lookup k map) (some i))
  | inr e ↦
      rw (e, lookup-insert k token identity map)
        (if_swap (text_eq token k) (text_eq t k) (some identity) (lookup k map) (some i)
          (λ h. sym (text_eq_right t k token h) ∙ e))
]

-- What a key adds goes behind what the keys after it say.
lookup-insert_entry :
    (token : Text) (map : Identities) (entry : Option (Text × Text)) (later : Option Text)
    → or_found later (lookup token (insert_entry entry map))
      ≡ or_found (or_earlier token entry later) (lookup token map)
lookup-insert_entry token map none (some identity) = refl
lookup-insert_entry token map (some entry) (some identity) = refl
lookup-insert_entry token map none none = refl
lookup-insert_entry token map (some (t, identity)) none =
    lookup-insert token t identity map ∙ or_found_if (text_eq t token) identity (lookup token map)

lookup-insert_keys :
    (token : Text) (map : Identities) (keys : List Text)
    → lookup token (insert_keys map keys) ≡ or_found (holder token keys) (lookup token map)
unfolding insert_keys holder
lookup-insert_keys token map [] = refl
lookup-insert_keys token map (key ∷ keys) =
    lookup-insert_keys token (insert_entry (entry_of key) map) keys
    ∙ lookup-insert_entry token map (entry_of key) (holder token keys)

lookup-api_auth_map :
    (token : Text) (keys : List Text) → lookup token (api_auth_map keys) ≡ holder token keys
unfolding api_auth_map lookup
lookup-api_auth_map token keys =
    lookup-insert_keys token [] keys ∙ or_found-none (holder token keys)

-- The map is empty exactly if every key is blank.
has_none-insert :
    (token identity : Text) (map : Identities) → has_none (insert token identity map) ≡ false
unfolding insert
has_none-insert token identity [] = refl
has_none-insert token identity ((t, i) ∷ map) = ground arith

abbrev pub is_blank : Text → Bool
is_blank key = is_empty (trim key)

abbrev added : Text → Text × Text
added key = named (trim key) (split_once b':' (trim key))

has_none-insert_keys :
    (map : Identities) (keys : List Text)
    → has_none (insert_keys map keys) ≡ (has_none map && all is_blank keys)
unfolding insert_keys all entry_of
has_none-insert_keys map [] = ground arith
has_none-insert_keys map (key ∷ keys) = elim (Bool-cases (is_empty (trim key))) [
  | inl e ↦ rw (e) (has_none-insert_keys map keys)
  | inr e ↦ rw (e) (
      has_none-insert_keys (insert (added key).0 (added key).1 map) keys
      ∙ rw (has_none-insert (added key).0 (added key).1 map) (ground arith))
]

has_none-api_auth_map : (keys : List Text) → has_none (api_auth_map keys) ≡ all is_blank keys
unfolding api_auth_map
has_none-api_auth_map keys = has_none-insert_keys [] keys

-- The token that a request presents: of the header `x-api-key`, else of `authorization`.
abbrev token_of : Text → Text
token_of value = unwrap_or value (strip_prefix (codes "Bearer ") value)

some_injective : (s t : Text) → some s ≡ some t → s ≡ t
some_injective s t h = cc

abbrev bare : Option (Option Text) → Option Text
bare none = none
bare (some none) = none
bare (some (some value)) = some (token_of value)

abbrev header : Headers → Option (Option Text)
header headers = header_of headers.x_api_key headers.authorization

abbrev pub presented : Headers → Option Text
presented headers = bare (header headers)

abbrev pub Holds : List Text → Option Text → Text → Type 0
Holds keys token user = (t : Text) × ((token ≡ some t) × (holder t keys ≡ some user))

known_iff : (o : Option Text) (user : Text) → (known o ≡ ok user) ↔ (o ≡ some user)
known_iff none user = (λ h. cc, λ h. cc)
known_iff (some identity) user = (λ h. cc, λ h. cc)

check_header_iff :
    (keys : List Text) (header : Option (Option Text)) (user : Text)
    → (check_header (api_auth_map keys) header ≡ ok user) ↔ Holds keys (bare header) user
unfolding check_header
check_header_iff keys none user = (λ h. cc, λ h. absurd (ground (arith, h.1.0)))
check_header_iff keys (some none) user = (λ h. cc, λ h. absurd (ground (arith, h.1.0)))
check_header_iff keys (some (some value)) user = (
  λ h. (
    token_of value,
    (refl, sym (lookup-api_auth_map (token_of value) keys) ∙ (known_iff _ user).0 h),
  ),
  λ h. (known_iff _ user).1 (
      lookup-api_auth_map (token_of value) keys
      ∙ ap (λ t. holder t keys) (some_injective (token_of value) h.0 h.1.0)
      ∙ h.1.1),
)

-- A request passes as a user exactly when every configured key is blank and the user is the
-- anonymous one, or not every key is and the token that the request presents is one that the last
-- configured key with this token gives to that user.
pub authenticate_iff :
    (keys : List Text) (headers : Headers) (user : Text)
    → (authenticate (api_auth_map keys) headers ≡ ok user) ↔ (
        ((all is_blank keys ≡ true) × (user ≡ codes "api:anon"))
        ⊎ ((all is_blank keys ≡ false) × Holds keys (presented headers) user))
unfolding authenticate
authenticate_iff keys headers user = elim (Bool-cases (all is_blank keys)) [
  | inl e ↦
      rw (has_none-api_auth_map keys, e)
        (
          λ h. inl (refl, cc),
          λ x. elim x [ inl p ↦ ap ok (sym p.1) | inr p ↦ absurd (ground (arith, p.0)) ],
        )
  | inr e ↦
      rw (has_none-api_auth_map keys, e)
        (
          λ h. inr (refl, (check_header_iff keys (header headers) user).0 h),
          λ x. elim x [
            | inl p ↦ absurd (ground (arith, p.0))
            | inr p ↦ (check_header_iff keys (header headers) user).1 p.1
          ],
        )
]
