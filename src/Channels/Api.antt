-- ===== src/Channels/Api.antt =====
-- src/channels/api.rs: who calls the HTTP API (`authenticate`, `api_auth_map`) and in which session
-- (`validate_session_id` and its helpers). A map of keys is an association list without repetition.
pub mod Identity
pub mod Sessions
pub mod Schedules
pub mod Chat
use picobot.Base.{
  Text, codes, ℕ, zero, suc, Bool, true, false, List, [], ◌∷◌, ◌++◌, Option, none, some, length,
  trim, is_empty, split_once, strip_prefix, starts_with, text_eq, not, if◌then◌else◌,
}
use picobot.Kernel.Tool.Registry.{lookup}
use picobot.Tools.Input.{unwrap_or}

-- The status codes that the handlers answer with
pub data StatusCode : Type 0 where
  bad_request unauthorized forbidden not_found too_many_requests : StatusCode
  internal_server_error service_unavailable : StatusCode

-- `Result<A, (StatusCode, String)>`
pub data Answer {ℓ} (A : Type ℓ) : Type ℓ where
  ok : A → Answer A
  refused : StatusCode → Text → Answer A

infixl 5 ◌>>=◌
abbrev pub ◌>>=◌ {ℓ κ} : {A : Type ℓ} {B : Type κ} → Answer A → (A → Answer B) → Answer B
ok a >>= f = f a
(refused code reason) >>= f = refused code reason

-- What the handlers read of a request's headers; the inner `none` is a value that is no text
pub record Headers : Type 0 where
  pub x_api_key : Option (Option Text)
  pub authorization : Option (Option Text)

abbrev pub Identities : Type 0
Identities = List (Text × Text)

-- `HashMap::insert`
unfoldable pub insert : Text → Text → Identities → Identities
unfolding text_eq
insert token identity [] = (token, identity) ∷ []
insert token identity ((t, i) ∷ map) =
    if text_eq token t then (t, identity) ∷ map else (t, i) ∷ insert token identity map

abbrev whole : Text → Text × Text
whole trimmed = (trimmed, codes "api:" ++ trimmed)

-- The token and the identity of a key that is not blank
unfoldable pub named : Text → Option (Text × Text) → Text × Text
unfolding trim is_empty
named trimmed none = whole trimmed
named trimmed (some (token, identity)) =
    if not (is_empty (trim identity)) then (token, trim identity) else whole trimmed

-- The body of the loop of `api_auth_map`: what a key adds, if it is not blank
unfoldable pub entry_of : Text → Option (Text × Text)
unfolding trim is_empty named split_once
entry_of key =
    if is_empty (trim key) then none else some (named (trim key) (split_once b':' (trim key)))

abbrev pub insert_entry : Option (Text × Text) → Identities → Identities
insert_entry none map = map
insert_entry (some (token, identity)) map = insert token identity map

unfoldable pub insert_keys : Identities → List Text → Identities
unfolding insert entry_of
insert_keys map [] = map
insert_keys map (key ∷ keys) = insert_keys (insert_entry (entry_of key) map) keys

-- `api_auth_map`
unfoldable pub api_auth_map : List Text → Identities
unfolding insert_keys
api_auth_map keys = insert_keys [] keys

-- The header that `authenticate` reads
abbrev pub header_of : Option (Option Text) → Option (Option Text) → Option (Option Text)
header_of none authorization = authorization
header_of (some value) authorization = some value

abbrev pub known : Option Text → Answer Text
known none = refused unauthorized (codes "invalid api key")
known (some identity) = ok identity

-- `authenticate`, from the header on
unfoldable pub check_header : Identities → Option (Option Text) → Answer Text
unfolding lookup strip_prefix
check_header identities none = refused unauthorized (codes "missing api key")
check_header identities (some none) = refused unauthorized (codes "invalid api key")
check_header identities (some (some value)) =
    known (lookup (unwrap_or value (strip_prefix (codes "Bearer ") value)) identities)

abbrev pub has_none : Identities → Bool
has_none [] = true
has_none (entry ∷ map) = false

-- `authenticate`
unfoldable pub authenticate : Identities → Headers → Answer Text
unfolding check_header
authenticate identities headers =
    if has_none identities
    then ok (codes "api:anon")
    else check_header identities (header_of headers.x_api_key headers.authorization)

-- `session_user_segment`
unfoldable pub session_user_segment : Text → Text
unfolding strip_prefix
session_user_segment user_id = unwrap_or user_id (strip_prefix (codes "api:") user_id)

-- `default_session_id`
unfoldable pub default_session_id : Text → Text
unfolding session_user_segment
default_session_id user_id = codes "api:" ++ session_user_segment user_id

-- `str::trim_start_matches` for a text: at most as often as the text has characters
unfoldable pub trim_prefixes : Text → ℕ → Text → Text
unfolding strip_prefix
trim_prefixes prefix zero s = s
trim_prefixes prefix (suc n) s = elim (strip_prefix prefix s) [
  | none ↦ s
  | some rest ↦ trim_prefixes prefix n rest
]

unfoldable pub trim_start_text : Text → Text → Text
unfolding trim_prefixes
trim_start_text prefix s = trim_prefixes prefix (length s) s

-- `validate_session_id`
unfoldable pub validate_session_id : Text → Text → Answer {0} Unit
unfolding starts_with trim_start_text session_user_segment text_eq
validate_session_id session_id user_id =
    if not (starts_with (codes "api:") session_id)
    then refused bad_request (codes "invalid session_id")
    else if not (text_eq (trim_start_text (codes "api:") session_id) (session_user_segment user_id))
    then refused forbidden (codes "session_id does not match user")
    else ok tt
