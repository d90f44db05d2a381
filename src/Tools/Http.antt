-- ===== src/Tools/Http.antt =====
-- src/tools/http.rs: the tool that fetches a URL. The HTTP client is a parameter, as are the crates
-- that turn HTML into text (`dom_smoothie`, `html2text`) and the decoder of UTF-8. Headers of the
-- request are left to the client.
pub mod Body
use picobot.Base.{
  Text, codes, ℕ, suc, ◌+◌, ◌-◌, ◌*◌, ◌^◌, ◌≤◌, Bool, true, false, List, [], ◌∷◌, ◌++◌, Option,
  none, some, not, ◌&&◌, ◌||◌, ◌==◌, leb, if◌then◌else◌, text_eq, starts_with, ends_with,
  to_ascii_lowercase, trim, split, take, length, ◌⊎◌, inl, inr, any,
}
use picobot.Kernel.Permission.{Permission, net_access}
use picobot.Kernel.Tool.{Result, ok, err, ◌>>=◌}
use picobot.Tools.Input.{Input, Done, or_error, str_field, unwrap_or, fail}
use picobot.Tools.Network.Fetch.{Net, Response, parse_host, ensure_allowed_url, read_response_bytes}

-- `OutputFormat` and `BodyMode`
pub data OutputFormat : Type 0 where
  auto raw text metadata_only : OutputFormat

pub data BodyMode : Type 0 where
  raw_body text_body no_body : BodyMode

unfoldable format_of : Text → Result OutputFormat
unfolding text_eq
format_of value =
    if text_eq value (codes "auto")
    then ok auto
    else if text_eq value (codes "raw")
    then ok raw
    else if text_eq value (codes "text")
    then ok text
    else if text_eq value (codes "metadata_only")
    then ok metadata_only
    else fail (codes "invalid output_format")

-- `OutputFormat::parse`
unfoldable parse_format : Option Text → Result OutputFormat
unfolding format_of to_ascii_lowercase
parse_format value = format_of (to_ascii_lowercase (unwrap_or (codes "auto") value))

-- `parse_max_body_chars`: whether the field is there, its number, and the context's default
unfoldable parse_max_body_chars : Option Text → Option ℕ → Option ℕ → Result ℕ
parse_max_body_chars none number default = ok (unwrap_or 50000 default)
parse_max_body_chars (some value) none default =
    fail (codes "max_body_chars must be a non-negative integer")
parse_max_body_chars (some value) (some n) default = ok n

abbrev first_part : List Text → Text
first_part [] = []
first_part (w ∷ ws) = w

-- `normalize_content_type`
unfoldable normalize_content_type : Text → Text
unfolding split trim to_ascii_lowercase
normalize_content_type value = to_ascii_lowercase (trim (first_part (split b';' value)))

abbrev is_one_of : List Text → Text → Bool
is_one_of names value = any (text_eq value) names

-- `is_html_content_type`, `is_text_content_type` and `is_binary_content_type`
unfoldable is_html_content_type : Text → Bool
unfolding any text_eq
is_html_content_type t = is_one_of (codes "text/html" ∷ codes "application/xhtml+xml" ∷ []) t

unfoldable is_text_content_type : Text → Bool
unfolding starts_with ends_with any text_eq
is_text_content_type t =
    starts_with (codes "text/") t
    || is_one_of
        (codes "application/json"
          ∷ codes "application/xml"
          ∷ codes "application/xhtml+xml"
          ∷ codes "application/javascript"
          ∷ codes "application/x-www-form-urlencoded"
          ∷ codes "text/xml"
          ∷ codes "text/javascript"
          ∷ [])
        t
    || ends_with (codes "+json") t
    || ends_with (codes "+xml") t

unfoldable is_binary_content_type : Text → Bool
unfolding is_text_content_type starts_with
is_binary_content_type t =
    not (is_text_content_type t)
    && (starts_with (codes "image/") t
        || starts_with (codes "audio/") t
        || starts_with (codes "video/") t
        || starts_with (codes "application/") t)

abbrev pub when {ℓ} : {A : Type ℓ} → (A → Bool) → Option A → Bool
when p none = false
when p (some a) = p a

-- The end of `plan_body_format`
unfoldable plan_text : OutputFormat → Option Text → BodyMode × Bool
unfolding is_html_content_type is_text_content_type
plan_text requested content_type =
    if when is_html_content_type content_type
    then (text_body, true)
    else if when is_text_content_type content_type
    then (text_body, false)
    else elim requested [ text ↦ (text_body, false) | _ ↦ (raw_body, false) ]

-- `plan_body_format`
unfoldable plan_body_format : OutputFormat → Option Text → Result (BodyMode × Bool)
unfolding is_binary_content_type plan_text
plan_body_format metadata_only content_type = ok (no_body, false)
plan_body_format raw content_type = ok (raw_body, false)
plan_body_format text content_type =
    if when is_binary_content_type content_type
    then fail (codes "binary content is not supported for text output")
    else ok (plan_text text content_type)
plan_body_format auto content_type =
    if when is_binary_content_type content_type
    then ok (no_body, false)
    else ok (plan_text auto content_type)

-- The loop of `truncate_text`: the characters before the cut, if there is one
abbrev pub cons_cut : ℕ → Option Text → Option Text
cons_cut c none = none
cons_cut c (some s) = some (c ∷ s)

unfoldable pub cut_at : ℕ → Text → Option Text
cut_at left [] = none
cut_at left (c ∷ s) =
    let rest = cut_at (left - 1) s in if left == 0 then some [] else cons_cut c rest

abbrev pub marked : Text → Option Text → Text × Bool
marked value none = (value, false)
marked value (some cut) = (cut ++ codes "\n\n[truncated]", true)

-- `truncate_text`
unfoldable pub truncate_text : Text → ℕ → Text × Bool
unfolding cut_at
truncate_text value max_chars =
    if max_chars == 0 then ([], true) else marked value (cut_at max_chars value)

-- What a request returns: the status, the type of the content, and the body
pub record HttpResponse : Type 0 where
  pub status : ℕ
  pub content_type : Option Text
  pub response : Response

-- The client, by the method, the URL and the input, whose headers and body it sends; and the
-- conversions of a body: `extract_html_content`, by its text and its title, and
-- `String::from_utf8_lossy`.
pub record Client : Type 0 where
  pub send : Text → Text → Input → Text ⊎ HttpResponse
  pub extract_html : List ℕ → Text → Text × Option Text
  pub from_utf8_lossy : List ℕ → Text

-- What `build_output` is given
pub record Output : Type 0 where
  pub status : ℕ
  pub content_type : Option Text
  pub content_length : Option ℕ
  pub output_format : OutputFormat
  pub mode : BodyMode
  pub body : Option Text
  pub truncated : Bool
  pub title : Option Text
  pub note : Option Text

unfoldable omission_note : OutputFormat → Text
omission_note metadata_only = codes "metadata_only requested; body omitted"
omission_note _ = codes "binary content; body omitted (use multimodal_looker for media)"

abbrev build_output :
    HttpResponse → OutputFormat → BodyMode → Option Text → Bool → Option Text → Option Text → Output
build_output response output_format mode body truncated title note = record {
  status = response.status;
  content_type = response.content_type;
  content_length = response.response.content_length;
  output_format = output_format;
  mode = mode;
  body = body;
  truncated = truncated;
  title = title;
  note = note;
}

abbrev normalized_type : Option Text → Option Text
normalized_type none = none
normalized_type (some value) = some (normalize_content_type value)

module _ (net : Net) (client : Client) where
  -- `required_permissions`
  unfoldable pub required_permissions : Input → Result (List Permission)
  unfolding parse_host
  required_permissions input = str_field input (codes "url") (codes "missing url") >>= λ url.
      parse_host net url >>= λ host. ok (net_access host ∷ [])

  -- The match on the method
  unfoldable check_method : Text → Result Done
  unfolding text_eq
  check_method method =
      if text_eq method (codes "GET") || text_eq method (codes "POST")
      then ok tt
      else fail (codes "invalid method")

  -- The test of the status
  unfoldable check_status : HttpResponse → Result Done
  check_status response =
      if leb 300 response.status && leb response.status 399
      then fail (codes "redirects are not allowed")
      else ok tt

  -- The text of a body, and its title if it is taken from HTML
  unfoldable body_text : Text → ℕ → List ℕ → Bool → (Text × Bool) × Option Text
  unfolding truncate_text
  body_text url max_chars bytes true =
      (truncate_text (client.extract_html bytes url).0 max_chars, (client.extract_html bytes url).1)
  body_text url max_chars bytes false =
      (truncate_text (client.from_utf8_lossy bytes) max_chars, none)

  -- The end of `execute`, by the plan for the body
  unfoldable pub answer :
      Text → ℕ → ℕ → OutputFormat → HttpResponse → BodyMode × Bool → Result Output
  unfolding read_response_bytes body_text omission_note
  answer url max_chars max_bytes format response (no_body, html) =
      ok (build_output response format no_body none false none (some (omission_note format)))
  answer url max_chars max_bytes format response (mode, html) =
      read_response_bytes net response.response max_bytes (codes "response") >>= λ bytes. ok (
        build_output response format mode (some (body_text url max_chars bytes html).0.0)
          (body_text url max_chars bytes html).0.1 (body_text url max_chars bytes html).1 none)

  unfoldable receive : Text → ℕ → ℕ → OutputFormat → HttpResponse → Result Output
  unfolding check_status plan_body_format normalize_content_type answer
  receive url max_chars max_bytes format response = check_status response >>= λ _.
      plan_body_format format (normalized_type response.content_type) >>= λ plan.
      answer url max_chars max_bytes format response plan

  -- `execute` from the check of the address on
  unfoldable pub fetch : ℕ → ℕ → OutputFormat → Text → Text → Input → Result Output
  unfolding ensure_allowed_url check_method receive
  fetch max_chars max_bytes format url host input = ensure_allowed_url net url host >>= λ _.
      check_method (unwrap_or (codes "GET") (input.str (codes "method"))) >>= λ _.
      or_error (client.send (unwrap_or (codes "GET") (input.str (codes "method"))) url input)
      >>= λ response. receive url max_chars max_bytes format response

  -- `execute`; the limits are those of the context
  unfoldable pub execute : Option ℕ → Option ℕ → Input → Result Output
  unfolding parse_format parse_max_body_chars parse_host fetch
  execute max_response_chars max_response_bytes input =
      str_field input (codes "url") (codes "missing url") >>= λ url.
      parse_format (input.str (codes "output_format")) >>= λ format.
      parse_max_body_chars (input.json (codes "max_body_chars"))
        (input.number (codes "max_body_chars")) max_response_chars
      >>= λ max_chars. parse_host net url >>= λ host.
          fetch max_chars (unwrap_or (5 * 1024 * 1024) max_response_bytes) format url host input
