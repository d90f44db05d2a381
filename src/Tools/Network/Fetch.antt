-- ===== src/Tools/Network/Fetch.antt =====
-- src/tools/net_utils.rs: `parse_host`, `ensure_allowed_url` and `read_response_bytes`. The parser
-- of URLs, the resolver of host names and the printer of addresses are the fields of a `Net`.
use picobot.Base.{
  Text, codes, ℕ, ◌+◌, ◌-◌, ◌^◌, min, Bool, false, List, [], ◌∷◌, ◌++◌, Option, none, some, length,
  ltb, not, ◌||◌, ◌==◌, if◌then◌else◌, is_empty, text_eq, ◌⊎◌, inl, inr,
}
use picobot.Kernel.Tool.{Result, ok, err, new_error, other, ◌>>=◌}
use picobot.Kernel.Capability.{is_some}
use picobot.Tools.Input.{Done, or_error, ok_or, unwrap_or}
use picobot.Tools.Network.{IpAddress, is_private_ip}

-- `reqwest::Url`, as far as the tools read it
pub record Url : Type 0 where
  pub scheme : Text
  pub host_str : Option Text
  pub username : Text
  pub password : Option Text
  pub port_or_known_default : Option ℕ

-- `Url::parse` and `lookup_host`, with the text of their errors, and the `Display` of `IpAddr` and `u64`
pub record Net : Type 0 where
  pub parse : Text → Text ⊎ Url
  pub lookup_host : Text → ℕ → Text ⊎ List IpAddress
  pub show : IpAddress → Text
  pub show_u64 : ℕ → Text

-- `parse_host`
unfoldable pub parse_host : Net → Text → Result Text
unfolding text_eq
parse_host net url = or_error (net.parse url) >>= λ parsed.
    if text_eq parsed.scheme (codes "http") || text_eq parsed.scheme (codes "https")
    then ok_or (codes "missing host") parsed.host_str
    else err (new_error (other (codes "unsupported URL scheme")))

-- The loop of `ensure_allowed_url` over the addresses
unfoldable pub check_addresses : Net → Text → List IpAddress → Result Done
unfolding is_private_ip
check_addresses net host [] = ok tt
check_addresses net host (ip ∷ addrs) =
    let rest = check_addresses net host addrs in
    if is_private_ip ip
    then err (
        new_error (
          other (
            codes "SSRF blocked: "
            ++ (host ++ (codes " resolves to non-global IP " ++ net.show ip)))))
    else rest

-- `ensure_allowed_url`; the context is only logged
unfoldable pub ensure_allowed_url : Net → Text → Text → Result Done
unfolding check_addresses is_empty
ensure_allowed_url net url host = or_error (net.parse url) >>= λ parsed.
    if not (is_empty parsed.username) || is_some parsed.password
    then err (new_error (other (codes "credentials in URL are not allowed")))
    else if unwrap_or 80 parsed.port_or_known_default == 0
    then err (new_error (other (codes "invalid port 0")))
    else (or_error (net.lookup_host host (unwrap_or 80 parsed.port_or_known_default)) >>= λ addrs.
        check_addresses net host addrs)

-- `reqwest::Response`, as its length header and the chunks of its body as they arrive
pub record Response : Type 0 where
  pub content_length : Option ℕ
  pub chunks : List (Text ⊎ List ℕ)

abbrev max_u64 : ℕ
max_u64 = 2 ^ 64 - 1

-- `u64::saturating_add`
abbrev pub saturating_add : ℕ → ℕ → ℕ
saturating_add a b = min (a + b) max_u64

-- The loop of `read_response_bytes`
unfoldable pub read_chunks : Net → Text → ℕ → ℕ → List ℕ → List (Text ⊎ List ℕ) → Result (List ℕ)
read_chunks net kind max_bytes size buffer [] = ok buffer
read_chunks net kind max_bytes size buffer (inl e ∷ chunks) = err (new_error (other e))
read_chunks net kind max_bytes size buffer (inr chunk ∷ chunks) =
    let rest =
      read_chunks net kind max_bytes (saturating_add size (length chunk)) (buffer ++ chunk)
        chunks in
    if ltb max_bytes (saturating_add size (length chunk))
    then err (
        new_error (
          other
            (kind ++ (codes " exceeded limit of " ++ (net.show_u64 max_bytes ++ codes " bytes")))))
    else rest

-- Whether the length header is over the limit.
abbrev pub announces_more : ℕ → Option ℕ → Bool
announces_more max_bytes none = false
announces_more max_bytes (some len) = ltb max_bytes len

-- `read_response_bytes`
unfoldable pub read_response_bytes : Net → Response → ℕ → Text → Result (List ℕ)
unfolding read_chunks
read_response_bytes net response max_bytes kind =
    if max_bytes == 0
    then err (new_error (other (kind ++ codes " is too large: limit is 0 bytes")))
    else if announces_more max_bytes response.content_length
    then err (
        new_error (
          other (
            kind
            ++ (codes " is too large: "
                ++ (net.show_u64 (unwrap_or 0 response.content_length)
                    ++ (codes " bytes (limit " ++ (net.show_u64 max_bytes ++ codes ")")))))))
    else read_chunks net kind max_bytes 0 [] response.chunks
