-- ===== src/Tools/Network.antt =====
-- src/tools/net_utils.rs: which IP addresses the tools may connect to. The predicates of
-- `std::net` are written out by their octets and segments.
pub mod Bits
pub mod Embedded
pub mod Fetch
pub mod Guard
pub mod Ranges
use Prim.Native.Nat.{bit_and}
use picobot.Base.{
  ℕ, ◌/◌, ◌%◌, Bool, true, false, Option, none, some, ◌&&◌, ◌||◌, ◌==◌, leb, if◌then◌else◌,
}

-- `Ipv4Addr`, by its octets
pub record Ipv4 : Type 0 where
  pub a : ℕ
  pub b : ℕ
  pub c : ℕ
  pub d : ℕ

-- `Ipv6Addr`, by its segments of 16 bits
pub record Ipv6 : Type 0 where
  pub s0 : ℕ
  pub s1 : ℕ
  pub s2 : ℕ
  pub s3 : ℕ
  pub s4 : ℕ
  pub s5 : ℕ
  pub s6 : ℕ
  pub s7 : ℕ

-- `IpAddr`
pub data IpAddress : Type 0 where
  v4 : Ipv4 → IpAddress
  v6 : Ipv6 → IpAddress

-- `Ipv4Addr::is_private`, `is_loopback`, `is_link_local`, `is_broadcast`, `is_unspecified` and
-- `is_multicast`
abbrev is_private : Ipv4 → Bool
is_private ip =
    ip.a == 10 || ip.a == 172 && (leb 16 ip.b && leb ip.b 31) || ip.a == 192 && ip.b == 168

abbrev is_loopback : Ipv4 → Bool
is_loopback ip = ip.a == 127

abbrev is_link_local : Ipv4 → Bool
is_link_local ip = ip.a == 169 && ip.b == 254

abbrev is_broadcast : Ipv4 → Bool
is_broadcast ip = ip.a == 255 && (ip.b == 255 && (ip.c == 255 && ip.d == 255))

abbrev is_unspecified : Ipv4 → Bool
is_unspecified ip = ip.a == 0 && (ip.b == 0 && (ip.c == 0 && ip.d == 0))

abbrev is_multicast : Ipv4 → Bool
is_multicast ip = leb 224 ip.a && leb ip.a 239

-- `is_non_global_ipv4`
unfoldable pub is_non_global_ipv4 : Ipv4 → Bool
is_non_global_ipv4 ip =
    is_private ip
    || is_loopback ip
    || is_link_local ip
    || is_broadcast ip
    || is_unspecified ip
    || is_multicast ip
    || ip.a == 0
    || ip.a == 100 && bit_and ip.b 0b11000000 == 0b01000000
    || ip.a == 192 && (ip.b == 0 && ip.c == 0)
    || ip.a == 192 && (ip.b == 0 && ip.c == 2)
    || ip.a == 198 && bit_and ip.b 0b11111110 == 18
    || ip.a == 198 && (ip.b == 51 && ip.c == 100)
    || ip.a == 203 && (ip.b == 0 && ip.c == 113)
    || leb 240 ip.a

-- The octets of two segments: `(high >> 8) as u8`, `high as u8`, and the same of `low`
unfoldable pub octets_of : ℕ → ℕ → Ipv4
octets_of high low = record {
  a = high / 256 % 256;
  b = high % 256;
  c = low / 256 % 256;
  d = low % 256;
}

-- `Ipv6Addr::is_loopback`, `is_unspecified`, `is_multicast` and `to_ipv4_mapped`
abbrev upper_zero : Ipv6 → Bool
upper_zero ip = ip.s0 == 0 && (ip.s1 == 0 && (ip.s2 == 0 && (ip.s3 == 0 && ip.s4 == 0)))

abbrev is_loopback_v6 : Ipv6 → Bool
is_loopback_v6 ip = upper_zero ip && (ip.s5 == 0 && (ip.s6 == 0 && ip.s7 == 1))

abbrev is_unspecified_v6 : Ipv6 → Bool
is_unspecified_v6 ip = upper_zero ip && (ip.s5 == 0 && (ip.s6 == 0 && ip.s7 == 0))

abbrev is_multicast_v6 : Ipv6 → Bool
is_multicast_v6 ip = bit_and ip.s0 0xff00 == 0xff00

unfoldable pub to_ipv4_mapped : Ipv6 → Option Ipv4
unfolding octets_of
to_ipv4_mapped ip = if upper_zero ip && ip.s5 == 0xffff then some (octets_of ip.s6 ip.s7) else none

-- `ipv4_compatible_v6`
unfoldable pub ipv4_compatible_v6 : Ipv6 → Option Ipv4
unfolding octets_of
ipv4_compatible_v6 ip =
    if upper_zero ip && ip.s5 == 0
    then (if ip.s6 == 0 && (ip.s7 == 0 || ip.s7 == 1) then none else some (octets_of ip.s6 ip.s7))
    else none

-- `nat64_embedded_ipv4`
unfoldable pub nat64_embedded_ipv4 : Ipv6 → Option Ipv4
unfolding octets_of
nat64_embedded_ipv4 ip =
    if ip.s0 == 0x0064
      && (ip.s1 == 0xff9b && (ip.s2 == 0 && (ip.s3 == 0 && (ip.s4 == 0 && ip.s5 == 0))))
    then some (octets_of ip.s6 ip.s7)
    else none

-- The first test of `is_non_global_ipv6`
unfoldable pub is_special_v6 : Ipv6 → Bool
is_special_v6 ip =
    is_loopback_v6 ip
    || is_unspecified_v6 ip
    || is_multicast_v6 ip
    || bit_and ip.s0 0xffc0 == 0xfe80
    || bit_and ip.s0 0xffc0 == 0xfec0
    || bit_and ip.s0 0xfe00 == 0xfc00
    || ip.s0 == 0x2001 && ip.s1 == 0x0db8
    || ip.s0 == 0x2001 && ip.s1 == 0x0000

-- An embedded address is judged, if there is one.
unfoldable pub judge_or : Option Ipv4 → Bool → Bool
unfolding is_non_global_ipv4
judge_or none otherwise = otherwise
judge_or (some ip) otherwise = is_non_global_ipv4 ip

-- `is_non_global_ipv6`
unfoldable pub is_non_global_ipv6 : Ipv6 → Bool
unfolding is_special_v6 judge_or to_ipv4_mapped ipv4_compatible_v6 nat64_embedded_ipv4
is_non_global_ipv6 ip =
    if is_special_v6 ip
    then true
    else judge_or (to_ipv4_mapped ip)
        (judge_or (ipv4_compatible_v6 ip) (judge_or (nat64_embedded_ipv4 ip) false))

-- `is_private_ip`
unfoldable pub is_private_ip : IpAddress → Bool
unfolding is_non_global_ipv4 is_non_global_ipv6
is_private_ip (v4 ip) = is_non_global_ipv4 ip
is_private_ip (v6 ip) = is_non_global_ipv6 ip
