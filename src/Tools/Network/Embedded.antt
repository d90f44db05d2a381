-- ===== src/Tools/Network/Embedded.antt =====
-- The IPv6 addresses that are judged by the IPv4 address in their last 32 bits.
use picobot.Base.{
  ℕ, ◌+◌, ◌*◌, ◌/◌, ◌%◌, ◌<◌, Bool, true, false, ◌≡◌, refl, ap, sym, ◌&&◌, ◌||◌, ◌==◌,
  if◌then◌else◌, arith, some, none,
}
use picobot.Tools.Network.{
  Ipv4, Ipv6, v4, v6, is_private_ip, is_non_global_ipv4, is_non_global_ipv6, octets_of,
  is_special_v6, to_ipv4_mapped, ipv4_compatible_v6, nat64_embedded_ipv4, judge_or,
}
use picobot.Tools.Network.Ranges.{IsIpv4}

-- `::ffff:a.b.c.d`, `::a.b.c.d` and `64:ff9b::a.b.c.d`
abbrev with_prefix : ℕ → ℕ → ℕ → Ipv4 → Ipv6
with_prefix s0 s1 s5 ip = record {
  s0 = s0;
  s1 = s1;
  s2 = 0;
  s3 = 0;
  s4 = 0;
  s5 = s5;
  s6 = ip.a * 256 + ip.b;
  s7 = ip.c * 256 + ip.d;
}

abbrev mapped : Ipv4 → Ipv6
mapped ip = with_prefix 0 0 0xffff ip

abbrev compatible : Ipv4 → Ipv6
compatible ip = with_prefix 0 0 0 ip

abbrev nat64 : Ipv4 → Ipv6
nat64 ip = with_prefix 0x0064 0xff9b 0 ip

high_octet : (a b : ℕ) → a < 256 → b < 256 → (a * 256 + b) / 256 % 256 ≡ a
high_octet a b ha hb = omega arith

low_octet : (a b : ℕ) → b < 256 → (a * 256 + b) % 256 ≡ b
low_octet a b hb = omega arith

octets_of_lem : (ip : Ipv4) → IsIpv4 ip → octets_of (ip.a * 256 + ip.b) (ip.c * 256 + ip.d) ≡ ip
unfolding octets_of
octets_of_lem ip h =
    rw
      (
        high_octet ip.a ip.b h.0 h.1.0,
        low_octet ip.a ip.b h.1.0,
        high_octet ip.c ip.d h.1.1.0 h.1.1.1,
        low_octet ip.c ip.d h.1.1.1,
      )
      refl

is_non_global_ipv6-mapped :
    (ip : Ipv4) → IsIpv4 ip → is_non_global_ipv6 (mapped ip) ≡ is_non_global_ipv4 ip
unfolding is_non_global_ipv6 is_special_v6 to_ipv4_mapped judge_or
is_non_global_ipv6-mapped ip h = ap is_non_global_ipv4 (octets_of_lem ip h)

is_non_global_ipv6-nat64 :
    (ip : Ipv4) → IsIpv4 ip → is_non_global_ipv6 (nat64 ip) ≡ is_non_global_ipv4 ip
unfolding is_non_global_ipv6 is_special_v6 to_ipv4_mapped judge_or nat64_embedded_ipv4
    ipv4_compatible_v6
is_non_global_ipv6-nat64 ip h = ap is_non_global_ipv4 (octets_of_lem ip h)

-- `::` and `::1` are not read as IPv4 addresses
reserved : Ipv4 → Bool
reserved ip = ip.a * 256 + ip.b == 0 && (ip.c * 256 + ip.d == 0 || ip.c * 256 + ip.d == 1)

is_special_v6-compatible : (ip : Ipv4) → is_special_v6 (compatible ip) ≡ reserved ip
unfolding is_special_v6 reserved
is_special_v6-compatible ip = ground arith

reserved_lem : (ip : Ipv4) → reserved ip ≡ true → is_non_global_ipv4 ip ≡ true
unfolding is_non_global_ipv4 reserved
reserved_lem ip h = ground arith

ipv4_compatible_v6_lem :
    (ip : Ipv4)
    → IsIpv4 ip
    → ipv4_compatible_v6 (compatible ip) ≡ (if reserved ip then none else some ip)
unfolding ipv4_compatible_v6 reserved
ipv4_compatible_v6_lem ip h = rw (octets_of_lem ip h) refl

judge_compatible :
    (r : Bool) (ip : Ipv4) (otherwise : Bool)
    → (r ≡ true → is_non_global_ipv4 ip ≡ true)
    → (if r then true else judge_or (if r then none else some ip) otherwise) ≡ is_non_global_ipv4 ip
unfolding judge_or
judge_compatible true ip otherwise h = sym (h refl)
judge_compatible false ip otherwise h = refl

is_non_global_ipv6-compatible :
    (ip : Ipv4) → IsIpv4 ip → is_non_global_ipv6 (compatible ip) ≡ is_non_global_ipv4 ip
unfolding is_non_global_ipv6 to_ipv4_mapped judge_or
is_non_global_ipv6-compatible ip h =
    rw (is_special_v6-compatible ip, ipv4_compatible_v6_lem ip h)
      (judge_compatible (reserved ip) ip _ (reserved_lem ip))

-- An IPv6 address in which an IPv4 address of four octets under 256 is embedded, as a mapped, a compatible or a NAT64
-- address, is refused exactly when that IPv4 address is.
is_private_ip-embedded :
    (ip : Ipv4)
    → IsIpv4 ip
    → (is_private_ip (v6 (mapped ip)) ≡ is_private_ip (v4 ip))
      × ((is_private_ip (v6 (compatible ip)) ≡ is_private_ip (v4 ip))
          × (is_private_ip (v6 (nat64 ip)) ≡ is_private_ip (v4 ip)))
unfolding is_private_ip
is_private_ip-embedded ip h = (
  is_non_global_ipv6-mapped ip h,
  (is_non_global_ipv6-compatible ip h, is_non_global_ipv6-nat64 ip h),
)
