-- ===== src/Tools/Network/Ranges.antt =====
-- The IPv4 addresses that are refused, as a table of CIDR blocks, and the IPv6 addresses in which
-- an IPv4 address is embedded.
use picobot.Base.{ℕ, ◌+◌, ◌*◌, ◌/◌, ◌<◌, Bool, ◌≡◌, refl, ◌&&◌, ◌||◌, ◌==◌, leb, arith}
use picobot.Tools.Network.{Ipv4, is_non_global_ipv4}
use picobot.Tools.Network.Bits.{bit_and-top_two, bit_and-top_seven}

-- An address as one number, and whether it lies in the block of the addresses that share the
-- leading bits of `base`; `size` is the number of addresses of the block.
unfoldable pub number : Ipv4 → ℕ
number ip = ip.a * 16777216 + ip.b * 65536 + ip.c * 256 + ip.d

unfoldable in_block : ℕ → ℕ → ℕ → Bool
in_block n base size = n / size == base / size

abbrev pub IsIpv4 : Ipv4 → Type 0
IsIpv4 ip = (ip.a < 256) × ((ip.b < 256) × ((ip.c < 256) × (ip.d < 256)))

-- The blocks, in CIDR notation: 10.0.0.0/8, 172.16.0.0/12, 192.168.0.0/16, 127.0.0.0/8,
-- 169.254.0.0/16, 224.0.0.0/4, 0.0.0.0/8, 100.64.0.0/10, 192.0.0.0/24, 192.0.2.0/24,
-- 198.18.0.0/15, 198.51.100.0/24, 203.0.113.0/24 and 240.0.0.0/4.
unfoldable pub in_special_block : ℕ → Bool
unfolding in_block
in_special_block n =
    in_block n 0x0a000000 0x1000000
    || in_block n 0xac100000 0x100000
    || in_block n 0xc0a80000 0x10000
    || in_block n 0x7f000000 0x1000000
    || in_block n 0xa9fe0000 0x10000
    || in_block n 0xe0000000 0x10000000
    || in_block n 0x00000000 0x1000000
    || in_block n 0x64400000 0x400000
    || in_block n 0xc0000000 0x100
    || in_block n 0xc0000200 0x100
    || in_block n 0xc6120000 0x20000
    || in_block n 0xc6336400 0x100
    || in_block n 0xcb007100 0x100
    || in_block n 0xf0000000 0x10000000

-- A quotient of the number by a block's size, by octets.
module _ (a b c d : ℕ) (hb : b < 256) (hc : c < 256) (hd : d < 256) where
  by_24 : (a * 16777216 + b * 65536 + c * 256 + d) / 0x1000000 ≡ a
  by_24 = omega arith

  by_22 : (a * 16777216 + b * 65536 + c * 256 + d) / 0x400000 ≡ a * 4 + b / 64
  by_22 = omega arith

  by_20 : (a * 16777216 + b * 65536 + c * 256 + d) / 0x100000 ≡ a * 16 + b / 16
  by_20 = omega arith

  by_17 : (a * 16777216 + b * 65536 + c * 256 + d) / 0x20000 ≡ a * 128 + b / 2
  by_17 = omega arith

  by_16 : (a * 16777216 + b * 65536 + c * 256 + d) / 0x10000 ≡ a * 256 + b
  by_16 = omega arith

  by_8 : (a * 16777216 + b * 65536 + c * 256 + d) / 0x100 ≡ a * 65536 + b * 256 + c
  by_8 = omega arith

  by_28 : (a * 16777216 + b * 65536 + c * 256 + d) / 0x10000000 ≡ a / 16
  by_28 = omega arith

-- A block's test, by octets.
module _ (a b c : ℕ) (ha : a < 256) (hb : b < 256) (hc : c < 256) where
  test_22 : (a * 4 + b / 64 == 401) ≡ (a == 100 && b / 64 * 64 == 64)
  test_22 = ground arith

  test_20 : (a * 16 + b / 16 == 2753) ≡ (a == 172 && (leb 16 b && leb b 31))
  test_20 = ground arith

  test_17 : (a * 128 + b / 2 == 25353) ≡ (a == 198 && b / 2 * 2 == 18)
  test_17 = ground arith

  test_16 : (x y : ℕ) → y < 256 → (a * 256 + b == x * 256 + y) ≡ (a == x && b == y)
  test_16 x y hy = ground arith

  test_8 :
      (x y z : ℕ)
      → y < 256
      → z < 256
      → (a * 65536 + b * 256 + c == x * 65536 + y * 256 + z) ≡ (a == x && (b == y && c == z))
  test_8 x y z hy hz = ground arith

  multicast_test : (a / 16 == 14) ≡ (leb 224 a && leb a 239)
  multicast_test = ground arith

  reserved_test : (a / 16 == 15) ≡ leb 240 a
  reserved_test = ground arith

block_tests :
    (a b c d : ℕ)
    → IsIpv4 (record { a = a; b = b; c = c; d = d })
    → in_special_block (a * 16777216 + b * 65536 + c * 256 + d) ≡ (
        a == 10
        || a == 172 && (leb 16 b && leb b 31)
        || a == 192 && b == 168
        || a == 127
        || a == 169 && b == 254
        || leb 224 a && leb a 239
        || a == 0
        || a == 100 && b / 64 * 64 == 64
        || a == 192 && (b == 0 && c == 0)
        || a == 192 && (b == 0 && c == 2)
        || a == 198 && b / 2 * 2 == 18
        || a == 198 && (b == 51 && c == 100)
        || a == 203 && (b == 0 && c == 113)
        || leb 240 a)
unfolding in_special_block in_block
block_tests a b c d h =
    rw
      (
        by_24 a b c d h.1.0 h.1.1.0 h.1.1.1,
        by_22 a b c d h.1.0 h.1.1.0 h.1.1.1,
        by_20 a b c d h.1.0 h.1.1.0 h.1.1.1,
        by_17 a b c d h.1.0 h.1.1.0 h.1.1.1,
        by_16 a b c d h.1.0 h.1.1.0 h.1.1.1,
        by_8 a b c d h.1.0 h.1.1.0 h.1.1.1,
        by_28 a b c d h.1.0 h.1.1.0 h.1.1.1,
        test_22 a b c h.0 h.1.0 h.1.1.0,
        test_20 a b c h.0 h.1.0 h.1.1.0,
        test_17 a b c h.0 h.1.0 h.1.1.0,
        test_16 a b c h.0 h.1.0 h.1.1.0 192 168 (omega arith),
        test_16 a b c h.0 h.1.0 h.1.1.0 169 254 (omega arith),
        test_8 a b c h.0 h.1.0 h.1.1.0 192 0 0 (omega arith) (omega arith),
        test_8 a b c h.0 h.1.0 h.1.1.0 192 0 2 (omega arith) (omega arith),
        test_8 a b c h.0 h.1.0 h.1.1.0 198 51 100 (omega arith) (omega arith),
        test_8 a b c h.0 h.1.0 h.1.1.0 203 0 113 (omega arith) (omega arith),
        multicast_test a b c h.0 h.1.0 h.1.1.0,
        reserved_test a b c h.0 h.1.0 h.1.1.0,
      )
      refl

-- An address of four octets under 256 is refused exactly when it lies in one of the special blocks.
pub is_non_global_ipv4-blocks :
    (ip : Ipv4) → IsIpv4 ip → is_non_global_ipv4 ip ≡ in_special_block (number ip)
unfolding is_non_global_ipv4 number
is_non_global_ipv4-blocks ip h =
    rw (block_tests ip.a ip.b ip.c ip.d h, bit_and-top_two ip.b h.1.0, bit_and-top_seven ip.b h.1.0)
      (ground arith)
