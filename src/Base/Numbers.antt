-- ===== src/Base/Numbers.antt =====
-- Numbers in texts: `str::parse::<u64>`, saturating multiplication, and the bytes of UTF-8.
use Prim.Native.Nat.{ℕ, ◌+◌, ◌-◌, ◌*◌, ◌/◌, ◌%◌, ◌^◌, min}
use mathlib.Core.List.{List, [], ◌∷◌, ◌++◌}
use mathlib.Core.Option.{Option, none, some}
use picobot.Base.Tests.{if◌then◌else◌, ltb, leb, ◌==◌}
use picobot.Base.Strings.{Text, is_ascii_digit, utf8_len}

unfoldable pub digits_from : ℕ → Text → Option ℕ
digits_from n [] = some n
digits_from n (c ∷ s) =
    let rest = digits_from (n * 10 + (c - b'0')) s in if is_ascii_digit c then rest else none

abbrev within_u64 : Option ℕ → Option ℕ
within_u64 none = none
within_u64 (some n) = if ltb n (2 ^ 64) then some n else none

abbrev pub digits : Text → Option ℕ
digits [] = none
digits (c ∷ s) = within_u64 (digits_from 0 (c ∷ s))

-- `str::parse::<u64>`: a plus sign may stand in front.
unfoldable pub parse_u64 : Text → Option ℕ
unfolding digits_from
parse_u64 [] = none
parse_u64 (c ∷ s) = if c == b'+' then digits s else digits (c ∷ s)

-- `u64::saturating_mul`
abbrev pub saturating_mul : ℕ → ℕ → ℕ
saturating_mul a b = min (a * b) (2 ^ 64 - 1)

-- `str::as_bytes`
abbrev utf8 : ℕ → List ℕ
utf8 c =
    if leb c 0x7f
    then c ∷ []
    else if leb c 0x7ff
    then (0xc0 + c / 64) ∷ (0x80 + c % 64) ∷ []
    else if leb c 0xffff
    then (0xe0 + c / 4096) ∷ (0x80 + c / 64 % 64) ∷ (0x80 + c % 64) ∷ []
    else (0xf0 + c / 262144) ∷ (0x80 + c / 4096 % 64) ∷ (0x80 + c / 64 % 64) ∷ (0x80 + c % 64) ∷ []

unfoldable pub as_bytes : Text → List ℕ
as_bytes [] = []
as_bytes (c ∷ s) = utf8 c ++ as_bytes s

-- `&value[at..]`: `none` is the panic when `at` is past the end or inside a character.
unfoldable pub slice_from : ℕ → Text → Option Text
slice_from at [] = if at == 0 then some [] else none
slice_from at (c ∷ s) =
    let rest = slice_from (at - utf8_len c) s in
    if at == 0 then some (c ∷ s) else if leb (utf8_len c) at then rest else none
