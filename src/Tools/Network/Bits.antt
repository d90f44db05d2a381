-- ===== src/Tools/Network/Bits.antt =====
-- Masks of the address tests: a mask of leading ones divides.
use Prim.Native.Nat.{bit_and}
use picobot.Base.{ℕ, zero, suc, ◌*◌, ◌/◌, ◌<◌, Bool, true, ◌≡◌, refl, ◌==◌, ==_iff, ◌&&◌, arith}

-- A test of the numbers under a bound, one by one.
passes : (ℕ → Bool) → ℕ → Bool
passes test zero = true
passes test (suc top) = passes test top && test top

passes_lem :
    (test : ℕ → Bool) (top value : ℕ) → value < top → passes test top ≡ true → test value ≡ true
unfolding passes
passes_lem test (suc top) value under passed = ground (arith, passes_lem test top value)
passes_lem test zero value under passed = absurd (omega arith)

-- For octets, the mask by its number and the power of two that it divides by.
abbrev masks : ℕ → ℕ → ℕ → Bool
masks mask power octet = bit_and octet mask == octet / power * power

masks_two : passes (masks 0b11000000 64) 256 ≡ true
unfolding passes
masks_two = refl

masks_seven : passes (masks 0b11111110 2) 256 ≡ true
unfolding passes
masks_seven = refl

pub bit_and-top_two : (octet : ℕ) → octet < 256 → bit_and octet 0b11000000 ≡ octet / 64 * 64
bit_and-top_two octet under =
    (==_iff _ (octet / 64 * 64)).0 (passes_lem (masks 0b11000000 64) 256 octet under masks_two)

pub bit_and-top_seven : (octet : ℕ) → octet < 256 → bit_and octet 0b11111110 ≡ octet / 2 * 2
bit_and-top_seven octet under =
    (==_iff _ (octet / 2 * 2)).0 (passes_lem (masks 0b11111110 2) 256 octet under masks_seven)
