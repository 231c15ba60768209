-- ===== src/Checksum.antt =====
-- The incremental checksum of src/tcpedit/incremental_checksum.h: one's complement sums of 16 and
-- 32 bits, as unsigned words with their wrap.
pub mod Replace
pub mod Partial
mod Tests
use tcpreplay.Prelude.{
  ℕ, ◌+◌, ◌-◌, ◌/◌, ◌%◌, ◌^◌, Bool, true, false, ltb, u16, u32, not16, not32, ◌>>>◌,
}

-- A comparison, as the `int` that C makes of it.
abbrev pub bit : Bool → ℕ
bit true = 1
bit false = 0

-- `x & 0xffff` is the remainder by `2 ^ 16`.
unfoldable pub csum_fold : ℕ → ℕ
csum_fold csum =
    let once = u32 (csum % 2 ^ 16 + csum >>> 16) in
    let twice = u32 (once % 2 ^ 16 + once >>> 16) in not16 twice

unfoldable pub csum_add : ℕ → ℕ → ℕ
csum_add csum addend = let res = u32 (csum + addend) in u32 (res + bit (ltb res addend))

unfoldable pub csum_sub : ℕ → ℕ → ℕ
csum_sub csum addend = csum_add csum (not32 addend)

unfoldable pub csum16_add : ℕ → ℕ → ℕ
csum16_add csum addend = let res = u16 (csum + addend) in u16 (res + bit (ltb res addend))

unfoldable pub csum16_sub : ℕ → ℕ → ℕ
csum16_sub csum addend = csum16_add csum (not16 addend)

-- A 16-bit sum as a 32-bit one.
abbrev pub csum_unfold : ℕ → ℕ
csum_unfold n = n

unfoldable pub csum_replace4 : ℕ → ℕ → ℕ → ℕ
csum_replace4 sum from to = csum_fold (csum_add (csum_sub (not32 (csum_unfold sum)) from) to)

unfoldable pub csum_replace2 : ℕ → ℕ → ℕ → ℕ
csum_replace2 sum from to = not16 (csum16_add (csum16_sub (not16 sum) from) to)
