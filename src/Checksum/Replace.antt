-- ===== src/Checksum/Replace.antt =====
-- RFC 1624: replacing a field and its checksum keeps the sum of the packet at 0 modulo 2 ^ 16 - 1.
use tcpreplay.Prelude.{ℕ, ◌+◌, ◌%◌, ◌^◌, ◌<◌, ◌≡◌, arith, not16, not32}
use tcpreplay.Checksum.{
  csum_fold, csum_add, csum_sub, csum16_add, csum16_sub, csum_replace4, csum_replace2,
}

pub csum16_add_lem :
    (a b : ℕ)
    → a < 2 ^ 16
    → b < 2 ^ 16
    → (csum16_add a b < 2 ^ 16) × (csum16_add a b % 65535 ≡ (a + b) % 65535)
unfolding csum16_add
csum16_add_lem a b ha hb = ground arith

pub csum_add_lem :
    (a b : ℕ)
    → a < 2 ^ 32
    → b < 2 ^ 32
    → (csum_add a b < 2 ^ 32) × (csum_add a b % 65535 ≡ (a + b) % 65535)
unfolding csum_add
csum_add_lem a b ha hb = ground arith

pub csum_fold_lem : (a : ℕ) → a < 2 ^ 32 → (csum_fold a < 2 ^ 16) × ((csum_fold a + a) % 65535 ≡ 0)
unfolding csum_fold
csum_fold_lem a ha = ground arith

-- `rest` is the sum of all other words that the checksum covers. If the checksum is right for the
-- old field, the one that `csum_replace2` makes is right for the new field, and has 16 bits.
pub csum_replace2-keeps_sum :
    (rest sum from to : ℕ)
    → sum < 2 ^ 16
    → from < 2 ^ 16
    → to < 2 ^ 16
    → (rest + from + sum) % 65535 ≡ 0
    → ((rest + to + csum_replace2 sum from to) % 65535 ≡ 0) × (csum_replace2 sum from to < 2 ^ 16)
unfolding csum_replace2 csum16_sub
csum_replace2-keeps_sum rest sum from to hs hf ht valid =
    let minus = csum16_add_lem (not16 sum) (not16 from) (omega arith) (omega arith) in
    let plus = csum16_add_lem (csum16_add (not16 sum) (not16 from)) to minus.0 ht in omega arith

-- `rest` is the sum of all other words that the checksum covers. If the checksum is right for the
-- old field of 32 bits, the one that `csum_replace4` makes is right for the new field, and has 16
-- bits.
pub csum_replace4-keeps_sum :
    (rest sum from to : ℕ)
    → sum < 2 ^ 16
    → from < 2 ^ 32
    → to < 2 ^ 32
    → (rest + from + sum) % 65535 ≡ 0
    → ((rest + to + csum_replace4 sum from to) % 65535 ≡ 0) × (csum_replace4 sum from to < 2 ^ 16)
unfolding csum_replace4 csum_sub
csum_replace4-keeps_sum rest sum from to hs hf ht valid =
    let minus = csum_add_lem (not32 sum) (not32 from) (omega arith) (omega arith) in
    let plus = csum_add_lem (csum_add (not32 sum) (not32 from)) to minus.0 ht in
    let fold = csum_fold_lem (csum_add (csum_add (not32 sum) (not32 from)) to) plus.0 in omega arith
