-- ===== src/Cache/Slots.antt =====
-- One byte of the cache as four two-bit slots: what marking a packet writes and checking one reads.
use tcpreplay.Prelude.{
  ℕ, ◌+◌, ◌-◌, ◌*◌, ◌/◌, ◌%◌, ◌^◌, ◌<◌, ◌≡◌, refl, sym, Bool, true, false, arith, ltb, ◌==◌,
  if◌then◌else◌, ◌⊎◌, inl, inr,
}
use tcpreplay.Prelude.Bits.{passes, passes_at}
use tcpreplay.Cache.{
  Dir, nosend, c2s, s2c, is_c2s, send_flag, mark, bit_test, check_byte, add_result,
}

-- Slot `j` of a byte, a number below 4.
abbrev pub slot : ℕ → ℕ → ℕ
slot byte j = byte / 4 ^ j % 4

-- The two bits of a packet.
abbrev pub code : ℕ → Dir → ℕ
code send d = if send == send_flag then (if is_c2s d then 3 else 2) else 0

abbrev pub decode : ℕ → Dir
decode c = if ltb c 2 then nosend else if c % 2 == 1 then c2s else s2c

pub decode-code : (send : ℕ) (d : Dir) → decode (code send d) ≡ add_result send d
unfolding add_result
decode-code send d = ground arith

pub code-lt : (send : ℕ) (d : Dir) → code send d < 4
code-lt send d = ground arith

pub Below4-cases : (j : ℕ) → j < 4 → (j ≡ 0) ⊎ (j ≡ 1) ⊎ (j ≡ 2) ⊎ (j ≡ 3)
Below4-cases j h = omega arith

abbrev same : Bool → Bool → Bool
same true b = b
same false true = false
same false false = true

same_sound : (a b : Bool) → same a b ≡ true → a ≡ b
same_sound true b h = sym h
same_sound false true h = h
same_sound false false h = refl

bit_table : passes (λ b. passes (λ k. same (bit_test b k) (b / 2 ^ k % 2 == 1)) 8) 256 ≡ true
unfolding passes bit_test
bit_table = refl

-- The test on promoted chars reads one bit of the byte, the sign bit included.
pub bit_test_lem : (b k : ℕ) → b < 256 → k < 8 → bit_test b k ≡ (b / 2 ^ k % 2 == 1)
bit_test_lem b k hb hk = same_sound _ _ (passes_at _ 8 hk (passes_at _ 256 hb bit_table))

-- A packet that is sent adds its code to an empty slot, and no carry leaves the slot.
pub mark-eq-add :
    (b j : ℕ) (d : Dir)
    → b < 256
    → j < 4
    → slot b j ≡ 0
    → (mark b (j * 2 + 1) d ≡ b + (if is_c2s d then 3 else 2) * 4 ^ j)
      × (mark b (j * 2 + 1) d < 256)
unfolding mark
mark-eq-add b j d hb hj free = elim (Below4-cases j hj) [
  | inl e ↦ ground arith
  | inr r ↦ ground arith
]

-- Adding a code to an empty slot fills that slot and changes no other.
pub slot-add :
    (b j k c : ℕ)
    → b < 256
    → j < 4
    → k < 4
    → c < 4
    → slot b j ≡ 0
    → slot (b + c * 4 ^ j) k ≡ (if k == j then c else slot b k)
slot-add b j k c hb hj hk hc free = elim (Below4-cases j hj) [
  | inl e ↦ elim (Below4-cases k hk) [ inl e' ↦ ground arith | inr r' ↦ ground arith ]
  | inr r ↦ elim (Below4-cases k hk) [ inl e' ↦ ground arith | inr r' ↦ ground arith ]
]

pub slot-add-lt : (b j c : ℕ) → b < 256 → j < 4 → c < 4 → slot b j ≡ 0 → b + c * 4 ^ j < 256
slot-add-lt b j c hb hj hc free = elim (Below4-cases j hj) [
  | inl e ↦ ground arith
  | inr r ↦ ground arith
]

pub same_byte : (i n : ℕ) → (i / 4 == n / 4) ≡ true → (i % 4 == n % 4) ≡ (i == n)
same_byte i n h = ground arith

pub other_byte : (i n : ℕ) → (i / 4 == n / 4) ≡ false → (i == n) ≡ false
other_byte i n h = ground arith

-- `check_cache` decodes the slot of its packet.
pub check_byte-eq-decode :
    (b j : ℕ) → b < 256 → j < 4 → check_byte b (j * 2 + 1) ≡ decode (slot b j)
unfolding check_byte
check_byte-eq-decode b j hb hj =
    rw
      (bit_test_lem b (j * 2 + 1) hb (omega arith), bit_test_lem b (j * 2 + 1 - 1) hb (omega arith))
      (elim (Below4-cases j hj) [ inl e ↦ ground arith | inr r ↦ ground arith ])
