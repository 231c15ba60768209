-- ===== src/Replay/Unique/Laws.antt =====
-- The edit of both addresses keeps their sum, and each pass has addresses of its own.
use tcpreplay.Prelude.{
  ℕ, ◌+◌, ◌%◌, ◌^◌, ◌<◌, ◌≡◌, ◌≢◌, arith, Bool, false, u32, ltb, Bool-cases, inl, inr,
}
use tcpreplay.Replay.Unique.{sub32, Pair, compensate, move_of, lowers_source, flip, unique_pair}

-- Two words of 32 bits with the sum of `src` and `dst`, as a checksum adds them up.
abbrev pub SameSum : ℕ → ℕ → Pair → Type 0
SameSum src dst p = ((p.0 + p.1) % 65535 ≡ (src + dst) % 65535) × (p.0 < 2 ^ 32) × (p.1 < 2 ^ 32)

compensate-SameSum :
    (low high n : ℕ)
    → low < 2 ^ 32
    → high < 2 ^ 32
    → SameSum low high (compensate low high (sub32 low n) (u32 (high + n)))
unfolding compensate
compensate-SameSum low high n hl hh = ground arith

-- Two passes less than 2 ^ 32 apart differ.
compensate_differs :
    (low high i j : ℕ)
    → low < 2 ^ 32
    → high < 2 ^ 32
    → i < 2 ^ 32
    → j < 2 ^ 32
    → compensate low high (sub32 low i) (u32 (high + i))
      ≡ compensate low high (sub32 low j) (u32 (high + j))
    → i ≡ j
unfolding compensate
compensate_differs low high i j hl hh hi hj e = ground arith

flip-SameSum : (a b : ℕ) (p : Pair) → SameSum a b p → SameSum b a (flip p)
flip-SameSum a b (x, y) (s, hx, hy) = (omega arith, hy, hx)

-- Whatever the pass and the addresses, the edit keeps the sum that a checksum takes.
pub unique_pair-SameSum :
    (cached : Bool) (iteration src dst : ℕ)
    → src < 2 ^ 32
    → dst < 2 ^ 32
    → SameSum src dst (unique_pair cached iteration src dst)
unfolding unique_pair
unique_pair-SameSum cached iteration src dst hs hd =
    elim (Bool-cases (lowers_source cached iteration src dst)) [
      | inl e ↦ rw e (compensate-SameSum src dst (move_of cached iteration) hs hd)
      | inr e ↦
          rw e
            (flip-SameSum dst src _ (compensate-SameSum dst src (move_of cached iteration) hd hs))
    ]

flip_injective : (p q : Pair) → flip p ≡ flip q → p ≡ q
flip_injective (a, b) (c, d) e = ground arith

-- Without a preloaded file, so with the addresses of the capture in each pass, two passes less than
-- 2 ^ 32 apart from the first give a packet different pairs of addresses.
pub unique_pair_differs :
    (i j src dst : ℕ)
    → i < 2 ^ 32
    → j < 2 ^ 32
    → src < 2 ^ 32
    → dst < 2 ^ 32
    → i ≢ j
    → unique_pair false i src dst ≢ unique_pair false j src dst
unfolding unique_pair
unique_pair_differs i j src dst hi hj hs hd ne e = elim (Bool-cases (ltb src dst)) [
  | inl t ↦ ne (compensate_differs src dst i j hs hd hi hj (rw t at e))
  | inr t ↦ ne (compensate_differs dst src i j hd hs hi hj (flip_injective _ _ (rw t at e)))
]
