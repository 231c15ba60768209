-- ===== src/Checksum/Partial/Sum.antt =====
-- `do_csum` computes the one's complement sum of its block, wherever the block lies.
use tcpreplay.Prelude.{
  ℕ, ◌+◌, ◌*◌, ◌/◌, ◌%◌, ◌^◌, ◌≤◌, ◌<◌, ◌≡◌, refl, List, [], ◌∷◌, ◌++◌, arith, length, IsBytes,
  not32, u32, ltb, ◌∙◌, Bool-cases, inl, inr, true, false, ◌==◌, leb, drop, length-drop,
}
use tcpreplay.Checksum.{bit}
use tcpreplay.Checksum.Replace.{csum_fold_lem}
use tcpreplay.Checksum.Partial.{
  Stage, short_at, from32to16, word_loop, odd_stage, short_stage, words_stage, last_short_stage,
  last_byte_stage, even_part, do_csum, csum_partial, Quad, diff_of, le32, csum_replace16,
}

-- The sum of the little-endian 16-bit words of a block, the last byte padded with 0.
unfoldable pub words_sum : List ℕ → ℕ
words_sum [] = 0
words_sum (b ∷ []) = b
words_sum (b ∷ c ∷ bs) = b + c * 256 + words_sum bs

words_sum-nil : words_sum [] ≡ 0
unfolding words_sum
words_sum-nil = refl

-- What a stage has still to add: its result below this bound, and the sum modulo 2 ^ 16 - 1.
pub record Sums (s : Stage) (bound total : ℕ) : Type 0 where
  pub low : s.result < bound
  pub left_bytes : IsBytes s.left
  pub same : (s.result + words_sum s.left) % 65535 ≡ total % 65535

-- One round: the carry that `w > result` finds is the one that the addition lost.
carry_step :
    (r w : ℕ)
    → r < 2 ^ 32
    → w < 2 ^ 32
    → (u32 (r + w) + bit (ltb (u32 (r + w)) w) < 2 ^ 32)
      × ((u32 (r + w) + bit (ltb (u32 (r + w)) w)) % 65535 ≡ (r + w) % 65535)
carry_step r w hr hw = ground arith

last_carry :
    (bs : List ℕ) (r c total : ℕ)
    → IsBytes bs
    → r + c < 2 ^ 32
    → (r + c + words_sum bs) % 65535 ≡ total % 65535
    → Sums
        (record { result = u32 (u32 (r + c) % 2 ^ 16 + u32 (r + c) / 2 ^ 16); left = bs })
        0x1ffff
        total
last_carry bs r c total h lt e = record { low = omega arith; left_bytes = h; same = omega arith }

word_loop-Sums :
    (bs : List ℕ) (result carry total : ℕ)
    → IsBytes bs
    → result + carry < 2 ^ 32
    → (result + carry + words_sum bs) % 65535 ≡ total % 65535
    → Sums (word_loop bs result carry) 0x1ffff total
unfolding word_loop words_sum
word_loop-Sums (a ∷ b ∷ c ∷ d ∷ bs) result carry total h lt e =
    let w : ℕ = a + b * 256 + c * 65536 + d * 16777216 in
    let step = carry_step (u32 (result + carry)) w (omega arith) (omega arith) in
    word_loop-Sums bs (u32 (u32 (result + carry) + w))
      (bit (ltb (u32 (u32 (result + carry) + w)) w)) total h.1.1.1.1 step.0 (omega arith)
word_loop-Sums bs result carry total h lt e =
    unfold words_sum in last_carry bs result carry total h lt e

words_sum-shift :
    (b : ℕ) (bs : List ℕ) → words_sum (b ∷ bs) % 65535 ≡ (b + 256 * words_sum bs) % 65535
unfolding words_sum
words_sum-shift b [] = omega arith
words_sum-shift b (c ∷ bs) = omega (arith, words_sum-shift c bs)

-- At an odd address everything is added shifted by a byte.
odd_stage-odd :
    (addr : ℕ) (bytes : List ℕ)
    → IsBytes bytes
    → (addr % 2 == 1) ≡ true
    → Sums (odd_stage addr bytes) 0x10000 (256 * words_sum bytes)
unfolding odd_stage
odd_stage-odd addr [] h e =
    rw e (record { low = omega arith; left_bytes = tt; same = unfold words_sum in refl })
odd_stage-odd addr (b ∷ bs) h e =
    rw e
      (record { low = omega arith; left_bytes = h.1; same = omega (arith, words_sum-shift b bs) })

odd_stage-even :
    (addr : ℕ) (bytes : List ℕ)
    → IsBytes bytes
    → (addr % 2 == 1) ≡ false
    → Sums (odd_stage addr bytes) 0x10000 (words_sum bytes)
unfolding odd_stage
odd_stage-even addr bytes h e =
    rw e (record { low = omega arith; left_bytes = h; same = omega arith })

words_sum-drop :
    (xs : List ℕ)
    → IsBytes xs
    → (short_at xs + words_sum (drop 2 xs) ≡ words_sum xs)
      × (short_at xs < 65536)
      × IsBytes (drop 2 xs)
unfolding words_sum
words_sum-drop [] h = (refl, omega arith, tt)
words_sum-drop (b ∷ []) h = (omega arith, omega arith, tt)
words_sum-drop (b ∷ c ∷ bs) h = (refl, omega arith, h.1.1)

add_short :
    (s : Stage) (bound total : ℕ)
    → bound ≤ 2 ^ 31
    → Sums s bound total
    → Sums
        (record { result = u32 (s.result + short_at s.left); left = drop 2 s.left })
        (bound + 65536)
        total
add_short s bound total hb v =
    let d = words_sum-drop s.left v.left_bytes in
    record {
      low = omega (arith, v.low, d.1);
      left_bytes = d.2;
      same = omega (arith, v.low, d.0, d.1, v.same);
    }

Sums-weaken :
    (s : Stage) (small big total : ℕ) → small ≤ big → Sums s small total → Sums s big total
Sums-weaken s small big total h v = record {
  low = omega (arith, v.low);
  left_bytes = v.left_bytes;
  same = v.same;
}

short_stage-Sums :
    (addr : ℕ) (s : Stage) (total : ℕ)
    → Sums s 0x10000 total
    → Sums (short_stage addr s) 0x20000 total
unfolding short_stage
short_stage-Sums addr s total v = elim (Bool-cases ((addr + addr % 2) / 2 % 2 == 1)) [
  | inl e ↦ rw e (add_short s 0x10000 total (omega arith) v)
  | inr e ↦ rw e (Sums-weaken s 0x10000 0x20000 total (omega arith) v)
]

length-word_loop : (bs : List ℕ) (r c : ℕ) → length (word_loop bs r c).left < 4
unfolding word_loop
length-word_loop (a ∷ b ∷ c ∷ d ∷ bs) r k = length-word_loop bs _ _
length-word_loop bs r c = omega arith

words_stage-Sums :
    (s : Stage) (total : ℕ)
    → Sums s 0x20000 total
    → Sums (words_stage s) 0x20000 total × (length (words_stage s).left < 4)
unfolding words_stage
words_stage-Sums s total v = elim (Bool-cases (leb 4 (length s.left))) [
  | inl e ↦ rw e (
    Sums-weaken (word_loop s.left s.result 0) 0x1ffff 0x20000 total (omega arith) (
        word_loop-Sums s.left s.result 0 total v.left_bytes (omega (arith, v.low))
          (omega (arith, v.same))),
    length-word_loop s.left s.result 0,
  )
  | inr e ↦ rw e (v, ground arith)
]

last_short_stage-Sums :
    (s : Stage) (total : ℕ)
    → Sums s 0x20000 total
    → length s.left < 4
    → Sums (last_short_stage s) 0x30000 total × (length (last_short_stage s).left < 2)
unfolding last_short_stage
last_short_stage-Sums s total v h = elim (Bool-cases (length s.left / 2 % 2 == 1)) [
  | inl e ↦ rw e (add_short s 0x20000 total (omega arith) v, ground (arith, length-drop 2 s.left))
  | inr e ↦ rw e (Sums-weaken s 0x20000 0x30000 total (omega arith) v, ground arith)
]

even_part-Sums :
    (addr : ℕ) (s : Stage) (total : ℕ)
    → Sums s 0x10000 total
    → Sums (even_part addr s) 0x30000 total × (length (even_part addr s).left < 2)
unfolding even_part
even_part-Sums addr s total v = elim (Bool-cases (leb 2 (length s.left))) [
  | inl e ↦ rw e (
      let w = words_stage-Sums (short_stage addr s) total (short_stage-Sums addr s total v) in
      last_short_stage-Sums (words_stage (short_stage addr s)) total w.0 w.1)
  | inr e ↦ rw e (Sums-weaken s 0x10000 0x30000 total (omega arith) v, ground arith)
]

last_byte_cases :
    (r total : ℕ) (xs : List ℕ)
    → Sums (record { result = r; left = xs }) 0x30000 total
    → length xs < 2
    → (last_byte_stage (record { result = r; left = xs }) < 0x30100)
      × (last_byte_stage (record { result = r; left = xs }) % 65535 ≡ total % 65535)
unfolding last_byte_stage words_sum
last_byte_cases r total [] v h = omega (arith, v.low, v.same)
last_byte_cases r total (b ∷ []) v h = omega (arith, v.low, v.same, v.left_bytes.0)
last_byte_cases r total (b ∷ c ∷ bs) v h = absurd (omega arith)

last_byte_stage_lem :
    (s : Stage) (total : ℕ)
    → Sums s 0x30000 total
    → length s.left < 2
    → (last_byte_stage s < 0x30100) × (last_byte_stage s % 65535 ≡ total % 65535)
last_byte_stage_lem s total v h = last_byte_cases s.result total s.left v h

from32to16_lem :
    (x : ℕ) → x < 0x30100 → (from32to16 x < 2 ^ 16) × (from32to16 x % 65535 ≡ x % 65535)
unfolding from32to16
from32to16_lem x h = omega arith

stages_lem :
    (addr : ℕ) (s : Stage) (total : ℕ)
    → Sums s 0x10000 total
    → (from32to16 (last_byte_stage (even_part addr s)) < 2 ^ 16)
      × (from32to16 (last_byte_stage (even_part addr s)) % 65535 ≡ total % 65535)
stages_lem addr s total v =
    let e = even_part-Sums addr s total v in
    let l = last_byte_stage_lem (even_part addr s) total e.0 e.1 in
    let f = from32to16_lem (last_byte_stage (even_part addr s)) l.0 in (f.0, f.1 ∙ l.1)

-- Changing the two bytes of a word over multiplies by 256.
swap_lem :
    (r shifted total : ℕ)
    → r < 2 ^ 16
    → r % 65535 ≡ shifted % 65535
    → shifted ≡ 256 * total
    → (r / 2 ^ 8 % 256 + r % 256 * 2 ^ 8 < 2 ^ 16)
      × ((r / 2 ^ 8 % 256 + r % 256 * 2 ^ 8) % 65535 ≡ total % 65535)
swap_lem r shifted total h e s = omega arith

-- At every address and for every length, `do_csum` is a 16-bit number congruent to the sum of the
-- block's words modulo 2 ^ 16 - 1.
pub do_csum-words_sum :
    (addr : ℕ) (bytes : List ℕ)
    → IsBytes bytes
    → (do_csum addr bytes < 2 ^ 16) × (do_csum addr bytes % 65535 ≡ words_sum bytes % 65535)
unfolding do_csum
do_csum-words_sum addr [] h = unfold words_sum in omega arith
do_csum-words_sum addr (b ∷ bs) h = elim (Bool-cases (addr % 2 == 1)) [
  | inl e ↦
      let r = stages_lem addr (odd_stage addr (b ∷ bs)) _ (odd_stage-odd addr (b ∷ bs) h e) in
      rw (nonempty, e) (swap_lem _ (256 * words_sum (b ∷ bs)) (words_sum (b ∷ bs)) r.0 r.1 refl)
  | inr e ↦
      let r = stages_lem addr (odd_stage addr (b ∷ bs)) _ (odd_stage-even addr (b ∷ bs) h e) in
      rw (nonempty, e) r
]
  where
    nonempty : (length (b ∷ bs) == 0) ≡ false
    nonempty = ground arith

pub csum_partial_lem :
    (addr : ℕ) (bytes : List ℕ) (wsum : ℕ)
    → IsBytes bytes
    → wsum < 2 ^ 32
    → (csum_partial addr bytes wsum < 2 ^ 32)
      × (csum_partial addr bytes wsum % 65535 ≡ (words_sum bytes + wsum) % 65535)
unfolding csum_partial
csum_partial_lem addr bytes wsum h hw =
    let d = do_csum-words_sum addr bytes h in ground (arith, d.0, d.1)

-- The words of an address, as the checksum counts them.
abbrev pub quad_sum : Quad → ℕ
quad_sum q = q.w0 + q.w1 + q.w2 + q.w3

abbrev pub IsQuad : Quad → Type 0
IsQuad q = (q.w0 < 2 ^ 32) × (q.w1 < 2 ^ 32) × (q.w2 < 2 ^ 32) × (q.w3 < 2 ^ 32)

words_sum-le32 :
    (x : ℕ) (bs : List ℕ)
    → x < 2 ^ 32
    → words_sum (le32 x ++ bs) % 65535 ≡ (x + words_sum bs) % 65535
unfolding words_sum
words_sum-le32 x bs h = omega arith

words_sum-two :
    (x y : ℕ) (bs : List ℕ)
    → x < 2 ^ 32
    → y < 2 ^ 32
    → words_sum (le32 x ++ (le32 y ++ bs)) % 65535 ≡ (x + y + words_sum bs) % 65535
words_sum-two x y bs hx hy =
    omega (arith, words_sum-le32 x (le32 y ++ bs) hx, words_sum-le32 y bs hy)

words_sum-four :
    (q : Quad) (bs : List ℕ)
    → IsQuad q
    → words_sum (le32 q.w0 ++ (le32 q.w1 ++ (le32 q.w2 ++ (le32 q.w3 ++ bs)))) % 65535
      ≡ (quad_sum q + words_sum bs) % 65535
words_sum-four q bs h = omega (
  arith,
  words_sum-two q.w0 q.w1 (le32 q.w2 ++ (le32 q.w3 ++ bs)) h.0 h.1,
  words_sum-two q.w2 q.w3 bs h.2 h.3,
)

abbrev not_quad : Quad → Quad
not_quad q = record { w0 = not32 q.w0; w1 = not32 q.w1; w2 = not32 q.w2; w3 = not32 q.w3 }

words_sum-diff_of :
    (from to : Quad)
    → IsQuad from
    → IsQuad to
    → (words_sum (diff_of from to) + quad_sum from) % 65535 ≡ quad_sum to % 65535
words_sum-diff_of from to hf ht =
    let rest = le32 to.w0 ++ (le32 to.w1 ++ (le32 to.w2 ++ (le32 to.w3 ++ []))) in
    combine (words_sum-four (not_quad from) rest (omega arith)) (words_sum-four to [] ht)
  where
    combine :
        words_sum (diff_of from to) % 65535
          ≡ (quad_sum (not_quad from)
              + words_sum (le32 to.w0 ++ (le32 to.w1 ++ (le32 to.w2 ++ (le32 to.w3 ++ [])))))
            % 65535
        → words_sum (le32 to.w0 ++ (le32 to.w1 ++ (le32 to.w2 ++ (le32 to.w3 ++ [])))) % 65535
          ≡ (quad_sum to + words_sum []) % 65535
        → (words_sum (diff_of from to) + quad_sum from) % 65535 ≡ quad_sum to % 65535
    combine p q = omega (arith, words_sum-nil)

le32-IsBytes : (x : ℕ) (bs : List ℕ) → IsBytes bs → IsBytes (le32 x ++ bs)
le32-IsBytes x bs h = (omega arith, (omega arith, (omega arith, (omega arith, h))))

abbrev quad_bytes : Quad → List ℕ → List ℕ
quad_bytes q bs = le32 q.w0 ++ (le32 q.w1 ++ (le32 q.w2 ++ (le32 q.w3 ++ bs)))

quad-IsBytes : (q : Quad) (bs : List ℕ) → IsBytes bs → IsBytes (quad_bytes q bs)
quad-IsBytes q bs h =
    let third = le32 q.w3 ++ bs in
    let second = le32 q.w2 ++ third in
    let first = le32 q.w1 ++ second in
    le32-IsBytes q.w0 first
      (le32-IsBytes q.w1 second (le32-IsBytes q.w2 third (le32-IsBytes q.w3 bs h)))

diff_of-IsBytes : (from to : Quad) → IsBytes (diff_of from to)
diff_of-IsBytes from to = quad-IsBytes (not_quad from) (quad_bytes to []) (quad-IsBytes to [] tt)

-- `csum_replace16` with the checksum of a packet that holds a 128-bit address: if it is right for
-- the old address, the new one is right for the new address, wherever `diff` lies in memory.
pub csum_replace16-keeps_sum :
    (addr rest sum : ℕ) (from to : Quad)
    → sum < 2 ^ 16
    → IsQuad from
    → IsQuad to
    → (rest + quad_sum from + sum) % 65535 ≡ 0
    → ((rest + quad_sum to + csum_replace16 addr sum from to) % 65535 ≡ 0)
      × (csum_replace16 addr sum from to < 2 ^ 16)
unfolding csum_replace16
csum_replace16-keeps_sum addr rest sum from to hs hf ht valid =
    let p =
      csum_partial_lem addr (diff_of from to) (not32 sum) (diff_of-IsBytes from to) (omega arith) in
    let f = csum_fold_lem (csum_partial addr (diff_of from to) (not32 sum)) p.0 in
    let d = words_sum-diff_of from to hf ht in (omega (arith, p.1, f.1, d, valid), f.0)
