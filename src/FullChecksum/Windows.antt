-- ===== src/FullChecksum/Windows.antt =====
-- Stores into a block of bytes, and the sums of the windows of it that they change or leave.
use tcpreplay.Prelude.{
  ℕ, zero, suc, ◌+◌, ◌-◌, ◌*◌, ◌/◌, ◌%◌, ◌^◌, ◌≤◌, ◌<◌, ◌≡◌, refl, arith, List, [], ◌∷◌, take, drop,
  set, get_or, length, IsBytes, ap, ◌∙◌, u32, get_or-set_self, get_or-set_ne, length-set,
  length-take, length-drop, sym,
}
use tcpreplay.Checksum.Partial.Sum.{words_sum}
use tcpreplay.Packet.{value}
use tcpreplay.FullChecksum.{put16, do_checksum_math}

module _ {ℓ} {A : Type ℓ} where
  drop-set : (xs : List A) (m i : ℕ) (v : A) → drop m (set xs (m + i) v) ≡ set (drop m xs) i v
  drop-set xs zero i v = ap (λ k. set xs k v) (let e : 0 + i ≡ i = omega arith in e)
  drop-set [] (suc m) i v = refl
  drop-set (x ∷ xs) (suc m) i v =
      ap (λ k. drop (suc m) (set (x ∷ xs) k v)) (let e : suc m + i ≡ suc (m + i) = omega arith in e)
      ∙ drop-set xs m i v

  drop-set_before : (xs : List A) (m i : ℕ) (v : A) → i < m → drop m (set xs i v) ≡ drop m xs
  drop-set_before xs zero i v h = absurd (omega arith)
  drop-set_before [] (suc m) i v h = refl
  drop-set_before (x ∷ xs) (suc m) zero v h = refl
  drop-set_before (x ∷ xs) (suc m) (suc i) v h = drop-set_before xs m i v (omega arith)

  take-set : (xs : List A) (n i : ℕ) (v : A) → take n (set xs i v) ≡ set (take n xs) i v
  take-set xs zero i v = refl
  take-set [] (suc n) i v = refl
  take-set (x ∷ xs) (suc n) zero v = refl
  take-set (x ∷ xs) (suc n) (suc i) v = ap (λ ys. x ∷ ys) (take-set xs n i v)

  take-set_beyond : (xs : List A) (n i : ℕ) (v : A) → n ≤ i → take n (set xs i v) ≡ take n xs
  take-set_beyond xs zero i v h = refl
  take-set_beyond [] (suc n) i v h = refl
  take-set_beyond (x ∷ xs) (suc n) zero v h = absurd (omega arith)
  take-set_beyond (x ∷ xs) (suc n) (suc i) v h =
      ap (λ ys. x ∷ ys) (take-set_beyond xs n i v (omega arith))

-- `n` bytes from `m` on.
abbrev pub window : ℕ → ℕ → List ℕ → List ℕ
window m n packet = take n (drop m packet)

set-after :
    (packet : List ℕ) (m n i v : ℕ) → m + n ≤ i → window m n (set packet i v) ≡ window m n packet
set-after packet m n i v h =
    ap (λ k. window m n (set packet k v)) (let e : i ≡ m + (i - m) = omega arith in e)
    ∙ ap (take n) (drop-set packet m (i - m) v)
    ∙ take-set_beyond (drop m packet) n (i - m) v (omega arith)

-- A window in front of the field, and one behind it.
pub window-put16_after :
    (packet : List ℕ) (m n i v : ℕ) → m + n ≤ i → window m n (put16 packet i v) ≡ window m n packet
window-put16_after packet m n i v h =
    set-after (set packet i (v % 256)) m n (i + 1) (v / 256) (omega arith)
    ∙ set-after packet m n i (v % 256) h

pub window-put16_before :
    (packet : List ℕ) (m n i v : ℕ) → i + 2 ≤ m → window m n (put16 packet i v) ≡ window m n packet
window-put16_before packet m n i v h = ap (take n) (
    drop-set_before (set packet i (v % 256)) m (i + 1) (v / 256) (omega arith)
    ∙ drop-set_before packet m i (v % 256) (omega arith))

pub window-put16 :
    (packet : List ℕ) (m n i v : ℕ)
    → window m n (put16 packet (m + i) v) ≡ put16 (window m n packet) i v
window-put16 packet m n i v =
    ap (λ k. window m n (set (set packet (m + i) (v % 256)) k (v / 256)))
      (let e : m + i + 1 ≡ m + (i + 1) = omega arith in e)
    ∙ ap (take n) (drop-set (set packet (m + i) (v % 256)) m (i + 1) (v / 256))
    ∙ ap (λ xs. take n (set xs (i + 1) (v / 256))) (drop-set packet m i (v % 256))
    ∙ take-set (set (drop m packet) i (v % 256)) n (i + 1) (v / 256)
    ∙ ap (λ xs. set xs (i + 1) (v / 256)) (take-set (drop m packet) n i (v % 256))

-- The word at a place.
abbrev pub word : List ℕ → ℕ → ℕ
word xs i = get_or xs i 0 + get_or xs (i + 1) 0 * 256

words_sum-set :
    (xs : List ℕ) (i j a b : ℕ)
    → j ≡ i + 1
    → i % 2 ≡ 0
    → i + 2 ≤ length xs
    → words_sum (set (set xs i a) j b) + (get_or xs i 0 + get_or xs j 0 * 256)
      ≡ words_sum xs + (a + b * 256)
unfolding words_sum
words_sum-set [] i j a b next even room = absurd (omega arith)
words_sum-set (x ∷ []) i j a b next even room = absurd (omega arith)
words_sum-set (x ∷ y ∷ xs) zero zero a b next even room = absurd (omega arith)
words_sum-set (x ∷ y ∷ xs) zero (suc zero) a b next even room = omega arith
words_sum-set (x ∷ y ∷ xs) zero (suc (suc j)) a b next even room = absurd (omega arith)
words_sum-set (x ∷ y ∷ xs) (suc zero) j a b next even room = absurd (omega arith)
words_sum-set (x ∷ y ∷ xs) (suc (suc i)) zero a b next even room = absurd (omega arith)
words_sum-set (x ∷ y ∷ xs) (suc (suc i)) (suc zero) a b next even room = absurd (omega arith)
words_sum-set (x ∷ y ∷ xs) (suc (suc i)) (suc (suc j)) a b next even room =
    omega (arith, words_sum-set xs i j a b (omega arith) (omega arith) (omega arith))

pub words_sum-put16 :
    (xs : List ℕ) (i v : ℕ)
    → i % 2 ≡ 0
    → i + 2 ≤ length xs
    → words_sum (put16 xs i v) + word xs i ≡ words_sum xs + v
words_sum-put16 xs i v even room =
    omega (arith, words_sum-set xs i (i + 1) (v % 256) (v / 256) refl even room)

-- The field of a window that was cleared takes the value.
pub window_sum-put16 :
    (packet : List ℕ) (m n i v : ℕ)
    → i % 2 ≡ 0
    → i + 2 ≤ n
    → m + n ≤ length packet
    → words_sum (window m n (put16 (put16 packet (m + i) 0) (m + i) v))
      ≡ words_sum (window m n (put16 packet (m + i) 0)) + v
window_sum-put16 packet m n i v even room inside =
    let w = window m n packet in
    let cleared = put16 w i 0 in
    let long : n ≡ length w = omega (arith, length-take n (drop m packet), length-drop m packet) in
    let once = length-set w i 0 in
    let low : get_or cleared i 0 ≡ 0 =
      get_or-set_ne (set w i 0) (i + 1) i 0 0 (λ e. omega arith)
      ∙ get_or-set_self w i 0 0 (omega arith) in
    let high : get_or cleared (i + 1) 0 ≡ 0 =
      get_or-set_self (set w i 0) (i + 1) 0 0 (omega arith) in
    let same_cleared = window-put16 packet m n i 0 in
    ap words_sum
      (window-put16 (put16 packet (m + i) 0) m n i v ∙ ap (λ xs. put16 xs i v) same_cleared)
    ∙ (let sum =
          words_sum-put16 cleared i v even (omega (arith, length-set (set w i 0) (i + 1) 0)) in
        omega arith)
    ∙ ap (λ xs. words_sum xs + v) (sym same_cleared)

pub words_sum-bound : (xs : List ℕ) → IsBytes xs → words_sum xs * 2 ≤ 65535 * (length xs + 1)
unfolding words_sum
words_sum-bound [] h = omega arith
words_sum-bound (x ∷ []) h = let low = h.0 in omega arith
words_sum-bound (x ∷ y ∷ xs) h =
    let low = h.0 in let high = h.1.0 in omega (arith, words_sum-bound xs h.1.1)

pub math_lem :
    (sum : ℕ) (bytes : List ℕ) (len : ℕ)
    → len ≤ length bytes
    → sum + words_sum (take len bytes) < 2 ^ 32
    → do_checksum_math sum bytes len ≡ value (sum + words_sum (take len bytes))
unfolding do_checksum_math words_sum
math_lem sum bytes zero room small = ap (λ (n : ℕ). value n) (omega arith)
math_lem sum [] (suc len) room small = absurd (omega arith)
math_lem sum (a ∷ bs) (suc zero) room small = ap (λ (n : ℕ). value n) (omega arith)
math_lem sum (a ∷ []) (suc (suc len)) room small = absurd (omega arith)
math_lem sum (a ∷ b ∷ bs) (suc (suc len)) room small =
    let next : u32 (sum + (a + b * 256)) ≡ sum + (a + b * 256) = omega arith in
    rw next (
      math_lem (sum + (a + b * 256)) bs len (omega arith) (omega arith)
      ∙ ap (λ (n : ℕ). value n) (omega arith))
