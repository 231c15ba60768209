-- ===== src/Edit/V6/Laws.antt =====
-- `remap_ipv6` copies whole bytes of the network, and is undefined for a mask of odd bits.
use tcpreplay.Prelude.{
  ℕ, zero, suc, ◌∙◌, swap32, ◌-◌, ◌*◌, ◌/◌, ◌%◌, ◌^◌, ◌≤◌, ◌<◌, ◌≡◌, ◌≢◌, refl, arith, Bool, true,
  false, not, List, [], ◌∷◌, Option, none, some, ltb, ◌==◌, ◌&&◌, length, u32, pos, Bool-cases, inl,
  inr, le→ltb,
}
use tcpreplay.Prelude.Bits.{passes, passes_at}
use tcpreplay.Cidr.{Cidr, af_inet6, byte}
use tcpreplay.Edit.{Tcpedit}
use tcpreplay.Edit.Map.{then_some}
use tcpreplay.Edit.V6.{
  is_multicast_ipv6, copy_bytes, ff_right, odd_bits, remap_masked, remap6_by_family, remap_ipv6,
  mix_words, with_first, randomize_ipv6_addr,
}

-- The first `n` bytes of the network, and the others of the address.
abbrev pub HasPrefix : ℕ → List ℕ → List ℕ → List ℕ → Type 0
HasPrefix n network addr moved =
    (length moved ≡ length addr)
    × ((i : ℕ) → i < n → byte moved i ≡ byte network i)
    × ((i : ℕ) → n ≤ i → byte moved i ≡ byte addr i)

copy_bytes_lem :
    (n : ℕ) (network addr : List ℕ)
    → n ≤ length network
    → n ≤ length addr
    → HasPrefix n network addr (copy_bytes n network addr)
unfolding copy_bytes
copy_bytes_lem zero network addr hn ha = (refl, (λ i h. absurd (omega arith)), (λ i h. refl))
copy_bytes_lem (suc n) [] addr hn ha = absurd (omega arith)
copy_bytes_lem (suc n) (f ∷ network) [] hn ha = absurd (omega arith)
copy_bytes_lem (suc n) (f ∷ network) (b ∷ addr) hn ha =
    one_more (copy_bytes_lem n network addr (omega arith) (omega arith))
  where
    one_more :
        HasPrefix n network addr (copy_bytes n network addr)
        → HasPrefix (suc n) (f ∷ network) (b ∷ addr) (f ∷ copy_bytes n network addr)
    one_more (l, low, high) = (omega arith, first, last)
      where
        first : (i : ℕ) → i < suc n → byte (f ∷ copy_bytes n network addr) i ≡ byte (f ∷ network) i
        first zero h = refl
        first (suc i) h = low i (omega arith)

        last : (i : ℕ) → suc n ≤ i → byte (f ∷ copy_bytes n network addr) i ≡ byte (b ∷ addr) i
        last zero h = absurd (omega arith)
        last (suc i) h = high i (omega arith)

abbrev is_wide_mask : ℕ → Bool
is_wide_mask bits = not (ltb (u32 (0xffff_ffff * 2 ^ (8 - bits))) 32)

all_wide : passes is_wide_mask 8 ≡ true
unfolding passes
all_wide = refl

false_by_not : (b : Bool) → not b ≡ true → b ≡ false
false_by_not true e = cc e
false_by_not false e = refl

ff_right-mask : (bits : ℕ) → bits < 8 → ff_right (u32 (0xffff_ffff * 2 ^ (8 - bits))) ≡ none
unfolding ff_right
ff_right-mask bits h = rw (false_by_not _ (passes_at is_wide_mask 8 {i = bits} h all_wide)) refl

undefined_behind :
    {A B : Type 0} (o : Option A) (p : Option B) (k : A → B → Option (ℕ × List ℕ))
    → p ≡ none
    → then_some o (λ a. then_some p (k a)) ≡ none
undefined_behind none p k e = refl
undefined_behind (some a) p k e = rw e refl

not_zero : (n : ℕ) → n ≢ 0 → (n == 0) ≡ false
not_zero n h = ground arith

odd_bits_lem :
    (network : List ℕ) (j bits : ℕ) (addr : List ℕ) → bits < 8 → odd_bits network j bits addr ≡ none
unfolding odd_bits
odd_bits_lem network j bits addr h = undefined_behind _ _ _ (ff_right-mask bits h)

-- For an IPv6 network of at most 128 bits and addresses of 16 bytes. A multicast address that is to
-- be skipped is left, with result 0. Any other one gets the network's first bytes and keeps the
-- others, with result 1, if the mask length is a multiple of 8; and if it is not, the code shifts by
-- more than the width of an `int`, which is undefined.
pub remap_ipv6_lem :
    (t : Tcpedit) (c : Cidr) (m : ℕ) (addr : List ℕ)
    → c.family ≡ af_inet6
    → c.masklen ≡ pos m
    → m ≤ 128
    → length c.network6 ≡ 16
    → length addr ≡ 16
    → ((t.skip_broadcast && is_multicast_ipv6 addr) ≡ true → remap_ipv6 t c addr ≡ some (0, addr))
      × ((t.skip_broadcast && is_multicast_ipv6 addr) ≡ false
          → m % 8 ≡ 0
          → (moved : List ℕ) × (remap_ipv6 t c addr ≡ some (1, moved))
            × HasPrefix (m / 8) c.network6 addr moved)
      × ((t.skip_broadcast && is_multicast_ipv6 addr) ≡ false
          → m % 8 ≢ 0
          → remap_ipv6 t c addr ≡ none)
unfolding remap_ipv6 remap6_by_family remap_masked
remap_ipv6_lem t c m addr f e hm ln la =
    let fits : ltb 16 (m / 8) ≡ false = le→ltb 16 (m / 8) (omega arith) in
    (
      (λ k. rw (f, k) refl),
      (λ k z. (
        copy_bytes (m / 8) c.network6 addr,
        rw (f, k) (rw e (rw fits (rw z refl))),
        copy_bytes_lem (m / 8) c.network6 addr (omega arith) (omega arith),
      )),
      (λ k z.
          rw (f, k)
            (rw e (
              rw fits (
                rw (not_zero (m % 8) z)
                  (odd_bits_lem c.network6 (m / 8) (m % 8) _ (omega arith)))))),
    )

mix_words_lem : (s : ℕ) (addr : List ℕ) → length (mix_words s addr) ≡ length addr
unfolding mix_words
mix_words_lem s (a ∷ b ∷ c ∷ d ∷ rest) = omega (arith, mix_words_lem s rest)
mix_words_lem s (a ∷ b ∷ c ∷ []) = refl
mix_words_lem s (a ∷ b ∷ []) = refl
mix_words_lem s (a ∷ []) = refl
mix_words_lem s [] = refl

with_first_lem :
    (b : ℕ) (addr : List ℕ)
    → 1 ≤ length addr
    → (is_multicast_ipv6 (with_first b addr) ≡ (b == 0xff))
      × (length (with_first b addr) ≡ length addr)
unfolding is_multicast_ipv6
with_first_lem b [] h = absurd (omega arith)
with_first_lem b (x ∷ xs) h = (refl, refl)

-- Randomizing keeps a multicast IPv6 address multicast and any other one unicast, and its length.
pub randomize_ipv6_addr_lem :
    (t : Tcpedit) (addr : List ℕ)
    → 1 ≤ length addr
    → (is_multicast_ipv6 (randomize_ipv6_addr t addr) ≡ is_multicast_ipv6 addr)
      × (length (randomize_ipv6_addr t addr) ≡ length addr)
unfolding randomize_ipv6_addr
randomize_ipv6_addr_lem t addr h =
    let res = mix_words (swap32 t.seed) addr in
    let same : length res ≡ length addr = mix_words_lem (swap32 t.seed) addr in
    let all = with_first_lem 0xff res (omega arith) in
    let one = with_first_lem 0xaa res (omega arith) in
    elim (Bool-cases (is_multicast_ipv6 addr)) [
      | inl m ↦ elim (Bool-cases (is_multicast_ipv6 res)) [
        | inl r ↦ rw m (rw r (r, same))
        | inr r ↦ rw m (rw r (all.0, all.1 ∙ same))
      ]
      | inr m ↦ elim (Bool-cases (is_multicast_ipv6 res)) [
        | inl r ↦ rw m (rw r (one.0, one.1 ∙ same))
        | inr r ↦ rw m (rw r (r, same))
      ]
    ]
