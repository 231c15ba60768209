-- ===== src/Cidr/V6.antt =====
-- `ip6_in_cidr` compares the leading bits.
use native.Mathlib.Nat.{pow-suc, div-div-eq-div-mul}
use tcpreplay.Prelude.{
  ℕ, zero, suc, ◌+◌, ◌-◌, ◌*◌, ◌/◌, ◌%◌, ◌^◌, ◌≤◌, ◌<◌, ◌≡◌, ◌↔◌, refl, arith, Bool, true, false,
  List, ◌∷◌, some, pos, ◌==◌, ◌∙◌, ap, ◌&&◌, Bool-cases, inl, inr, ==_iff, subst, sym, All, Any,
  IsBytes, get_or-lt,
}
use tcpreplay.Cidr.Lists.{any_cidr-decides}
use tcpreplay.Cidr.V4.{keep_high-eq, IsWellFormed, pos-injective}
use tcpreplay.Cidr.{
  Cidr, af_inet6, byte, same_bytes, match6, ip6_addr_is_unspec, ip6_in_cidr, check_ip6_cidr,
}

-- Bit `t` of a byte, from the highest.
abbrev pub bit_of : ℕ → ℕ → ℕ
bit_of x t = x / 2 ^ (7 - t) % 2

halves : (x s : ℕ) → x / 2 ^ s ≡ 2 * (x / 2 ^ suc s) + x / 2 ^ s % 2
halves x s =
    let e : x / 2 ^ s / 2 ≡ x / 2 ^ suc s =
      div-div-eq-div-mul x (2 ^ s) 2 ∙ ap (λ p. x / p) (omega (arith, pow-suc 2 s)) in
    omega (arith, e)

-- The `k` highest bits of a byte.
abbrev top : ℕ → ℕ → ℕ
top x k = x / 2 ^ (8 - k)

top-suc : (x k : ℕ) → k < 8 → top x (suc k) ≡ 2 * top x k + bit_of x k
top-suc x k h =
    let e : 8 - suc k ≡ 7 - k = omega arith in
    let e' : 8 - k ≡ suc (7 - k) = omega arith in rw (e, e') (halves x (7 - k))

top_of_bits :
    (x y k : ℕ)
    → x < 256
    → y < 256
    → k ≤ 8
    → ((t : ℕ) → t < k → bit_of x t ≡ bit_of y t)
    → top x k ≡ top y k
top_of_bits x y zero hx hy hk agree = omega arith
top_of_bits x y (suc k) hx hy hk agree = omega (
  arith,
  top-suc x k hk,
  top-suc y k hk,
  agree k (omega arith),
  top_of_bits x y k hx hy (omega arith) (λ t h. agree t (omega arith)),
)

bits_of_top : (x y k t : ℕ) → k ≤ 8 → top x k ≡ top y k → t < k → bit_of x t ≡ bit_of y t
bits_of_top x y zero t hk e h = absurd (omega arith)
bits_of_top x y (suc k) t hk e h = elim (Bool-cases (t == k)) [
  | inl last ↦
      let same : t ≡ k = ground arith in rw same (omega (arith, top-suc x k hk, top-suc y k hk))
  | inr other ↦
      bits_of_top x y k t (omega arith) (omega (arith, top-suc x k hk, top-suc y k hk))
        (ground arith)
]

-- The loop over whole bytes.
same_bytes_iff :
    (a b : List ℕ) (n i : ℕ)
    → (same_bytes a b n i ≡ true) ↔ ((k : ℕ) → k < n → byte a (i + k) ≡ byte b (i + k))
unfolding same_bytes
same_bytes_iff a b zero i = ((λ t k h. absurd (omega arith)), (λ h. refl))
same_bytes_iff a b (suc n) i = elim (Bool-cases (byte a i == byte b i)) [
  | inl e ↦ rw e (
    (λ t k h. forward ((==_iff _ _).0 e) ((same_bytes_iff a b n (i + 1)).0 t) k h),
    (λ h. (same_bytes_iff a b n (i + 1)).1 (λ k lt. shift k (h (suc k) (omega arith)))),
  )
  | inr e ↦ rw e ((λ t. cc), (λ h. cc (differ e (h 0 (omega arith)))))
]
  where
    shift :
        (k : ℕ) → byte a (i + suc k) ≡ byte b (i + suc k) → byte a (i + 1 + k) ≡ byte b (i + 1 + k)
    shift k e = subst (λ m. byte a m ≡ byte b m) (omega arith) e

    forward :
        byte a i ≡ byte b i
        → ((k : ℕ) → k < n → byte a (i + 1 + k) ≡ byte b (i + 1 + k))
        → (k : ℕ) → k < suc n
        → byte a (i + k) ≡ byte b (i + k)
    forward e rest zero h = subst (λ m. byte a m ≡ byte b m) (omega arith) e
    forward e rest (suc k) h = subst (λ m. byte a m ≡ byte b m) (omega arith) (rest k (omega arith))

    differ : (byte a i == byte b i) ≡ false → byte a (i + 0) ≡ byte b (i + 0) → true ≡ false
    differ e h =
        ground (arith, subst (λ m. byte a m ≡ byte b m) (let z : i + 0 ≡ i = omega arith in z) h)

-- Bit `i` of an address, from the highest.
abbrev pub addr_bit : List ℕ → ℕ → ℕ
addr_bit a i = bit_of (byte a (i / 8)) (i % 8)

abbrev pub SameBits : ℕ → List ℕ → List ℕ → Type 0
SameBits m a b = (i : ℕ) → i < m → addr_bit a i ≡ addr_bit b i

module _ (a b : List ℕ) (ha : IsBytes a) (hb : IsBytes b) where
  -- Bit `t` of byte `j` has the number `8 * j + t`.
  bit_at :
      (m j t : ℕ)
      → t < 8
      → 8 * j + t < m
      → SameBits m a b
      → bit_of (byte a j) t ≡ bit_of (byte b j) t
  bit_at m j t ht h same =
      let q : (8 * j + t) / 8 ≡ j = omega arith in
      let r : (8 * j + t) % 8 ≡ t = omega arith in rw (q, r) at (same (8 * j + t) h)

  bytes_of_bits : (m j : ℕ) → 8 * j + 8 ≤ m → SameBits m a b → byte a j ≡ byte b j
  bytes_of_bits m j h same = omega (
    arith,
    top_of_bits (byte a j) (byte b j) 8 (get_or-lt a j ha) (get_or-lt b j hb) (omega arith)
        (λ t ht. bit_at m j t ht (omega arith) same),
  )

  -- The two tests of `match6`, as statements.
  Matches : ℕ → Type 0
  Matches m =
      ((k : ℕ) → k < m / 8 → byte a k ≡ byte b k)
      × (top (byte a (m / 8)) (m % 8) ≡ top (byte b (m / 8)) (m % 8))

  Matches-SameBits : (m : ℕ) → Matches m → SameBits m a b
  unfolding Matches
  Matches-SameBits m (whole, part) i h = elim (Bool-cases (i / 8 == m / 8)) [
    | inl e ↦
        let q : i / 8 ≡ m / 8 = (==_iff _ _).0 e in
        rw q (
          bits_of_top (byte a (m / 8)) (byte b (m / 8)) (m % 8) (i % 8) (omega arith) part
            (omega arith))
    | inr e ↦ rw (whole (i / 8) (ground arith))
  ]

  SameBits-Matches : (m : ℕ) → SameBits m a b → Matches m
  unfolding Matches
  SameBits-Matches m same = (
    λ k h. bytes_of_bits m k (omega arith) same,
    top_of_bits (byte a (m / 8)) (byte b (m / 8)) (m % 8) (get_or-lt a (m / 8) ha)
        (get_or-lt b (m / 8) hb) (omega arith)
        (λ t h. bit_at m (m / 8) t (omega arith) (omega arith) same),
  )

  match6-Matches : (m : ℕ) → (match6 b a m ≡ true) ↔ Matches m
  unfolding match6 Matches
  match6-Matches m = elim (Bool-cases (same_bytes a b (m / 8) 0)) [
    | inl e ↦ rw e (elim (Bool-cases (m % 8 == 0)) [
      | inl z ↦ rw z ((λ t. (whole e, none_left ((==_iff _ _).0 z))), (λ h. refl))
      | inr p ↦
          rw (p, keep_high-eq (byte a (m / 8)) (byte b (m / 8)) (8 - m % 8))
            ((λ t. (whole e, (==_iff _ _).0 t)), (λ h. (==_iff _ _).1 h.1))
    ])
    | inr e ↦ rw e (
      (λ t. cc),
      (λ h. cc (e, (same_bytes_iff a b (m / 8) 0).1 (λ k lt. from_zero k (h.0 k lt)))),
    )
  ]
    where
      at_zero : (k : ℕ) → byte a (0 + k) ≡ byte b (0 + k) → byte a k ≡ byte b k
      at_zero k h = subst (λ j. byte a j ≡ byte b j) (omega arith) h

      from_zero : (k : ℕ) → byte a k ≡ byte b k → byte a (0 + k) ≡ byte b (0 + k)
      from_zero k h = subst (λ j. byte a j ≡ byte b j) (omega arith) h

      whole : same_bytes a b (m / 8) 0 ≡ true → (k : ℕ) → k < m / 8 → byte a k ≡ byte b k
      whole e k lt = at_zero k ((same_bytes_iff a b (m / 8) 0).0 e k lt)

      none_left : m % 8 ≡ 0 → top (byte a (m / 8)) (m % 8) ≡ top (byte b (m / 8)) (m % 8)
      none_left z =
          top_of_bits (byte a (m / 8)) (byte b (m / 8)) (m % 8) (get_or-lt a _ ha)
            (get_or-lt b _ hb) (omega arith) (λ t h. absurd (omega arith))

-- The address lies in the network.
abbrev pub InNetwork6 : List ℕ → Cidr → Type 0
InNetwork6 addr c =
    (m : ℕ) × (c.family ≡ af_inet6) × (c.masklen ≡ pos m) × SameBits m addr c.network6

-- For an IPv6 network with a mask length from 0 to 128 the test is defined, and it is true exactly
-- when the address agrees with the network in that many leading bits.
pub ip6_in_cidr_iff :
    (c : Cidr) (addr : List ℕ) (m : ℕ)
    → IsBytes addr
    → IsBytes c.network6
    → c.family ≡ af_inet6
    → c.masklen ≡ pos m
    → m ≤ 128
    → (b : Bool) × (ip6_in_cidr c addr ≡ some b) × ((b ≡ true) ↔ SameBits m addr c.network6)
unfolding ip6_in_cidr
ip6_in_cidr_iff c addr m ha hn hf hm h128 = elim (Bool-cases (m == 0 && ip6_addr_is_unspec addr)) [
  | inl e ↦ (true, rw (hf, hm, e), ((λ t i h. absurd (ground arith)), (λ s. refl)))
  | inr e ↦ (
    match6 c.network6 addr m,
    rw (hf, hm, e),
    (
      (λ t.
          Matches-SameBits addr c.network6 ha hn m ((match6-Matches addr c.network6 ha hn m).0 t)),
      (λ s.
          (match6-Matches addr c.network6 ha hn m).1 (SameBits-Matches addr c.network6 ha hn m s)),
    ),
  )
]

ip6_in_cidr-decides :
    (addr : List ℕ)
    → IsBytes addr
    → (c : Cidr) → IsWellFormed c × IsBytes c.network6
    → (b : Bool) × (ip6_in_cidr c addr ≡ some b) × ((b ≡ true) ↔ InNetwork6 addr c)
ip6_in_cidr-decides addr ha c ((m, hm, inr (hf, h)), hn) =
    let d = ip6_in_cidr_iff c addr m ha hn hf hm h in
    (
      d.0,
      d.1,
      (
        (λ t. (m, hf, hm, d.2.0 t)),
        (λ n. d.2.1 (subst (λ k. SameBits k addr c.network6) (pos-injective (sym n.2 ∙ hm)) n.3)),
      ),
    )
ip6_in_cidr-decides addr ha c ((m, hm, inl (hf, h)), hn) =
    (false, (unfold ip6_in_cidr in rw hf), ((λ t. cc), (λ n. cc (n.1, hf))))

-- With a list of well-formed entries that is not empty, `check_ip6_cidr` is defined, and true
-- exactly when the address lies in one of the IPv6 networks of the list.
pub check_ip6_cidr_iff :
    (addr : List ℕ) (c : Cidr) (cs : List Cidr)
    → IsBytes addr
    → All (λ d. IsWellFormed d × IsBytes d.network6) (c ∷ cs)
    → (b : Bool) × (check_ip6_cidr (c ∷ cs) addr ≡ some b)
      × ((b ≡ true) ↔ Any (InNetwork6 addr) (c ∷ cs))
unfolding check_ip6_cidr
check_ip6_cidr_iff addr c cs ha h =
    any_cidr-decides (λ d. ip6_in_cidr d addr) (InNetwork6 addr)
      (λ d. IsWellFormed d × IsBytes d.network6) (ip6_in_cidr-decides addr ha) (c ∷ cs) h
