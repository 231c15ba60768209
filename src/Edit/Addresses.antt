-- ===== src/Edit/Addresses.antt =====
-- What `randomize_ipv4_addr` and `remap_ipv4` make of an address.
use native.Mathlib.Nat.{one-le-pow, mod-lt, two-pow-succ}
use tcpreplay.Prelude.{
  ℕ, zero, suc, ◌+◌, ◌-◌, ◌*◌, ◌/◌, ◌%◌, ◌^◌, ◌≤◌, ◌<◌, ◌≡◌, refl, arith, Bool, true, false, some,
  ◌==◌, ◌&&◌, Bool-cases, inl, inr, swap32, pos, subst, sym, ap, ◌∙◌, le→leb,
}
use tcpreplay.Cidr.{Cidr, af_inet}
use tcpreplay.Cidr.V4.{SamePrefix}
use tcpreplay.Edit.{
  Tcpedit, is_multicast_ipv4, set_multicast_ipv4, set_unicast_ipv4, mixed, randomize_ipv4_addr,
  remap_ipv4, remap_by_family, merged,
}

set_multicast_lem :
    (x : ℕ) → (is_multicast_ipv4 (set_multicast_ipv4 x) ≡ true) × (set_multicast_ipv4 x < 2 ^ 32)
unfolding is_multicast_ipv4 set_multicast_ipv4
set_multicast_lem x = ground arith

set_unicast_lem :
    (x : ℕ)
    → is_multicast_ipv4 x ≡ true
    → (is_multicast_ipv4 (set_unicast_ipv4 x) ≡ false) × (set_unicast_ipv4 x < 2 ^ 32)
unfolding is_multicast_ipv4 set_unicast_ipv4
set_unicast_lem x h = ground arith

mixed_lem : (a b : ℕ) → mixed a b < 2 ^ 32
unfolding mixed
mixed_lem a b = omega arith

and_false : (b : Bool) → (b && false) ≡ false
and_false true = refl
and_false false = refl

-- Randomizing keeps a multicast address a multicast address and any other one a unicast address, in
-- 32 bits; with `skip_broadcast` a multicast address stays what it was.
pub randomize_ipv4_addr_lem :
    (t : Tcpedit) (ip : ℕ)
    → ip < 2 ^ 32
    → (is_multicast_ipv4 (randomize_ipv4_addr t ip) ≡ is_multicast_ipv4 ip)
      × (randomize_ipv4_addr t ip < 2 ^ 32)
      × (t.skip_broadcast ≡ true → is_multicast_ipv4 ip ≡ true → randomize_ipv4_addr t ip ≡ ip)
unfolding randomize_ipv4_addr
randomize_ipv4_addr_lem t ip h =
    let res = mixed ip (swap32 t.seed) in
    let small = mixed_lem ip (swap32 t.seed) in
    elim (Bool-cases (is_multicast_ipv4 ip)) [
      | inl m ↦ elim (Bool-cases t.skip_broadcast) [
        | inl k ↦ rw m (rw k (m, h, (λ a b. refl)))
        | inr k ↦ rw m (
            rw k (elim (Bool-cases (is_multicast_ipv4 res)) [
              | inl r ↦ rw r (r, small, (λ a b. cc a))
              | inr r ↦ rw r (let made = set_multicast_lem res in (made.0, made.1, (λ a b. cc a)))
            ]))
      ]
      | inr m ↦ elim (Bool-cases (is_multicast_ipv4 res)) [
        | inl r ↦
            rw (m, r)
              (rw (and_false t.skip_broadcast)
                (let made = set_unicast_lem res r in (made.0, made.1, (λ a b. cc b))))
        | inr r ↦ rw (m, r) (rw (and_false t.skip_broadcast) (r, small, (λ a b. cc b)))
      ]
    ]

module _ (p : ℕ) (positive : 1 ≤ p) where
  joined_high : (a r : ℕ) → r < p → (a * p + r) / p ≡ a
  joined_high a r h = grind arith

  joined_low : (a r : ℕ) → r < p → (a * p + r) % p ≡ r
  joined_low a r h = grind arith

  joined_small : (n q r : ℕ) → n < q * p → r < p → n / p * p + r < q * p
  joined_small n q r hn hr = grind arith

-- `b` is an address of the network with the host bits of `a`.
abbrev pub MovedInto : Cidr → ℕ → ℕ → Type 0
MovedInto c a b =
    (m : ℕ) × (c.masklen ≡ pos m)
    × SamePrefix m c.network b
    × (swap32 b % 2 ^ (32 - m) ≡ swap32 a % 2 ^ (32 - m))

-- Where `remap_ipv4` moves `a` to: into the network, unless it is a multicast address that is kept.
abbrev pub Lands : Tcpedit → Cidr → ℕ → ℕ → Type 0
Lands t c a b =
    ((t.skip_broadcast && is_multicast_ipv4 a) ≡ true → b ≡ a)
    × ((t.skip_broadcast && is_multicast_ipv4 a) ≡ false → MovedInto c a b)

-- An IPv4 network with a mask length that the shift is defined for.
abbrev pub IsTarget : Cidr → Type 0
IsTarget c = (m : ℕ) × (c.masklen ≡ pos m) × (c.family ≡ af_inet) × (1 ≤ m) × (m ≤ 32)

swap32_back : (x : ℕ) → x < 2 ^ 32 → swap32 (swap32 x) ≡ x
swap32_back x h = omega arith

pow_add : (a b : ℕ) → 2 ^ a * 2 ^ b ≡ 2 ^ (a + b)
pow_add zero b = grind arith
pow_add (suc a) b = grind (arith, pow_add a b, two-pow-succ a, two-pow-succ (a + b))

power_split : (m : ℕ) → 1 ≤ m → m ≤ 32 → 2 ^ m * 2 ^ (32 - m) ≡ 2 ^ 32
power_split m low high =
    let sum : m + (32 - m) ≡ 32 = omega arith in pow_add m (32 - m) ∙ ap (λ k. 2 ^ k) sum

merged_lem :
    (network a m : ℕ)
    → 1 ≤ m
    → m ≤ 32
    → (b : ℕ) × (merged (some (32 - m)) network a ≡ some b)
      × SamePrefix m network b
      × (swap32 b % 2 ^ (32 - m) ≡ swap32 a % 2 ^ (32 - m))
      × (b < 2 ^ 32)
merged_lem network a m low high =
    let p = 2 ^ (32 - m) in
    let positive : 1 ≤ p = one-le-pow (32 - m) 2 (omega arith) in
    let host = swap32 a % p in
    let below : host < p = mod-lt (swap32 a) (omega arith) in
    let whole = swap32 network / p * p + host in
    let small : whole < 2 ^ 32 =
      subst (λ k. whole < k) (power_split m low high)
        (joined_small p positive (swap32 network) (2 ^ m) host
          (subst (λ k. swap32 network < k) (sym (power_split m low high)) (omega arith)) below) in
    let back : swap32 (swap32 whole) ≡ whole = swap32_back whole small in
    (
      swap32 whole,
      refl,
      (sym (ap (λ k. k / p) back ∙ joined_high p positive (swap32 network / p) host below)),
      (ap (λ k. k % p) back ∙ joined_low p positive (swap32 network / p) host below),
      omega arith,
    )

not_zero : (m : ℕ) → 1 ≤ m → (m == 0) ≡ false
not_zero m h = ground arith

-- For an IPv4 network with a mask length from 1 to 32, `remap_ipv4` is defined; its result has 32
-- bits, and is the address itself if that is a multicast address to be skipped, and otherwise the
-- address in the network that has the host bits of the one given.
pub remap_ipv4_lem :
    (t : Tcpedit) (c : Cidr) (a : ℕ)
    → IsTarget c
    → a < 2 ^ 32
    → (b : ℕ) × (remap_ipv4 t c a ≡ some b) × (b < 2 ^ 32) × Lands t c a b
unfolding remap_ipv4 remap_by_family
remap_ipv4_lem t c a (m, e, f, low, high) h =
    let new = merged_lem c.network a m low high in
    elim (Bool-cases (t.skip_broadcast && is_multicast_ipv4 a)) [
      | inl k ↦ (a, rw (f, k) refl, h, ((λ y. refl), (λ n. cc (k, n))))
      | inr k ↦ (
        new.0,
        rw (f, k, e) (rw (not_zero m low) (rw (le→leb m 32 high) new.1)),
        new.4,
        ((λ y. cc (k, y)), (λ n. (m, e, new.2, new.3))),
      )
    ]
