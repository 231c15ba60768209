-- ===== src/Ipv6/Turns.antt =====
-- One turn of the walks: it ends, and reads only inside the packet.
use tcpreplay.Prelude.{
  ℕ, ◌+◌, ◌≤◌, ◌≡◌, ◌⊎◌, inl, inr, refl, arith, true, false, List, Option, none, some, ltb, ◌==◌,
  length, u8, Bool-cases, ltb→le,
}
use tcpreplay.Packet.{Walk, value, then_with, byte_of}
use tcpreplay.Packet.Laws.{byte_of_lem, Ends, ends_then}
use tcpreplay.Ipv6.{
  Kind, no_next, tunnel, encrypted, fragment, extension, other, kind_of, within, extlen_to_bytes,
  jump, next_by, get_ipv6_next, if_fits, enter,
}

-- Where a jump from `from` may land: at least `step` further, and not behind the end.
abbrev pub Lands : List ℕ → ℕ → Option ℕ → Type 0
Lands packet least none = Unit {0}
Lands packet least (some n) = (least ≤ n) × (n ≤ length packet)

pub within-Lands :
    (packet : List ℕ) (least ptr : ℕ) → least ≤ ptr → Lands packet least (within packet ptr)
within-Lands packet least ptr h = go (Bool-cases (ltb (length packet) ptr))
  where
    go :
        (ltb (length packet) ptr ≡ true) ⊎ (ltb (length packet) ptr ≡ false)
        → Lands packet least (within packet ptr)
    go (inl e) = rw e tt
    go (inr e) = rw e (h, ltb→le (length packet) ptr e)

jump_lem :
    (packet : List ℕ) (e len : ℕ)
    → (o : Option ℕ) × (jump packet e len ≡ value o) × Lands packet (e + 4) o
unfolding jump
jump_lem packet e len = elim (Bool-cases (u8 (extlen_to_bytes len) == 0)) [
  | inl z ↦ (none, rw z, tt)
  | inr p ↦ (
    within packet (e + u8 (extlen_to_bytes len)),
    rw p,
    within-Lands packet (e + 4) _ (ground arith),
  )
]

-- Where `get_ipv6_next` leads: nowhere, further on, or to the same header, which is then the last.
abbrev Leads : List ℕ → ℕ → Option ℕ → Type 0
Leads packet e o =
    Lands packet (e + 4) o
    ⊎ ((o ≡ some e) × ((nh : ℕ) → byte_of packet e ≡ value nh → kind_of nh ≡ other))

next_by_lem :
    (packet : List ℕ) (e nh : ℕ) (k : Kind)
    → e + 2 ≤ length packet
    → byte_of packet e ≡ value nh
    → kind_of nh ≡ k
    → Ends (Leads packet e) (next_by packet e k)
unfolding next_by
next_by_lem packet e nh no_next h b q = (none, refl, inl tt)
next_by_lem packet e nh encrypted h b q = (none, refl, inl tt)
next_by_lem packet e nh fragment h b q =
    (within packet (e + 8), refl, inl (within-Lands packet (e + 4) (e + 8) (omega arith)))
next_by_lem packet e nh tunnel h b q =
    let l = byte_of_lem packet (e + 1) (omega arith) in
    let j = jump_lem packet e l.0 in (j.0, rw (l.1, j.1), inl j.2)
next_by_lem packet e nh extension h b q =
    let l = byte_of_lem packet (e + 1) (omega arith) in
    let j = jump_lem packet e l.0 in (j.0, rw (l.1, j.1), inl j.2)
next_by_lem packet e nh other h b q = (some e, refl, inr (refl, λ p b'. cc (b, b', q)))

get_ipv6_next_lem : (packet : List ℕ) (e : ℕ) → Ends (Leads packet e) (get_ipv6_next packet e)
unfolding get_ipv6_next
get_ipv6_next_lem packet e = elim (Bool-cases (ltb (length packet) (e + 2))) [
  | inl t ↦ (none, rw t, inl tt)
  | inr t ↦
      let b = byte_of_lem packet e (omega (arith, ltb→le (length packet) (e + 2) t)) in
      rw t (
        ends_then (Leads packet e) (byte_of packet e) (λ ip_nh. next_by packet e (kind_of ip_nh))
          b.0 b.1
          (next_by_lem packet e b.0 (kind_of b.0) (ltb→le (length packet) (e + 2) t) b.1 refl))
]

module _ {ℓ} {A : Type ℓ} (packet : List ℕ) (P : A → Type 0) (a : A) (k : ℕ → ℕ → Walk A)
    (at_end : P a) where
  pub enter_lem :
      (hdr : ℕ)
      → ((p : ℕ) → hdr + 40 ≤ length packet → Ends P (k p (hdr + 40)))
      → Ends P (enter packet hdr a k)
  unfolding enter
  enter_lem hdr inside = elim (Bool-cases (ltb (length packet) (hdr + 40))) [
    | inl t ↦ (a, rw t, at_end)
    | inr t ↦
        let h = ltb→le (length packet) (hdr + 40) t in
        let b = byte_of_lem packet (hdr + 6) (omega (arith, h)) in
        rw t (ends_then P (byte_of packet (hdr + 6)) (λ p. k p (hdr + 40)) b.0 b.1 (inside b.0 h))
  ]

  fits_lem :
      (n : ℕ)
      → ((p : ℕ) → n + 2 ≤ length packet → byte_of packet n ≡ value p → Ends P (k p n))
      → Ends P (if_fits packet (some n) a k)
  unfolding if_fits
  fits_lem n inside = elim (Bool-cases (ltb (length packet) (n + 2))) [
    | inl t ↦ (a, rw t, at_end)
    | inr t ↦
        let h = ltb→le (length packet) (n + 2) t in
        let b = byte_of_lem packet n (omega (arith, h)) in
        rw t (ends_then P (byte_of packet n) (λ p. k p n) b.0 b.1 (inside b.0 h b.1))
  ]

  leads_lem :
      (e : ℕ) (o : Option ℕ)
      → Leads packet e o
      → ((p n : ℕ) → e + 4 ≤ n → n + 2 ≤ length packet → Ends P (k p n))
      → ((p : ℕ) → kind_of p ≡ other → e + 2 ≤ length packet → Ends P (k p e))
      → Ends P (if_fits packet o a k)
  leads_lem e none h further same = (a, (unfold if_fits in refl), at_end)
  leads_lem e (some n) (inl (least, most)) further same = fits_lem n (λ p h b. further p n least h)
  leads_lem e (some n) (inr (here, q)) further same =
      let at : n ≡ e = cc here in rw at (fits_lem e (λ p h b. same p (q p b) h))

  -- One turn of a loop at an extension header.
  pub turn_lem :
      (e : ℕ)
      → ((p n : ℕ) → e + 4 ≤ n → n + 2 ≤ length packet → Ends P (k p n))
      → ((p : ℕ) → kind_of p ≡ other → e + 2 ≤ length packet → Ends P (k p e))
      → Ends P (then_with (get_ipv6_next packet e) (λ o. if_fits packet o a k))
  turn_lem e further same =
      let g = get_ipv6_next_lem packet e in
      ends_then P (get_ipv6_next packet e) (λ o. if_fits packet o a k) g.0 g.1
        (leads_lem e g.0 g.2 further same)
