-- ===== src/Edit/Sums.antt =====
-- The checksums that cover an IPv4 header, and that the edits of a header keep them right.
use tcpreplay.Prelude.{
  ℕ, ◌+◌, ◌*◌, ◌%◌, ◌^◌, ◌≤◌, ◌<◌, ◌≡◌, ◌⊎◌, refl, arith, true, some, ◌==◌, ◌&&◌, Bool-cases, inl,
  inr, le→ltb, subst,
}
use tcpreplay.Checksum.{csum_replace4}
use tcpreplay.Checksum.Replace.{csum_replace4-keeps_sum}
use tcpreplay.Portmap.Rewrite.{proto_udp}
use tcpreplay.Edit.{
  Ipv4Hdr, first_fragment, at_l4, ipv4_l34_csum_replace, ipv4_addr_csum_replace, Side, source,
  destination, addr_at, with_addr, store_addr,
}

-- The sum of the 16-bit words of the header without its options and its checksum. An address counts
-- as a whole, which is its two words modulo 2 ^ 16 - 1.
abbrev pub header_words : Ipv4Hdr → ℕ
header_words h =
    h.ip_hl
    + h.ip_v * 16
    + h.ip_tos * 256
    + h.ip_len
    + h.ip_id
    + h.ip_off
    + h.ip_ttl
    + h.ip_p * 256
    + h.ip_src
    + h.ip_dst

-- Every field that the edits change has its width, and the header has 20 bytes at least.
abbrev pub HasWidths : Ipv4Hdr → Type 0
HasWidths h =
    (5 ≤ h.ip_hl)
    × (h.ip_hl < 16)
    × (h.ip_v < 16)
    × (h.ip_tos < 256)
    × (h.ip_ttl < 256)
    × (h.ip_sum < 2 ^ 16)
    × (h.l4_sum < 2 ^ 16)
    × (h.ip_src < 2 ^ 32)
    × (h.ip_dst < 2 ^ 32)

-- The header checksum is right, where `options` is the sum of the words of the options.
abbrev pub IsIpSummed : ℕ → Ipv4Hdr → Type 0
IsIpSummed options h = (options + header_words h + h.ip_sum) % 65535 ≡ 0

-- If a TCP or UDP header lies behind the IP header and in the packet, its checksum is right, or is
-- the 0 of UDP for none. `segment` is the sum of all that it covers but the addresses.
abbrev pub IsL4Summed : ℕ → ℕ → Ipv4Hdr → Type 0
IsL4Summed segment l3len h =
    (at_l4 h.ip_hl h.ip_p l3len && first_fragment h) ≡ true
    → ((h.ip_p ≡ proto_udp) × (h.l4_sum ≡ 0))
      ⊎ ((segment + h.ip_src + h.ip_dst + h.l4_sum) % 65535 ≡ 0)

abbrev pub IsSummed : ℕ → ℕ → ℕ → Ipv4Hdr → Type 0
IsSummed options segment l3len h = HasWidths h × IsIpSummed options h × IsL4Summed segment l3len h

-- All fields but the addresses and the checksums are those of the first header.
abbrev pub KeepsFields : Ipv4Hdr → Ipv4Hdr → Type 0
KeepsFields h h' =
    h' ≡ record h { ip_src = h'.ip_src; ip_dst = h'.ip_dst; ip_sum = h'.ip_sum; l4_sum = h'.l4_sum }

pub keeps_twice : (a b c : Ipv4Hdr) → KeepsFields a b → KeepsFields b c → KeepsFields a c
keeps_twice a b c p q =
    subst
      (λ k.
        c ≡ record k { ip_src = c.ip_src; ip_dst = c.ip_dst; ip_sum = c.ip_sum; l4_sum = c.l4_sum })
      p q

abbrev pub other : Side → Side
other source = destination
other destination = source

-- `rest` is the sum of all other words. A checksum that is right, or UDP's 0, stays so.
l4_replaced :
    (protocol rest sum old new : ℕ)
    → sum < 2 ^ 16
    → old < 2 ^ 32
    → new < 2 ^ 32
    → ((protocol ≡ proto_udp) × (sum ≡ 0)) ⊎ ((rest + old + sum) % 65535 ≡ 0)
    → (ipv4_l34_csum_replace protocol sum old new < 2 ^ 16)
      × (((protocol ≡ proto_udp) × (ipv4_l34_csum_replace protocol sum old new ≡ 0))
          ⊎ ((rest + new + ipv4_l34_csum_replace protocol sum old new) % 65535 ≡ 0))
unfolding ipv4_l34_csum_replace
l4_replaced protocol rest sum old new hs ho hn (inl (u, z)) =
    rw u (rw z (omega arith, inl (refl, refl)))
l4_replaced protocol rest sum old new hs ho hn (inr v) =
    elim (Bool-cases (protocol == proto_udp && sum == 0)) [
      | inl e ↦ rw e (hs, inl (ground arith))
      | inr e ↦ rw e (let r = csum_replace4-keeps_sum rest sum old new hs ho hn v in (r.1, inr r.0))
    ]

-- What a store of an address does to a header whose checksums are right.
abbrev pub Stored : ℕ → ℕ → ℕ → Side → ℕ → Ipv4Hdr → Ipv4Hdr → Type 0
Stored options segment l3len side new h h' =
    KeepsFields h h'
    × (addr_at side h' ≡ new)
    × (addr_at (other side) h' ≡ addr_at (other side) h)
    × IsSummed options segment l3len h'

-- `g` is the header with the new address; `rest` and `rest4` are the sums without the address.
module _ (options segment l3len rest rest4 old new : ℕ) (g : Ipv4Hdr) (w : HasWidths g)
    (ho : old < 2 ^ 32) (hn : new < 2 ^ 32) (long : 20 ≤ l3len)
    (all : options + header_words g ≡ rest + new)
    (all4 : segment + g.ip_src + g.ip_dst ≡ rest4 + new)
    (ip : (rest + old + g.ip_sum) % 65535 ≡ 0) where
  replaced :
      ((at_l4 g.ip_hl g.ip_p l3len && first_fragment g) ≡ true
        → ((g.ip_p ≡ proto_udp) × (g.l4_sum ≡ 0)) ⊎ ((rest4 + old + g.l4_sum) % 65535 ≡ 0))
      → (x y : ℕ) × (ipv4_addr_csum_replace g old new l3len
          ≡ some (record g { ip_sum = x; l4_sum = y }))
        × IsSummed options segment l3len (record g { ip_sum = x; l4_sum = y })
  unfolding ipv4_addr_csum_replace
  replaced l4 =
      let sum = csum_replace4-keeps_sum rest g.ip_sum old new w.5 ho hn ip in
      elim (Bool-cases (at_l4 g.ip_hl g.ip_p l3len && first_fragment g)) [
        | inl e ↦
            (let there = l4_replaced g.ip_p rest4 g.l4_sum old new w.6 ho hn (l4 e) in
              (
                csum_replace4 g.ip_sum old new,
                ipv4_l34_csum_replace g.ip_p g.l4_sum old new,
                rw (le→ltb l3len 20 long) (rw e (rw (le→ltb g.ip_hl 5 w.0) refl)),
                (omega arith, omega arith, (λ k. rw all4 there.1)),
              ))
        | inr e ↦ (
          csum_replace4 g.ip_sum old new,
          g.l4_sum,
          rw (le→ltb l3len 20 long) (rw e refl),
          (omega arith, omega arith, (λ k. cc (e, k))),
        )
      ]

pub store_addr_lem :
    (options segment l3len : ℕ) (side : Side) (new : ℕ) (h : Ipv4Hdr)
    → 20 ≤ l3len
    → new < 2 ^ 32
    → IsSummed options segment l3len h
    → (h' : Ipv4Hdr) × (store_addr side new l3len h ≡ some h')
      × Stored options segment l3len side new h h'
unfolding store_addr
store_addr_lem options segment l3len source new h long hn (w, i, l4) =
    let g = with_addr source new h in
    let r =
      replaced options segment l3len (options + header_words (with_addr source 0 h))
        (segment + h.ip_dst) h.ip_src new g (omega arith) w.7 hn long (omega arith) (omega arith)
        (omega arith) (λ k. swapped (l4 k)) in
    (record g { ip_sum = r.0; l4_sum = r.1 }, r.2, (refl, refl, refl, r.3))
  where
    swapped :
        ((h.ip_p ≡ proto_udp) × (h.l4_sum ≡ 0))
          ⊎ ((segment + h.ip_src + h.ip_dst + h.l4_sum) % 65535 ≡ 0)
        → ((h.ip_p ≡ proto_udp) × (h.l4_sum ≡ 0))
          ⊎ ((segment + h.ip_dst + h.ip_src + h.l4_sum) % 65535 ≡ 0)
    swapped (inl e) = inl e
    swapped (inr e) = inr (omega arith)
store_addr_lem options segment l3len destination new h long hn (w, i, l4) =
    let g = with_addr destination new h in
    let r =
      replaced options segment l3len (options + header_words (with_addr destination 0 h))
        (segment + h.ip_src) h.ip_dst new g (omega arith) w.8 hn long (omega arith) (omega arith)
        (omega arith) l4 in
    (record g { ip_sum = r.0; l4_sum = r.1 }, r.2, (refl, refl, refl, r.3))
