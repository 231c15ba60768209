-- ===== src/FullChecksum/Fix6.antt =====
-- `fix_ipv6_checksums` on a whole IPv6 packet without extension headers, and where it gives up.
use tcpreplay.Prelude.{
  ℕ, zero, suc, ◌+◌, ◌-◌, ◌*◌, ◌/◌, ◌≤◌, ◌<◌, ◌≡◌, ◌⊎◌, refl, arith, true, false, List, Option,
  none, some, length, IsBytes, ltb, ◌==◌, inl, inr, swap16, Bool-cases,
}
use tcpreplay.Packet.{value, byte_of, be16_at}
use tcpreplay.Packet.Laws.{byte_of_lem, Ends, ends_then, ends_if}
use tcpreplay.Ipv6.{
  other, kind_of, enter, land, layer4_turn, layer4_loop, get_layer4_v6, l4proto_turn, l4proto_loop,
  get_ipv6_l4proto,
}
use tcpreplay.Portmap.Rewrite.{warn}
use tcpreplay.FullChecksum.{
  v6, sum_icmp6, by_proto, at_layer, do_checksum, is_stepped, header_loop, ipv6_header_length,
  fix6_by, fix_ipv6_checksums,
}
use tcpreplay.FullChecksum.Laws.{Sealed, Verifies, sum_pseudo_lem}
use tcpreplay.FullChecksum.Fix.{Carries, by_proto_lem}

-- TCP, UDP with a checksum, or ICMPv6.
abbrev pub Carries6 : List ℕ → ℕ → ℕ → ℕ → ℕ → Type 0
Carries6 packet l4 proto field len =
    ((proto ≡ 58) × (field ≡ 2) × (8 ≤ len)) ⊎ Carries packet l4 proto field len

-- No extension header.
abbrev pub IsUpper : ℕ → Type 0
IsUpper nh = (kind_of nh ≡ other) × (is_stepped nh ≡ false)

carries-IsUpper :
    (packet : List ℕ) (l4 proto field len : ℕ) → Carries6 packet l4 proto field len → IsUpper proto
unfolding kind_of
carries-IsUpper packet l4 proto field len (inl (p, q, h)) = rw p (refl, refl)
carries-IsUpper packet l4 proto field len (inr (inl (p, q, h))) = rw p (refl, refl)
carries-IsUpper packet l4 proto field len (inr (inr (p, q, h, uh_sum, has, nonzero))) =
    rw p (refl, refl)

long_enough :
    (packet : List ℕ) (l4 proto field len : ℕ) → Carries6 packet l4 proto field len → 8 ≤ len
long_enough packet l4 proto field len (inl (p, q, h)) = h
long_enough packet l4 proto field len (inr (inl (p, q, h))) = omega arith
long_enough packet l4 proto field len (inr (inr (p, q, h, uh_sum, has, nonzero))) = h

by_icmp6 :
    (packet : List ℕ) (len : ℕ)
    → IsBytes packet
    → 8 ≤ len
    → len ≤ 65500
    → 40 + len ≤ length packet
    → Ends (Sealed packet 42 (Verifies v6 40 58 len)) (by_proto v6 packet 40 58 len)
unfolding by_proto sum_icmp6
by_icmp6 packet len bytes long short inside =
    let e : ltb len 8 ≡ false = ground arith in
    rw e (sum_pseudo_lem v6 packet 40 2 58 len bytes (omega arith) refl (omega arith) short inside)

by_upper :
    (packet : List ℕ) (proto field len : ℕ)
    → IsBytes packet
    → Carries6 packet 40 proto field len
    → len ≤ 65500
    → 40 + len ≤ length packet
    → Ends (Sealed packet (40 + field) (Verifies v6 40 proto len)) (by_proto v6 packet 40 proto len)
by_upper packet proto field len bytes (inl (p, q, long)) short inside =
    rw (p, q) (by_icmp6 packet len bytes long short inside)
by_upper packet proto field len bytes (inr c) short inside =
    by_proto_lem v6 packet 40 len bytes (omega arith) proto field c short inside

module _ (packet : List ℕ) (nh : ℕ) (upper : IsUpper nh) where
  l4proto_first : (fuel ptr : ℕ) → 0 < fuel → l4proto_loop fuel packet nh ptr ≡ value nh
  unfolding l4proto_loop l4proto_turn
  l4proto_first zero ptr h = absurd (omega arith)
  l4proto_first (suc fuel) ptr h = rw (upper.0) refl

  layer4_first : (fuel ptr : ℕ) → 0 < fuel → layer4_loop fuel packet nh nh ptr ≡ value (some ptr)
  unfolding layer4_loop layer4_turn land
  layer4_first zero ptr h = absurd (omega arith)
  layer4_first (suc fuel) ptr h = let e : (nh == nh) ≡ true = ground arith in rw (upper.0, e) refl

  header_first :
      (fuel : ℕ) → 0 < fuel → 42 < length packet → header_loop fuel packet nh 40 ≡ value (some 40)
  unfolding header_loop
  header_first zero h long = absurd (omega arith)
  header_first (suc fuel) h long =
      let e : ltb (2 + 40) (length packet) ≡ true = ground arith in rw (e, upper.1) refl

  l4proto_upper :
      40 ≤ length packet
      → byte_of packet 6 ≡ value nh
      → get_ipv6_l4proto (length packet + 2) packet 0 ≡ value nh
  unfolding get_ipv6_l4proto enter
  l4proto_upper h b =
      let e : ltb (length packet) 40 ≡ false = ground arith in
      rw (e, b) (l4proto_first (length packet + 2) 40 (omega arith))

  layer4_upper :
      40 ≤ length packet
      → byte_of packet 6 ≡ value nh
      → get_layer4_v6 (length packet + 2) packet 0 ≡ value (some 40)
  unfolding get_layer4_v6 enter
  layer4_upper h b =
      let e : ltb (length packet) 40 ≡ false = ground arith in
      rw (e, b) (layer4_first (length packet + 2) 40 (omega arith))

  header_length_upper :
      42 < length packet → byte_of packet 6 ≡ value nh → ipv6_header_length packet ≡ value (some 40)
  unfolding ipv6_header_length
  header_length_upper h b = rw b (header_first (length packet) (omega arith) h)

-- Where the walk of `ipv6_header_length` ends: nowhere, or inside the packet.
abbrev EndsInside : List ℕ → Option ℕ → Type 0
EndsInside packet none = Unit {0}
EndsInside packet (some n) = n + 2 < length packet

header_loop_lem :
    (fuel : ℕ) (packet : List ℕ) (next_header offset : ℕ)
    → 0 < fuel
    → length packet < fuel + offset
    → Ends (EndsInside packet) (header_loop fuel packet next_header offset)
unfolding header_loop
header_loop_lem zero packet next_header offset some_fuel enough = absurd (omega arith)
header_loop_lem (suc fuel) packet next_header offset some_fuel enough =
    elim (Bool-cases (ltb (2 + offset) (length packet))) [
      | inl more ↦ rw more (
          let inside : 2 + offset < length packet = ground arith in
          ends_if (EndsInside packet) (is_stepped next_header) _ _
            (λ t.
              let nh = byte_of_lem packet offset (omega arith) in
              let l = byte_of_lem packet (offset + 1) (omega arith) in
              ends_then (EndsInside packet) _ _ nh.0 nh.1 (
                ends_then (EndsInside packet) _ _ l.0 l.1 (
                  header_loop_lem fuel packet nh.0 (offset + (l.0 + 1) * 8) (omega arith)
                    (omega arith))))
            (λ t. (some offset, refl, omega arith)))
      | inr end ↦ rw end (none, refl, tt)
    ]

-- The walk ends within its fuel, reads only inside the packet, and ends there.
ipv6_header_length_lem :
    (packet : List ℕ) → 40 ≤ length packet → Ends (EndsInside packet) (ipv6_header_length packet)
unfolding ipv6_header_length
ipv6_header_length_lem packet long =
    let b = byte_of_lem packet 6 (omega arith) in
    ends_then (EndsInside packet) _ _ b.0 b.1
      (header_loop_lem (length packet) packet b.0 40 (omega arith) (omega arith))

-- A whole IPv6 packet without extension headers; `ip_len` is its payload length.
pub record IsUpperPacket (packet : List ℕ) (b nh ip_len : ℕ) : Type 0 where
  pub first : byte_of packet 0 ≡ value b
  pub version : b / 16 ≡ 6
  pub next : byte_of packet 6 ≡ value nh
  pub upper : IsUpper nh
  pub payload : be16_at packet 4 ≡ value ip_len
  pub room : 42 < length packet

fix6_to :
    (packet : List ℕ) (b nh ip_len : ℕ)
    → IsUpperPacket packet b nh ip_len
    → fix_ipv6_checksums packet true ≡ fix6_by packet (some 40) ip_len nh
unfolding fix_ipv6_checksums
fix6_to packet b nh ip_len p =
    let room = p.room in
    let long : ltb (length packet) 40 ≡ false = ground arith in
    rw
      (
        long,
        p.first,
        p.version,
        header_length_upper packet nh p.upper room p.next,
        p.payload,
        p.next,
      )
      refl

-- An IPv6 packet of bytes that was captured whole, without extension headers, with at most 65500
-- bytes of TCP, UDP with a checksum or ICMPv6, and a payload length that is right and, with its bytes
-- swapped, at least 40: afterwards the checksum is right, as the sum of addresses, protocol, length
-- and payload is 0. Nothing else changes, and the code reads and writes inside the packet.
pub fix_ipv6_checksums_lem :
    (packet : List ℕ) (b nh field len : ℕ)
    → IsUpperPacket packet b nh len
    → IsBytes packet
    → Carries6 packet 40 nh field len
    → len ≤ 65500
    → length packet ≡ 40 + len
    → 40 ≤ swap16 len
    → Ends (Sealed packet (40 + field) (Verifies v6 40 nh len)) (fix_ipv6_checksums packet true)
unfolding fix6_by do_checksum at_layer
fix_ipv6_checksums_lem packet b nh field len p bytes c short size swapped =
    let some_len = long_enough packet 40 nh field len c in
    let room = p.room in
    let e : ltb (swap16 len) 40 ≡ false = ground arith in
    let z : (len == 0) ≡ false = ground arith in
    let l : len + 40 - 40 ≡ len = omega arith in
    rw
      (
        fix6_to packet b nh len p,
        e,
        z,
        p.first,
        p.version,
        l4proto_upper packet nh p.upper (omega arith) p.next,
        layer4_upper packet nh p.upper (omega arith) p.next,
        l,
      )
      (by_upper packet nh field len bytes c short (omega arith))

-- On a whole IPv6 packet without extension headers whose payload length is below 40 with its bytes
-- swapped, as 256, 512 or 1280 bytes are, the checksum is not computed.
pub fix_ipv6_checksums_skips :
    (packet : List ℕ) (b nh ip_len : ℕ)
    → IsUpperPacket packet b nh ip_len
    → swap16 ip_len < 40
    → fix_ipv6_checksums packet true ≡ value (warn, packet)
unfolding fix6_by
fix_ipv6_checksums_skips packet b nh ip_len p swapped =
    let e : ltb (swap16 ip_len) 40 ≡ true = ground arith in
    rw (fix6_to packet b nh ip_len p, e) refl
