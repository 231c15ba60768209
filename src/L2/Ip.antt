-- ===== src/L2/Ip.antt =====
-- Where `get_ipv4` and `get_ipv6` find the IP header.
use tcpreplay.Prelude.{
  ℕ, ◌+◌, ◌/◌, ◌^◌, ◌≤◌, ◌<◌, ◌≡◌, ◌≢◌, refl, arith, false, List, ◌∷◌, Option, none, some, ◌==◌,
  length, bit_and, le→ltb,
}
use tcpreplay.Packet.{value, then_with, byte_of}
use tcpreplay.Packet.Laws.{Ends, ends_bind, ends_room, ends_if}
use tcpreplay.L2.{
  Layer2, fresh, ethertype_ip, ethertype_ip6, juniper_ether, link_of, ip_version, no_l2, by_flags,
  has_magic, extended, juniper, by_link, get_l2len_protocol, ip_offset, ip_header, get_ipv4,
  get_ipv6,
}
use tcpreplay.L2.Labels.{Reaches}
use tcpreplay.L2.Bounds.{by_link_starts}

-- A header of so many bytes that lies in the packet, or none.
abbrev pub Holds : List ℕ → ℕ → Option ℕ → Type 0
Holds packet size none = Unit {0}
Holds packet size (some p) = p + size ≤ length packet

ip_header_lem :
    (packet : List ℕ) (size ethertype : ℕ) (o : Option Layer2)
    → length packet < 2 ^ 31
    → Reaches packet 0 o
    → Ends (Holds packet size) (ip_header packet size ethertype o)
unfolding ip_header
ip_header_lem packet size ethertype none h r = (none, refl, tt)
ip_header_lem packet size ethertype (some s) h r =
    ends_room (Holds packet size) (length packet) (s.l2len + size) _ _ (none, refl, tt)
      (λ room.
        ends_if (Holds packet size) (s.protocol == ethertype) _ _
          (λ t. (some (ip_offset s), refl, omega arith)) (λ f. (none, refl, tt)))

found_lem :
    (packet : List ℕ) (datalink size ethertype : ℕ)
    → length packet < 2 ^ 31
    → link_of datalink ≢ juniper_ether
    → Ends
        (Holds packet size)
        (then_with (get_l2len_protocol packet datalink) (ip_header packet size ethertype))
unfolding get_l2len_protocol
found_lem packet datalink size ethertype h ne =
    ends_bind (Reaches packet 0) (Holds packet size) _ (ip_header packet size ethertype)
      (ends_if (Reaches packet 0) (length packet == 0) _ _ (λ t. (none, refl, tt))
        (λ f. by_link_starts packet (link_of datalink) ne (ground arith)))
      (λ o r. ip_header_lem packet size ethertype o h r)

-- On every link type but Juniper Ethernet, and a packet shorter than 2 ^ 31 bytes, `get_ipv4` gives
-- NULL or the place of 20 bytes in the packet, and `get_ipv6` NULL or the place of 40 bytes.
pub get_ipv4_lem :
    (packet : List ℕ) (datalink : ℕ)
    → length packet < 2 ^ 31
    → link_of datalink ≢ juniper_ether
    → Ends (Holds packet 20) (get_ipv4 packet datalink)
      × Ends (Holds packet 40) (get_ipv6 packet datalink)
unfolding get_ipv4 get_ipv6
get_ipv4_lem packet datalink h ne = (
  found_lem packet datalink 20 ethertype_ip h ne,
  found_lem packet datalink 40 ethertype_ip6 h ne,
)

-- A Juniper packet with the magic number, these flags and an IP header that starts with this byte.
abbrev pub plain_juniper : ℕ → ℕ → List ℕ → List ℕ
plain_juniper flags first rest = b'M' ∷ b'G' ∷ b'C' ∷ flags ∷ first ∷ rest

no_l2_value :
    (flags first : ℕ) (rest : List ℕ)
    → bit_and flags 0x80 ≡ 0
    → bit_and flags 0x02 ≡ 0x02
    → first / 16 ≡ 4
    → extended (plain_juniper flags first rest) flags
      ≡ value (some (record fresh { protocol = ethertype_ip; l2offset = 4 }))
unfolding extended by_flags no_l2 byte_of ip_version
no_l2_value flags first rest e n v =
    rw e (
      rw n
        (rw v (rw (le→ltb (length (plain_juniper flags first rest)) (4 + 1) (omega arith)) refl)))

wrapped_header :
    (packet : List ℕ)
    → 20 ≤ length packet
    → ip_header packet 20 ethertype_ip
        (some (record fresh { protocol = ethertype_ip; l2offset = 4 }))
      ≡ value (some (2 ^ 32))
unfolding ip_header
wrapped_header packet h = rw (le→ltb (length packet) (0 + 20) h) refl

-- A Juniper Ethernet packet with no layer 2 header and no extensions, and an IPv4 header of 20 bytes
-- behind the flags: `get_ipv4` gives a place 2 ^ 32 bytes behind the start of the packet.
pub get_ipv4_juniper :
    (flags first : ℕ) (rest : List ℕ)
    → bit_and flags 0x80 ≡ 0
    → bit_and flags 0x02 ≡ 0x02
    → first / 16 ≡ 4
    → 15 ≤ length rest
    → get_ipv4 (plain_juniper flags first rest) 178 ≡ value (some (2 ^ 32))
unfolding get_ipv4 get_l2len_protocol link_of by_link juniper has_magic byte_of ip_header
get_ipv4_juniper flags first rest e n v h =
    let packet = plain_juniper flags first rest in
    let some_bytes : (length packet == 0) ≡ false = ground arith in
    rw (no_l2_value flags first rest e n v) (
      rw (le→ltb (length packet) 4 (omega arith))
        (rw some_bytes (wrapped_header packet (omega arith))))
